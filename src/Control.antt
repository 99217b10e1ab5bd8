-- ===== src/Control.antt =====
-- internal/operations/control/controller.go: the operator's controls, STOP_NEW_EXPOSURE and EOD_CLOSE.
-- Each critical section under the mutex is one operation; `written` says whether the file was
-- written and renamed, and `stored` is what the file holds. SHA-256 of the JSON of a snapshot is
-- the argument `seal`. The path's checks, the HTTP server and the socket are left out.
pub mod Latch
pub mod Requests
pub mod Handler
mod Tests
use tradeedge.Prelude.{
  ltb, leb, ◌==◌, if◌then◌else◌, wrap_u64, Result, err, ok, reject_if, ◌>>=◌, ◌>>◌, Text, ascii,
  is_empty, byte_len, text_eq, trim_space, to_upper, ℕ, zero, suc, ◌+◌, ◌-◌, Bool, true, false, not,
  ◌&&◌, ◌||◌, Option, none, some, List, [], ◌∷◌, ◌++◌,
}

pub data Error : Type 0 where
  invalid corrupt cancelled not_read not_written : Error

pub data EodState : Type 0 where
  idle requested running completed failed other : EodState

-- `SchemaVersion`
abbrev pub control_schema : Text
control_schema = ascii "tradeedge-operator-controls/v1"

abbrev pub stop_new_exposure : Text
stop_new_exposure = ascii "STOP_NEW_EXPOSURE"

abbrev pub eod_close : Text
eod_close = ascii "EOD_CLOSE"

pub record Command : Type 0 where
  pub revision : ℕ
  pub request_id : Text
  pub action : Text
  pub reason : Text
  pub at : ℕ

pub record Snapshot : Type 0 where
  pub schema_version : Text
  pub revision : ℕ
  pub new_exposure_blocked : Bool
  pub eod : EodState
  pub last_error : Text
  pub commands : List Command
  pub checksum : ℕ

-- The requests known, each with its action and reason.
pub record Controller : Type 0 where
  pub snapshot : Snapshot
  pub requests : List (Text × Text)
  pub stored : Option Snapshot

-- How `os.ReadFile` and the decoder end, other than with a snapshot.
pub data ReadError : Type 0 where
  not_exist unreadable undecodable : ReadError

abbrev is_known_eod : EodState → Bool
is_known_eod other = false
is_known_eod _ = true

abbrev pub is_idle : EodState → Bool
is_idle idle = true
is_idle _ = false

abbrev pub is_completed : EodState → Bool
is_completed completed = true
is_completed _ = false

abbrev pub is_requested : EodState → Bool
is_requested requested = true
is_requested _ = false

abbrev pub is_running : EodState → Bool
is_running running = true
is_running _ = false

unfoldable pub count : List Command → ℕ
count [] = 0
count (_ ∷ cs) = suc (count cs)

-- The guard on one command, after one of revision `previous` or, at 0, as the first.
unfoldable pub bad_command : Command → ℕ → Bool
bad_command c previous =
    (c.revision == 0)
    || is_empty c.request_id
    || is_empty c.reason
    || (c.at == 0)
    || (not (text_eq c.action stop_new_exposure) && not (text_eq c.action eod_close))
    || leb c.revision previous

-- The loop of `finalize` over the commands.
unfoldable pub bad_commands : List Command → ℕ → Bool
unfolding bad_command
bad_commands [] previous = false
bad_commands (c ∷ cs) previous = bad_command c previous || bad_commands cs c.revision

-- `finalize`
unfoldable pub finalize : (Snapshot → ℕ) → Snapshot → Result Error Snapshot
finalize seal given =
    let value = record given { checksum = 0 } in
    do
      reject_if
          (not (text_eq value.schema_version control_schema) || ltb 1024 (count value.commands))
          corrupt
      reject_if (not (is_known_eod value.eod)) corrupt
      reject_if (bad_commands value.commands 0) corrupt
      ok (record value { checksum = seal value })

-- `persistLocked`
unfoldable pub persist : (Snapshot → ℕ) → Bool → Controller → Result Error Controller
persist seal written c = do
  validated ← finalize seal c.snapshot
  reject_if (not written) not_written
  ok (record c { snapshot = validated; stored = some validated })

-- `load`, after the file is read and decoded.
unfoldable pub load : (Snapshot → ℕ) → Snapshot → Result Error Snapshot
load seal value = do
  validated ← finalize seal value
  reject_if (not (validated.checksum == value.checksum)) corrupt
  ok value

unfoldable pub request_key : Text → Text → Text
request_key action reason = action ++ (ascii "|" ++ reason)

-- The loop of `New` over the commands: a later one replaces an earlier one of the same request.
unfoldable pub known_requests : List Command → List (Text × Text) → List (Text × Text)
known_requests [] known = known
known_requests (c ∷ cs) known =
    known_requests cs ((c.request_id, request_key c.action c.reason) ∷ known)

abbrev start_controller : Snapshot → Option Snapshot → List (Text × Text) → Controller
start_controller s stored requests = record { snapshot = s; requests = requests; stored = stored }

-- An EOD that a restart interrupts has failed.
unfoldable pub recover : (Snapshot → ℕ) → Bool → Snapshot → Snapshot → Result Error Controller
recover seal written on_disk loaded =
    let c = start_controller loaded (some on_disk) (known_requests loaded.commands []) in
    if is_requested loaded.eod || is_running loaded.eod
    then persist seal written (record c {
      snapshot = record loaded {
        new_exposure_blocked = true;
        eod = failed;
        last_error = ascii "UNCLEAN_EOD_RESTART";
      };
    })
    else ok c

-- `New`
unfoldable pub new_controller :
    (Snapshot → ℕ) → Bool → Result ReadError Snapshot → Result Error Controller
new_controller seal written (ok on_disk) = do
  loaded ← load seal on_disk
  recover seal written on_disk loaded
new_controller seal written (err not_exist) = persist seal written (
    start_controller
      (record {
        schema_version = control_schema;
        revision = 0;
        new_exposure_blocked = false;
        eod = idle;
        last_error = [];
        commands = [];
        checksum = 0;
      })
      none [])
new_controller seal written (err unreadable) = err not_read
new_controller seal written (err undecodable) = err corrupt

-- `stable`: `^[A-Z0-9][A-Z0-9_.:-]{0,127}$`
abbrev is_leading : ℕ → Bool
is_leading c = (leb 65 c && leb c 90) || (leb 48 c && leb c 57)

unfoldable pub all_stable : Text → Bool
all_stable [] = true
all_stable (c ∷ s) =
    (is_leading c || (c == 95) || (c == 46) || (c == 58) || (c == 45)) && all_stable s

unfoldable pub is_stable : Text → Bool
is_stable [] = false
is_stable (c ∷ s) = is_leading c && all_stable s && leb (byte_len s) 127

unfoldable pub find_request : Text → List (Text × Text) → Option Text
find_request id [] = none
find_request id ((known, key) ∷ rest) = if text_eq known id then some key else find_request id rest

-- `delete`
unfoldable pub delete_request : Text → List (Text × Text) → List (Text × Text)
delete_request id [] = []
delete_request id ((known, key) ∷ rest) =
    let others = delete_request id rest in
    if text_eq known id then others else (known, key) ∷ others

unfoldable pub drop_commands : ℕ → List Command → List Command
drop_commands zero cs = cs
drop_commands (suc n) [] = []
drop_commands (suc n) (_ ∷ cs) = drop_commands n cs

-- The last 1024 commands.
unfoldable pub keep_last : List Command → List Command
keep_last cs = if ltb 1024 (count cs) then drop_commands (count cs - 1024) cs else cs

-- What a command answers; a conflict comes with the snapshot.
pub data Answer : Type 0 where
  accepted : Snapshot → Answer
  conflict : Snapshot → Answer
  refused : Error → Answer

-- The snapshot with one more command.
unfoldable pub enqueue : Snapshot → Bool → Text → Text → Text → ℕ → Snapshot
enqueue s is_eod id action reason now =
    let revision = wrap_u64 (s.revision + 1) in
    record s {
      revision = revision;
      new_exposure_blocked = true;
      eod = if is_eod then requested else s.eod;
      commands = keep_last (
          s.commands
          ++ (record {
            revision = revision;
            request_id = id;
            action = action;
            reason = reason;
            at = now;
          }
              ∷ []));
    }

-- The controller after the file is written, or `before` if it is not.
unfoldable pub conclude : Controller → Result Error Controller → Controller × Answer
conclude before (err e) = (before, refused e)
conclude before (ok next) = (next, accepted next.snapshot)

unfoldable pub commit :
    (Snapshot → ℕ) → Bool → Bool → Text → Text → Text → ℕ → Controller → Controller × Answer
commit seal written is_eod id action reason now c =
    let requests = (id, request_key action reason) ∷ c.requests in
    conclude (record c { requests = delete_request id requests })
      (persist seal written (record c {
        snapshot = enqueue c.snapshot is_eod id action reason now;
        requests = requests;
      }))

-- A new request; an EOD that is complete is not requested again.
unfoldable pub command_new :
    (Snapshot → ℕ) → Bool → Bool → Text → Text → Text → ℕ → Controller → Controller × Answer
command_new seal written is_eod id action reason now c =
    let s : Snapshot = record (c.snapshot) {
      revision = wrap_u64 (c.snapshot.revision + 1);
      new_exposure_blocked = true;
    } in
    if is_eod && is_completed c.snapshot.eod
    then (record c { snapshot = s }, conflict s)
    else commit seal written is_eod id action reason now c

-- `command`; `stopped` says whether the context was cancelled.
unfoldable pub command :
    (Snapshot → ℕ) → Bool → Bool → Bool → Text → Text → Text → ℕ → Controller → Controller × Answer
command seal written stopped is_eod given_id action given_reason now c =
    let id = trim_space given_id in
    let reason = to_upper (trim_space given_reason) in
    if stopped
    then (c, refused cancelled)
    else if not (is_stable id) || not (is_stable reason)
    then (c, refused invalid)
    else elim (find_request id c.requests) [
      | some existing ↦
          if not (text_eq existing (request_key action reason))
          then (c, conflict c.snapshot)
          else (c, accepted c.snapshot)
      | none ↦ command_new seal written is_eod id action reason now c
    ]

-- The first part of an EOD, once its start is written; the answer says whether the runner is called.
unfoldable pub launch : Controller → Result Error Controller → Controller × Bool
launch c (err _) = (
  record c {
    snapshot = record (c.snapshot) {
      eod = failed;
      last_error = ascii "CONTROL_PERSISTENCE_FAILED";
    };
  },
  false,
)
launch c (ok next) = (next, true)

-- `runEOD` up to the call of the runner.
unfoldable pub begin_eod : (Snapshot → ℕ) → Bool → Controller → Controller × Bool
begin_eod seal written c =
    let c1 : Controller = record c {
      snapshot = record (c.snapshot) {
        eod = running;
        revision = wrap_u64 (c.snapshot.revision + 1);
      };
    } in
    if not (is_requested c.snapshot.eod) then (c, false) else launch c1 (persist seal written c1)

unfoldable pub written_or : Controller → Result Error Controller → Controller
written_or c (err _) = c
written_or c (ok next) = next

-- `runEOD` after the call of the runner, which succeeds or not; an error of the file is dropped.
unfoldable pub finish_eod : (Snapshot → ℕ) → Bool → Bool → Controller → Controller
finish_eod seal written success c =
    let c1 : Controller = record c {
      snapshot = record (c.snapshot) {
        revision = wrap_u64 (c.snapshot.revision + 1);
        eod = if success then completed else failed;
        last_error = if success then [] else ascii "EOD_SEQUENCE_FAILED";
      };
    } in
    written_or c1 (persist seal written c1)
