-- ===== src/Control/Latch.antt =====
-- The latch of internal/operations/control/controller.go: what blocks new exposure is never undone.
use tradeedge.Prelude.{
  if◌then◌else◌, Bool-cases, wrap_u64, Result, err, ok, reject_if-eq-ok, >>=-eq-ok, Text, ascii,
  trim_space, to_upper, ℕ, suc, ◌+◌, ◌<◌, ◌≡◌, refl, inl, inr, Bool, true, false, not, ◌&&◌, some,
  [], arith,
}
use tradeedge.Control.{
  Error, not_written, EodState, completed, failed, Snapshot, Controller, is_idle, is_completed,
  is_requested, finalize, persist, enqueue, conclude, commit, command_new, command, launch,
  begin_eod, written_or, finish_eod,
}

-- An EOD close that was ever requested blocks new exposure.
abbrev pub IsLatched : Snapshot → Type 0
IsLatched s = is_idle s.eod ≡ false → s.new_exposure_blocked ≡ true

abbrev sealed : (Snapshot → ℕ) → Snapshot → Snapshot
sealed seal s = record s { checksum = seal (record s { checksum = 0 }) }

finalize-eq-ok :
    (seal : Snapshot → ℕ) (s : Snapshot) {v : Snapshot} → finalize seal s ≡ ok v → v ≡ sealed seal s
unfolding finalize
finalize-eq-ok seal s {v} h = ground arith

pub persist-eq-ok :
    (seal : Snapshot → ℕ) (written : Bool) (c : Controller) {next : Controller}
    → persist seal written c ≡ ok next
    → next
      ≡ record c { snapshot = sealed seal (c.snapshot); stored = some (sealed seal (c.snapshot)) }
unfolding persist
persist-eq-ok seal written c {next} h =
    let (v, e, k1) = >>=-eq-ok (finalize seal c.snapshot) _ h in
    let (_, k2) = reject_if-eq-ok (not written) not_written _ k1 in
    let same = finalize-eq-ok seal c.snapshot e in
    let last : next ≡ record c { snapshot = v; stored = some v } = cc in rw (last, same) refl

-- From `s` to a snapshot that is latched, and blocked if `s` is.
pub record Holds (s t : Snapshot) : Type 0 where
  pub latched : IsLatched t
  pub stays : s.new_exposure_blocked ≡ true → t.new_exposure_blocked ≡ true

persist-Holds :
    (seal : Snapshot → ℕ) (written : Bool) (c : Controller) {next : Controller} (s : Snapshot)
    → Holds s c.snapshot
    → persist seal written c ≡ ok next
    → Holds s next.snapshot
persist-Holds seal written c s h e =
    rw (persist-eq-ok seal written c e) (record { latched = h.latched; stays = h.stays })

enqueue-Holds :
    (s : Snapshot) (is_eod : Bool) (id action reason : Text) (now : ℕ)
    → Holds s (enqueue s is_eod id action reason now)
unfolding enqueue
enqueue-Holds s is_eod id action reason now = record { latched = λ _. refl; stays = λ _. refl }

conclude-Holds :
    (s : Snapshot) (before : Controller) (r : Result Error Controller)
    → Holds s before.snapshot
    → ((next : Controller) → r ≡ ok next → Holds s next.snapshot)
    → Holds s (conclude before r).0.snapshot
unfolding conclude
conclude-Holds s before (err e) h k = h
conclude-Holds s before (ok next) h k = k next refl

commit-Holds :
    (seal : Snapshot → ℕ) (written is_eod : Bool) (id action reason : Text) (now : ℕ)
    (c : Controller)
    → IsLatched c.snapshot
    → Holds c.snapshot (commit seal written is_eod id action reason now c).0.snapshot
unfolding commit
commit-Holds seal written is_eod id action reason now c h =
    conclude-Holds c.snapshot _ _ (record { latched = h; stays = λ b. b })
      (λ next e.
        persist-Holds seal written _ c.snapshot
          (enqueue-Holds c.snapshot is_eod id action reason now) e)

pub unmoved-Holds : (s : Snapshot) → IsLatched s → Holds s s
unmoved-Holds s h = record { latched = h; stays = λ b. b }

command_new-Holds :
    (seal : Snapshot → ℕ) (written is_eod : Bool) (id action reason : Text) (now : ℕ)
    (c : Controller)
    → IsLatched c.snapshot
    → Holds c.snapshot (command_new seal written is_eod id action reason now c).0.snapshot
unfolding command_new
command_new-Holds seal written is_eod id action reason now c h =
    elim (Bool-cases (is_eod && is_completed c.snapshot.eod)) [
      | inl done ↦ rw done (record { latched = λ _. refl; stays = λ _. refl })
      | inr open_ ↦ rw open_ (commit-Holds seal written is_eod id action reason now c h)
    ]

pub command-Holds :
    (seal : Snapshot → ℕ) (written stopped is_eod : Bool) (id action reason : Text) (now : ℕ)
    (c : Controller)
    → IsLatched c.snapshot
    → Holds c.snapshot (command seal written stopped is_eod id action reason now c).0.snapshot
unfolding command
command-Holds seal written stopped is_eod id action reason now c h = ground (
  arith,
  unmoved-Holds c.snapshot h,
  command_new-Holds seal written is_eod (trim_space id) action (to_upper (trim_space reason)) now c
      h,
)

launch-Holds :
    (s : Snapshot) (c : Controller) (r : Result Error Controller)
    → s.new_exposure_blocked ≡ true
    → c.snapshot.new_exposure_blocked ≡ true
    → ((next : Controller) → r ≡ ok next → Holds s next.snapshot)
    → Holds s (launch c r).0.snapshot
unfolding launch
launch-Holds s c (err e) b d k = record { latched = λ _. d; stays = λ _. d }
launch-Holds s c (ok next) b d k = k next refl

pub begin_eod-Holds :
    (seal : Snapshot → ℕ) (written : Bool) (c : Controller)
    → IsLatched c.snapshot
    → Holds c.snapshot (begin_eod seal written c).0.snapshot
unfolding begin_eod
begin_eod-Holds seal written c h = elim (Bool-cases (is_requested c.snapshot.eod)) [
  | inl asked ↦
      let b = h (requested_lem c.snapshot.eod asked) in
      rw asked (
        launch-Holds c.snapshot _ _ b b (λ next e.
          persist-Holds seal written _ c.snapshot (record { latched = λ _. b; stays = λ _. b }) e))
  | inr idle_ ↦ rw idle_ (unmoved-Holds c.snapshot h)
]
  where
    requested_lem : (e : EodState) → is_requested e ≡ true → is_idle e ≡ false
    requested_lem e h = ground arith

written_or-Holds :
    (s : Snapshot) (c : Controller) (r : Result Error Controller)
    → Holds s c.snapshot
    → ((next : Controller) → r ≡ ok next → Holds s next.snapshot)
    → Holds s (written_or c r).snapshot
unfolding written_or
written_or-Holds s c (err e) h k = h
written_or-Holds s c (ok next) h k = k next refl

-- The runner is called only after an EOD is requested, so that new exposure is blocked.
pub finish_eod-Holds :
    (seal : Snapshot → ℕ) (written success : Bool) (c : Controller)
    → c.snapshot.new_exposure_blocked ≡ true
    → Holds c.snapshot (finish_eod seal written success c).snapshot
unfolding finish_eod
finish_eod-Holds seal written success c b =
    let c1 : Controller = record c {
      snapshot = record (c.snapshot) {
        revision = wrap_u64 (c.snapshot.revision + 1);
        eod = if success then completed else failed;
        last_error = if success then [] else ascii "EOD_SEQUENCE_FAILED";
      };
    } in
    let h : Holds c.snapshot c1.snapshot = record { latched = λ _. b; stays = λ _. b } in
    written_or-Holds c.snapshot c1 (persist seal written c1) h
      (λ next e. persist-Holds seal written c1 c.snapshot h e)

-- Controls in use: commands, and runs of the EOD sequence whose parts interleave, with the number of
-- runners out.
pub data Run (seal : Snapshot → ℕ) (c : Controller) : ℕ → Controller → Type 0 where
  start : Run seal c 0 c
  commanded :
      {n : ℕ} {t : Controller}
      → Run seal c n t
      → (written stopped is_eod : Bool) (id action reason : Text) (now : ℕ)
      → Run seal c n (command seal written stopped is_eod id action reason now t).0
  begun :
      {n : ℕ} {t : Controller}
      → Run seal c n t
      → (written : Bool)
      → Run seal c (if (begin_eod seal written t).1 then suc n else n) (begin_eod seal written t).0
  ended :
      {n : ℕ} {t : Controller}
      → Run seal c (suc n) t
      → (written success : Bool) → Run seal c n (finish_eod seal written success t)

Holds-trans : {s t u : Snapshot} → Holds s t → Holds t u → Holds s u
Holds-trans h k = record { latched = k.latched; stays = λ b. k.stays (h.stays b) }

launched_blocked :
    (seal : Snapshot → ℕ) (written : Bool) (c : Controller)
    → IsLatched c.snapshot
    → (begin_eod seal written c).1 ≡ true
    → c.snapshot.new_exposure_blocked ≡ true
unfolding begin_eod
launched_blocked seal written c h e = ground arith

-- In every interleaving of commands and EOD runs that starts latched, the controls stay latched: an
-- EOD that is not idle blocks new exposure, and so does a runner that is out; and new exposure that
-- was blocked at the start is blocked at the end.
pub Run-Holds :
    (seal : Snapshot → ℕ) (c : Controller) {n : ℕ} {t : Controller}
    → IsLatched c.snapshot
    → Run seal c n t
    → Holds c.snapshot t.snapshot × (0 < n → t.snapshot.new_exposure_blocked ≡ true)
Run-Holds seal c l start = (unmoved-Holds c.snapshot l, λ p. ground arith)
Run-Holds seal c l (commanded {t = t} run written stopped is_eod id action reason now) =
    let (h, out) = Run-Holds seal c l run in
    let k = command-Holds seal written stopped is_eod id action reason now t h.latched in
    (Holds-trans h k, λ p. k.stays (out p))
Run-Holds seal c l (begun {n = n} {t = t} run written) =
    let (h, out) = Run-Holds seal c l run in
    let k = begin_eod-Holds seal written t h.latched in
    (
      Holds-trans h k,
      elim (Bool-cases (begin_eod seal written t).1) [
        | inl b ↦ λ _. k.stays (launched_blocked seal written t h.latched b)
        | inr b ↦ rw b (λ p. k.stays (out p))
      ],
    )
Run-Holds seal c l (ended {t = t} run written success) =
    let (h, out) = Run-Holds seal c l run in
    let b = out (omega arith) in
    let k = finish_eod-Holds seal written success t b in (Holds-trans h k, λ _. k.stays b)
