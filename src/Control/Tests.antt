-- ===== src/Control/Tests.antt =====
-- Runs of the operator's controls.
use tradeedge.Prelude.{
  ascii, text_eq, trim_space, ℕ, ◌<◌, ◌≡◌, refl, subst, true, false, none, some, [], ◌∷◌,
}
use tradeedge.Control.{
  not_written, idle, requested, control_schema, eod_close, Command, Snapshot, Controller, count,
  bad_command, bad_commands, finalize, persist, request_key, all_stable, is_stable, find_request,
  keep_last, accepted, refused, enqueue, conclude, commit, command_new, command,
}
use tradeedge.Control.Latch.{IsLatched, Holds, Run, start, commanded, Run-Holds}
use tradeedge.Control.Requests.{command_refused_lem}

abbrev seal_one : Snapshot → ℕ
seal_one s = 1

abbrev opened_controls : Controller
opened_controls = record {
  snapshot = record {
    schema_version = control_schema;
    revision = 0;
    new_exposure_blocked = false;
    eod = idle;
    last_error = [];
    commands = [];
    checksum = 1;
  };
  requests = [];
  stored = none;
}

abbrev close_command : Command
close_command = record {
  revision = 1;
  request_id = ascii "E1";
  action = eod_close;
  reason = ascii "DONE";
  at = 5;
}

abbrev closing_snapshot : Snapshot
closing_snapshot = record {
  schema_version = control_schema;
  revision = 1;
  new_exposure_blocked = true;
  eod = requested;
  last_error = [];
  commands = close_command ∷ [];
  checksum = 1;
}

abbrev closing : Controller
closing = record {
  snapshot = closing_snapshot;
  requests = (ascii "E1", ascii "EOD_CLOSE|DONE") ∷ [];
  stored = some closing_snapshot;
}

closing_run :
    command seal_one true false true (ascii "E1") eod_close (ascii "done") 5 opened_controls
    ≡ (closing, accepted closing_snapshot)
unfolding command command_new commit conclude persist finalize enqueue keep_last count bad_commands
    bad_command find_request request_key is_stable all_stable trim_space text_eq
closing_run = refl

opened-IsLatched : IsLatched opened_controls.snapshot
opened-IsLatched h = cc

Run-Holds_example : Holds opened_controls.snapshot closing.snapshot × (0 < 0 → true ≡ true)
Run-Holds_example = Run-Holds seal_one opened_controls opened-IsLatched (
    subst (λ p. Run seal_one opened_controls 0 p.0) closing_run
      (commanded start true false true (ascii "E1") eod_close (ascii "done") 5))

unwritten_run :
    (command seal_one false false true (ascii "E1") eod_close (ascii "done") 5 opened_controls).1
    ≡ refused not_written
unfolding command command_new commit conclude persist finalize enqueue keep_last count bad_commands
    bad_command find_request request_key is_stable all_stable trim_space text_eq
unwritten_run = refl

command_refused_lem_example :
    (command seal_one false false true (ascii "E1") eod_close (ascii "done") 5 opened_controls).0
    ≡ opened_controls
command_refused_lem_example =
    command_refused_lem seal_one false false true (ascii "E1") eod_close (ascii "done") 5
      opened_controls not_written unwritten_run
