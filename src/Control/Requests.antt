-- ===== src/Control/Requests.antt =====
-- Requests of internal/operations/control/controller.go: a command is applied once, or not at all.
use tradeedge.Prelude.{
  Bool-cases, Result, err, ok, Text, text_eq, text_eq_refl, trim_space, to_upper, ℕ, ◌≡◌, refl, ap,
  ◌∙◌, inl, inr, Bool, none, some, List, [], ◌∷◌, arith,
}
use tradeedge.Control.{
  Error, Snapshot, Controller, request_key, find_request, delete_request, refused, conclude, commit,
  command_new, command,
}

delete_unknown :
    (id : Text) (rs : List (Text × Text)) → find_request id rs ≡ none → delete_request id rs ≡ rs
unfolding find_request delete_request
delete_unknown id [] h = refl
delete_unknown id ((known, key) ∷ rest) h = elim (Bool-cases (text_eq known id)) [
  | inl same ↦ absurd (found (rw (find_request, same) at h))
  | inr apart ↦ rw (apart, delete_unknown id rest (rw (find_request, apart) at h)) refl
]
  where
    found : {k : Text} → some k ≡ none → ⊥
    found e = cc

delete_added :
    (id key : Text) (rs : List (Text × Text))
    → find_request id rs ≡ none
    → delete_request id ((id, key) ∷ rs) ≡ rs
unfolding delete_request
delete_added id key rs h = rw (text_eq_refl id) (delete_unknown id rs h)

conclude_refused :
    (before : Controller) (r : Result Error Controller) (e : Error)
    → (conclude before r).1 ≡ refused e
    → (conclude before r).0 ≡ before
unfolding conclude
conclude_refused before (err f) e h = refl
conclude_refused before (ok next) e h = cc

commit_refused :
    (seal : Snapshot → ℕ) (written is_eod : Bool) (id action reason : Text) (now : ℕ)
    (c : Controller) (e : Error)
    → find_request id c.requests ≡ none
    → (commit seal written is_eod id action reason now c).1 ≡ refused e
    → (commit seal written is_eod id action reason now c).0 ≡ c
unfolding commit
commit_refused seal written is_eod id action reason now c e f h =
    conclude_refused _ _ e h
    ∙ ap (λ rs. record c { requests = rs })
        (delete_added id (request_key action reason) c.requests f)

command_new_refused :
    (seal : Snapshot → ℕ) (written is_eod : Bool) (id action reason : Text) (now : ℕ)
    (c : Controller) (e : Error)
    → find_request id c.requests ≡ none
    → (command_new seal written is_eod id action reason now c).1 ≡ refused e
    → (command_new seal written is_eod id action reason now c).0 ≡ c
unfolding command_new
command_new_refused seal written is_eod id action reason now c e f h =
    ground (arith, commit_refused seal written is_eod id action reason now c e f)

-- A command that is refused, for its context, its identifier or reason, or because the file could
-- not be written, leaves the controller as it was: the snapshot, the known requests and the file.
pub command_refused_lem :
    (seal : Snapshot → ℕ) (written stopped is_eod : Bool) (id action reason : Text) (now : ℕ)
    (c : Controller) (e : Error)
    → (command seal written stopped is_eod id action reason now c).1 ≡ refused e
    → (command seal written stopped is_eod id action reason now c).0 ≡ c
unfolding command
command_refused_lem seal written stopped is_eod id action reason now c e h = ground (
  arith,
  command_new_refused seal written is_eod (trim_space id) action (to_upper (trim_space reason)) now
      c e,
)
