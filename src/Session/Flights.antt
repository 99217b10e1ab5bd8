-- ===== src/Session/Flights.antt =====
-- The exchanges of internal/session/service.go among all callers: every order of their critical
-- sections is a sequence of steps.
use tradeedge.Prelude.{
  Result, ok, err, Text, trim_space, ℕ, ◌<◌, ◌≡◌, refl, sym, subst, ◌≢◌, ◌↔◌, Bool, true, false,
  none, some, arith,
}
use tradeedge.Session.{
  authenticated, LoadError, ExchangeError, rejected_token, other_failure, Status, SessionRecord,
  Service, valid_record, new_service, refresh_expiry, status, joined, started, begin_exchange,
  apply_exchange, finish_exchange,
}
use tradeedge.Session.Invariant.{
  IsSound, new_service-IsSound, refresh_expiry-IsSound, refresh_expiry_lem, status-IsSound,
  begin_exchange-IsSound, finish_exchange-IsSound,
}

-- One critical section of some goroutine; the provider answers only the attempt that is in flight.
pub data Step (digest : Text → ℕ) (s : Service) : Service → Type 0 where
  asked : (cancelled : Bool) (now : ℕ) → Step digest s (status cancelled now s).0
  began : (now : ℕ) (given : Text) → Step digest s (begin_exchange digest now given s).0
  finished :
      (now : ℕ) (saved : Bool) (outcome : Result ExchangeError SessionRecord) (key : ℕ)
      → s.inflight ≡ some key
      → Step digest s (finish_exchange now saved outcome s).0

-- What a service can become, once it is made from what the store had.
pub data Reachable (digest : Text → ℕ) : Service → Type 0 where
  made :
      (now : ℕ) (loaded : Result LoadError SessionRecord)
      → Reachable digest (new_service now loaded)
  stepped : {s t : Service} → Reachable digest s → Step digest s t → Reachable digest t

Step-IsSound : (digest : Text → ℕ) {s t : Service} → IsSound s → Step digest s t → IsSound t
Step-IsSound digest h (asked cancelled now) = status-IsSound cancelled now _ h
Step-IsSound digest h (began now given) = begin_exchange-IsSound digest now given _ h
Step-IsSound digest h (finished now saved outcome key f) =
    finish_exchange-IsSound now saved outcome _ h f

-- In every interleaving of callers, each state of the service is sound: an authenticated session
-- has a valid record with the status's expiry and no exchange in flight, and a blocked service is
-- in error with none in flight.
pub Reachable-IsSound : (digest : Text → ℕ) {s : Service} → Reachable digest s → IsSound s
Reachable-IsSound digest (made now loaded) = new_service-IsSound now loaded
Reachable-IsSound digest (stepped r step) = Step-IsSound digest (Reachable-IsSound digest r) step

-- In every reachable state, a `Status` call that is not cancelled and answers authenticated is made
-- before the expiry it answers, and the service then holds a valid record of that expiry.
pub status_authenticated :
    (digest : Text → ℕ) (s : Service) (now : ℕ) (answer : Status)
    → Reachable digest s
    → (status false now s).1 ≡ ok answer
    → answer.state ≡ authenticated
    → (now < answer.expires_at)
      × (valid_record (status false now s).0.session ≡ true)
      × (answer.expires_at ≡ (status false now s).0.session.expires_at)
unfolding status
status_authenticated digest s now answer r e a =
    let t = refresh_expiry now s in
    let h = refresh_expiry-IsSound now s (Reachable-IsSound digest r) in
    let same : t.status ≡ answer = cc in
    let a' : t.status.state ≡ authenticated = cc in
    (
      subst (λ u. now < u.expires_at) same (refresh_expiry_lem now s a'),
      h.authenticated_valid a',
      rw (sym same) (h.authenticated_expiry a'),
    )

-- A call of `Exchange` becomes the attempt that calls the provider only when none is in flight, and
-- then its own digest is in flight. Every other call leaves what is in flight, and waits for an
-- attempt only if that is in flight under the digest of its own token.
pub begin_exchange_single_flight :
    (digest : Text → ℕ) (now : ℕ) (given : Text) (s : Service)
    → ((begin_exchange digest now given s).1 ≡ started
        → (s.inflight ≡ none)
          × ((begin_exchange digest now given s).0.inflight ≡ some (digest (trim_space given))))
      × ((begin_exchange digest now given s).1 ≢ started
          → (begin_exchange digest now given s).0.inflight ≡ s.inflight)
      × ((begin_exchange digest now given s).1 ≡ joined
          → s.inflight ≡ some (digest (trim_space given)))
unfolding begin_exchange refresh_expiry
begin_exchange_single_flight digest now given s = ground arith

finish_exchange_saved :
    (now : ℕ) (saved : Bool) (r t : SessionRecord) (s : Service)
    → r ≡ t
    → valid_record t ≡ true
    → now < t.expires_at
    → saved ≡ true
    → (finish_exchange now saved (ok r) s).2 ≡ none
unfolding finish_exchange apply_exchange
finish_exchange_saved now saved r t s same v x w =
    subst (λ u. (finish_exchange now saved (ok u) s).2 ≡ none) (sym same) (ground arith)

-- The attempt's answer is a success exactly when the provider gave a valid record that has not
-- expired and the store saved it.
pub finish_exchange_succeeds :
    (now : ℕ) (saved : Bool) (outcome : Result ExchangeError SessionRecord) (s : Service)
    → ((finish_exchange now saved outcome s).2 ≡ none) ↔ (
        (r : SessionRecord) × (outcome ≡ ok r)
        × (valid_record r ≡ true)
        × (now < r.expires_at)
        × (saved ≡ true))
unfolding finish_exchange apply_exchange
finish_exchange_succeeds now saved (ok r) s = (
  λ e. (r, refl, ground arith, ground arith, ground arith),
  λ (t, e, v, x, w). finish_exchange_saved now saved r t s (cc) v x w,
)
finish_exchange_succeeds now saved (err rejected_token) s = (λ e. cc, λ (t, e, v, x, w). cc)
finish_exchange_succeeds now saved (err other_failure) s = (λ e. cc, λ (t, e, v, x, w). cc)
