-- ===== src/Session/Invariant.antt =====
-- What holds of the session of internal/session/service.go between two critical sections.
use tradeedge.Prelude.{
  ltb, Bool-cases, Result, ok, err, Text, is_empty, byte_len, trim_space, ℕ, ◌<◌, ◌≡◌, inl, inr,
  Bool, true, false, ◌||◌, none, some, arith,
}
use tradeedge.Session.{
  authenticated, error, LoadError, not_found, unreadable, ExchangeError, rejected_token,
  other_failure, SessionRecord, Service, has_control, valid_record, is_authenticated, new_service,
  refresh_expiry, status, begin_flight, begin_exchange, apply_exchange, finish_exchange,
}

-- An authenticated session has a valid record of the same expiry, and no exchange in flight; a
-- service blocked by a corrupt store stays in error, with none either.
pub record IsSound (s : Service) : Type 0 where
  pub authenticated_valid : s.status.state ≡ authenticated → valid_record s.session ≡ true
  pub authenticated_expiry :
      s.status.state ≡ authenticated → s.status.expires_at ≡ s.session.expires_at
  pub idle_when_authenticated : s.status.state ≡ authenticated → s.inflight ≡ none
  pub blocked_error : s.blocked ≡ true → s.status.state ≡ error
  pub blocked_idle : s.blocked ≡ true → s.inflight ≡ none

-- Whatever the store had, the service starts sound.
pub new_service-IsSound :
    (now : ℕ) (loaded : Result LoadError SessionRecord) → IsSound (new_service now loaded)
unfolding new_service
new_service-IsSound now (ok r) = ground arith
new_service-IsSound now (err not_found) = ground arith
new_service-IsSound now (err unreadable) = ground arith

pub refresh_expiry-IsSound : (now : ℕ) (s : Service) → IsSound s → IsSound (refresh_expiry now s)
unfolding refresh_expiry
refresh_expiry-IsSound now s h = ground arith

-- After a refresh an authenticated session has not expired.
pub refresh_expiry_lem :
    (now : ℕ) (s : Service)
    → (refresh_expiry now s).status.state ≡ authenticated
    → now < (refresh_expiry now s).status.expires_at
unfolding refresh_expiry
refresh_expiry_lem now s h = ground arith

pub status-IsSound :
    (cancelled : Bool) (now : ℕ) (s : Service) → IsSound s → IsSound (status cancelled now s).0
unfolding status
status-IsSound cancelled now s h = ground (arith, refresh_expiry-IsSound now s h)

begin_flight-IsSound :
    (key : ℕ) (s : Service)
    → IsSound s
    → s.blocked ≡ false
    → is_authenticated s.status.state ≡ false
    → IsSound (begin_flight key s).0
begin_flight-IsSound key s h b a = ground arith

pub begin_exchange-IsSound :
    (digest : Text → ℕ) (now : ℕ) (given : Text) (s : Service)
    → IsSound s
    → IsSound (begin_exchange digest now given s).0
unfolding begin_exchange refresh_expiry
begin_exchange-IsSound digest now given s h =
    let token = trim_space given in
    let t = refresh_expiry now s in
    let ht = refresh_expiry-IsSound now s h in
    elim (Bool-cases (is_empty token || ltb 2048 (byte_len token) || has_control token)) [
      | inl bad ↦ rw bad h
      | inr good ↦ elim (Bool-cases t.blocked) [
        | inl blocked ↦ rw (good, blocked) ht
        | inr open_ ↦ elim (Bool-cases (is_authenticated t.status.state)) [
          | inl there ↦ rw (good, open_, there) ht
          | inr needed ↦
              rw (good, open_, needed) (begin_flight-IsSound (digest token) t ht open_ needed)
        ]
      ]
    ]

-- An exchange finishes from the state that its beginning left: in flight.
pub finish_exchange-IsSound :
    (now : ℕ) (saved : Bool) (outcome : Result ExchangeError SessionRecord) (s : Service) {key : ℕ}
    → IsSound s
    → s.inflight ≡ some key
    → IsSound (finish_exchange now saved outcome s).0
unfolding finish_exchange apply_exchange
finish_exchange-IsSound now saved (ok r) s h f = ground arith
finish_exchange-IsSound now saved (err rejected_token) s h f = ground arith
finish_exchange-IsSound now saved (err other_failure) s h f = ground arith
