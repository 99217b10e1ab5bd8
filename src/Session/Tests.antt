-- ===== src/Session/Tests.antt =====
-- Runs of the session service.
use tradeedge.Prelude.{
  Result, ok, err, Text, ascii, byte_len, text_eq, trim_space, ℕ, ◌<◌, ◌≡◌, refl, ap, subst, ◌≢◌,
  ◌↔◌, true, false, none, some,
}
use tradeedge.Session.{
  login_required, authenticated, not_found, ExchangeError, provider_zerodha, SessionRecord,
  no_record, Service, has_control, valid_record, initial_status, new_service, refresh_expiry,
  status, joined, started, begin_exchange, apply_exchange, finish_exchange,
}
use tradeedge.Session.Invariant.{IsSound}
use tradeedge.Session.Flights.{
  began, finished, Reachable, made, stepped, Reachable-IsSound, status_authenticated,
  begin_exchange_single_flight, finish_exchange_succeeds,
}

abbrev digest_of : Text → ℕ
digest_of token = byte_len token

abbrev token : Text
token = ascii "abc"

abbrev given_record : SessionRecord
given_record = record {
  provider = provider_zerodha;
  access_token = token;
  expires_at = 200;
  authenticated_at = 100;
}

abbrev given_outcome : Result ExchangeError SessionRecord
given_outcome = ok given_record

abbrev asking : Service
asking = record {
  status = initial_status login_required 0 false;
  session = no_record;
  blocked = false;
  inflight = some 3;
}

abbrev logged_in : Service
logged_in = record {
  status = initial_status authenticated 200 false;
  session = given_record;
  blocked = false;
  inflight = none;
}

asking_run : begin_exchange digest_of 100 token (new_service 90 (err not_found)) ≡ (asking, started)
unfolding begin_exchange new_service refresh_expiry has_control trim_space
asking_run = refl

logged_in_run :
    finish_exchange 110 true (ok given_record) asking ≡ (logged_in, logged_in.status, none)
unfolding finish_exchange apply_exchange valid_record has_control trim_space text_eq
logged_in_run = refl

asking_reached : Reachable digest_of asking
asking_reached =
    subst (Reachable digest_of) (ap (λ p. p.0) asking_run)
      (stepped (made 90 (err not_found)) (began 100 token))

logged_in_reached : Reachable digest_of logged_in
logged_in_reached =
    subst (Reachable digest_of) (ap (λ p. p.0) logged_in_run)
      (stepped asking_reached (finished 110 true (ok given_record) 3 refl))

Reachable-IsSound_example : IsSound logged_in
Reachable-IsSound_example = Reachable-IsSound digest_of logged_in_reached

status_run : (status false 120 logged_in).1 ≡ ok logged_in.status
unfolding status refresh_expiry
status_run = refl

status_authenticated_example :
    (120 < 200)
    × (valid_record (status false 120 logged_in).0.session ≡ true)
    × (200 ≡ (status false 120 logged_in).0.session.expires_at)
status_authenticated_example =
    status_authenticated digest_of logged_in 120 logged_in.status logged_in_reached status_run refl

begin_exchange_single_flight_example :
    ((begin_exchange digest_of 100 token asking).1 ≡ started
      → (asking.inflight ≡ none)
        × ((begin_exchange digest_of 100 token asking).0.inflight
            ≡ some (digest_of (trim_space token))))
    × ((begin_exchange digest_of 100 token asking).1 ≢ started
        → (begin_exchange digest_of 100 token asking).0.inflight ≡ asking.inflight)
    × ((begin_exchange digest_of 100 token asking).1 ≡ joined
        → asking.inflight ≡ some (digest_of (trim_space token)))
begin_exchange_single_flight_example = begin_exchange_single_flight digest_of 100 token asking

finish_exchange_succeeds_example : ((finish_exchange 110 true given_outcome asking).2 ≡ none) ↔ (
    (r : SessionRecord) × (given_outcome ≡ ok r)
    × (valid_record r ≡ true)
    × (110 < r.expires_at)
    × (true ≡ true))
finish_exchange_succeeds_example = finish_exchange_succeeds 110 true given_outcome asking
