-- ===== src/Session.antt =====
-- internal/session/service.go: the broker session, its expiry, and the exchange of a request token.
-- Each critical section under the mutex is one operation: an exchange begins in one and, after the
-- call of the provider, finishes in another, with the calls of other goroutines between. What the
-- clock, the store and the provider answer are arguments; SHA-256 of a token is the argument `digest`.
pub mod Invariant
pub mod Flights
mod Tests
use tradeedge.Prelude.{
  ltb, ◌==◌, if◌then◌else◌, Result, ok, err, Text, ascii, is_empty, byte_len, text_eq, trim_space,
  ℕ, Bool, true, false, not, ◌&&◌, ◌||◌, Option, none, some, [], ◌∷◌,
}

pub data SessionState : Type 0 where
  login_required authenticated expired error : SessionState

pub data Error : Type 0 where
  context_error corrupt invalid_request_token unavailable busy provider_failure : Error

-- How `Store.Load` fails: `ErrNotFound`, or another way.
pub data LoadError : Type 0 where
  not_found unreadable : LoadError

-- How `AuthPort.Exchange` fails: `ErrInvalidRequestToken`, or another way.
pub data ExchangeError : Type 0 where
  rejected_token other_failure : ExchangeError

-- `ProviderZerodha`
abbrev pub provider_zerodha : Text
provider_zerodha = ascii "zerodha"

pub record Status : Type 0 where
  pub provider : Text
  pub state : SessionState
  pub expires_at : ℕ
  pub reused : Bool

pub record SessionRecord : Type 0 where
  pub provider : Text
  pub access_token : Text
  pub expires_at : ℕ
  pub authenticated_at : ℕ

-- `Record{}`
abbrev pub no_record : SessionRecord
no_record = record { provider = []; access_token = []; expires_at = 0; authenticated_at = 0 }

-- The attempt in flight is known by the digest of its token.
pub record Service : Type 0 where
  pub status : Status
  pub session : SessionRecord
  pub blocked : Bool
  pub inflight : Option ℕ

-- `strings.ContainsAny(s, "\r\n\x00")`
unfoldable pub has_control : Text → Bool
has_control [] = false
has_control (c ∷ s) = (c == 13) || (c == 10) || (c == 0) || has_control s

-- `validRecord`
unfoldable pub valid_record : SessionRecord → Bool
valid_record r =
    text_eq r.provider provider_zerodha
    && not (is_empty (trim_space r.access_token))
    && not (r.expires_at == 0)
    && not (r.authenticated_at == 0)
    && not (ltb r.expires_at r.authenticated_at)
    && not (has_control r.access_token)

abbrev is_authenticated : SessionState → Bool
is_authenticated authenticated = true
is_authenticated _ = false

abbrev initial_status : SessionState → ℕ → Bool → Status
initial_status state expires_at reused = record {
  provider = provider_zerodha;
  state = state;
  expires_at = expires_at;
  reused = reused;
}

-- `NewService`, from what the store had; the nil arguments that it refuses are not modelled.
unfoldable pub new_service : ℕ → Result LoadError SessionRecord → Service
new_service now (ok r) =
    if not (valid_record r)
    then record {
      status = initial_status error 0 false;
      session = no_record;
      blocked = true;
      inflight = none;
    }
    else if ltb now r.expires_at
    then record {
      status = initial_status authenticated r.expires_at true;
      session = r;
      blocked = false;
      inflight = none;
    }
    else record {
      status = initial_status expired r.expires_at false;
      session = r;
      blocked = false;
      inflight = none;
    }
new_service now (err not_found) = record {
  status = initial_status login_required 0 false;
  session = no_record;
  blocked = false;
  inflight = none;
}
new_service now (err unreadable) = record {
  status = initial_status error 0 false;
  session = no_record;
  blocked = true;
  inflight = none;
}

-- `refreshExpiryLocked`
unfoldable pub refresh_expiry : ℕ → Service → Service
refresh_expiry now s =
    if is_authenticated s.status.state && not (ltb now s.status.expires_at)
    then record s {
      status = record (s.status) { state = expired; reused = false };
      session = no_record;
    }
    else s

-- `Status`
unfoldable pub status : Bool → ℕ → Service → Service × Result Error Status
status cancelled now s =
    if cancelled then (s, err context_error) else let t = refresh_expiry now s in (t, ok t.status)

-- How the first part of an exchange ends: with an answer, waiting for the attempt in flight, or as
-- the attempt that calls the provider.
pub data Begin : Type 0 where
  answered : Status → Option Error → Begin
  joined : Begin
  started : Begin

abbrev begin_flight : ℕ → Service → Service × Begin
begin_flight key s = elim (s.inflight) [
  | some current ↦ if current == key then (s, joined) else (s, answered s.status (some busy))
  | none ↦ (record s { inflight = some key }, started)
]

-- `Exchange` up to the call of the provider.
unfoldable pub begin_exchange : (Text → ℕ) → ℕ → Text → Service → Service × Begin
begin_exchange digest now given s =
    let token = trim_space given in
    if is_empty token || ltb 2048 (byte_len token) || has_control token
    then (s, answered (initial_status login_required 0 false) (some invalid_request_token))
    else let t = refresh_expiry now s in
      if t.blocked
      then (t, answered t.status (some corrupt))
      else if is_authenticated t.status.state
      then (t, answered t.status none)
      else begin_flight (digest token) t

-- `applyExchangeLocked`; `saved` says whether `Store.Save` succeeded.
unfoldable pub apply_exchange :
    ℕ → Bool → Result ExchangeError SessionRecord → Service → Service × Option Error
apply_exchange now saved (err rejected_token) s = (
  record s {
    session = no_record;
    status = record (s.status) { expires_at = 0; reused = false; state = login_required };
  },
  some invalid_request_token,
)
apply_exchange now saved (err other_failure) s = (
  record s {
    session = no_record;
    status = record (s.status) { expires_at = 0; reused = false; state = error };
  },
  some provider_failure,
)
apply_exchange now saved (ok r) s =
    if not (valid_record r) || not (ltb now r.expires_at) || not saved
    then (record s { session = no_record; status = initial_status error 0 false }, some unavailable)
    else (record s { session = r; status = initial_status authenticated r.expires_at false }, none)

-- `Exchange` after the call of the provider: the answer goes to the caller and to all who wait.
unfoldable pub finish_exchange :
    ℕ → Bool → Result ExchangeError SessionRecord → Service → Service × Status × Option Error
finish_exchange now saved outcome s =
    let (t, e) = apply_exchange now saved outcome s in (record t { inflight = none }, t.status, e)
