-- ===== src/Portfolio/Controls.antt =====
-- internal/portfolio/model/controls.go: kill switches and circuit breakers. Identifiers, hashes and
-- checksums are the numbers that their bytes write; a scope that is no constant is `other_scope`.
use tradeedge.Prelude.{
  ltb, leb, ◌==◌, if◌then◌else◌, Bool-cases, Result, err, ok, reject_if, ◌>>=◌, ◌>>◌,
  reject_if-eq-ok, >>=-eq-ok, ok_injective, err-neq-ok, Text, is_empty, byte_len, trim_space, ℕ,
  ◌<◌, ◌≡◌, subst, ◌⊎◌, inl, inr, Bool, true, false, not, ◌&&◌, ◌||◌, [], ◌∷◌, arith,
}

pub data ControlError : Type 0 where
  invalid_control_state : ControlError

pub data ControlScope : Type 0 where
  global portfolio strategy_definition strategy_instance instrument underlying exposure_group
        other_scope :
      ControlScope

pub data KillSwitchState : Type 0 where
  inactive active recovery_pending disabled_by_configuration other_switch : KillSwitchState

pub data CircuitBreakerState : Type 0 where
  closed open_breaker half_open disabled other_breaker : CircuitBreakerState

abbrev is_capital : ℕ → Bool
is_capital c = leb 65 c && leb c 90

-- A character that the pattern of a reason allows after the first.
abbrev is_reason_char : ℕ → Bool
is_reason_char c = is_capital c || (leb 48 c && leb c 57) || (c == 95)

unfoldable pub all_reason_chars : Text → Bool
all_reason_chars [] = true
all_reason_chars (c ∷ s) = is_reason_char c && all_reason_chars s

-- `controlReasonPattern`
unfoldable pub matches_reason : Text → Bool
matches_reason [] = false
matches_reason (c ∷ s) =
    is_capital c && all_reason_chars s && leb 2 (byte_len s) && leb (byte_len s) 127

-- `NewControlReason`
unfoldable pub new_control_reason : Text → Result ControlError Text
new_control_reason given =
    let value = trim_space given in
    if not (matches_reason value) then err invalid_control_state else ok value

-- `ControlScope.Validate` returns an error.
abbrev pub is_invalid_scope : ControlScope → Bool
is_invalid_scope other_scope = true
is_invalid_scope _ = false

pub record KillSwitch : Type 0 where
  pub id : ℕ
  pub scope : ControlScope
  pub scope_subject : Text
  pub state : KillSwitchState
  pub reason_code : Text
  pub activation_evidence : ℕ
  pub activated_at : ℕ
  pub expires_at : ℕ
  pub configuration_id : ℕ
  pub configuration_hash : ℕ
  pub state_revision : ℕ
  pub schema_version : Text

pub record CircuitBreaker : Type 0 where
  pub id : ℕ
  pub scope : ControlScope
  pub scope_subject : Text
  pub state : CircuitBreakerState
  pub reason_code : Text
  pub evidence : ℕ
  pub changed_at : ℕ
  pub configuration_id : ℕ
  pub configuration_hash : ℕ
  pub state_revision : ℕ
  pub schema_version : Text

-- `MaximumSubjectBytes`
abbrev pub maximum_subject_bytes : ℕ
maximum_subject_bytes = 128

-- The first guard of `NewKillSwitch` and of `NewCircuitBreaker`.
unfoldable pub lacks_scope : ℕ → ControlScope → Text → ℕ → ℕ → ℕ → Text → Bool
lacks_scope id scope subject configuration hash revision schema =
    (id == 0)
    || is_invalid_scope scope
    || is_empty subject
    || ltb maximum_subject_bytes (byte_len subject)
    || (configuration == 0)
    || (hash == 0)
    || (revision == 0)
    || is_empty (trim_space schema)

-- The switch of `NewKillSwitch` on the state.
unfoldable pub bad_switch_state : KillSwitchState → ℕ → ℕ → ℕ → Bool
bad_switch_state inactive activated evidence expires =
    not (activated == 0) || not (evidence == 0) || not (expires == 0)
bad_switch_state disabled_by_configuration activated evidence expires =
    not (activated == 0) || not (evidence == 0) || not (expires == 0)
bad_switch_state active activated evidence expires =
    (activated == 0) || (evidence == 0) || (not (expires == 0) && not (ltb activated expires))
bad_switch_state recovery_pending activated evidence expires =
    (activated == 0) || (evidence == 0) || (not (expires == 0) && not (ltb activated expires))
bad_switch_state other_switch activated evidence expires = true

-- `NewKillSwitch`: the specification is a `KillSwitch` as given.
unfoldable pub new_kill_switch : KillSwitch → Result ControlError KillSwitch
new_kill_switch given =
    let subject = trim_space given.scope_subject in
    do
      reason ← new_control_reason given.reason_code
      reject_if
          (lacks_scope given.id given.scope subject given.configuration_id given.configuration_hash
            given.state_revision given.schema_version)
          invalid_control_state
      reject_if
          (bad_switch_state given.state given.activated_at given.activation_evidence
            given.expires_at)
          invalid_control_state
      ok (record given { scope_subject = subject; reason_code = reason })

-- `KillSwitch.Blocks`
abbrev pub switch_blocks : KillSwitchState → Bool
switch_blocks active = true
switch_blocks recovery_pending = true
switch_blocks _ = false

unfoldable pub bad_breaker_state : CircuitBreakerState → ℕ → ℕ → Bool
bad_breaker_state closed changed evidence = false
bad_breaker_state disabled changed evidence = false
bad_breaker_state open_breaker changed evidence = (changed == 0) || (evidence == 0)
bad_breaker_state half_open changed evidence = (changed == 0) || (evidence == 0)
bad_breaker_state other_breaker changed evidence = true

-- `NewCircuitBreaker`
unfoldable pub new_circuit_breaker : CircuitBreaker → Result ControlError CircuitBreaker
new_circuit_breaker given =
    let subject = trim_space given.scope_subject in
    do
      reason ← new_control_reason given.reason_code
      reject_if
          (lacks_scope given.id given.scope subject given.configuration_id given.configuration_hash
            given.state_revision given.schema_version)
          invalid_control_state
      reject_if (bad_breaker_state given.state given.changed_at given.evidence)
          invalid_control_state
      ok (record given { scope_subject = subject; reason_code = reason })

-- `CircuitBreaker.Blocks`
abbrev pub breaker_blocks : CircuitBreakerState → Bool
breaker_blocks open_breaker = true
breaker_blocks half_open = true
breaker_blocks _ = false

-- A kill switch as `NewKillSwitch` makes it.
pub record IsEvidenced (k : KillSwitch) : Type 0 where
  pub timed : switch_blocks k.state ≡ not (k.activated_at == 0)
  pub proven : switch_blocks k.state ≡ not (k.activation_evidence == 0)
  pub lasting : (k.expires_at ≡ 0) ⊎ (k.activated_at < k.expires_at)
  pub reasoned : matches_reason k.reason_code ≡ true

reason_matches :
    (given : Text) {r : Text} → new_control_reason given ≡ ok r → matches_reason r ≡ true
unfolding new_control_reason
reason_matches given h = elim (Bool-cases (matches_reason (trim_space given))) [
  | inl fine ↦
      subst (λ r. matches_reason r ≡ true) (ok_injective (rw (new_control_reason, fine) at h)) fine
  | inr bad ↦ err-neq-ok (rw (new_control_reason, bad) at h)
]

switch_state_lem :
    (s : KillSwitchState) (activated evidence expires : ℕ)
    → bad_switch_state s activated evidence expires ≡ false
    → (switch_blocks s ≡ not (activated == 0))
      × (switch_blocks s ≡ not (evidence == 0))
      × ((expires ≡ 0) ⊎ (activated < expires))
unfolding bad_switch_state
switch_state_lem inactive a e x h = (ground (arith, h), ground (arith, h), inl (ground (arith, h)))
switch_state_lem disabled_by_configuration a e x h =
    (ground (arith, h), ground (arith, h), inl (ground (arith, h)))
switch_state_lem active a e x h = (ground (arith, h), ground (arith, h), ground (arith, h))
switch_state_lem recovery_pending a e x h =
    (ground (arith, h), ground (arith, h), ground (arith, h))
switch_state_lem other_switch a e x h = (ground (arith, h), ground (arith, h), ground (arith, h))

-- A kill switch that `NewKillSwitch` returns blocks exactly if it has a time and evidence of its
-- activation; it has no expiry or one after its activation; and its reason has the form asked for.
pub new_kill_switch-IsEvidenced :
    (given : KillSwitch) {k : KillSwitch} → new_kill_switch given ≡ ok k → IsEvidenced k
unfolding new_kill_switch
new_kill_switch-IsEvidenced given {k} h =
    let (reason, er, k1) = >>=-eq-ok (new_control_reason given.reason_code) _ h in
    let (_, k2) =
      reject_if-eq-ok
        (lacks_scope given.id given.scope (trim_space given.scope_subject) given.configuration_id
          given.configuration_hash given.state_revision given.schema_version)
        invalid_control_state _ k1 in
    let (g, k3) =
      reject_if-eq-ok
        (bad_switch_state given.state given.activated_at given.activation_evidence given.expires_at)
        invalid_control_state _ k2 in
    let (a, b, c) =
      switch_state_lem given.state given.activated_at given.activation_evidence given.expires_at
        g in
    subst IsEvidenced (ok_injective k3) (record {
      timed = a;
      proven = b;
      lasting = c;
      reasoned = reason_matches given.reason_code er;
    })
