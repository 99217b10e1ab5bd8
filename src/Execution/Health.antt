-- ===== src/Execution/Health.antt =====
-- internal/execution/health/model.go: the health of execution, from the views of its parts. A count is
-- an `int`; the issue counts are an association list.
use tradeedge.Prelude.{
  ◌==◌, if◌then◌else◌, ℤ, pos, ltb_ℤ, Text, ascii, is_empty, ℕ, ◌≡◌, Bool, true, false, not, ◌&&◌,
  ◌||◌, List, [], ◌∷◌, ◌++◌, arith,
}

pub data HealthState : Type 0 where
  healthy degraded blocked stopped unavailable : HealthState

pub record Coordinator : Type 0 where
  pub closed : Bool
  pub available : Bool
  pub in_flight_plans : ℤ
  pub keyed_orders : ℤ
  pub maximum_plans : ℤ
  pub broker_timeout : ℤ
  pub cursor : ℕ

pub record Oms : Type 0 where
  pub available : Bool
  pub plans : ℤ
  pub orders : ℤ
  pub publications : ℤ
  pub reports : ℤ
  pub fills : ℤ
  pub unknown_orders : ℤ
  pub plan_limit : ℤ
  pub order_limit : ℤ
  pub publication_limit : ℤ
  pub report_limit : ℤ
  pub fill_limit : ℤ

pub record PaperBroker : Type 0 where
  pub available : Bool
  pub scenario_index : ℤ
  pub scenario_count : ℤ
  pub active_orders : ℤ
  pub scheduled_events : ℤ
  pub delivered_events : ℤ
  pub unavailable_attempts : ℤ

pub record Reconciliation : Type 0 where
  pub available : Bool
  pub running : Bool
  pub blocked : Bool
  pub last_attempt : ℕ
  pub last_success : ℕ
  pub repairs : ℤ
  pub issue_counts : List (Text × ℤ)
  pub last_error : Text

pub record HealthSnapshot : Type 0 where
  pub state : HealthState
  pub reason_codes : List Text
  pub unknown_orders : ℤ
  pub coordinator : Coordinator
  pub oms : Oms
  pub paper_broker : PaperBroker
  pub reconciliation : Reconciliation

abbrev pub is_healthy : HealthState → Bool
is_healthy healthy = true
is_healthy _ = false

abbrev has_issues : List (Text × ℤ) → Bool
has_issues [] = false
has_issues (_ ∷ _) = true

-- One `if` of `Aggregate`: a state, and one more reason.
unfoldable pub raise : Bool → HealthState → Text → HealthSnapshot → HealthSnapshot
raise bad state reason s =
    if bad then record s { state = state; reason_codes = s.reason_codes ++ (reason ∷ []) } else s

-- `Aggregate`
unfoldable pub aggregate : Coordinator → Oms → PaperBroker → Reconciliation → ℤ → HealthSnapshot
aggregate c o p r unknown =
    let s0 : HealthSnapshot = record {
      state = healthy;
      reason_codes = [];
      unknown_orders = unknown;
      coordinator = c;
      oms = o;
      paper_broker = p;
      reconciliation = r;
    } in
    let s1 =
      raise (not c.available || not o.available || not p.available || not r.available) unavailable
        (ascii "EXECUTION_SOURCE_UNAVAILABLE") s0 in
    let s2 = raise c.closed stopped (ascii "COORDINATOR_STOPPED") s1 in
    let s3 =
      raise ((r.last_attempt == 0) && is_healthy s2.state) degraded (ascii "RECONCILIATION_NOT_RUN")
        s2 in
    let s4 = raise (ltb_ℤ (pos 0) unknown) blocked (ascii "UNKNOWN_ORDERS") s3 in
    raise (r.blocked || has_issues r.issue_counts || not (is_empty r.last_error)) blocked
      (ascii "RECONCILIATION_BLOCKED") s4

-- Execution is healthy exactly if every source is available, the coordinator is open, a
-- reconciliation was attempted and left no block, issue or error, and no order is unknown.
pub aggregate_healthy :
    (c : Coordinator) (o : Oms) (p : PaperBroker) (r : Reconciliation) (unknown : ℤ)
    → is_healthy (aggregate c o p r unknown).state ≡ (
        c.available
        && o.available
        && p.available
        && r.available
        && not c.closed
        && not (r.last_attempt == 0)
        && not (ltb_ℤ (pos 0) unknown)
        && not r.blocked
        && not (has_issues r.issue_counts)
        && is_empty r.last_error)
unfolding aggregate raise
aggregate_healthy c o p r unknown = ground arith
