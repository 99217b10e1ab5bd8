-- ===== src/Execution/Reports.antt =====
-- The constructors of orders, reports and fills in internal/execution/model/order.go. What `derive`
-- hashes is a parameter: the identifier of an order, of its submission, of a report and of a fill.
use tradeedge.Prelude.{
  ◌==◌, if◌then◌else◌, Bool-cases, Option-cases, pos, ltb_ℤ, Result, err, ok, reject_if, ◌>>=◌,
  ◌>>◌, Text, ascii, is_empty, trim_space, ℕ, ◌≡◌, refl, sym, inl, inr, Bool, true, false, not,
  ◌||◌, Option, none, some, List, [], ◌∷◌, arith,
}
use tradeedge.Execution.Order.{
  Error, invalid_order, OrderLeg, Order, new_order_value, ExecutionReportSpec, ExecutionReport,
  FillSpec, Fill,
}
use tradeedge.Execution.State.{
  OrderState, ReportType, TransitionReason, valid_transition_reason, expected_reason, report_target,
}
use tradeedge.Domain.{is_valid_quantity, is_zero_price}
use tradeedge.Execution.Order.Validity.{IsValid, new_order_value-eq-ok, new_order_value-IsValid}

-- The identifiers derived with SHA-256; those of a report and a fill fail on an empty source.
pub record IdDigests : Type 0 where
  pub order_id : ℕ → ℕ → ℕ
  pub client_order_id : ℕ → ℕ
  pub report_id : Text → Text → Result Error ℕ
  pub fill_id : Text → Text → Result Error ℕ

-- The loop of `NewOrder` over the legs of the plan.
unfoldable pub select_leg : ℕ → List OrderLeg → Option OrderLeg
select_leg id [] = none
select_leg id (leg ∷ legs) = if leg.id == id then some leg else select_leg id legs

-- `NewOrder`, of the identifier and the legs of a plan.
unfoldable pub new_order : IdDigests → ℕ → List OrderLeg → ℕ → ℕ → Result Error Order
new_order d plan_id legs leg_id created_at =
    if (plan_id == 0) || (leg_id == 0) || (created_at == 0)
    then err invalid_order
    else elim (select_leg leg_id legs) [
      | none ↦ err invalid_order
      | some leg ↦
          let id = d.order_id plan_id leg_id in
          new_order_value id (d.client_order_id id) (record {
            schema_version = ascii "order/v1";
            plan_id = plan_id;
            leg = leg;
            state = OrderState.created;
            revision = 1;
            filled_quantity = pos 0;
            broker_order_id = [];
            created_at = created_at;
            updated_at = created_at;
          })
    ]

-- The guard on the evidence of a report.
unfoldable pub lacks_report_evidence : ExecutionReportSpec → Bool
lacks_report_evidence s =
    is_empty s.schema_version
    || is_empty s.source
    || is_empty s.source_event_id
    || (s.order_id == 0)
    || (s.client_order_id == 0)
    || ltb_ℤ s.cumulative_filled (pos 0)
    || (s.occurred_at == 0)
    || (s.received_at == 0)

abbrev names_state : ReportType → Bool
names_state kind = elim (report_target kind) [ none ↦ false | some _ ↦ true ]

abbrev reason_code : TransitionReason → ℕ
reason_code TransitionReason.plan_accepted = 0
reason_code TransitionReason.submission_started = 1
reason_code TransitionReason.broker_accepted = 2
reason_code TransitionReason.broker_acknowledged = 3
reason_code TransitionReason.broker_fill = 4
reason_code TransitionReason.cancellation_requested = 5
reason_code TransitionReason.broker_cancelled = 6
reason_code TransitionReason.broker_rejected = 7
reason_code TransitionReason.authority_expired = 8
reason_code TransitionReason.internal_failure = 9
reason_code TransitionReason.submission_outcome_unknown = 10
reason_code TransitionReason.other = 11

-- `==` on reasons.
abbrev same_reason : TransitionReason → TransitionReason → Bool
same_reason a b = reason_code a == reason_code b

-- `NewExecutionReport`
unfoldable pub new_execution_report : IdDigests → ExecutionReportSpec → Result Error ExecutionReport
new_execution_report d given =
    let s : ExecutionReportSpec = record given {
      schema_version = trim_space (given.schema_version);
      source = trim_space (given.source);
      source_event_id = trim_space (given.source_event_id);
    } in
    do
      reject_if (lacks_report_evidence s) invalid_order
      reject_if
          (not (names_state s.kind)
            || not (valid_transition_reason s.reason)
            || not (same_reason (expected_reason s.kind) s.reason))
          invalid_order
      id ← d.report_id s.source s.source_event_id
      ok (record { id = id; spec = record s { broker_order_id = trim_space (s.broker_order_id) } })

unfoldable pub lacks_fill_evidence : FillSpec → Bool
lacks_fill_evidence s =
    is_empty s.schema_version
    || is_empty s.source
    || is_empty s.source_execution_id
    || (s.order_id == 0)
    || (s.report_id == 0)
    || not (is_valid_quantity s.quantity)
    || is_zero_price s.price
    || (s.occurred_at == 0)

-- `NewFill`
unfoldable pub new_fill : IdDigests → FillSpec → Result Error Fill
new_fill d given =
    let s : FillSpec = record given {
      schema_version = trim_space (given.schema_version);
      source = trim_space (given.source);
      source_execution_id = trim_space (given.source_execution_id);
    } in
    do
      reject_if (lacks_fill_evidence s) invalid_order
      id ← d.fill_id s.source s.source_execution_id
      ok (record { id = id; spec = s })

chosen_lem :
    (id : ℕ) (legs : List OrderLeg) {chosen : OrderLeg}
    → select_leg id legs ≡ some chosen
    → chosen.id ≡ id
unfolding select_leg
chosen_lem id [] h = cc
chosen_lem id (leg ∷ legs) {chosen} h = elim (Bool-cases (leg.id == id)) [
  | inl same ↦ picked same (rw (select_leg, same) at h)
  | inr apart ↦ chosen_lem id legs (rw (select_leg, apart) at h)
]
  where
    picked : leg.id == id ≡ true → some leg ≡ some chosen → chosen.id ≡ id
    picked same e = let alike : leg ≡ chosen = cc in rw (sym alike) (ground arith)

-- The order that `NewOrder` returns is a well-formed one in state CREATED, at revision 1 and with
-- nothing filled, of the leg and the plan asked for.
pub new_order-IsValid :
    (d : IdDigests) (plan_id : ℕ) (legs : List OrderLeg) (leg_id created_at : ℕ) {o : Order}
    → new_order d plan_id legs leg_id created_at ≡ ok o
    → IsValid o
      × (o.spec.state ≡ OrderState.created)
      × (o.spec.revision ≡ 1)
      × (o.spec.filled_quantity ≡ pos 0)
      × (o.spec.leg.id ≡ leg_id)
      × (o.spec.plan_id ≡ plan_id)
unfolding new_order
new_order-IsValid d plan_id legs leg_id created_at h =
    elim (Bool-cases ((plan_id == 0) || (leg_id == 0) || (created_at == 0))) [
      | inl bad ↦ absurd (refused_lem (rw bad at h))
      | inr good ↦ elim (Option-cases (select_leg leg_id legs)) [
        | inl e ↦ absurd (refused_lem (rw (good, e) at h))
        | inr (leg, e) ↦
            let k = rw (good, e) at h in
            let (_, made) = new_order_value-eq-ok _ _ _ k in
            (
              new_order_value-IsValid _ _ _ k,
              rw made refl,
              rw made refl,
              rw made refl,
              rw made (chosen_lem leg_id legs e),
              rw made refl,
            )
      ]
    ]
  where
    refused_lem : {o : Order} → err invalid_order ≡ ok o → ⊥
    refused_lem e = cc
