-- ===== src/Execution/Order/Validity.antt =====
-- What `newOrderValue` of internal/execution/model/order.go ensures of an order.
use tradeedge.Prelude.{
  ℕ, ◌≤◌, ◌<◌, ◌≡◌, pos, ◌≤ℤ◌, ◌<ℤ◌, true, false, ok, is_empty, trim_space, trim_space_idem, arith,
}
use tradeedge.Execution.State.{is_known_state, is_filled, is_partially_filled}
use tradeedge.Execution.Order.{
  Order, OrderSpec, is_invalid_order, lacks_identity, out_of_range, disagrees_with_state,
  new_order_value,
}

-- A well-formed order: a quantity filled within the leg's, and a state that agrees with it.
pub record IsValid (o : Order) : Type 0 where
  pub id_set : 0 < o.id
  pub client_set : 0 < o.client_id
  pub schema_set : is_empty (trim_space o.spec.schema_version) ≡ false
  pub plan_set : 0 < o.spec.plan_id
  pub leg_set : 0 < o.spec.leg.id
  pub state_known : is_known_state o.spec.state ≡ true
  pub revision_set : 0 < o.spec.revision
  pub filled_nonneg : pos 0 ≤ℤ o.spec.filled_quantity
  pub filled_within : o.spec.filled_quantity ≤ℤ o.spec.leg.quantity
  pub created_set : 0 < o.spec.created_at
  pub updated_after : o.spec.created_at ≤ o.spec.updated_at
  pub full_if_filled : is_filled o.spec.state ≡ true → o.spec.filled_quantity ≡ o.spec.leg.quantity
  pub between_if_partial :
      is_partially_filled o.spec.state ≡ true
      → (pos 0 <ℤ o.spec.filled_quantity) × (o.spec.filled_quantity <ℤ o.spec.leg.quantity)
  pub broker_trimmed : trim_space o.spec.broker_order_id ≡ o.spec.broker_order_id

-- The value that `newOrderValue` returns.
abbrev pub stored : ℕ → ℕ → OrderSpec → Order
stored id client_id s = record {
  id = id;
  client_id = client_id;
  spec = record s { broker_order_id = trim_space s.broker_order_id };
}

pub new_order_value-eq-ok :
    (id client_id : ℕ) (s : OrderSpec) {o : Order}
    → new_order_value id client_id s ≡ ok o
    → (is_invalid_order id client_id s ≡ false) × (o ≡ stored id client_id s)
unfolding new_order_value
new_order_value-eq-ok id client_id s h = ground arith

is_invalid_order-parts :
    (id client_id : ℕ) (s : OrderSpec)
    → is_invalid_order id client_id s ≡ false
    → (lacks_identity id client_id s ≡ false)
      × (out_of_range s ≡ false)
      × (disagrees_with_state s ≡ false)
unfolding is_invalid_order
is_invalid_order-parts id client_id s h = ground arith

module _ (id client_id : ℕ) (s : OrderSpec) where
  identity_facts :
      lacks_identity id client_id s ≡ false
      → (0 < id)
        × (0 < client_id)
        × (is_empty (trim_space s.schema_version) ≡ false)
        × (0 < s.plan_id)
        × (0 < s.leg.id)
        × (is_known_state s.state ≡ true)
        × (0 < s.revision)
  unfolding lacks_identity
  identity_facts h = ground arith

range_facts :
    (s : OrderSpec)
    → out_of_range s ≡ false
    → (pos 0 ≤ℤ s.filled_quantity)
      × (s.filled_quantity ≤ℤ s.leg.quantity)
      × (0 < s.created_at)
      × (s.created_at ≤ s.updated_at)
unfolding out_of_range
range_facts s h = ground arith

state_facts :
    (s : OrderSpec)
    → disagrees_with_state s ≡ false
    → pos 0 ≤ℤ s.filled_quantity
    → s.filled_quantity ≤ℤ s.leg.quantity
    → (is_filled s.state ≡ true → s.filled_quantity ≡ s.leg.quantity)
      × (is_partially_filled s.state ≡ true
          → (pos 0 <ℤ s.filled_quantity) × (s.filled_quantity <ℤ s.leg.quantity))
unfolding disagrees_with_state
state_facts s h lo hi = (λ f. ground arith, λ p. ground arith)

pub stored-IsValid :
    (id client_id : ℕ) (s : OrderSpec)
    → is_invalid_order id client_id s ≡ false
    → IsValid (stored id client_id s)
stored-IsValid id client_id s h =
    let (a, b, c) = is_invalid_order-parts id client_id s h in
    let i = identity_facts id client_id s a in
    let r = range_facts s b in
    let st = state_facts s c r.0 r.1 in
    record {
      id_set = i.0;
      client_set = i.1;
      schema_set = i.2;
      plan_set = i.3;
      leg_set = i.4;
      state_known = i.5;
      revision_set = i.6;
      filled_nonneg = r.0;
      filled_within = r.1;
      created_set = r.2;
      updated_after = r.3;
      full_if_filled = st.0;
      between_if_partial = st.1;
      broker_trimmed = trim_space_idem s.broker_order_id;
    }

-- A value that `newOrderValue` returns is well formed: the guards refuse every other.
pub new_order_value-IsValid :
    (id client_id : ℕ) (s : OrderSpec) {o : Order}
    → new_order_value id client_id s ≡ ok o
    → IsValid o
new_order_value-IsValid id client_id s h =
    let (fine, e) = new_order_value-eq-ok id client_id s h in
    rw e (stored-IsValid id client_id s fine)

lacks_identity-of-IsValid : (o : Order) → IsValid o → lacks_identity o.id o.client_id o.spec ≡ false
unfolding lacks_identity
lacks_identity-of-IsValid o v =
    ground (arith, v.id_set, v.client_set, v.plan_set, v.leg_set, v.revision_set)
