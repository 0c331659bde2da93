-- ===== src/Orderbook/Admission/Bounds.antt =====
-- What a book admits, written as the bounds of its policy.
use delta_x.Prelude.{
  ℕ, ◌+◌, ◌/◌, ◌%◌, ◌^◌, ◌≤◌, ◌≡◌, ◌≢◌, refl, arith, Option, none, some, true, false, not, ◌&&◌,
  ltb, ◌==◌, length, ◌⊎◌, inl, inr, Option-cases, Bool-cases, List, all, All, Some, Tells,
  any-Tells, all-Tells,
}
use delta_x.Sdk.Order.{Address, Order, LegIn, LegOut}
use delta_x.Orderbook.Admission.{
  AdmissionPolicy, AdmissionContext, check_admission, check_order, check_capacity, too_large,
  is_listed, lists_tokens,
}

-- The encoding is not measured, or the policy does not bound it, or it is within the bound.
abbrev pub FitsBytes : AdmissionPolicy → Option ℕ → Type 0
FitsBytes policy none = Unit {0}
FitsBytes policy (some n) = (policy.max_order_bytes ≡ 0) ⊎ (n ≤ policy.max_order_bytes)

-- The policy has no list of tokens, or each leg's token is on it.
abbrev pub ListsTokens : Option (List Address) → Order → Type 0
ListsTokens none order = Unit {0}
ListsTokens (some allowed) order =
    All (λ (leg : LegIn). Some (λ t. t ≡ leg.token) allowed) order.legs_in
    × All (λ (leg : LegOut). Some (λ t. t ≡ leg.token) allowed) order.legs_out

is_listed-Tells :
    (allowed : List Address) (token : Address)
    → Tells (is_listed allowed token) (Some (λ t. t ≡ token) allowed)
unfolding is_listed
is_listed-Tells allowed token =
    any-Tells (λ t. t == token) (λ t. t ≡ token) (λ t. (λ y. ground arith, λ y same. ground arith))
      allowed

lists_tokens-Tells :
    (allowed : Option (List Address)) (order : Order)
    → Tells (lists_tokens allowed order) (ListsTokens allowed order)
unfolding lists_tokens
lists_tokens-Tells none order = (λ y. tt, λ y. cc)
lists_tokens-Tells (some allowed) order =
    let (ins, not_ins) =
      all-Tells _ _ (λ (leg : LegIn). is_listed-Tells allowed leg.token) order.legs_in in
    let (outs, not_outs) =
      all-Tells _ _ (λ (leg : LegOut). is_listed-Tells allowed leg.token) order.legs_out in
    elim (Bool-cases (all (λ (leg : LegIn). is_listed allowed leg.token) order.legs_in)) [
      | inl listed ↦ (
        λ y. (ins listed, outs (ground (arith, listed, y))),
        λ y (a, b). not_outs (ground (arith, listed, y)) b,
      )
      | inr other ↦ (λ y. absurd (ground (arith, other, y)), λ y (a, b). not_ins other a)
    ]

-- The order itself is within the policy.
pub record IsWithin (policy : AdmissionPolicy) (ctx : AdmissionContext) (order : Order)
    : Type 0 where
  pub legs : (length order.legs_in ≢ 0) ⊎ (length order.legs_out ≢ 0)
  pub inputs : length order.legs_in ≤ policy.max_legs_in
  pub outputs : length order.legs_out ≤ policy.max_legs_out
  pub items : length order.items ≤ policy.max_items
  pub validators : length order.validators + length order.invariants ≤ policy.max_validators
  pub curve : (policy.max_curve_points ≡ 0) ⊎ (length order.curve ≤ policy.max_curve_points)
  pub bytes : FitsBytes policy ctx.encoded_bytes
  pub tokens : ListsTokens policy.allowed_tokens order
  pub verified : (policy.require_delta_verify_outputs ≡ false) ⊎ (order.timing / 2 ^ 104 % 2 ≢ 0)
  pub not_too_soon : ctx.now + policy.min_ttl_seconds ≤ order.expiry
  pub not_too_late : order.expiry ≤ ctx.now + policy.max_ttl_seconds

-- There is a place for the order.
pub record HasPlace (policy : AdmissionPolicy) (ctx : AdmissionContext) (order : Order)
    : Type 0 where
  pub room :
      (policy.max_orders ≡ 0)
      ⊎ ((ctx.size + 1 ≤ policy.max_orders) ⊎ (ctx.can_displace order.maker ≡ true))
  pub maker_room :
      (policy.max_orders_per_maker ≡ 0)
      ⊎ (ctx.maker_count order.maker + 1 ≤ policy.max_orders_per_maker)

module _ (policy : AdmissionPolicy) (ctx : AdmissionContext) (order : Order) where
  fits_bytes : (n : Option ℕ) → too_large policy n ≡ false → FitsBytes policy n
  unfolding too_large
  fits_bytes none h = tt
  fits_bytes (some n) h = ground (arith, h)

  too_large-FitsBytes : (n : Option ℕ) → FitsBytes policy n → too_large policy n ≡ false
  unfolding too_large
  too_large-FitsBytes none h = refl
  too_large-FitsBytes (some n) h = ground (arith, h)

  check_order-IsWithin : check_order order ctx policy ≡ none → IsWithin policy ctx order
  unfolding check_order
  check_order-IsWithin h = record {
    legs = ground (arith, h);
    inputs = ground (arith, h);
    outputs = ground (arith, h);
    items = ground (arith, h);
    validators = ground (arith, h);
    curve = ground (arith, h);
    bytes = fits_bytes ctx.encoded_bytes (ground (arith, h));
    tokens = (lists_tokens-Tells policy.allowed_tokens order).0 (ground (arith, h));
    verified = ground (arith, h);
    not_too_soon = ground (arith, h);
    not_too_late = ground (arith, h);
  }

  IsWithin-check_order : IsWithin policy ctx order → check_order order ctx policy ≡ none
  unfolding check_order
  IsWithin-check_order w =
      let some_leg : (length order.legs_in == 0 && length order.legs_out == 0) ≡ false =
        ground (arith, w.legs) in
      let inputs : ltb policy.max_legs_in (length order.legs_in) ≡ false =
        ground (arith, w.inputs) in
      let outputs : ltb policy.max_legs_out (length order.legs_out) ≡ false =
        ground (arith, w.outputs) in
      let items : ltb policy.max_items (length order.items) ≡ false = ground (arith, w.items) in
      let validators : ltb policy.max_validators (length order.validators + length order.invariants)
          ≡ false =
        ground (arith, w.validators) in
      let curve : (not (policy.max_curve_points == 0)
            && ltb policy.max_curve_points (length order.curve))
          ≡ false =
        ground (arith, w.curve) in
      let bytes = too_large-FitsBytes ctx.encoded_bytes w.bytes in
      let tokens : lists_tokens policy.allowed_tokens order ≡ true =
        elim (Bool-cases (lists_tokens policy.allowed_tokens order)) [
          | inl listed ↦ listed
          | inr other ↦ absurd ((lists_tokens-Tells policy.allowed_tokens order).1 other w.tokens)
        ] in
      let verified : (policy.require_delta_verify_outputs && (order.timing / 2 ^ 104 % 2) == 0)
          ≡ false =
        ground (arith, w.verified) in
      let soon : ltb order.expiry (ctx.now + policy.min_ttl_seconds) ≡ false =
        ground (arith, w.not_too_soon) in
      let late : ltb (ctx.now + policy.max_ttl_seconds) order.expiry ≡ false =
        ground (arith, w.not_too_late) in
      simp
        (
          check_order, some_leg, inputs, outputs, items, validators, curve, bytes, tokens, verified,
          soon, late,
        )
        refl

  check_capacity-HasPlace :
      check_capacity order.maker ctx policy ≡ none → (ctx.known ≡ true) ⊎ HasPlace policy ctx order
  unfolding check_capacity
  check_capacity-HasPlace h = elim (Bool-cases ctx.known) [
    | inl known ↦ inl known
    | inr new ↦ inr (record { room = ground (arith, h, new); maker_room = ground (arith, h, new) })
  ]

  HasPlace-check_capacity :
      (ctx.known ≡ true) ⊎ HasPlace policy ctx order → check_capacity order.maker ctx policy ≡ none
  unfolding check_capacity
  HasPlace-check_capacity (inl known) = ground (arith, known)
  HasPlace-check_capacity (inr place) = ground (arith, place.room, place.maker_room)

  check_admission-IsWithin :
      check_admission order ctx policy ≡ none
      → IsWithin policy ctx order × ((ctx.known ≡ true) ⊎ HasPlace policy ctx order)
  unfolding check_admission
  check_admission-IsWithin h =
      (check_order-IsWithin (ground (arith, h)), check_capacity-HasPlace (ground (arith, h)))

  -- Either an order is admitted, each bound of the policy holds and it is known or has a place; or it is
  -- refused, and a bound is passed or it is not known and has no place.
  pub check_admission-none :
      ((check_admission order ctx policy ≡ none)
        × IsWithin policy ctx order
        × ((ctx.known ≡ true) ⊎ HasPlace policy ctx order))
      ⊎ ((check_admission order ctx policy ≢ none)
          × ¬ (IsWithin policy ctx order × ((ctx.known ≡ true) ⊎ HasPlace policy ctx order)))
  unfolding check_admission
  check_admission-none = elim (Option-cases (check_admission order ctx policy)) [
    | inl admitted ↦
        let (within, place) = check_admission-IsWithin admitted in inl (admitted, within, place)
    | inr (reason, refused) ↦ inr (
      ground (arith, refused),
      (λ (within, place).
          ground (arith, refused, IsWithin-check_order within, HasPlace-check_capacity place)),
    )
  ]
