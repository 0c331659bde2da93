-- ===== src/Sdk/Amend/Nonces.antt =====
-- packages/sdk/src/amend.ts: the nonce rule of patchOrder, and what the item policy leaves.
use delta_x.Prelude.{
  ℕ, ◌*◌, ◌/◌, ◌%◌, ◌^◌, ◌-◌, ◌≡◌, ◌≢◌, refl, arith, Option, none, some, Bool, true, false, not,
  ◌&&◌, ◌||◌, List, ok, >>=-eq-ok, ok-injective, throw_if, stale_nonce, reused_nonce, ◌∙◌, ◌==◌,
  Bool-cases, inl, inr, ltb, map, out_of_range,
}
use delta_x.Prelude.Bits.{bit_or-div, bit_or-zero}
use delta_x.Sdk.Order.{Order, Item}
use delta_x.Sdk.Timing.{is_fill_once, with_item_policy, item_policy_of, flag}
use delta_x.Sdk.Funding.{
  assert_order_nonce, is_reserved_nonce, with_default_item_policy, ItemPolicyDefaultOptions,
  take_funds_input_leg,
}
use delta_x.Sdk.Oco.{AbiCoder, IsAbiCoder}
use delta_x.Sdk.Oco.Claims.{claim_of, rehome, renonce_oco_items-claims}
use delta_x.Sdk.Amend.{
  OrderPatch, AmendOptions, patched_or, replacement_nonce, apply_patch, replacement_items,
  patch_order,
}

-- The policy stands in bits 96 to 99: the word from bit 100 on stays.
with_item_policy-high :
    (t policy w : ℕ) → with_item_policy t policy ≡ ok w → w / 2 ^ 100 ≡ t / 2 ^ 100
unfolding with_item_policy
with_item_policy-high t policy w e =
    let kept = t - t / 2 ^ 96 % 16 * 2 ^ 96 in
    let (u, fits, made) = >>=-eq-ok (throw_if (ltb 15 policy) out_of_range) _ e in
    let none_high : policy * 2 ^ 96 / 2 ^ 100 ≡ 0 = ground arith in
    let same : kept / 2 ^ 100 ≡ t / 2 ^ 100 = omega arith in
    rw (← ok-injective made)
      (rw (bit_or-div 100 kept (policy * 2 ^ 96), none_high, bit_or-zero (kept / 2 ^ 100)) same)

-- The options that patchOrder passes on.
abbrev only_policy : Option ℕ → ItemPolicyDefaultOptions
only_policy policy = record {
  item_policy = policy;
  settlement = none;
  proceeds_asset = λ (item : Item). none;
}

-- with_default_item_policy keeps the order but for its policy.
with_default_item_policy-kept :
    (order order' : Order) (policy : Option ℕ)
    → with_default_item_policy order (only_policy policy) ≡ ok order'
    → (timing : ℕ) × (order' ≡ record order { timing = timing })
      × (timing / 2 ^ 100 ≡ order.timing / 2 ^ 100)
unfolding with_default_item_policy
with_default_item_policy-kept order order' (some policy) e =
    let (timing, e1, r1) = >>=-eq-ok (with_item_policy order.timing policy) _ e in
    (timing, cc r1, with_item_policy-high order.timing policy timing e1)
with_default_item_policy-kept order order' none e =
    elim (Bool-cases (
      not (item_policy_of order.timing == 0)
      || not (take_funds_input_leg order (only_policy none)))) [
        | inl kept ↦ (order.timing, cc (simp kept at e), refl)
        | inr defaulted ↦
            let (timing, e1, r1) =
              >>=-eq-ok (with_item_policy order.timing 1) _ (simp defaulted at e) in
            (timing, cc r1, with_item_policy-high order.timing 1 timing e1)
      ]

-- Does the replacement stay in the bracket of its predecessor?
abbrev pub keeps_nonce : Order → AmendOptions → Bool
keeps_nonce prev opts = is_fill_once prev && not opts.leave_nonce_group

replacement_nonce_rule :
    (prev : Order) (requested : ℕ) (opts : AmendOptions) (nonce : ℕ)
    → replacement_nonce prev requested opts ≡ ok nonce
    → (keeps_nonce prev opts ≡ true → nonce ≡ prev.nonce)
      × (keeps_nonce prev opts ≡ false → (nonce ≢ prev.nonce) × (is_reserved_nonce nonce ≡ false))
unfolding replacement_nonce assert_order_nonce
replacement_nonce_rule prev requested opts nonce e = elim (Bool-cases (keeps_nonce prev opts)) [
  | inl keeps ↦
      let r = simp keeps at e in
      let (u, passed, made) =
        >>=-eq-ok (throw_if (not (requested == prev.nonce)) stale_nonce) _ r in
      (λ k. cc made, λ leaves. cc (keeps, leaves))
  | inr leaves ↦
      let r = simp leaves at e in
      let (u, fresh, rest) = >>=-eq-ok (throw_if (requested == prev.nonce) reused_nonce) _ r in
      let (v, free, made) =
        >>=-eq-ok (throw_if (is_reserved_nonce requested) out_of_range) _ rest in
      (
        λ keeps. cc (keeps, leaves),
        λ l. rw (← ok-injective made) (λ equal. ground (arith, fresh, equal), ground (arith, free)),
      )
]

is_fill_once-high :
    (order : Order) (timing : ℕ)
    → timing / 2 ^ 100 ≡ order.timing / 2 ^ 100
    → is_fill_once (record order { timing = timing }) ≡ is_fill_once order
unfolding is_fill_once flag
is_fill_once-high order timing e = rw e refl

is_fill_once-apply_patch :
    (prev : Order) (patch : OrderPatch) (items : List Item) (nonce : ℕ)
    → patch.patched_timing ≡ none
    → is_fill_once (apply_patch prev patch items nonce) ≡ is_fill_once prev
unfolding is_fill_once apply_patch patched_or
is_fill_once-apply_patch prev patch items nonce e = simp e refl

-- What patchOrder returns, in its parts.
patch_order_parts :
    (abi : AbiCoder) (prev order : Order) (next_nonce : ℕ) (patch : OrderPatch)
    (opts : AmendOptions)
    → patch_order abi prev next_nonce patch opts ≡ ok order
    → (nonce : ℕ) × (items : List Item) × (timing : ℕ) × (replacement_nonce prev
          (patched_or patch.patched_nonce next_nonce)
          opts
        ≡ ok nonce)
      × (replacement_items abi prev patch.patched_items nonce ≡ ok items)
      × (order ≡ record (apply_patch prev patch items nonce) { timing = timing })
      × (timing / 2 ^ 100 ≡ (apply_patch prev patch items nonce).timing / 2 ^ 100)
unfolding patch_order
patch_order_parts abi prev order next_nonce patch opts e =
    let requested = patched_or patch.patched_nonce next_nonce in
    let (nonce, e1, r1) = >>=-eq-ok (replacement_nonce prev requested opts) _ e in
    let (items, e2, r2) = >>=-eq-ok (replacement_items abi prev patch.patched_items nonce) _ r1 in
    let (timing, same, high) =
      with_default_item_policy-kept (apply_patch prev patch items nonce) order
        opts.replacement_policy r2 in
    (nonce, items, timing, e1, e2, same, high)

-- The replacement that patchOrder returns keeps the maker; it keeps the nonce of a fill-once
-- order, unless told to leave the bracket, and otherwise has another, unreserved nonce; and where
-- the patch has no timing it is fill-once as its predecessor is.
pub patch_order_nonce :
    (abi : AbiCoder) (prev order : Order) (next_nonce : ℕ) (patch : OrderPatch)
    (opts : AmendOptions)
    → patch_order abi prev next_nonce patch opts ≡ ok order
    → (order.maker ≡ prev.maker)
      × (keeps_nonce prev opts ≡ true → order.nonce ≡ prev.nonce)
      × (keeps_nonce prev opts ≡ false
          → (order.nonce ≢ prev.nonce) × (is_reserved_nonce order.nonce ≡ false))
      × (patch.patched_timing ≡ none → is_fill_once order ≡ is_fill_once prev)
unfolding apply_patch
patch_order_nonce abi prev order next_nonce patch opts e =
    let (nonce, items, timing, e1, e2, same, high) =
      patch_order_parts abi prev order next_nonce patch opts e in
    let (keeps, leaves) =
      replacement_nonce_rule prev (patched_or patch.patched_nonce next_nonce) opts nonce e1 in
    rw same (
      refl,
      keeps,
      leaves,
      λ unpatched.
          is_fill_once-high (apply_patch prev patch items nonce) timing high
          ∙ is_fill_once-apply_patch prev patch items nonce unpatched,
    )

-- Where the ABI coder does what viem documents and the patch has no items, the replacement's items
-- make the predecessor's claims, with those on the predecessor's nonce moved to the replacement's
-- and all other claims unchanged.
pub patch_order_claims :
    (abi : AbiCoder) (prev order : Order) (next_nonce : ℕ) (patch : OrderPatch)
    (opts : AmendOptions)
    → IsAbiCoder abi
    → patch.patched_items ≡ none
    → patch_order abi prev next_nonce patch opts ≡ ok order
    → map (claim_of abi) order.items
      ≡ map (rehome prev.nonce order.nonce) (map (claim_of abi) prev.items)
unfolding apply_patch replacement_items
patch_order_claims abi prev order next_nonce patch opts coder unpatched e =
    let (nonce, items, timing, e1, e2, same, high) =
      patch_order_parts abi prev order next_nonce patch opts e in
    rw same
      (renonce_oco_items-claims abi coder prev.nonce nonce prev.items items (simp unpatched at e2))
