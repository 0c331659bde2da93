-- ===== src/Sdk/Oco/Claims.antt =====
-- packages/sdk/src/oco.ts: the claim items of ocoGroup and of renonceOcoItems.
use delta_x.Prelude.{
  ℕ, ◌≤◌, ◌<◌, ◌≡◌, refl, ap, arith, Option, none, some, false, not, ◌||◌, List, [], ◌∷◌, ◌++◌, map,
  ok, >>=-eq-ok, ok-injective, throw_if, map_m, ltb, ◌==◌, if◌then◌else◌, length, length-map, any,
  All, Bool-cases, inl, inr, maker_mismatch, repeated_nonces, invalid_claim,
}
use delta_x.Sdk.Order.{Order, Item, max_uint256}
use delta_x.Sdk.Oco.{
  AbiCoder, IsAbiCoder, is_claim, renonce_item, renonce_oco_items, oco_group_item,
  oco_group_validator, oco_group_leg, oco_group, anchor_of, nonce_set, has_other_maker,
}

-- Group, nonce and smallest claim of an item that is a claim.
abbrev pub claim_of : AbiCoder → Item → Option (ℕ × ℕ × ℕ)
claim_of abi item = if is_claim abi item then some (abi.decode_claim item.calldata) else none

-- The claims on `prev_nonce` moved to `nonce`.
abbrev pub rehome : ℕ → ℕ → Option (ℕ × ℕ × ℕ) → Option (ℕ × ℕ × ℕ)
rehome prev_nonce nonce none = none
rehome prev_nonce nonce (some (group_id, item_nonce, min_claim)) =
    some (group_id, if item_nonce == prev_nonce then nonce else item_nonce, min_claim)

-- no number twice
abbrev pub IsDistinct : List ℕ → Type 0
IsDistinct [] = Unit
IsDistinct (n ∷ ns) = (any (λ (m : ℕ). m == n) ns ≡ false) × IsDistinct ns

length-nonce_set : (ns : List ℕ) → length (nonce_set ns) ≤ length ns
unfolding nonce_set
length-nonce_set [] = omega arith
length-nonce_set (n ∷ ns) = ground (arith, length-nonce_set ns)

any-nonce_set :
    (k : ℕ) (ns : List ℕ) → any (λ (m : ℕ). m == k) (nonce_set ns) ≡ any (λ (m : ℕ). m == k) ns
unfolding nonce_set
any-nonce_set k [] = refl
any-nonce_set k (n ∷ ns) = elim (Bool-cases (n == k)) [
  | inl same ↦
      let e : n ≡ k = ground (arith, same) in
      ground (arith, any-nonce_set k ns, ap (λ (j : ℕ). any (λ (m : ℕ). m == j) (nonce_set ns)) e)
  | inr other ↦ ground (arith, other, any-nonce_set k ns)
]

-- A set as large as its list has lost nothing.
nonce_set-IsDistinct : (ns : List ℕ) → length (nonce_set ns) ≡ length ns → IsDistinct ns
unfolding nonce_set
nonce_set-IsDistinct [] e = tt
nonce_set-IsDistinct (n ∷ ns) e =
    ground (arith, length-nonce_set ns, any-nonce_set n ns, nonce_set-IsDistinct ns)

module _ (abi : AbiCoder) (coder : IsAbiCoder abi) where
  claim_of-renonce_item :
      (prev_nonce nonce : ℕ) (item item' : Item)
      → renonce_item abi prev_nonce nonce item ≡ ok item'
      → claim_of abi item' ≡ rehome prev_nonce nonce (claim_of abi item)
  unfolding renonce_item is_claim
  claim_of-renonce_item prev_nonce nonce item item' e = elim (Bool-cases (is_claim abi item)) [
    | inl claims ↦ elim (Bool-cases ((abi.decode_claim item.calldata).1 == prev_nonce)) [
      | inl bound ↦
          let (w, e1, r1) = >>=-eq-ok (abi.encode _) _ (simp (claims, bound) at e) in
          let (l, d) = coder _ _ _ w e1 in
          rw (← ok-injective r1) (ground (arith, claims, bound, l, d))
      | inr other ↦ rw (← ok-injective (simp (claims, other) at e)) (ground (arith, claims, other))
    ]
    | inr not_claims ↦ rw (← ok-injective (simp not_claims at e)) (ground (arith, not_claims))
  ]

  -- Re-homing moves the claims on the old nonce to the new one and leaves every other claim.
  pub renonce_oco_items-claims :
      (prev_nonce nonce : ℕ) (items items' : List Item)
      → renonce_oco_items abi items prev_nonce nonce ≡ ok items'
      → map (claim_of abi) items' ≡ map (rehome prev_nonce nonce) (map (claim_of abi) items)
  unfolding renonce_oco_items
  renonce_oco_items-claims prev_nonce nonce [] items' e = rw (← ok-injective e) refl
  renonce_oco_items-claims prev_nonce nonce (item ∷ items) items' e =
      let (first, e1, r1) = >>=-eq-ok (renonce_item abi prev_nonce nonce item) _ e in
      let (rest, e2, r2) = >>=-eq-ok (map_m (renonce_item abi prev_nonce nonce) items) _ r1 in
      let head = claim_of-renonce_item prev_nonce nonce item first e1 in
      let tail = renonce_oco_items-claims prev_nonce nonce items rest e2 in
      rw (← ok-injective r2) (rw (head, tail) refl)

  -- The last item of the order is a claim of the group on the order's own nonce, and it is sliced
  -- from the order's anchor.
  pub HasClaim : ℕ → Order → Type 0
  HasClaim group_id order =
      (before : List Item) × (item : Item) × (order.items ≡ before ++ (item ∷ []))
      × (claim_of abi item ≡ some (group_id, order.nonce, item.amount))
      × (anchor_of order ≡ ok item.amount)
      × (0 < item.amount)

  oco_group_leg-HasClaim :
      (target group_id : ℕ) (leg order : Order)
      → oco_group_leg abi leg target group_id none ≡ ok order
      → HasClaim group_id order × (order.nonce ≡ leg.nonce)
  unfolding oco_group_leg oco_group_item HasClaim is_claim anchor_of
  oco_group_leg-HasClaim target group_id leg order e =
      let (anchor, e1, r1) = >>=-eq-ok (anchor_of leg) _ e in
      let (validator, e2, r2) = >>=-eq-ok (oco_group_validator abi target group_id) _ r1 in
      let (item, e3, r3) =
        >>=-eq-ok (oco_group_item abi target group_id leg.nonce anchor anchor) _ r2 in
      let (u, e4, r4) = >>=-eq-ok (throw_if (anchor == 0) invalid_claim) _ e3 in
      let (v, e5, r5) = >>=-eq-ok (throw_if (leg.nonce == max_uint256) invalid_claim) _ r4 in
      let (x, e6, r6) =
        >>=-eq-ok (throw_if (anchor == 0 || ltb anchor anchor) invalid_claim) _ r5 in
      let (w, e7, r7) = >>=-eq-ok (abi.encode _) _ r6 in
      let (l, d) = coder _ _ _ w e7 in
      rw (← ok-injective r3) (
        rw (← ok-injective r7) ((leg.items, _, refl, ground (arith, l, d), e1, ground arith), refl))

  oco_group_legs :
      (target group_id : ℕ) (legs group : List Order)
      → map_m (λ (l : Order). oco_group_leg abi l target group_id none) legs ≡ ok group
      → All (HasClaim group_id) group
        × (map (λ (o : Order). o.nonce) group ≡ map (λ (o : Order). o.nonce) legs)
  oco_group_legs target group_id [] group e = rw (← ok-injective e) (tt, refl)
  oco_group_legs target group_id (leg ∷ legs) group e =
      let (first, e1, r1) = >>=-eq-ok (oco_group_leg abi leg target group_id none) _ e in
      let (rest, e2, r2) =
        >>=-eq-ok (map_m (λ (l : Order). oco_group_leg abi l target group_id none) legs) _ r1 in
      let (claim, kept) = oco_group_leg-HasClaim target group_id leg first e1 in
      let (claims, nonces) = oco_group_legs target group_id legs rest e2 in
      rw (← ok-injective r2) ((claim, claims), rw (kept, nonces) refl)

  -- Where the ABI coder does what viem documents, every order that ocoGroup returns ends in a
  -- claim item of the group on its own nonce, for its whole positive anchor, and no two of the
  -- orders share a nonce.
  pub oco_group-HasClaim :
      (target group_id : ℕ) (legs group : List Order)
      → oco_group abi legs target group_id ≡ ok group
      → All (HasClaim group_id) group × IsDistinct (map (λ (o : Order). o.nonce) group)
  unfolding oco_group
  oco_group-HasClaim target group_id [] group e = cc e
  oco_group-HasClaim target group_id (leg ∷ []) group e = cc e
  oco_group-HasClaim target group_id (leg ∷ other ∷ legs) group e =
      let all_legs = leg ∷ other ∷ legs in
      let nonces = map (λ (l : Order). l.nonce) all_legs in
      let (u, e1, r1) =
        >>=-eq-ok (throw_if (has_other_maker leg.maker all_legs) maker_mismatch) _ e in
      let (v, e2, r2) =
        >>=-eq-ok (throw_if (not (length (nonce_set nonces) == length all_legs)) repeated_nonces) _
          r1 in
      let (claims, same) = oco_group_legs target group_id all_legs group r2 in
      let full : length (nonce_set nonces) ≡ length nonces =
        ground (arith, length-map (λ (l : Order). l.nonce) all_legs) in
      (claims, rw same (nonce_set-IsDistinct nonces full))
