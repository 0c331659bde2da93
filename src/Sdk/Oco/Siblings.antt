-- ===== src/Sdk/Oco/Siblings.antt =====
-- packages/sdk/src/oco.ts: orders of one maker that share a nonce.
use delta_x.Sdk.Oco.Groups.{
  siblings, is_loose_list, members_of, members_of-group_orders, group_orders-IsKeyed,
  members_of-loose, is_loose-members_of,
}
use delta_x.Prelude.{
  ℕ, ◌<◌, ◌≡◌, refl, arith, true, false, not, List, [], ◌∷◌, map, ok, length, length-map, any, All,
  >>=-eq-ok, ok-injective, throw_if, maker_mismatch, ◌↔◌,
}
use delta_x.Prelude.Bits.{bit_or-pow}
use delta_x.Sdk.Order.{Address, Order}
use delta_x.Sdk.Timing.{is_fill_once, with_fill_once, flag}
use delta_x.Sdk.Oco.{
  group_orders, is_loose, assert_nonce_siblings_fill_once, oco_nonce_group, has_other_maker,
}

abbrev IsFillOnce : Order → Type 0
IsFillOnce o = is_fill_once o ≡ true

any-All-IsFillOnce :
    (orders : List Order)
    → any (λ (o : Order). not (is_fill_once o)) orders ≡ false
    → All IsFillOnce orders
any-All-IsFillOnce [] h = tt
any-All-IsFillOnce (o ∷ orders) h = (ground arith, any-All-IsFillOnce orders (ground arith))

any-IsFillOnce :
    (orders : List Order)
    → All IsFillOnce orders
    → any (λ (o : Order). not (is_fill_once o)) orders ≡ false
any-IsFillOnce [] h = refl
any-IsFillOnce (o ∷ orders) (first, rest) = ground (arith, first, any-IsFillOnce orders rest)

-- Orders of one maker that share a nonce are all fill-once.
abbrev pub IsBracketed : List Order → Type 0
IsBracketed orders =
    (maker : Address) (nonce : ℕ)
    → 1 < length (siblings maker nonce orders)
    → All (λ (o : Order). is_fill_once o ≡ true) (siblings maker nonce orders)

members_of-siblings :
    (orders : List Order) (maker : Address) (nonce : ℕ)
    → members_of maker nonce (group_orders orders []) ≡ siblings maker nonce orders
members_of-siblings orders maker nonce = members_of-group_orders maker nonce orders []

-- The lint accepts a list of orders exactly where, for every maker and nonce that more than one of
-- them has, all of those are fill-once.
pub assert_nonce_siblings_fill_once-IsBracketed :
    (orders : List Order)
    → (assert_nonce_siblings_fill_once orders ≡ ok orders) ↔ IsBracketed orders
unfolding assert_nonce_siblings_fill_once
assert_nonce_siblings_fill_once-IsBracketed orders = (accepted, bracketed)
  where
    accepted : assert_nonce_siblings_fill_once orders ≡ ok orders → IsBracketed orders
    accepted e maker nonce many =
        let tight : is_loose_list (siblings maker nonce orders) ≡ false =
          rw (← members_of-siblings orders maker nonce)
            (members_of-loose maker nonce (group_orders orders []) (ground arith)) in
        any-All-IsFillOnce (siblings maker nonce orders) (ground arith)

    bracketed : IsBracketed orders → assert_nonce_siblings_fill_once orders ≡ ok orders
    bracketed h =
        let tight : any is_loose (group_orders orders []) ≡ false =
          is_loose-members_of (group_orders orders []) (group_orders-IsKeyed orders [] tt)
            λ maker nonce. rw (members_of-siblings orders maker nonce) (
              ground (
                arith,
                λ (m : 1 < length (siblings maker nonce orders)).
                    any-IsFillOnce (siblings maker nonce orders) (h maker nonce m),
              )) in
        rw tight refl

-- What ocoNonceGroup makes of a leg.
abbrev stamp : ℕ → Order → Order
stamp shared leg = record leg { nonce = shared; timing = with_fill_once leg.timing }

siblings-stamp-IsFillOnce :
    (shared : ℕ) (legs : List Order) (maker : Address) (nonce : ℕ)
    → All IsFillOnce (siblings maker nonce (map (stamp shared) legs))
unfolding is_fill_once flag with_fill_once
siblings-stamp-IsFillOnce shared [] maker nonce = tt
siblings-stamp-IsFillOnce shared (leg ∷ legs) maker nonce =
    ground (arith, siblings-stamp-IsFillOnce shared legs maker nonce, bit_or-pow 100 leg.timing)

siblings-stamp :
    (shared : ℕ) (maker : Address) (legs : List Order)
    → has_other_maker maker legs ≡ false
    → siblings maker shared (map (stamp shared) legs) ≡ map (stamp shared) legs
unfolding has_other_maker
siblings-stamp shared maker [] h = refl
siblings-stamp shared maker (leg ∷ legs) h = ground (arith, siblings-stamp shared maker legs)

-- Whatever ocoNonceGroup returns is one bracket, all the legs on the shared nonce of one maker,
-- and the lint of shared nonces accepts it.
pub oco_nonce_group-siblings :
    (leg : Order) (legs group : List Order) (shared : ℕ)
    → oco_nonce_group (leg ∷ legs) shared ≡ ok group
    → (siblings leg.maker shared group ≡ group)
      × (length group ≡ length (leg ∷ legs))
      × (assert_nonce_siblings_fill_once group ≡ ok group)
unfolding oco_nonce_group
oco_nonce_group-siblings leg [] group shared e = cc e
oco_nonce_group-siblings leg (other ∷ legs) group shared e =
    let all_legs = leg ∷ other ∷ legs in
    let (u, same_maker, made) =
      >>=-eq-ok (throw_if (has_other_maker leg.maker all_legs) maker_mismatch) _ e in
    rw (← ok-injective made) (
      siblings-stamp shared leg.maker all_legs (ground arith),
      length-map (stamp shared) all_legs,
      (assert_nonce_siblings_fill_once-IsBracketed (map (stamp shared) all_legs)).1
          λ maker nonce many. siblings-stamp-IsFillOnce shared all_legs maker nonce,
    )
