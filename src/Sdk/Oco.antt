-- ===== src/Sdk/Oco.antt =====
-- packages/sdk/src/oco.ts: brackets of orders of which at most one may fill, by a shared nonce or by
-- the claim items of a group module. viem's `encodeAbiParameters` and `decodeAbiParameters` are
-- parameters. A `Map` keyed by `maker:nonce` is the list of its groups in the order of insertion.
pub mod Groups
pub mod Siblings
pub mod Claims
pub mod Coder
mod Tests
use Prim.Native.Nat.{bit_or}
use delta_x.Prelude.{
  ℕ, suc, ◌+◌, ◌^◌, ◌<◌, ◌≡◌, Option, none, some, Bool, true, false, not, ◌&&◌, ◌||◌, List, [], ◌∷◌,
  ◌++◌, map, Result, ok, err, throw_if, ◌>>=◌, ◌>>◌, map_m, ltb, ◌==◌, if◌then◌else◌, length, any,
  too_few_legs, maker_mismatch, repeated_nonces, no_anchor, invalid_claim, loose_siblings,
}
use delta_x.Sdk.Order.{
  Address, Order, sell, buy, Item, op_settle, Validator, LegIn, LegOut, max_uint256, is_buy,
}
use delta_x.Sdk.Timing.{is_fill_once, with_fill_once}
use delta_x.Sdk.Packed.{Bytes}

-- `legs.some((l) => l.maker !== maker)`
unfoldable pub has_other_maker : Address → List Order → Bool
has_other_maker maker legs = any (λ (leg : Order). not (leg.maker == maker)) legs

unfoldable pub oco_nonce_group : List Order → ℕ → Result (List Order)
oco_nonce_group [] shared_nonce = err too_few_legs
oco_nonce_group (leg ∷ []) shared_nonce = err too_few_legs
oco_nonce_group (leg ∷ other ∷ legs) shared_nonce = do
  throw_if (has_other_maker leg.maker (leg ∷ other ∷ legs)) maker_mismatch
  ok (
      map (λ (l : Order). record l { nonce = shared_nonce; timing = with_fill_once l.timing })
        (leg ∷ other ∷ legs))

-- an entry of the map `groups`
pub record NonceGroup : Type 0 where
  pub group_maker : Address
  pub group_nonce : ℕ
  pub members : List Order

unfoldable pub has_key : Address → ℕ → NonceGroup → Bool
has_key maker nonce group = group.group_maker == maker && group.group_nonce == nonce

unfoldable pub push_order : Order → List NonceGroup → List NonceGroup
push_order o [] = record { group_maker = o.maker; group_nonce = o.nonce; members = o ∷ [] } ∷ []
push_order o (group ∷ groups) =
    let rest = push_order o groups in
    if has_key o.maker o.nonce group
    then record group { members = group.members ++ (o ∷ []) } ∷ groups
    else group ∷ rest

-- the first loop
unfoldable pub group_orders : List Order → List NonceGroup → List NonceGroup
group_orders [] groups = groups
group_orders (o ∷ orders) groups = group_orders orders (push_order o groups)

unfoldable pub is_loose : NonceGroup → Bool
is_loose group =
    ltb 1 (length group.members) && any (λ (o : Order). not (is_fill_once o)) group.members

unfoldable pub assert_nonce_siblings_fill_once : List Order → Result (List Order)
assert_nonce_siblings_fill_once orders = do
  throw_if (any is_loose (group_orders orders [])) loose_siblings
  ok orders

unfoldable pub anchor_of : Order → Result ℕ
anchor_of order =
    if not (order.fill_total == 0)
    then ok order.fill_total
    else if is_buy order.side
    then elim order.legs_out [ [] ↦ err no_anchor | leg ∷ legs ↦ ok leg.start ]
    else elim order.legs_in [ [] ↦ err no_anchor | leg ∷ legs ↦ ok leg.start ]

-- `new Set(nonces)`
unfoldable pub nonce_set : List ℕ → List ℕ
nonce_set [] = []
nonce_set (nonce ∷ nonces) =
    let rest = nonce_set nonces in if any (λ n. n == nonce) rest then rest else nonce ∷ rest

-- The ABI coders of viem for a list of uint256 and for the three words of a claim.
pub record AbiCoder : Type 0 where
  pub encode : List ℕ → Result Bytes
  pub decode_claim : Bytes → ℕ × ℕ × ℕ

-- What viem documents: three words take 96 bytes, and they decode to themselves.
abbrev pub IsAbiCoder : AbiCoder → Type 0
IsAbiCoder abi =
    (group_id nonce min_claim : ℕ) (w : Bytes)
    → abi.encode (group_id ∷ nonce ∷ min_claim ∷ []) ≡ ok w
    → (length w ≡ 96) × (abi.decode_claim w ≡ (group_id, nonce, min_claim))

module _ (abi : AbiCoder) where
  unfoldable pub oco_group_validator : Address → ℕ → Result Validator
  oco_group_validator target group_id = do
    calldata ← abi.encode (group_id ∷ [])
    ok (record { target = target; calldata = calldata })

  unfoldable pub oco_group_item : Address → ℕ → ℕ → ℕ → ℕ → Result Item
  oco_group_item target group_id nonce anchor min_claim = do
    throw_if (anchor == 0) invalid_claim
    throw_if (nonce == max_uint256) invalid_claim
    throw_if (min_claim == 0 || ltb anchor min_claim) invalid_claim
    calldata ← abi.encode (group_id ∷ nonce ∷ min_claim ∷ [])
    ok (record {
      op = op_settle;
      module_address = target;
      amount = anchor;
      recipient = 0;
      calldata = calldata;
    })

  -- Only a settle with three words of data can be a claim.
  unfoldable pub is_claim : Item → Bool
  is_claim item = item.op == op_settle && length item.calldata == 96

  unfoldable pub renonce_item : ℕ → ℕ → Item → Result Item
  renonce_item prev_nonce nonce item =
      let (group_id, item_nonce, min_claim) = abi.decode_claim item.calldata in
      if not (is_claim item) || not (item_nonce == prev_nonce) then ok item else do
        calldata ← abi.encode (group_id ∷ nonce ∷ min_claim ∷ [])
        ok (record item { calldata = calldata })

  unfoldable pub renonce_oco_items : List Item → ℕ → ℕ → Result (List Item)
  renonce_oco_items items prev_nonce nonce = map_m (renonce_item prev_nonce nonce) items

  -- `minClaim ?? anchor`
  unfoldable pub oco_group_leg : Order → Address → ℕ → Option ℕ → Result Order
  oco_group_leg order target group_id min_claim = do
    anchor ← anchor_of order
    validator ← oco_group_validator target group_id
    item ←
        oco_group_item target group_id order.nonce anchor
          (elim min_claim [ none ↦ anchor | some smallest ↦ smallest ])
    ok (record order {
      validators = order.validators ++ (validator ∷ []);
      items = order.items ++ (item ∷ []);
    })

  unfoldable pub oco_group : List Order → Address → ℕ → Result (List Order)
  oco_group [] target group_id = err too_few_legs
  oco_group (leg ∷ []) target group_id = err too_few_legs
  oco_group (leg ∷ other ∷ legs) target group_id = do
    throw_if (has_other_maker leg.maker (leg ∷ other ∷ legs)) maker_mismatch
    let nonces = map (λ (l : Order). l.nonce) (leg ∷ other ∷ legs)
    throw_if (not (length (nonce_set nonces) == length (leg ∷ other ∷ legs))) repeated_nonces
    map_m (λ (l : Order). oco_group_leg l target group_id none) (leg ∷ other ∷ legs)
