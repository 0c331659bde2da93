-- ===== src/Sdk/Oco/Groups.antt =====
-- packages/sdk/src/oco.ts: the groups that assertNonceSiblingsFillOnce makes of its orders.
use mathlib.Core.List.{append_assoc, append-nil}
use delta_x.Prelude.{
  ℕ, ◌≡◌, refl, sym, ap, arith, Bool, false, not, ◌&&◌, ◌||◌, List, [], ◌∷◌, ◌++◌, ltb, ◌==◌,
  if◌then◌else◌, length, any,
}
use delta_x.Sdk.Order.{Address, Order}
use delta_x.Sdk.Timing.{is_fill_once}
use delta_x.Sdk.Oco.{NonceGroup, has_key, push_order, group_orders, is_loose}

-- the orders of a maker on a nonce
abbrev pub siblings : Address → ℕ → List Order → List Order
siblings maker nonce [] = []
siblings maker nonce (o ∷ orders) =
    let rest = siblings maker nonce orders in
    if o.maker == maker && o.nonce == nonce then o ∷ rest else rest

abbrev pub is_loose_list : List Order → Bool
is_loose_list orders = ltb 1 (length orders) && any (λ (o : Order). not (is_fill_once o)) orders

-- the members under a key
abbrev pub members_of : Address → ℕ → List NonceGroup → List Order
members_of maker nonce [] = []
members_of maker nonce (group ∷ groups) =
    let rest = members_of maker nonce groups in
    if has_key maker nonce group then group.members else rest

pub members_of-push_order :
    (maker : Address) (nonce : ℕ) (o : Order) (groups : List NonceGroup)
    → members_of maker nonce (push_order o groups)
      ≡ members_of maker nonce groups ++ siblings maker nonce (o ∷ [])
unfolding push_order has_key
members_of-push_order maker nonce o [] = ground arith
members_of-push_order maker nonce o (group ∷ groups) = ground (
  arith,
  members_of-push_order maker nonce o groups,
  append-nil (members_of maker nonce groups),
  append-nil group.members,
)

pub siblings-append :
    (maker : Address) (nonce : ℕ) (o : Order) (orders : List Order)
    → siblings maker nonce (o ∷ []) ++ siblings maker nonce orders
      ≡ siblings maker nonce (o ∷ orders)
siblings-append maker nonce o orders = ground arith

pub members_of-group_orders :
    (maker : Address) (nonce : ℕ) (orders : List Order) (groups : List NonceGroup)
    → members_of maker nonce (group_orders orders groups)
      ≡ members_of maker nonce groups ++ siblings maker nonce orders
unfolding group_orders
members_of-group_orders maker nonce [] groups = sym (append-nil (members_of maker nonce groups))
members_of-group_orders maker nonce (o ∷ orders) groups =
    rw
      (
        members_of-group_orders maker nonce orders (push_order o groups),
        members_of-push_order maker nonce o groups,
      )
      (rw append_assoc (
        ap (λ (rest : List Order). members_of maker nonce groups ++ rest)
          (siblings-append maker nonce o orders)))

-- no key twice
abbrev pub IsKeyed : List NonceGroup → Type 0
IsKeyed [] = Unit
IsKeyed (group ∷ groups) =
    (any (has_key group.group_maker group.group_nonce) groups ≡ false) × IsKeyed groups

pub any-push_order :
    (maker : Address) (nonce : ℕ) (o : Order) (groups : List NonceGroup)
    → any (has_key maker nonce) (push_order o groups)
      ≡ (any (has_key maker nonce) groups || (o.maker == maker && o.nonce == nonce))
unfolding push_order has_key
any-push_order maker nonce o [] = ground arith
any-push_order maker nonce o (group ∷ groups) = ground (arith, any-push_order maker nonce o groups)

pub push_order-IsKeyed :
    (o : Order) (groups : List NonceGroup) → IsKeyed groups → IsKeyed (push_order o groups)
unfolding push_order has_key
push_order-IsKeyed o [] keyed = (refl, tt)
push_order-IsKeyed o (group ∷ groups) keyed = ground (
  arith,
  push_order-IsKeyed o groups keyed.1,
  any-push_order group.group_maker group.group_nonce o groups,
)

pub group_orders-IsKeyed :
    (orders : List Order) (groups : List NonceGroup)
    → IsKeyed groups
    → IsKeyed (group_orders orders groups)
unfolding group_orders
group_orders-IsKeyed [] groups keyed = keyed
group_orders-IsKeyed (o ∷ orders) groups keyed =
    group_orders-IsKeyed orders (push_order o groups) (push_order-IsKeyed o groups keyed)

pub members_of-loose :
    (maker : Address) (nonce : ℕ) (groups : List NonceGroup)
    → any is_loose groups ≡ false
    → is_loose_list (members_of maker nonce groups) ≡ false
unfolding is_loose
members_of-loose maker nonce [] h = refl
members_of-loose maker nonce (group ∷ groups) h =
    ground (arith, members_of-loose maker nonce groups)

pub members_of_none :
    (maker : Address) (nonce : ℕ) (groups : List NonceGroup)
    → any (has_key maker nonce) groups ≡ false
    → members_of maker nonce groups ≡ []
members_of_none maker nonce [] h = refl
members_of_none maker nonce (group ∷ groups) h = ground (arith, members_of_none maker nonce groups)

pub is_loose-members_of :
    (groups : List NonceGroup)
    → IsKeyed groups
    → ((maker : Address) (nonce : ℕ) → is_loose_list (members_of maker nonce groups) ≡ false)
    → any is_loose groups ≡ false
unfolding is_loose has_key
is_loose-members_of [] keyed h = refl
is_loose-members_of (group ∷ groups) keyed h = ground (
  arith,
  h group.group_maker group.group_nonce,
  is_loose-members_of groups keyed.1
      λ maker nonce. ground (arith, h maker nonce, members_of_none maker nonce groups, keyed.0),
)
