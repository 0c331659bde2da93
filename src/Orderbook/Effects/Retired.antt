-- ===== src/Orderbook/Effects/Retired.antt =====
-- packages/orderbook/src/book.ts, `applyChainEvent`, and `isOcoGroupLeg` of watcher.ts: the orders
-- that each kind of event is about.
use mathlib.Core.Path.{subst}
use delta_x.Prelude.{
  ℕ, ◌/◌, ◌%◌, ◌^◌, ◌<◌, ◌≡◌, ◌≢◌, ◌⊎◌, inl, inr, arith, Option, none, some, List, true, false,
  ◌==◌, Bool-cases, Option-cases, ap, Some, Tells, any-Tells,
}
use delta_x.Prelude.Dict.{IsMap}
use delta_x.Sdk.Order.{Address, Validator}
use delta_x.Sdk.Timing.{flag}
use delta_x.Orderbook.Messages.{
  ChainEvent, cancelled_by_hash, cancelled_nonces, rolled_back, word_invalidated, group_claimed,
  order_filled,
}
use delta_x.Orderbook.Shelf.{BookEntry}
use delta_x.Orderbook.Book.{Book}
use delta_x.Orderbook.Events.{apply_chain_event, matches, is_group_leg, is_fill_once_entry}
use delta_x.Orderbook.Ingest.{includes}
use delta_x.Orderbook.Effects.Chain.{View, view, retires, apply_chain_event-retire}

module _ (decode_uint256 : List ℕ → Option ℕ) where
  -- The order's signed validators claim the group through the module.
  abbrev pub IsGroupLeg : List Validator → Address → ℕ → Type 0
  IsGroupLeg validators oco_module group_id =
      Some
        (λ (v : Validator). (v.target ≡ oco_module) × (decode_uint256 v.calldata ≡ some group_id))
        validators

  -- The filled order is the maker's and fill-once, and the order of hash `h` is that one or the
  -- maker's on the nonce that it spends.
  abbrev pub Closes : Address → ℕ → ℕ → BookEntry → BookEntry → Type 0
  Closes maker order_hash h e filled =
      (filled.announce.order.maker ≡ maker)
      × (filled.announce.order.timing / 2 ^ 100 % 2 ≡ 1)
      × ((order_hash ≡ h)
          ⊎ ((e.announce.order.maker ≡ maker)
              × (e.announce.order.nonce ≡ filled.announce.order.nonce)))

  -- The order of hash `h` is its maker's own, and the event is about it: its hash, its nonce, or the
  -- group that it is a losing leg of; or the event is the fill that closes it.
  abbrev pub Retires : ChainEvent → View → ℕ → BookEntry → Type 0
  Retires (cancelled_by_hash maker order_hash) orders h e =
      (order_hash ≡ h) × (e.announce.order.maker ≡ maker)
  Retires (cancelled_nonces maker nonces) orders h e =
      (e.announce.order.maker ≡ maker) × Some (λ n. n ≡ e.announce.order.nonce) nonces
  Retires (rolled_back maker min_valid_nonce) orders h e =
      (e.announce.order.maker ≡ maker) × (e.announce.order.nonce < min_valid_nonce)
  Retires (word_invalidated maker word_index) orders h e =
      (e.announce.order.maker ≡ maker) × (e.announce.order.nonce / 256 ≡ word_index)
  Retires (group_claimed maker oco_module group_id nonce) orders h e =
      (e.announce.order.maker ≡ maker)
      × (e.announce.order.nonce ≢ nonce)
      × IsGroupLeg e.announce.order.validators oco_module group_id
  Retires (order_filled order_hash maker) orders h e =
      (filled : BookEntry) × (orders order_hash ≡ some filled) × Closes maker order_hash h e filled

  is_group_leg-Tells :
      (validators : List Validator) (m : Address) (g : ℕ)
      → Tells (is_group_leg decode_uint256 validators m g) (IsGroupLeg validators m g)
  unfolding is_group_leg
  is_group_leg-Tells validators m g =
      any-Tells _ _
        (λ (v : Validator). elim (Option-cases (decode_uint256 v.calldata)) [
          | inl throws ↦ (λ e. absurd (ground (arith, throws)), λ e (t, d). cc (throws, d))
          | inr (x, reads) ↦ (
            λ e. (ground (arith, reads, e), rw reads (ap some (ground (arith, reads, e)))),
            λ e (t, d). ground (arith, reads, e, t, d),
          )
        ])
        validators

  retires-Tells :
      (event : ChainEvent) (orders : View) (h : ℕ) (e : BookEntry)
      → Tells (retires decode_uint256 event orders h e) (Retires event orders h e)
  unfolding matches is_fill_once_entry flag
  retires-Tells (cancelled_by_hash maker j) orders h e =
      (λ y. (ground arith, ground arith), λ n (a, b). ground arith)
  retires-Tells (cancelled_nonces maker nonces) orders h e =
      let (holds, fails) =
        any-Tells (λ n. n == e.announce.order.nonce) (λ n. n ≡ e.announce.order.nonce)
          (λ n. (λ y. ground arith, λ y same. ground arith)) nonces in
      (λ y. (ground arith, holds (ground arith)), λ y (a, b). fails (ground arith) b)
  retires-Tells (rolled_back maker n) orders h e =
      (λ y. (ground arith, ground arith), λ n (a, b). ground arith)
  retires-Tells (word_invalidated maker w) orders h e =
      (λ y. (ground arith, ground arith), λ n (a, b). ground arith)
  retires-Tells (group_claimed maker m g n) orders h e =
      let (holds, fails) = is_group_leg-Tells e.announce.order.validators m g in
      (
        λ y. (ground arith, (λ same. ground arith), holds (ground arith)),
        λ y (a, b, c). fails (ground arith) c,
      )
  retires-Tells (order_filled j maker) orders h e = elim (Option-cases (orders j)) [
    | inl absent ↦
        (λ y. absurd (ground (arith, absent, y)), λ y (f, found, closes). cc (absent, found))
    | inr (filled, there) ↦ (
      λ y. (
        filled,
        there,
        (
          ground (arith, there, y),
          ground (arith, there, y),
          elim (Bool-cases (j == h)) [
            | inl same ↦ inl (ground (arith, same))
            | inr other ↦ inr (ground (arith, there, y, other), ground (arith, there, y, other))
          ],
        ),
      ),
      λ y (f, found, closes).
          let same : f ≡ filled = cc (there, found) in
          let (own', once', ways') = subst (λ x. Closes maker j h e x) same closes in
          elim ways' [ inl it ↦ ground (arith, there, y) | inr (a, b) ↦ ground (arith, there, y) ],
    )
  ]

  -- What the event makes of the order that a hash names, and whether it tells the hash as evicted.
  abbrev pub IsRetired : ChainEvent → View → View → List ℕ → ℕ → Type 0
  IsRetired event before after evicted h =
      ((before h ≡ none) × (after h ≡ none) × (includes h evicted ≡ false))
      ⊎ ((e : BookEntry) × (before h ≡ some e)
          × ((Retires event before h e × (after h ≡ none) × (includes h evicted ≡ true))
              ⊎ ((¬ Retires event before h e) × (after h ≡ some e) × (includes h evicted ≡ false))))

  -- In a book that holds no hash twice, after a chain event: the orders that the event is about are
  -- gone and their hashes told as evicted; every other order is as it was and not told; and a hash
  -- that named no order names none and is not told.
  pub apply_chain_event-IsRetired :
      (event : ChainEvent) (book : Book) (h : ℕ)
      → IsMap book.shelf.entries
      → IsRetired event
          (view book)
          (view (apply_chain_event decode_uint256 event book).1)
          (apply_chain_event decode_uint256 event book).0
          h
  apply_chain_event-IsRetired event book h u =
      let (after, told) = apply_chain_event-retire decode_uint256 event book h u in
      elim (Option-cases (view book h)) [
        | inl missing ↦ inl (missing, ground (arith, after, missing), ground (arith, told, missing))
        | inr (e, here) ↦
            let (holds, fails) = retires-Tells event (view book) h e in
            inr (
              e,
              here,
              elim (Bool-cases (retires decode_uint256 event (view book) h e)) [
                | inl gone ↦ inl (
                  holds gone,
                  ground (arith, after, here, gone),
                  ground (arith, told, here, gone),
                )
                | inr kept ↦ inr (
                  fails kept,
                  ground (arith, after, here, kept),
                  ground (arith, told, here, kept),
                )
              ],
            )
      ]
