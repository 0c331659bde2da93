-- ===== src/Orderbook/Events.antt =====
-- packages/orderbook/src/book.ts, `applyChainEvent` of the class Book, and `isOcoGroupLeg` of
-- packages/orderbook/src/watcher.ts. The decoding of a validator's data is an argument, `none` where
-- it throws. The state that a filled entry is given on its way out of the map goes with it.
use delta_x.Prelude.{
  ℕ, ◌/◌, ◌^◌, Option, none, some, List, [], ◌∷◌, Bool, false, not, ◌&&◌, ltb, ◌==◌, if◌then◌else◌,
  any,
}
use delta_x.Prelude.Dict.{Dict, get}
use delta_x.Sdk.Order.{Address, Validator}
use delta_x.Sdk.Timing.{flag, fill_once_bit_index}
use delta_x.Orderbook.Messages.{
  ChainEvent, cancelled_by_hash, cancelled_nonces, rolled_back, word_invalidated, group_claimed,
  order_filled,
}
use delta_x.Orderbook.Shelf.{BookEntry, Shelf, maker_of, evict}
use delta_x.Orderbook.Book.{Book}

abbrev pub nonce_of : BookEntry → ℕ
nonce_of e = e.announce.order.nonce

-- The loop of `evictMatching` over the entries as they were.
unfoldable pub evict_matching : (BookEntry → Bool) → Dict BookEntry → Shelf → List ℕ × Shelf
evict_matching test [] shelf = ([], shelf)
evict_matching test ((key, entry) ∷ rest) shelf =
    let others = evict_matching test rest (if test entry then evict key shelf else shelf) in
    (if test entry then key ∷ others.0 else others.0, others.1)

unfoldable pub is_fill_once_entry : BookEntry → Bool
is_fill_once_entry entry = flag entry.announce.order.timing fill_once_bit_index

abbrev pub add_dirty : ℕ → List ℕ → List ℕ
add_dirty h [] = h ∷ []
add_dirty h (x ∷ rest) = if x == h then x ∷ rest else x ∷ add_dirty h rest

module _ (decode_uint256 : List ℕ → Option ℕ) where
  unfoldable pub is_group_leg : List Validator → Address → ℕ → Bool
  is_group_leg validators oco_module group_id =
      any
        (λ (v : Validator).
          v.target == oco_module
          && elim (decode_uint256 v.calldata) [ none ↦ false | some g ↦ g == group_id ])
        validators

  -- Does the event retire this entry, apart from the two that name an order's hash?
  unfoldable pub matches : ChainEvent → BookEntry → Bool
  matches (cancelled_by_hash maker order_hash) entry = false
  matches (cancelled_nonces maker nonces) entry =
      maker_of entry == maker && any (λ n. n == nonce_of entry) nonces
  matches (rolled_back maker min_valid_nonce) entry =
      maker_of entry == maker && ltb (nonce_of entry) min_valid_nonce
  matches (word_invalidated maker word_index) entry =
      maker_of entry == maker && nonce_of entry / 2 ^ 8 == word_index
  matches (group_claimed maker oco_module group_id nonce) entry =
      maker_of entry == maker
      && (not (nonce_of entry == nonce)
          && is_group_leg entry.announce.order.validators oco_module group_id)
  matches (order_filled order_hash maker) entry = false

  abbrev matching : ChainEvent → Book → List ℕ × Book
  matching e book =
      let gone = evict_matching (matches e) book.shelf.entries book.shelf in
      (gone.0, record book { shelf = gone.1 })

  abbrev pub same_nonce : Address → ℕ → BookEntry → Bool
  same_nonce maker nonce entry = maker_of entry == maker && nonce_of entry == nonce

  -- The evicted hashes and the book after the event.
  unfoldable pub apply_chain_event : ChainEvent → Book → List ℕ × Book
  apply_chain_event (cancelled_by_hash maker order_hash) book =
      elim (get order_hash book.shelf.entries) [
        | none ↦ ([], book)
        | some entry ↦
            if maker_of entry == maker
            then (order_hash ∷ [], record book { shelf = evict order_hash book.shelf })
            else ([], book)
      ]
  apply_chain_event (order_filled order_hash maker) book =
      elim (get order_hash book.shelf.entries) [
        | none ↦ ([], book)
        | some entry ↦
            if maker_of entry == maker && is_fill_once_entry entry
            then (let shelf = evict order_hash book.shelf in
                let gone = evict_matching (same_nonce maker (nonce_of entry)) shelf.entries shelf in
                (order_hash ∷ gone.0, record book { shelf = gone.1 }))
            else ([], record book { dirty = add_dirty order_hash book.dirty })
      ]
  apply_chain_event e book = matching e book
