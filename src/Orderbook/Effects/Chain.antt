-- ===== src/Orderbook/Effects/Chain.antt =====
-- A chain event, as the orders that it retires.
use delta_x.Prelude.{
  ℕ, ◌≡◌, ap, ◌∙◌, arith, Option, none, some, List, Bool, false, ◌&&◌, ◌||◌, ◌==◌, Option-cases,
  Bool-cases, inl, inr,
}
use delta_x.Prelude.Dict.{get, IsMap}
use delta_x.Sdk.Order.{Address}
use delta_x.Orderbook.Messages.{
  ChainEvent, cancelled_by_hash, cancelled_nonces, rolled_back, word_invalidated, group_claimed,
  order_filled,
}
use delta_x.Orderbook.Shelf.{BookEntry, maker_of, evict}
use delta_x.Orderbook.Shelf.Counts.{get-evict, evict-IsMap}
use delta_x.Orderbook.Book.{Book}
use delta_x.Orderbook.Events.{apply_chain_event, matches, is_fill_once_entry, same_nonce, nonce_of}
use delta_x.Orderbook.Ingest.{includes}
use delta_x.Orderbook.Effects.Evictions.{
  keep_unless, holds, get-evict_matching, includes-evict_matching,
}

-- The orders of a book, by hash.
abbrev pub View : Type 0
View = ℕ → Option BookEntry

abbrev pub view : Book → View
view book h = get h book.shelf.entries

module _ (decode_uint256 : List ℕ → Option ℕ) where
  -- The event retires the order of hash `h`: the maker's own, and named by the event. A fill retires
  -- a fill-once order, with the maker's orders on its nonce.
  abbrev pub retires : ChainEvent → View → ℕ → BookEntry → Bool
  retires (cancelled_by_hash maker order_hash) orders h e = order_hash == h && maker_of e == maker
  retires (order_filled order_hash maker) orders h e = elim (orders order_hash) [
    | none ↦ false
    | some filled ↦
        (maker_of filled == maker && is_fill_once_entry filled)
        && (order_hash == h || (maker_of e == maker && nonce_of e == nonce_of filled))
  ]
  retires event orders h e = matches decode_uint256 event e

  -- The event on the orders alone.
  abbrev pub retire : ChainEvent → View → View
  retire event orders h = keep_unless (retires event orders h) (orders h)

  retire_by_hash :
      (maker : Address) (j : ℕ) (book : Book) (h : ℕ)
      → IsMap book.shelf.entries
      → view (apply_chain_event decode_uint256 (cancelled_by_hash maker j) book).1 h
        ≡ retire (cancelled_by_hash maker j) (view book) h
  unfolding apply_chain_event
  retire_by_hash maker j book h u = elim (Option-cases (get j book.shelf.entries)) [
    | inl absent ↦ elim (Option-cases (get h book.shelf.entries)) [
      | inl missing ↦ ground (arith, absent, missing)
      | inr (e, here) ↦ elim (Bool-cases (j == h)) [
        | inl same ↦ absurd (ground (arith, absent, here, same))
        | inr other ↦ ground (arith, absent, here, other)
      ]
    ]
    | inr (entry, found) ↦ elim (Option-cases (get h book.shelf.entries)) [
      | inl missing ↦ ground (arith, found, missing, get-evict j h book.shelf u)
      | inr (e, here) ↦ elim (Bool-cases (j == h)) [
        | inl same ↦ ground (arith, found, here, same, get-evict j h book.shelf u)
        | inr other ↦ ground (arith, found, here, other, get-evict j h book.shelf u)
      ]
    ]
  ]

  retire_filled :
      (maker : Address) (j : ℕ) (book : Book) (h : ℕ)
      → IsMap book.shelf.entries
      → view (apply_chain_event decode_uint256 (order_filled j maker) book).1 h
        ≡ retire (order_filled j maker) (view book) h
  unfolding apply_chain_event
  retire_filled maker j book h u = elim (Option-cases (get j book.shelf.entries)) [
    | inl absent ↦ elim (Option-cases (get h book.shelf.entries)) [
      | inl missing ↦ ground (arith, absent, missing)
      | inr (e, here) ↦ ground (arith, absent, here)
    ]
    | inr (filled, found) ↦
        let gone =
          get-evict_matching (same_nonce decode_uint256 maker (nonce_of filled)) h
            (evict j book.shelf) (evict-IsMap j book.shelf u) in
        elim (Option-cases (get h book.shelf.entries)) [
          | inl missing ↦ ground (arith, found, missing, gone, get-evict j h book.shelf u)
          | inr (e, here) ↦ elim (Bool-cases (j == h)) [
            | inl same ↦ ground (arith, found, here, same, gone, get-evict j h book.shelf u)
            | inr other ↦ ground (arith, found, here, other, gone, get-evict j h book.shelf u)
          ]
        ]
  ]

  told_by_hash :
      (maker : Address) (j : ℕ) (book : Book) (h : ℕ)
      → includes h (apply_chain_event decode_uint256 (cancelled_by_hash maker j) book).0
        ≡ holds (retires (cancelled_by_hash maker j) (view book) h) (view book h)
  unfolding apply_chain_event
  told_by_hash maker j book h = elim (Bool-cases (j == h)) [
    | inl same ↦
        let e : view book j ≡ view book h = ap (view book) (ground (arith, same)) in
        elim (Option-cases (view book h)) [
          | inl missing ↦ ground (arith, missing, same, e)
          | inr (entry, here) ↦ ground (arith, here, same, e)
        ]
    | inr other ↦ elim (Option-cases (view book h)) [
      | inl gone ↦ elim (Option-cases (view book j)) [
        | inl missing ↦ ground (arith, missing, gone, other)
        | inr (found, there) ↦ ground (arith, there, gone, other)
      ]
      | inr (entry, here) ↦ elim (Option-cases (view book j)) [
        | inl missing ↦ ground (arith, missing, here, other)
        | inr (found, there) ↦ ground (arith, there, here, other)
      ]
    ]
  ]

  told_filled :
      (maker : Address) (j : ℕ) (book : Book) (h : ℕ)
      → IsMap book.shelf.entries
      → includes h (apply_chain_event decode_uint256 (order_filled j maker) book).0
        ≡ holds (retires (order_filled j maker) (view book) h) (view book h)
  unfolding apply_chain_event
  told_filled maker j book h u = elim (Option-cases (get j book.shelf.entries)) [
    | inl absent ↦ elim (Option-cases (get h book.shelf.entries)) [
      | inl missing ↦ ground (arith, absent, missing)
      | inr (e, here) ↦ ground (arith, absent, here)
    ]
    | inr (filled, found) ↦
        let told =
          includes-evict_matching (same_nonce decode_uint256 maker (nonce_of filled)) h
            (evict j book.shelf) (evict-IsMap j book.shelf u) in
        elim (Bool-cases (j == h)) [
          | inl same ↦
              let here : get h book.shelf.entries ≡ some filled =
                ap (λ k. get k book.shelf.entries) (ground (arith, same)) ∙ found in
              ground (arith, found, here, same, told)
          | inr other ↦ elim (Option-cases (get h book.shelf.entries)) [
            | inl missing ↦ ground (arith, found, missing, told, other, get-evict j h book.shelf u)
            | inr (e, here) ↦ ground (arith, found, here, told, other, get-evict j h book.shelf u)
          ]
        ]
  ]

  -- The event on the book is `retire` on its view, and tells the hashes that it retires.
  pub apply_chain_event-retire :
      (event : ChainEvent) (book : Book) (h : ℕ)
      → IsMap book.shelf.entries
      → (view (apply_chain_event decode_uint256 event book).1 h ≡ retire event (view book) h)
        × (includes h (apply_chain_event decode_uint256 event book).0
            ≡ holds (retires event (view book) h) (view book h))
  unfolding apply_chain_event
  apply_chain_event-retire (cancelled_by_hash maker j) book h u =
      (retire_by_hash maker j book h u, told_by_hash maker j book h)
  apply_chain_event-retire (order_filled j maker) book h u =
      (retire_filled maker j book h u, told_filled maker j book h u)
  apply_chain_event-retire (cancelled_nonces m ns) book h u = (
    get-evict_matching (matches decode_uint256 (cancelled_nonces m ns)) h book.shelf u,
    includes-evict_matching (matches decode_uint256 (cancelled_nonces m ns)) h book.shelf u,
  )
  apply_chain_event-retire (rolled_back m n) book h u = (
    get-evict_matching (matches decode_uint256 (rolled_back m n)) h book.shelf u,
    includes-evict_matching (matches decode_uint256 (rolled_back m n)) h book.shelf u,
  )
  apply_chain_event-retire (word_invalidated m w) book h u = (
    get-evict_matching (matches decode_uint256 (word_invalidated m w)) h book.shelf u,
    includes-evict_matching (matches decode_uint256 (word_invalidated m w)) h book.shelf u,
  )
  apply_chain_event-retire (group_claimed m o g n) book h u = (
    get-evict_matching (matches decode_uint256 (group_claimed m o g n)) h book.shelf u,
    includes-evict_matching (matches decode_uint256 (group_claimed m o g n)) h book.shelf u,
  )
