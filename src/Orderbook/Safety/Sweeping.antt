-- ===== src/Orderbook/Safety/Sweeping.antt =====
-- Chain events, the expired sweep and the rechecks keep the counts right and the caps.
use mathlib.Core.Path.{subst}
use delta_x.Prelude.{
  ℕ, Option, none, some, List, [], ◌∷◌, Bool, true, false, ◌&&◌, ◌==◌, leb, if◌then◌else◌,
  Option-cases, Bool-cases, inl, inr, sym,
}
use delta_x.Prelude.Dict.{Dict, get}
use delta_x.Orderbook.Messages.{
  ChainEvent, Layer2Result, cancelled_by_hash, cancelled_nonces, rolled_back, word_invalidated,
  group_claimed, order_filled,
}
use delta_x.Orderbook.Admission.{AdmissionPolicy}
use delta_x.Orderbook.Shelf.{BookEntry, Shelf, maker_of, evict}
use delta_x.Orderbook.Shelf.Caps
use delta_x.Orderbook.Shelf.Caps.{evict-IsSound, set-IsSound}
use delta_x.Orderbook.Graves.Invariant.{prune-IsSound}
use delta_x.Orderbook.Book.{Book, BookOptions}
use delta_x.Orderbook.Events.{
  evict_matching, apply_chain_event, matches, is_fill_once_entry, same_nonce, nonce_of,
}
use delta_x.Orderbook.Recheck.Cases.{untouched, written, dropped, recheck_one-cases}
use delta_x.Orderbook.Recheck.{
  land_answer, recheck_one, recheck, drop_expired, expire, revalidate_dirty, revalidate, keys,
}
use delta_x.Orderbook.Safety.Admitting.{IsSound}

module _ (policy : AdmissionPolicy) where
  evict_if-IsSound :
      (b : Bool) (h : ℕ) (shelf : Shelf)
      → Caps.IsSound policy none shelf
      → Caps.IsSound policy none (if b then evict h shelf else shelf)
  evict_if-IsSound true h shelf s = evict-IsSound policy shelf none h s
  evict_if-IsSound false h shelf s = s

  evict_matching-IsSound :
      (test : BookEntry → Bool) (d : Dict BookEntry) (shelf : Shelf)
      → Caps.IsSound policy none shelf
      → Caps.IsSound policy none (evict_matching test d shelf).1
  unfolding evict_matching
  evict_matching-IsSound test [] shelf s = s
  evict_matching-IsSound test ((k, e) ∷ rest) shelf s =
      evict_matching-IsSound test rest _ (evict_if-IsSound (test e) k shelf s)

  drop_expired-IsSound :
      (now : ℕ) (d : Dict BookEntry) (shelf : Shelf)
      → Caps.IsSound policy none shelf
      → Caps.IsSound policy none (drop_expired now d shelf)
  unfolding drop_expired
  drop_expired-IsSound now [] shelf s = s
  drop_expired-IsSound now ((k, e) ∷ rest) shelf s =
      drop_expired-IsSound now rest _ (evict_if-IsSound (leb e.announce.order.expiry now) k shelf s)

module _ (opts : BookOptions) where
  recheck_one-IsSound :
      (h : ℕ) (s : Layer2Result) (shelf : Shelf)
      → Caps.IsSound opts.admission none shelf
      → Caps.IsSound opts.admission none (recheck_one opts h s shelf)
  recheck_one-IsSound h s shelf sound = elim (recheck_one-cases opts h s shelf) [
    | untouched r ↦ subst (Caps.IsSound opts.admission none) (sym r) sound
    | written e e' found same r ↦
        subst (Caps.IsSound opts.admission none) (sym r)
          (set-IsSound opts.admission shelf none h e e' sound found same)
    | dropped e e' found same r ↦ subst (Caps.IsSound opts.admission none) (sym r) (
        evict-IsSound opts.admission _ none h
          (set-IsSound opts.admission shelf none h e e' sound found same))
  ]

  land_answer-IsSound :
      (h : ℕ) (answer : Option Layer2Result) (shelf : Shelf)
      → Caps.IsSound opts.admission none shelf
      → Caps.IsSound opts.admission none (land_answer opts h answer shelf)
  land_answer-IsSound h none shelf s = s
  land_answer-IsSound h (some answer) shelf s = recheck_one-IsSound h answer shelf s

  pub recheck-IsSound :
      (states : ℕ → Option Layer2Result) (hashes : List ℕ) (shelf : Shelf)
      → Caps.IsSound opts.admission none shelf
      → Caps.IsSound opts.admission none (recheck opts states hashes shelf)
  unfolding recheck
  recheck-IsSound states [] shelf s = s
  recheck-IsSound states (h ∷ rest) shelf s =
      recheck-IsSound states rest _ (land_answer-IsSound h (states h) shelf s)

  pub expire-IsSound :
      (now : ℕ) (book : Book) → IsSound opts none book → IsSound opts none (expire now book)
  unfolding expire
  expire-IsSound now book s = record {
    shelf = drop_expired-IsSound opts.admission now book.shelf.entries book.shelf s.shelf;
    graves = prune-IsSound opts.limits now book.graves s.graves;
  }

  pub revalidate-IsSound :
      (now : ℕ) (states : ℕ → Option Layer2Result) (book : Book)
      → IsSound opts none book
      → IsSound opts none (revalidate opts now states book)
  unfolding revalidate
  revalidate-IsSound now states book s =
      let live = expire-IsSound now book s in
      record {
        shelf =
            recheck-IsSound states (keys (expire now book).shelf.entries) (expire now book).shelf
              live.shelf;
        graves = live.graves;
      }

  pub revalidate_dirty-IsSound :
      (states : ℕ → Option Layer2Result) (book : Book)
      → IsSound opts none book
      → IsSound opts none (revalidate_dirty opts states book)
  unfolding revalidate_dirty
  revalidate_dirty-IsSound states book s = record {
    shelf = recheck-IsSound states book.dirty book.shelf s.shelf;
    graves = s.graves;
  }

module _ (opts : BookOptions) (decode_uint256 : List ℕ → Option ℕ) where
  evict_entry-IsSound :
      (h : ℕ) (book : Book)
      → IsSound opts none book
      → IsSound opts none (record book { shelf = evict h book.shelf })
  evict_entry-IsSound h book s = record {
    shelf = evict-IsSound opts.admission book.shelf none h s.shelf;
    graves = s.graves;
  }

  evict_all-IsSound :
      (test : BookEntry → Bool) (book : Book)
      → IsSound opts none book
      → IsSound opts none
          (record book { shelf = (evict_matching test book.shelf.entries book.shelf).1 })
  evict_all-IsSound test book s = record {
    shelf = evict_matching-IsSound opts.admission test book.shelf.entries book.shelf s.shelf;
    graves = s.graves;
  }

  pub apply_chain_event-IsSound :
      (e : ChainEvent) (book : Book)
      → IsSound opts none book
      → IsSound opts none (apply_chain_event decode_uint256 e book).1
  unfolding apply_chain_event
  apply_chain_event-IsSound (cancelled_by_hash maker h) book s =
      elim (Option-cases (get h book.shelf.entries)) [
        | inl absent ↦ rw (apply_chain_event, absent) s
        | inr (entry, found) ↦ elim (Bool-cases (maker_of entry == maker)) [
          | inl agreed ↦ rw (apply_chain_event, found, agreed) (evict_entry-IsSound h book s)
          | inr other ↦ rw (apply_chain_event, found, other) s
        ]
      ]
  apply_chain_event-IsSound (order_filled h maker) book s =
      elim (Option-cases (get h book.shelf.entries)) [
        | inl absent ↦ rw (apply_chain_event, absent) s
        | inr (entry, found) ↦
            elim (Bool-cases (maker_of entry == maker && is_fill_once_entry entry)) [
              | inl once ↦
                  rw (apply_chain_event, found, once)
                    (evict_all-IsSound (same_nonce decode_uint256 maker (nonce_of entry)) _
                      (evict_entry-IsSound h book s))
              | inr other ↦
                  rw (apply_chain_event, found, other)
                    (record { shelf = s.shelf; graves = s.graves })
            ]
      ]
  apply_chain_event-IsSound (cancelled_nonces m ns) book s =
      evict_all-IsSound (matches decode_uint256 (cancelled_nonces m ns)) book s
  apply_chain_event-IsSound (rolled_back m n) book s =
      evict_all-IsSound (matches decode_uint256 (rolled_back m n)) book s
  apply_chain_event-IsSound (word_invalidated m w) book s =
      evict_all-IsSound (matches decode_uint256 (word_invalidated m w)) book s
  apply_chain_event-IsSound (group_claimed m o g n) book s =
      evict_all-IsSound (matches decode_uint256 (group_claimed m o g n)) book s
