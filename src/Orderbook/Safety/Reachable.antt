-- ===== src/Orderbook/Safety/Reachable.antt =====
-- The books that messages, chain events and sweeps lead to. A step is what one call of the book does
-- between two awaits, so a run of steps is any interleaving of the calls.
use delta_x.Prelude.{ℕ, ◌≡◌, refl, arith, Option, none, some, List, [], true, inl, inr}
use delta_x.Prelude.Dict.{get}
use delta_x.Orderbook.Messages.{
  OrderAnnounce, SignedSoftCancel, OrderReplace, CancelVerdict, Layer2Result, ChainEvent,
}
use delta_x.Orderbook.Shelf.{maker_count, evict}
use delta_x.Orderbook.Shelf.Caps.{evict-IsSound}
use delta_x.Orderbook.Shelf.Counts.{by_maker}
use delta_x.Orderbook.Graves.Counts.{pending_count}
use delta_x.Orderbook.Book.{Book, BookOptions, empty_book, apply_verified_cancel}
use delta_x.Orderbook.Ingest.{VerifyResult, land_announce, land_replace, includes}
use delta_x.Orderbook.Events.{apply_chain_event}
use delta_x.Orderbook.Recheck.{recheck, expire}
use delta_x.Orderbook.Safety.Admitting.{IsSound, admit-IsSound}
use delta_x.Orderbook.Safety.Retracting.{apply_verified_cancel-IsSound, swap-IsSound}
use delta_x.Orderbook.Safety.Sweeping.{expire-IsSound, recheck-IsSound, apply_chain_event-IsSound}

module _ (opts : BookOptions) (decode_uint256 : List ℕ → Option ℕ) where
  pub data Step : Book → Book → Type 0 where
    announced :
        {book : Book} (now : ℕ) (announce : OrderAnnounce) (verified : VerifyResult)
        → Step book (land_announce opts now announce verified book).1
    cancelled :
        {book : Book} (now : ℕ) (signed : SignedSoftCancel) (verdict : CancelVerdict)
        → Step book (apply_verified_cancel opts now signed verdict book).1
    replaced :
        {book : Book} (now : ℕ) (replace : OrderReplace) (verified : VerifyResult)
        → includes replace.replaces replace.cancel.cancel.order_hashes ≡ true
        → replace.cancel.cancel.maker ≡ replace.announce.order.maker
        → Step book
            (land_replace opts now replace (some replace.cancel.cancel.maker) verified book).1
    observed :
        {book : Book} (e : ChainEvent) → Step book (apply_chain_event decode_uint256 e book).1
    swept : {book : Book} (now : ℕ) → Step book (expire now book)
    rechecked :
        {book : Book} (states : ℕ → Option Layer2Result) (hashes : List ℕ)
        → Step book (record book { shelf = recheck opts states hashes book.shelf })
    -- a bad answer for an order that left the book and came back meanwhile
    outdated : {book : Book} (h : ℕ) → Step book (record book { shelf = evict h book.shelf })
    cleaned : {book : Book} → Step book (record book { dirty = [] })

  pub data Reach : Book → Type 0 where
    start : Reach empty_book
    later : {a b : Book} → Reach a → Step a b → Reach b

  land_announce-IsSound :
      (now : ℕ) (announce : OrderAnnounce) (verified : VerifyResult) (book : Book)
      → IsSound opts none book
      → IsSound opts none (land_announce opts now announce verified book).1
  unfolding land_announce
  land_announce-IsSound now announce none book s = s
  land_announce-IsSound now announce (some (h, state)) book s =
      elim (admit-IsSound opts now h announce state none book s) [
        | inl sound ↦ sound
        | inr (sound, before, e) ↦ absurd (ground (arith, before))
      ]

  land_replace-IsSound :
      (now : ℕ) (replace : OrderReplace) (verified : VerifyResult) (book : Book)
      → includes replace.replaces replace.cancel.cancel.order_hashes ≡ true
      → replace.cancel.cancel.maker ≡ replace.announce.order.maker
      → IsSound opts none book
      → IsSound opts none
          (land_replace opts now replace (some replace.cancel.cancel.maker) verified book).1
  unfolding land_replace
  land_replace-IsSound now replace none book named same s = s
  land_replace-IsSound now replace (some (h, state)) book named same s =
      swap-IsSound opts now replace h state book s same named

  Step-IsSound : {a b : Book} → Step a b → IsSound opts none a → IsSound opts none b
  Step-IsSound {a} (announced now announce verified) s =
      land_announce-IsSound now announce verified a s
  Step-IsSound {a} (cancelled now signed verdict) s =
      apply_verified_cancel-IsSound opts now signed verdict none a s
  Step-IsSound {a} (replaced now replace verified named same) s =
      land_replace-IsSound now replace verified a named same s
  Step-IsSound {a} (observed e) s = apply_chain_event-IsSound opts decode_uint256 e a s
  Step-IsSound {a} (swept now) s = expire-IsSound opts now a s
  Step-IsSound {a} (rechecked states hashes) s = record {
    shelf = recheck-IsSound opts states hashes a.shelf s.shelf;
    graves = s.graves;
  }
  Step-IsSound {a} (outdated h) s = record {
    shelf = evict-IsSound opts.admission a.shelf none h s.shelf;
    graves = s.graves;
  }
  Step-IsSound {a} cleaned s = record { shelf = s.shelf; graves = s.graves }

  empty_book-IsSound : IsSound opts none empty_book
  unfolding empty_book by_maker maker_count get pending_count
  empty_book-IsSound = record {
    shelf = record {
      counted = record { entries_unique = tt; counts_unique = tt; counted = λ m. refl };
      capped = inr (ground arith);
      capped_maker = λ m. inr (ground arith);
    };
    graves = record {
      counted = record { single = tt; counts_unique = tt; counted = λ m. refl };
      capped = ground arith;
      capped_pending = λ m. ground arith;
    };
  }

  -- Whatever the interleaving of announces, cancels, replaces, chain events, sweeps and rechecks, a
  -- book keeps the caps of its policy on all orders and on each maker's, counts each maker's orders
  -- right, and keeps the caps on all tombstones and on each maker's pending ones. The verdict of a
  -- replace is the one for the maker that its cancel names.
  pub Reach-IsSound : {book : Book} → Reach book → IsSound opts none book
  Reach-IsSound start = empty_book-IsSound
  Reach-IsSound (later before step) = Step-IsSound step (Reach-IsSound before)
