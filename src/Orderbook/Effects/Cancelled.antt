-- ===== src/Orderbook/Effects/Cancelled.antt =====
-- A cancelled order stays off the book.
use mathlib.Core.Path.{subst}
use delta_x.Prelude.{
  ℕ, ◌+◌, ◌≤◌, ◌<◌, ◌≡◌, refl, arith, Bool, Option, none, some, true, ap, sym, ◌∙◌,
}
use delta_x.Orderbook.Messages.{OrderAnnounce, Layer2Result}
use delta_x.Orderbook.Admission.{soft_cancelled}
use delta_x.Orderbook.Shelf.{BookEntry, maker_of}
use delta_x.Orderbook.Shelf.Counts.{get-evict}
use delta_x.Orderbook.Graves.{is_soft_cancelled}
use delta_x.Orderbook.Graves.Kept.{real_count}
use delta_x.Orderbook.Graves.Cancelled.{tombstone_own-IsKept, IsKept-is_soft_cancelled}
use delta_x.Orderbook.Book.{Book, BookOptions, retract, admit, precheck}
use delta_x.Orderbook.Safety.Admitting.{IsSound}
use delta_x.Orderbook.Safety.Retracting.{foreign, own, unseen, retract-cases}
use delta_x.Orderbook.Effects.Chain.{view}

-- A tombstone that holds and no live order: the order is refused before a lens call and after it, and
-- stays off the book.
admit-soft_cancelled :
    (opts : BookOptions) (now h : ℕ) (announce : OrderAnnounce) (state : Option Layer2Result)
    (replaces : Option ℕ) (bytes : Option ℕ) (known : Bool) (book : Book)
    → view book h ≡ none
    → is_soft_cancelled h announce.order.maker now book.graves ≡ true
    → (precheck opts.admission now announce.order h bytes known book ≡ some soft_cancelled)
      × ((admit opts.admission now h announce state replaces book).0 ≡ some soft_cancelled)
      × (view (admit opts.admission now h announce state replaces book).1 h ≡ none)
unfolding precheck admit
admit-soft_cancelled opts now h announce state replaces bytes known book absent dead =
    (simp (precheck, dead) refl, simp (admit, absent, dead) refl, simp (admit, absent, dead) refl)

-- In a book that keeps its counts and caps and has a place for a tombstone of an order that was here,
-- a cancel of a live order by its maker takes it off the book, and until the order's expiry both the
-- gate before a lens call and `admit` refuse it as soft-cancelled and keep it off.
pub retract-soft_cancelled :
    (opts : BookOptions) (now until h : ℕ) (e : BookEntry) (book : Book)
    → IsSound opts none book
    → view book h ≡ some e
    → real_count book.graves.tombstones + 1 ≤ opts.limits.max_tombstones
    → (later : ℕ) (announce : OrderAnnounce) (state : Option Layer2Result) (replaces : Option ℕ)
      (bytes : Option ℕ) (known : Bool)
    → announce.order.maker ≡ maker_of e
    → later < e.announce.order.expiry
    → (view (retract opts now (maker_of e) until h book).1 h ≡ none)
      × (precheck opts.admission later announce.order h bytes known
            (retract opts now (maker_of e) until h book).1
          ≡ some soft_cancelled)
      × ((admit opts.admission later h announce state replaces
            (retract opts now (maker_of e) until h book).1).0
          ≡ some soft_cancelled)
      × (view
            (admit opts.admission later h announce state replaces
              (retract opts now (maker_of e) until h book).1).1
            h
          ≡ none)
retract-soft_cancelled opts now until h e book s found fits later announce state replaces bytes
      known same before =
    elim (retract-cases opts now (maker_of e) until h book) [
      | foreign e' found' other r ↦ absurd (ground (arith, found, found', other))
      | unseen absent r ↦ absurd (ground (arith, found, absent))
      | own e' found' same' r ↦
          let gone : view (retract opts now (maker_of e) until h book).1 h ≡ none =
            ap (λ x. view x.1 h) r
            ∙ ground (arith, get-evict h h book.shelf s.shelf.counted.entries_unique) in
          let kept =
            tombstone_own-IsKept opts.limits h (maker_of e) e'.announce.order.expiry book.graves
              s.graves fits in
          let dead =
            IsKept-is_soft_cancelled h (maker_of e) e'.announce.order.expiry later _ kept
              (ground (arith, found, found', before)) in
          let (early, late, off) =
            admit-soft_cancelled opts later h announce state replaces bytes known
              (retract opts now (maker_of e) until h book).1 gone
              (subst
                (λ m.
                  is_soft_cancelled h m later (retract opts now (maker_of e) until h book).1.graves
                  ≡ true)
                (sym same)
                (ap (λ x. is_soft_cancelled h (maker_of e) later x.1.graves) r ∙ dead)) in
          (gone, early, late, off)
    ]
