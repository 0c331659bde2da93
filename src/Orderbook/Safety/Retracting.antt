-- ===== src/Orderbook/Safety/Retracting.antt =====
-- Cancels and replaces keep the counts right and the caps.
use mathlib.Core.Path.{subst}
use delta_x.Prelude.{
  ℕ, ◌≡◌, ◌≢◌, refl, arith, Option, none, some, List, [], ◌∷◌, true, false, ◌==◌, Option-cases,
  Bool-cases, inl, inr, sym, ◌∙◌, ap,
}
use delta_x.Prelude.Dict.{get}
use delta_x.Sdk.Order.{Address}
use delta_x.Orderbook.Messages.{SignedSoftCancel, OrderReplace, CancelVerdict, Layer2Result}
use delta_x.Orderbook.Shelf.{BookEntry, maker_of, evict}
use delta_x.Orderbook.Shelf.Counts.{get-evict}
use delta_x.Orderbook.Shelf.Caps.{evict-IsSound, evict-spends}
use delta_x.Orderbook.Graves.{tombstone}
use delta_x.Orderbook.Graves.Invariant.{tombstone-IsSound}
use delta_x.Orderbook.Book.{
  Book, BookOptions, retract, retract_all, apply_verified_cancel, pending_until, admit,
}
use delta_x.Orderbook.Ingest.{swap, includes}
use delta_x.Orderbook.Safety.Admitting.{IsSound, HasPredecessor, admit-IsSound}

module _ (opts : BookOptions) (now : ℕ) (maker : Address) (expiry : ℕ) where
  -- One hash: another maker's order stays, the maker's own goes, an unseen one is noted.
  pub data RetractCase (h : ℕ) (book : Book) : Type 0 where
    foreign :
        (e : BookEntry)
        → get h book.shelf.entries ≡ some e
        → maker_of e ≢ maker
        → retract opts now maker expiry h book ≡ (false, book)
        → RetractCase h book
    own :
        (e : BookEntry)
        → get h book.shelf.entries ≡ some e
        → maker_of e ≡ maker
        → retract opts now maker expiry h book ≡ (
          true,
          record book {
            shelf = evict h book.shelf;
            graves = tombstone opts.limits h maker e.announce.order.expiry false book.graves;
          },
        )
        → RetractCase h book
    unseen :
        get h book.shelf.entries ≡ none
        → retract opts now maker expiry h book ≡ (
          false,
          record book {
            graves =
                tombstone opts.limits h maker
                  (pending_until opts.admission now expiry)
                  true
                  book.graves;
          },
        )
        → RetractCase h book

  pub retract-cases : (h : ℕ) (book : Book) → RetractCase h book
  unfolding retract
  retract-cases h book = elim (Option-cases (get h book.shelf.entries)) [
    | inl absent ↦ unseen absent (simp (retract, absent) refl)
    | inr (e, found) ↦ elim (Bool-cases (maker_of e == maker)) [
      | inl same ↦ own e found (ground (arith, same)) (simp (retract, found, same) refl)
      | inr other ↦ foreign e found (ground (arith, other)) (simp (retract, found, other) refl)
    ]
  ]

  pub retract-IsSound :
      (extra : Option Address) (h : ℕ) (book : Book)
      → IsSound opts extra book
      → IsSound opts extra (retract opts now maker expiry h book).1
  retract-IsSound extra h book s = elim (retract-cases h book) [
    | foreign e found other r ↦ subst (λ x. IsSound opts extra x.1) (sym r) s
    | own e found same r ↦
        subst (λ x. IsSound opts extra x.1) (sym r)
          (record {
            shelf = evict-IsSound opts.admission book.shelf extra h s.shelf;
            graves = tombstone-IsSound opts.limits h maker _ false book.graves s.graves;
          })
    | unseen absent r ↦
        subst (λ x. IsSound opts extra x.1) (sym r)
          (record {
            shelf = s.shelf;
            graves = tombstone-IsSound opts.limits h maker _ true book.graves s.graves;
          })
  ]

  pub retract_all-IsSound :
      (extra : Option Address) (hashes : List ℕ) (book : Book)
      → IsSound opts extra book
      → IsSound opts extra (retract_all opts now maker expiry hashes book).1
  unfolding retract_all
  retract_all-IsSound extra [] book s = s
  retract_all-IsSound extra (h ∷ rest) book s =
      retract_all-IsSound extra rest (retract opts now maker expiry h book).1
        (retract-IsSound extra h book s)

  -- The predecessor's own hash spends the place that its replacement took.
  retract-spends :
      (h : ℕ) (e : BookEntry) (book : Book)
      → IsSound opts (some maker) book
      → get h book.shelf.entries ≡ some e
      → maker_of e ≡ maker
      → IsSound opts none (retract opts now maker expiry h book).1
  retract-spends h e book s found same = elim (retract-cases h book) [
    | foreign e' found' other r ↦ absurd (ground (arith, found, found', other, same))
    | own e' found' same' r ↦
        subst (λ x. IsSound opts none x.1) (sym r)
          (record {
            shelf = evict-spends opts.admission book.shelf maker h e s.shelf found same;
            graves = tombstone-IsSound opts.limits h maker _ false book.graves s.graves;
          })
    | unseen absent r ↦ absurd (ground (arith, found, absent))
  ]

  retract-keeps :
      (h j : ℕ) (e : BookEntry) (book : Book)
      → IsSound opts (some maker) book
      → get j book.shelf.entries ≡ some e
      → h ≢ j
      → get j (retract opts now maker expiry h book).1.shelf.entries ≡ some e
  retract-keeps h j e book s found apart = elim (retract-cases h book) [
    | foreign e' found' other r ↦ ap (λ x. get j x.1.shelf.entries) r ∙ found
    | own e' found' same' r ↦
        ap (λ x. get j x.1.shelf.entries) r
        ∙ ground (arith, found, apart, get-evict h j book.shelf s.shelf.counted.entries_unique)
    | unseen absent r ↦ ap (λ x. get j x.1.shelf.entries) r ∙ found
  ]

  pub retract_all-spends :
      (r : ℕ) (hashes : List ℕ) (book : Book)
      → IsSound opts (some maker) book
      → HasPredecessor maker (some r) book.shelf
      → includes r hashes ≡ true
      → IsSound opts none (retract_all opts now maker expiry hashes book).1
  unfolding retract_all
  retract_all-spends r [] book s p i = absurd (ground arith)
  retract_all-spends r (h ∷ rest) book s (e, found, same) i = elim (Bool-cases (h == r)) [
    | inl here ↦ retract_all-IsSound none rest (retract opts now maker expiry h book).1 (
        retract-spends h e book s
          (ap (λ k. get k book.shelf.entries) (ground (arith, here)) ∙ found) same)
    | inr later ↦
        retract_all-spends r rest (retract opts now maker expiry h book).1
          (retract-IsSound (some maker) h book s)
          (e, retract-keeps h r e book s found (ground (arith, later)), same)
          (ground (arith, i, later))
  ]

pub apply_verified_cancel-IsSound :
    (opts : BookOptions) (now : ℕ) (signed : SignedSoftCancel) (verdict : CancelVerdict)
    (extra : Option Address) (book : Book)
    → IsSound opts extra book
    → IsSound opts extra (apply_verified_cancel opts now signed verdict book).1
unfolding apply_verified_cancel
apply_verified_cancel-IsSound opts now signed none extra book s = s
apply_verified_cancel-IsSound opts now signed (some maker) extra book s =
    elim (Bool-cases (maker == signed.cancel.maker)) [
      | inl agreed ↦ rw agreed (
          retract_all-IsSound opts now maker signed.cancel.expiry extra signed.cancel.order_hashes
            book s)
      | inr other ↦ rw other s
    ]

-- The cancel of the replacement's maker spends the place of the predecessor that it names.
apply_verified_cancel-spends :
    (opts : BookOptions) (now : ℕ) (signed : SignedSoftCancel) (r : ℕ) (book : Book)
    → IsSound opts (some signed.cancel.maker) book
    → HasPredecessor signed.cancel.maker (some r) book.shelf
    → includes r signed.cancel.order_hashes ≡ true
    → IsSound opts none (apply_verified_cancel opts now signed (some signed.cancel.maker) book).1
unfolding apply_verified_cancel
apply_verified_cancel-spends opts now signed r book s p i =
    let agreed : (signed.cancel.maker == signed.cancel.maker) ≡ true = ground arith in
    rw agreed (
      retract_all-spends opts now signed.cancel.maker signed.cancel.expiry r
        signed.cancel.order_hashes book s p i)

pub swap-IsSound :
    (opts : BookOptions) (now : ℕ) (replace : OrderReplace) (h : ℕ) (state : Option Layer2Result)
    (book : Book)
    → IsSound opts none book
    → replace.cancel.cancel.maker ≡ replace.announce.order.maker
    → includes replace.replaces replace.cancel.cancel.order_hashes ≡ true
    → IsSound opts none (swap opts now replace (some replace.cancel.cancel.maker) h state book).1
unfolding swap
swap-IsSound opts now replace h state book s same named =
    let admitted = admit opts.admission now h replace.announce state (some replace.replaces) book in
    elim (admit-IsSound opts now h replace.announce state (some replace.replaces) book s) [
      | inl sound ↦ elim (Option-cases admitted.0) [
        | inr (reason, e) ↦ rw (swap, e) sound
        | inl e ↦
            rw (swap, e)
              (apply_verified_cancel-IsSound opts now replace.cancel
                (some replace.cancel.cancel.maker) none admitted.1 sound)
      ]
      | inr (sound, before, e) ↦
          rw (swap, e)
            (apply_verified_cancel-spends opts now replace.cancel replace.replaces admitted.1
              (subst (λ m. IsSound opts (some m) admitted.1) (sym same) sound)
              (subst (λ m. HasPredecessor m (some replace.replaces) admitted.1.shelf) (sym same)
                before)
              named)
    ]
