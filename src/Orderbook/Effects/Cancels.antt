-- ===== src/Orderbook/Effects/Cancels.antt =====
-- A verified cancel, as the orders that it takes off the book.
use delta_x.Prelude.{
  ℕ, ◌≡◌, arith, none, some, List, [], ◌∷◌, Bool, false, ◌&&◌, ◌==◌, Option-cases, Bool-cases, inl,
  inr, sym, ◌∙◌, ap,
}
use mathlib.Core.Path.{subst}
use delta_x.Prelude.Dict.{IsMap}
use delta_x.Sdk.Order.{Address}
use delta_x.Orderbook.Messages.{SignedSoftCancel, CancelVerdict}
use delta_x.Orderbook.Shelf.{BookEntry, maker_of}
use delta_x.Orderbook.Shelf.Counts.{get-evict, evict-IsMap}
use delta_x.Orderbook.Book.{Book, BookOptions, retract, retract_all, apply_verified_cancel}
use delta_x.Orderbook.Ingest.{includes}
use delta_x.Orderbook.Safety.Retracting.{foreign, own, unseen, retract-cases}
use delta_x.Orderbook.Effects.Evictions.{keep_unless, holds}
use delta_x.Orderbook.Effects.Chain.{view}

module _ (opts : BookOptions) (now : ℕ) (maker : Address) (expiry : ℕ) where
  retract-IsMap :
      (j : ℕ) (book : Book)
      → IsMap book.shelf.entries
      → IsMap (retract opts now maker expiry j book).1.shelf.entries
  retract-IsMap j book u = elim (retract-cases opts now maker expiry j book) [
    | foreign e found other r ↦ subst (λ x. IsMap x.1.shelf.entries) (sym r) u
    | own e found same r ↦ subst (λ x. IsMap x.1.shelf.entries) (sym r) (evict-IsMap j book.shelf u)
    | unseen absent r ↦ subst (λ x. IsMap x.1.shelf.entries) (sym r) u
  ]

  view-retract :
      (j h : ℕ) (book : Book)
      → IsMap book.shelf.entries
      → view (retract opts now maker expiry j book).1 h
        ≡ keep_unless (λ e. j == h && maker_of e == maker) (view book h)
  view-retract j h book u = elim (retract-cases opts now maker expiry j book) [
    | foreign e found other r ↦ ap (λ x. view x.1 h) r ∙ elim (Option-cases (view book h)) [
      | inl missing ↦ ground (arith, missing)
      | inr (e', here) ↦ ground (arith, found, other, here)
    ]
    | own e found same r ↦ ap (λ x. view x.1 h) r ∙ elim (Option-cases (view book h)) [
      | inl missing ↦ ground (arith, missing, get-evict j h book.shelf u)
      | inr (e', here) ↦ ground (arith, found, same, here, get-evict j h book.shelf u)
    ]
    | unseen absent r ↦ ap (λ x. view x.1 h) r ∙ elim (Option-cases (view book h)) [
      | inl missing ↦ ground (arith, missing)
      | inr (e', here) ↦ ground (arith, absent, here)
    ]
  ]

  view-retract_all :
      (hashes : List ℕ) (h : ℕ) (book : Book)
      → IsMap book.shelf.entries
      → view (retract_all opts now maker expiry hashes book).1 h
        ≡ keep_unless (λ e. includes h hashes && maker_of e == maker) (view book h)
  unfolding retract_all
  view-retract_all [] h book u = elim (Option-cases (view book h)) [
    | inl missing ↦ ground (arith, missing)
    | inr (e, here) ↦ ground (arith, here)
  ]
  view-retract_all (j ∷ rest) h book u =
      let one = (retract opts now maker expiry j book).1 in
      let first = view-retract j h book u in
      let others = view-retract_all rest h one (retract-IsMap j book u) in
      elim (Option-cases (view book h)) [
        | inl missing ↦ ground (arith, missing, first, others)
        | inr (e, here) ↦ ground (arith, here, first, others)
      ]

  retract-told :
      (j : ℕ) (book : Book)
      → (retract opts now maker expiry j book).0 ≡ holds (λ e. maker_of e == maker) (view book j)
  retract-told j book = elim (retract-cases opts now maker expiry j book) [
    | foreign e found other r ↦ ap (λ x. x.0) r ∙ ground (arith, found, other)
    | own e found same r ↦ ap (λ x. x.0) r ∙ ground (arith, found, same)
    | unseen absent r ↦ ap (λ x. x.0) r ∙ ground (arith, absent)
  ]

  includes-retract_all :
      (hashes : List ℕ) (h : ℕ) (book : Book)
      → IsMap book.shelf.entries
      → includes h (retract_all opts now maker expiry hashes book).0
        ≡ holds (λ e. includes h hashes && maker_of e == maker) (view book h)
  unfolding retract_all
  includes-retract_all [] h book u = elim (Option-cases (view book h)) [
    | inl missing ↦ ground (arith, missing)
    | inr (e, here) ↦ ground (arith, here)
  ]
  includes-retract_all (j ∷ rest) h book u =
      let one = (retract opts now maker expiry j book).1 in
      let first = view-retract j h book u in
      let told = retract-told j book in
      let others = includes-retract_all rest h one (retract-IsMap j book u) in
      elim (Bool-cases (j == h)) [
        | inl same ↦
            let e : view book j ≡ view book h = ap (view book) (ground (arith, same)) in
            elim (Option-cases (view book h)) [
              | inl missing ↦ ground (arith, missing, first, told, others, same, e)
              | inr (entry, here) ↦ ground (arith, here, first, told, others, same, e)
            ]
        | inr other ↦ elim (Option-cases (view book h)) [
          | inl missing ↦ ground (arith, missing, first, others, other)
          | inr (entry, here) ↦ ground (arith, here, first, others, other)
        ]
      ]

-- The verdict is the one for the maker that the cancel names.
abbrev pub is_own : SignedSoftCancel → CancelVerdict → Bool
is_own signed none = false
is_own signed (some maker) = maker == signed.cancel.maker

-- The cancel takes the order of hash `h` off the book.
abbrev pub retracts : SignedSoftCancel → CancelVerdict → ℕ → BookEntry → Bool
retracts signed verdict h e =
    is_own signed verdict
    && (includes h signed.cancel.order_hashes && maker_of e == signed.cancel.maker)

-- A cancel takes off the book, and names as evicted, the orders that it names, where they are those of
-- the maker that it was verified for and that it names, and no other.
pub view-apply_verified_cancel :
    (opts : BookOptions) (now : ℕ) (signed : SignedSoftCancel) (verdict : CancelVerdict)
    (book : Book) (h : ℕ)
    → IsMap book.shelf.entries
    → (view (apply_verified_cancel opts now signed verdict book).1 h
        ≡ keep_unless (retracts signed verdict h) (view book h))
      × (includes h (apply_verified_cancel opts now signed verdict book).0
          ≡ holds (retracts signed verdict h) (view book h))
unfolding apply_verified_cancel
view-apply_verified_cancel opts now signed none book h u = elim (Option-cases (view book h)) [
  | inl missing ↦ (ground (arith, missing), ground (arith, missing))
  | inr (e, here) ↦ (ground (arith, here), ground (arith, here))
]
view-apply_verified_cancel opts now signed (some maker) book h u =
    let hashes = signed.cancel.order_hashes in
    let own = signed.cancel.maker in
    let gone = view-retract_all opts now own signed.cancel.expiry hashes h book u in
    let told = includes-retract_all opts now own signed.cancel.expiry hashes h book u in
    elim (Option-cases (view book h)) [
      | inl missing ↦ (ground (arith, missing, gone), ground (arith, missing, told))
      | inr (e, here) ↦ (ground (arith, here, gone), ground (arith, here, told))
    ]
