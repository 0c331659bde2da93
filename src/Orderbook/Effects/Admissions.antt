-- ===== src/Orderbook/Effects/Admissions.antt =====
-- An admission, as the order that it adds.
use delta_x.Prelude.{ℕ, ◌≡◌, arith, Option, none, some, ap, ◌∙◌}
use delta_x.Prelude.Dict.{get-set}
use delta_x.Orderbook.Messages.{OrderAnnounce, Layer2Result}
use delta_x.Orderbook.Admission.{AdmissionPolicy, AdmissionRefusal}
use delta_x.Orderbook.Shelf.{BookEntry, shelve}
use delta_x.Orderbook.Book.{Book, admit, new_entry, with_state, room_for}
use delta_x.Orderbook.Book.Cases.{held, cancelled, refused, listed, admit-cases}
use delta_x.Orderbook.Effects.Chain.{view}

module _ (policy : AdmissionPolicy) (now h : ℕ) (announce : OrderAnnounce)
    (state : Option Layer2Result) (replaces : Option ℕ) (book : Book) where
  -- A refused order changes no order of the book.
  pub admit_refused :
      (reason : AdmissionRefusal)
      → (admit policy now h announce state replaces book).0 ≡ some reason
      → (j : ℕ) → view (admit policy now h announce state replaces book).1 j ≡ view book j
  admit_refused reason why j = elim (admit-cases policy now h announce state replaces book) [
    | held existing found e ↦ absurd (ground (arith, why, ap (λ r. r.0) e))
    | cancelled absent dead e ↦ ap (λ r. view r.1 j) e
    | refused other absent full e ↦ ap (λ r. view r.1 j) e
    | listed absent free room e ↦ absurd (ground (arith, why, ap (λ r. r.0) e))
  ]

  -- An order that is not refused is live.
  pub admit_live :
      (admit policy now h announce state replaces book).0 ≡ none
      → (entry : BookEntry) × (view (admit policy now h announce state replaces book).1 h
          ≡ some entry)
  unfolding shelve
  admit_live lands = elim (admit-cases policy now h announce state replaces book) [
    | held existing found e ↦ (
      with_state state existing,
      ap (λ r. view r.1 h) e
          ∙ ground (arith, get-set h h (with_state state existing) book.shelf.entries),
    )
    | cancelled absent dead e ↦ absurd (ground (arith, lands, ap (λ r. r.0) e))
    | refused other absent full e ↦ absurd (ground (arith, lands, ap (λ r. r.0) e))
    | listed absent free room e ↦ (
      new_entry now announce state,
      ap (λ r. view r.1 h) e
          ∙ ground (
            arith,
            get-set h h (new_entry now announce state)
                (room_for policy announce.order.maker replaces book.shelf).1.entries,
          ),
    )
  ]
