-- ===== src/Orderbook/Effects/Replaces.antt =====
-- A replace, as the orders that it takes off the book and the one that it adds.
use delta_x.Prelude.{
  ℕ, ◌≡◌, refl, arith, true, false, ◌&&◌, ◌==◌, Option, none, some, ap, ◌∙◌, inl, inr, Option-cases,
}
use delta_x.Prelude.Dict.{IsMap}
use delta_x.Sdk.Order.{Order}
use delta_x.Orderbook.Messages.{OrderReplace, CancelVerdict, Layer2Result}
use delta_x.Orderbook.Shelf.{BookEntry, maker_of}
use delta_x.Orderbook.Book.{Book, BookOptions, admit, apply_verified_cancel}
use delta_x.Orderbook.Admission.{AdmissionRefusal}
use delta_x.Orderbook.Ingest.{
  IngestRefusal, cancel_rejected, not_verified, not_admitted, VerifyResult, swap, land_replace,
  ingest_replace_atomic, replace_gate, includes,
}
use delta_x.Orderbook.Safety.Admitting.{IsSound, admit-IsSound}
use delta_x.Orderbook.Effects.Evictions.{keep_unless, holds}
use delta_x.Orderbook.Effects.Chain.{view}
use delta_x.Orderbook.Effects.Cancels.{view-apply_verified_cancel, is_own}
use delta_x.Orderbook.Effects.Admissions.{admit_refused, admit_live}

module _ (hash_order : Order → Option ℕ) (opts : BookOptions) (now : ℕ) (replace : OrderReplace)
    (verdict : CancelVerdict) (verified : VerifyResult) (book : Book) where
  -- `admit` of the replacement
  abbrev admitted : ℕ → Option Layer2Result → Option AdmissionRefusal × Book
  admitted h state = admit opts.admission now h replace.announce state (some replace.replaces) book

  -- A check, the cancel's verdict or the verifier refuses; `admit` does; or the orders are swapped.
  data ReplaceCase : Type 0 where
    kept :
        (reason : IngestRefusal)
        → ingest_replace_atomic hash_order opts now replace verdict verified book
          ≡ (some reason, book)
        → ReplaceCase
    blocked :
        (h : ℕ) (state : Option Layer2Result) (why : AdmissionRefusal)
        → (admitted h state).0 ≡ some why
        → ingest_replace_atomic hash_order opts now replace verdict verified book
          ≡ (some (not_admitted why), (admitted h state).1)
        → ReplaceCase
    swapped :
        (h : ℕ) (state : Option Layer2Result)
        → verified ≡ some (h, state)
        → (admitted h state).0 ≡ none
        → ingest_replace_atomic hash_order opts now replace verdict verified book
          ≡ (none, (apply_verified_cancel opts now replace.cancel verdict (admitted h state).1).1)
        → ReplaceCase

  replace-cases : ReplaceCase
  unfolding ingest_replace_atomic land_replace swap
  replace-cases = elim (Option-cases (replace_gate hash_order opts now replace book)) [
    | inr (why, e) ↦ kept why (simp (ingest_replace_atomic, e) refl)
    | inl e ↦ elim (Option-cases verdict) [
      | inl unverified ↦ kept cancel_rejected (simp (ingest_replace_atomic, e, unverified) refl)
      | inr (m, named) ↦ elim (Option-cases verified) [
        | inl bad ↦ kept not_verified (simp (ingest_replace_atomic, e, named, bad) refl)
        | inr ((h, state), good) ↦ elim (Option-cases (admitted h state).0) [
          | inr (why, full) ↦
              blocked h state why full
                (simp (ingest_replace_atomic, land_replace, swap, e, named, good, full) refl)
          | inl room ↦
              swapped h state good room
                (simp (ingest_replace_atomic, land_replace, swap, e, named, good, room) refl)
        ]
      ]
    ]
  ]

  -- A replace that is refused changes no order of the book.
  pub ingest_replace_atomic_refused :
      (reason : IngestRefusal)
      → (ingest_replace_atomic hash_order opts now replace verdict verified book).0 ≡ some reason
      → (j : ℕ)
      → view (ingest_replace_atomic hash_order opts now replace verdict verified book).1 j
        ≡ view book j
  ingest_replace_atomic_refused reason given j = elim replace-cases [
    | kept why e ↦ ap (λ r. view r.1 j) e
    | blocked h state why full e ↦
        ap (λ r. view r.1 j) e
        ∙ admit_refused opts.admission now h replace.announce state (some replace.replaces) book why
            full j
    | swapped h state good room e ↦ absurd (ground (arith, given, ap (λ r. r.0) e))
  ]

  admitted-IsMap :
      (h : ℕ) (state : Option Layer2Result)
      → IsSound opts none book
      → IsMap (admitted h state).1.shelf.entries
  admitted-IsMap h state s =
      elim (admit-IsSound opts now h replace.announce state (some replace.replaces) book s) [
        | inl sound ↦ sound.shelf.counted.entries_unique
        | inr (sound, before, lands) ↦ sound.shelf.counted.entries_unique
      ]

  stays :
      (h h' : ℕ) (state : Option Layer2Result) (e : BookEntry)
      → h ≡ h'
      → includes h replace.cancel.cancel.order_hashes ≡ false
      → view (admitted h' state).1 h' ≡ some e
      → keep_unless
          (λ e.
            is_own replace.cancel verdict
            && (includes h replace.cancel.cancel.order_hashes
                && maker_of e == replace.cancel.cancel.maker))
          (view (admitted h' state).1 h)
        ≡ some e
  stays h h' state e same apart live =
      let here : view (admitted h' state).1 h ≡ some e =
        ap (λ j. view (admitted h' state).1 j) same ∙ live in
      ground (arith, here, apart)

  goes :
      (j : ℕ) (o : Option BookEntry)
      → verdict ≡ some replace.cancel.cancel.maker
      → includes j replace.cancel.cancel.order_hashes ≡ true
      → holds
          (λ e. maker_of e == replace.cancel.cancel.maker)
          (keep_unless
            (λ e.
              is_own replace.cancel verdict
              && (includes j replace.cancel.cancel.order_hashes
                  && maker_of e == replace.cancel.cancel.maker))
            o)
        ≡ false
  goes j none named listed = refl
  goes j (some e) named listed = ground (arith, named, listed)

  -- Where a replace is accepted, of a cancel that is verified for the maker it names and that does not
  -- name the replacement, the replacement is live and no order of the maker's that the cancel names is.
  pub ingest_replace_atomic_swapped :
      (h : ℕ) (state : Option Layer2Result) (j : ℕ)
      → IsSound opts none book
      → verdict ≡ some replace.cancel.cancel.maker
      → verified ≡ some (h, state)
      → (ingest_replace_atomic hash_order opts now replace verdict verified book).0 ≡ none
      → includes h replace.cancel.cancel.order_hashes ≡ false
      → includes j replace.cancel.cancel.order_hashes ≡ true
      → ((e : BookEntry) × (view
              (ingest_replace_atomic hash_order opts now replace verdict verified book).1
              h
            ≡ some e))
        × (holds
              (λ e. maker_of e == replace.cancel.cancel.maker)
              (view (ingest_replace_atomic hash_order opts now replace verdict verified book).1 j)
            ≡ false)
  ingest_replace_atomic_swapped h state j s named given lands apart listed = elim replace-cases [
    | kept why e ↦ absurd (ground (arith, lands, ap (λ r. r.0) e))
    | blocked h' state' why full e ↦ absurd (ground (arith, lands, ap (λ r. r.0) e))
    | swapped h' state' good room e ↦
        let u = admitted-IsMap h' state' s in
        let after = λ (k : ℕ).
          ap (λ r. view r.1 k) e
          ∙ (view-apply_verified_cancel opts now replace.cancel verdict (admitted h' state').1 k
              u).0 in
        let (entry, live) =
          admit_live opts.admission now h' replace.announce state' (some replace.replaces) book
            room in
        (
          (entry, after h ∙ stays h h' state' entry (ground (arith, good, given)) apart live),
          ap (holds (λ e. maker_of e == replace.cancel.cancel.maker)) (after j)
              ∙ goes j (view (admitted h' state').1 j) named listed,
        )
  ]
