-- ===== src/Orderbook/Recheck/Cases.antt =====
-- The outcomes of one recheck.
use delta_x.Prelude.{ℕ, ◌+◌, ◌≡◌, refl, some, leb, Option-cases, Bool-cases, inl, inr}
use delta_x.Prelude.Dict.{get}
use delta_x.Orderbook.Messages.{Layer2Result}
use delta_x.Orderbook.Shelf.{BookEntry, Shelf, maker_of, evict, is_inconclusive}
use delta_x.Orderbook.Book.{BookOptions}
use delta_x.Orderbook.Recheck.{recheck_one, put_entry, struck, refreshed, should_evict}

module _ (opts : BookOptions) (h : ℕ) (s : Layer2Result) (shelf : Shelf) where
  -- Nothing happens; the entry is written anew; or it is written and evicted.
  pub data RecheckCase : Type 0 where
    untouched : recheck_one opts h s shelf ≡ shelf → RecheckCase
    written :
        (e e' : BookEntry)
        → get h shelf.entries ≡ some e
        → maker_of e' ≡ maker_of e
        → recheck_one opts h s shelf ≡ put_entry h e' shelf
        → RecheckCase
    dropped :
        (e e' : BookEntry)
        → get h shelf.entries ≡ some e
        → maker_of e' ≡ maker_of e
        → recheck_one opts h s shelf ≡ evict h (put_entry h e' shelf)
        → RecheckCase

  pub recheck_one-cases : RecheckCase
  unfolding recheck_one
  recheck_one-cases = elim (Option-cases (get h shelf.entries)) [
    | inl absent ↦ untouched (simp (recheck_one, absent) refl)
    | inr (e, found) ↦ elim (Bool-cases (is_inconclusive s.status)) [
      | inl open_ended ↦ elim (Bool-cases s.isolated) [
        | inr shared ↦ untouched (simp (recheck_one, found, open_ended, shared) refl)
        | inl alone ↦
            elim (Bool-cases (leb opts.max_inconclusive_strikes (e.inconclusive_strikes + 1))) [
              | inl out ↦
                  dropped e (struck e) found refl
                    (simp (recheck_one, found, open_ended, alone, out) refl)
              | inr left ↦
                  written e (struck e) found refl
                    (simp (recheck_one, found, open_ended, alone, left) refl)
            ]
      ]
      | inr settled ↦ elim (Bool-cases (should_evict opts (refreshed s e) s)) [
        | inl bad ↦
            dropped e (refreshed s e) found refl (simp (recheck_one, found, settled, bad) refl)
        | inr good ↦
            written e (refreshed s e) found refl (simp (recheck_one, found, settled, good) refl)
      ]
    ]
  ]
