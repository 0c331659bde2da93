-- ===== src/Orderbook/Graves/Update.antt =====
-- A change of one tombstone in place.

use delta_x.Prelude.{
  ℕ, ◌+◌, ◌≡◌, refl, arith, none, some, List, [], ◌∷◌, ◌&&◌, ◌==◌, if◌then◌else◌, length,
  Option-cases, inl, inr, ap, ◌∙◌, sym,
}
use delta_x.Sdk.Order.{Address}
use delta_x.Orderbook.Graves.{Tombstone, Graves, find, update}
use delta_x.Orderbook.Graves.Counts.{IsSingle, IsCounted, pending_count}

module _ (h : ℕ) (m : Address) (f : Tombstone → Tombstone)
    (hash_kept : (t : Tombstone) → (f t).order_hash ≡ t.order_hash)
    (maker_kept : (t : Tombstone) → (f t).maker ≡ t.maker) where
  pub find-update :
      (j : ℕ) (n : Address) (l : List Tombstone)
      → find j n (update h m f l)
        ≡ elim (find j n l) [ none ↦ none | some t ↦ some (if h == j && m == n then f t else t) ]
  unfolding find update
  find-update j n [] = refl
  find-update j n (t ∷ l) = ground (arith, find-update j n l, hash_kept t, maker_kept t)

  pub update-IsSingle : (l : List Tombstone) → IsSingle l → IsSingle (update h m f l)
  unfolding find update
  update-IsSingle [] s = tt
  update-IsSingle (t ∷ l) s =
      ground (
        arith,
        update-IsSingle l s.1,
        find-update t.order_hash t.maker l,
        hash_kept t,
        maker_kept t,
      )

  pub length-update : (l : List Tombstone) → length (update h m f l) ≡ length l
  unfolding update
  length-update [] = refl
  length-update (t ∷ l) = ground (arith, length-update l)

  pub pending_count-update :
      (j : Address) (l : List Tombstone) (t : Tombstone)
      → find h m l ≡ some t
      → pending_count j (update h m f l) + (if t.pending && t.maker == j then 1 else 0)
        ≡ pending_count j l + (if (f t).pending && t.maker == j then 1 else 0)
  unfolding pending_count find update
  pending_count-update j [] t e = absurd (ground arith)
  pending_count-update j (a ∷ l) t e =
      ground (arith, pending_count-update j l t, hash_kept a, maker_kept a)

  pub update_absent : (l : List Tombstone) → find h m l ≡ none → update h m f l ≡ l
  unfolding find update
  update_absent [] e = refl
  update_absent (t ∷ l) e = ground (arith, update_absent l)

  -- A change that leaves the pending ones pending.
  pub pending_count-update_kept :
      (j : Address) (l : List Tombstone)
      → ((t : Tombstone) → (f t).pending ≡ t.pending)
      → pending_count j (update h m f l) ≡ pending_count j l
  pending_count-update_kept j l kept = elim (Option-cases (find h m l)) [
    | inl absent ↦ ap (pending_count j) (update_absent l absent)
    | inr (t, found) ↦ ground (arith, kept t, pending_count-update j l t found)
  ]

  pub update-IsCounted :
      (graves : Graves)
      → IsCounted graves
      → ((t : Tombstone) → (f t).pending ≡ t.pending)
      → IsCounted (record graves { tombstones = update h m f graves.tombstones })
  update-IsCounted graves c kept = record {
    single = update-IsSingle graves.tombstones c.single;
    counts_unique = c.counts_unique;
    counted = λ j. c.counted j ∙ sym (pending_count-update_kept j graves.tombstones kept);
  }
