-- ===== src/Orderbook/Graves/Counts.antt =====
-- The counts of pending tombstones are the numbers of those that stand, whatever a loop drops.

use delta_x.Prelude.{
  ℕ, ◌+◌, ◌-◌, ◌≡◌, refl, arith, none, some, List, [], ◌∷◌, ◌++◌, ◌&&◌, ◌==◌, if◌then◌else◌, length,
  Option-cases, inl, inr,
}
use delta_x.Prelude.Dict.{Dict, get, IsMap, get-set, get-remove, set-IsMap, remove-IsMap}
use delta_x.Sdk.Order.{Address}
use delta_x.Orderbook.Graves.{
  Tombstone, Graves, find, unlist, pending_of, lower_pending, drop_tombstone,
}

unfoldable pub pending_count : Address → List Tombstone → ℕ
pending_count m [] = 0
pending_count m (t ∷ rest) = (if t.pending && t.maker == m then 1 else 0) + pending_count m rest

-- no key twice
abbrev pub IsSingle : List Tombstone → Type 0
IsSingle [] = Unit {0}
IsSingle (t ∷ rest) = (find t.order_hash t.maker rest ≡ none) × IsSingle rest

pub find-key :
    (h : ℕ) (m : Address) (l : List Tombstone) (t : Tombstone)
    → find h m l ≡ some t
    → (t.order_hash ≡ h) × (t.maker ≡ m)
unfolding find
find-key h m [] t e = absurd (ground arith)
find-key h m (a ∷ l) t e = ground (arith, find-key h m l t)

pub find-unlist :
    (h j : ℕ) (m n : Address) (l : List Tombstone)
    → IsSingle l
    → find j n (unlist h m l) ≡ (if h == j && m == n then none else find j n l)
unfolding find unlist
find-unlist h j m n [] s = ground arith
find-unlist h j m n (a ∷ l) s = ground (arith, find-unlist h j m n l s.1, s.0)

pub unlist-IsSingle :
    (h : ℕ) (m : Address) (l : List Tombstone) → IsSingle l → IsSingle (unlist h m l)
unfolding find unlist
unlist-IsSingle h m [] s = tt
unlist-IsSingle h m (a ∷ l) s =
    ground (arith, unlist-IsSingle h m l s.1, find-unlist h a.order_hash m a.maker l s.1)

pub pending_count-unlist :
    (h : ℕ) (m j : Address) (l : List Tombstone) (t : Tombstone)
    → find h m l ≡ some t
    → pending_count j l
      ≡ pending_count j (unlist h m l) + (if t.pending && t.maker == j then 1 else 0)
unfolding pending_count find unlist
pending_count-unlist h m j [] t e = absurd (ground arith)
pending_count-unlist h m j (a ∷ l) t e = ground (arith, pending_count-unlist h m j l t)

pub length-unlist :
    (h : ℕ) (m : Address) (l : List Tombstone) (t : Tombstone)
    → find h m l ≡ some t
    → length l ≡ length (unlist h m l) + 1
unfolding find unlist
length-unlist h m [] t e = absurd (ground arith)
length-unlist h m (a ∷ l) t e = ground (arith, length-unlist h m l t)

pub pending_count-append :
    (j : Address) (l : List Tombstone) (t : Tombstone)
    → pending_count j (l ++ (t ∷ []))
      ≡ pending_count j l + (if t.pending && t.maker == j then 1 else 0)
unfolding pending_count
pending_count-append j [] t = omega arith
pending_count-append j (a ∷ l) t = omega (arith, pending_count-append j l t)

pub find-append :
    (h : ℕ) (m : Address) (l : List Tombstone) (t : Tombstone)
    → find h m (l ++ (t ∷ [])) ≡ elim (find h m l) [
      | some x ↦ some x
      | none ↦ if t.order_hash == h && t.maker == m then some t else none
    ]
unfolding find
find-append h m [] t = refl
find-append h m (a ∷ l) t = ground (arith, find-append h m l t)

pub append-IsSingle :
    (l : List Tombstone) (t : Tombstone)
    → IsSingle l
    → find t.order_hash t.maker l ≡ none
    → IsSingle (l ++ (t ∷ []))
unfolding find
append-IsSingle [] t s e = (refl, tt)
append-IsSingle (a ∷ l) t s e =
    ground (arith, append-IsSingle l t s.1, find-append a.order_hash a.maker l t)

pub pending-lower_pending :
    (m j : Address) (c : Dict ℕ)
    → IsMap c
    → pending_of j (lower_pending m c) ≡ pending_of j c - (if m == j then 1 else 0)
unfolding lower_pending
pending-lower_pending m j c u = elim (Option-cases (get m c)) [
  | inl e ↦ ground (arith, e, get-remove m j c u, get-set m j (pending_of m c - 1) c)
  | inr (n, e) ↦ ground (arith, e, get-remove m j c u, get-set m j (pending_of m c - 1) c)
]

pub lower_pending-IsMap : (m : Address) (c : Dict ℕ) → IsMap c → IsMap (lower_pending m c)
unfolding lower_pending
lower_pending-IsMap m c u = ground (arith, remove-IsMap m c u, set-IsMap m (pending_of m c - 1) c u)

pub record IsCounted (graves : Graves) : Type 0 where
  pub single : IsSingle graves.tombstones
  pub counts_unique : IsMap graves.pending_per_maker
  pub counted :
      (m : Address) → pending_of m graves.pending_per_maker ≡ pending_count m graves.tombstones

abbrev pub Stands : Graves → Tombstone → Type 0
Stands graves t = find t.order_hash t.maker graves.tombstones ≡ some t

pub drop-IsCounted :
    (t : Tombstone) (graves : Graves)
    → IsCounted graves
    → Stands graves t
    → IsCounted (drop_tombstone t graves)
unfolding drop_tombstone
drop-IsCounted t graves c stands = record {
  single = unlist-IsSingle t.order_hash t.maker graves.tombstones c.single;
  counts_unique = ground (
    arith,
    c.counts_unique,
    lower_pending-IsMap t.maker graves.pending_per_maker c.counts_unique,
  );
  counted = λ m. ground (
    arith,
    c.counted m,
    pending-lower_pending t.maker m graves.pending_per_maker c.counts_unique,
    pending_count-unlist t.order_hash t.maker m graves.tombstones t stands,
  );
}
