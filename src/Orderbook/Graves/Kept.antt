-- ===== src/Orderbook/Graves/Kept.antt =====
-- Tombstones of orders that were here are not dropped for pending ones.
use delta_x.Prelude.{
  ℕ, ◌+◌, ◌≤◌, ◌≡◌, refl, arith, some, List, [], ◌∷◌, true, false, if◌then◌else◌, length, All,
  Bool-cases, inl, inr, ◌⊎◌, ◌∙◌, ap,
}
use delta_x.Sdk.Order.{Address}
use delta_x.Orderbook.Graves.{
  Tombstone, Graves, find, drop_tombstone, sweep, is_past_pending, is_past, trim,
}
use delta_x.Orderbook.Graves.Counts.{IsSingle, IsCounted, Stands, drop-IsCounted, find-unlist}
use delta_x.Orderbook.Graves.Sweep.{IsListed-self, drop-Stands, length-drop}

-- the number of tombstones of orders that were here, and of the others
unfoldable pub real_count : List Tombstone → ℕ
real_count [] = 0
real_count (t ∷ rest) = (if t.pending then 0 else 1) + real_count rest

pend_count : List Tombstone → ℕ
pend_count [] = 0
pend_count (t ∷ rest) = (if t.pending then 1 else 0) + pend_count rest

length-counts : (l : List Tombstone) → length l ≡ real_count l + pend_count l
unfolding real_count pend_count
length-counts [] = refl
length-counts (t ∷ l) = ground (arith, length-counts l)

drop-find :
    (t u : Tombstone) (h : ℕ) (m : Address) (graves : Graves)
    → IsSingle graves.tombstones
    → Stands graves t
    → t.pending ≡ true
    → find h m graves.tombstones ≡ some u
    → u.pending ≡ false
    → find h m (drop_tombstone t graves).tombstones ≡ some u
unfolding drop_tombstone
drop-find t u h m graves s stands pending found real =
    ground (arith, find-unlist t.order_hash h t.maker m graves.tombstones s)

is_past_pending-true :
    (max : ℕ) (graves : Graves) (t : Tombstone)
    → is_past_pending max graves t ≡ true
    → (t.pending ≡ true) × (max + 1 ≤ length graves.tombstones)
unfolding is_past_pending
is_past_pending-true max graves t h = ground arith

is_past_pending-false :
    (max : ℕ) (graves : Graves) (t : Tombstone)
    → is_past_pending max graves t ≡ false
    → (t.pending ≡ false) ⊎ (length graves.tombstones ≤ max)
unfolding is_past_pending
is_past_pending-false max graves t h = ground arith

sweep-find :
    (max : ℕ) (todo : List Tombstone) (graves : Graves) (h : ℕ) (m : Address) (u : Tombstone)
    → IsCounted graves
    → IsSingle todo
    → All (Stands graves) todo
    → find h m graves.tombstones ≡ some u
    → u.pending ≡ false
    → find h m (sweep (is_past_pending max) todo graves).tombstones ≡ some u
unfolding sweep
sweep-find max [] graves h m u c s a found real = found
sweep-find max (t ∷ todo) graves h m u c s a found real =
    elim (Bool-cases (is_past_pending max graves t)) [
      | inl goes ↦
          let (pending, past) = is_past_pending-true max graves t goes in
          rw (sweep, goes)
            (sweep-find max todo (drop_tombstone t graves) h m u (drop-IsCounted t graves c a.0) s.1
              (drop-Stands t graves todo c.single s.0 a.1)
              (drop-find t u h m graves c.single a.0 pending found real) real)
      | inr stays ↦ rw (sweep, stays) (sweep-find max todo graves h m u c s.1 a.1 found real)
    ]

sweep-done :
    (max : ℕ) (todo : List Tombstone) (graves : Graves)
    → length graves.tombstones ≤ max
    → (sweep (is_past_pending max) todo graves ≡ graves)
      × (sweep (is_past max) todo graves ≡ graves)
unfolding sweep is_past_pending is_past
sweep-done max [] graves fits = (refl, refl)
sweep-done max (t ∷ todo) graves fits = ground (arith, sweep-done max todo graves fits)

length-sweep_pending :
    (max : ℕ) (todo : List Tombstone) (graves : Graves)
    → IsCounted graves
    → IsSingle todo
    → All (Stands graves) todo
    → (length (sweep (is_past_pending max) todo graves).tombstones ≤ max)
      ⊎ (length (sweep (is_past_pending max) todo graves).tombstones + pend_count todo
          ≡ length graves.tombstones)
unfolding sweep pend_count
length-sweep_pending max [] graves c s a = inr (omega arith)
length-sweep_pending max (t ∷ todo) graves c s a =
    elim (Bool-cases (is_past_pending max graves t)) [
      | inl goes ↦
          let (pending, past) = is_past_pending-true max graves t goes in
          rw (sweep, goes)
            (ground (
              arith,
              pending,
              length-drop t graves a.0,
              length-sweep_pending max todo (drop_tombstone t graves)
                  (drop-IsCounted t graves c a.0) s.1 (drop-Stands t graves todo c.single s.0 a.1),
            ))
      | inr stays ↦ elim (is_past_pending-false max graves t stays) [
        | inl real ↦
            rw (sweep, stays) (ground (arith, real, length-sweep_pending max todo graves c s.1 a.1))
        | inr fits ↦
            rw (sweep, stays) (inl (ground (arith, fits, (sweep-done max todo graves fits).0)))
      ]
    ]

-- Where the tombstones of orders that were here fit the cap, trimming keeps each of them.
pub find-trim :
    (max : ℕ) (graves : Graves) (h : ℕ) (m : Address) (u : Tombstone)
    → IsCounted graves
    → real_count graves.tombstones ≤ max
    → find h m graves.tombstones ≡ some u
    → u.pending ≡ false
    → find h m (trim max graves).tombstones ≡ some u
unfolding trim
find-trim max graves h m u c fits found real =
    let listed = IsListed-self graves.tombstones c.single in
    let short : length (sweep (is_past_pending max) graves.tombstones graves).tombstones ≤ max =
      ground (
        arith,
        fits,
        length-counts graves.tombstones,
        length-sweep_pending max graves.tombstones graves c c.single listed,
      ) in
    ap (λ g. find h m g.tombstones) (sweep-done max _ _ short).1
    ∙ sweep-find max graves.tombstones graves h m u c c.single listed found real
