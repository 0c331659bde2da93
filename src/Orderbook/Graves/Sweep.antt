-- ===== src/Orderbook/Graves/Sweep.antt =====
-- What a loop over the tombstones keeps, and how many it leaves.
use delta_x.Prelude.{
  ℕ, ◌+◌, ◌≤◌, ◌≡◌, arith, none, some, List, [], ◌∷◌, Bool, false, length, All, Bool-cases, inl,
  inr,
}
use delta_x.Sdk.Order.{Address}
use delta_x.Orderbook.Graves.{
  Tombstone, Graves, find, drop_tombstone, sweep, is_past_pending, is_past, trim,
}
use delta_x.Orderbook.Graves.Counts.{
  IsSingle, IsCounted, Stands, drop-IsCounted, find-unlist, length-unlist, pending_count,
  pending_count-unlist,
}

-- Dropping one tombstone leaves those of other keys standing.
pub drop-Stands :
    (t : Tombstone) (graves : Graves) (l : List Tombstone)
    → IsSingle graves.tombstones
    → find t.order_hash t.maker l ≡ none
    → All (Stands graves) l
    → All (Stands (drop_tombstone t graves)) l
unfolding drop_tombstone find
drop-Stands t graves [] s absent a = tt
drop-Stands t graves (x ∷ l) s absent a = ground (
  arith,
  drop-Stands t graves l s,
  find-unlist t.order_hash x.order_hash t.maker x.maker graves.tombstones s,
)

abbrev IsListed : List Tombstone → Tombstone → Type 0
IsListed l t = find t.order_hash t.maker l ≡ some t

IsListed-cons :
    (x : Tombstone) (l rest : List Tombstone)
    → find x.order_hash x.maker rest ≡ none
    → All (IsListed l) rest
    → All (IsListed (x ∷ l)) rest
unfolding find
IsListed-cons x l [] absent a = tt
IsListed-cons x l (y ∷ rest) absent a = ground (arith, IsListed-cons x l rest)

pub IsListed-self : (l : List Tombstone) → IsSingle l → All (IsListed l) l
unfolding find
IsListed-self [] s = tt
IsListed-self (x ∷ l) s = (ground arith, IsListed-cons x l l s.0 (IsListed-self l s.1))

module _ (test : Graves → Tombstone → Bool) where
  -- One pass of a loop: the tombstone goes, or the graves are as they were.
  pub sweep-IsCounted :
      (todo : List Tombstone) (graves : Graves)
      → IsCounted graves
      → IsSingle todo
      → All (Stands graves) todo
      → IsCounted (sweep test todo graves)
  unfolding sweep
  sweep-IsCounted [] graves c s a = c
  sweep-IsCounted (t ∷ todo) graves c s a = elim (Bool-cases (test graves t)) [
    | inl goes ↦
        rw (sweep, goes)
          (sweep-IsCounted todo (drop_tombstone t graves) (drop-IsCounted t graves c a.0) s.1
            (drop-Stands t graves todo c.single s.0 a.1))
    | inr stays ↦ rw (sweep, stays) (sweep-IsCounted todo graves c s.1 a.1)
  ]

pub length-drop :
    (t : Tombstone) (graves : Graves)
    → Stands graves t
    → length graves.tombstones ≡ length (drop_tombstone t graves).tombstones + 1
unfolding drop_tombstone
length-drop t graves stands = length-unlist t.order_hash t.maker graves.tombstones t stands

length-is_past :
    (max : ℕ) (graves : Graves) (t : Tombstone)
    → is_past max graves t ≡ false
    → length graves.tombstones ≤ max
unfolding is_past
length-is_past max graves t h = ground arith

-- The second loop ends within the cap.
pub length-sweep_past :
    (max : ℕ) (todo : List Tombstone) (graves : Graves)
    → IsCounted graves
    → IsSingle todo
    → All (Stands graves) todo
    → length graves.tombstones ≤ max + length todo
    → length (sweep (is_past max) todo graves).tombstones ≤ max
unfolding sweep
length-sweep_past max [] graves c s a fits = omega (arith, fits)
length-sweep_past max (t ∷ todo) graves c s a fits = elim (Bool-cases (is_past max graves t)) [
  | inl goes ↦
      rw (sweep, goes)
        (length-sweep_past max todo (drop_tombstone t graves) (drop-IsCounted t graves c a.0) s.1
          (drop-Stands t graves todo c.single s.0 a.1) (omega (arith, length-drop t graves a.0)))
  | inr stays ↦
      rw (sweep, stays)
        (length-sweep_past max todo graves c s.1 a.1
          (omega (arith, length-is_past max graves t stays)))
]

pub trim-IsCounted : (max : ℕ) (graves : Graves) → IsCounted graves → IsCounted (trim max graves)
unfolding trim
trim-IsCounted max graves c =
    let swept =
      sweep-IsCounted (is_past_pending max) graves.tombstones graves c c.single
        (IsListed-self graves.tombstones c.single) in
    sweep-IsCounted (is_past max) _ _ swept swept.single (IsListed-self _ swept.single)

pub length-trim :
    (max : ℕ) (graves : Graves) → IsCounted graves → length (trim max graves).tombstones ≤ max
unfolding trim
length-trim max graves c =
    let swept =
      sweep-IsCounted (is_past_pending max) graves.tombstones graves c c.single
        (IsListed-self graves.tombstones c.single) in
    length-sweep_past max _ _ swept swept.single (IsListed-self _ swept.single) (omega arith)

pending_count-drop :
    (t : Tombstone) (graves : Graves) (m : Address)
    → Stands graves t
    → pending_count m (drop_tombstone t graves).tombstones ≤ pending_count m graves.tombstones
unfolding drop_tombstone
pending_count-drop t graves m stands =
    omega (arith, pending_count-unlist t.order_hash t.maker m graves.tombstones t stands)

-- No loop adds a pending tombstone.
pub pending_count-sweep :
    (test : Graves → Tombstone → Bool) (todo : List Tombstone) (graves : Graves) (m : Address)
    → IsCounted graves
    → IsSingle todo
    → All (Stands graves) todo
    → pending_count m (sweep test todo graves).tombstones ≤ pending_count m graves.tombstones
unfolding sweep
pending_count-sweep test [] graves m c s a = omega arith
pending_count-sweep test (t ∷ todo) graves m c s a = elim (Bool-cases (test graves t)) [
  | inl goes ↦
      rw (sweep, goes)
        (omega (
          arith,
          pending_count-drop t graves m a.0,
          pending_count-sweep test todo (drop_tombstone t graves) m (drop-IsCounted t graves c a.0)
              s.1 (drop-Stands t graves todo c.single s.0 a.1),
        ))
  | inr stays ↦ rw (sweep, stays) (pending_count-sweep test todo graves m c s.1 a.1)
]

pub pending_count-trim :
    (max : ℕ) (graves : Graves) (m : Address)
    → IsCounted graves
    → pending_count m (trim max graves).tombstones ≤ pending_count m graves.tombstones
unfolding trim
pending_count-trim max graves m c =
    let listed = IsListed-self graves.tombstones c.single in
    let swept = sweep-IsCounted (is_past_pending max) graves.tombstones graves c c.single listed in
    omega (
      arith,
      pending_count-sweep (is_past_pending max) graves.tombstones graves m c c.single listed,
      pending_count-sweep (is_past max) _ _ m swept swept.single (IsListed-self _ swept.single),
    )

pub length-sweep-le :
    (test : Graves → Tombstone → Bool) (todo : List Tombstone) (graves : Graves)
    → IsCounted graves
    → IsSingle todo
    → All (Stands graves) todo
    → length (sweep test todo graves).tombstones ≤ length graves.tombstones
unfolding sweep
length-sweep-le test [] graves c s a = omega arith
length-sweep-le test (t ∷ todo) graves c s a = elim (Bool-cases (test graves t)) [
  | inl goes ↦
      rw (sweep, goes)
        (omega (
          arith,
          length-drop t graves a.0,
          length-sweep-le test todo (drop_tombstone t graves) (drop-IsCounted t graves c a.0) s.1
              (drop-Stands t graves todo c.single s.0 a.1),
        ))
  | inr stays ↦ rw (sweep, stays) (length-sweep-le test todo graves c s.1 a.1)
]
