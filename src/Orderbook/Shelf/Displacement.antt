-- ===== src/Orderbook/Shelf/Displacement.antt =====
-- Which order a full book gives up.
use mathlib.Core.Path.{subst}
use delta_x.Prelude.{
  ℕ, ◌+◌, ◌≤◌, ◌<◌, ◌≡◌, refl, arith, Option, none, some, [], ◌∷◌, true, length, Option-cases,
  Bool-cases, inl, inr, ◌≢◌, ◌⊎◌,
}
use delta_x.Prelude.Dict.{Dict, get, IsMap}
use delta_x.Sdk.Order.{Address}
use delta_x.Orderbook.Admission.{AdmissionPolicy}
use delta_x.Orderbook.Shelf.{
  BookEntry, Shelf, maker_of, maker_count, count_or, is_dead, first_dead, top_maker, furthest,
  largest_victim, displacement_victim,
}
use delta_x.Orderbook.Shelf.Counts.{IsCounted}

-- A key of the rest is not the first key.
get-cons :
    {A : Type 0} (k key : ℕ) (a b : A) (rest : Dict A)
    → IsMap ((key, a) ∷ rest)
    → get k rest ≡ some b
    → get k ((key, a) ∷ rest) ≡ some b
unfolding get
get-cons k key a b rest u h = ground (arith, u.0)

first_dead-get :
    (k : ℕ) (d : Dict BookEntry)
    → IsMap d
    → first_dead d ≡ some k
    → (e : BookEntry) × (get k d ≡ some e) × (is_dead e ≡ true)
unfolding first_dead get
first_dead-get k [] u h = absurd (ground arith)
first_dead-get k ((key, e) ∷ rest) u h = elim (Bool-cases (is_dead e)) [
  | inl dead ↦ (e, ground (arith, dead), dead)
  | inr live ↦
      let (e', found, dead) = first_dead-get k rest u.1 (ground (arith, live)) in
      (e', get-cons k key e e' rest u found, dead)
]

-- The maker's entries of the list expire no later than `entry`.
abbrev pub IsFurthest : Address → BookEntry → Dict BookEntry → Type 0
IsFurthest m entry [] = Unit {0}
IsFurthest m entry ((key, e) ∷ rest) =
    ((maker_of e ≢ m) ⊎ (e.announce.order.expiry ≤ entry.announce.order.expiry))
    × IsFurthest m entry rest

furthest-get :
    (m : Address) (v : Option (ℕ × BookEntry)) (d : Dict BookEntry) (k : ℕ) (e : BookEntry)
    → IsMap d
    → furthest m v d ≡ some (k, e)
    → (v ≡ some (k, e)) ⊎ ((get k d ≡ some e) × (maker_of e ≡ m))
unfolding furthest get
furthest-get m v [] k e u h = inl h
furthest-get m v ((key, a) ∷ rest) k e u h =
    ground (arith, furthest-get m v rest k e u.1, furthest-get m (some (key, a)) rest k e u.1, u.0)

abbrev IsAfter : Option (ℕ × BookEntry) → BookEntry → Type 0
IsAfter none e = Unit {0}
IsAfter (some (key, victim)) e = victim.announce.order.expiry ≤ e.announce.order.expiry

top_maker-max :
    (top : Option Address) (n : ℕ) (c : Dict ℕ) (m : Address)
    → (n ≤ (top_maker top n c).1) × (count_or 0 (get m c) ≤ (top_maker top n c).1)
unfolding top_maker get
top_maker-max top n [] m = (ground arith, ground arith)
top_maker-max top n ((key, a) ∷ rest) m =
    ground (arith, top_maker-max top n rest m, top_maker-max (some key) a rest m)

top_maker-get :
    (top : Option Address) (n : ℕ) (c : Dict ℕ) (m : Address)
    → IsMap c
    → (top_maker top n c).0 ≡ some m
    → ((top ≡ some m) × ((top_maker top n c).1 ≡ n)) ⊎ (get m c ≡ some (top_maker top n c).1)
unfolding top_maker get
top_maker-get top n [] m u h = inl (h, refl)
top_maker-get top n ((key, a) ∷ rest) m u h =
    ground (arith, top_maker-get top n rest m u.1, top_maker-get (some key) a rest m u.1, u.0)

furthest-IsFurthest :
    (m : Address) (v : Option (ℕ × BookEntry)) (d : Dict BookEntry) (k : ℕ) (e : BookEntry)
    → furthest m v d ≡ some (k, e)
    → IsAfter v e × IsFurthest m e d
unfolding furthest
furthest-IsFurthest m none [] k e h = (tt, tt)
furthest-IsFurthest m (some (j, w)) [] k e h = ground arith
furthest-IsFurthest m none ((key, a) ∷ rest) k e h =
    ground
      (arith, furthest-IsFurthest m none rest k e, furthest-IsFurthest m (some (key, a)) rest k e)
furthest-IsFurthest m (some (j, w)) ((key, a) ∷ rest) k e h = ground (
  arith,
  furthest-IsFurthest m (some (j, w)) rest k e,
  furthest-IsFurthest m (some (key, a)) rest k e,
)

-- A victim of the largest maker.
abbrev pub IsLargest : Address → Shelf → BookEntry → Type 0
IsLargest maker shelf e =
    (maker_count shelf maker + 1 < maker_count shelf (maker_of e))
    × ((m : Address) → maker_count shelf m ≤ maker_count shelf (maker_of e))
    × IsFurthest (maker_of e) e shelf.entries

-- What the choice rests on: the largest maker, and its order.
largest_victim-parts :
    (maker : Address) (shelf : Shelf) (k : ℕ)
    → largest_victim maker shelf ≡ some k
    → (largest : Address) × (e : BookEntry) × ((top_maker none 0 shelf.maker_counts).0
        ≡ some largest)
      × (maker_count shelf maker + 1 < (top_maker none 0 shelf.maker_counts).1)
      × (furthest largest none shelf.entries ≡ some (k, e))
unfolding largest_victim
largest_victim-parts maker shelf k h = elim (Option-cases (top_maker none 0 shelf.maker_counts).0) [
  | inl e ↦ absurd (ground (arith, e))
  | inr (largest, e) ↦ elim (Option-cases (furthest largest none shelf.entries)) [
    | inl f ↦ absurd (ground (arith, e, f))
    | inr ((key, entry), f) ↦ (largest, entry, e, ground (arith, e, f), ground (arith, e, f))
  ]
]

largest_victim-IsLargest :
    (maker : Address) (shelf : Shelf) (k : ℕ)
    → IsCounted shelf
    → largest_victim maker shelf ≡ some k
    → (e : BookEntry) × (get k shelf.entries ≡ some e) × IsLargest maker shelf e
unfolding maker_count
largest_victim-IsLargest maker shelf k c h =
    let (largest, e, tops, more, far) = largest_victim-parts maker shelf k h in
    let found = furthest-get largest none shelf.entries k e c.entries_unique far in
    let latest = furthest-IsFurthest largest none shelf.entries k e far in
    let count = top_maker-get none 0 shelf.maker_counts largest c.counts_unique tops in
    let is_largest : IsLargest maker shelf e = (
      ground (arith, found, more, count),
      (λ m. ground (arith, found, count, top_maker-max none 0 shelf.maker_counts m)),
      subst (λ m. IsFurthest m e shelf.entries) (ground (arith, found)) latest.1,
    ) in
    (e, ground (arith, found), is_largest)

-- On a shelf with right counts an order is given up only when the book is full, and it is known to be
-- unfillable, or it is the maker's of the most orders, at least two more than the newcomer has, and
-- none of that maker's expires later.
pub displacement_victim_reason :
    (maker : Address) (policy : AdmissionPolicy) (shelf : Shelf) (k : ℕ)
    → IsCounted shelf
    → displacement_victim maker policy shelf ≡ some k
    → (policy.max_orders ≤ length shelf.entries)
      × (e : BookEntry) × (get k shelf.entries ≡ some e)
      × ((is_dead e ≡ true) ⊎ IsLargest maker shelf e)
unfolding displacement_victim
displacement_victim_reason maker policy shelf k c h =
    elim (Option-cases (first_dead shelf.entries)) [
      | inl none_dead ↦
          let (e, found, largest) =
            largest_victim-IsLargest maker shelf k c (ground (arith, h, none_dead)) in
          (ground (arith, h), e, found, inr largest)
      | inr (key, dead) ↦
          let (e, found, is) =
            first_dead-get k shelf.entries c.entries_unique (ground (arith, h, dead)) in
          (ground (arith, h), e, found, inl is)
    ]
