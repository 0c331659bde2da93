-- ===== src/Sdk/Selection/Ranking.antt =====
-- The order of bids is total, the sort is a rank of the bids by it, and each filler stands with its
-- lowest bid.
use delta_x.Prelude.{
  ℕ, ◌≡◌, true, false, Option, none, some, List, [], ◌∷◌, arith, ltb, ◌==◌, if◌then◌else◌, refl,
  Bool-cases, inl, inr, ◌∙◌,
}
use delta_x.Sdk.Order.{Address}
use delta_x.Sdk.Selection.{Bid, precedes, keep_best, place, sort_bids}

-- the bump that a filler stands with
unfoldable pub standing_bump : Address → List Bid → Option ℕ
standing_bump f [] = none
standing_bump f (b ∷ rest) = if b.filler == f then some b.bump else standing_bump f rest

-- one entry for each filler
abbrev pub IsSingle : List Bid → Type 0
IsSingle [] = Unit {0}
IsSingle (b ∷ rest) = (standing_bump b.filler rest ≡ none) × IsSingle rest

abbrev pub lower : Option ℕ → ℕ → ℕ
lower none n = n
lower (some m) n = if ltb n m then n else m

pub standing_bump-keep_best :
    (f : Address) (a : Bid) (m : List Bid)
    → standing_bump f (keep_best a m)
      ≡ (if a.filler == f then some (lower (standing_bump f m) a.bump) else standing_bump f m)
unfolding standing_bump keep_best precedes
standing_bump-keep_best f a [] = ground arith
standing_bump-keep_best f a (b ∷ m) = ground (arith, standing_bump-keep_best f a m)

pub keep_best-IsSingle : (a : Bid) (m : List Bid) → IsSingle m → IsSingle (keep_best a m)
unfolding keep_best standing_bump
keep_best-IsSingle a [] s = ground arith
keep_best-IsSingle a (b ∷ m) s =
    ground (arith, keep_best-IsSingle a m s.1, standing_bump-keep_best b.filler a m)

-- two insertions into a sorted list commute
pub place_comm : (a b : Bid) (l : List Bid) → place a (place b l) ≡ place b (place a l)
unfolding place precedes
place_comm a b [] = ground arith
place_comm a b (c ∷ l) = ground (arith, place_comm a b l)

-- the list without the entry of a filler
pub without : Address → List Bid → List Bid
without f [] = []
without f (b ∷ rest) = if b.filler == f then rest else b ∷ without f rest

pub sort_bids-extract :
    (f : Address) (n : ℕ) (m : List Bid)
    → standing_bump f m ≡ some n
    → sort_bids m ≡ place (record { filler = f; bump = n }) (sort_bids (without f m))
unfolding standing_bump sort_bids without
sort_bids-extract f n [] e = ground arith
sort_bids-extract f n (b ∷ m) e = ground (
  arith,
  sort_bids-extract f n m,
  place_comm b (record { filler = f; bump = n }) (sort_bids (without f m)),
)

pub standing_bump-without :
    (f g : Address) (m : List Bid)
    → IsSingle m
    → standing_bump g (without f m) ≡ (if f == g then none else standing_bump g m)
unfolding standing_bump without
standing_bump-without f g [] s = ground arith
standing_bump-without f g (b ∷ m) s = ground (arith, standing_bump-without f g m s.1)

pub without-IsSingle : (f : Address) (m : List Bid) → IsSingle m → IsSingle (without f m)
unfolding standing_bump without
without-IsSingle f [] s = tt
without-IsSingle f (b ∷ m) s =
    ground (arith, without-IsSingle f m s.1, standing_bump-without f b.filler m s.1)

-- Two single lists with the same standing bumps agree without their first filler too.
without_agrees :
    (b : Bid) (m m' : List Bid)
    → IsSingle (b ∷ m)
    → IsSingle m'
    → ((f : Address) → standing_bump f (b ∷ m) ≡ standing_bump f m')
    → (f : Address) → standing_bump f m ≡ standing_bump f (without b.filler m')
unfolding standing_bump
without_agrees b m m' s s' same f = ground (arith, same f, standing_bump-without b.filler f m' s')

sort_bids_ext_step :
    (b : Bid) (m m' : List Bid)
    → IsSingle (b ∷ m)
    → IsSingle m'
    → ((f : Address) → standing_bump f (b ∷ m) ≡ standing_bump f m')
    → sort_bids m ≡ sort_bids (without b.filler m')
    → sort_bids (b ∷ m) ≡ sort_bids m'
unfolding sort_bids standing_bump
sort_bids_ext_step b m m' s s' same e =
    ground (arith, same b.filler, sort_bids-extract b.filler b.bump m')

-- The sorted list is determined by the bump that each filler stands with.
pub sort_bids_ext :
    (m m' : List Bid)
    → IsSingle m
    → IsSingle m'
    → ((f : Address) → standing_bump f m ≡ standing_bump f m')
    → sort_bids m ≡ sort_bids m'
unfolding sort_bids standing_bump
sort_bids_ext [] [] s s' same = refl
sort_bids_ext [] (b ∷ m') s s' same = ground (arith, same b.filler)
sort_bids_ext (b ∷ m) m' s s' same = sort_bids_ext_step b m m' s s' same (
    sort_bids_ext m (without b.filler m') s.1 (without-IsSingle b.filler m' s')
      (without_agrees b m m' s s' same))

-- A new filler's bid placed into a list stands there, beside all the others.
standing_bump-place :
    (f : Address) (a : Bid) (l : List Bid)
    → standing_bump a.filler l ≡ none
    → standing_bump f (place a l) ≡ (if a.filler == f then some a.bump else standing_bump f l)
unfolding standing_bump place
standing_bump-place f a [] h = refl
standing_bump-place f a (b ∷ l) h = ground (arith, standing_bump-place f a l)

pub standing_bump-sort_bids :
    (f : Address) (m : List Bid) → IsSingle m → standing_bump f (sort_bids m) ≡ standing_bump f m
unfolding standing_bump sort_bids
standing_bump-sort_bids f [] s = refl
standing_bump-sort_bids f (b ∷ m) s = ground (
  arith,
  standing_bump-place f b (sort_bids m),
  standing_bump-sort_bids b.filler m s.1,
  standing_bump-sort_bids f m s.1,
)

-- No bid of the list precedes `a`.
abbrev pub Leads : Bid → List Bid → Type 0
Leads a [] = Unit {0}
Leads a (b ∷ rest) = (precedes b a ≡ false) × Leads a rest

abbrev pub IsSorted : List Bid → Type 0
IsSorted [] = Unit {0}
IsSorted (b ∷ rest) = Leads b rest × IsSorted rest

precedes_trans : (a b c : Bid) → precedes b a ≡ false → precedes c b ≡ false → precedes c a ≡ false
unfolding precedes
precedes_trans a b c h k = ground arith

precedes_asym : (a b : Bid) → precedes a b ≡ true → precedes b a ≡ false
unfolding precedes
precedes_asym a b h = ground arith

Leads-trans : (a b : Bid) (l : List Bid) → precedes b a ≡ false → Leads b l → Leads a l
Leads-trans a b [] h k = tt
Leads-trans a b (c ∷ l) h k = (precedes_trans a b c h k.0, Leads-trans a b l h k.1)

Leads-place : (a b : Bid) (l : List Bid) → precedes b a ≡ false → Leads a l → Leads a (place b l)
unfolding place
Leads-place a b [] h k = (h, tt)
Leads-place a b (c ∷ l) h k = ground (arith, Leads-place a b l h k.1)

place-IsSorted : (a : Bid) (l : List Bid) → IsSorted l → IsSorted (place a l)
unfolding place
place-IsSorted a [] s = (tt, tt)
place-IsSorted a (b ∷ l) s = elim (Bool-cases (precedes b a)) [
  | inl before ↦
      rw (before, place) (Leads-place b a l (precedes_asym b a before) s.0, place-IsSorted a l s.1)
  | inr after ↦ rw (after, place) ((after, Leads-trans a b l after s.0), s)
]

pub sort_bids-IsSorted : (m : List Bid) → IsSorted (sort_bids m)
unfolding sort_bids
sort_bids-IsSorted [] = tt
sort_bids-IsSorted (b ∷ m) = place-IsSorted b (sort_bids m) (sort_bids-IsSorted m)

-- Whoever stands in a list does not precede what leads it.
pub Leads-standing :
    (a : Bid) (l : List Bid) (f : Address) (n : ℕ)
    → Leads a l
    → standing_bump f l ≡ some n
    → precedes (record { filler = f; bump = n }) a ≡ false
unfolding standing_bump
Leads-standing a [] f n h e = absurd (ground arith)
Leads-standing a (b ∷ l) f n h e = ground (arith, Leads-standing a l f n h.1)

place-IsSingle :
    (a : Bid) (l : List Bid) → IsSingle l → standing_bump a.filler l ≡ none → IsSingle (place a l)
unfolding standing_bump place
place-IsSingle a [] s h = (refl, tt)
place-IsSingle a (b ∷ l) s h =
    ground (arith, place-IsSingle a l s.1, standing_bump-place b.filler a l)

pub sort_bids-IsSingle : (m : List Bid) → IsSingle m → IsSingle (sort_bids m)
unfolding sort_bids
sort_bids-IsSingle [] s = tt
sort_bids-IsSingle (b ∷ m) s =
    place-IsSingle b (sort_bids m) (sort_bids-IsSingle m s.1)
      (standing_bump-sort_bids b.filler m s.1 ∙ s.0)
