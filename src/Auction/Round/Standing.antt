-- ===== src/Auction/Round/Standing.antt =====
-- The map of standing bids: what deletion and insertion leave, and the worst bid of a full round.
use delta_x.Prelude.{
  ℕ, ◌+◌, ◌≤◌, ◌≡◌, refl, arith, Option, none, some, List, [], ◌∷◌, ◌++◌, ◌==◌, if◌then◌else◌,
  length, length-append, All, inl, inr, Bool-cases, ◌≢◌,
}
use delta_x.Sdk.Order.{Address}
use delta_x.Auction.Executor.{RoundBid}
use delta_x.Auction.Round.{filler_of, bump_of, lookup, delete, worst_after, put, after_evict, above}

-- one bid for each filler
abbrev pub IsSingle : List RoundBid → Type 0
IsSingle [] = Unit {0}
IsSingle (b ∷ rest) = (lookup (filler_of b) rest ≡ none) × IsSingle rest

pub lookup-delete :
    (f g : Address) (l : List RoundBid)
    → IsSingle l
    → lookup g (delete f l) ≡ (if f == g then none else lookup g l)
unfolding lookup delete
lookup-delete f g [] s = ground arith
lookup-delete f g (b ∷ l) s = ground (arith, lookup-delete f g l s.1)

pub delete-IsSingle : (f : Address) (l : List RoundBid) → IsSingle l → IsSingle (delete f l)
unfolding lookup delete
delete-IsSingle f [] s = tt
delete-IsSingle f (b ∷ l) s =
    ground (arith, delete-IsSingle f l s.1, lookup-delete f (filler_of b) l s.1)

pub lookup-append :
    (g : Address) (l : List RoundBid) (b : RoundBid)
    → lookup g (l ++ (b ∷ []))
      ≡ elim (lookup g l) [ some x ↦ some x | none ↦ if filler_of b == g then some b else none ]
unfolding lookup
lookup-append g [] b = refl
lookup-append g (a ∷ l) b = ground (arith, lookup-append g l b)

append-IsSingle :
    (l : List RoundBid) (b : RoundBid)
    → IsSingle l
    → lookup (filler_of b) l ≡ none
    → IsSingle (l ++ (b ∷ []))
unfolding lookup
append-IsSingle [] b s h = (refl, tt)
append-IsSingle (a ∷ l) b s h =
    ground (arith, append-IsSingle l b s.1, lookup-append (filler_of a) l b)

after_evict-IsSingle :
    (evict : Option Address) (l : List RoundBid) → IsSingle l → IsSingle (after_evict evict l)
after_evict-IsSingle none l s = s
after_evict-IsSingle (some key) l s = delete-IsSingle key l s

pub put-IsSingle :
    (evict : Option Address) (b : RoundBid) (l : List RoundBid)
    → IsSingle l
    → IsSingle (put evict b l)
unfolding put
put-IsSingle evict b l s =
    let kept = after_evict-IsSingle evict l s in
    append-IsSingle (delete (filler_of b) (after_evict evict l)) b
      (delete-IsSingle (filler_of b) (after_evict evict l) kept)
      (ground (arith, lookup-delete (filler_of b) (filler_of b) (after_evict evict l) kept))

module _ (P : RoundBid → Type 0) where
  delete-All : (f : Address) (l : List RoundBid) → All P l → All P (delete f l)
  unfolding delete
  delete-All f [] a = tt
  delete-All f (b ∷ l) a = elim (Bool-cases (filler_of b == f)) [
    | inl e ↦ rw (e, delete) a.1
    | inr e ↦ rw (e, delete) (a.0, delete-All f l a.1)
  ]

  append-All : (l : List RoundBid) (b : RoundBid) → All P l → P b → All P (l ++ (b ∷ []))
  append-All [] b a p = (p, tt)
  append-All (c ∷ l) b a p = (a.0, append-All l b a.1 p)

  after_evict-All :
      (evict : Option Address) (l : List RoundBid) → All P l → All P (after_evict evict l)
  after_evict-All none l a = a
  after_evict-All (some key) l a = delete-All key l a

  pub put-All :
      (evict : Option Address) (b : RoundBid) (l : List RoundBid)
      → All P l
      → P b
      → All P (put evict b l)
  unfolding put
  put-All evict b l a p =
      append-All (delete (filler_of b) (after_evict evict l)) b
        (delete-All (filler_of b) (after_evict evict l) (after_evict-All evict l a)) p

length-delete :
    (f : Address) (l : List RoundBid)
    → length l ≡ length (delete f l) + elim (lookup f l) as (λ _. ℕ) [ none ↦ 0 | some b ↦ 1 ]
unfolding delete lookup
length-delete f [] = refl
length-delete f (b ∷ l) = ground (arith, length-delete f l)

-- A filler's own bid is replaced, or a place is free, or one that is held is given up.
pub length-put :
    (evict : Option Address) (b : RoundBid) (l : List RoundBid)
    → length (put evict b l) ≤ length l + 1
unfolding put
length-put none b l =
    omega (arith, length-append (delete (filler_of b) l) (b ∷ []), length-delete (filler_of b) l)
length-put (some key) b l = omega (
  arith,
  length-append (delete (filler_of b) (delete key l)) (b ∷ []),
  length-delete (filler_of b) (delete key l),
  length-delete key l,
)

pub length-put_held :
    (key : Address) (b a : RoundBid) (l : List RoundBid)
    → lookup key l ≡ some a
    → length (put (some key) b l) ≤ length l
unfolding put
length-put_held key b a l held = ground (
  arith,
  length-append (delete (filler_of b) (delete key l)) (b ∷ []),
  length-delete (filler_of b) (delete key l),
  length-delete key l,
  held,
)

pub length-put_own :
    (b a : RoundBid) (l : List RoundBid)
    → lookup (filler_of b) l ≡ some a
    → length (put none b l) ≤ length l
unfolding put
length-put_own b a l own =
    ground
      (arith, length-append (delete (filler_of b) l) (b ∷ []), length-delete (filler_of b) l, own)

-- The worst bid is one of the bids.
pub worst_after-lookup :
    (w : RoundBid) (l : List RoundBid) → lookup (filler_of (worst_after w l)) (w ∷ l) ≢ none
unfolding worst_after lookup
worst_after-lookup w [] e = absurd (ground arith)
worst_after-lookup w (b ∷ l) e = elim (Bool-cases (above (bump_of w) (bump_of b))) [
  | inl after ↦ worst_after-lookup w l (ground (arith, after))
  | inr before ↦ worst_after-lookup b l (ground (arith, before))
]

pub lookup-put :
    (g : Address) (b : RoundBid) (l : List RoundBid)
    → IsSingle l
    → lookup g (put none b l) ≡ (if filler_of b == g then some b else lookup g l)
unfolding put
lookup-put g b l s =
    ground (arith, lookup-append g (delete (filler_of b) l) b, lookup-delete (filler_of b) g l s)

pub lookup-put_evict :
    (g key : Address) (b : RoundBid) (l : List RoundBid)
    → IsSingle l
    → lookup g (put (some key) b l)
      ≡ (if filler_of b == g then some b else if key == g then none else lookup g l)
unfolding put
lookup-put_evict g key b l s = ground (
  arith,
  lookup-append g (delete (filler_of b) (delete key l)) b,
  lookup-delete (filler_of b) g (delete key l) (delete-IsSingle key l s),
  lookup-delete key g l s,
)
