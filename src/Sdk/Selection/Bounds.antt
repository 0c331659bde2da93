-- ===== src/Sdk/Selection/Bounds.antt =====
-- The bump of an outcome is in the maker's band.
use delta_x.Prelude.{ℕ, ◌≤◌, ◌≡◌, arith, some, List, [], ◌∷◌, All, Option-cases, inl, inr}
use delta_x.Sdk.Order.{bps}
use delta_x.Sdk.Selection.{
  QuoteBid, Bid, SelectOptions, AuctionOutcome, AuctionRule, first_price, second_price, usable,
  keep_best, best_bids, sort_bids, place, outcome, clearing_bump, select_quote, Number,
}

abbrev IsBounded : List Bid → Type 0
IsBounded l = All (λ b. b.bump ≤ bps) l

keep_best-IsBounded :
    (b : Bid) (l : List Bid) → b.bump ≤ bps → IsBounded l → IsBounded (keep_best b l)
unfolding keep_best
keep_best-IsBounded b [] h a = (h, tt)
keep_best-IsBounded b (c ∷ l) h a = ground (arith, keep_best-IsBounded b l h a.1)

place-IsBounded : (b : Bid) (l : List Bid) → b.bump ≤ bps → IsBounded l → IsBounded (place b l)
unfolding place
place-IsBounded b [] h a = (h, tt)
place-IsBounded b (c ∷ l) h a = ground (arith, place-IsBounded b l h a.1)

sort_bids-IsBounded : (l : List Bid) → IsBounded l → IsBounded (sort_bids l)
unfolding sort_bids
sort_bids-IsBounded [] a = tt
sort_bids-IsBounded (b ∷ l) a = place-IsBounded b (sort_bids l) a.0 (sort_bids-IsBounded l a.1)

usable-le : (n : Number) {m : ℕ} → usable n ≡ some m → m ≤ bps
unfolding usable
usable-le n e = ground arith

best_bids-IsBounded :
    (l : List Bid) (bids : List QuoteBid) → IsBounded l → IsBounded (best_bids l bids)
unfolding best_bids
best_bids-IsBounded l [] a = a
best_bids-IsBounded l (b ∷ bids) a = elim (Option-cases (usable b.bump_bps)) [
  | inl e ↦ rw (e, best_bids) (best_bids-IsBounded l bids a)
  | inr (n, e) ↦
      rw (e, best_bids)
        (best_bids-IsBounded (keep_best (record { filler = b.filler; bump = n }) l) bids (
          keep_best-IsBounded (record { filler = b.filler; bump = n }) l (usable-le b.bump_bps e)
            a))
]

outcome-le :
    (rule : AuctionRule) (n : ℕ) (l : List Bid) {o : AuctionOutcome}
    → IsBounded l
    → outcome rule n l ≡ some o
    → o.bump_bps ≤ bps
unfolding outcome clearing_bump
outcome-le rule n [] a e = absurd (ground arith)
outcome-le first_price n (b ∷ l) a e = ground (arith, a.0)
outcome-le second_price n (b ∷ []) a e = ground (arith, a.0)
outcome-le second_price n (b ∷ c ∷ l) a e = ground (arith, a.0, a.1.0)

-- Whatever the bids, an outcome's bump is at most 10,000.
pub select_quote-le :
    (bids : List QuoteBid) (opts : SelectOptions) (o : AuctionOutcome)
    → select_quote bids opts ≡ some o
    → o.bump_bps ≤ bps
unfolding select_quote
select_quote-le bids opts o e =
    outcome-le _ _ _ (sort_bids-IsBounded _ (best_bids-IsBounded [] bids tt)) e
