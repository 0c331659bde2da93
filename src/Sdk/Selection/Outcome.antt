-- ===== src/Sdk/Selection/Outcome.antt =====
-- What `selectQuote` decides: it does not depend on the order of the bids, the winner is a lowest
-- usable bid, and the price is that of the runner-up.
use mathlib.Core.List.{Perm, Permᴰ}
use delta_x.Prelude.{
  ℕ, ◌≤◌, ◌≡◌, ◌≢◌, false, Option, none, some, List, [], ◌∷◌, arith, ◌==◌, if◌then◌else◌,
  Option-cases, inl, inr, ◌∙◌, ap, refl, sym,
}
use delta_x.Sdk.Order.{Address}
use delta_x.Sdk.Selection.{
  QuoteBid, Bid, SelectOptions, AuctionOutcome, usable, keep_best, best_bids, sort_bids,
  select_quote, precedes, outcome, rule_of, AuctionRule, quorum, clearing_bump, second_price,
}
use delta_x.Sdk.Selection.Ranking.{
  standing_bump, IsSingle, lower, standing_bump-keep_best, keep_best-IsSingle, sort_bids_ext,
  standing_bump-sort_bids, IsSorted, Leads-standing, sort_bids-IsSorted, sort_bids-IsSingle,
}
use mathlib.Core.Logic.{∥∥₁_elim}
use mathlib.Core.Path.{ap₂}

-- The lower of `m` and the bump of a bid, where it is a usable bid of the filler.
take_in : Address → QuoteBid → Option ℕ → Option ℕ
take_in f b m = elim (usable b.bump_bps) [
  | none ↦ m
  | some n ↦ if b.filler == f then some (lower m n) else m
]

-- The lowest usable bump of a filler among the bids, or `m` where that is lower.
pub lowest : Address → Option ℕ → List QuoteBid → Option ℕ
lowest f m [] = m
lowest f m (b ∷ bs) = lowest f (take_in f b m) bs

best_bids-IsSingle :
    (m : List Bid) (bids : List QuoteBid) → IsSingle m → IsSingle (best_bids m bids)
unfolding best_bids
best_bids-IsSingle m [] s = s
best_bids-IsSingle m (b ∷ bids) s = elim (Option-cases (usable b.bump_bps)) [
  | inl e ↦ rw (e, best_bids) (best_bids-IsSingle m bids s)
  | inr (n, e) ↦
      rw (e, best_bids)
        (best_bids-IsSingle (keep_best (record { filler = b.filler; bump = n }) m) bids
          (keep_best-IsSingle _ m s))
]

standing_bump-best_bids :
    (f : Address) (m : List Bid) (bids : List QuoteBid)
    → standing_bump f (best_bids m bids) ≡ lowest f (standing_bump f m) bids
unfolding best_bids lowest take_in
standing_bump-best_bids f m [] = refl
standing_bump-best_bids f m (b ∷ bids) = elim (Option-cases (usable b.bump_bps)) [
  | inl e ↦ rw (e, best_bids, take_in) (standing_bump-best_bids f m bids)
  | inr (n, e) ↦
      rw (e, best_bids, take_in)
        (standing_bump-best_bids f (keep_best (record { filler = b.filler; bump = n }) m) bids
          ∙ ap (λ o. lowest f o bids)
              (standing_bump-keep_best f (record { filler = b.filler; bump = n }) m))
]

take_in_comm :
    (f : Address) (a b : QuoteBid) (m : Option ℕ)
    → take_in f a (take_in f b m) ≡ take_in f b (take_in f a m)
unfolding take_in
take_in_comm f a b none = ground arith
take_in_comm f a b (some k) = ground arith

lowest-permᴰ :
    (f : Address) (m : Option ℕ) {bids bids' : List QuoteBid}
    → Permᴰ bids bids'
    → lowest f m bids ≡ lowest f m bids'
unfolding lowest
lowest-permᴰ f m Permᴰ.nil = refl
lowest-permᴰ f m (Permᴰ.cons {a = a} {b = b} {l₁ = l} {l₂ = l'} e p) =
    lowest-permᴰ f (take_in f a m) p ∙ ap (λ x. lowest f (take_in f x m) l') e
lowest-permᴰ f m (Permᴰ.swap {a = a} {b = b} {a' = a'} {b' = b'} {l = l} e e') =
    ap (λ k. lowest f k l) (take_in_comm f b a m ∙ ap₂ (λ x y. take_in f x (take_in f y m)) e e')
lowest-permᴰ f m (Permᴰ.trans p q) = lowest-permᴰ f m p ∙ lowest-permᴰ f m q

sort_best_permᴰ :
    {bids bids' : List QuoteBid}
    → Permᴰ bids bids'
    → sort_bids (best_bids [] bids) ≡ sort_bids (best_bids [] bids')
sort_best_permᴰ {bids} {bids'} p =
    sort_bids_ext (best_bids [] bids) (best_bids [] bids') (best_bids-IsSingle [] bids tt)
      (best_bids-IsSingle [] bids' tt)
      λ f.
        standing_bump-best_bids f [] bids
        ∙ lowest-permᴰ f (standing_bump f []) p
        ∙ sym (standing_bump-best_bids f [] bids')

outcome-set : IsSet (Option AuctionOutcome)
outcome-set = hlevel

-- The outcome does not depend on the order in which the bids came: two parties that replay the same
-- set of bids under the same options agree on it.
pub select_quote-perm :
    (bids bids' : List QuoteBid) (opts : SelectOptions)
    → Perm bids bids'
    → select_quote bids opts ≡ select_quote bids' opts
unfolding select_quote
select_quote-perm bids bids' opts p = ∥∥₁_elim p (outcome-set _ _) λ q.
    ap (outcome (rule_of opts.rule) (quorum (rule_of opts.rule) opts.min_bidders))
      (sort_best_permᴰ q)

standing_sorted :
    (f : Address) (bids : List QuoteBid)
    → standing_bump f (sort_bids (best_bids [] bids)) ≡ lowest f none bids
unfolding standing_bump
standing_sorted f bids =
    standing_bump-sort_bids f (best_bids [] bids) (best_bids-IsSingle [] bids tt)
    ∙ standing_bump-best_bids f [] bids

outcome_winner :
    (f : Address) (n : ℕ) (rule : AuctionRule) (q : ℕ) (l : List Bid) (out : AuctionOutcome)
    → IsSorted l
    → outcome rule q l ≡ some out
    → (standing_bump out.winner l ≡ some out.winning_bid_bps)
      × (standing_bump f l ≡ some n
          → precedes
              (record { filler = f; bump = n })
              (record { filler = out.winner; bump = out.winning_bid_bps })
            ≡ false)
unfolding outcome standing_bump precedes
outcome_winner f n rule q [] out s e = absurd (ground arith)
outcome_winner f n rule q (w ∷ l) out s e =
    (ground arith, λ h. ground (arith, Leads-standing w l f n s.0))

-- The winner stands with its own lowest usable bid, and no filler's lowest usable bid is lower, or
-- as low with a smaller address.
pub select_quote-winner :
    (bids : List QuoteBid) (opts : SelectOptions) (out : AuctionOutcome) (f : Address) (n : ℕ)
    → select_quote bids opts ≡ some out
    → (lowest out.winner none bids ≡ some out.winning_bid_bps)
      × (lowest f none bids ≡ some n
          → (out.winning_bid_bps ≤ n) × (n ≡ out.winning_bid_bps → out.winner ≤ f))
unfolding select_quote precedes
select_quote-winner bids opts out f n e =
    let l = sort_bids (best_bids [] bids) in
    let rule = rule_of opts.rule in
    let w =
      outcome_winner f n rule (quorum rule opts.min_bidders) l out
        (sort_bids-IsSorted (best_bids [] bids)) e in
    (
      sym (standing_sorted out.winner bids) ∙ w.0,
      λ h. ground (arith, w.1 (standing_sorted f bids ∙ h)),
    )

outcome_second_price :
    (f : Address) (n r : ℕ) (q : ℕ) (l : List Bid) (out : AuctionOutcome)
    → IsSorted l
    → IsSingle l
    → outcome second_price q l ≡ some out
    → out.runner_up_bps ≡ some r
    → q ≤ out.bidders
    → (out.bump_bps ≡ r)
      × (out.winning_bid_bps ≤ r)
      × (f ≢ out.winner → standing_bump f l ≡ some n → r ≤ n)
      × ((g : Address) × (g ≢ out.winner) × (standing_bump g l ≡ some r))
unfolding outcome standing_bump precedes clearing_bump
outcome_second_price f n r q [] out s u e re qe = absurd (ground arith)
outcome_second_price f n r q (w ∷ []) out s u e re qe = absurd (ground arith)
outcome_second_price f n r q (w ∷ v ∷ l) out s u e re qe = (
  ground arith,
  ground arith,
  λ h k. ground (arith, Leads-standing v l f n s.1.0),
  (v.filler, ground arith, ground arith),
)

-- A Vickrey round that meets its quorum and has a runner-up clears at the lowest usable bid of the
-- other fillers: it is no lower than the winning bid, no other filler's lowest bid is below it, and
-- another filler bids it.
pub select_quote-second_price :
    (bids : List QuoteBid) (opts : SelectOptions) (out : AuctionOutcome) (r : ℕ)
    → rule_of opts.rule ≡ second_price
    → select_quote bids opts ≡ some out
    → out.runner_up_bps ≡ some r
    → quorum second_price opts.min_bidders ≤ out.bidders
    → (out.bump_bps ≡ r)
      × (out.winning_bid_bps ≤ r)
      × ((f : Address) (n : ℕ) → f ≢ out.winner → lowest f none bids ≡ some n → r ≤ n)
      × ((g : Address) × (g ≢ out.winner) × (lowest g none bids ≡ some r))
unfolding select_quote
select_quote-second_price bids opts out r re e run q =
    let l = sort_bids (best_bids [] bids) in
    let single = sort_bids-IsSingle (best_bids [] bids) (best_bids-IsSingle [] bids tt) in
    let sorted = sort_bids-IsSorted (best_bids [] bids) in
    let ruled : outcome second_price (quorum second_price opts.min_bidders) l ≡ some out =
      ap (λ k. outcome k (quorum k opts.min_bidders) l) (sym re) ∙ e in
    let at = λ (f : Address) (n : ℕ).
      outcome_second_price f n r (quorum second_price opts.min_bidders) l out sorted single ruled
        run q in
    let (g, ne, stands) = (at 0 0).3 in
    (
      (at 0 0).0,
      (at 0 0).1,
      λ f n ne h. (at f n).2 ne (standing_sorted f bids ∙ h),
      (g, ne, sym (standing_sorted g bids) ∙ stands),
    )
