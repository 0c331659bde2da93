-- ===== src/Auction/Audit/Published.antt =====
-- What a round publishes passes the audit.
use delta_x.Prelude.{ℕ, ◌≡◌, refl, ◌∙◌, ap, arith, none, some, true, false, List, [], ◌∷◌, All, map}
use mathlib.Core.Path.{subst}
use delta_x.Sdk.Selection.{
  AuctionRule, AuctionOutcome, SelectOptions, QuoteBid, first_price, second_price, select_quote,
  verify_outcome, rule_of, outcome, agrees, Bid,
}
use delta_x.Sdk.Bid.{Viem}
use delta_x.Auction.Executor.{RoundBid}
use delta_x.Auction.Round.{
  RoundConfig, AuctionRound, SettledRound, record_of, quote_bid, lookup, filler_of,
}
use delta_x.Auction.Round.Standing.{IsSingle}
use delta_x.Auction.Round.Invariant.{IsGenuine, IsSound, IsRecord}
use delta_x.Auction.Round.Reachable.{Operation, Reaches, opened, Reaches-IsSound, Reaches-config}
use delta_x.Auction.Audit.{
  Expected, same_rule, check_policy, has_seen, check_bid, check_bids, check_round,
}

outcome-rule :
    (rule : AuctionRule) (n : ℕ) (l : List Bid) {o : AuctionOutcome}
    → outcome rule n l ≡ some o
    → o.rule ≡ rule
unfolding outcome
outcome-rule rule n [] e = absurd (ground arith)
outcome-rule rule n (b ∷ l) e = ground arith

select_quote-rule :
    (bids : List QuoteBid) (opts : SelectOptions) {o : AuctionOutcome}
    → select_quote bids opts ≡ some o
    → o.rule ≡ rule_of opts.rule
unfolding select_quote
select_quote-rule bids opts e = outcome-rule _ _ _ e

same_rule_refl : (r : AuctionRule) → same_rule r r ≡ true
same_rule_refl first_price = refl
same_rule_refl second_price = refl

agrees_refl : (o : AuctionOutcome) → agrees (some o) o ≡ true
unfolding agrees
agrees_refl o = ground arith

-- The rule that a round was opened under and the default that `undefined` stands for select alike.
pub verify_outcome-select_quote :
    (bids : List QuoteBid) (opts : SelectOptions) (o : AuctionOutcome)
    → select_quote bids opts ≡ some o
    → verify_outcome bids o
        (record { rule = some (rule_of opts.rule); min_bidders = opts.min_bidders })
      ≡ true
unfolding verify_outcome select_quote
verify_outcome-select_quote bids opts o e = ap (λ q. agrees q o) e ∙ agrees_refl o

-- No bid of the list is of a filler in `seen`.
abbrev IsApart : List RoundBid → List RoundBid → Type 0
IsApart seen l = All (λ b. lookup (filler_of b) seen ≡ none) l

IsApart-cons :
    (seen l : List RoundBid) (b : RoundBid)
    → lookup (filler_of b) l ≡ none
    → IsApart seen l
    → IsApart (b ∷ seen) l
unfolding lookup
IsApart-cons seen [] b h a = tt
IsApart-cons seen (c ∷ l) b h a = ground (arith, IsApart-cons seen l b)

has_seen-lookup :
    (b : RoundBid) (seen : List RoundBid)
    → lookup (filler_of b) seen ≡ none
    → has_seen b seen ≡ false
unfolding lookup has_seen
has_seen-lookup b [] h = refl
has_seen-lookup b (c ∷ seen) h = ground (arith, has_seen-lookup b seen)

module _ (viem : Viem) (config : RoundConfig) where
  check_bid-genuine :
      (seen : List RoundBid) (b : RoundBid)
      → IsGenuine viem config b
      → lookup (filler_of b) seen ≡ none
      → check_bid viem config.order_hash config.binding seen b ≡ none
  unfolding check_bid
  check_bid-genuine seen b g h = ground (arith, g.0, g.2, has_seen-lookup b seen h)

  check_bids-genuine :
      (seen l : List RoundBid)
      → All (IsGenuine viem config) l
      → IsSingle l
      → IsApart seen l
      → check_bids viem config.order_hash config.binding seen l ≡ none
  unfolding check_bids
  check_bids-genuine seen [] g s a = refl
  check_bids-genuine seen (b ∷ l) g s a =
      rw (check_bids, check_bid-genuine seen b g.0 a.0)
        (check_bids-genuine (b ∷ seen) l g.1 s.1 (IsApart-cons seen l b s.0 a.1))

IsApart-nil : (l : List RoundBid) → IsApart [] l
unfolding lookup
IsApart-nil [] = tt
IsApart-nil (b ∷ l) = (refl, IsApart-nil l)

-- the policy that a round was opened under
unfoldable pub policy : RoundConfig → Expected
policy config = record { rule = rule_of config.rule; min_bidders = config.min_bidders }

check_policy-record_of :
    (round : AuctionRound) (now : ℕ) (o : AuctionOutcome)
    → o.rule ≡ rule_of round.config.rule
    → check_policy (record_of round now o) (policy round.config) ≡ none
unfolding check_policy record_of policy
check_policy-record_of round now o e = ground (arith, e, same_rule_refl (rule_of round.config.rule))

check_round-record_of :
    (viem : Viem) (round : AuctionRound) (now : ℕ) (o : AuctionOutcome)
    → IsSound viem round
    → select_quote
        (map quote_bid round.standing)
        (record { rule = round.config.rule; min_bidders = round.config.min_bidders })
      ≡ some o
    → check_round viem (record_of round now o) (policy round.config) ≡ none
unfolding check_round record_of policy
check_round-record_of viem round now o sound selects =
    rw
      (
        check_round,
        check_policy-record_of round now o (select_quote-rule _ _ selects),
        check_bids-genuine viem round.config [] round.standing sound.genuine sound.single
            (IsApart-nil round.standing),
        verify_outcome-select_quote _ _ o selects,
      )
      refl

-- However submissions, landings, settlement and abandonment interleave, a record that a round
-- publishes passes `checkRound` for an auditor who expects the rule and the quorum that the round was
-- opened under.
pub check_round-published :
    (viem : Viem) (config : RoundConfig) (op : Operation) (published : SettledRound)
    → Reaches viem (opened config) op
    → op.round.settled ≡ some published
    → check_round viem published (policy config) ≡ none
check_round-published viem config op published reaches settles =
    let sound = Reaches-IsSound viem config op reaches in
    let (o, now, selects, e) = subst (IsRecord op.round) settles sound.recorded in
    subst (λ c. check_round viem published (policy c) ≡ none)
      (Reaches-config viem config op reaches)
      (ap (λ p. check_round viem p (policy op.round.config)) e
        ∙ check_round-record_of viem op.round now o sound selects)
