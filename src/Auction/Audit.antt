-- ===== src/Auction/Audit.antt =====
-- packages/auction/src/round.ts: the audit of a published round, `checkRound`, and what is read off
-- it. A published bid is kept as the projection that the round stored, so `signedProjection` is the
-- identity on it.
pub mod Published
use delta_x.Prelude.{
  ℕ, Option, none, some, List, [], ◌∷◌, Bool, true, false, not, ◌&&◌, ◌||◌, ltb, ◌==◌,
  if◌then◌else◌, map, any,
}
use delta_x.Sdk.Order.{Address}
use delta_x.Sdk.Selection.{AuctionRule, first_price, second_price, verify_outcome}
use delta_x.Sdk.Bid.{Viem, QuoteBinding, Refusal}
use delta_x.Sdk.Bid
use delta_x.Auction.Executor.{RoundBid}
use delta_x.Auction.Round.{SettledRound, filler_of, bump_of, equal, verify, quote_bid}

-- The rule and the quorum that an auditor was promised.
pub record Expected : Type 0 where
  pub rule : AuctionRule
  pub min_bidders : Option ℕ

abbrev pub same_rule : AuctionRule → AuctionRule → Bool
same_rule first_price first_price = true
same_rule second_price second_price = true
same_rule _ _ = false

-- The tests of the rule and the quorum: a reason, or `none`.
unfoldable pub check_policy : SettledRound → Expected → Option Refusal
check_policy round expected =
    if not (same_rule round.rule expected.rule)
    then some Bid.other_rule
    else if not (same_rule round.outcome.rule expected.rule)
    then some Bid.other_outcome_rule
    else elim expected.min_bidders [
      | none ↦ none
      | some wanted ↦ elim round.min_bidders [
        | none ↦ some Bid.no_min_bidders
        | some used ↦ if used == wanted then none else some Bid.other_min_bidders
      ]
    ]

-- `seen.has(key)`: a bid of the same filler and bump
unfoldable pub has_seen : RoundBid → List RoundBid → Bool
has_seen bid [] = false
has_seen bid (b ∷ rest) =
    (filler_of b == filler_of bid && equal (bump_of b) (bump_of bid)) || has_seen bid rest

module _ (viem : Viem) (order_hash : ℕ) (binding : QuoteBinding) where
  -- The tests of one published bid.
  unfoldable pub check_bid : List RoundBid → RoundBid → Option Refusal
  check_bid seen bid =
      if not (bid.bid.payload.order_hash == order_hash)
      then some Bid.another_order
      else elim (verify viem bid binding) [
        | some reason ↦ some reason
        | none ↦ if has_seen bid seen then some Bid.duplicate_bid else none
      ]

  -- The loop over the published bids, with those that it has passed.
  unfoldable pub check_bids : List RoundBid → List RoundBid → Option Refusal
  check_bids seen [] = none
  check_bids seen (bid ∷ rest) =
      let later = check_bids (bid ∷ seen) rest in
      elim (check_bid seen bid) [ some reason ↦ some reason | none ↦ later ]

-- The reason of a refusal, or `none` for `{ ok: true }`.
unfoldable pub check_round : Viem → SettledRound → Expected → Option Refusal
check_round viem round expected = elim (check_policy round expected) [
  | some reason ↦ some reason
  | none ↦ elim (check_bids viem round.order_hash round.binding [] round.bids) [
    | some reason ↦ some reason
    | none ↦
        if verify_outcome (map quote_bid round.bids) round.outcome
          (record { rule = some expected.rule; min_bidders = expected.min_bidders })
        then none
        else some Bid.does_not_follow
  ]
]

unfoldable pub winner_of : SettledRound → Option Address
winner_of round = if ltb 0 round.outcome.bidders then some round.outcome.winner else none

-- The executor of the first bid of an address that declares one.
unfoldable pub declared : Address → List RoundBid → Option Address
declared winner [] = none
declared winner (b ∷ rest) =
    let later = declared winner rest in
    if filler_of b == winner
    then elim b.executor [ some executor ↦ some executor | none ↦ later ]
    else later

unfoldable pub executor_of : SettledRound → Address
executor_of round = elim (declared round.outcome.winner round.bids) [
  | some executor ↦ executor
  | none ↦ round.outcome.winner
]
