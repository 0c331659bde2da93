-- ===== src/Sdk/Selection.antt =====
-- packages/sdk/src/auction.ts: the selection rule of a quote auction.
-- A `Map` is the list of its values in insertion order; `Array.prototype.sort` with a comparator
-- that is a total order is an insertion sort.
pub mod Ranking
pub mod Outcome
pub mod Bounds
use delta_x.Prelude.{
  ℕ, Bool, true, false, not, ◌&&◌, Option, none, some, List, [], ◌∷◌, ltb, leb, ◌==◌, if◌then◌else◌,
  length,
}
use delta_x.Sdk.Order.{Address, bps}

-- A JavaScript number where the code expects an integer: `negative n` is -(n + 1), and `other` is
-- any number that is no integer.
pub data Number : Type 0 where
  whole : ℕ → Number
  negative : ℕ → Number
  other : Number

pub record QuoteBid : Type 0 where
  pub filler : Address
  pub bump_bps : Number
  pub commitment : Option ℕ

-- A bid whose bump has passed `usable`.
pub record Bid : Type 0 where
  pub filler : Address
  pub bump : ℕ

pub data AuctionRule : Type 0 where
  first_price second_price : AuctionRule

pub record SelectOptions : Type 0 where
  pub rule : Option AuctionRule
  pub min_bidders : Option ℕ

pub record AuctionOutcome : Type 0 where
  pub winner : Address
  pub bump_bps : ℕ
  pub winning_bid_bps : ℕ
  pub runner_up_bps : Option ℕ
  pub bidders : ℕ
  pub rule : AuctionRule

-- The bump of a usable bid.
unfoldable pub usable : Number → Option ℕ
usable (whole n) = if leb n bps then some n else none
usable _ = none

-- `compareBids(a, b) < 0`
unfoldable pub precedes : Bid → Bid → Bool
precedes a b = if not (a.bump == b.bump) then ltb a.bump b.bump else ltb a.filler b.filler

-- One bid into the `best` map: a filler's entry keeps its place, and its lowest bid.
unfoldable pub keep_best : Bid → List Bid → List Bid
keep_best bid [] = bid ∷ []
keep_best bid (prev ∷ rest) =
    if prev.filler == bid.filler
    then (if precedes bid prev then bid else prev) ∷ rest
    else prev ∷ keep_best bid rest

-- The loop over the bids.
unfoldable pub best_bids : List Bid → List QuoteBid → List Bid
best_bids best [] = best
best_bids best (bid ∷ bids) = elim (usable bid.bump_bps) [
  | none ↦ best_bids best bids
  | some bump ↦ best_bids (keep_best (record { filler = bid.filler; bump = bump }) best) bids
]

unfoldable pub place : Bid → List Bid → List Bid
place a [] = a ∷ []
place a (b ∷ rest) = if precedes b a then b ∷ place a rest else a ∷ b ∷ rest

unfoldable pub sort_bids : List Bid → List Bid
sort_bids [] = []
sort_bids (b ∷ rest) = place b (sort_bids rest)

abbrev pub rule_of : Option AuctionRule → AuctionRule
rule_of none = second_price
rule_of (some r) = r

-- `opts.minBidders ?? (rule === "second-price" ? 2 : 1)`
unfoldable pub quorum : AuctionRule → Option ℕ → ℕ
quorum rule (some n) = n
quorum second_price none = 2
quorum first_price none = 1

-- The price of a round that meets its quorum.
unfoldable pub clearing_bump : AuctionRule → Bid → List Bid → ℕ
clearing_bump second_price winner (runner_up ∷ rest) = runner_up.bump
clearing_bump _ winner _ = winner.bump

abbrev pub bump_of : List Bid → Option ℕ
bump_of [] = none
bump_of (b ∷ rest) = some b.bump

-- The outcome of the sorted bids.
unfoldable pub outcome : AuctionRule → ℕ → List Bid → Option AuctionOutcome
outcome rule min_bidders [] = none
outcome rule min_bidders (winner ∷ losers) =
    let bidders = length (winner ∷ losers) in
    some (record {
      winner = winner.filler;
      bump_bps = if ltb bidders min_bidders then 0 else clearing_bump rule winner losers;
      winning_bid_bps = winner.bump;
      runner_up_bps = bump_of losers;
      bidders = bidders;
      rule = rule;
    })

unfoldable pub select_quote : List QuoteBid → SelectOptions → Option AuctionOutcome
select_quote bids opts =
    let rule = rule_of opts.rule in
    outcome rule (quorum rule opts.min_bidders) (sort_bids (best_bids [] bids))

abbrev or_rule : Option AuctionRule → AuctionRule → AuctionRule
or_rule none r = r
or_rule (some s) r = s

unfoldable pub agrees : Option AuctionOutcome → AuctionOutcome → Bool
agrees none claimed = false
agrees (some actual) claimed =
    actual.winner == claimed.winner
    && (actual.bump_bps == claimed.bump_bps
        && (actual.winning_bid_bps == claimed.winning_bid_bps && actual.bidders == claimed.bidders))

-- `{ rule: claimed.rule, ...opts }`: a rule in `opts` wins.
unfoldable pub verify_outcome : List QuoteBid → AuctionOutcome → SelectOptions → Bool
unfolding agrees
verify_outcome bids claimed opts =
    agrees
      (select_quote bids
        (record { rule = some (or_rule opts.rule claimed.rule); min_bidders = opts.min_bidders }))
      claimed
