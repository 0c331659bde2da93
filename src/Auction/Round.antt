-- ===== src/Auction/Round.antt =====
-- packages/auction/src/round.ts: one quote auction as a state machine. The `standing` map is the
-- list of its values in the order of insertion, its key the filler of a bid. `submit` awaits the
-- signature checks: `admit` is its part before them, `verify` the checks, and `land` its part after
-- them, between which other calls may run. The clock is an argument.
pub mod Standing
pub mod Invariant
pub mod Reachable
pub mod Displacement
pub mod Landing
use delta_x.Prelude.{
  ℕ, Option, none, some, List, [], ◌∷◌, ◌++◌, Bool, true, false, not, ◌&&◌, ltb, leb, ◌==◌,
  if◌then◌else◌, length, map,
}
use delta_x.Sdk.Order.{Address}
use delta_x.Sdk.Selection.{
  Number, whole, negative, other, QuoteBid, AuctionRule, AuctionOutcome, SelectOptions,
  select_quote, verify_outcome,
}
use delta_x.Sdk.Bid.{Viem, QuoteBinding, Refusal, verify_bid}
use delta_x.Sdk.Bid
use delta_x.Auction.Executor.{RoundBid, Submission, signed_projection, verify_executor}

pub record RoundConfig : Type 0 where
  pub order_hash : ℕ
  pub closes_at : ℕ
  pub binding : QuoteBinding
  pub rule : Option AuctionRule
  pub min_bidders : Option ℕ
  pub max_bids : Option ℕ
  pub prev_filled : Option ℕ

pub record SettledRound : Type 0 where
  pub order_hash : ℕ
  pub binding : QuoteBinding
  pub outcome : AuctionOutcome
  pub bids : List RoundBid
  pub settled_at : ℕ
  pub rule : AuctionRule
  pub min_bidders : Option ℕ

pub record AuctionRound : Type 0 where
  pub config : RoundConfig
  pub standing : List RoundBid
  pub settled : Option SettledRound
  pub voided : Bool

pub data RoundStatus : Type 0 where
  open_round settled_round void_round : RoundStatus

pub record BidReceipt : Type 0 where
  pub accepted : Bool
  pub reason : Option Refusal
  pub bids : ℕ

abbrev pub filler_of : RoundBid → Address
filler_of b = b.bid.payload.filler

abbrev pub bump_of : RoundBid → Number
bump_of b = b.bid.payload.bump_bps

-- `===` and `>` of numbers, read where both are integers
unfoldable pub equal : Number → Number → Bool
equal (whole m) (whole n) = m == n
equal (negative m) (negative n) = m == n
equal _ _ = false

unfoldable pub above : Number → Number → Bool
above (whole m) (whole n) = ltb n m
above (whole m) (negative n) = true
above (negative m) (negative n) = ltb m n
above _ _ = false

abbrev pub is_integer : Number → Bool
is_integer other = false
is_integer _ = true

-- `new AuctionRound(config, now)`
unfoldable pub new_round : RoundConfig → AuctionRound
new_round config = record { config = config; standing = []; settled = none; voided = false }

unfoldable pub status : AuctionRound → RoundStatus
status round =
    if round.voided
    then void_round
    else elim round.settled [ none ↦ open_round | some published ↦ settled_round ]

unfoldable pub is_closed : AuctionRound → ℕ → Bool
is_closed round now = leb round.config.closes_at now

-- `Map.get`, `Map.delete` and, on a key that is absent, `Map.set`
unfoldable pub lookup : Address → List RoundBid → Option RoundBid
lookup key [] = none
lookup key (b ∷ rest) = if filler_of b == key then some b else lookup key rest

unfoldable pub delete : Address → List RoundBid → List RoundBid
delete key [] = []
delete key (b ∷ rest) = if filler_of b == key then rest else b ∷ delete key rest

-- The highest bump, the latest among equals.
unfoldable pub worst_after : RoundBid → List RoundBid → RoundBid
worst_after worst [] = worst
worst_after worst (b ∷ rest) =
    worst_after (if not (above (bump_of worst) (bump_of b)) then b else worst) rest

-- `{ ok: true, evict? }` or `{ ok: false, reason }`
pub data Placement : Type 0 where
  placed : (evict : Option Address) → Placement
  unplaced : Refusal → Placement

-- A new filler's bid into a full round.
unfoldable pub displace : RoundBid → List RoundBid → Placement
displace bid [] = unplaced Bid.at_capacity
displace bid (b ∷ rest) =
    let worst = worst_after b rest in
    if not (above (bump_of worst) (bump_of bid))
    then unplaced Bid.at_capacity
    else placed (some (filler_of worst))

unfoldable pub cap : RoundConfig → ℕ
cap config = elim config.max_bids [ none ↦ 256 | some n ↦ n ]

unfoldable pub placement : AuctionRound → RoundBid → Placement
placement round bid =
    if not (is_integer (bump_of bid))
    then unplaced Bid.bump_out_of_range
    else elim (lookup (filler_of bid) round.standing) [
      | some own ↦
          if equal (bump_of own) (bump_of bid)
          then unplaced Bid.duplicate_bid
          else if above (bump_of bid) (bump_of own)
          then unplaced Bid.no_improvement
          else placed none
      | none ↦
          if ltb (length round.standing) (cap round.config)
          then placed none
          else displace bid round.standing
    ]

unfoldable pub refuse : AuctionRound → Refusal → BidReceipt
refuse round reason = record {
  accepted = false;
  reason = some reason;
  bids = length round.standing;
}

-- A round that takes bids no more.
unfoldable pub ended : AuctionRound → Option Refusal
ended round = elim round.settled [
  | some published ↦ some Bid.already_settled
  | none ↦ if round.voided then some Bid.round_void else none
]

-- `submit` before its awaits: the reason of a refusal, or the bid that goes on.
unfoldable pub admit : AuctionRound → ℕ → RoundBid → Option Refusal
admit round now bid = elim (ended round) [
  | some reason ↦ some reason
  | none ↦
      if is_closed round now
      then some Bid.round_closed
      else if not (bid.bid.payload.order_hash == round.config.order_hash)
      then some Bid.another_order
      else if not (bid.bid.payload.closes_at == round.config.closes_at)
      then some Bid.another_round
      else elim (placement round bid) [ placed evict ↦ none | unplaced reason ↦ some reason ]
]

abbrev pub after_evict : Option Address → List RoundBid → List RoundBid
after_evict none standing = standing
after_evict (some key) standing = delete key standing

-- The bid into the map: the evicted bid and the filler's own go, the bid goes to the back.
unfoldable pub put : Option Address → RoundBid → List RoundBid → List RoundBid
put evict bid standing = delete (filler_of bid) (after_evict evict standing) ++ (bid ∷ [])

-- `submit` after its awaits.
unfoldable pub land : AuctionRound → RoundBid → AuctionRound × BidReceipt
land round bid = elim (ended round) [
  | some reason ↦ (round, refuse round reason)
  | none ↦ elim (placement round bid) [
    | unplaced reason ↦ (round, refuse round reason)
    | placed evict ↦
        let standing = put evict bid round.standing in
        (
          record round { standing = standing },
          record { accepted = true; reason = none; bids = length standing },
        )
  ]
]

abbrev first_reason : Option Refusal → Option Refusal → Option Refusal
first_reason (some reason) _ = some reason
first_reason none next = next

unfoldable pub verify : Viem → RoundBid → QuoteBinding → Option Refusal
verify viem bid binding =
    first_reason (verify_bid viem bid.bid binding) (verify_executor viem bid binding)

-- `submit` where no other call runs during its awaits.
unfoldable pub submit : Viem → AuctionRound → ℕ → Submission → AuctionRound × BidReceipt
submit viem round now raw =
    let bid = signed_projection raw in
    elim (first_reason (admit round now bid) (verify viem bid round.config.binding)) [
      | some reason ↦ (round, refuse round reason)
      | none ↦ land round bid
    ]

unfoldable pub quote_bid : RoundBid → QuoteBid
quote_bid b = record { filler = filler_of b; bump_bps = bump_of b; commitment = none }

unfoldable pub record_of : AuctionRound → ℕ → AuctionOutcome → SettledRound
record_of round now outcome = record {
  order_hash = round.config.order_hash;
  binding = round.config.binding;
  outcome = outcome;
  bids = round.standing;
  settled_at = now;
  rule = outcome.rule;
  min_bidders = round.config.min_bidders;
}

unfoldable pub settle : AuctionRound → ℕ → AuctionRound × Option SettledRound
settle round now = elim round.settled [
  | some published ↦ (round, some published)
  | none ↦
      if round.voided
      then (round, none)
      else elim (select_quote (map quote_bid round.standing)
          (record { rule = round.config.rule; min_bidders = round.config.min_bidders })) [
            | none ↦ (round, none)
            | some outcome ↦
                let published = record_of round now outcome in
                (record round { settled = some published }, some published)
          ]
]

-- `void()`
unfoldable pub abandon : AuctionRound → AuctionRound
abandon round = elim round.settled [
  | some published ↦ round
  | none ↦ record round { voided = true }
]
