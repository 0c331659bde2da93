-- ===== src/Auction/Auctioneer.antt =====
-- packages/auction/src/auctioneer.ts: the operator's map of rounds and the quotes it signs. The map
-- is the list of its entries in the order of insertion. The clock is an argument; `settle` reads it
-- once for the round and once for the quote, and may await `readFilled` between.
pub mod Quotes
pub mod Due
use delta_x.Prelude.{
  ℕ, ◌+◌, ◌-◌, Option, none, some, List, [], ◌∷◌, Bool, true, false, not, ◌&&◌, Result, ok, err,
  ltb, ◌==◌, if◌then◌else◌, ◌>>=◌,
}
use delta_x.Sdk.Order.{Address, zero_address}
use delta_x.Sdk.Selection.{whole}
use delta_x.Sdk.Bid
use delta_x.Sdk.Bid.{Viem, QuoteBinding, QuoteSigner}
use delta_x.Sdk.Quote.{PriceQuote, SignedQuote, sign_quote}
use delta_x.Auction.Round.{
  RoundConfig, AuctionRound, SettledRound, RoundStatus, open_round, settled_round, void_round,
  status, is_closed, new_round, settle, submit, BidReceipt,
}
use delta_x.Auction.Executor.{Submission}
use delta_x.Auction.Audit.{executor_of}

pub record AuctioneerConfig : Type 0 where
  pub binding : QuoteBinding
  pub signer : QuoteSigner
  pub quote_ttl_seconds : Option ℕ
  pub bind_to_winner : Option Bool

pub record Entry : Type 0 where
  pub order_hash : ℕ
  pub round : AuctionRound

pub record SettledAuction : Type 0 where
  pub round : SettledRound
  pub quote : Option SignedQuote

abbrev pub is_open : AuctionRound → Bool
is_open round = elim (status round) [
  | open_round ↦ true
  | settled_round ↦ false
  | void_round ↦ false
]

unfoldable pub get_round : ℕ → List Entry → Option AuctionRound
get_round hash [] = none
get_round hash (e ∷ rest) = if e.order_hash == hash then some e.round else get_round hash rest

unfoldable pub set_round : ℕ → AuctionRound → List Entry → List Entry
set_round hash round [] = record { order_hash = hash; round = round } ∷ []
set_round hash round (e ∷ rest) =
    if e.order_hash == hash
    then record { order_hash = hash; round = round } ∷ rest
    else e ∷ set_round hash round rest

-- `open`: a live round of the order stays; the binding is in the round's configuration.
unfoldable pub open_auction : RoundConfig → List Entry → List Entry
open_auction config rounds = elim (get_round config.order_hash rounds) [
  | none ↦ set_round config.order_hash (new_round config) rounds
  | some existing ↦
      if is_open existing then rounds else set_round config.order_hash (new_round config) rounds
]

abbrev ttl : Option ℕ → ℕ
ttl none = 60
ttl (some seconds) = seconds

abbrev or_zero : Option ℕ → ℕ
or_zero none = 0
or_zero (some n) = n

-- The live reading where there is a reader, else the round's own, else 0.
unfoldable pub progress : Option ℕ → AuctionRound → ℕ
progress (some filled) round = filled
progress none round = or_zero round.config.prev_filled

unfoldable pub quote_filler : Option Bool → SettledRound → Address
quote_filler (some false) settled = zero_address
quote_filler _ settled = executor_of settled

unfoldable pub quote_of : AuctioneerConfig → ℕ → SettledRound → ℕ → ℕ → PriceQuote
quote_of config hash settled now prev_filled = record {
  order_hash = hash;
  filler = quote_filler config.bind_to_winner settled;
  bump_bps = whole settled.outcome.bump_bps;
  deadline = now + ttl config.quote_ttl_seconds;
  prev_filled = prev_filled;
}

-- The second half of `settle`, from the settled round on.
unfoldable pub mint : Viem → AuctioneerConfig → ℕ → SettledRound → ℕ → ℕ → Result SettledAuction
mint viem config hash settled now prev_filled =
    if settled.outcome.bump_bps == 0 then ok (record { round = settled; quote = none }) else do
      quote ←
          sign_quote viem config.signer (quote_of config hash settled now prev_filled)
            config.binding
      ok (record { round = settled; quote = some quote })

abbrev some_auction : SettledAuction → Option SettledAuction
some_auction auction = some auction

-- `settle` from the round of the order on.
unfoldable pub settle_found :
    Viem
    → AuctioneerConfig
    → ℕ
    → ℕ
    → ℕ
    → Option ℕ
    → List Entry
    → Option AuctionRound
    → List Entry × Result (Option SettledAuction)
settle_found viem config hash now later filled rounds none = (rounds, ok none)
settle_found viem config hash now later filled rounds (some round) =
    let after = settle round now in
    (
      set_round hash after.0 rounds,
      elim after.1 [
        | none ↦ ok none
        | some settled ↦
            mint viem config hash settled later (progress filled round) >>= λ a. ok (some_auction a)
      ],
    )

-- The rounds after `settle`, and what it returns: `some` of an auction, or `none`.
unfoldable pub settle_auction :
    Viem
    → AuctioneerConfig
    → ℕ
    → ℕ
    → ℕ
    → Option ℕ
    → List Entry
    → List Entry × Result (Option SettledAuction)
settle_auction viem config hash now later filled rounds =
    settle_found viem config hash now later filled rounds (get_round hash rounds)

-- `submit`, where no other call runs during its awaits
unfoldable pub submit_auction : Viem → ℕ → ℕ → Submission → List Entry → List Entry × BidReceipt
submit_auction viem hash now raw rounds = elim (get_round hash rounds) [
  | none ↦ (rounds, record { accepted = false; reason = some Bid.no_such_round; bids = 0 })
  | some round ↦ let after = submit viem round now raw in (set_round hash after.0 rounds, after.1)
]

-- What the clock and the reader say in one round of the loop of `settleDue`.
pub record Tick : Type 0 where
  pub now : ℕ
  pub later : ℕ
  pub filled : Option ℕ

-- `settled` pushed before what the rest of the loop pushes; a throw ends the loop.
unfoldable pub push_settled :
    Result (Option SettledAuction)
    → List Entry
    → List Entry × Result (List SettledAuction)
    → List Entry × Result (List SettledAuction)
push_settled (err thrown) rounds rest = (rounds, err thrown)
push_settled (ok none) rounds rest = rest
push_settled (ok (some auction)) rounds rest =
    (rest.0, rest.1 >>= λ auctions. ok (auction ∷ auctions))

abbrev pub is_due : AuctionRound → ℕ → Bool
is_due round now = is_open round && is_closed round now

-- The loop over the entries, where no other call runs during its awaits.
unfoldable pub settle_entries :
    Viem
    → AuctioneerConfig
    → (ℕ → Tick)
    → List Entry
    → List Entry
    → List Entry × Result (List SettledAuction)
settle_entries viem config clock [] rounds = (rounds, ok [])
settle_entries viem config clock (e ∷ entries) rounds =
    let tick = clock e.order_hash in
    let after = settle_auction viem config e.order_hash tick.now tick.later tick.filled rounds in
    let rest = settle_entries viem config clock entries after.0 in
    let skipped = settle_entries viem config clock entries rounds in
    if is_due e.round tick.now then push_settled after.1 after.0 rest else skipped

unfoldable pub settle_due :
    Viem → AuctioneerConfig → (ℕ → Tick) → List Entry → List Entry × Result (List SettledAuction)
settle_due viem config clock rounds = settle_entries viem config clock rounds rounds

-- Ended, and settled before the cutoff, or closed before it where it is void.
unfoldable pub is_droppable : ℕ → AuctionRound → Bool
is_droppable cutoff round = not (is_open round) && elim round.settled [
  | some published ↦ ltb published.settled_at cutoff
  | none ↦ ltb round.config.closes_at cutoff
]

-- `prune`: the rounds that stay; the times are later than the age that is asked for.
unfoldable pub prune : ℕ → ℕ → List Entry → List Entry
prune now older_than_seconds [] = []
prune now older_than_seconds (e ∷ rest) =
    let kept = prune now older_than_seconds rest in
    if is_droppable (now - older_than_seconds) e.round then kept else e ∷ kept
