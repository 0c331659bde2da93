-- ===== src/Auction/Auctioneer/Quotes.antt =====
-- What the operator's quotes say, and what its map keeps.
use delta_x.Prelude.{
  ℕ, ◌≤◌, ◌≡◌, ◌≢◌, refl, arith, none, some, List, [], ◌∷◌, ok, true, false, ◌==◌, if◌then◌else◌,
  Bool-cases, inl, inr, ◌⊎◌, sym, Result-cases, ◌-◌,
}
use delta_x.Sdk.Order.{bps}
use delta_x.Sdk.Bid.{Viem}
use delta_x.Sdk.Quote.{SignedQuote, sign_quote, quote_digest, assert_quote}
use delta_x.Auction.Round.{RoundConfig, AuctionRound, SettledRound, new_round, record_of}
use delta_x.Auction.Auctioneer.{
  AuctioneerConfig, Entry, SettledAuction, get_round, set_round, open_auction, mint, quote_of,
  is_open, prune, is_droppable,
}
use delta_x.Sdk.Selection.Bounds.{select_quote-le}
use delta_x.Auction.Round.Invariant.{IsRecord}
use delta_x.Auction.Round.Reachable.{Operation, Reaches, opened, Reaches-IsSound}
use mathlib.Core.Path.{subst}

pub get_round-set_round :
    (hash other : ℕ) (round : AuctionRound) (rounds : List Entry)
    → get_round other (set_round hash round rounds)
      ≡ (if hash == other then some round else get_round other rounds)
unfolding get_round set_round
get_round-set_round hash other round [] = ground arith
get_round-set_round hash other round (e ∷ rest) =
    ground (arith, get_round-set_round hash other round rest)

-- Opening an order's round keeps a live one with its bids and every other order's round, and else
-- starts a new one without bids.
pub get_round-open_auction :
    (config : RoundConfig) (rounds : List Entry)
    → ((round : AuctionRound)
        → get_round config.order_hash rounds ≡ some round
        → is_open round ≡ true
        → get_round config.order_hash (open_auction config rounds) ≡ some round)
      × ((round : AuctionRound)
          → get_round config.order_hash rounds ≡ some round
          → is_open round ≡ false
          → get_round config.order_hash (open_auction config rounds) ≡ some (new_round config))
      × (get_round config.order_hash rounds ≡ none
          → get_round config.order_hash (open_auction config rounds) ≡ some (new_round config))
      × ((other : ℕ)
          → other ≢ config.order_hash
          → get_round other (open_auction config rounds) ≡ get_round other rounds)
unfolding open_auction
get_round-open_auction config rounds = (
  (λ round h live. ground (arith, h, live)),
  (λ round h dead. ground (
    arith,
    h,
    dead,
    get_round-set_round config.order_hash config.order_hash (new_round config) rounds,
  )),
  (λ h. ground (
    arith,
    h,
    get_round-set_round config.order_hash config.order_hash (new_round config) rounds,
  )),
  (λ other apart.
      ground (arith, apart, get_round-set_round config.order_hash other (new_round config) rounds)),
)

-- the quote that the operator signs for a settled round
abbrev pub IsQuoted : AuctioneerConfig → ℕ → SettledRound → ℕ → ℕ → SettledAuction → Type 0
IsQuoted operator hash published now filled auction =
    ((published.outcome.bump_bps ≡ 0) × (auction.quote ≡ none))
    ⊎ ((quote : SignedQuote) × (auction.quote ≡ some quote)
        × (quote.quote ≡ quote_of operator hash published now filled)
        × (quote.binding ≡ operator.binding))

-- A quote of a bump in the band has a digest.
quote_digest-quote_of :
    (viem : Viem) (operator : AuctioneerConfig) (hash : ℕ) (published : SettledRound)
    (now filled : ℕ)
    → published.outcome.bump_bps ≤ bps
    → (digest : ℕ) × (quote_digest viem
          (quote_of operator hash published now filled)
          operator.binding
        ≡ ok digest)
unfolding quote_digest assert_quote quote_of
quote_digest-quote_of viem operator hash published now filled h =
    elim (Result-cases
      (quote_digest viem (quote_of operator hash published now filled) operator.binding)) [
        | inl (digest, e) ↦ (digest, e)
        | inr (thrown, e) ↦ absurd (ground (arith, e))
      ]

mint-IsQuoted :
    (viem : Viem) (operator : AuctioneerConfig) (hash : ℕ) (published : SettledRound)
    (now filled : ℕ)
    → published.outcome.bump_bps ≤ bps
    → (auction : SettledAuction) × (mint viem operator hash published now filled ≡ ok auction)
      × (auction.round ≡ published)
      × IsQuoted operator hash published now filled auction
unfolding mint sign_quote
mint-IsQuoted viem operator hash published now filled h =
    let quote = quote_of operator hash published now filled in
    let (digest, digests) = quote_digest-quote_of viem operator hash published now filled h in
    let signed : SignedQuote = record {
      quote = quote;
      binding = operator.binding;
      digest = digest;
      signature = operator.signer.sign digest;
    } in
    elim (Bool-cases (published.outcome.bump_bps == 0)) [
      | inl e ↦ (
        record { round = published; quote = none },
        simp (mint, e) refl,
        refl,
        inl (ground (arith, e), refl),
      )
      | inr e ↦ (
        record { round = published; quote = some signed },
        simp (mint, e, sign_quote, digests) refl,
        refl,
        inr (signed, refl, refl, refl),
      )
    ]

-- However the calls on a round interleave: for a record that it publishes, the operator's part after
-- the settlement does not throw, and returns that record with no quote where its bump is 0, and else
-- with a quote for the order, the round's bump, the bound filler and the progress, under the
-- operator's binding.
pub mint-published :
    (viem : Viem) (config : RoundConfig) (op : Operation) (published : SettledRound)
    (operator : AuctioneerConfig) (hash now filled : ℕ)
    → Reaches viem (opened config) op
    → op.round.settled ≡ some published
    → (auction : SettledAuction) × (mint viem operator hash published now filled ≡ ok auction)
      × (auction.round ≡ published)
      × IsQuoted operator hash published now filled auction
unfolding record_of
mint-published viem config op published operator hash now filled reaches settles =
    let sound = Reaches-IsSound viem config op reaches in
    let (o, at, selects, e) = subst (IsRecord op.round) settles sound.recorded in
    mint-IsQuoted viem operator hash published now filled
      (subst (λ p. p.outcome.bump_bps ≤ bps) (sym e) (select_quote-le _ _ o selects))

is_droppable-is_open :
    (cutoff : ℕ) (round : AuctionRound) → is_open round ≡ true → is_droppable cutoff round ≡ false
unfolding is_droppable
is_droppable-is_open cutoff round live = ground (arith, live)

-- `prune` keeps every live round with its bids.
pub get_round-prune :
    (now age hash : ℕ) (rounds : List Entry) (round : AuctionRound)
    → get_round hash rounds ≡ some round
    → is_open round ≡ true
    → get_round hash (prune now age rounds) ≡ some round
unfolding get_round prune
get_round-prune now age hash [] round h live = h
get_round-prune now age hash (e ∷ rest) round h live =
    ground (
      arith,
      h,
      is_droppable-is_open (now - age) round live,
      get_round-prune now age hash rest round,
    )
