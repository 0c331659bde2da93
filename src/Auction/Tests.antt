-- ===== src/Auction/Tests.antt =====
-- A round with two places and three fillers, and the theorems at it.
use delta_x.Prelude.{
  ℕ, ◌≡◌, refl, Option, none, some, List, [], ◌∷◌, true, ◌≤◌, length, ◌⊎◌, false, if◌then◌else◌,
  ◌==◌, Result, ok, err,
}
use delta_x.Sdk.Order.{Address}
use delta_x.Sdk.Selection.{
  whole, second_price, select_quote, best_bids, keep_best, sort_bids, place, precedes, usable,
  outcome, clearing_bump, quorum,
}
use delta_x.Sdk.Bid.{
  Viem, QuoteBinding, QuoteSigner, BidPayload, SignedBid, sign_bid, bid_digest, bid_typehash,
  assert_bid, verify_bid, recover_bidder, is_address,
}
use delta_x.Auction.Executor.{RoundBid, Submission, signed_projection, verify_executor}
use delta_x.Auction.Round.{
  RoundConfig, SettledRound, new_round, admit, land, settle, verify, placement, placed, ended,
  is_closed, lookup, delete, put, displace, worst_after, above, equal, cap, record_of, quote_bid,
  refuse, filler_of, bump_of, abandon, status,
}
use delta_x.Auction.Round.Reachable.{
  Operation, Reaches, opened, stay, then_step, admitted, landed, settled, Reaches-IsSound,
  abandoned,
}
use delta_x.Auction.Round.Displacement.{placement-worst, IsHighest}
use delta_x.Auction.Round.Landing.{land-standing, evicted}
use delta_x.Auction.Round.Invariant.{IsSound}
use delta_x.Auction.Audit.{check_round}
use delta_x.Sdk.Quote.{assert_quote, quote_typehash, quote_digest, sign_quote}
use delta_x.Auction.Auctioneer.{
  AuctioneerConfig, Entry, SettledAuction, Tick, progress, quote_filler, quote_of, mint,
  settle_found, settle_auction, push_settled, settle_entries, settle_due, get_round, set_round,
}
use delta_x.Auction.Auctioneer.Due.{IsTicked, settle_due-IsTicked}
use delta_x.Auction.Audit.Published.{check_round-published, policy}

-- A signature is the signer's address before the digest.
abbrev first_word : List ℕ → Option ℕ
first_word [] = none
first_word (a ∷ rest) = some a

abbrev total : List ℕ → ℕ
total [] = 0
total (a ∷ rest) = a

abbrev plain_viem : Viem
plain_viem = record {
  keccak256 = total;
  encode_abi_parameters = λ types values. values;
  to_hex = λ text. [];
  recover_address = λ digest signature. first_word signature;
}

abbrev signer_of : Address → QuoteSigner
signer_of a = record { address = a; sign = λ digest. a ∷ digest ∷ [] }

abbrev binding : QuoteBinding
binding = record { quote_module = 9; chain_id = 1 }

abbrev payload : Address → ℕ → BidPayload
payload a n = record { order_hash = 7; filler = a; bump_bps = whole n; closes_at = 100 }

abbrev signed : Address → ℕ → SignedBid
signed a n = record { payload = payload a n; signature = a ∷ 0 ∷ [] }

runs : Unit {0}
unfolding signed_projection assert_bid bid_typehash bid_digest sign_bid recover_bidder is_address
    verify_bid verify_executor new_round admit land settle verify placement ended is_closed lookup
    delete put displace worst_after above equal cap record_of quote_bid refuse select_quote
    best_bids keep_best sort_bids place precedes usable outcome clearing_bump quorum opened
runs = tt

abbrev round_bid : Address → ℕ → RoundBid
round_bid a n = record { bid = signed a n; executor = none; executor_signature = none }

abbrev submission : Address → ℕ → Submission
submission a n = record { signed = round_bid a n; commitment = some 1 }

abbrev config : RoundConfig
config = record {
  order_hash = 7;
  closes_at = 100;
  binding = binding;
  rule = none;
  min_bidders = none;
  max_bids = some 2;
  prev_filled = none;
}

-- Three bids in flight, then two of them landed.
abbrev op_full : Operation
op_full = record {
  round = (land (land (new_round config) (round_bid 1 500)).0 (round_bid 2 400)).0;
  in_flight = round_bid 3 300 ∷ [];
}

full_reached : Reaches plain_viem (opened config) op_full
unfolding runs
full_reached =
    then_step
      (then_step
        (then_step
          (then_step (then_step stay (admitted 10 (submission 1 500) refl refl))
            (admitted 20 (submission 2 400) refl refl))
          (admitted 30 (submission 3 300) refl refl))
        (landed (round_bid 3 300 ∷ round_bid 2 400 ∷ []) [] (round_bid 1 500)))
      (landed (round_bid 3 300 ∷ []) [] (round_bid 2 400))

abbrev op_settled_later : Operation
op_settled_later = record {
  round = abandon (settle (land op_full.round (round_bid 3 300)).0 120).0;
  in_flight = [];
}

abbrev op_landed : Operation
op_landed = record { round = (land op_full.round (round_bid 3 300)).0; in_flight = [] }

abbrev op_settled : Operation
op_settled = record {
  round = (settle (land op_full.round (round_bid 3 300)).0 120).0;
  in_flight = [];
}

landed_reached : Reaches plain_viem (opened config) op_landed
unfolding runs
landed_reached = then_step full_reached (landed [] [] (round_bid 3 300))

settled_reached : Reaches plain_viem (opened config) op_settled
settled_reached = then_step landed_reached (settled 120)

-- The price is the runner-up's bid.
abbrev published : SettledRound
published = record {
  order_hash = 7;
  binding = binding;
  outcome = record {
    winner = 3;
    bump_bps = 400;
    winning_bid_bps = 300;
    runner_up_bps = some 400;
    bidders = 2;
    rule = second_price;
  };
  bids = round_bid 2 400 ∷ round_bid 3 300 ∷ [];
  settled_at = 120;
  rule = second_price;
  min_bidders = none;
}

publishes : op_settled.round.settled ≡ some published
unfolding runs
publishes = refl

Reaches-IsSound_example : IsSound plain_viem op_full.round
Reaches-IsSound_example = Reaches-IsSound plain_viem config op_full full_reached

check_round-published_example : check_round plain_viem published (policy config) ≡ none
check_round-published_example =
    check_round-published plain_viem config op_settled published settled_reached publishes

placement_full : placement op_full.round (round_bid 3 300) ≡ placed (some 1)
unfolding runs
placement_full = refl

placement-worst_example :
    (lookup 3 op_full.round.standing ≡ none)
    × (2 ≤ length op_full.round.standing)
    × (worst : RoundBid) × (filler_of worst ≡ 1)
    × (above (bump_of worst) (whole 300) ≡ true)
    × IsHighest op_full.round.standing worst
unfolding runs
placement-worst_example =
    placement-worst plain_viem config op_full (round_bid 3 300) 1 full_reached placement_full

abandoned_later : Reaches plain_viem op_settled op_settled_later
unfolding runs
abandoned_later = then_step stay abandoned

land-standing_example :
    (((land op_full.round (round_bid 3 300)).1.accepted ≡ false)
      × ((land op_full.round (round_bid 3 300)).0 ≡ op_full.round))
    ⊎ ((evict : Option Address) × (placement op_full.round (round_bid 3 300) ≡ placed evict)
        × (ended op_full.round ≡ none)
        × ((land op_full.round (round_bid 3 300)).1.accepted ≡ true)
        × ((g : Address)
            → lookup g (land op_full.round (round_bid 3 300)).0.standing ≡ (
                if 3 == g
                then some (round_bid 3 300)
                else if evicted evict g
                then none
                else lookup g op_full.round.standing)))
land-standing_example = land-standing plain_viem config op_full (round_bid 3 300) full_reached

abbrev operator : AuctioneerConfig
operator = record {
  binding = binding;
  signer = signer_of 5;
  quote_ttl_seconds = none;
  bind_to_winner = none;
}

due_runs : Unit {0}
unfolding runs assert_quote quote_typehash quote_digest sign_quote progress quote_filler quote_of
    mint settle_found settle_auction push_settled settle_entries settle_due get_round set_round
    status
due_runs = tt

-- The full round of order 7, closed at 100, and a round of order 8 that closes at 200.
abbrev two_rounds : List Entry
unfolding due_runs
two_rounds =
    record { order_hash = 7; round = op_full.round }
    ∷ record {
      order_hash = 8;
      round = new_round (record config { order_hash = 8; closes_at = 200 });
    }
    ∷ []

abbrev at_120 : ℕ → Tick
at_120 hash = record { now = 120; later = 121; filled = none }

abbrev answered : Result (List SettledAuction) → List SettledAuction
answered (ok out) = out
answered (err thrown) = []

abbrev settled_auctions : List SettledAuction
unfolding due_runs
settled_auctions = answered (settle_due plain_viem operator at_120 two_rounds).1

one_settles : length settled_auctions ≡ 1
unfolding due_runs
one_settles = refl

settle_due-IsTicked_example :
    IsTicked at_120 two_rounds two_rounds (settle_due plain_viem operator at_120 two_rounds).0
unfolding due_runs
settle_due-IsTicked_example =
    settle_due-IsTicked plain_viem operator at_120 two_rounds settled_auctions (refl, (refl, tt))
      refl
