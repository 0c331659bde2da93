-- ===== src/Auction/Round/Invariant.antt =====
-- What every operation keeps of a round: its bids are genuine, one for each filler, within the cap,
-- and a published record is that of the bids.
use delta_x.Prelude.{
  ℕ, ◌≤◌, ◌≡◌, refl, arith, sym, Bool-cases, Option, none, some, List, [], ◌∷◌, true, length, All,
  Option-cases, inl, inr, ◌⊎◌, map,
}
use delta_x.Sdk.Order.{Address}
use mathlib.Core.Path.{subst}
use delta_x.Sdk.Selection.{AuctionOutcome, select_quote}
use delta_x.Sdk.Bid.{Viem}
use delta_x.Auction.Executor.{RoundBid}
use delta_x.Auction.Round.{
  RoundConfig, AuctionRound, SettledRound, Placement, placed, unplaced, lookup, displace, cap,
  placement, ended, land, verify, settle, abandon, put, quote_bid, record_of, filler_of,
  worst_after,
}
use delta_x.Auction.Round.Standing.{
  IsSingle, put-IsSingle, put-All, length-put, length-put_held, length-put_own, worst_after-lookup,
}

-- A bid for this round that its filler signed.
abbrev pub IsGenuine : Viem → RoundConfig → RoundBid → Type 0
IsGenuine viem config b =
    (b.bid.payload.order_hash ≡ config.order_hash)
    × (b.bid.payload.closes_at ≡ config.closes_at)
    × (verify viem b config.binding ≡ none)

-- The published record is that of the standing bids.
abbrev pub IsRecord : AuctionRound → Option SettledRound → Type 0
IsRecord round none = Unit {0}
IsRecord round (some published) =
    (outcome : AuctionOutcome) × (now : ℕ) × (select_quote (map quote_bid round.standing)
        (record { rule = round.config.rule; min_bidders = round.config.min_bidders })
      ≡ some outcome)
    × (published ≡ record_of round now outcome)

pub record IsSound (viem : Viem) (round : AuctionRound) : Type 0 where
  pub genuine : All (IsGenuine viem round.config) round.standing
  pub single : IsSingle round.standing
  pub capped : length round.standing ≤ cap round.config
  pub recorded : IsRecord round round.settled

pub Placement-cases :
    (p : Placement) → ((evict : Option Address) × (p ≡ placed evict)) ⊎ ((r : _) × (p ≡ unplaced r))
Placement-cases (placed evict) = inl (evict, refl)
Placement-cases (unplaced r) = inr (r, refl)

-- Landing leaves the round as it is, or puts the bid where `placement` says.
pub land-cases :
    (round : AuctionRound) (bid : RoundBid)
    → ((land round bid).0 ≡ round)
      ⊎ ((evict : Option Address) × (placement round bid ≡ placed evict)
          × (ended round ≡ none)
          × ((land round bid).0 ≡ record round { standing = put evict bid round.standing }))
unfolding land
land-cases round bid = elim (Option-cases (ended round)) [
  | inr (reason, e) ↦ inl (rw (land, e) refl)
  | inl e ↦ elim (Placement-cases (placement round bid)) [
    | inr (reason, p) ↦ inl (rw (land, e, p) refl)
    | inl (evict, p) ↦ inr (evict, p, e, rw (land, e, p) refl)
  ]
]

displace-put :
    (bid : RoundBid) (l : List RoundBid) (evict : Option Address)
    → displace bid l ≡ placed evict
    → length (put evict bid l) ≤ length l
unfolding displace
displace-put bid [] evict e = absurd (ground arith)
displace-put bid (b ∷ l) evict e =
    elim (Option-cases (lookup (filler_of (worst_after b l)) (b ∷ l))) [
      | inl absent ↦ absurd (worst_after-lookup b l absent)
      | inr (held, e') ↦
          ground (arith, length-put_held (filler_of (worst_after b l)) bid held (b ∷ l) e')
    ]

-- A placed bid keeps the map within the cap.
length-put_placed :
    (round : AuctionRound) (bid : RoundBid) (evict : Option Address)
    → placement round bid ≡ placed evict
    → length round.standing ≤ cap round.config
    → length (put evict bid round.standing) ≤ cap round.config
unfolding placement
length-put_placed round bid evict p fits =
    elim (Option-cases (lookup (filler_of bid) round.standing)) [
      | inl fresh ↦ ground (
        arith,
        fresh,
        length-put evict bid round.standing,
        displace-put bid round.standing evict,
        fits,
      )
      | inr (own, e) ↦ ground (arith, e, length-put_own bid own round.standing e, fits)
    ]

settled-ended : (round : AuctionRound) → ended round ≡ none → round.settled ≡ none
unfolding ended
settled-ended round live = ground (arith, live)

put-IsSound :
    (viem : Viem) (round : AuctionRound) (bid : RoundBid) (evict : Option Address)
    → IsSound viem round
    → IsGenuine viem round.config bid
    → placement round bid ≡ placed evict
    → ended round ≡ none
    → IsSound viem (record round { standing = put evict bid round.standing })
put-IsSound viem round bid evict sound genuine p live = record {
  genuine = put-All (IsGenuine viem round.config) evict bid round.standing sound.genuine genuine;
  single = put-IsSingle evict bid round.standing sound.single;
  capped = length-put_placed round bid evict p sound.capped;
  recorded = subst (IsRecord _) (sym (settled-ended round live)) tt;
}

pub land-IsSound :
    (viem : Viem) (round : AuctionRound) (bid : RoundBid)
    → IsSound viem round
    → IsGenuine viem round.config bid
    → IsSound viem (land round bid).0
land-IsSound viem round bid sound genuine = elim (land-cases round bid) [
  | inl e ↦ subst (IsSound viem) (sym e) sound
  | inr (evict, p, live, e) ↦
      subst (IsSound viem) (sym e) (put-IsSound viem round bid evict sound genuine p live)
]

-- `settle` leaves the round as it is, or records the outcome of the standing bids.
pub settle-cases :
    (round : AuctionRound) (now : ℕ)
    → ((settle round now).0 ≡ round)
      ⊎ ((outcome : AuctionOutcome) × (select_quote
              (map quote_bid round.standing)
              (record { rule = round.config.rule; min_bidders = round.config.min_bidders })
            ≡ some outcome)
          × (round.settled ≡ none)
          × ((settle round now).0 ≡ record round { settled = some (record_of round now outcome) }))
unfolding settle
settle-cases round now = elim (Option-cases round.settled) [
  | inr (published, e) ↦ inl (simp (settle, e) refl)
  | inl e ↦ elim (Bool-cases round.voided) [
    | inl v ↦ inl (simp (settle, e, v) refl)
    | inr v ↦
        elim (Option-cases (
          select_quote (map quote_bid round.standing)
            (record { rule = round.config.rule; min_bidders = round.config.min_bidders }))) [
              | inl q ↦ inl (simp (settle, e, v, q) refl)
              | inr (outcome, q) ↦ inr (outcome, q, e, simp (settle, e, v, q) refl)
            ]
  ]
]

pub settle-IsSound :
    (viem : Viem) (round : AuctionRound) (now : ℕ)
    → IsSound viem round
    → IsSound viem (settle round now).0
unfolding record_of
settle-IsSound viem round now sound = elim (settle-cases round now) [
  | inl e ↦ subst (IsSound viem) (sym e) sound
  | inr (outcome, selects, unsettled, e) ↦ subst (IsSound viem) (sym e) (record {
    genuine = sound.genuine;
    single = sound.single;
    capped = sound.capped;
    recorded = (outcome, now, selects, refl);
  })
]

pub abandon-IsSound :
    (viem : Viem) (round : AuctionRound) → IsSound viem round → IsSound viem (abandon round)
unfolding abandon
abandon-IsSound viem round sound = elim (Option-cases round.settled) [
  | inr (published, e) ↦ subst (IsSound viem) (simp (abandon, e) refl) sound
  | inl e ↦ subst (IsSound viem) (simp (abandon, e) refl) (voided e)
]
  where
    voided : round.settled ≡ none → IsSound viem (record round { voided = true })
    voided e = record {
      genuine = sound.genuine;
      single = sound.single;
      capped = sound.capped;
      recorded = subst (IsRecord _) (sym e) tt;
    }
