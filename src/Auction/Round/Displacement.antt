-- ===== src/Auction/Round/Displacement.antt =====
-- Which bid a full round gives up.
use delta_x.Prelude.{
  ◌≡◌, refl, arith, none, some, List, [], ◌∷◌, true, false, All, Bool-cases, Option-cases, sym, inl,
  inr, length, ◌≤◌,
}
use mathlib.Core.Path.{subst}
use delta_x.Sdk.Order.{Address}
use delta_x.Sdk.Selection.{Number}
use delta_x.Sdk.Bid.{Viem, verify_bid, assert_bid}
use delta_x.Auction.Executor.{RoundBid}
use delta_x.Auction.Round.{
  RoundConfig, AuctionRound, above, is_integer, bump_of, filler_of, worst_after, displace, placed,
  placement, cap, lookup, verify,
}
use delta_x.Auction.Round.Invariant.{IsGenuine}
use delta_x.Auction.Round.Reachable.{Operation, Reaches, opened, Reaches-IsSound}

above_trans :
    (a b c : Number)
    → is_integer b ≡ true
    → above a b ≡ false
    → above b c ≡ false
    → above a c ≡ false
unfolding above
above_trans a b c h p q = ground arith

above_asym : (a b : Number) → above a b ≡ true → above b a ≡ false
unfolding above
above_asym a b p = ground arith

above_irrefl : (a : Number) → above a a ≡ false
unfolding above
above_irrefl a = ground arith

abbrev pub IsInteger : RoundBid → Type 0
IsInteger b = is_integer (bump_of b) ≡ true

-- No bid of the list is above `worst`.
abbrev pub IsHighest : List RoundBid → RoundBid → Type 0
IsHighest l worst = All (λ b. above (bump_of b) (bump_of worst) ≡ false) l

worst_after-IsHighest :
    (w : RoundBid) (l : List RoundBid) → All IsInteger (w ∷ l) → IsHighest (w ∷ l) (worst_after w l)
unfolding worst_after
worst_after-IsHighest w [] h = (above_irrefl (bump_of w), tt)
worst_after-IsHighest w (b ∷ l) h = elim (Bool-cases (above (bump_of w) (bump_of b))) [
  | inl after ↦
      let e : worst_after w (b ∷ l) ≡ worst_after w l = simp (worst_after, after) refl in
      let rest = worst_after-IsHighest w l (h.0, h.1.1) in
      let lower = above_trans _ _ _ h.0 (above_asym _ _ after) rest.0 in
      subst (IsHighest (w ∷ b ∷ l)) (sym e) (rest.0, (lower, rest.1))
  | inr before ↦
      let e : worst_after w (b ∷ l) ≡ worst_after b l = simp (worst_after, before) refl in
      let rest = worst_after-IsHighest b l h.1 in
      subst (IsHighest (w ∷ b ∷ l)) (sym e) (above_trans _ _ _ h.1.0 before rest.0, rest)
]

displace-worst :
    (bid : RoundBid) (l : List RoundBid) (key : Address)
    → All IsInteger l
    → displace bid l ≡ placed (some key)
    → (worst : RoundBid) × (filler_of worst ≡ key)
      × (above (bump_of worst) (bump_of bid) ≡ true)
      × IsHighest l worst
unfolding displace
displace-worst bid [] key h e = absurd (ground arith)
displace-worst bid (b ∷ l) key h e =
    (worst_after b l, ground arith, ground arith, worst_after-IsHighest b l h)

IsGenuine-IsInteger :
    (viem : Viem) (config : RoundConfig) (b : RoundBid) → IsGenuine viem config b → IsInteger b
unfolding verify verify_bid assert_bid
IsGenuine-IsInteger viem config b genuine = ground (arith, genuine.2)

All-mono :
    {P Q : RoundBid → Type 0} (l : List RoundBid) → ((b : RoundBid) → P b → Q b) → All P l → All Q l
All-mono [] f a = tt
All-mono (b ∷ l) f a = (f b a.0, All-mono l f a.1)

placement-displace :
    (round : AuctionRound) (bid : RoundBid) (key : Address)
    → placement round bid ≡ placed (some key)
    → (lookup (filler_of bid) round.standing ≡ none)
      × (cap round.config ≤ length round.standing)
      × (displace bid round.standing ≡ placed (some key))
unfolding placement
placement-displace round bid key p = elim (Option-cases (lookup (filler_of bid) round.standing)) [
  | inl fresh ↦ (fresh, ground (arith, fresh), ground (arith, fresh))
  | inr (own, e) ↦ absurd (ground (arith, e))
]

-- However submissions, landings, settlement and abandonment interleave, a landing bid displaces
-- another only in a full round where its own filler has no bid, and the displaced one is above the
-- newcomer and such that no standing bid is above it.
pub placement-worst :
    (viem : Viem) (config : RoundConfig) (op : Operation) (bid : RoundBid) (key : Address)
    → Reaches viem (opened config) op
    → placement op.round bid ≡ placed (some key)
    → (lookup (filler_of bid) op.round.standing ≡ none)
      × (cap op.round.config ≤ length op.round.standing)
      × (worst : RoundBid) × (filler_of worst ≡ key)
      × (above (bump_of worst) (bump_of bid) ≡ true)
      × IsHighest op.round.standing worst
placement-worst viem config op bid key reaches p =
    let sound = Reaches-IsSound viem config op reaches in
    let (fresh, full, displaces) = placement-displace op.round bid key p in
    let whole_bids =
      All-mono op.round.standing (IsGenuine-IsInteger viem op.round.config) sound.genuine in
    let (worst, own, better, highest) =
      displace-worst bid op.round.standing key whole_bids displaces in
    (fresh, full, worst, own, better, highest)
