-- ===== src/Auction/Round/Landing.antt =====
-- What a landing changes.
use delta_x.Prelude.{
  ◌≡◌, refl, ◌∙◌, ap, Option, none, some, Bool, true, false, List, ◌==◌, if◌then◌else◌, ◌⊎◌, inl,
  inr, Option-cases,
}
use delta_x.Sdk.Order.{Address}
use delta_x.Sdk.Bid.{Viem}
use delta_x.Auction.Executor.{RoundBid}
use delta_x.Auction.Round.{
  RoundConfig, land, refuse, ended, placement, placed, lookup, filler_of, put,
}
use delta_x.Auction.Round.Standing.{IsSingle, lookup-put, lookup-put_evict}
use delta_x.Auction.Round.Invariant.{Placement-cases}
use delta_x.Auction.Round.Reachable.{Operation, Reaches, opened, Reaches-IsSound}

abbrev pub evicted : Option Address → Address → Bool
evicted none g = false
evicted (some key) g = key == g

lookup-put_any :
    (g : Address) (evict : Option Address) (bid : RoundBid) (l : List RoundBid)
    → IsSingle l
    → lookup g (put evict bid l)
      ≡ (if filler_of bid == g then some bid else if evicted evict g then none else lookup g l)
lookup-put_any g none bid l s = lookup-put g bid l s
lookup-put_any g (some key) bid l s = lookup-put_evict g key bid l s

-- However submissions, landings, settlement and abandonment interleave: a landing bid is accepted
-- where the round has not ended and `placement` has a place; then it stands as its filler's bid, the
-- displaced filler has none, and every other filler's bid is as before. Otherwise it is refused and
-- the round is as before.
pub land-standing :
    (viem : Viem) (config : RoundConfig) (op : Operation) (bid : RoundBid)
    → Reaches viem (opened config) op
    → (((land op.round bid).1.accepted ≡ false) × ((land op.round bid).0 ≡ op.round))
      ⊎ ((evict : Option Address) × (placement op.round bid ≡ placed evict)
          × (ended op.round ≡ none)
          × ((land op.round bid).1.accepted ≡ true)
          × ((g : Address)
              → lookup g (land op.round bid).0.standing ≡ (
                  if filler_of bid == g
                  then some bid
                  else if evicted evict g
                  then none
                  else lookup g op.round.standing)))
unfolding land refuse
land-standing viem config op bid reaches = elim (Option-cases (ended op.round)) [
  | inr (reason, e) ↦ inl (simp (land, refuse, e) refl, simp (land, e) refl)
  | inl e ↦ elim (Placement-cases (placement op.round bid)) [
    | inr (reason, p) ↦ inl (simp (land, refuse, e, p) refl, simp (land, e, p) refl)
    | inl (evict, p) ↦ inr (
      evict,
      p,
      e,
      simp (land, e, p) refl,
      λ g.
          let landed : (land op.round bid).0.standing ≡ put evict bid op.round.standing =
            simp (land, e, p) refl in
          ap (lookup g) landed
          ∙ lookup-put_any g evict bid op.round.standing
              (Reaches-IsSound viem config op reaches).single,
    )
  ]
]
