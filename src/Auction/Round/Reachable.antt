-- ===== src/Auction/Round/Reachable.antt =====
-- Every order in which bids are admitted, land, and the round is settled or abandoned, as a
-- relation; and what holds of the round in all of them.
use mathlib.Core.Path.{subst}
use delta_x.Prelude.{
  ℕ, ◌≡◌, arith, ap, sym, none, List, [], ◌∷◌, ◌++◌, All, inl, inr, refl, ◌∙◌, some,
}
use delta_x.Sdk.Bid.{Viem}
use delta_x.Auction.Executor.{RoundBid, Submission, signed_projection}
use delta_x.Auction.Round.{
  RoundConfig, AuctionRound, SettledRound, ended, new_round, admit, land, verify, settle, abandon,
}
use delta_x.Auction.Round.Invariant.{
  IsGenuine, IsSound, land-cases, settle-cases, land-IsSound, settle-IsSound, abandon-IsSound,
}

-- A round, and the bids whose checks have passed and that have not landed yet.
pub record Operation : Type 0 where
  pub round : AuctionRound
  pub in_flight : List RoundBid

pub data Step (viem : Viem) : Operation → Operation → Type 0 where
  admitted :
      {round : AuctionRound} {flight : List RoundBid} (now : ℕ) (raw : Submission)
      → admit round now (signed_projection raw) ≡ none
      → verify viem (signed_projection raw) round.config.binding ≡ none
      → Step viem
          (record { round = round; in_flight = flight })
          (record { round = round; in_flight = signed_projection raw ∷ flight })
  landed :
      {round : AuctionRound} (before after : List RoundBid) (bid : RoundBid)
      → Step viem
          (record { round = round; in_flight = before ++ (bid ∷ after) })
          (record { round = (land round bid).0; in_flight = before ++ after })
  settled :
      {round : AuctionRound} {flight : List RoundBid} (now : ℕ)
      → Step viem
          (record { round = round; in_flight = flight })
          (record { round = (settle round now).0; in_flight = flight })
  abandoned :
      {round : AuctionRound} {flight : List RoundBid}
      → Step viem
          (record { round = round; in_flight = flight })
          (record { round = abandon round; in_flight = flight })

pub data Reaches (viem : Viem) : Operation → Operation → Type 0 where
  stay : {op : Operation} → Reaches viem op op
  then_step : {a b c : Operation} → Reaches viem a b → Step viem b c → Reaches viem a c

unfoldable pub opened : RoundConfig → Operation
opened config = record { round = new_round config; in_flight = [] }

land-config : (round : AuctionRound) (bid : RoundBid) → (land round bid).0.config ≡ round.config
land-config round bid = elim (land-cases round bid) [
  | inl e ↦ ap (λ r. r.config) e
  | inr (evict, p, live, e) ↦ ap (λ r. r.config) e
]

settle-config : (round : AuctionRound) (now : ℕ) → (settle round now).0.config ≡ round.config
settle-config round now = elim (settle-cases round now) [
  | inl e ↦ ap (λ r. r.config) e
  | inr (outcome, q, e', e) ↦ ap (λ r. r.config) e
]

abandon-config : (round : AuctionRound) → (abandon round).config ≡ round.config
unfolding abandon
abandon-config round = ground arith

All-removed :
    (P : RoundBid → Type 0) (before after : List RoundBid) (bid : RoundBid)
    → All P (before ++ (bid ∷ after))
    → P bid × All P (before ++ after)
All-removed P [] after bid a = a
All-removed P (b ∷ before) after bid a =
    let (p, rest) = All-removed P before after bid a.1 in (p, (a.0, rest))

admit-IsGenuine :
    (viem : Viem) (round : AuctionRound) (now : ℕ) (bid : RoundBid)
    → admit round now bid ≡ none
    → verify viem bid round.config.binding ≡ none
    → IsGenuine viem round.config bid
unfolding admit
admit-IsGenuine viem round now bid admits verifies =
    (ground (arith, admits), ground (arith, admits), verifies)

-- The round is sound, and the bids in flight are genuine.
abbrev pub IsSafe : Viem → Operation → Type 0
IsSafe viem op = IsSound viem op.round × All (IsGenuine viem op.round.config) op.in_flight

Step-IsSafe : (viem : Viem) (a b : Operation) → Step viem a b → IsSafe viem a → IsSafe viem b
Step-IsSafe viem _ _ (admitted {round} {flight} now raw admits verifies) (sound, flying) =
    (sound, (admit-IsGenuine viem round now (signed_projection raw) admits verifies, flying))
Step-IsSafe viem _ _ (landed {round} before after bid) (sound, flying) =
    let (genuine, rest) = All-removed (IsGenuine viem round.config) before after bid flying in
    (
      land-IsSound viem round bid sound genuine,
      subst (λ c. All (IsGenuine viem c) (before ++ after)) (sym (land-config round bid)) rest,
    )
Step-IsSafe viem _ _ (settled {round} {flight} now) (sound, flying) = (
  settle-IsSound viem round now sound,
  subst (λ c. All (IsGenuine viem c) flight) (sym (settle-config round now)) flying,
)
Step-IsSafe viem _ _ (abandoned {round} {flight}) (sound, flying) = (
  abandon-IsSound viem round sound,
  subst (λ c. All (IsGenuine viem c) flight) (sym (abandon-config round)) flying,
)

Reaches-IsSafe : (viem : Viem) (a b : Operation) → Reaches viem a b → IsSafe viem a → IsSafe viem b
Reaches-IsSafe viem a _ stay safe = safe
Reaches-IsSafe viem a c (then_step {b = b} before step) safe =
    Step-IsSafe viem b c step (Reaches-IsSafe viem a b before safe)

opened-IsSafe : (viem : Viem) (config : RoundConfig) → IsSafe viem (opened config)
unfolding opened new_round
opened-IsSafe viem config =
    (record { genuine = tt; single = tt; capped = omega arith; recorded = tt }, tt)

-- However submissions, landings, settlement and abandonment interleave, the standing bids of a round
-- are bids for it that their fillers signed, one for each filler, and at most the cap; and a
-- published record is that of the standing bids, priced by `selectQuote`.
pub Reaches-IsSound :
    (viem : Viem) (config : RoundConfig) (op : Operation)
    → Reaches viem (opened config) op
    → IsSound viem op.round
Reaches-IsSound viem config op reaches =
    (Reaches-IsSafe viem (opened config) op reaches (opened-IsSafe viem config)).0

Step-config : (viem : Viem) (a b : Operation) → Step viem a b → b.round.config ≡ a.round.config
Step-config viem _ _ (admitted now raw admits verifies) = refl
Step-config viem _ _ (landed {round} before after bid) = land-config round bid
Step-config viem _ _ (settled {round} now) = settle-config round now
Step-config viem _ _ (abandoned {round}) = abandon-config round

Reaches-same_config :
    (viem : Viem) (a b : Operation) → Reaches viem a b → b.round.config ≡ a.round.config
Reaches-same_config viem a _ stay = refl
Reaches-same_config viem a c (then_step {b = b} before step) =
    Step-config viem b c step ∙ Reaches-same_config viem a b before

pub Reaches-config :
    (viem : Viem) (config : RoundConfig) (op : Operation)
    → Reaches viem (opened config) op
    → op.round.config ≡ config
unfolding opened new_round
Reaches-config viem config op reaches = Reaches-same_config viem (opened config) op reaches

-- A settled round stays as it is.
Step-settled :
    (viem : Viem) (a b : Operation) (published : SettledRound)
    → Step viem a b
    → a.round.settled ≡ some published
    → b.round ≡ a.round
unfolding land ended settle abandon
Step-settled viem _ _ published (admitted now raw admits verifies) h = refl
Step-settled viem _ _ published (landed {round} before after bid) h = simp (land, ended, h) refl
Step-settled viem _ _ published (settled {round} now) h = simp (settle, h) refl
Step-settled viem _ _ published (abandoned {round}) h = simp (abandon, h) refl

-- Once a round has published a record, no submission, landing, settlement or abandonment changes it.
pub Reaches-settled :
    (viem : Viem) (a b : Operation) (published : SettledRound)
    → Reaches viem a b
    → a.round.settled ≡ some published
    → b.round ≡ a.round
Reaches-settled viem a _ published stay h = refl
Reaches-settled viem a c published (then_step {b = b} before step) h =
    let e = Reaches-settled viem a b published before h in
    Step-settled viem b c published step (ap (λ r. r.settled) e ∙ h) ∙ e
