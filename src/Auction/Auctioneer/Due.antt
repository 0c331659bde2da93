-- ===== src/Auction/Auctioneer/Due.antt =====
-- packages/auction/src/auctioneer.ts: what settleDue leaves in the map of rounds.
use mathlib.Core.Path.{subst}
use delta_x.Prelude.{
  ℕ, ◌≡◌, refl, arith, Option, none, some, List, [], ◌∷◌, false, ◌==◌, ==→eq, if◌then◌else◌, Result,
  ok, err, >>=-eq-ok, Bool-cases, inl, inr, ap, ◌∙◌,
}
use delta_x.Sdk.Bid.{Viem}
use delta_x.Auction.Round.{AuctionRound, settle}
use delta_x.Auction.Auctioneer.{
  AuctioneerConfig, Entry, SettledAuction, Tick, get_round, settle_auction, settle_found,
  push_settled, is_due, settle_entries, settle_due,
}
use delta_x.Auction.Auctioneer.Quotes.{get_round-set_round}

-- no order twice
abbrev pub IsMap : List Entry → Type 0
IsMap [] = Unit
IsMap (e ∷ rest) = (get_round e.order_hash rest ≡ none) × IsMap rest

-- What a tick makes of a round: it settles where it is due.
abbrev pub ticked : Tick → AuctionRound → AuctionRound
ticked tick round = if is_due round tick.now then (settle round tick.now).0 else round

-- The round of an order after a settlement of another or of the same.
get_round-settle_auction :
    (viem : Viem) (config : AuctioneerConfig) (hash other now later : ℕ) (filled : Option ℕ)
    (rounds : List Entry) (round : AuctionRound)
    → get_round hash rounds ≡ some round
    → get_round other (settle_auction viem config hash now later filled rounds).0
      ≡ (if hash == other then some (settle round now).0 else get_round other rounds)
unfolding settle_auction settle_found
get_round-settle_auction viem config hash other now later filled rounds round e =
    ap
      (λ (found : Option AuctionRound).
        get_round other (settle_found viem config hash now later filled rounds found).0)
      e
    ∙ get_round-set_round hash other (settle round now).0 rounds

-- A loop that ends without a throw went on after its first entry.
push_settled-ok :
    (answer : Result (Option SettledAuction)) (rounds : List Entry)
    (rest : List Entry × Result (List SettledAuction)) (out : List SettledAuction)
    → (push_settled answer rounds rest).1 ≡ ok out
    → ((push_settled answer rounds rest).0 ≡ rest.0)
      × ((tail : List SettledAuction) × (rest.1 ≡ ok tail))
unfolding push_settled
push_settled-ok (err thrown) rounds rest out e = cc e
push_settled-ok (ok none) rounds rest out e = (refl, (out, e))
push_settled-ok (ok (some auction)) rounds rest out e =
    let (tail, e1, e2) = >>=-eq-ok rest.1 _ e in (refl, (tail, e1))

-- The map `final` holds every round of `entries` as its tick makes it, and else what `rounds` holds.
abbrev pub IsTicked : (ℕ → Tick) → List Entry → List Entry → List Entry → Type 0
IsTicked clock entries rounds final =
    (h : ℕ)
    → (get_round h entries ≡ none → get_round h final ≡ get_round h rounds)
      × ((round : AuctionRound)
          → get_round h entries ≡ some round
          → get_round h final ≡ some (ticked (clock h) round))

abbrev Holds : List Entry → List Entry → Type 0
Holds entries rounds =
    (h : ℕ) (round : AuctionRound)
    → get_round h entries ≡ some round
    → get_round h rounds ≡ some round

-- `rounds` with the round of the first entry as its tick makes it
abbrev IsStep : (ℕ → Tick) → Entry → List Entry → List Entry → Type 0
IsStep clock e rounds next =
    (h : ℕ)
    → get_round h next ≡ (
        if e.order_hash == h
        then some (ticked (clock e.order_hash) e.round)
        else get_round h rounds)

IsTicked-step :
    (clock : ℕ → Tick) (e : Entry) (entries rounds next final : List Entry)
    → get_round e.order_hash entries ≡ none
    → IsStep clock e rounds next
    → IsTicked clock entries next final
    → IsTicked clock (e ∷ entries) rounds final
unfolding get_round
IsTicked-step clock e entries rounds next final alone step rest h =
    elim (Bool-cases (e.order_hash == h)) [
      | inl same ↦
          let p : e.order_hash ≡ h = ==→eq e.order_hash h same in
          let gone : get_round h entries ≡ none =
            subst (λ (k : ℕ). get_round k entries ≡ none) p alone in
          let there : get_round h final ≡ some (ticked (clock e.order_hash) e.round) =
            (rest h).0 gone ∙ step h ∙ simp same refl in
          (
            λ t. cc (simp same at t),
            λ round t.
                let q : e.round ≡ round = cc (simp same at t) in
                there
                ∙ ap (λ (k : ℕ). some (ticked (clock k) e.round)) p
                ∙ ap (λ (r : AuctionRound). some (ticked (clock h) r)) q,
          )
      | inr other ↦ (
        λ t. (rest h).0 (simp other at t) ∙ step h ∙ simp other refl,
        λ round t. (rest h).1 round (simp other at t),
      )
    ]

Holds-step :
    (clock : ℕ → Tick) (e : Entry) (entries rounds next : List Entry)
    → get_round e.order_hash entries ≡ none
    → IsStep clock e rounds next
    → Holds (e ∷ entries) rounds
    → Holds entries next
unfolding get_round
Holds-step clock e entries rounds next alone step held h round t =
    elim (Bool-cases (e.order_hash == h)) [
      | inl same ↦
          let p : e.order_hash ≡ h = ==→eq e.order_hash h same in
          cc (t, subst (λ (k : ℕ). get_round k entries ≡ none) p alone)
      | inr other ↦ step h ∙ simp other (held h round (simp other t))
    ]

IsStep-waiting :
    (clock : ℕ → Tick) (e : Entry) (rounds : List Entry)
    → get_round e.order_hash rounds ≡ some e.round
    → is_due e.round (clock e.order_hash).now ≡ false
    → IsStep clock e rounds rounds
IsStep-waiting clock e rounds own waits h = elim (Bool-cases (e.order_hash == h)) [
  | inl same ↦
      let p : e.order_hash ≡ h = ==→eq e.order_hash h same in
      simp (same, waits) (subst (λ (k : ℕ). get_round k rounds ≡ some e.round) p own)
  | inr other ↦ simp other refl
]

settle_entries-IsTicked :
    (viem : Viem) (config : AuctioneerConfig) (clock : ℕ → Tick) (entries rounds : List Entry)
    (out : List SettledAuction)
    → IsMap entries
    → Holds entries rounds
    → (settle_entries viem config clock entries rounds).1 ≡ ok out
    → IsTicked clock entries rounds (settle_entries viem config clock entries rounds).0
unfolding settle_entries get_round
settle_entries-IsTicked viem config clock [] rounds out m held e = λ h. (λ t. refl, λ round t. cc t)
settle_entries-IsTicked viem config clock (en ∷ entries) rounds out m held e =
    let tick = clock en.order_hash in
    let own : get_round en.order_hash rounds ≡ some en.round =
      held en.order_hash en.round (ground arith) in
    elim (Bool-cases (is_due en.round tick.now)) [
      | inl due ↦
          let after =
            settle_auction viem config en.order_hash tick.now tick.later tick.filled rounds in
          let step : IsStep clock en rounds after.0 = λ h.
            get_round-settle_auction viem config en.order_hash h tick.now tick.later tick.filled
              rounds en.round own
            ∙ simp due refl in
          let rest = settle_entries viem config clock entries after.0 in
          let (same, (tail, ended)) = push_settled-ok after.1 after.0 rest out (simp due at e) in
          let whole = IsTicked-step clock en entries rounds after.0 rest.0 m.0 step (
            settle_entries-IsTicked viem config clock entries after.0 tail m.1
              (Holds-step clock en entries rounds after.0 m.0 step held) ended) in
          simp (due, same) whole
      | inr waits ↦
          let step : IsStep clock en rounds rounds = IsStep-waiting clock en rounds own waits in
          let rest = settle_entries viem config clock entries rounds in
          let whole = IsTicked-step clock en entries rounds rounds rest.0 m.0 step (
            settle_entries-IsTicked viem config clock entries rounds out m.1
              (Holds-step clock en entries rounds rounds m.0 step held) (simp waits at e)) in
          simp waits whole
    ]

-- Where the map has no order twice and no call of the loop throws, settleDue settles every round that
-- is open and closed for bids by the clock it reads, as the round's own settlement does, and leaves
-- every other round and every order without a round as it was.
pub settle_due-IsTicked :
    (viem : Viem) (config : AuctioneerConfig) (clock : ℕ → Tick) (rounds : List Entry)
    (out : List SettledAuction)
    → IsMap rounds
    → (settle_due viem config clock rounds).1 ≡ ok out
    → IsTicked clock rounds rounds (settle_due viem config clock rounds).0
unfolding settle_due
settle_due-IsTicked viem config clock rounds out m e =
    settle_entries-IsTicked viem config clock rounds rounds out m (λ h round t. t) e
