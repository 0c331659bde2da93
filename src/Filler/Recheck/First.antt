-- ===== src/Filler/Recheck/First.antt =====
-- packages/beta-filler/src/recheck.ts: the loop of profitableAt and its answer.
use delta_x.Prelude.{
  ℕ, zero, suc, ◌+◌, ◌≤◌, ◌<◌, ◌≡◌, refl, arith, Option, none, some, Bool, true, false, List, ◌∷◌,
  leb, leb→le, Bool-cases, inl, inr, ◌==◌, ==→eq,
}
use delta_x.Sdk.Order.{LegIn, LegOut}
use delta_x.Filler.Recheck.{
  RecheckQuery, passes_at, search_from, is_priced, or_floor, finish, profitable_legs,
}

-- The answer is the first second from `t` to the end of the horizon that passes, if there is one.
abbrev pub IsFirst : (ℕ → Bool) → ℕ → ℕ → Option ℕ → Type 0
IsFirst test t last none = (s : ℕ) → t ≤ s → s ≤ last → test s ≡ false
IsFirst test t last (some found) =
    (t ≤ found)
    × (found ≤ last)
    × (test found ≡ true)
    × ((s : ℕ) → t ≤ s → s < found → test s ≡ false)

-- A test that fails at `t` and from the next second on fails from `t` on.
fails_from :
    (test : ℕ → Bool) (t s : ℕ)
    → test t ≡ false
    → (t + 1 ≤ s → test s ≡ false)
    → t ≤ s
    → test s ≡ false
fails_from test t s fails later h = elim (Bool-cases (s == t)) [
  | inl same ↦ rw (==→eq s t same) fails
  | inr other ↦ later (ground (arith, other))
]

-- One second that does not pass before it.
IsFirst-suc :
    (test : ℕ → Bool) (t last : ℕ) (answer : Option ℕ)
    → test t ≡ false
    → IsFirst test (t + 1) last answer
    → IsFirst test t last answer
IsFirst-suc test t last none fails rest =
    λ s h g. fails_from test t s fails (λ later. rest s later g) h
IsFirst-suc test t last (some found) fails (after, within, passes, before) =
    (omega arith, within, passes, λ s h g. fails_from test t s fails (λ later. before s later g) h)

search_from-IsFirst :
    (fuel : ℕ) (q : RecheckQuery) (leg_in : LegIn) (leg_out : LegOut) (t : ℕ)
    → q.now_s + q.horizon_s + 1 < fuel + t
    → t ≤ q.now_s + q.horizon_s + 1
    → (answer : Option ℕ) × (search_from fuel q leg_in leg_out t ≡ some answer)
      × IsFirst (passes_at q leg_in leg_out) t (q.now_s + q.horizon_s) answer
unfolding search_from
search_from-IsFirst zero q leg_in leg_out t h g = absurd (omega arith)
search_from-IsFirst (suc fuel) q leg_in leg_out t h g =
    let last = q.now_s + q.horizon_s in
    let test = passes_at q leg_in leg_out in
    elim (Bool-cases (leb t last)) [
      | inr over ↦ (none, simp over refl, λ s after within. absurd (ground (arith, over)))
      | inl within ↦ elim (Bool-cases (test t)) [
        | inl passes ↦ (
          some t,
          simp (within, passes) refl,
          (omega arith, leb→le t last within, passes, λ s after before. absurd (omega arith)),
        )
        | inr fails ↦
            let (answer, e, first) =
              search_from-IsFirst fuel q leg_in leg_out (t + 1) (omega arith)
                (ground (arith, within)) in
            (answer, simp (within, fails, e) refl, IsFirst-suc test t last answer fails first)
      ]
    ]

-- The call always answers; an order that it can price gets the first second of the horizon at which
-- the gate passes, or the floor time where none does, and any other order gets no time.
abbrev pub IsAnswer : RecheckQuery → LegIn → LegOut → Option ℕ → Type 0
IsAnswer q leg_in leg_out answer =
    (is_priced q leg_in leg_out ≡ true
      → (first : Option ℕ) × IsFirst (passes_at q leg_in leg_out) q.now_s (q.now_s + q.horizon_s)
          first
        × (answer ≡ or_floor q first))
    × (is_priced q leg_in leg_out ≡ false → answer ≡ none)

pub profitable_legs-IsAnswer :
    (q : RecheckQuery) (leg_in : LegIn) (leg_out : LegOut) (legs_in : List LegIn)
    (legs_out : List LegOut)
    → (answer : Option ℕ) × (profitable_legs q (leg_in ∷ legs_in) (leg_out ∷ legs_out)
        ≡ some answer)
      × IsAnswer q leg_in leg_out answer
unfolding profitable_legs finish
profitable_legs-IsAnswer q leg_in leg_out legs_in legs_out =
    elim (Bool-cases (is_priced q leg_in leg_out)) [
      | inl priced ↦
          let (first, e, spec) =
            search_from-IsFirst (q.horizon_s + 2) q leg_in leg_out q.now_s (omega arith)
              (omega arith) in
          (or_floor q first, simp (priced, e) refl, (λ p. (first, spec, refl), λ p. cc (p, priced)))
      | inr unpriced ↦ (none, simp unpriced refl, (λ p. cc (p, unpriced), λ p. refl))
    ]
