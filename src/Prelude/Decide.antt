-- ===== src/Prelude/Decide.antt =====
-- Boolean tests beside the propositions that they decide.
use mathlib.Core.Path.{◌≡◌}
use mathlib.Core.Logic.{◌⊎◌, inl, inr}
use mathlib.Core.Bool.{Bool, true, false}
use mathlib.Core.List.{List, [], ◌∷◌}
use native.Mathlib.Omega.{arith}
use delta_x.Prelude.Tests.{Bool-cases}
use delta_x.Prelude.Lists.{any, all, All}

-- Some element has the property.
abbrev pub Some : {A : Type 0} → (A → Type 0) → List A → Type 0
Some P [] = ⊥
Some P (x ∷ xs) = P x ⊎ Some P xs

-- A test tells whether a proposition holds.
abbrev pub Tells : Bool → Type 0 → Type 0
Tells test P = (test ≡ true → P) × (test ≡ false → ¬ P)

module _ {A : Type 0} (test : A → Bool) (P : A → Type 0)
    (each : (x : A) → Tells (test x) (P x)) where
  pub any-Tells : (xs : List A) → Tells (any test xs) (Some P xs)
  any-Tells [] = (λ e. cc, λ e none. none)
  any-Tells (x ∷ xs) =
      let (holds, fails) = each x in
      let (there, not_there) = any-Tells xs in
      elim (Bool-cases (test x)) [
        | inl here ↦ (λ e. inl (holds here), λ e. absurd (ground (arith, here, e)))
        | inr other ↦ (
          λ e. inr (there (ground (arith, other, e))),
          λ e s. elim s [
            | inl p ↦ fails other p
            | inr rest ↦ not_there (ground (arith, other, e)) rest
          ],
        )
      ]

  pub all-Tells : (xs : List A) → Tells (all test xs) (All P xs)
  all-Tells [] = (λ e. tt, λ e. cc)
  all-Tells (x ∷ xs) =
      let (holds, fails) = each x in
      let (rest, not_rest) = all-Tells xs in
      elim (Bool-cases (test x)) [
        | inl here ↦ (
          λ e. (holds here, rest (ground (arith, here, e))),
          λ e (p, ps). not_rest (ground (arith, here, e)) ps,
        )
        | inr other ↦ (λ e. absurd (ground (arith, other, e)), λ e (p, ps). fails other p)
      ]
