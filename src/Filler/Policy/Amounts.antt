-- ===== src/Filler/Policy/Amounts.antt =====
-- packages/beta-filler/src/policy.ts: the roundings of capFillAmount and of the rail.
use native.Mathlib.Nat.{mul-le-mul_left, mul-le-mul_right, div-mul-le_self}
use delta_x.Prelude.{
  Bool-cases, inl, inr, leb, leb→le, div, ℕ, ◌+◌, ◌-◌, ◌*◌, ◌/◌, ◌≤◌, ◌<◌, ◌≡◌, arith, ok,
  >>=-eq-ok,
}
use delta_x.Prelude.Arith.{ceil, ceil-le_iff, le-div_iff}
use delta_x.Filler.Policy.{cap_fill_amount, rail_rif_out, rail_usdrif_for, one_18}

cap_fill_amount_covers : (fill paid cap : ℕ) → paid * cap_fill_amount fill paid cap ≤ cap * fill
unfolding cap_fill_amount
cap_fill_amount_covers fill paid cap = elim (Bool-cases (leb paid cap)) [
  | inl within ↦ rw within (mul-le-mul_right fill (leb→le paid cap within))
  | inr over ↦
      let scaled = fill * cap / paid in
      let whole : paid * scaled ≤ cap * fill = grind (arith, div-mul-le_self (fill * cap) paid) in
      let lower : paid * (scaled - 1) ≤ paid * scaled = mul-le-mul_left paid (omega arith) in
      let shaved : paid * (scaled - 1) ≤ cap * fill = omega (arith, whole, lower) in
      ground (arith, over, shaved)
]

-- A fill scaled down to a cap pays at most the cap, rounded up.
pub cap_fill_amount_fits :
    (fill paid cap : ℕ) → 0 < fill → ceil (paid * cap_fill_amount fill paid cap) fill ≤ cap
cap_fill_amount_fits fill paid cap h =
    (ceil-le_iff (paid * cap_fill_amount fill paid cap) fill cap h).1
      (cap_fill_amount_covers fill paid cap)

div-eq-ok : (a b q : ℕ) → div a b ≡ ok q → (0 < b) × (q ≡ a / b)
div-eq-ok a b q e = ground (arith, e)

-- The USDRIF that railUsdrifFor asks for an amount of RIF buys back at least that amount through
-- railRifOut, at the same oracle price and haircut.
pub rail_rif_out-rail_usdrif_for :
    (rif p_actp haircut usdrif back : ℕ)
    → rail_usdrif_for rif p_actp haircut ≡ ok usdrif
    → rail_rif_out usdrif p_actp haircut ≡ ok back
    → rif ≤ back
unfolding rail_usdrif_for rail_rif_out
rail_rif_out-rail_usdrif_for rif p_actp haircut usdrif back e e' =
    let keep = 10_000 - 20 - haircut in
    let (pos, asked) =
      div-eq-ok (rif * p_actp * 10_000 + one_18 * keep - 1) (one_18 * keep) usdrif e in
    let (out, e1, r1) = >>=-eq-ok (div (usdrif * one_18 * keep) p_actp) _ e' in
    let (positive, got) = div-eq-ok (usdrif * one_18 * keep) p_actp out e1 in
    let (ten, final) = div-eq-ok out 10_000 back r1 in
    let enough : rif * p_actp * 10_000 ≤ usdrif * (one_18 * keep) =
      (ceil-le_iff (rif * p_actp * 10_000) (one_18 * keep) usdrif pos).0 (omega arith) in
    let bought : rif * 10_000 ≤ usdrif * one_18 * keep / p_actp =
      (le-div_iff (rif * 10_000) (usdrif * one_18 * keep) p_actp positive).1 (grind arith) in
    omega arith
