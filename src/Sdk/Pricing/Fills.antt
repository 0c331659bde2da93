-- ===== src/Sdk/Pricing/Fills.antt =====
-- A run of partial fills of one order, each at its own time, basefee and bid: what they deliver and
-- what they are owed together.
use native.Mathlib.Nat.{
  mul-le-mul_left, mul-le-mul_right, div-mul-le_self, mul-div_left, div-eq_of_lt,
  le_of_mul-le-mul_right, add_assoc,
}
use delta_x.Prelude.{
  ℕ, ◌+◌, ◌-◌, ◌*◌, ◌/◌, ◌≤◌, ◌<◌, ◌≡◌, ◌||◌, not, true, Option, List, [], ◌∷◌, arith, Result, ok,
  ◌>>=◌, ◌==◌, if◌then◌else◌, Result-cases, inl, inr, ap, ◌∙◌,
}
use delta_x.Prelude.Arith.{ceil, ceil-le_iff, ceil_mono, div_mono, ceil_exact, ceil-zero}
use delta_x.Sdk.Order.{Order, LegIn, LegOut, sell, buy, is_buy}
use delta_x.Sdk.Pricing.{
  anchor_total, leg_amount_out, leg_input_owed, fixed_out, fixed_in, tick_out, tick_in,
}
use delta_x.Sdk.Pricing.Ceil.{ceil_div-ceil}
use delta_x.Sdk.Pricing.Bounds.{tick_out_bounds, tick_in_bounds}

-- One fill: its amount in anchor units, and the context it is priced in.
pub record Fill : Type 0 where
  pub amount : ℕ
  pub at : ℕ
  pub base_fee : ℕ
  pub fee : Option ℕ

abbrev pub filled : List Fill → ℕ
filled [] = 0
filled (f ∷ fs) = f.amount + filled fs

-- What the fills deliver on one output leg, from a progress of `prev` on.
unfoldable pub total_out : Order → LegOut → ℕ → ℕ → List Fill → Result ℕ
total_out o leg anchor prev [] = ok 0
total_out o leg anchor prev (f ∷ fs) = do
  out ← leg_amount_out o leg anchor f.amount f.at prev f.base_fee f.fee
  rest ← total_out o leg anchor (prev + f.amount) fs
  ok (out + rest)

-- What they are owed on one input leg.
unfoldable pub total_in : Order → LegIn → ℕ → List Fill → Result ℕ
total_in o leg prev [] = ok 0
total_in o leg prev (f ∷ fs) = do
  owed ← leg_input_owed o leg prev (prev + f.amount) f.at f.base_fee f.fee
  rest ← total_in o leg (prev + f.amount) fs
  ok (owed + rest)

buy_slices :
    (o : Order) (leg : LegOut) (anchor prev : ℕ) (fs : List Fill)
    → o.side ≡ buy
    → 0 < anchor
    → total_out o leg anchor prev fs
      ≡ ok (ceil (leg.start * (prev + filled fs)) anchor - ceil (leg.start * prev) anchor)
unfolding total_out leg_amount_out fixed_out
buy_slices o leg anchor prev [] b p =
    let e : prev + 0 ≡ prev = omega arith in rw e (ap ok (omega arith))
buy_slices o leg anchor prev (f ∷ fs) b p =
    let ih = buy_slices o leg anchor (prev + f.amount) fs b p in
    let before = ceil_div-ceil (leg.start * prev) anchor p in
    let after = ceil_div-ceil (leg.start * (prev + f.amount)) anchor p in
    let up =
      ceil_mono anchor {m = leg.start * prev} {n = leg.start * (prev + f.amount)}
        (mul-le-mul_left leg.start (omega arith)) p in
    let on =
      ceil_mono anchor {m = leg.start * (prev + f.amount)}
        {n = leg.start * (prev + f.amount + filled fs)} (mul-le-mul_left leg.start (omega arith))
        p in
    rw (← add_assoc prev f.amount (filled fs)) (ground arith)

sell_slices :
    (o : Order) (leg : LegIn) (anchor prev : ℕ) (fs : List Fill)
    → o.side ≡ sell
    → leg.end ≡ 0
    → anchor_total o ≡ ok anchor
    → 0 < anchor
    → total_in o leg prev fs
      ≡ ok (leg.start * (prev + filled fs) / anchor - leg.start * prev / anchor)
unfolding total_in leg_input_owed fixed_in
sell_slices o leg anchor prev [] s fixed te p =
    let e : prev + 0 ≡ prev = omega arith in rw e (ap ok (omega arith))
sell_slices o leg anchor prev (f ∷ fs) s fixed te p =
    let ih = sell_slices o leg anchor (prev + f.amount) fs s fixed te p in
    let up =
      div_mono anchor {a = leg.start * prev} {b = leg.start * (prev + f.amount)}
        (mul-le-mul_left leg.start (omega arith)) p in
    let on =
      div_mono anchor {a = leg.start * (prev + f.amount)}
        {b = leg.start * (prev + f.amount + filled fs)} (mul-le-mul_left leg.start (omega arith))
        p in
    rw (← add_assoc prev f.amount (filled fs)) (ground arith)

-- the price that bounds an auctioned input leg from above, and an output leg from below
abbrev pub ceiling_in : LegIn → ℕ
ceiling_in leg = if leg.end == 0 then leg.start else leg.end

abbrev pub floor_out : LegOut → ℕ
floor_out leg = if leg.end == 0 then leg.start else leg.end

auction_in :
    (o : Order) (leg : LegIn) (anchor prev x : ℕ) (fs : List Fill)
    → (is_buy o.side || not (leg.end == 0)) ≡ true
    → anchor_total o ≡ ok anchor
    → 0 < anchor
    → total_in o leg prev fs ≡ ok x
    → x * anchor ≤ filled fs * ceiling_in leg
unfolding total_in leg_input_owed
auction_in o leg anchor prev x [] b te p e = ground arith
auction_in o leg anchor prev x (f ∷ fs) b te p e =
    elim (Result-cases (tick_in o leg f.at f.base_fee f.fee)) [
      | inl (t, tick) ↦ elim (Result-cases (total_in o leg (prev + f.amount) fs)) [
        | inl (r, re) ↦
            let ih = auction_in o leg anchor (prev + f.amount) r fs b te p re in
            let bounds = tick_in_bounds o leg f.at f.base_fee f.fee t tick in
            let cap : t ≤ ceiling_in leg = ground (arith, bounds) in
            let owed : (prev + f.amount - prev) * t ≡ f.amount * t =
              ap (λ (k : ℕ). k * t) (omega arith) in
            let share = div-mul-le_self (f.amount * t) anchor in
            let whole = mul-le-mul_left f.amount cap in
            let value : x ≡ f.amount * t / anchor + r = ground arith in
            rw value (omega (arith, ih, share, whole))
        | inr (y, re) ↦ absurd (ground arith)
      ]
      | inr (y, tick) ↦ absurd (ground arith)
    ]

auction_out :
    (o : Order) (leg : LegOut) (anchor prev x : ℕ) (fs : List Fill)
    → o.side ≡ sell
    → 0 < anchor
    → total_out o leg anchor prev fs ≡ ok x
    → filled fs * floor_out leg ≤ x * anchor
unfolding total_out leg_amount_out
auction_out o leg anchor prev x [] b p e = ground arith
auction_out o leg anchor prev x (f ∷ fs) b p e =
    elim (Result-cases (tick_out o leg f.at f.base_fee f.fee)) [
      | inl (t, tick) ↦ elim (Result-cases (total_out o leg anchor (prev + f.amount) fs)) [
        | inl (r, re) ↦
            let ih = auction_out o leg anchor (prev + f.amount) r fs b p re in
            let bounds = tick_out_bounds o leg f.at f.base_fee f.fee t tick in
            let floor : floor_out leg ≤ t = ground (arith, bounds) in
            let share =
              (ceil-le_iff (f.amount * t) anchor (ceil (f.amount * t) anchor) p).0 (omega arith) in
            let whole = mul-le-mul_left f.amount floor in
            let c = ceil_div-ceil (f.amount * t) anchor p in
            let value : x ≡ ceil (f.amount * t) anchor + r = ground arith in
            rw value (omega (arith, ih, share, whole))
        | inr (y, re) ↦ absurd (ground arith)
      ]
      | inr (y, tick) ↦ absurd (ground arith)
    ]

-- On a BUY, any run of partial fills that fills the order delivers exactly `start` on every output
-- leg, however the fills are sliced, timed and bid.
pub total_out_buy :
    (o : Order) (leg : LegOut) (anchor : ℕ) (fs : List Fill)
    → o.side ≡ buy
    → 0 < anchor
    → filled fs ≡ anchor
    → total_out o leg anchor 0 fs ≡ ok leg.start
total_out_buy o leg anchor fs b p all =
    let start : leg.start * 0 ≡ 0 = omega arith in
    let whole : leg.start * (0 + filled fs) ≡ leg.start * anchor =
      ap (λ (k : ℕ). leg.start * k) (omega arith) in
    buy_slices o leg anchor 0 fs b p
    ∙ ap ok (rw (start, whole) (omega (arith, ceil_exact leg.start anchor p, ceil-zero anchor p)))

-- On a SELL, any run of partial fills that fills the order is owed exactly `start` on every fixed
-- input leg.
pub total_in_sell :
    (o : Order) (leg : LegIn) (anchor : ℕ) (fs : List Fill)
    → o.side ≡ sell
    → leg.end ≡ 0
    → anchor_total o ≡ ok anchor
    → 0 < anchor
    → filled fs ≡ anchor
    → total_in o leg 0 fs ≡ ok leg.start
total_in_sell o leg anchor fs s fixed te p all =
    let start : leg.start * 0 ≡ 0 = omega arith in
    let whole : leg.start * (0 + filled fs) ≡ leg.start * anchor =
      ap (λ (k : ℕ). leg.start * k) (omega arith) in
    sell_slices o leg anchor 0 fs s fixed te p
    ∙ ap ok (rw (start, whole) (omega (arith, mul-div_left leg.start p, div-eq_of_lt p)))

-- The fills of an order that is not over-filled are together owed at most the ceiling of an
-- auctioned input leg: its `end`, or its `start` where a BUY leg is fixed.
pub total_in-le :
    (o : Order) (leg : LegIn) (anchor prev x : ℕ) (fs : List Fill)
    → (is_buy o.side || not (leg.end == 0)) ≡ true
    → anchor_total o ≡ ok anchor
    → 0 < anchor
    → filled fs ≤ anchor
    → total_in o leg prev fs ≡ ok x
    → x ≤ ceiling_in leg
total_in-le o leg anchor prev x fs b te p le e =
    le_of_mul-le-mul_right {k = anchor}
      (omega
        (arith, auction_in o leg anchor prev x fs b te p e, mul-le-mul_right (ceiling_in leg) le))
      p

-- The fills of a SELL that fills at least its denominator together deliver at least the floor of
-- every output leg: its `end`, or its `start` where it is fixed.
pub floor-le-total_out :
    (o : Order) (leg : LegOut) (anchor prev x : ℕ) (fs : List Fill)
    → o.side ≡ sell
    → 0 < anchor
    → anchor ≤ filled fs
    → total_out o leg anchor prev fs ≡ ok x
    → floor_out leg ≤ x
floor-le-total_out o leg anchor prev x fs s p le e =
    le_of_mul-le-mul_right {k = anchor}
      (omega (arith, auction_out o leg anchor prev x fs s p e, mul-le-mul_right (floor_out leg) le))
      p
