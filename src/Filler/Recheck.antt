-- ===== src/Filler/Recheck.antt =====
-- packages/beta-filler/src/recheck.ts: when the gate of a decaying order will pass. The loop over the
-- seconds runs on fuel, one for each second of the horizon and one for the last test, which
-- `profitable_at_first` shows to be enough. The lens's bump is at most `bps`, and `outTick` and
-- `inTick` are read only where the leg moves.
pub mod First
use delta_x.Prelude.{
  ℕ, zero, suc, ◌+◌, ◌-◌, ◌*◌, ◌/◌, Option, none, some, Bool, true, false, not, ◌&&◌, ◌||◌, List,
  [], ◌∷◌, ok, err, ltb, leb, ◌==◌, if◌then◌else◌,
}
use delta_x.Sdk.Order.{Order, LegIn, LegOut, CurvePoint, zero_address, bps}
use delta_x.Sdk.Timing.{flag, block_clock_bit, priority_auction_bit, unpack_timing}
use delta_x.Sdk.Proportional.{is_proportional}
use delta_x.Sdk.Pricing.{bump_bps, last_point}

-- The argument of profitableAt, with its first legs.
pub record RecheckQuery : Type 0 where
  pub order : Order
  pub bump_now : ℕ
  pub paid_now : ℕ
  pub received_now : ℕ
  pub now_s : ℕ
  pub horizon_s : ℕ
  pub passes : ℕ → ℕ → Bool

unfoldable pub out_moves : LegOut → Bool
out_moves leg = not (leg.end == 0) && ltb leg.end leg.start

unfoldable pub in_moves : LegIn → Bool
in_moves leg = not (leg.end == 0) && ltb leg.start leg.end

unfoldable pub out_tick : LegOut → ℕ → ℕ
out_tick leg b = leg.start - (leg.start - leg.end) * b / bps

unfoldable pub in_tick : LegIn → ℕ → ℕ
in_tick leg b = leg.start + (leg.end - leg.start) * b / bps

-- `a.passes(paid, received)` at the bump of second `t`; a second before the start does not pass.
unfoldable pub passes_at : RecheckQuery → LegIn → LegOut → ℕ → Bool
passes_at q leg_in leg_out t =
    let out_now = out_tick leg_out q.bump_now in
    let in_now = in_tick leg_in q.bump_now in
    elim (bump_bps q.order t 0 none) [
      | err thrown ↦ false
      | ok b ↦
          q.passes
            (if out_moves leg_out then q.paid_now * out_tick leg_out b / out_now else q.paid_now)
            (if in_moves leg_in
              then (q.received_now * in_tick leg_in b + in_now - 1) / in_now
              else q.received_now)
    ]

-- The loop from second `t` on: `none` where the fuel ends, else the second that it returns, if any.
unfoldable pub search_from : ℕ → RecheckQuery → LegIn → LegOut → ℕ → Option (Option ℕ)
search_from zero q leg_in leg_out t = none
search_from (suc fuel) q leg_in leg_out t =
    let rest = search_from fuel q leg_in leg_out (t + 1) in
    if leb t (q.now_s + q.horizon_s)
    then if passes_at q leg_in leg_out t then some (some t) else rest
    else some none

unfoldable pub decay_span : Order → ℕ
decay_span order = elim order.curve [
  | [] ↦ (unpack_timing order.timing).decay_duration
  | point ∷ points ↦ (last_point point points).time_delta
]

-- Can this mirror price the order off the clock alone?
unfoldable pub is_priced : RecheckQuery → LegIn → LegOut → Bool
is_priced q leg_in leg_out =
    let order = q.order in
    order.pricing_module == zero_address
    && (not (flag order.timing priority_auction_bit)
        && (not (flag order.timing block_clock_bit)
            && (order.gas_bump_bps == 0
                && (not (is_proportional leg_in.start || is_proportional leg_out.start)
                    && (not (q.paid_now == 0 || q.received_now == 0)
                        && (not (decay_span order == 0)
                            && ((out_moves leg_out || in_moves leg_in)
                                && not (
                                    (out_moves leg_out && out_tick leg_out q.bump_now == 0)
                                    || (in_moves leg_in && in_tick leg_in q.bump_now == 0)))))))))

-- The auction's floor time, where it falls inside the horizon.
unfoldable pub floor_time : RecheckQuery → Option ℕ
floor_time q =
    let floor_at = (unpack_timing q.order.timing).decay_start_time + decay_span q.order in
    if ltb q.now_s floor_at && leb floor_at (q.now_s + q.horizon_s) then some floor_at else none

unfoldable pub or_floor : RecheckQuery → Option ℕ → Option ℕ
or_floor q none = floor_time q
or_floor q (some t) = some t

unfoldable pub finish : RecheckQuery → Option (Option ℕ) → Option (Option ℕ)
finish q none = none
finish q (some found) = some (or_floor q found)

unfoldable pub profitable_legs : RecheckQuery → List LegIn → List LegOut → Option (Option ℕ)
profitable_legs q (leg_in ∷ legs_in) (leg_out ∷ legs_out) =
    if is_priced q leg_in leg_out
    then finish q (search_from (q.horizon_s + 2) q leg_in leg_out q.now_s)
    else some none
profitable_legs q [] legs_out = some none
profitable_legs q (leg_in ∷ legs_in) [] = some none

-- The outer `none` is no answer of the source.
unfoldable pub profitable_at : RecheckQuery → Option (Option ℕ)
profitable_at q = profitable_legs q q.order.legs_in q.order.legs_out

-- `v · num / den`, rounded up
unfoldable pub scale_up : ℕ → ℕ → ℕ → ℕ
scale_up v num den = if den == 0 then v else (v * num + den - 1) / den
