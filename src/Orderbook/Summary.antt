-- ===== src/Orderbook/Summary.antt =====
-- packages/orderbook/src/query.ts, `summarize`: what the routes serve of an entry. Where the code writes
-- a bigint as text, the field is the number; a status that has no name is none.
use delta_x.Prelude.{
  ℕ, ◌-◌, ◌^◌, Option, none, some, List, [], ◌∷◌, Bool, true, false, not, ◌&&◌, ltb, ◌==◌,
  if◌then◌else◌, map,
}
use delta_x.Sdk.Order.{Address, Order, OrderSide, LegIn, LegOut, is_buy}
use delta_x.Sdk.Timing.{is_fill_once}
use delta_x.Sdk.Proportional.{is_proportional, proportional_bps}
use delta_x.Orderbook.Messages.{OrderStatus, Layer2Result, filled, inconclusive}
use delta_x.Orderbook.Query.{Row, Texts, amount_in, amount_out, order_price}

pub record OrderSummary : Type 0 where
  pub order_hash : ℕ
  pub maker : Address
  pub side : OrderSide
  pub nonce : ℕ
  pub deadline : ℕ
  pub added_at : ℕ
  pub tokens_in : List Address
  pub tokens_out : List Address
  pub amount_in : Option ℕ
  pub amount_out : ℕ
  pub proportional_bps : Option ℕ
  pub price : Option ℕ
  pub status : Option OrderStatus
  pub fillable_amount : Option ℕ
  pub filled_amount : Option ℕ
  pub is_signature_valid : Option Bool
  pub validators_pass : Option Bool
  pub fillable : Bool

abbrev first_start : Order → ℕ
first_start order = elim order.legs_in [ [] ↦ 0 | leg ∷ rest ↦ leg.start ]

unfoldable pub is_share : Order → Bool
is_share order =
    not (is_buy order.side) && (order.fill_total == 0 && is_proportional (first_start order))

-- The fill denominator, where it is a fixed number.
unfoldable pub fixed_anchor : Order → Option ℕ
fixed_anchor order =
    if ltb 0 order.fill_total
    then some order.fill_total
    else if not (is_buy order.side)
    then amount_in order
    else some (amount_out order)

unfoldable pub cancelled_progress : ℕ
cancelled_progress = 2 ^ 256 - 1

abbrev status_name : OrderStatus → Option OrderStatus
status_name inconclusive = none
status_name s = some s

abbrev is_filled : OrderStatus → Bool
is_filled filled = true
is_filled _ = false

-- What is known to be filled without the settlement's counter.
unfoldable pub known_filled : Order → Option Layer2Result → Option ℕ
known_filled order none = none
known_filled order (some s) = elim (fixed_anchor order) [
  | none ↦ none
  | some anchor ↦
      if is_share order
      then none
      else if is_filled s.status && is_fill_once order
      then some anchor
      else if s.fillable_amount == anchor
      then some 0
      else none
]

unfoldable pub filled_amount : Order → Option Layer2Result → Option ℕ → Option ℕ
filled_amount order state none = known_filled order state
filled_amount order state (some n) =
    if n == cancelled_progress then known_filled order state else some n

abbrev of_state : {A : Type 0} → (Layer2Result → A) → Option Layer2Result → Option A
of_state f none = none
of_state f (some s) = some (f s)

abbrev status_of : Option Layer2Result → Option OrderStatus
status_of none = none
status_of (some s) = status_name s.status

abbrev is_fillable : Option Layer2Result → Bool
is_fillable none = false
is_fillable (some s) = s.is_ok

unfoldable pub summarize : Texts → Row → Option ℕ → OrderSummary
summarize texts (order_hash, entry) progress =
    let order = entry.announce.order in
    record {
      order_hash = order_hash;
      maker = order.maker;
      side = order.side;
      nonce = order.nonce;
      deadline = order.expiry;
      added_at = entry.added_at;
      tokens_in = map (λ (leg : LegIn). leg.token) order.legs_in;
      tokens_out = map (λ (leg : LegOut). leg.token) order.legs_out;
      amount_in = amount_in order;
      amount_out = amount_out order;
      proportional_bps =
          if is_proportional (first_start order)
          then some (proportional_bps (first_start order))
          else none;
      price = order_price texts order;
      status = status_of entry.state;
      fillable_amount = of_state (λ s. s.fillable_amount) entry.state;
      filled_amount = filled_amount order entry.state progress;
      is_signature_valid = of_state (λ s. s.is_signature_valid) entry.state;
      validators_pass = of_state (λ s. s.validators_pass) entry.state;
      fillable = is_fillable entry.state;
    }
