-- ===== src/Orderbook/Query.antt =====
-- packages/orderbook/src/query.ts: the filters, the order and the pages of the orders that a book
-- holds. A row is an order's hash with its entry. A `Number` of the code is not negative here, so it is
-- the number of its bits as a double, whose order is theirs: `to_number` rounds a bigint to one and
-- `quotient` divides two. The texts of a number and of a hash are arguments too.
pub mod Keys
pub mod Sorted
pub mod Pages
mod Tests
use delta_x.Prelude.{
  ℕ, ◌-◌, Option, none, some, List, [], ◌∷◌, ◌++◌, Bool, true, false, not, ◌&&◌, ◌||◌, ltb, leb,
  ◌==◌, if◌then◌else◌, length, any,
}
use delta_x.Sdk.Order.{Address, Order, OrderSide, LegIn, LegOut, sell, buy, is_buy}
use delta_x.Sdk.Proportional.{is_proportional}
use delta_x.Orderbook.Messages.{
  OrderStatus, Layer2Result, invalid, fillable, filled, cancelled, expired, inconclusive,
}
use delta_x.Orderbook.Shelf.{BookEntry}

abbrev pub Row : Type 0
Row = ℕ × BookEntry

unfoldable pub amount_in : Order → Option ℕ
amount_in order = elim order.legs_in [
  | [] ↦ if is_proportional 0 then none else some 0
  | leg ∷ rest ↦ if is_proportional leg.start then none else some leg.start
]

unfoldable pub amount_out : Order → ℕ
amount_out order = elim order.legs_out [ [] ↦ 0 | leg ∷ rest ↦ leg.start ]

pub data SortKey : Type 0 where
  by_created by_deadline by_fillable by_price : SortKey

pub record OrderQuery : Type 0 where
  pub maker : Option Address
  pub token : Option Address
  pub token_in : Option Address
  pub token_out : Option Address
  pub pair : Option (Address × Address)
  pub side : Option OrderSide
  pub status : Option (List OrderStatus)
  pub fillable_only : Bool
  pub validators_pass : Bool
  pub min_fillable : Option ℕ
  pub expires_after : Option ℕ
  pub added_after : Option ℕ
  pub sort : Option SortKey
  pub is_descending : Option Bool
  pub limit : Option ℕ
  pub cursor : Option (List ℕ)

abbrev unless_given : {A : Type 0} → Option A → (A → Bool) → Bool
unless_given none test = true
unless_given (some a) test = test a

abbrev gives : Order → Address → Bool
gives order token = any (λ (leg : LegIn). leg.token == token) order.legs_in

abbrev wants : Order → Address → Bool
wants order token = any (λ (leg : LegOut). leg.token == token) order.legs_out

abbrev same_side : OrderSide → OrderSide → Bool
same_side a b = if is_buy a then is_buy b else not (is_buy b)

abbrev status_number : OrderStatus → ℕ
status_number invalid = 0
status_number fillable = 1
status_number filled = 2
status_number cancelled = 3
status_number expired = 4
status_number inconclusive = 5

abbrev has_state : (Layer2Result → Bool) → Option Layer2Result → Bool
has_state test none = false
has_state test (some s) = test s

abbrev fillable_now : Option Layer2Result → ℕ
fillable_now none = 0
fillable_now (some s) = s.fillable_amount

-- Does the row pass the filters?
unfoldable pub is_match : OrderQuery → Row → Bool
is_match q (order_hash, entry) =
    let order = entry.announce.order in
    unless_given q.maker (λ a. order.maker == a)
    && unless_given q.side (λ s. same_side order.side s)
    && unless_given q.token_in (gives order)
    && unless_given q.token_out (wants order)
    && unless_given q.token (λ t. gives order t || wants order t)
    && unless_given q.pair (λ (p : Address × Address).
      (gives order p.0 && wants order p.1) || (gives order p.1 && wants order p.0))
    && unless_given q.expires_after (λ t. leb t order.expiry)
    && unless_given q.added_after (λ t. leb t entry.added_at)
    && unless_given q.status (λ wanted.
      has_state (λ s. any (λ w. status_number w == status_number s.status) wanted) entry.state)
    && (not q.fillable_only || has_state (λ s. s.is_ok) entry.state)
    && (not q.validators_pass || has_state (λ s. s.validators_pass) entry.state)
    && unless_given q.min_fillable (λ n. leb n (fillable_now entry.state))

-- What a row is ordered by: its value, none of which sorts last, then its hash.
abbrev pub Key : Type 0
Key = Option ℕ × ℕ

pub data Sign : Type 0 where
  less equal_keys greater : Sign

abbrev compare_numbers : ℕ → ℕ → Sign → Sign
compare_numbers a b tie = if ltb a b then less else if ltb b a then greater else tie

unfoldable pub compare_keys : Bool → Key → Key → Sign
compare_keys descending (none, a) (none, b) = compare_numbers a b equal_keys
compare_keys descending (none, a) (some y, b) = greater
compare_keys descending (some x, a) (none, b) = less
compare_keys descending (some x, a) (some y, b) =
    if descending
    then compare_numbers y x (compare_numbers a b equal_keys)
    else compare_numbers x y (compare_numbers a b equal_keys)

abbrev pub is_above : Sign → Bool
is_above greater = true
is_above _ = false

unfoldable pub filter_rows : OrderQuery → List Row → List Row
filter_rows q [] = []
filter_rows q (row ∷ rest) =
    let others = filter_rows q rest in if is_match q row then row ∷ others else others

abbrev tilde : ℕ
tilde = 126

abbrev none_text : List ℕ
none_text = 110 ∷ 111 ∷ 110 ∷ 101 ∷ []

unfoldable pub split_at_tilde : List ℕ → Option (List ℕ × List ℕ)
split_at_tilde [] = none
split_at_tilde (c ∷ rest) =
    let others = split_at_tilde rest in
    if c == tilde
    then some ([], rest)
    else elim others [ none ↦ none | some (before, after) ↦ some (c ∷ before, after) ]

abbrev equal_text : List ℕ → List ℕ → Bool
equal_text [] [] = true
equal_text [] (b ∷ t) = false
equal_text (a ∷ s) [] = false
equal_text (a ∷ s) (b ∷ t) = a == b && equal_text s t

-- The doubles and the texts that the language gives.
pub record Texts : Type 0 where
  pub to_number : ℕ → ℕ
  pub quotient : ℕ → ℕ → ℕ
  pub show_number : ℕ → List ℕ
  pub read_number : List ℕ → Option ℕ
  pub show_hash : ℕ → List ℕ
  pub read_hash : List ℕ → Option ℕ

abbrev key_or : SortKey → Option SortKey → SortKey
key_or key none = key
key_or key (some other) = other

abbrev bool_or : Bool → Option Bool → Bool
bool_or b none = b
bool_or b (some other) = other

-- The newest orders come first where no order of rows is asked for.
abbrev newest_first : SortKey → Bool
newest_first by_created = true
newest_first _ = false

unfoldable pub descends : OrderQuery → Bool
descends q = bool_or (newest_first (key_or by_created q.sort)) q.is_descending

abbrev pub take : ℕ → List Row → List Row
take n [] = []
take n (row ∷ rest) = if n == 0 then [] else row ∷ take (n - 1) rest

unfoldable pub last_row : List Row → Option Row
last_row [] = none
last_row (row ∷ rest) = elim (last_row rest) [ none ↦ some row | some last ↦ some last ]

-- A limit of zero is none.
abbrev pub page_of : Option ℕ → List Row → List Row
page_of none rows = rows
page_of (some limit) rows = if limit == 0 then rows else take limit rows

module _ (texts : Texts) where
  unfoldable pub order_price : Order → Option ℕ
  order_price order = elim (amount_in order) [
    | none ↦ none
    | some n ↦
        if n == 0
        then none
        else some (texts.quotient (texts.to_number (amount_out order)) (texts.to_number n))
  ]

  unfoldable pub sort_value : SortKey → BookEntry → Option ℕ
  sort_value by_created entry = some (texts.to_number entry.added_at)
  sort_value by_deadline entry = some (texts.to_number entry.announce.order.expiry)
  sort_value by_fillable entry = some (texts.to_number (fillable_now entry.state))
  sort_value by_price entry = order_price entry.announce.order

  abbrev pub key_of : OrderQuery → Row → Key
  key_of q (order_hash, entry) = (sort_value (key_or by_created q.sort) entry, order_hash)

  abbrev pub compare_rows : OrderQuery → Row → Row → Sign
  compare_rows q a b = compare_keys (descends q) (key_of q a) (key_of q b)

  unfoldable pub insert_row : OrderQuery → Row → List Row → List Row
  insert_row q row [] = row ∷ []
  insert_row q row (first ∷ rest) =
      let others = insert_row q row rest in
      if is_above (compare_rows q row first) then first ∷ others else row ∷ first ∷ rest

  unfoldable pub sort_rows : OrderQuery → List Row → List Row
  sort_rows q [] = []
  sort_rows q (row ∷ rest) = insert_row q row (sort_rows q rest)

  unfoldable pub encode_cursor : Key → List ℕ
  encode_cursor (none, order_hash) = none_text ++ (tilde ∷ texts.show_hash order_hash)
  encode_cursor (some value, order_hash) =
      texts.show_number value ++ (tilde ∷ texts.show_hash order_hash)

  unfoldable pub decode_cursor : List ℕ → Option Key
  decode_cursor cursor = elim (split_at_tilde cursor) [
    | none ↦ none
    | some (raw, hash_text) ↦ elim (texts.read_hash hash_text) [
      | none ↦ none
      | some order_hash ↦
          if equal_text raw none_text
          then some (none, order_hash)
          else elim (texts.read_number raw) [
            | none ↦ none
            | some value ↦ some (some value, order_hash)
          ]
    ]
  ]

  -- The rows from the first one that is past the key.
  unfoldable pub rows_past : OrderQuery → Key → List Row → List Row
  rows_past q after [] = []
  rows_past q after (row ∷ rest) =
      let others = rows_past q after rest in
      if is_above (compare_keys (descends q) (key_of q row) after) then row ∷ rest else others

  -- The key of the query's cursor, where it has one that can be read.
  unfoldable pub cursor_key : OrderQuery → Option Key
  cursor_key q = elim q.cursor [ none ↦ none | some text ↦ decode_cursor text ]

  abbrev pub rows_after : OrderQuery → Option Key → List Row → List Row
  rows_after q none rows = rows
  rows_after q (some after) rows = rows_past q after rows

  -- The rows of the pages that the query's cursor leaves.
  unfoldable pub rows_from : OrderQuery → List Row → List Row
  rows_from q rows = rows_after q (cursor_key q) (sort_rows q (filter_rows q rows))

  -- The cursor of the next page, where the page does not end what is left.
  unfoldable pub next_cursor : OrderQuery → List Row → List Row → Option (List ℕ)
  next_cursor q page left = elim (last_row page) [
    | none ↦ none
    | some last ↦
        if ltb (length page) (length left) then some (encode_cursor (key_of q last)) else none
  ]

  -- The page, how many rows pass the filters, and the cursor of the next page.
  unfoldable pub query_orders : List Row → OrderQuery → List Row × ℕ × Option (List ℕ)
  query_orders rows q =
      let left = rows_from q rows in
      let page = page_of q.limit left in
      (page, length (filter_rows q rows), next_cursor q page left)
