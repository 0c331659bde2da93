-- ===== src/Orderbook/Query/Tests.antt =====
-- Two orders of a maker in two pages.
use delta_x.Prelude.{ℕ, ◌+◌, ◌-◌, ◌≡◌, refl, arith, Option, none, some, List, [], ◌∷◌, false}
use delta_x.Orderbook.Tests.{announce, decode, first_entry}
use delta_x.Orderbook.Query.{
  Row, Texts, OrderQuery, by_deadline, query_orders, rows_from, cursor_key, filter_rows, sort_rows,
  insert_row, next_cursor, last_row, encode_cursor, sort_value, compare_keys, is_match, descends,
}
use delta_x.Orderbook.Query.Keys.{IsReadable}
use delta_x.Orderbook.Query.Pages.{IsPage, query_orders-IsPage}

runs : Unit {0}
unfolding query_orders rows_from cursor_key filter_rows sort_rows insert_row next_cursor last_row
    encode_cursor sort_value compare_keys is_match descends
runs = tt

abbrev rows : List Row
rows = (11, first_entry) ∷ (12, record first_entry { announce = announce 1 6 600 }) ∷ []

abbrev shifted : List ℕ → Option ℕ
shifted [] = none
shifted (c ∷ rest) = some (c - 200)

-- A number is its text, shifted past the tilde.
abbrev texts : Texts
texts = record {
  to_number = λ n. n;
  quotient = λ a b. a;
  show_number = λ v. (v + 200) ∷ [];
  read_number = shifted;
  show_hash = λ h. h ∷ [];
  read_hash = decode;
}

texts-IsReadable : IsReadable texts
texts-IsReadable = record {
  numbers = λ v. ground arith;
  hashes = λ h. refl;
  no_tilde = λ v. ground arith;
  not_none = λ v. ground arith;
}

abbrev first_page : OrderQuery
first_page = record {
  maker = some 1;
  token = none;
  token_in = none;
  token_out = none;
  pair = none;
  side = none;
  status = none;
  fillable_only = false;
  validators_pass = false;
  min_fillable = none;
  expires_after = none;
  added_after = none;
  sort = some by_deadline;
  is_descending = none;
  limit = some 1;
  cursor = none;
}

-- The first of two pages of the first maker's orders.
query_orders-IsPage_example :
    IsPage texts first_page rows
      (query_orders texts rows first_page).0
      (query_orders texts rows first_page).2
unfolding runs
query_orders-IsPage_example =
    query_orders-IsPage texts first_page rows 0 texts-IsReadable ((omega arith, tt), (tt, tt)) refl

second_cursor : (query_orders texts rows first_page).2 ≡ some (700 ∷ 126 ∷ 11 ∷ [])
unfolding runs
second_cursor = refl
