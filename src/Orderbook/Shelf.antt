-- ===== src/Orderbook/Shelf.antt =====
-- packages/orderbook/src/book.ts, the fields `entries` and `makerCounts` of the class Book. An entry's
-- `orderHash` is its key. The listeners and the verifier's cache, which `evict` tells of the removal,
-- are outside the model.
pub mod Counts
pub mod Displacement
pub mod Caps
use delta_x.Prelude.{
  ℕ, ◌+◌, ◌-◌, Option, none, some, List, [], ◌∷◌, Bool, true, false, not, ◌&&◌, ◌||◌, ltb, leb,
  ◌==◌, if◌then◌else◌, length,
}
use delta_x.Prelude.Dict.{Dict, get, set, remove}
use delta_x.Sdk.Order.{Address}
use delta_x.Orderbook.Messages.{OrderAnnounce, Layer2Result, OrderStatus, inconclusive}
use delta_x.Orderbook.Admission.{AdmissionPolicy}

pub record BookEntry : Type 0 where
  pub announce : OrderAnnounce
  pub added_at : ℕ
  pub state : Option Layer2Result
  pub inconclusive_strikes : ℕ

pub record Shelf : Type 0 where
  pub entries : Dict BookEntry
  pub maker_counts : Dict ℕ

abbrev pub maker_of : BookEntry → Address
maker_of e = e.announce.order.maker

abbrev pub count_or : ℕ → Option ℕ → ℕ
count_or n none = n
count_or n (some m) = m

unfoldable pub maker_count : Shelf → Address → ℕ
maker_count shelf maker = count_or 0 (get maker shelf.maker_counts)

-- one order fewer of the maker
unfoldable pub lower_count : Address → Dict ℕ → Dict ℕ
lower_count maker counts =
    let n = count_or 1 (get maker counts) - 1 in
    if n == 0 then remove maker counts else set maker n counts

unfoldable pub evict : ℕ → Shelf → Shelf
evict order_hash shelf = elim (get order_hash shelf.entries) [
  | none ↦ shelf
  | some entry ↦ record {
    entries = remove order_hash shelf.entries;
    maker_counts = lower_count (maker_of entry) shelf.maker_counts;
  }
]

-- The last lines of `admit`: a new entry, and its maker's count.
unfoldable pub shelve : ℕ → BookEntry → Shelf → Shelf
shelve order_hash entry shelf = record {
  entries = set order_hash entry shelf.entries;
  maker_counts = set (maker_of entry) (maker_count shelf (maker_of entry) + 1) shelf.maker_counts;
}

abbrev pub is_inconclusive : OrderStatus → Bool
is_inconclusive inconclusive = true
is_inconclusive _ = false

unfoldable pub is_dead : BookEntry → Bool
is_dead entry = elim entry.state [
  | none ↦ false
  | some state ↦ not state.is_ok && not (is_inconclusive state.status)
]

unfoldable pub first_dead : Dict BookEntry → Option ℕ
first_dead [] = none
first_dead ((key, entry) ∷ rest) = if is_dead entry then some key else first_dead rest

-- The first maker of the highest count, after one of `count`.
unfoldable pub top_maker : Option Address → ℕ → Dict ℕ → Option Address × ℕ
top_maker top count [] = (top, count)
top_maker top count ((maker, n) ∷ rest) =
    top_maker (if ltb count n then some maker else top) (if ltb count n then n else count) rest

abbrev expires_later : BookEntry → Option (ℕ × BookEntry) → Bool
expires_later entry none = true
expires_later entry (some (key, victim)) =
    ltb victim.announce.order.expiry entry.announce.order.expiry

-- The maker's order of the furthest deadline, the first among equals.
unfoldable pub furthest : Address → Option (ℕ × BookEntry) → Dict BookEntry → Option (ℕ × BookEntry)
furthest maker victim [] = victim
furthest maker victim ((key, entry) ∷ rest) =
    furthest maker
      (if maker_of entry == maker && expires_later entry victim then some (key, entry) else victim)
      rest

abbrev key_of : Option (ℕ × BookEntry) → Option ℕ
key_of none = none
key_of (some (key, entry)) = some key

-- The order that the largest maker gives up.
unfoldable pub largest_victim : Address → Shelf → Option ℕ
largest_victim maker shelf =
    let (top, count) = top_maker none 0 shelf.maker_counts in
    elim top [
      | none ↦ none
      | some largest ↦
          if leb count (maker_count shelf maker + 1)
          then none
          else key_of (furthest largest none shelf.entries)
    ]

unfoldable pub displacement_victim : Address → AdmissionPolicy → Shelf → Option ℕ
displacement_victim maker policy shelf =
    if policy.max_orders == 0 || ltb (length shelf.entries) policy.max_orders
    then none
    else elim (first_dead shelf.entries) [ some key ↦ some key | none ↦ largest_victim maker shelf ]
