-- ===== src/Orderbook/Recheck.antt =====
-- packages/orderbook/src/book.ts, `revalidate`, `revalidateDirty` and `recheck` of the class Book.
-- The verifier's answer is an argument. An answer changes the entry that the map holds under its hash;
-- where the hash has gone nothing happens. The code changes the entry that it sent to the verifier,
-- which is another only where the order left the book and was admitted anew during the call.
pub mod Cases
use delta_x.Prelude.{ℕ, ◌+◌, Option, none, some, List, [], ◌∷◌, Bool, not, leb, if◌then◌else◌}
use delta_x.Prelude.Dict.{Dict, get, set}
use delta_x.Orderbook.Messages.{Layer2Result}
use delta_x.Orderbook.Shelf.{BookEntry, Shelf, evict, is_inconclusive}
use delta_x.Orderbook.Graves.{prune_tombstones}
use delta_x.Orderbook.Book.{Book, BookOptions}

unfoldable pub should_evict : BookOptions → BookEntry → Layer2Result → Bool
should_evict opts entry state = elim opts.evict_when [
  | none ↦ not state.is_ok
  | some test ↦ test entry state
]

abbrev pub put_entry : ℕ → BookEntry → Shelf → Shelf
put_entry order_hash entry shelf = record {
  entries = set order_hash entry shelf.entries;
  maker_counts = shelf.maker_counts;
}

abbrev pub struck : BookEntry → BookEntry
struck entry = record entry { inconclusive_strikes = entry.inconclusive_strikes + 1 }

abbrev pub refreshed : Layer2Result → BookEntry → BookEntry
refreshed s entry = record entry { state = some s; inconclusive_strikes = 0 }

-- One answer of the verifier.
unfoldable pub recheck_one : BookOptions → ℕ → Layer2Result → Shelf → Shelf
recheck_one opts order_hash s shelf = elim (get order_hash shelf.entries) [
  | none ↦ shelf
  | some entry ↦
      if is_inconclusive s.status
      then (if not s.isolated
          then shelf
          else if leb opts.max_inconclusive_strikes (entry.inconclusive_strikes + 1)
          then evict order_hash (put_entry order_hash (struck entry) shelf)
          else put_entry order_hash (struck entry) shelf)
      else if should_evict opts (refreshed s entry) s
      then evict order_hash (put_entry order_hash (refreshed s entry) shelf)
      else put_entry order_hash (refreshed s entry) shelf
]

abbrev pub land_answer : BookOptions → ℕ → Option Layer2Result → Shelf → Shelf
land_answer opts order_hash none shelf = shelf
land_answer opts order_hash (some s) shelf = recheck_one opts order_hash s shelf

-- The loop over the entries that were sent to the verifier.
unfoldable pub recheck : BookOptions → (ℕ → Option Layer2Result) → List ℕ → Shelf → Shelf
recheck opts states [] shelf = shelf
recheck opts states (h ∷ rest) shelf =
    recheck opts states rest (land_answer opts h (states h) shelf)

-- The loop that drops expired orders, over the entries as they were.
unfoldable pub drop_expired : ℕ → Dict BookEntry → Shelf → Shelf
drop_expired now [] shelf = shelf
drop_expired now ((key, entry) ∷ rest) shelf =
    drop_expired now rest (if leb entry.announce.order.expiry now then evict key shelf else shelf)

abbrev pub keys : {A : Type 0} → Dict A → List ℕ
keys [] = []
keys ((key, a) ∷ rest) = key ∷ keys rest

-- `revalidate` before its lens call
unfoldable pub expire : ℕ → Book → Book
expire now book = record book {
  shelf = drop_expired now book.shelf.entries book.shelf;
  graves = prune_tombstones now book.graves;
}

unfoldable pub revalidate : BookOptions → ℕ → (ℕ → Option Layer2Result) → Book → Book
revalidate opts now states book =
    let live = expire now book in
    record live { shelf = recheck opts states (keys live.shelf.entries) live.shelf }

-- An order that has left the book meanwhile is no entry, so its answer does nothing.
unfoldable pub revalidate_dirty : BookOptions → (ℕ → Option Layer2Result) → Book → Book
revalidate_dirty opts states book = record book {
  shelf = recheck opts states book.dirty book.shelf;
  dirty = [];
}
