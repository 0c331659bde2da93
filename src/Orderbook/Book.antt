-- ===== src/Orderbook/Book.antt =====
-- packages/orderbook/src/book.ts: the class Book, as the synchronous steps that its methods take
-- between their awaits. The clock is an argument of each. The order's hash, the verdicts of the
-- verifier and of the cancel verifier, and the decoding of a validator's data are arguments too.
pub mod Cases
use delta_x.Prelude.{
  ℕ, ◌+◌, Option, none, some, List, [], ◌∷◌, Bool, true, false, not, ◌&&◌, ltb, leb, ◌==◌,
  if◌then◌else◌, length,
}
use delta_x.Prelude.Dict.{Dict, get, set}
use delta_x.Sdk.Order.{Address, Order}
use delta_x.Orderbook.Messages.{OrderAnnounce, SignedSoftCancel, CancelVerdict, Layer2Result}
use delta_x.Orderbook.Admission.{
  AdmissionPolicy, AdmissionRefusal, check_admission, at_capacity, at_maker_limit, soft_cancelled,
}
use delta_x.Orderbook.Shelf.{
  BookEntry, Shelf, maker_of, maker_count, evict, shelve, displacement_victim,
}
use delta_x.Orderbook.Graves.{Graves, GraveLimits, Tombstone, is_soft_cancelled, tombstone, update}

pub record BookOptions : Type 0 where
  pub admission : AdmissionPolicy
  pub limits : GraveLimits
  pub max_inconclusive_strikes : ℕ
  pub evict_when : Option (BookEntry → Layer2Result → Bool)

pub record Book : Type 0 where
  pub shelf : Shelf
  pub graves : Graves
  pub dirty : List ℕ

abbrev pub entries_of : Book → Dict BookEntry
entries_of book = book.shelf.entries

unfoldable pub empty_book : Book
empty_book = record {
  shelf = record { entries = []; maker_counts = [] };
  graves = record { tombstones = []; pending_per_maker = [] };
  dirty = [];
}

abbrev is_some : {A : Type 0} → Option A → Bool
is_some none = false
is_some (some a) = true

-- Is the predecessor live, and the same maker's?
unfoldable pub takes_predecessor_slot : Address → Option ℕ → Shelf → Bool
takes_predecessor_slot maker none shelf = false
takes_predecessor_slot maker (some replaces) shelf = elim (get replaces shelf.entries) [
  | none ↦ false
  | some predecessor ↦ maker_of predecessor == maker
]

-- The gate before a lens call; `policy` and `known` stand for the defaults that `precheck` fills in.
unfoldable pub precheck :
    AdmissionPolicy → ℕ → Order → ℕ → Option ℕ → Bool → Book → Option AdmissionRefusal
precheck policy now order order_hash encoded_bytes known book =
    if is_soft_cancelled order_hash order.maker now book.graves
    then some soft_cancelled
    else check_admission order
        (record {
          size = length book.shelf.entries;
          maker_count = maker_count book.shelf;
          now = now;
          known = known;
          encoded_bytes = encoded_bytes;
          can_displace = λ m. is_some (displacement_victim m policy book.shelf);
        })
        policy

abbrev pub with_state : Option Layer2Result → BookEntry → BookEntry
with_state none entry = entry
with_state (some state) entry = record entry { state = some state }

-- The tombstone of an order that has been seen holds for the order's life.
abbrev pub prolong : ℕ → Tombstone → Tombstone
prolong expiry t = record t { until = if ltb t.until expiry then expiry else t.until }

-- The capacity checks of `admit`: a shelf with a place, or a refusal.
unfoldable pub make_room : AdmissionPolicy → Address → Shelf → Option AdmissionRefusal × Shelf
make_room policy maker shelf =
    if not (policy.max_orders_per_maker == 0)
      && leb policy.max_orders_per_maker (maker_count shelf maker)
    then (some at_maker_limit, shelf)
    else if not (policy.max_orders == 0) && leb policy.max_orders (length shelf.entries)
    then elim (displacement_victim maker policy shelf) [
      | none ↦ (some at_capacity, shelf)
      | some victim ↦ (none, evict victim shelf)
    ]
    else (none, shelf)

-- The place of a new order: its predecessor's, or one that the caps leave.
unfoldable pub room_for :
    AdmissionPolicy → Address → Option ℕ → Shelf → Option AdmissionRefusal × Shelf
room_for policy maker replaces shelf =
    if takes_predecessor_slot maker replaces shelf
    then (none, shelf)
    else make_room policy maker shelf

abbrev pub new_entry : ℕ → OrderAnnounce → Option Layer2Result → BookEntry
new_entry now announce state = record {
  announce = announce;
  added_at = now;
  state = state;
  inconclusive_strikes = 0;
}

unfoldable pub admit :
    AdmissionPolicy
    → ℕ
    → ℕ
    → OrderAnnounce
    → Option Layer2Result
    → Option ℕ
    → Book
    → Option AdmissionRefusal × Book
admit policy now order_hash announce state replaces book =
    elim (get order_hash book.shelf.entries) [
      | some existing ↦ (
        none,
        record book {
          shelf = record {
            entries = set order_hash (with_state state existing) book.shelf.entries;
            maker_counts = book.shelf.maker_counts;
          };
        },
      )
      | none ↦
          if is_soft_cancelled order_hash announce.order.maker now book.graves
          then (
            some soft_cancelled,
            record book {
              graves = record {
                tombstones =
                    update order_hash announce.order.maker (prolong announce.order.expiry)
                      book.graves.tombstones;
                pending_per_maker = book.graves.pending_per_maker;
              };
            },
          )
          else elim (room_for policy announce.order.maker replaces book.shelf).0 [
            | some reason ↦ (some reason, book)
            | none ↦ (
              none,
              record book {
                shelf =
                    shelve order_hash (new_entry now announce state)
                      (room_for policy announce.order.maker replaces book.shelf).1;
              },
            )
          ]
    ]

-- Until when a cancel of an unseen hash is kept.
unfoldable pub pending_until : AdmissionPolicy → ℕ → ℕ → ℕ
pending_until policy now expiry =
    if not (policy.max_ttl_seconds == 0) && ltb (now + policy.max_ttl_seconds) expiry
    then now + policy.max_ttl_seconds
    else expiry

-- One hash of a verified cancel: the book after it, and whether the hash was evicted.
unfoldable pub retract : BookOptions → ℕ → Address → ℕ → ℕ → Book → Bool × Book
retract opts now maker expiry order_hash book = elim (get order_hash book.shelf.entries) [
  | some entry ↦ if not (maker_of entry == maker) then (false, book) else (
    true,
    record book {
      shelf = evict order_hash book.shelf;
      graves = tombstone opts.limits order_hash maker entry.announce.order.expiry false book.graves;
    },
  )
  | none ↦ (
    false,
    record book {
      graves =
          tombstone opts.limits order_hash maker (pending_until opts.admission now expiry) true
            book.graves;
    },
  )
]

unfoldable pub retract_all : BookOptions → ℕ → Address → ℕ → List ℕ → Book → List ℕ × Book
retract_all opts now maker expiry [] book = ([], book)
retract_all opts now maker expiry (h ∷ rest) book =
    let one = retract opts now maker expiry h book in
    let others = retract_all opts now maker expiry rest one.1 in
    (if one.0 then h ∷ others.0 else others.0, others.1)

-- The evicted hashes and the book after a cancel that was verified for the maker it names.
unfoldable pub apply_verified_cancel :
    BookOptions → ℕ → SignedSoftCancel → CancelVerdict → Book → List ℕ × Book
apply_verified_cancel opts now signed verdict book = elim verdict [
  | none ↦ ([], book)
  | some maker ↦
      if maker == signed.cancel.maker
      then retract_all opts now maker signed.cancel.expiry signed.cancel.order_hashes book
      else ([], book)
]
