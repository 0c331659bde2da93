-- ===== src/Orderbook/Graves.antt =====
-- packages/orderbook/src/book.ts, the fields `tombstones` and `pendingPerMaker` of the class Book. A
-- tombstone's key is the pair of its hash and its maker. A loop over the map that drops entries walks
-- the map as it was.
pub mod Counts
pub mod Sweep
pub mod Kept
pub mod Update
pub mod Invariant
pub mod Cancelled
use delta_x.Prelude.{
  ℕ, ◌+◌, ◌-◌, Option, none, some, List, [], ◌∷◌, ◌++◌, Bool, false, not, ◌&&◌, ltb, leb, ◌==◌,
  if◌then◌else◌, length,
}
use delta_x.Prelude.Dict.{Dict, get, set, remove}
use delta_x.Sdk.Order.{Address}

pub record Tombstone : Type 0 where
  pub order_hash : ℕ
  pub maker : Address
  pub until : ℕ
  pub pending : Bool

pub record Graves : Type 0 where
  pub tombstones : List Tombstone
  pub pending_per_maker : Dict ℕ

-- `maxTombstones` and `maxPendingTombstonesPerMaker`
pub record GraveLimits : Type 0 where
  pub max_tombstones : ℕ
  pub max_pending : ℕ

abbrev pub is_for : ℕ → Address → Tombstone → Bool
is_for order_hash maker t = t.order_hash == order_hash && t.maker == maker

unfoldable pub find : ℕ → Address → List Tombstone → Option Tombstone
find order_hash maker [] = none
find order_hash maker (t ∷ rest) =
    if is_for order_hash maker t then some t else find order_hash maker rest

-- A change of the tombstone itself, which the map holds by reference.
unfoldable pub update : ℕ → Address → (Tombstone → Tombstone) → List Tombstone → List Tombstone
update order_hash maker f [] = []
update order_hash maker f (t ∷ rest) =
    if is_for order_hash maker t then f t ∷ rest else t ∷ update order_hash maker f rest

unfoldable pub unlist : ℕ → Address → List Tombstone → List Tombstone
unlist order_hash maker [] = []
unlist order_hash maker (t ∷ rest) =
    if is_for order_hash maker t then rest else t ∷ unlist order_hash maker rest

unfoldable pub is_soft_cancelled : ℕ → Address → ℕ → Graves → Bool
is_soft_cancelled order_hash maker now graves = elim (find order_hash maker graves.tombstones) [
  | none ↦ false
  | some t ↦ ltb now t.until
]

abbrev pub pending_of : Address → Dict ℕ → ℕ
pending_of maker counts = elim (get maker counts) [ none ↦ 0 | some n ↦ n ]

-- `bumpPending(maker, 1)` and `bumpPending(maker, -1)`
unfoldable pub bump_pending : Address → Dict ℕ → Dict ℕ
bump_pending maker counts = set maker (pending_of maker counts + 1) counts

unfoldable pub lower_pending : Address → Dict ℕ → Dict ℕ
lower_pending maker counts =
    let n = pending_of maker counts - 1 in
    if n == 0 then remove maker counts else set maker n counts

unfoldable pub drop_tombstone : Tombstone → Graves → Graves
drop_tombstone t graves = record {
  tombstones = unlist t.order_hash t.maker graves.tombstones;
  pending_per_maker =
      if t.pending
      then lower_pending t.maker graves.pending_per_maker
      else graves.pending_per_maker;
}

-- A loop over a map as it was, which drops the entries of a test.
unfoldable pub sweep : (Graves → Tombstone → Bool) → List Tombstone → Graves → Graves
sweep test [] graves = graves
sweep test (t ∷ rest) graves =
    sweep test rest (if test graves t then drop_tombstone t graves else graves)

-- The tests of the loops of `tombstone` past the cap: pending ones first, then any, oldest first.
unfoldable pub is_past_pending : ℕ → Graves → Tombstone → Bool
is_past_pending max graves t = ltb max (length graves.tombstones) && t.pending

unfoldable pub is_past : ℕ → Graves → Tombstone → Bool
is_past max graves t = ltb max (length graves.tombstones)

unfoldable pub trim : ℕ → Graves → Graves
trim max graves =
    let trimmed = sweep (is_past_pending max) graves.tombstones graves in
    sweep (is_past max) trimmed.tombstones trimmed

-- A cancel of a hash that has a tombstone of its maker.
unfoldable pub renew : Tombstone → ℕ → Bool → Tombstone
renew t until pending = record {
  order_hash = t.order_hash;
  maker = t.maker;
  until = if ltb t.until until then until else t.until;
  pending = t.pending && pending;
}

unfoldable pub tombstone : GraveLimits → ℕ → Address → ℕ → Bool → Graves → Graves
tombstone limits order_hash maker until pending graves =
    elim (find order_hash maker graves.tombstones) [
      | some prior ↦ record {
        tombstones = update order_hash maker (λ t. renew t until pending) graves.tombstones;
        pending_per_maker =
            if not pending && prior.pending
            then lower_pending maker graves.pending_per_maker
            else graves.pending_per_maker;
      }
      | none ↦
          if pending && leb limits.max_pending (pending_of maker graves.pending_per_maker)
          then graves
          else trim limits.max_tombstones (record {
            tombstones =
                graves.tombstones
                ++ (record {
                  order_hash = order_hash;
                  maker = maker;
                  until = until;
                  pending = pending;
                }
                    ∷ []);
            pending_per_maker =
                if pending
                then bump_pending maker graves.pending_per_maker
                else graves.pending_per_maker;
          })
    ]

unfoldable pub is_expired : ℕ → Graves → Tombstone → Bool
is_expired now graves t = leb t.until now

unfoldable pub prune_tombstones : ℕ → Graves → Graves
prune_tombstones now graves = sweep (is_expired now) graves.tombstones graves
