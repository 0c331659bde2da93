-- ===== src/Orderbook/Tests.antt =====
-- A book of two places and the theorems at it.
use delta_x.Prelude.{
  ℕ, ◌+◌, ◌≤◌, ◌≡◌, ◌≢◌, ◌⊎◌, refl, arith, Option, none, some, List, [], ◌∷◌, true, false, ◌==◌,
  if◌then◌else◌, length,
}
use delta_x.Prelude.Dict.{get, set, remove, has}
use delta_x.Sdk.Order.{Address, Order, LegOut, sell}
use delta_x.Sdk.Timing.{flag}
use delta_x.Orderbook.Messages.{
  OrderAnnounce, SignedSoftCancel, OrderReplace, Layer2Result, inconclusive, cancelled_nonces,
}
use delta_x.Orderbook.Admission.{
  AdmissionContext, default_admission, soft_cancelled, check_admission, check_order, check_capacity,
  too_large, lists_tokens,
}
use delta_x.Orderbook.Admission.Bounds.{IsWithin, HasPlace, check_admission-none}
use delta_x.Orderbook.Shelf.{
  BookEntry, displacement_victim, maker_of, maker_count, evict, shelve, lower_count, first_dead,
  is_dead, top_maker, furthest, largest_victim,
}
use delta_x.Orderbook.Shelf.Displacement.{displacement_victim_reason, IsLargest}
use delta_x.Orderbook.Graves.{
  tombstone, is_soft_cancelled, find, update, renew, trim, sweep, is_past, is_past_pending,
  bump_pending, lower_pending, drop_tombstone, unlist,
}
use delta_x.Orderbook.Graves.Kept.{real_count}
use delta_x.Orderbook.Graves.Cancelled.{IsKept, tombstone-IsKept}
use delta_x.Orderbook.Book.{
  Book, BookOptions, empty_book, admit, retract, retract_all, apply_verified_cancel, pending_until,
  precheck, make_room, room_for, takes_predecessor_slot,
}
use delta_x.Orderbook.Ingest.{
  includes, land_announce, ingest_replace_atomic, cancel_rejected, replace_gate, is_stale,
  land_replace, swap,
}
use delta_x.Orderbook.Events.{apply_chain_event, evict_matching, matches, is_fill_once_entry}
use delta_x.Orderbook.Recheck.{revalidate, recheck, recheck_one, expire, drop_expired, should_evict}
use delta_x.Orderbook.Safety.Admitting.{IsSound}
use delta_x.Orderbook.Safety.Reachable.{Reach, start, later, announced, cancelled, Reach-IsSound}
use delta_x.Orderbook.Effects.Evictions.{holds}
use delta_x.Orderbook.Effects.Chain.{view}
use delta_x.Orderbook.Effects.Retired.{IsRetired, apply_chain_event-IsRetired}
use delta_x.Orderbook.Effects.Cancels.{view-apply_verified_cancel}
use delta_x.Orderbook.Effects.Cancelled.{retract-soft_cancelled}
use delta_x.Orderbook.Effects.Replaces.{
  ingest_replace_atomic_refused, ingest_replace_atomic_swapped,
}
use delta_x.Orderbook.Effects.Strikes.{run_cycles, run_cycles_evicts}

abbrev output : LegOut
output = record { token = 1; start = 100; end = 90; recipient = 0 }

abbrev pub order : Address → ℕ → ℕ → Order
order maker nonce expiry = record {
  maker = maker;
  side = sell;
  nonce = nonce;
  expiry = expiry;
  legs_in = [];
  legs_out = output ∷ [];
  timing = 0;
  exclusive_filler = 0;
  min_fill_anchor = 0;
  exclusivity_override_bps = 0;
  curve = [];
  gas_bump_bps = 0;
  gas_price_ref = 0;
  priority_scale = 0;
  baseline_priority_fee_wei = none;
  items = [];
  validators = [];
  invariants = [];
  fill_module = 0;
  fill_total = 0;
  pricing_module = 0;
}

abbrev pub announce : Address → ℕ → ℕ → OrderAnnounce
announce maker nonce expiry = record {
  order = order maker nonce expiry;
  sig = [];
  sigless = false;
  permits = [];
}

abbrev opts : BookOptions
opts = record {
  admission = record default_admission { max_orders = 2; max_orders_per_maker = 2 };
  limits = record { max_tombstones = 2; max_pending = 1 };
  max_inconclusive_strikes = 2;
  evict_when = none;
}

abbrev pub decode : List ℕ → Option ℕ
decode [] = none
decode (a ∷ rest) = some a

runs : Unit {0}
unfolding default_admission get set remove has evict shelve lower_count maker_count first_dead
    is_dead top_maker furthest largest_victim displacement_victim tombstone is_soft_cancelled find
    update renew trim sweep is_past is_past_pending bump_pending lower_pending drop_tombstone unlist
    real_count empty_book admit retract retract_all apply_verified_cancel pending_until precheck
    make_room room_for takes_predecessor_slot land_announce ingest_replace_atomic replace_gate
    is_stale land_replace swap apply_chain_event evict_matching matches is_fill_once_entry
    revalidate recheck recheck_one expire drop_expired should_evict check_admission check_order
    check_capacity too_large lists_tokens flag
runs = tt

-- Two orders of the first maker.
abbrev book_one : Book
book_one = (land_announce opts 10 (announce 1 5 500) (some (11, none)) empty_book).1

abbrev book_two : Book
book_two = (land_announce opts 10 (announce 1 6 600) (some (12, none)) book_one).1

-- The second maker's order displaces the later of them.
abbrev book_three : Book
book_three = (land_announce opts 20 (announce 2 5 700) (some (21, none)) book_two).1

book_two_reached : Reach opts decode book_two
book_two_reached =
    later (later start (announced 10 (announce 1 5 500) (some (11, none))))
      (announced 10 (announce 1 6 600) (some (12, none)))

book_three_reached : Reach opts decode book_three
book_three_reached = later book_two_reached (announced 20 (announce 2 5 700) (some (21, none)))

Reach-IsSound_example : IsSound opts none book_three
Reach-IsSound_example = Reach-IsSound opts decode book_three_reached

displaced : get 12 book_three.shelf.entries ≡ none
unfolding runs
displaced = refl

book_two-IsSound : IsSound opts none book_two
book_two-IsSound = Reach-IsSound opts decode book_two_reached

displacement_victim_reason_example :
    (opts.admission.max_orders ≤ length book_two.shelf.entries)
    × (e : BookEntry) × (get 12 book_two.shelf.entries ≡ some e)
    × ((is_dead e ≡ true) ⊎ IsLargest 2 book_two.shelf e)
unfolding runs
displacement_victim_reason_example =
    displacement_victim_reason 2 opts.admission book_two.shelf 12 book_two-IsSound.shelf.counted
      refl

-- The nonce of the first order is spent on chain.
apply_chain_event-IsRetired_example :
    IsRetired decode
      (cancelled_nonces 1 (5 ∷ []))
      (view book_two)
      (view (apply_chain_event decode (cancelled_nonces 1 (5 ∷ [])) book_two).1)
      (apply_chain_event decode (cancelled_nonces 1 (5 ∷ [])) book_two).0
      11
apply_chain_event-IsRetired_example =
    apply_chain_event-IsRetired decode (cancelled_nonces 1 (5 ∷ [])) book_two 11
      book_two-IsSound.shelf.counted.entries_unique

abbrev cancel_of : Address → List ℕ → SignedSoftCancel
cancel_of maker hashes = record {
  cancel = record { maker = maker; order_hashes = hashes; issued_at = 10; expiry = 400 };
  sig = [];
}

view-apply_verified_cancel_example :
    (get 11
        (apply_verified_cancel opts 10 (cancel_of 1 (11 ∷ [])) (some 1) book_two).1.shelf.entries
      ≡ none)
    × (includes 11 (apply_verified_cancel opts 10 (cancel_of 1 (11 ∷ [])) (some 1) book_two).0
        ≡ true)
unfolding runs
view-apply_verified_cancel_example =
    view-apply_verified_cancel opts 10 (cancel_of 1 (11 ∷ [])) (some 1) book_two 11
      book_two-IsSound.shelf.counted.entries_unique

abbrev pub first_entry : BookEntry
first_entry = record {
  announce = announce 1 5 500;
  added_at = 10;
  state = none;
  inconclusive_strikes = 0;
}

abbrev without_first : Book
without_first = (retract opts 10 1 400 11 book_two).1

retract-soft_cancelled_example :
    (get 11 without_first.shelf.entries ≡ none)
    × (precheck opts.admission 450 (order 1 5 500) 11 none false without_first
        ≡ some soft_cancelled)
    × ((admit opts.admission 450 11 (announce 1 5 500) none none without_first).0
        ≡ some soft_cancelled)
    × (get 11
          (admit opts.admission 450 11 (announce 1 5 500) none none without_first).1.shelf.entries
        ≡ none)
unfolding runs
retract-soft_cancelled_example =
    retract-soft_cancelled opts 10 400 11 first_entry book_two book_two-IsSound refl (omega arith)
      450 (announce 1 5 500) none none none false refl (omega arith)

without_first-IsSound : IsSound opts none without_first
unfolding runs
without_first-IsSound =
    Reach-IsSound opts decode
      (later book_two_reached (cancelled 10 (cancel_of 1 (11 ∷ [])) (some 1)))

abbrev replace : OrderReplace
replace = record { cancel = cancel_of 1 (11 ∷ []); announce = announce 1 7 800; replaces = 11 }

abbrev hash : Order → Option ℕ
hash o = some (o.nonce + 6)

abbrev replaced_book : Book
replaced_book = (ingest_replace_atomic hash opts 30 replace (some 1) (some (13, none)) book_two).1

ingest_replace_atomic_swapped_example :
    ((e : BookEntry) × (get 13 replaced_book.shelf.entries ≡ some e))
    × (holds (λ e. maker_of e == 1) (get 11 replaced_book.shelf.entries) ≡ false)
unfolding runs
ingest_replace_atomic_swapped_example =
    ingest_replace_atomic_swapped hash opts 30 replace (some 1) (some (13, none)) book_two 13 none
      11 book_two-IsSound refl refl refl refl refl

-- A replace whose cancel is not verified.
ingest_replace_atomic_refused_example :
    get 11 (ingest_replace_atomic hash opts 30 replace none none book_two).1.shelf.entries
    ≡ some first_entry
unfolding runs
ingest_replace_atomic_refused_example =
    ingest_replace_atomic_refused hash opts 30 replace none none book_two cancel_rejected refl 11

abbrev silent : Layer2Result
silent = record {
  is_ok = false;
  status = inconclusive;
  fillable_amount = 0;
  is_signature_valid = false;
  validators_pass = false;
  isolated = true;
  erc2612_live = false;
}

-- Two cycles in which the verifier is silent on the first order.
run_cycles_evicts_example :
    get 11
      (run_cycles opts
        ((30, λ h. some silent) ∷ (40, λ h. if h == 11 then some silent else none) ∷ [])
        book_two).shelf.entries
    ≡ none
unfolding runs
run_cycles_evicts_example =
    run_cycles_evicts opts 11
      ((30, λ h. some silent) ∷ (40, λ h. if h == 11 then some silent else none) ∷ []) book_two
      book_two-IsSound ((silent, refl, (refl, refl)), ((silent, refl, (refl, refl)), tt))
      (omega arith) (omega arith)

-- The tombstone of the first order, and a cancel of a hash that is not on the book.
tombstone-IsKept_example :
    IsKept 11 1 500 (tombstone opts.limits 77 3 900 true without_first.graves)
unfolding runs
tombstone-IsKept_example =
    tombstone-IsKept opts.limits 11 77 1 3 500 900 true without_first.graves
      without_first-IsSound.graves (omega arith)
      (record { order_hash = 11; maker = 1; until = 500; pending = false }, refl, refl, omega arith)

abbrev context : AdmissionContext
context = record {
  size = 1;
  maker_count = λ m. 1;
  now = 10;
  known = false;
  encoded_bytes = some 300;
  can_displace = λ m. false;
}

check_admission-none_example :
    ((check_admission (order 1 5 500) context opts.admission ≡ none)
      × IsWithin opts.admission context (order 1 5 500)
      × ((false ≡ true) ⊎ HasPlace opts.admission context (order 1 5 500)))
    ⊎ ((check_admission (order 1 5 500) context opts.admission ≢ none)
        × ¬ (
            IsWithin opts.admission context (order 1 5 500)
            × ((false ≡ true) ⊎ HasPlace opts.admission context (order 1 5 500))))
check_admission-none_example = check_admission-none opts.admission context (order 1 5 500)
