-- ===== src/Orderbook/Ingest.antt =====
-- packages/orderbook/src/book.ts, `ingestAnnounce`, `ingestCancel` and `ingestReplace` of the class
-- Book. Each gate runs before the awaits and each landing after them; the composition of the two is
-- the call during whose awaits no other runs. A verifier's answer is `none` where it refuses.
use delta_x.Prelude.{
  ℕ, Option, none, some, List, Bool, false, not, ◌&&◌, ◌||◌, ◌==◌, if◌then◌else◌, any,
}
use delta_x.Prelude.Dict.{get, has}
use delta_x.Sdk.Order.{Order}
use delta_x.Sdk.Timing.{flag, fill_once_bit_index}
use delta_x.Orderbook.Messages.{OrderAnnounce, OrderReplace, CancelVerdict, Layer2Result}
use delta_x.Orderbook.Admission.{AdmissionRefusal}
use delta_x.Orderbook.Book.{
  Book, BookOptions, precheck, admit, apply_verified_cancel, takes_predecessor_slot,
}

pub data IngestRefusal : Type 0 where
  unhashable not_verified cancel_rejected not_named other_maker stale_nonce : IngestRefusal
  not_admitted : AdmissionRefusal → IngestRefusal

-- The verifier's answer: the order's hash, and its state where it has one.
abbrev pub VerifyResult : Type 0
VerifyResult = Option (ℕ × Option Layer2Result)

abbrev not_admitted_by : Option AdmissionRefusal → Option IngestRefusal
not_admitted_by none = none
not_admitted_by (some reason) = some (not_admitted reason)

abbrev pub includes : ℕ → List ℕ → Bool
includes h hashes = any (λ x. x == h) hashes

-- The landing of a verified announce.
unfoldable pub land_announce :
    BookOptions → ℕ → OrderAnnounce → VerifyResult → Book → Option IngestRefusal × Book
land_announce opts now announce none book = (some not_verified, book)
land_announce opts now announce (some (order_hash, state)) book =
    let admitted = admit opts.admission now order_hash announce state none book in
    (not_admitted_by admitted.0, admitted.1)

module _ (hash_order : Order → Option ℕ) where
  -- `none`: nothing more to do; a reason, or the order goes to the verifier.
  unfoldable pub announce_gate :
      BookOptions → ℕ → OrderAnnounce → Option ℕ → Book → Option (Option IngestRefusal)
  announce_gate opts now announce encoded_bytes book = elim (hash_order announce.order) [
    | none ↦ some (some unhashable)
    | some order_hash ↦
        if has order_hash book.shelf.entries
        then none
        else some (
            not_admitted_by
              (precheck opts.admission now announce.order order_hash encoded_bytes false book))
  ]

  unfoldable pub ingest_announce :
      BookOptions → ℕ → OrderAnnounce → Option ℕ → VerifyResult → Book → Option IngestRefusal × Book
  ingest_announce opts now announce encoded_bytes verified book =
      elim (announce_gate opts now announce encoded_bytes book) [
        | none ↦ (none, book)
        | some gate ↦ elim gate [
          | some reason ↦ (some reason, book)
          | none ↦ land_announce opts now announce verified book
        ]
      ]

  -- A replacement on the predecessor's nonce, where the predecessor is not fill-once.
  unfoldable pub is_stale : OrderReplace → Book → Bool
  is_stale replace book = elim (get replace.replaces book.shelf.entries) [
    | none ↦ false
    | some prev ↦
        prev.announce.order.nonce == replace.announce.order.nonce
        && not (flag prev.announce.order.timing fill_once_bit_index)
  ]

  -- The checks of a replace before its awaits.
  unfoldable pub replace_gate : BookOptions → ℕ → OrderReplace → Book → Option IngestRefusal
  replace_gate opts now replace book =
      if not (includes replace.replaces replace.cancel.cancel.order_hashes)
      then some not_named
      else if not (replace.cancel.cancel.maker == replace.announce.order.maker)
      then some other_maker
      else if is_stale replace book
      then some stale_nonce
      else elim (hash_order replace.announce.order) [
        | none ↦ some unhashable
        | some order_hash ↦ not_admitted_by (
            precheck opts.admission now replace.announce.order order_hash none
              (takes_predecessor_slot replace.announce.order.maker (some replace.replaces)
                  book.shelf
                || has order_hash book.shelf.entries)
              book)
      ]

-- The admission of a verified replacement and the retraction, in one step.
unfoldable pub swap :
    BookOptions
    → ℕ
    → OrderReplace
    → CancelVerdict
    → ℕ
    → Option Layer2Result
    → Book
    → Option IngestRefusal × Book
swap opts now replace verdict order_hash state book =
    let admitted =
      admit opts.admission now order_hash replace.announce state (some replace.replaces) book in
    elim admitted.0 [
      | some reason ↦ (some (not_admitted reason), admitted.1)
      | none ↦ (none, (apply_verified_cancel opts now replace.cancel verdict admitted.1).1)
    ]

-- The landing of a replace.
unfoldable pub land_replace :
    BookOptions
    → ℕ
    → OrderReplace
    → CancelVerdict
    → VerifyResult
    → Book
    → Option IngestRefusal × Book
land_replace opts now replace none verified book = (some cancel_rejected, book)
land_replace opts now replace (some maker) none book = (some not_verified, book)
land_replace opts now replace (some maker) (some (order_hash, state)) book =
    swap opts now replace (some maker) order_hash state book

module _ (hash_order : Order → Option ℕ) where
  unfoldable pub ingest_replace_atomic :
      BookOptions
      → ℕ
      → OrderReplace
      → CancelVerdict
      → VerifyResult
      → Book
      → Option IngestRefusal × Book
  ingest_replace_atomic opts now replace verdict verified book =
      elim (replace_gate hash_order opts now replace book) [
        | some reason ↦ (some reason, book)
        | none ↦ land_replace opts now replace verdict verified book
      ]

  -- In a replay of history the cancel half stands by itself.
  unfoldable pub ingest_replace :
      BookOptions
      → ℕ
      → Bool
      → OrderReplace
      → CancelVerdict
      → VerifyResult
      → Book
      → Option IngestRefusal × Book
  ingest_replace opts now backfill replace verdict verified book =
      let res = ingest_replace_atomic opts now replace verdict verified book in
      elim res.0 [
        | none ↦ res
        | some reason ↦
            if backfill
              && (includes replace.replaces replace.cancel.cancel.order_hashes
                  && replace.cancel.cancel.maker == replace.announce.order.maker)
            then (some reason, (apply_verified_cancel opts now replace.cancel verdict res.1).1)
            else res
      ]
