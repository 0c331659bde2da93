-- ===== src/Orderbook/Book/Cases.antt =====
-- The outcomes of `admit`.
use delta_x.Prelude.{
  ℕ, ◌≡◌, refl, Option, none, some, true, false, Option-cases, Bool-cases, inl, inr,
}
use delta_x.Prelude.Dict.{get, set}
use delta_x.Orderbook.Messages.{OrderAnnounce, Layer2Result}
use delta_x.Orderbook.Admission.{AdmissionPolicy, AdmissionRefusal, soft_cancelled}
use delta_x.Orderbook.Shelf.{BookEntry, shelve}
use delta_x.Orderbook.Graves.{is_soft_cancelled, update}
use delta_x.Orderbook.Book.{Book, admit, room_for, with_state, new_entry, prolong}

module _ (policy : AdmissionPolicy) (now h : ℕ) (announce : OrderAnnounce)
    (state : Option Layer2Result) (replaces : Option ℕ) (book : Book) where
  abbrev pub held_book : BookEntry → Book
  held_book existing = record book {
    shelf = record {
      entries = set h (with_state state existing) book.shelf.entries;
      maker_counts = book.shelf.maker_counts;
    };
  }

  abbrev pub cancelled_book : Book
  cancelled_book = record book {
    graves = record {
      tombstones =
          update h announce.order.maker (prolong announce.order.expiry) book.graves.tombstones;
      pending_per_maker = book.graves.pending_per_maker;
    };
  }

  abbrev pub listed_book : Book
  listed_book = record book {
    shelf =
        shelve h (new_entry now announce state)
          (room_for policy announce.order.maker replaces book.shelf).1;
  }

  -- The order is held; its maker has cancelled it; there is no place; or it is new.
  pub data AdmitCase : Type 0 where
    held :
        (existing : BookEntry)
        → get h book.shelf.entries ≡ some existing
        → admit policy now h announce state replaces book ≡ (none, held_book existing)
        → AdmitCase
    cancelled :
        get h book.shelf.entries ≡ none
        → is_soft_cancelled h announce.order.maker now book.graves ≡ true
        → admit policy now h announce state replaces book ≡ (some soft_cancelled, cancelled_book)
        → AdmitCase
    refused :
        (reason : AdmissionRefusal)
        → get h book.shelf.entries ≡ none
        → (room_for policy announce.order.maker replaces book.shelf).0 ≡ some reason
        → admit policy now h announce state replaces book ≡ (some reason, book)
        → AdmitCase
    listed :
        get h book.shelf.entries ≡ none
        → is_soft_cancelled h announce.order.maker now book.graves ≡ false
        → (room_for policy announce.order.maker replaces book.shelf).0 ≡ none
        → admit policy now h announce state replaces book ≡ (none, listed_book)
        → AdmitCase

  pub admit-cases : AdmitCase
  unfolding admit
  admit-cases = elim (Option-cases (get h book.shelf.entries)) [
    | inr (existing, found) ↦ held existing found (simp (admit, found) refl)
    | inl absent ↦ elim (Bool-cases (is_soft_cancelled h announce.order.maker now book.graves)) [
      | inl dead ↦ cancelled absent dead (simp (admit, absent, dead) refl)
      | inr free ↦
          elim (Option-cases (room_for policy announce.order.maker replaces book.shelf).0) [
            | inr (reason, full) ↦
                refused reason absent full (simp (admit, absent, free, full) refl)
            | inl room ↦ listed absent free room (simp (admit, absent, free, room) refl)
          ]
    ]
  ]
