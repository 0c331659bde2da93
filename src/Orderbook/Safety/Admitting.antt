-- ===== src/Orderbook/Safety/Admitting.antt =====
-- Every step of the book keeps the counts right and the caps.
use delta_x.Orderbook.Safety.Rooming.{make_room-IsSound}
use mathlib.Core.Path.{subst}
use delta_x.Prelude.{
  ℕ, ◌≡◌, refl, arith, Option, none, some, true, false, Option-cases, Bool-cases, inl, inr, ◌⊎◌,
  sym, ◌∙◌, ap,
}
use delta_x.Prelude.Dict.{get, get-set, IsMap}
use delta_x.Sdk.Order.{Address}
use delta_x.Orderbook.Messages.{OrderAnnounce, Layer2Result}
use delta_x.Orderbook.Admission.{AdmissionPolicy}
use delta_x.Orderbook.Shelf.{BookEntry, Shelf, maker_of, shelve, displacement_victim}
use delta_x.Orderbook.Shelf.Counts.{get-evict}
use delta_x.Orderbook.Shelf.Caps
use delta_x.Orderbook.Shelf.Caps.{
  evict-IsSound, shelve-IsSound, shelve_spare-IsSound, set-IsSound, HasRoom,
}
use delta_x.Orderbook.Graves.{update}
use delta_x.Orderbook.Graves.Invariant
use delta_x.Orderbook.Graves.Update.{update-IsCounted, length-update, pending_count-update_kept}
use delta_x.Orderbook.Book.{
  Book, BookOptions, admit, make_room, takes_predecessor_slot, with_state, new_entry, prolong,
  room_for,
}
use delta_x.Orderbook.Book.Cases.{held, cancelled, refused, listed, admit-cases, listed_book}

-- The shelf keeps the caps but for one order of `extra`, and the graves keep theirs.
pub record IsSound (opts : BookOptions) (extra : Option Address) (book : Book) : Type 0 where
  pub shelf : Caps.IsSound opts.admission extra book.shelf
  pub graves : Invariant.IsSound opts.limits book.graves

-- The predecessor of a replacement is live, and the maker's.
abbrev pub HasPredecessor : Address → Option ℕ → Shelf → Type 0
HasPredecessor maker none shelf = true ≡ false
HasPredecessor maker (some r) shelf =
    (e : BookEntry) × (get r shelf.entries ≡ some e) × (maker_of e ≡ maker)

predecessor :
    (maker : Address) (replaces : Option ℕ) (shelf : Shelf)
    → takes_predecessor_slot maker replaces shelf ≡ true
    → HasPredecessor maker replaces shelf
unfolding takes_predecessor_slot
predecessor maker none shelf h = absurd (ground arith)
predecessor maker (some r) shelf h = elim (Option-cases (get r shelf.entries)) [
  | inl absent ↦ absurd (ground (arith, absent))
  | inr (e, found) ↦ (e, found, ground (arith, found))
]

room_for-IsSound :
    (policy : AdmissionPolicy) (maker : Address) (replaces : Option ℕ) (shelf : Shelf)
    → Caps.IsSound policy none shelf
    → (room_for policy maker replaces shelf).0 ≡ none
    → (HasPredecessor maker replaces shelf × ((room_for policy maker replaces shelf).1 ≡ shelf))
      ⊎ (Caps.IsSound policy none (room_for policy maker replaces shelf).1
          × HasRoom policy (room_for policy maker replaces shelf).1 maker)
unfolding room_for
room_for-IsSound policy maker replaces shelf s h =
    elim (Bool-cases (takes_predecessor_slot maker replaces shelf)) [
      | inl takes ↦ inl (predecessor maker replaces shelf takes, simp takes refl)
      | inr lacks ↦
          let e : room_for policy maker replaces shelf ≡ make_room policy maker shelf =
            simp (room_for, lacks) refl in
          inr (
            subst (λ r. Caps.IsSound policy none r.1 × HasRoom policy r.1 maker) (sym e)
              (make_room-IsSound policy maker shelf s (ap (λ r. r.0) (sym e) ∙ h)))
    ]

prolonged-IsSound :
    (opts : BookOptions) (book : Book) (h expiry : ℕ) (maker : Address)
    → Invariant.IsSound opts.limits book.graves
    → Invariant.IsSound opts.limits (record {
      tombstones = update h maker (prolong expiry) book.graves.tombstones;
      pending_per_maker = book.graves.pending_per_maker;
    })
prolonged-IsSound opts book h expiry maker s = record {
  counted =
      update-IsCounted h maker (prolong expiry) (λ t. refl) (λ t. refl) book.graves s.counted
        (λ t. refl);
  capped = omega (
    arith,
    s.capped,
    length-update h maker (prolong expiry) (λ t. refl) (λ t. refl) book.graves.tombstones,
  );
  capped_pending = λ j. omega (
    arith,
    s.capped_pending j,
    pending_count-update_kept h maker (prolong expiry) (λ t. refl) (λ t. refl) j
        book.graves.tombstones (λ t. refl),
  );
}

with_state-maker :
    (state : Option Layer2Result) (e : BookEntry) → maker_of (with_state state e) ≡ maker_of e
with_state-maker none e = refl
with_state-maker (some state) e = refl

-- A predecessor stays beside a new order.
HasPredecessor-shelve :
    (maker : Address) (replaces : Option ℕ) (h : ℕ) (e : BookEntry) (shelf : Shelf)
    → get h shelf.entries ≡ none
    → HasPredecessor maker replaces shelf
    → HasPredecessor maker replaces (shelve h e shelf)
unfolding shelve
HasPredecessor-shelve maker none h e shelf absent p = p
HasPredecessor-shelve maker (some r) h e shelf absent (prev, found, own) =
    (prev, ground (arith, absent, found, get-set h r e shelf.entries), own)

get-room_for :
    (policy : AdmissionPolicy) (maker : Address) (replaces : Option ℕ) (h : ℕ) (shelf : Shelf)
    → IsMap shelf.entries
    → get h shelf.entries ≡ none
    → get h (room_for policy maker replaces shelf).1.entries ≡ none
unfolding room_for make_room
get-room_for policy maker replaces h shelf u absent =
    elim (Option-cases (displacement_victim maker policy shelf)) [
      | inl stuck ↦ ground (arith, stuck, absent)
      | inr (victim, found) ↦ ground (arith, found, absent, get-evict victim h shelf u)
    ]

listed-IsSound :
    (opts : BookOptions) (now h : ℕ) (announce : OrderAnnounce) (state : Option Layer2Result)
    (replaces : Option ℕ) (book : Book)
    → IsSound opts none book
    → get h book.shelf.entries ≡ none
    → (room_for opts.admission announce.order.maker replaces book.shelf).0 ≡ none
    → IsSound opts none (listed_book opts.admission now h announce state replaces book)
      ⊎ (IsSound opts
            (some announce.order.maker)
            (listed_book opts.admission now h announce state replaces book)
          × HasPredecessor announce.order.maker replaces
              (listed_book opts.admission now h announce state replaces book).shelf)
listed-IsSound opts now h announce state replaces book s absent room =
    elim (room_for-IsSound opts.admission announce.order.maker replaces book.shelf s.shelf room) [
      | inl (before, e) ↦
          let one_more =
            shelve_spare-IsSound opts.admission book.shelf h (new_entry now announce state) s.shelf
              absent in
          inr (
            subst
              (λ x.
                IsSound opts (some announce.order.maker)
                  (record book { shelf = shelve h (new_entry now announce state) x })
                × HasPredecessor announce.order.maker replaces
                    (shelve h (new_entry now announce state) x))
              (sym e)
              (
                record { shelf = one_more; graves = s.graves },
                HasPredecessor-shelve announce.order.maker replaces h (new_entry now announce state)
                    book.shelf absent before,
              ))
      | inr (sound, place) ↦ inl (record {
        shelf =
            shelve-IsSound opts.admission _ h (new_entry now announce state) sound
              (get-room_for opts.admission announce.order.maker replaces h book.shelf
                s.shelf.counted.entries_unique absent)
              place;
        graves = s.graves;
      })
    ]

-- After `admit` the caps hold, or the new order stands beside its predecessor.
pub admit-IsSound :
    (opts : BookOptions) (now h : ℕ) (announce : OrderAnnounce) (state : Option Layer2Result)
    (replaces : Option ℕ) (book : Book)
    → IsSound opts none book
    → IsSound opts none (admit opts.admission now h announce state replaces book).1
      ⊎ (IsSound opts
            (some announce.order.maker)
            (admit opts.admission now h announce state replaces book).1
          × HasPredecessor announce.order.maker replaces
              (admit opts.admission now h announce state replaces book).1.shelf
          × ((admit opts.admission now h announce state replaces book).0 ≡ none))
admit-IsSound opts now h announce state replaces book s =
    elim (admit-cases opts.admission now h announce state replaces book) [
      | held existing found e ↦ inl (
          subst (λ r. IsSound opts none r.1) (sym e)
            (record {
              shelf =
                  set-IsSound opts.admission book.shelf none h existing (with_state state existing)
                    s.shelf found (with_state-maker state existing);
              graves = s.graves;
            }))
      | cancelled absent dead e ↦ inl (
          subst (λ r. IsSound opts none r.1) (sym e)
            (record {
              shelf = s.shelf;
              graves =
                  prolonged-IsSound opts book h announce.order.expiry announce.order.maker s.graves;
            }))
      | refused reason absent full e ↦ inl (subst (λ r. IsSound opts none r.1) (sym e) s)
      | listed absent free room e ↦
          elim (listed-IsSound opts now h announce state replaces book s absent room) [
            | inl sound ↦ inl (subst (λ r. IsSound opts none r.1) (sym e) sound)
            | inr (sound, before) ↦ inr (
                subst
                  (λ r.
                    IsSound opts (some announce.order.maker) r.1
                    × HasPredecessor announce.order.maker replaces r.1.shelf
                    × (r.0 ≡ none))
                  (sym e) (sound, before, refl))
          ]
    ]
