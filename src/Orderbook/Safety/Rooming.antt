-- ===== src/Orderbook/Safety/Rooming.antt =====
-- packages/orderbook/src/book.ts: the place that admit makes for an order.
use mathlib.Core.Path.{subst}
use delta_x.Prelude.{
  ℕ, ◌+◌, ◌≤◌, ◌≡◌, arith, none, some, not, ◌&&◌, ◌==◌, leb, length, Option-cases, Bool-cases, inl,
  inr, ◌⊎◌, sym,
}
use delta_x.Sdk.Order.{Address}
use delta_x.Orderbook.Admission.{AdmissionPolicy}
use delta_x.Orderbook.Shelf.{Shelf, maker_count, evict, displacement_victim}
use delta_x.Orderbook.Shelf.Counts.{length-evict, by_maker-evict-le}
use delta_x.Orderbook.Shelf.Displacement.{displacement_victim_reason}
use delta_x.Orderbook.Shelf.Caps
use delta_x.Orderbook.Shelf.Caps.{
  evict-IsSound, shelve-IsSound, shelve_spare-IsSound, set-IsSound, HasRoom,
}
use delta_x.Orderbook.Book.{make_room}

-- `make_room` finds a place, or gives up the victim for one.
pub make_room-cases :
    (policy : AdmissionPolicy) (maker : Address) (shelf : Shelf)
    → (make_room policy maker shelf).0 ≡ none
    → ((policy.max_orders_per_maker ≡ 0)
        ⊎ (maker_count shelf maker + 1 ≤ policy.max_orders_per_maker))
      × ((((policy.max_orders ≡ 0) ⊎ (length shelf.entries + 1 ≤ policy.max_orders))
            × ((make_room policy maker shelf).1 ≡ shelf))
          ⊎ ((victim : ℕ) × (displacement_victim maker policy shelf ≡ some victim)
              × ((make_room policy maker shelf).1 ≡ evict victim shelf)))
unfolding make_room
make_room-cases policy maker shelf h =
    elim (Option-cases (displacement_victim maker policy shelf)) [
      | inl stuck ↦
          (ground (arith, h, stuck), inl (ground (arith, h, stuck), ground (arith, h, stuck)))
      | inr (victim, found) ↦ (
        ground (arith, h, found),
        elim (Bool-cases
            (not (policy.max_orders == 0) && leb policy.max_orders (length shelf.entries))) [
              | inl full ↦ inr (victim, found, ground (arith, h, found, full))
              | inr room ↦ inl (ground (arith, h, room), ground (arith, h, room))
            ],
      )
    ]

-- The shelf that `make_room` leaves has a place.
pub make_room-IsSound :
    (policy : AdmissionPolicy) (maker : Address) (shelf : Shelf)
    → Caps.IsSound policy none shelf
    → (make_room policy maker shelf).0 ≡ none
    → Caps.IsSound policy none (make_room policy maker shelf).1
      × HasRoom policy (make_room policy maker shelf).1 maker
make_room-IsSound policy maker shelf s h =
    let (own, rest) = make_room-cases policy maker shelf h in
    let own_room = s.counted.counted maker in
    elim rest [
      | inl (room, e) ↦
          subst (λ x. Caps.IsSound policy none x × HasRoom policy x maker) (sym e)
            (s, (room, ground (arith, own, own_room)))
      | inr (victim, chosen, e) ↦
          let (full, entry, found, why) =
            displacement_victim_reason maker policy shelf victim s.counted chosen in
          subst (λ x. Caps.IsSound policy none x × HasRoom policy x maker) (sym e)
            (
              evict-IsSound policy shelf none victim s,
              (
                ground (arith, s.capped, length-evict victim entry shelf found),
                ground (arith, own, own_room, by_maker-evict-le maker victim shelf),
              ),
            )
    ]
