-- ===== src/Orderbook/Shelf/Caps.antt =====
-- The caps of the policy on the live orders. While a replacement stands beside the order that it
-- replaces, one order of its maker may be past them.

use delta_x.Prelude.{
  ℕ, ◌+◌, ◌≤◌, ◌≡◌, arith, Option, none, some, ◌==◌, if◌then◌else◌, length, inl, inr, ◌⊎◌,
  Bool-cases,
}
use delta_x.Prelude.Dict.{get, set, length-set_new, length-set_same}
use delta_x.Sdk.Order.{Address}
use delta_x.Orderbook.Admission.{AdmissionPolicy}
use delta_x.Orderbook.Shelf.{BookEntry, Shelf, maker_of, evict, shelve}
use delta_x.Orderbook.Shelf.Counts.{
  IsCounted, by_maker, evict-IsCounted, shelve-IsCounted, set-IsCounted, by_maker-evict-le,
  length-evict-le, length-evict, by_maker-set_new, by_maker-set_same, evict_found, by_maker-remove,
}

abbrev pub spare : Option Address → ℕ
spare none = 0
spare (some a) = 1

abbrev pub spare_of : Option Address → Address → ℕ
spare_of none m = 0
spare_of (some a) m = if a == m then 1 else 0

-- The counts are right and the caps hold, but for one order of `extra`.
pub record IsSound (policy : AdmissionPolicy) (extra : Option Address) (shelf : Shelf)
    : Type 0 where
  pub counted : IsCounted shelf
  pub capped : (policy.max_orders ≡ 0) ⊎ (length shelf.entries ≤ policy.max_orders + spare extra)
  pub capped_maker :
      (m : Address)
      → (policy.max_orders_per_maker ≡ 0)
        ⊎ (by_maker m shelf.entries ≤ policy.max_orders_per_maker + spare_of extra m)

module _ (policy : AdmissionPolicy) (shelf : Shelf) where
  pub evict-IsSound :
      (extra : Option Address) (h : ℕ)
      → IsSound policy extra shelf
      → IsSound policy extra (evict h shelf)
  evict-IsSound extra h s = record {
    counted = evict-IsCounted h shelf s.counted;
    capped = ground (arith, s.capped, length-evict-le h shelf);
    capped_maker = λ m. ground (arith, s.capped_maker m, by_maker-evict-le m h shelf);
  }

  by_maker-evict :
      (m : Address) (h : ℕ) (e : BookEntry)
      → get h shelf.entries ≡ some e
      → by_maker m shelf.entries
        ≡ by_maker m (evict h shelf).entries + (if maker_of e == m then 1 else 0)
  by_maker-evict m h e found =
      rw (evict_found h e shelf found) (by_maker-remove m h e shelf.entries found)

  -- An order of the maker that is one past the caps goes.
  pub evict-spends :
      (a : Address) (h : ℕ) (e : BookEntry)
      → IsSound policy (some a) shelf
      → get h shelf.entries ≡ some e
      → maker_of e ≡ a
      → IsSound policy none (evict h shelf)
  evict-spends a h e s found own = record {
    counted = evict-IsCounted h shelf s.counted;
    capped = ground (arith, s.capped, length-evict h e shelf found);
    capped_maker = λ m. ground (arith, s.capped_maker m, by_maker-evict m h e found, own);
  }

  pub spare-IsSound : (a : Address) → IsSound policy none shelf → IsSound policy (some a) shelf
  spare-IsSound a s = record {
    counted = s.counted;
    capped = ground (arith, s.capped);
    capped_maker = λ m. ground (arith, s.capped_maker m);
  }

  -- A new order of the maker that may be one past the caps.
  pub shelve_spare-IsSound :
      (h : ℕ) (e : BookEntry)
      → IsSound policy none shelf
      → get h shelf.entries ≡ none
      → IsSound policy (some (maker_of e)) (shelve h e shelf)
  unfolding shelve
  shelve_spare-IsSound h e s absent = record {
    counted = shelve-IsCounted h e shelf s.counted absent;
    capped = ground (arith, s.capped, length-set_new h e shelf.entries absent);
    capped_maker =
        λ m. ground (arith, s.capped_maker m, by_maker-set_new m h e shelf.entries absent);
  }

  -- There is a place for an order of the maker.
  abbrev pub HasRoom : Address → Type 0
  HasRoom a =
      ((policy.max_orders ≡ 0) ⊎ (length shelf.entries + 1 ≤ policy.max_orders))
      × ((policy.max_orders_per_maker ≡ 0)
          ⊎ (by_maker a shelf.entries + 1 ≤ policy.max_orders_per_maker))

  pub shelve-IsSound :
      (h : ℕ) (e : BookEntry)
      → IsSound policy none shelf
      → get h shelf.entries ≡ none
      → HasRoom (maker_of e)
      → IsSound policy none (shelve h e shelf)
  unfolding shelve
  shelve-IsSound h e s absent room = record {
    counted = shelve-IsCounted h e shelf s.counted absent;
    capped = ground (arith, room.0, length-set_new h e shelf.entries absent);
    capped_maker = λ m. elim (Bool-cases (maker_of e == m)) [
      | inl own ↦ ground (arith, room.1, own, by_maker-set_new m h e shelf.entries absent)
      | inr other ↦
          ground (arith, s.capped_maker m, other, by_maker-set_new m h e shelf.entries absent)
    ];
  }

  pub set-IsSound :
      (extra : Option Address) (h : ℕ) (e e' : BookEntry)
      → IsSound policy extra shelf
      → get h shelf.entries ≡ some e
      → maker_of e' ≡ maker_of e
      → IsSound policy extra
          (record { entries = set h e' shelf.entries; maker_counts = shelf.maker_counts })
  set-IsSound extra h e e' s found same = record {
    counted = set-IsCounted h e e' shelf s.counted found same;
    capped = ground (arith, s.capped, length-set_same h e e' shelf.entries found);
    capped_maker =
        λ m. ground (arith, s.capped_maker m, by_maker-set_same m h e e' shelf.entries found same);
  }
