-- ===== src/Orderbook/Shelf/Counts.antt =====
-- The makers' counts are the numbers of their live orders.
use mathlib.Core.Path.{subst}
use delta_x.Prelude.{
  ℕ, ◌+◌, ◌-◌, ◌≤◌, ◌≡◌, refl, arith, none, some, [], ◌∷◌, ◌==◌, if◌then◌else◌, length,
  Option-cases, inl, inr, sym, ◌∙◌,
}
use delta_x.Prelude.Dict.{
  Dict, get, set, remove, IsMap, get-set, get-remove, set-IsMap, remove-IsMap, length-remove,
  length-remove-le,
}
use delta_x.Sdk.Order.{Address}
use delta_x.Orderbook.Shelf.{
  BookEntry, Shelf, maker_of, maker_count, count_or, evict, shelve, lower_count,
}

-- the number of a maker's entries
unfoldable pub by_maker : Address → Dict BookEntry → ℕ
by_maker m [] = 0
by_maker m ((key, e) ∷ rest) = (if maker_of e == m then 1 else 0) + by_maker m rest

pub by_maker-remove :
    (m : Address) (k : ℕ) (e : BookEntry) (d : Dict BookEntry)
    → get k d ≡ some e
    → by_maker m d ≡ by_maker m (remove k d) + (if maker_of e == m then 1 else 0)
unfolding by_maker get remove
by_maker-remove m k e [] h = absurd (ground arith)
by_maker-remove m k e ((key, a) ∷ rest) h = ground (arith, by_maker-remove m k e rest)

pub by_maker-set_new :
    (m : Address) (k : ℕ) (e : BookEntry) (d : Dict BookEntry)
    → get k d ≡ none
    → by_maker m (set k e d) ≡ by_maker m d + (if maker_of e == m then 1 else 0)
unfolding by_maker get set
by_maker-set_new m k e [] h = ground arith
by_maker-set_new m k e ((key, a) ∷ rest) h = ground (arith, by_maker-set_new m k e rest)

pub by_maker-set_same :
    (m : Address) (k : ℕ) (e e' : BookEntry) (d : Dict BookEntry)
    → get k d ≡ some e
    → maker_of e' ≡ maker_of e
    → by_maker m (set k e' d) ≡ by_maker m d
unfolding by_maker get set
by_maker-set_same m k e e' [] h s = absurd (ground arith)
by_maker-set_same m k e e' ((key, a) ∷ rest) h s = ground (arith, by_maker-set_same m k e e' rest)

pub record IsCounted (shelf : Shelf) : Type 0 where
  pub entries_unique : IsMap shelf.entries
  pub counts_unique : IsMap shelf.maker_counts
  pub counted : (m : Address) → maker_count shelf m ≡ by_maker m shelf.entries

lower_count-IsMap : (m : Address) (c : Dict ℕ) → IsMap c → IsMap (lower_count m c)
unfolding lower_count
lower_count-IsMap m c u =
    ground (arith, remove-IsMap m c u, set-IsMap m (count_or 1 (get m c) - 1) c u)

count-lower_count :
    (m j : Address) (c : Dict ℕ)
    → IsMap c
    → count_or 0 (get j (lower_count m c)) ≡ count_or 0 (get j c) - (if m == j then 1 else 0)
unfolding lower_count
count-lower_count m j c u = elim (Option-cases (get m c)) [
  | inl e ↦ ground (arith, e, get-remove m j c u, get-set m j (count_or 1 (get m c) - 1) c)
  | inr (n, e) ↦ ground (arith, e, get-remove m j c u, get-set m j (count_or 1 (get m c) - 1) c)
]

-- What evicting a live order leaves.
pub evict_found :
    (h : ℕ) (e : BookEntry) (shelf : Shelf)
    → get h shelf.entries ≡ some e
    → evict h shelf ≡ record {
      entries = remove h shelf.entries;
      maker_counts = lower_count (maker_of e) shelf.maker_counts;
    }
unfolding evict
evict_found h e shelf found = simp (evict, found) refl

pub evict_absent : (h : ℕ) (shelf : Shelf) → get h shelf.entries ≡ none → evict h shelf ≡ shelf
unfolding evict
evict_absent h shelf absent = simp (evict, absent) refl

evict_found-IsCounted :
    (h : ℕ) (e : BookEntry) (shelf : Shelf)
    → IsCounted shelf
    → get h shelf.entries ≡ some e
    → IsCounted (record {
      entries = remove h shelf.entries;
      maker_counts = lower_count (maker_of e) shelf.maker_counts;
    })
unfolding maker_count
evict_found-IsCounted h e shelf c found = record {
  entries_unique = remove-IsMap h shelf.entries c.entries_unique;
  counts_unique = lower_count-IsMap (maker_of e) shelf.maker_counts c.counts_unique;
  counted = λ m. ground (
    arith,
    count-lower_count (maker_of e) m shelf.maker_counts c.counts_unique,
    c.counted m,
    by_maker-remove m h e shelf.entries found,
  );
}

pub evict-IsCounted : (h : ℕ) (shelf : Shelf) → IsCounted shelf → IsCounted (evict h shelf)
evict-IsCounted h shelf c = elim (Option-cases (get h shelf.entries)) [
  | inl absent ↦ subst IsCounted (sym (evict_absent h shelf absent)) c
  | inr (e, found) ↦
      subst IsCounted (sym (evict_found h e shelf found)) (evict_found-IsCounted h e shelf c found)
]

pub shelve-IsCounted :
    (h : ℕ) (e : BookEntry) (shelf : Shelf)
    → IsCounted shelf
    → get h shelf.entries ≡ none
    → IsCounted (shelve h e shelf)
unfolding shelve maker_count
shelve-IsCounted h e shelf c absent = record {
  entries_unique = set-IsMap h e shelf.entries c.entries_unique;
  counts_unique = set-IsMap _ _ shelf.maker_counts c.counts_unique;
  counted = λ m. ground (
    arith,
    get-set (maker_of e) m (maker_count shelf (maker_of e) + 1) shelf.maker_counts,
    c.counted m,
    by_maker-set_new m h e shelf.entries absent,
  );
}

-- A change of an entry that leaves its maker.
pub set-IsCounted :
    (h : ℕ) (e e' : BookEntry) (shelf : Shelf)
    → IsCounted shelf
    → get h shelf.entries ≡ some e
    → maker_of e' ≡ maker_of e
    → IsCounted (record { entries = set h e' shelf.entries; maker_counts = shelf.maker_counts })
unfolding maker_count
set-IsCounted h e e' shelf c found same = record {
  entries_unique = set-IsMap h e' shelf.entries c.entries_unique;
  counts_unique = c.counts_unique;
  counted = λ m. c.counted m ∙ sym (by_maker-set_same m h e e' shelf.entries found same);
}

-- An order leaves the others of the book.
pub get-evict :
    (h j : ℕ) (shelf : Shelf)
    → IsMap shelf.entries
    → get j (evict h shelf).entries ≡ (if h == j then none else get j shelf.entries)
unfolding evict
get-evict h j shelf u = elim (Option-cases (get h shelf.entries)) [
  | inl absent ↦ ground (arith, absent)
  | inr (e, found) ↦ ground (arith, found, get-remove h j shelf.entries u)
]

pub evict-IsMap : (h : ℕ) (shelf : Shelf) → IsMap shelf.entries → IsMap (evict h shelf).entries
unfolding evict
evict-IsMap h shelf u = elim (Option-cases (get h shelf.entries)) [
  | inl absent ↦ ground (arith, absent, u)
  | inr (e, found) ↦ ground (arith, found, remove-IsMap h shelf.entries u)
]

pub by_maker-evict-le :
    (m : Address) (h : ℕ) (shelf : Shelf)
    → by_maker m (evict h shelf).entries ≤ by_maker m shelf.entries
unfolding evict
by_maker-evict-le m h shelf = elim (Option-cases (get h shelf.entries)) [
  | inl absent ↦ ground (arith, absent)
  | inr (e, found) ↦ ground (arith, found, by_maker-remove m h e shelf.entries found)
]

pub length-evict-le :
    (h : ℕ) (shelf : Shelf) → length (evict h shelf).entries ≤ length shelf.entries
unfolding evict
length-evict-le h shelf = elim (Option-cases (get h shelf.entries)) [
  | inl absent ↦ ground (arith, absent)
  | inr (e, found) ↦ ground (arith, found, length-remove-le h shelf.entries)
]

pub length-evict :
    (h : ℕ) (e : BookEntry) (shelf : Shelf)
    → get h shelf.entries ≡ some e
    → length shelf.entries ≡ length (evict h shelf).entries + 1
unfolding evict
length-evict h e shelf found = ground (arith, found, length-remove h e shelf.entries found)
