-- ===== src/Orderbook/Query/Sorted.antt =====
-- The rows in their order.
use delta_x.Prelude.{ℕ, ◌≢◌, arith, List, [], ◌∷◌, inl, inr, Bool-cases}
use delta_x.Orderbook.Query.{
  Row, OrderQuery, Texts, key_of, compare_keys, is_above, descends, insert_row, sort_rows,
  filter_rows, is_match,
}
use delta_x.Orderbook.Query.Keys.{IsPast, IsPast-trans, IsPast-total}

-- No row has the hash.
abbrev pub IsNew : ℕ → List Row → Type 0
IsNew h [] = Unit {0}
IsNew h (row ∷ rest) = (row.0 ≢ h) × IsNew h rest

-- No hash twice.
abbrev pub IsDistinct : List Row → Type 0
IsDistinct [] = Unit {0}
IsDistinct (row ∷ rest) = IsNew row.0 rest × IsDistinct rest

filter_rows-IsNew :
    (q : OrderQuery) (h : ℕ) (rows : List Row) → IsNew h rows → IsNew h (filter_rows q rows)
unfolding filter_rows
filter_rows-IsNew q h [] n = n
filter_rows-IsNew q h (row ∷ rest) n = elim (Bool-cases (is_match q row)) [
  | inl kept ↦ simp kept (n.0, filter_rows-IsNew q h rest n.1)
  | inr left ↦ simp left (filter_rows-IsNew q h rest n.1)
]

pub filter_rows-IsDistinct :
    (q : OrderQuery) (rows : List Row) → IsDistinct rows → IsDistinct (filter_rows q rows)
unfolding filter_rows
filter_rows-IsDistinct q [] u = u
filter_rows-IsDistinct q (row ∷ rest) u = elim (Bool-cases (is_match q row)) [
  | inl kept ↦ simp kept (filter_rows-IsNew q row.0 rest u.0, filter_rows-IsDistinct q rest u.1)
  | inr left ↦ simp left (filter_rows-IsDistinct q rest u.1)
]

module _ (texts : Texts) (q : OrderQuery) where
  abbrev pub IsAfter : Row → Row → Type 0
  IsAfter a b = IsPast (descends q) (key_of texts q a) (key_of texts q b)

  -- Each of the rows sorts after the row.
  abbrev pub AreAfter : Row → List Row → Type 0
  AreAfter row [] = Unit {0}
  AreAfter row (x ∷ rest) = IsAfter x row × AreAfter row rest

  abbrev pub IsSorted : List Row → Type 0
  IsSorted [] = Unit {0}
  IsSorted (row ∷ rest) = AreAfter row rest × IsSorted rest

  insert_row-IsNew :
      (h : ℕ) (row : Row) (rows : List Row)
      → row.0 ≢ h
      → IsNew h rows
      → IsNew h (insert_row texts q row rows)
  unfolding insert_row
  insert_row-IsNew h row [] apart n = (apart, n)
  insert_row-IsNew h row (x ∷ rest) apart n =
      elim (Bool-cases
        (is_above (compare_keys (descends q) (key_of texts q row) (key_of texts q x)))) [
          | inl past ↦ simp past (n.0, insert_row-IsNew h row rest apart n.1)
          | inr before ↦ simp before (apart, n)
        ]

  insert_row-AreAfter :
      (first row : Row) (rows : List Row)
      → IsAfter row first
      → AreAfter first rows
      → AreAfter first (insert_row texts q row rows)
  unfolding insert_row
  insert_row-AreAfter first row [] p all_past = (p, all_past)
  insert_row-AreAfter first row (x ∷ rest) p all_past =
      elim (Bool-cases
        (is_above (compare_keys (descends q) (key_of texts q row) (key_of texts q x)))) [
          | inl past ↦ simp past (all_past.0, insert_row-AreAfter first row rest p all_past.1)
          | inr before ↦ simp before (p, all_past)
        ]

  AreAfter-trans : (a b : Row) (rows : List Row) → IsAfter b a → AreAfter b rows → AreAfter a rows
  AreAfter-trans a b [] p all_past = all_past
  AreAfter-trans a b (x ∷ rest) p all_past = (
    IsPast-trans (descends q) (key_of texts q x) (key_of texts q b) (key_of texts q a) all_past.0 p,
    AreAfter-trans a b rest p all_past.1,
  )

  insert_row-IsSorted :
      (row : Row) (rows : List Row)
      → IsNew row.0 rows
      → IsSorted rows
      → IsSorted (insert_row texts q row rows)
  unfolding insert_row
  insert_row-IsSorted row [] n s = (tt, tt)
  insert_row-IsSorted row (x ∷ rest) n s =
      elim (Bool-cases
        (is_above (compare_keys (descends q) (key_of texts q row) (key_of texts q x)))) [
          | inl past ↦
              simp past
                (insert_row-AreAfter x row rest past s.0, insert_row-IsSorted row rest n.1 s.1)
          | inr before ↦
              let after : IsAfter x row =
                elim (IsPast-total (descends q) (key_of texts q x) (key_of texts q row) n.0) [
                  | inl p ↦ p
                  | inr p ↦ absurd (ground (arith, p, before))
                ] in
              simp before ((after, AreAfter-trans row x rest after s.0), s)
        ]

  sort_rows-IsNew : (h : ℕ) (rows : List Row) → IsNew h rows → IsNew h (sort_rows texts q rows)
  unfolding sort_rows
  sort_rows-IsNew h [] n = n
  sort_rows-IsNew h (row ∷ rest) n =
      insert_row-IsNew h row (sort_rows texts q rest) n.0 (sort_rows-IsNew h rest n.1)

  pub sort_rows-IsSorted : (rows : List Row) → IsDistinct rows → IsSorted (sort_rows texts q rows)
  unfolding sort_rows
  sort_rows-IsSorted [] u = u
  sort_rows-IsSorted (row ∷ rest) u =
      insert_row-IsSorted row (sort_rows texts q rest) (sort_rows-IsNew row.0 rest u.0)
        (sort_rows-IsSorted rest u.1)
