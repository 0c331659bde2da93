-- ===== src/Orderbook/Query/Pages.antt =====
-- The pages of a query, one after another.
use delta_x.Prelude.{
  ℕ, ◌+◌, ◌-◌, ◌≤◌, ◌≡◌, refl, arith, Option, none, some, List, [], ◌∷◌, ◌++◌, false, ltb, ◌==◌,
  if◌then◌else◌, ◌⊎◌, inl, inr, Bool-cases, Option-cases, length, ap, sym, ◌∙◌,
}
use mathlib.Core.Path.{subst}
use delta_x.Orderbook.Query.{
  Row, Key, OrderQuery, Texts, key_of, compare_keys, is_above, descends, sort_rows, filter_rows,
  rows_past, rows_after, cursor_key, rows_from, last_row, take, page_of, query_orders,
  encode_cursor, next_cursor, insert_row, compare_rows, is_match,
}
use delta_x.Orderbook.Query.Keys.{IsPast-irrefl, IsPast-asym, IsReadable, decode-encode_cursor}
use delta_x.Orderbook.Query.Sorted.{
  IsDistinct, filter_rows-IsDistinct, IsAfter, AreAfter, IsSorted, sort_rows-IsSorted,
}

last_row-none : (rows : List Row) → last_row rows ≡ none → rows ≡ []
unfolding last_row
last_row-none [] e = refl
last_row-none (x ∷ rest) e = elim (Option-cases (last_row rest)) [
  | inl final ↦ absurd (ground (arith, e, final))
  | inr (r, found) ↦ absurd (ground (arith, e, found))
]

take_all :
    (n : ℕ) (rows : List Row)
    → ltb (length (take n rows)) (length rows) ≡ false
    → take n rows ≡ rows
take_all n [] h = refl
take_all n (x ∷ rest) h = ground (arith, h, take_all (n - 1) rest)

module _ (texts : Texts) (q : OrderQuery) where
  -- Rows that all sort after a row are all past it.
  rows_past-after :
      (row : Row) (rows : List Row)
      → AreAfter texts q row rows
      → rows_past texts q (key_of texts q row) rows ≡ rows
  unfolding rows_past
  rows_past-after row [] p = refl
  rows_past-after row (x ∷ rest) p = simp p.0 refl

  AreAfter-rows_past :
      (row : Row) (after : Key) (rows : List Row)
      → AreAfter texts q row rows
      → AreAfter texts q row (rows_past texts q after rows)
  unfolding rows_past
  AreAfter-rows_past row after [] p = p
  AreAfter-rows_past row after (x ∷ rest) p =
      elim (Bool-cases (is_above (compare_keys (descends q) (key_of texts q x) after))) [
        | inl past ↦ simp past p
        | inr before ↦ simp before (AreAfter-rows_past row after rest p.1)
      ]

  AreAfter-last :
      (first last : Row) (n : ℕ) (rows : List Row)
      → AreAfter texts q first rows
      → last_row (take n rows) ≡ some last
      → IsAfter texts q last first
  unfolding last_row
  AreAfter-last first last n [] p e = absurd (ground (arith, e))
  AreAfter-last first last n (x ∷ rest) p e = elim (Bool-cases (n == 0)) [
    | inl zero ↦ absurd (ground (arith, e, zero))
    | inr more ↦ elim (Option-cases (last_row (take (n - 1) rest))) [
      | inl final ↦ subst (λ r. IsAfter texts q r first) (ground (arith, e, more, final)) p.0
      | inr (r, found) ↦
          subst (λ r. IsAfter texts q r first) (ground (arith, e, more, found))
            (AreAfter-last first r (n - 1) rest p.1 found)
    ]
  ]

  -- A page, and the rows past its last one.
  take-rows_past :
      (n : ℕ) (rows : List Row) (last : Row)
      → IsSorted texts q rows
      → last_row (take n rows) ≡ some last
      → take n rows ++ rows_past texts q (key_of texts q last) rows ≡ rows
  unfolding rows_past last_row
  take-rows_past n [] last s e = refl
  take-rows_past n (x ∷ rest) last s e = elim (Bool-cases (n == 0)) [
    | inl zero ↦ absurd (ground (arith, e, zero))
    | inr more ↦ elim (Option-cases (last_row (take (n - 1) rest))) [
      | inl final ↦
          subst
            (λ l. take n (x ∷ rest) ++ rows_past texts q (key_of texts q l) (x ∷ rest) ≡ x ∷ rest)
            {x = x} {y = last} (ground (arith, e, more, final))
            (simp
              (
                more,
                last_row-none (take (n - 1) rest) final,
                IsPast-irrefl (descends q) (key_of texts q x),
                rows_past-after x rest s.0,
              )
              refl)
      | inr (r, found) ↦
          let later =
            IsPast-asym (descends q) (key_of texts q r) (key_of texts q x)
              (AreAfter-last x r (n - 1) rest s.0 found) in
          subst
            (λ l. take n (x ∷ rest) ++ rows_past texts q (key_of texts q l) (x ∷ rest) ≡ x ∷ rest)
            {x = r} {y = last} (ground (arith, e, more, found))
            (simp (more, later, take-rows_past (n - 1) rest r s.1 found) refl)
    ]
  ]

  -- The rows past a row that is among those past a key.
  rows_past-later :
      (after : Key) (n : ℕ) (rows : List Row) (last : Row)
      → IsSorted texts q rows
      → last_row (take n (rows_past texts q after rows)) ≡ some last
      → rows_past texts q (key_of texts q last) rows
        ≡ rows_past texts q (key_of texts q last) (rows_past texts q after rows)
  unfolding rows_past last_row
  rows_past-later after n [] last s e = refl
  rows_past-later after n (x ∷ rest) last s e =
      elim (Bool-cases (is_above (compare_keys (descends q) (key_of texts q x) after))) [
        | inl past ↦ simp past refl
        | inr before ↦
            let skip : rows_past texts q after (x ∷ rest) ≡ rows_past texts q after rest =
              simp before refl in
            let found = ap (λ r. last_row (take n r)) (sym skip) ∙ e in
            let later = IsPast-asym (descends q) (key_of texts q last) (key_of texts q x) (
              AreAfter-last x last n (rows_past texts q after rest)
                (AreAfter-rows_past x after rest s.0) found) in
            simp (before, later) (rows_past-later after n rest last s.1 found)
      ]

  rows_past-IsSorted :
      (after : Key) (rows : List Row)
      → IsSorted texts q rows
      → IsSorted texts q (rows_past texts q after rows)
  unfolding rows_past
  rows_past-IsSorted after [] s = s
  rows_past-IsSorted after (x ∷ rest) s =
      elim (Bool-cases (is_above (compare_keys (descends q) (key_of texts q x) after))) [
        | inl past ↦ simp past s
        | inr before ↦ simp before (rows_past-IsSorted after rest s.1)
      ]

  abbrev with_cursor : List ℕ → OrderQuery
  with_cursor c = record q { cursor = some c }

  filter_rows-with_cursor :
      (c : List ℕ) (rows : List Row) → filter_rows (with_cursor c) rows ≡ filter_rows q rows
  unfolding filter_rows is_match
  filter_rows-with_cursor c [] = refl
  filter_rows-with_cursor c (row ∷ rest) =
      ap (λ others. if is_match q row then row ∷ others else others)
        (filter_rows-with_cursor c rest)

  insert_row-with_cursor :
      (c : List ℕ) (row : Row) (rows : List Row)
      → insert_row texts (with_cursor c) row rows ≡ insert_row texts q row rows
  unfolding insert_row descends
  insert_row-with_cursor c row [] = refl
  insert_row-with_cursor c row (x ∷ rest) =
      ap (λ others. if is_above (compare_rows texts q row x) then x ∷ others else row ∷ x ∷ rest)
        (insert_row-with_cursor c row rest)

  sort_rows-with_cursor :
      (c : List ℕ) (rows : List Row) → sort_rows texts (with_cursor c) rows ≡ sort_rows texts q rows
  unfolding sort_rows
  sort_rows-with_cursor c [] = refl
  sort_rows-with_cursor c (row ∷ rest) =
      insert_row-with_cursor c row (sort_rows texts (with_cursor c) rest)
      ∙ ap (insert_row texts q row) (sort_rows-with_cursor c rest)

  rows_past-with_cursor :
      (c : List ℕ) (after : Key) (rows : List Row)
      → rows_past texts (with_cursor c) after rows ≡ rows_past texts q after rows
  unfolding rows_past descends
  rows_past-with_cursor c after [] = refl
  rows_past-with_cursor c after (row ∷ rest) =
      ap
        (λ others.
          if is_above (compare_keys (descends q) (key_of texts q row) after)
          then row ∷ rest
          else others)
        (rows_past-with_cursor c after rest)

  abbrev sorted : List Row → List Row
  sorted rows = sort_rows texts q (filter_rows q rows)

  -- The rows that the cursor of a key leaves.
  rows_from-with_cursor :
      (key : Key) (rows : List Row)
      → IsReadable texts
      → rows_from texts (with_cursor (encode_cursor texts key)) rows
        ≡ rows_past texts q key (sorted rows)
  unfolding rows_from cursor_key
  rows_from-with_cursor key rows r =
      let c = encode_cursor texts key in
      ap
        (λ k.
          rows_after texts (with_cursor c) k
            (sort_rows texts (with_cursor c) (filter_rows (with_cursor c) rows)))
        (decode-encode_cursor texts key r)
      ∙ rows_past-with_cursor c key _
      ∙ ap (rows_past texts q key)
          (sort_rows-with_cursor c _ ∙ ap (sort_rows texts q) (filter_rows-with_cursor c rows))

  rows_after-IsSorted :
      (key : Option Key) (rows : List Row)
      → IsSorted texts q rows
      → IsSorted texts q (rows_after texts q key rows)
  rows_after-IsSorted none rows s = s
  rows_after-IsSorted (some after) rows s = rows_past-IsSorted after rows s

  rows_after-later :
      (key : Option Key) (n : ℕ) (rows : List Row) (last : Row)
      → IsSorted texts q rows
      → last_row (take n (rows_after texts q key rows)) ≡ some last
      → rows_past texts q (key_of texts q last) rows
        ≡ rows_past texts q (key_of texts q last) (rows_after texts q key rows)
  rows_after-later none n rows last s found = refl
  rows_after-later (some after) n rows last s found = rows_past-later after n rows last s found

  -- A page, and the rows that the cursor of its last one leaves.
  page-rows_from :
      (n : ℕ) (rows : List Row) (last : Row)
      → IsReadable texts
      → IsDistinct rows
      → last_row (take n (rows_from texts q rows)) ≡ some last
      → take n (rows_from texts q rows)
          ++ rows_from texts (with_cursor (encode_cursor texts (key_of texts q last))) rows
        ≡ rows_from texts q rows
  unfolding rows_from
  page-rows_from n rows last r u found =
      let s = sort_rows-IsSorted texts q (filter_rows q rows) (filter_rows-IsDistinct q rows u) in
      let left = rows_from texts q rows in
      ap (λ x. take n left ++ x)
        (rows_from-with_cursor (key_of texts q last) rows r
          ∙ rows_after-later (cursor_key texts q) n (sorted rows) last s found)
      ∙ take-rows_past n left last (rows_after-IsSorted (cursor_key texts q) (sorted rows) s) found

last_row-length : (rows : List Row) (last : Row) → last_row rows ≡ some last → 1 ≤ length rows
unfolding last_row
last_row-length [] last e = absurd (ground (arith, e))
last_row-length (x ∷ rest) last e = ground arith

take-empty : (n : ℕ) (rows : List Row) → take (n + 1) rows ≡ [] → take (n + 1) rows ≡ rows
take-empty n [] e = refl
take-empty n (x ∷ rest) e = absurd (ground (arith, e))

-- What is said of a page and of the cursor of the next one.
abbrev pub IsPage : Texts → OrderQuery → List Row → List Row → Option (List ℕ) → Type 0
IsPage texts q rows page next =
    ((next ≡ none) × (page ≡ rows_from texts q rows))
    ⊎ ((c : List ℕ) × (next ≡ some c)
        × (1 ≤ length page)
        × (page ++ rows_from texts (record q { cursor = some c }) rows ≡ rows_from texts q rows))

take-IsPage :
    (texts : Texts) (q : OrderQuery) (rows : List Row) (n : ℕ)
    → IsReadable texts
    → IsDistinct rows
    → IsPage texts q rows
        (take (n + 1) (rows_from texts q rows))
        (next_cursor texts q (take (n + 1) (rows_from texts q rows)) (rows_from texts q rows))
unfolding next_cursor
take-IsPage texts q rows n r u =
    let left = rows_from texts q rows in
    let page = take (n + 1) left in
    elim (Option-cases (last_row page)) [
      | inl final ↦
          inl (simp (next_cursor, final) refl, take-empty n left (last_row-none page final))
      | inr (last, found) ↦ elim (Bool-cases (ltb (length page) (length left))) [
        | inl more ↦ inr (
          encode_cursor texts (key_of texts q last),
          simp (next_cursor, found, more) refl,
          last_row-length page last found,
          page-rows_from texts q (n + 1) rows last r u found,
        )
        | inr ends ↦ inl (simp (next_cursor, found, ends) refl, take_all (n + 1) left ends)
      ]
    ]

-- Where no two rows have one hash and the texts can be read back, and the query has a limit: either a
-- page has no next cursor and is all that is left, or it has at least one row, and it and what its
-- next cursor leaves are together what is left, in order.
pub query_orders-IsPage :
    (texts : Texts) (q : OrderQuery) (rows : List Row) (n : ℕ)
    → IsReadable texts
    → IsDistinct rows
    → q.limit ≡ some (n + 1)
    → IsPage texts q rows (query_orders texts rows q).0 (query_orders texts rows q).2
unfolding query_orders
query_orders-IsPage texts q rows n r u limit =
    let page : page_of q.limit (rows_from texts q rows) ≡ take (n + 1) (rows_from texts q rows) =
      ground (arith, limit) in
    subst (λ p. IsPage texts q rows p (next_cursor texts q p (rows_from texts q rows))) (sym page)
      (take-IsPage texts q rows n r u)
