-- ===== src/Orderbook/Effects/Strikes.antt =====
-- An order that the verifier never answers conclusively leaves the book.
use delta_x.Prelude.{
  ℕ, ◌+◌, ◌≤◌, ◌≡◌, ◌≢◌, refl, arith, Option, none, some, List, [], ◌∷◌, true, ◌==◌, if◌then◌else◌,
  Option-cases, Bool-cases, inl, inr, ◌⊎◌, sym, ◌∙◌, ap, length, leb,
}
use mathlib.Core.Path.{subst}
use delta_x.Prelude.Dict.{Dict, get, get-set, set-IsMap, IsMap}
use delta_x.Orderbook.Messages.{Layer2Result}
use delta_x.Orderbook.Shelf.{BookEntry, Shelf, is_inconclusive}
use delta_x.Orderbook.Shelf.Counts.{get-evict, evict-IsMap}
use delta_x.Orderbook.Book.{Book, BookOptions}
use delta_x.Orderbook.Ingest.{includes}
use delta_x.Orderbook.Recheck.{
  land_answer, recheck_one, recheck, drop_expired, revalidate, expire, keys, put_entry, struck,
}
use delta_x.Orderbook.Recheck.Cases.{untouched, written, dropped, recheck_one-cases}
use delta_x.Orderbook.Effects.Evictions.{get-drop_expired, keep_unless-some}
use delta_x.Orderbook.Effects.Chain.{view}
use delta_x.Orderbook.Safety.Admitting.{IsSound}
use delta_x.Orderbook.Safety.Sweeping.{expire-IsSound, revalidate-IsSound}

-- An answer that tells nothing, of a call for the order alone.
abbrev pub IsSilent : Layer2Result → Type 0
IsSilent s = (is_inconclusive s.status ≡ true) × (s.isolated ≡ true)

-- The cycles of `revalidate`, each at its time and with the verifier's answers.
abbrev pub Cycle : Type 0
Cycle = ℕ × (ℕ → Option Layer2Result)

abbrev pub run_cycles : BookOptions → List Cycle → Book → Book
run_cycles opts [] book = book
run_cycles opts ((now, states) ∷ rest) book = run_cycles opts rest (revalidate opts now states book)

-- In each cycle the verifier's answer for the hash is silent.
abbrev pub AreSilent : ℕ → List Cycle → Type 0
AreSilent h [] = Unit {0}
AreSilent h ((now, states) ∷ rest) =
    ((s : Layer2Result) × (states h ≡ some s) × IsSilent s) × AreSilent h rest

module _ (opts : BookOptions) (h : ℕ) where
  -- The order is gone, or goes after `n` such answers.
  abbrev IsDue : ℕ → Shelf → Type 0
  IsDue n shelf =
      (get h shelf.entries ≡ none)
      ⊎ ((e : BookEntry) × (get h shelf.entries ≡ some e)
          × (opts.max_inconclusive_strikes ≤ e.inconclusive_strikes + n)
          × (1 ≤ n))

  recheck_one-IsMap :
      (j : ℕ) (s : Layer2Result) (shelf : Shelf)
      → IsMap shelf.entries
      → IsMap (recheck_one opts j s shelf).entries
  recheck_one-IsMap j s shelf u = elim (recheck_one-cases opts j s shelf) [
    | untouched r ↦ subst (λ x. IsMap x.entries) (sym r) u
    | written e e' found same r ↦
        subst (λ x. IsMap x.entries) (sym r) (set-IsMap j e' shelf.entries u)
    | dropped e e' found same r ↦
        subst (λ x. IsMap x.entries) (sym r)
          (evict-IsMap j (put_entry j e' shelf) (set-IsMap j e' shelf.entries u))
  ]

  get-recheck_one_other :
      (j : ℕ) (s : Layer2Result) (shelf : Shelf)
      → IsMap shelf.entries
      → j ≢ h
      → get h (recheck_one opts j s shelf).entries ≡ get h shelf.entries
  get-recheck_one_other j s shelf u apart = elim (recheck_one-cases opts j s shelf) [
    | untouched r ↦ ap (λ x. get h x.entries) r
    | written e e' found same r ↦
        ap (λ x. get h x.entries) r ∙ ground (arith, apart, get-set j h e' shelf.entries)
    | dropped e e' found same r ↦
        ap (λ x. get h x.entries) r
        ∙ ground (
          arith,
          apart,
          get-set j h e' shelf.entries,
          get-evict j h (put_entry j e' shelf) (set-IsMap j e' shelf.entries u),
        )
  ]

  -- The entry after one such answer.
  recheck_one-silent :
      (s : Layer2Result) (shelf : Shelf) (e : BookEntry)
      → IsMap shelf.entries
      → IsSilent s
      → get h shelf.entries ≡ some e
      → get h (recheck_one opts h s shelf).entries ≡ (
          if leb opts.max_inconclusive_strikes (e.inconclusive_strikes + 1)
          then none
          else some (struck e))
  unfolding recheck_one
  recheck_one-silent s shelf e u silent found = ground (
    arith,
    found,
    silent,
    get-set h h (struck e) shelf.entries,
    get-evict h h (put_entry h (struck e) shelf) (set-IsMap h (struck e) shelf.entries u),
  )

  IsDue-strike :
      (n : ℕ) (s : Layer2Result) (shelf : Shelf)
      → IsMap shelf.entries
      → IsSilent s
      → IsDue (n + 1) shelf
      → IsDue n (recheck_one opts h s shelf)
  unfolding recheck_one
  IsDue-strike n s shelf u silent (inl absent) = inl (ground (arith, absent))
  IsDue-strike n s shelf u silent (inr (e, found, late, some_left)) =
      elim (Bool-cases (leb opts.max_inconclusive_strikes (e.inconclusive_strikes + 1))) [
        | inl out ↦ inl (ground (arith, out, recheck_one-silent s shelf e u silent found))
        | inr left ↦ inr (
          struck e,
          ground (arith, left, recheck_one-silent s shelf e u silent found),
          ground (arith, late),
          ground (arith, late, left),
        )
      ]

  IsDue-later : (n : ℕ) (shelf : Shelf) → IsDue n shelf → IsDue (n + 1) shelf
  IsDue-later n shelf (inl absent) = inl absent
  IsDue-later n shelf (inr (e, found, late, some_left)) =
      inr (e, found, ground (arith, late), ground arith)

  IsDue-same : (n : ℕ) (a b : Shelf) → get h b.entries ≡ get h a.entries → IsDue n a → IsDue n b
  IsDue-same n a b e (inl absent) = inl (e ∙ absent)
  IsDue-same n a b e (inr (entry, found, late, some_left)) = inr (entry, e ∙ found, late, some_left)

  -- An answer for any order leaves it due.
  IsDue-recheck_one :
      (n j : ℕ) (s : Layer2Result) (shelf : Shelf)
      → IsMap shelf.entries
      → (j ≡ h → IsSilent s)
      → IsDue n shelf
      → IsDue n (recheck_one opts j s shelf)
  IsDue-recheck_one n j s shelf u silent due = elim (Bool-cases (j == h)) [
    | inl same ↦
        let e : j ≡ h = ground (arith, same) in
        subst (λ k. IsDue n (recheck_one opts k s shelf)) (sym e)
          (IsDue-strike n s shelf u (silent e) (IsDue-later n shelf due))
    | inr other ↦
        IsDue-same n shelf (recheck_one opts j s shelf)
          (get-recheck_one_other j s shelf u (ground (arith, other))) due
  ]

  land_answer-IsMap :
      (j : ℕ) (state : Option Layer2Result) (shelf : Shelf)
      → IsMap shelf.entries
      → IsMap (land_answer opts j state shelf).entries
  land_answer-IsMap j none shelf u = u
  land_answer-IsMap j (some s) shelf u = recheck_one-IsMap j s shelf u

  IsDue-land_answer :
      (n j : ℕ) (state : Option Layer2Result) (shelf : Shelf)
      → IsMap shelf.entries
      → ((s : Layer2Result) → state ≡ some s → j ≡ h → IsSilent s)
      → IsDue n shelf
      → IsDue n (land_answer opts j state shelf)
  IsDue-land_answer n j none shelf u silent due = due
  IsDue-land_answer n j (some s) shelf u silent due =
      IsDue-recheck_one n j s shelf u (silent s refl) due

  includes-keys :
      (d : Dict BookEntry) (e : BookEntry) → get h d ≡ some e → includes h (keys d) ≡ true
  unfolding get
  includes-keys [] e found = absurd (ground arith)
  includes-keys ((k, a) ∷ rest) e found = ground (arith, found, includes-keys rest e)

  IsDue-expire :
      (n now : ℕ) (book : Book)
      → IsSound opts none book
      → IsDue n book.shelf
      → IsDue n (expire now book).shelf
  unfolding expire
  IsDue-expire n now book s due =
      let kept = get-drop_expired now h book.shelf s.shelf.counted.entries_unique in
      elim (Option-cases (get h (drop_expired now book.shelf.entries book.shelf).entries)) [
        | inl absent ↦ inl absent
        | inr (e, here) ↦
            IsDue-same n book.shelf (expire now book).shelf
              (here ∙ sym (keep_unless-some _ (get h book.shelf.entries) e (sym kept ∙ here))) due
      ]

  module _ (states : ℕ → Option Layer2Result) (answer : Layer2Result) (silent : IsSilent answer)
      (answered : states h ≡ some answer) where
    is_silent : (j : ℕ) (s : Layer2Result) → states j ≡ some s → j ≡ h → IsSilent s
    is_silent j s given same =
        subst IsSilent {x = answer} {y = s} (ground (arith, given, same, answered)) silent

    IsDue-recheck :
        (n : ℕ) (hashes : List ℕ) (shelf : Shelf)
        → IsMap shelf.entries
        → IsDue n shelf
        → IsDue n (recheck opts states hashes shelf)
    unfolding recheck
    IsDue-recheck n [] shelf u due = due
    IsDue-recheck n (j ∷ rest) shelf u due =
        IsDue-recheck n rest _ (land_answer-IsMap j (states j) shelf u)
          (IsDue-land_answer n j (states j) shelf u (is_silent j) due)

    IsDue-recheck_strike :
        (n : ℕ) (hashes : List ℕ) (shelf : Shelf)
        → IsMap shelf.entries
        → includes h hashes ≡ true
        → IsDue (n + 1) shelf
        → IsDue n (recheck opts states hashes shelf)
    unfolding recheck
    IsDue-recheck_strike n [] shelf u i due = absurd (ground arith)
    IsDue-recheck_strike n (j ∷ rest) shelf u i due = elim (Bool-cases (j == h)) [
      | inl same ↦
          let e : j ≡ h = ground (arith, same) in
          IsDue-recheck n rest _ (land_answer-IsMap j (states j) shelf u) (
            subst (λ k. IsDue n (land_answer opts k (states k) shelf)) (sym e)
              (subst (λ a. IsDue n (land_answer opts h a shelf)) (sym answered)
                (IsDue-strike n answer shelf u silent due)))
      | inr other ↦
          IsDue-recheck_strike n rest _ (land_answer-IsMap j (states j) shelf u)
            (ground (arith, i, other))
            (IsDue-land_answer (n + 1) j (states j) shelf u (is_silent j) due)
    ]

    -- One cycle over the whole book.
    IsDue-revalidate :
        (n now : ℕ) (book : Book)
        → IsSound opts none book
        → IsDue (n + 1) book.shelf
        → IsDue n (revalidate opts now states book).shelf
    unfolding revalidate
    IsDue-revalidate n now book s due =
        let live = (expire now book).shelf in
        let u = (expire-IsSound opts now book s).shelf.counted.entries_unique in
        elim (Option-cases (get h live.entries)) [
          | inl absent ↦ IsDue-recheck n (keys live.entries) live u (inl absent)
          | inr (e, here) ↦
              IsDue-recheck_strike n (keys live.entries) live u (includes-keys live.entries e here)
                (IsDue-expire (n + 1) now book s due)
        ]

  IsDue-run_cycles :
      (cycles : List Cycle) (book : Book)
      → IsSound opts none book
      → AreSilent h cycles
      → IsDue (length cycles) book.shelf
      → IsDue 0 (run_cycles opts cycles book).shelf
  IsDue-run_cycles [] book s silent due = due
  IsDue-run_cycles ((now, states) ∷ rest) book s ((answer, given, is_silent), others) due =
      IsDue-run_cycles rest (revalidate opts now states book)
        (revalidate-IsSound opts now states book s) others
        (IsDue-revalidate states answer is_silent given (length rest) now book s
          (subst (λ k. IsDue k book.shelf) (omega arith) due))

  -- In a book that keeps its counts and caps, an order that the verifier answers inconclusively, in a
  -- call for it alone, in each of at least one and at least `maxInconclusiveStrikes` cycles of
  -- `revalidate` is off the book after them, whatever happens to the other orders.
  pub run_cycles_evicts :
      (cycles : List Cycle) (book : Book)
      → IsSound opts none book
      → AreSilent h cycles
      → 1 ≤ length cycles
      → opts.max_inconclusive_strikes ≤ length cycles
      → view (run_cycles opts cycles book) h ≡ none
  run_cycles_evicts cycles book s silent some_cycle enough =
      elim (IsDue-run_cycles cycles book s silent (elim (Option-cases (view book h)) [
        | inl absent ↦ inl absent
        | inr (e, here) ↦ inr (e, here, ground (arith, enough), some_cycle)
      ])) [
        | inl absent ↦ absent
        | inr (e, here, late, some_left) ↦ absurd (ground (arith, some_left))
      ]
