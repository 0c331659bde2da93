-- ===== src/Sdk/Packed/Guards.antt =====
-- packages/sdk/src/packed.ts: the guards of packOrder, assertOrderNonce and
-- assertInvariantConsideration among them, beside the rules that their comments give.
use delta_x.Prelude.{
  ◌/◌, ◌%◌, ◌^◌, ◌≤◌, ◌<◌, ◌≡◌, ◌≢◌, ◌↔◌, ◌⊎◌, inl, inr, refl, arith, ok, true, false, ◌==◌,
  Bool-cases, List, [], ◌∷◌, All, length, if◌then◌else◌, leb,
}
use delta_x.Sdk.Order.{Order, Item, op_settle, zero_address, filler_set_sentinel}
use delta_x.Sdk.Timing.{flag, block_clock_bit, delta_verify_outputs_bit, unpack_timing}
use delta_x.Sdk.Funding.{is_reserved_nonce, assert_order_nonce}
use delta_x.Sdk.Packed.{is_empty}
use delta_x.Sdk.Packed.Order.{
  pack_guards, names_no_filler, settles, is_invariant_only, assert_invariant_consideration,
}

-- A single filler, and not a set of them.
abbrev pub NamesFiller : Order → Type 0
NamesFiller order =
    (order.exclusive_filler ≢ zero_address) × (order.exclusive_filler ≢ filler_set_sentinel)

abbrev pub Settling : List Item → Type 0
Settling items = All (λ (item : Item). item.op ≡ op_settle) items

-- The maker is paid by more than an end state: by an output leg, with no items or with one among
-- them that is no hand-over.
abbrev pub Delivers : Order → Type 0
Delivers order =
    (order.invariants ≡ [])
    ⊎ ((order.legs_out ≢ []) × ((order.items ≡ []) ⊎ (¬ Settling order.items)))

-- The exclusive window lasts for the order's life. A block-clock order has no expiry in blocks.
abbrev pub IsLifelong : Order → Type 0
IsLifelong order =
    ((order.timing / 2 ^ 102 % 2 ≡ 0) × (order.expiry ≤ order.timing / 2 ^ 64 % 2 ^ 32))
    ⊎ ((order.timing / 2 ^ 102 % 2 ≡ 1) × (0xffff_ffff ≤ order.timing / 2 ^ 64 % 2 ^ 32))

abbrev pub IsHard : Order → Type 0
IsHard order = NamesFiller order × (order.exclusivity_override_bps ≡ 0) × IsLifelong order

-- The author leaves the regions of side and expiry in `timing` clear, and the nonce's top bit.
abbrev pub IsGuarded : Order → Type 0
IsGuarded order =
    (order.timing < 2 ^ 105)
    × (order.timing / 2 ^ 101 % 2 ≡ 0)
    × (order.nonce / 2 ^ 255 % 2 ≡ 0)
    × (order.expiry < 2 ^ 48)
    × ((order.timing / 2 ^ 104 % 2 ≡ 0) ⊎ NamesFiller order)
    × (Delivers order ⊎ IsHard order)

is_empty_lem : {A : Type 0} (xs : List A) → (is_empty xs ≡ true) ↔ (xs ≡ [])
is_empty_lem [] = (λ e. refl, λ e. refl)
is_empty_lem (x ∷ xs) = (λ e. cc, λ e. cc)

settles-le-length : (items : List Item) → settles items ≤ length items
unfolding settles
settles-le-length [] = omega arith
settles-le-length (item ∷ items) = ground (arith, settles-le-length items)

settles-Settling : (items : List Item) → (length items ≡ settles items) ↔ Settling items
unfolding settles
settles-Settling [] = (λ e. tt, λ s. refl)
settles-Settling (item ∷ items) =
    let (there, back) = settles-Settling items in
    elim (Bool-cases (item.op == op_settle)) [
      | inl same ↦
          (λ e. (ground arith, there (ground arith)), λ (s, rest). ground (arith, back rest))
      | inr other ↦ (
        λ e. absurd (ground (arith, settles-le-length items)),
        λ (s, rest). absurd (ground arith),
      )
    ]

length-zero : (items : List Item) → length items ≡ 0 → items ≡ []
length-zero [] e = refl
length-zero (item ∷ items) e = absurd (omega arith)

settles-nil : (items : List Item) → items ≡ [] → (length items ≡ 0) × (settles items ≡ 0)
unfolding settles
settles-nil [] e = (refl, refl)
settles-nil (item ∷ items) e = absurd cc

module _ (order : Order) where
  names_no_filler_lem : (names_no_filler order ≡ false) ↔ NamesFiller order
  unfolding names_no_filler
  names_no_filler_lem =
      (λ e. ((λ zero. ground arith), (λ set. ground arith)), λ (zero, set). ground arith)

  is_invariant_only_lem : (is_invariant_only order ≡ false) ↔ Delivers order
  unfolding is_invariant_only
  is_invariant_only_lem =
      let (no_invariant, no_invariant') = is_empty_lem order.invariants in
      let (no_leg, no_leg') = is_empty_lem order.legs_out in
      let (settling, settling') = settles-Settling order.items in
      (
        λ e. elim (Bool-cases (is_empty order.invariants)) [
          | inl bare ↦ inl (no_invariant bare)
          | inr some ↦ inr (
            (λ gone. ground (arith, no_leg' gone)),
            elim (Bool-cases (length order.items == settles order.items)) [
              | inl all ↦ inl (length-zero order.items (ground arith))
              | inr other ↦ inr (λ s. ground (arith, settling' s))
            ],
          )
        ],
        λ d. elim d [
          | inl bare ↦ ground (arith, no_invariant' bare)
          | inr (leg, ways) ↦ elim (Bool-cases (is_empty order.legs_out)) [
            | inl gone ↦ absurd (leg (no_leg gone))
            | inr there ↦ elim ways [
              | inl none ↦ ground (arith, settles-nil order.items none)
              | inr other ↦ elim (Bool-cases (length order.items == settles order.items)) [
                | inl all ↦ absurd (other (settling (ground arith)))
                | inr position ↦ ground (arith, position, there)
              ]
            ]
          ]
        ],
      )

  lifelong_lem :
      (leb
          (if flag order.timing block_clock_bit then 0xffff_ffff else order.expiry)
          (unpack_timing order.timing).exclusivity_end_time
        ≡ true)
      ↔ IsLifelong order
  unfolding flag unpack_timing
  lifelong_lem = (
    λ e. elim (Bool-cases (order.timing / 2 ^ 102 % 2 == 1)) [
      | inl blocks ↦ inr (ground arith, ground arith)
      | inr seconds ↦ inl (ground arith, ground arith)
    ],
    λ s. elim s [ inl (seconds, late) ↦ ground arith | inr (blocks, late) ↦ ground arith ],
  )

  -- The guards of packOrder, with assertInvariantConsideration, pass exactly on the orders that leave
  -- the regions of side and expiry and what lies above the flags clear in `timing`, have no reserved
  -- nonce and an expiry of 48 bits, name a single filler where they verify deltas, and, where all they
  -- give is an invariant, name a single filler without an override whose window lasts for the
  -- order's life.
  pub pack_guards-IsGuarded : (pack_guards order ≡ ok tt) ↔ IsGuarded order
  unfolding pack_guards assert_order_nonce is_reserved_nonce assert_invariant_consideration flag
  pack_guards-IsGuarded =
      let (named, named') = names_no_filler_lem in
      let (delivers, delivers') = is_invariant_only_lem in
      let (lifelong, lifelong') = lifelong_lem in
      (
        λ e. (
          ground arith,
          ground arith,
          ground arith,
          ground arith,
          elim (Bool-cases (flag order.timing delta_verify_outputs_bit)) [
            | inl verified ↦ inr (named (ground arith))
            | inr plain ↦ inl (ground arith)
          ],
          elim (Bool-cases (is_invariant_only order)) [
            | inl bare ↦ inr (named (ground arith), ground arith, lifelong (ground arith))
            | inr delivering ↦ inl (delivers delivering)
          ],
        ),
        λ (low, side, nonce, expiry, verify, pay). elim verify [
          | inl plain ↦ elim pay [
            | inl d ↦ ground (arith, delivers' d)
            | inr (n, soft, long) ↦ ground (arith, named' n, lifelong' long)
          ]
          | inr n ↦ elim pay [
            | inl d ↦ ground (arith, delivers' d, named' n)
            | inr (m, soft, long) ↦ ground (arith, named' n, lifelong' long)
          ]
        ],
      )
