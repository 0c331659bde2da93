-- ===== src/Orderbook/Graves/Cancelled.antt =====
-- A cancel of an order that was here stays, whatever other cancels arrive.
use delta_x.Prelude.{
  ℕ, ◌+◌, ◌≤◌, ◌<◌, ◌≡◌, refl, arith, none, some, List, [], ◌∷◌, ◌++◌, Bool, true, false, ◌&&◌,
  ◌==◌, leb, if◌then◌else◌, Option-cases, Bool-cases, inl, inr, sym,
}
use mathlib.Core.Path.{subst}
use delta_x.Sdk.Order.{Address}
use delta_x.Orderbook.Graves.{
  Tombstone, Graves, GraveLimits, find, renew, tombstone, pending_of, trim, is_soft_cancelled,
}
use delta_x.Orderbook.Graves.Counts.{IsCounted, find-append}
use delta_x.Orderbook.Graves.Kept.{real_count, find-trim}
use delta_x.Orderbook.Graves.Update.{find-update}
use delta_x.Orderbook.Graves.Invariant.{
  IsSound, grave, appended, appended-IsCounted, tombstone-found, tombstone-absent,
}

real_count-append :
    (l : List Tombstone) (t : Tombstone)
    → real_count (l ++ (t ∷ [])) ≡ real_count l + (if t.pending then 0 else 1)
unfolding real_count
real_count-append [] t = omega arith
real_count-append (a ∷ l) t = omega (arith, real_count-append l t)

-- A tombstone for an order that was here, until `until` or later.
abbrev pub IsKept : ℕ → Address → ℕ → Graves → Type 0
IsKept h m until graves =
    (t : Tombstone) × (find h m graves.tombstones ≡ some t)
    × (t.pending ≡ false)
    × (until ≤ t.until)

module _ (limits : GraveLimits) (h h' : ℕ) (m m' : Address) (until until' : ℕ)
    (pending : Bool) where
  renewed-IsKept :
      (graves : Graves) (prior : Tombstone)
      → find h' m' graves.tombstones ≡ some prior
      → IsKept h m until graves
      → IsKept h m until (tombstone limits h' m' until' pending graves)
  unfolding renew
  renewed-IsKept graves prior found (t, stands, real, late) =
      subst (IsKept h m until)
        (sym (tombstone-found limits h' m' until' pending graves prior found))
        (elim (Bool-cases (h' == h && m' == m)) [
          | inl same ↦ (
            renew t until' pending,
            ground (
              arith,
              stands,
              same,
              find-update h' m' (λ t. renew t until' pending) (λ t. refl) (λ t. refl) h m
                  graves.tombstones,
            ),
            ground (arith, real),
            ground (arith, late),
          )
          | inr other ↦ (
            t,
            ground (
              arith,
              stands,
              other,
              find-update h' m' (λ t. renew t until' pending) (λ t. refl) (λ t. refl) h m
                  graves.tombstones,
            ),
            real,
            late,
          )
        ])

  trimmed-IsKept :
      (graves : Graves)
      → IsCounted graves
      → find h' m' graves.tombstones ≡ none
      → real_count graves.tombstones + 1 ≤ limits.max_tombstones
      → IsKept h m until graves
      → IsKept h m until (trim limits.max_tombstones (appended h' m' until' pending graves))
  unfolding appended
  trimmed-IsKept graves c absent fits (t, stands, real, late) = (
    t,
    find-trim limits.max_tombstones (appended h' m' until' pending graves) h m t
        (appended-IsCounted h' m' until' pending graves c absent)
        (ground (arith, fits, real_count-append graves.tombstones (grave h' m' until' pending)))
        (ground (arith, stands, find-append h m graves.tombstones (grave h' m' until' pending)))
        real,
    real,
    late,
  )

  -- In graves that keep their caps and have a place for one more tombstone of an order that was here, a
  -- tombstone of any hash and maker, pending or not, leaves such a one in place and lets it end no sooner.
  pub tombstone-IsKept :
      (graves : Graves)
      → IsSound limits graves
      → real_count graves.tombstones + 1 ≤ limits.max_tombstones
      → IsKept h m until graves
      → IsKept h m until (tombstone limits h' m' until' pending graves)
  tombstone-IsKept graves s fits kept = elim (Option-cases (find h' m' graves.tombstones)) [
    | inr (prior, found) ↦ renewed-IsKept graves prior found kept
    | inl absent ↦
        subst (IsKept h m until) (sym (tombstone-absent limits h' m' until' pending graves absent))
          (elim (Bool-cases
            (pending && leb limits.max_pending (pending_of m' graves.pending_per_maker))) [
              | inl full ↦ rw full kept
              | inr room ↦ rw room (trimmed-IsKept graves s.counted absent fits kept)
            ])
  ]

-- A cancel of an order that is here leaves a tombstone for it.
pub tombstone_own-IsKept :
    (limits : GraveLimits) (h : ℕ) (m : Address) (until : ℕ) (graves : Graves)
    → IsSound limits graves
    → real_count graves.tombstones + 1 ≤ limits.max_tombstones
    → IsKept h m until (tombstone limits h m until false graves)
unfolding renew appended
tombstone_own-IsKept limits h m until graves s fits =
    elim (Option-cases (find h m graves.tombstones)) [
      | inr (prior, found) ↦
          subst (IsKept h m until) (sym (tombstone-found limits h m until false graves prior found))
            (
              renew prior until false,
              ground (
                arith,
                found,
                find-update h m (λ t. renew t until false) (λ t. refl) (λ t. refl) h m
                    graves.tombstones,
              ),
              ground arith,
              ground arith,
            )
      | inl absent ↦
          subst (IsKept h m until) (sym (tombstone-absent limits h m until false graves absent)) (
            grave h m until false,
            find-trim limits.max_tombstones (appended h m until false graves) h m
                (grave h m until false) (appended-IsCounted h m until false graves s.counted absent)
                (ground (arith, fits, real_count-append graves.tombstones (grave h m until false)))
                (ground (arith, absent, find-append h m graves.tombstones (grave h m until false)))
                refl,
            refl,
            ground arith,
          )
    ]

-- Before its end, a tombstone refuses the order.
pub IsKept-is_soft_cancelled :
    (h : ℕ) (m : Address) (until now : ℕ) (graves : Graves)
    → IsKept h m until graves
    → now < until
    → is_soft_cancelled h m now graves ≡ true
unfolding is_soft_cancelled
IsKept-is_soft_cancelled h m until now graves (t, stands, real, late) before =
    ground (arith, stands, late, before)
