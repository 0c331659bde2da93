-- ===== src/Sdk/Filling/Exclusivity.antt =====
-- Who pays the soft-exclusivity premium of `exclusivityOverrideFor`, and who is refused.
use delta_x.Prelude.{
  ℕ, ◌≤◌, ◌<◌, ◌≡◌, ◌≢◌, Bool, true, false, not, ◌&&◌, Option, none, some, List, [], ◌∷◌, arith, ok,
  err, not_exclusive_filler, ◌==◌, any, if◌then◌else◌,
}
use delta_x.Sdk.Order.{Address, Order, bps, filler_set_sentinel}
use delta_x.Sdk.Timing.{flag, delta_verify_outputs_bit, unpack_timing}
use delta_x.Sdk.Filling.{
  exclusivity_override_for, excludes, outsider_override, override_has_carrier,
}

-- The fillers that the maker names: the one filler, or the members of the signed set.
abbrev pub is_insider : Order → Address → Option (List Address) → Bool
is_insider o filler none =
    not (o.exclusive_filler == filler_set_sentinel) && filler == o.exclusive_filler
is_insider o filler (some fs) =
    if o.exclusive_filler == filler_set_sentinel
    then any (λ g. g == filler) fs
    else filler == o.exclusive_filler

-- A filler that the maker names pays no premium and is never refused, at any time; on a
-- delta-verify order that is the named filler alone.
pub exclusivity_insider :
    (o : Order) (filler : Address) (now : ℕ) (fs : Option (List Address))
    → is_insider o filler fs ≡ true
    → (flag o.timing delta_verify_outputs_bit ≡ true → filler ≡ o.exclusive_filler)
    → exclusivity_override_for o filler now fs ≡ ok 0
unfolding exclusivity_override_for excludes
exclusivity_insider o filler now none h d = ground arith
exclusivity_insider o filler now (some []) h d = ground arith
exclusivity_insider o filler now (some (f ∷ fs)) h d = ground arith

-- A premium above zero is the one that the maker signed and at most 10,000 bps, and it is charged
-- only inside the window, only to a filler that the maker does not name, and only where a leg
-- carries it.
pub exclusivity_premium :
    (o : Order) (filler : Address) (now : ℕ) (fs : Option (List Address)) (ov : ℕ)
    → exclusivity_override_for o filler now fs ≡ ok ov
    → ov ≢ 0
    → (ov ≡ o.exclusivity_override_bps)
      × (ov ≤ bps)
      × (now < (unpack_timing o.timing).exclusivity_end_time)
      × (is_insider o filler fs ≡ false)
      × (override_has_carrier o ≡ true)
unfolding exclusivity_override_for excludes outsider_override
exclusivity_premium o filler now none ov e p = ground arith
exclusivity_premium o filler now (some []) ov e p = ground arith
exclusivity_premium o filler now (some (f ∷ fs)) ov e p = ground arith

-- On a delta-verify order every other filler is refused, at every time.
pub exclusivity_delta_verify :
    (o : Order) (filler : Address) (now : ℕ) (fs : Option (List Address))
    → flag o.timing delta_verify_outputs_bit ≡ true
    → filler ≢ o.exclusive_filler
    → exclusivity_override_for o filler now fs ≡ err not_exclusive_filler
unfolding exclusivity_override_for
exclusivity_delta_verify o filler now fs d h = ground arith
