-- ===== src/Orderbook/Graves/Invariant.antt =====
-- The bounds on tombstones, and what a cancel leaves standing.
use mathlib.Core.Path.{subst}
use delta_x.Prelude.{
  ℕ, ◌+◌, ◌≤◌, ◌≡◌, refl, arith, none, some, [], ◌∷◌, ◌++◌, Bool, true, false, not, ◌&&◌, ◌==◌, leb,
  if◌then◌else◌, length, Option-cases, Bool-cases, inl, inr, sym,
}
use delta_x.Prelude.Dict.{Dict, IsMap, get-set, set-IsMap}
use delta_x.Sdk.Order.{Address}
use delta_x.Orderbook.Graves.{
  Tombstone, Graves, GraveLimits, find, update, renew, tombstone, trim, is_expired,
  prune_tombstones, pending_of, bump_pending, lower_pending,
}
use delta_x.Orderbook.Graves.Counts.{
  IsCounted, pending_count, append-IsSingle, pending_count-append, find-key, pending-lower_pending,
  lower_pending-IsMap,
}
use delta_x.Orderbook.Graves.Sweep.{
  IsListed-self, sweep-IsCounted, trim-IsCounted, length-trim, pending_count-trim,
  pending_count-sweep, length-sweep-le,
}
use delta_x.Orderbook.Graves.Update.{update-IsSingle, length-update, pending_count-update}

pub record IsSound (limits : GraveLimits) (graves : Graves) : Type 0 where
  pub counted : IsCounted graves
  pub capped : length graves.tombstones ≤ limits.max_tombstones
  pub capped_pending : (m : Address) → pending_count m graves.tombstones ≤ limits.max_pending

abbrev pub grave : ℕ → Address → ℕ → Bool → Tombstone
grave h m until pending = record { order_hash = h; maker = m; until = until; pending = pending }

abbrev pub raised : Address → Bool → Dict ℕ → Dict ℕ
raised m pending c = if pending then bump_pending m c else c

-- A new tombstone, before the map is trimmed.
unfoldable pub appended : ℕ → Address → ℕ → Bool → Graves → Graves
appended h m until pending graves = record {
  tombstones = graves.tombstones ++ (grave h m until pending ∷ []);
  pending_per_maker = raised m pending graves.pending_per_maker;
}

pending-raised :
    (m j : Address) (pending : Bool) (c : Dict ℕ)
    → pending_of j (raised m pending c) ≡ pending_of j c + (if pending && m == j then 1 else 0)
unfolding bump_pending
pending-raised m j pending c = ground (arith, get-set m j (pending_of m c + 1) c)

raised-IsMap : (m : Address) (pending : Bool) (c : Dict ℕ) → IsMap c → IsMap (raised m pending c)
unfolding bump_pending
raised-IsMap m true c u = set-IsMap m _ c u
raised-IsMap m false c u = u

pub appended-IsCounted :
    (h : ℕ) (m : Address) (until : ℕ) (pending : Bool) (graves : Graves)
    → IsCounted graves
    → find h m graves.tombstones ≡ none
    → IsCounted (appended h m until pending graves)
unfolding appended
appended-IsCounted h m until pending graves c absent = record {
  single = append-IsSingle graves.tombstones (grave h m until pending) c.single absent;
  counts_unique = raised-IsMap m pending graves.pending_per_maker c.counts_unique;
  counted = λ j. ground (
    arith,
    c.counted j,
    pending-raised m j pending graves.pending_per_maker,
    pending_count-append j graves.tombstones (grave h m until pending),
  );
}

-- What `tombstone` does: it renews a tombstone, or refuses, or adds one and trims.
pub tombstone-found :
    (limits : GraveLimits) (h : ℕ) (m : Address) (until : ℕ) (pending : Bool) (graves : Graves)
    (prior : Tombstone)
    → find h m graves.tombstones ≡ some prior
    → tombstone limits h m until pending graves ≡ record {
      tombstones = update h m (λ t. renew t until pending) graves.tombstones;
      pending_per_maker =
          if not pending && prior.pending
          then lower_pending m graves.pending_per_maker
          else graves.pending_per_maker;
    }
unfolding tombstone
tombstone-found limits h m until pending graves prior found = simp (tombstone, found) refl

pub tombstone-absent :
    (limits : GraveLimits) (h : ℕ) (m : Address) (until : ℕ) (pending : Bool) (graves : Graves)
    → find h m graves.tombstones ≡ none
    → tombstone limits h m until pending graves ≡ (
        if pending && leb limits.max_pending (pending_of m graves.pending_per_maker)
        then graves
        else trim limits.max_tombstones (appended h m until pending graves))
unfolding tombstone appended
tombstone-absent limits h m until pending graves absent = simp (tombstone, absent) refl

renewed-IsCounted :
    (h : ℕ) (m : Address) (until : ℕ) (pending : Bool) (graves : Graves) (prior : Tombstone)
    → IsCounted graves
    → find h m graves.tombstones ≡ some prior
    → IsCounted (record {
      tombstones = update h m (λ t. renew t until pending) graves.tombstones;
      pending_per_maker =
          if not pending && prior.pending
          then lower_pending m graves.pending_per_maker
          else graves.pending_per_maker;
    })
unfolding renew
renewed-IsCounted h m until pending graves prior c found = record {
  single =
      update-IsSingle h m (λ t. renew t until pending) (λ t. refl) (λ t. refl) graves.tombstones
        c.single;
  counts_unique =
      ground
        (arith, c.counts_unique, lower_pending-IsMap m graves.pending_per_maker c.counts_unique);
  counted = λ j. ground (
    arith,
    c.counted j,
    find-key h m graves.tombstones prior found,
    pending-lower_pending m j graves.pending_per_maker c.counts_unique,
    pending_count-update h m (λ t. renew t until pending) (λ t. refl) (λ t. refl) j
        graves.tombstones prior found,
  );
}

pub tombstone-IsSound :
    (limits : GraveLimits) (h : ℕ) (m : Address) (until : ℕ) (pending : Bool) (graves : Graves)
    → IsSound limits graves
    → IsSound limits (tombstone limits h m until pending graves)
unfolding renew appended
tombstone-IsSound limits h m until pending graves s =
    elim (Option-cases (find h m graves.tombstones)) [
      | inr (prior, found) ↦
          subst (IsSound limits) (sym (tombstone-found limits h m until pending graves prior found))
            (record {
              counted = renewed-IsCounted h m until pending graves prior s.counted found;
              capped = omega (
                arith,
                s.capped,
                length-update h m (λ t. renew t until pending) (λ t. refl) (λ t. refl)
                    graves.tombstones,
              );
              capped_pending = λ j. ground (
                arith,
                s.capped_pending j,
                pending_count-update h m (λ t. renew t until pending) (λ t. refl) (λ t. refl) j
                    graves.tombstones prior found,
              );
            })
      | inl absent ↦
          subst (IsSound limits) (sym (tombstone-absent limits h m until pending graves absent))
            (elim (Bool-cases
              (pending && leb limits.max_pending (pending_of m graves.pending_per_maker))) [
                | inl full ↦ rw full s
                | inr room ↦
                    let c = appended-IsCounted h m until pending graves s.counted absent in
                    rw room (record {
                      counted = trim-IsCounted limits.max_tombstones _ c;
                      capped = length-trim limits.max_tombstones _ c;
                      capped_pending = λ j. ground (
                        arith,
                        room,
                        s.capped_pending j,
                        s.counted.counted m,
                        pending_count-append j graves.tombstones (grave h m until pending),
                        pending_count-trim limits.max_tombstones (appended h m until pending graves)
                            j c,
                      );
                    })
              ])
    ]

pub prune-IsSound :
    (limits : GraveLimits) (now : ℕ) (graves : Graves)
    → IsSound limits graves
    → IsSound limits (prune_tombstones now graves)
unfolding prune_tombstones
prune-IsSound limits now graves s =
    let single = s.counted.single in
    let listed = IsListed-self graves.tombstones single in
    record {
      counted = sweep-IsCounted (is_expired now) graves.tombstones graves s.counted single listed;
      capped = omega (
        arith,
        s.capped,
        length-sweep-le (is_expired now) graves.tombstones graves s.counted single listed,
      );
      capped_pending = λ j. omega (
        arith,
        s.capped_pending j,
        pending_count-sweep (is_expired now) graves.tombstones graves j s.counted single listed,
      );
    }
