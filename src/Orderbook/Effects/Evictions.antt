-- ===== src/Orderbook/Effects/Evictions.antt =====
-- The loops that evict what a test holds for.
use delta_x.Prelude.{
  ℕ, ◌≡◌, refl, arith, Option, none, some, [], ◌∷◌, Bool, true, false, ◌&&◌, ◌||◌, ◌==◌, leb,
  if◌then◌else◌, Option-cases, Bool-cases, inl, inr, ◌∙◌, ap,
}
use delta_x.Prelude.Dict.{Dict, get, IsMap}
use delta_x.Orderbook.Shelf.{BookEntry, Shelf, evict}
use delta_x.Orderbook.Shelf.Counts.{get-evict, evict-IsMap}
use delta_x.Orderbook.Ingest.{includes}
use delta_x.Orderbook.Events.{evict_matching}
use delta_x.Orderbook.Recheck.{drop_expired}

-- An order under a test: gone where the test holds.
abbrev pub keep_unless : (BookEntry → Bool) → Option BookEntry → Option BookEntry
keep_unless test none = none
keep_unless test (some e) = if test e then none else some e

pub keep_unless-some :
    (test : BookEntry → Bool) (o : Option BookEntry) (e : BookEntry)
    → keep_unless test o ≡ some e
    → o ≡ some e
keep_unless-some test none e h = h
keep_unless-some test (some a) e h = ground (arith, h)

abbrev pub holds : (BookEntry → Bool) → Option BookEntry → Bool
holds test none = false
holds test (some e) = test e

hits : (BookEntry → Bool) → ℕ → Dict BookEntry → Bool
hits test h [] = false
hits test h ((k, e) ∷ rest) = (k == h && test e) || hits test h rest

module _ (test : BookEntry → Bool) (h : ℕ) where
  hits-get : (d : Dict BookEntry) → IsMap d → hits test h d ≡ holds test (get h d)
  unfolding hits get
  hits-get [] u = refl
  hits-get ((k, e) ∷ rest) u = elim (Bool-cases (k == h)) [
    | inl same ↦ ground (arith, same, u.0, hits-get rest u.1)
    | inr other ↦ ground (arith, other, hits-get rest u.1)
  ]

  get-evict_if :
      (b : Bool) (k : ℕ) (shelf : Shelf)
      → IsMap shelf.entries
      → get h (if b then evict k shelf else shelf).entries
        ≡ (if b && k == h then none else get h shelf.entries)
  get-evict_if true k shelf u = get-evict k h shelf u
  get-evict_if false k shelf u = refl

  evict_if-IsMap :
      (b : Bool) (k : ℕ) (shelf : Shelf)
      → IsMap shelf.entries
      → IsMap (if b then evict k shelf else shelf).entries
  evict_if-IsMap true k shelf u = evict-IsMap k shelf u
  evict_if-IsMap false k shelf u = u

  get-evict_matching-hits :
      (d : Dict BookEntry) (shelf : Shelf)
      → IsMap shelf.entries
      → get h (evict_matching test d shelf).1.entries
        ≡ (if hits test h d then none else get h shelf.entries)
  unfolding evict_matching hits
  get-evict_matching-hits [] shelf u = refl
  get-evict_matching-hits ((k, e) ∷ rest) shelf u = ground (
    arith,
    get-evict_matching-hits rest (if test e then evict k shelf else shelf)
        (evict_if-IsMap (test e) k shelf u),
    get-evict_if (test e) k shelf u,
  )

  includes-evict_matching-hits :
      (d : Dict BookEntry) (shelf : Shelf)
      → includes h (evict_matching test d shelf).0 ≡ hits test h d
  unfolding evict_matching hits
  includes-evict_matching-hits [] shelf = refl
  includes-evict_matching-hits ((k, e) ∷ rest) shelf =
      ground (arith, includes-evict_matching-hits rest (if test e then evict k shelf else shelf))

  -- The loop over a shelf's own entries drops those that the test holds for, and tells which.
  pub get-evict_matching :
      (shelf : Shelf)
      → IsMap shelf.entries
      → get h (evict_matching test shelf.entries shelf).1.entries
        ≡ keep_unless test (get h shelf.entries)
  get-evict_matching shelf u = elim (Option-cases (get h shelf.entries)) [
    | inl absent ↦
        ground
          (arith, absent, get-evict_matching-hits shelf.entries shelf u, hits-get shelf.entries u)
    | inr (e, found) ↦
        ground
          (arith, found, get-evict_matching-hits shelf.entries shelf u, hits-get shelf.entries u)
  ]

  pub includes-evict_matching :
      (shelf : Shelf)
      → IsMap shelf.entries
      → includes h (evict_matching test shelf.entries shelf).0 ≡ holds test (get h shelf.entries)
  includes-evict_matching shelf u =
      includes-evict_matching-hits shelf.entries shelf ∙ hits-get shelf.entries u

drop_expired-evict_matching :
    (now : ℕ) (d : Dict BookEntry) (shelf : Shelf)
    → drop_expired now d shelf ≡ (evict_matching (λ e. leb e.announce.order.expiry now) d shelf).1
unfolding evict_matching drop_expired
drop_expired-evict_matching now [] shelf = refl
drop_expired-evict_matching now ((k, e) ∷ rest) shelf =
    drop_expired-evict_matching now rest
      (if leb e.announce.order.expiry now then evict k shelf else shelf)

-- The sweep drops the expired orders and no other.
pub get-drop_expired :
    (now h : ℕ) (shelf : Shelf)
    → IsMap shelf.entries
    → get h (drop_expired now shelf.entries shelf).entries
      ≡ keep_unless (λ e. leb e.announce.order.expiry now) (get h shelf.entries)
get-drop_expired now h shelf u =
    ap (λ s. get h s.entries) (drop_expired-evict_matching now shelf.entries shelf)
    ∙ get-evict_matching (λ e. leb e.announce.order.expiry now) h shelf u
