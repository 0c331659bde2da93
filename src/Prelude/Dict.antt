-- ===== src/Prelude/Dict.antt =====
-- A `Map` whose keys are numbers, as the list of its entries in the order of insertion.
use Prim.Native.Nat.{ℕ, ◌+◌, ◌≤◌}
use mathlib.Core.Path.{◌≡◌, refl}
use mathlib.Core.Bool.{Bool, true, false}
use mathlib.Core.Option.{Option, none, some}
use mathlib.Core.List.{List, [], ◌∷◌}
use native.Mathlib.Omega.{arith}
use delta_x.Prelude.Tests.{◌==◌, if◌then◌else◌}
use delta_x.Prelude.Lists.{length}

abbrev pub Dict {ℓ} : Type ℓ → Type ℓ
Dict A = List (ℕ × A)

module _ {ℓ} {A : Type ℓ} where
  unfoldable pub get : ℕ → Dict A → Option A
  get k [] = none
  get k ((key, a) ∷ rest) = if key == k then some a else get k rest

  unfoldable pub set : ℕ → A → Dict A → Dict A
  set k v [] = (k, v) ∷ []
  set k v ((key, a) ∷ rest) = if key == k then (key, v) ∷ rest else (key, a) ∷ set k v rest

  unfoldable pub remove : ℕ → Dict A → Dict A
  remove k [] = []
  remove k ((key, a) ∷ rest) = if key == k then rest else (key, a) ∷ remove k rest

  unfoldable pub has : ℕ → Dict A → Bool
  has k d = elim (get k d) [ none ↦ false | some a ↦ true ]

  -- no key twice
  abbrev pub IsMap : Dict A → Type ℓ
  IsMap [] = Unit
  IsMap ((key, a) ∷ rest) = (get key rest ≡ none) × IsMap rest

  pub get-set :
      (k j : ℕ) (v : A) (d : Dict A) → get j (set k v d) ≡ (if k == j then some v else get j d)
  unfolding get set
  get-set k j v [] = ground arith
  get-set k j v ((key, a) ∷ rest) = ground (arith, get-set k j v rest)

  pub get-remove :
      (k j : ℕ) (d : Dict A) → IsMap d → get j (remove k d) ≡ (if k == j then none else get j d)
  unfolding get remove
  get-remove k j [] m = ground arith
  get-remove k j ((key, a) ∷ rest) m = ground (arith, get-remove k j rest m.1)

  pub set-IsMap : (k : ℕ) (v : A) (d : Dict A) → IsMap d → IsMap (set k v d)
  unfolding get set
  set-IsMap k v [] m = (refl, tt)
  set-IsMap k v ((key, a) ∷ rest) m = ground (arith, set-IsMap k v rest m.1, get-set k key v rest)

  pub remove-IsMap : (k : ℕ) (d : Dict A) → IsMap d → IsMap (remove k d)
  unfolding get remove
  remove-IsMap k [] m = tt
  remove-IsMap k ((key, a) ∷ rest) m =
      ground (arith, remove-IsMap k rest m.1, get-remove k key rest m.1)

  pub length-set_new :
      (k : ℕ) (v : A) (d : Dict A) → get k d ≡ none → length (set k v d) ≡ length d + 1
  unfolding get set
  length-set_new k v [] h = refl
  length-set_new k v ((key, a) ∷ rest) h = ground (arith, length-set_new k v rest)

  pub length-remove :
      (k : ℕ) (v : A) (d : Dict A) → get k d ≡ some v → length d ≡ length (remove k d) + 1
  unfolding get remove
  length-remove k v [] h = absurd (ground arith)
  length-remove k v ((key, a) ∷ rest) h = ground (arith, length-remove k v rest)

  pub length-remove-le : (k : ℕ) (d : Dict A) → length (remove k d) ≤ length d
  unfolding remove
  length-remove-le k [] = ground arith
  length-remove-le k ((key, a) ∷ rest) = ground (arith, length-remove-le k rest)

  pub length-set_same :
      (k : ℕ) (v w : A) (d : Dict A) → get k d ≡ some v → length (set k w d) ≡ length d
  unfolding get set
  length-set_same k v w [] h = absurd (ground arith)
  length-set_same k v w ((key, a) ∷ rest) h = ground (arith, length-set_same k v w rest)
