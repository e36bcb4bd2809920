-- ===== src/Prelude/Maps.antt =====
-- A JavaScript `Map` whose keys are compared by value: entries in the order of insertion.
-- The identifiers that the program draws from a UUID library are numbers here, since it only
-- compares them.
use Prim.Native.Nat.{ℕ}
use mathlib.Core.Path.{◌≡◌, refl}
use mathlib.Core.Option.{Option, none, some}
use mathlib.Core.Option
use mathlib.Core.List.{List, [], ◌∷◌}
use native.Mathlib.Omega.{arith}
use infram.Prelude.Tests.{◌==◌, if◌then◌else◌}

module _ {ℓ} {V : Type ℓ} where
  unfoldable pub get : ℕ → List (ℕ × V) → Option V
  get k [] = none
  get k ((j, v) ∷ m) = if j == k then some v else get k m

  -- A known key keeps its place.
  unfoldable pub set : ℕ → V → List (ℕ × V) → List (ℕ × V)
  set k v [] = (k, v) ∷ []
  set k v ((j, w) ∷ m) = if j == k then (k, v) ∷ m else (j, w) ∷ set k v m

  unfoldable pub delete : ℕ → List (ℕ × V) → List (ℕ × V)
  delete k [] = []
  delete k ((j, v) ∷ m) = if j == k then delete k m else (j, v) ∷ delete k m

  -- Assignments to the object that stands under a key.
  unfoldable pub modify : ℕ → (V → V) → List (ℕ × V) → List (ℕ × V)
  modify k f [] = []
  modify k f ((j, v) ∷ m) = if j == k then (j, f v) ∷ modify k f m else (j, v) ∷ modify k f m

  pub get-set :
      (k j : ℕ) (v : V) (m : List (ℕ × V))
      → get j (set k v m) ≡ (if k == j then some v else get j m)
  unfolding get set
  get-set k j v [] = refl
  get-set k j v ((i, w) ∷ m) = ground (arith, get-set k j v m)

  pub get-delete :
      (k j : ℕ) (m : List (ℕ × V)) → get j (delete k m) ≡ (if k == j then none else get j m)
  unfolding get delete
  get-delete k j [] = ground arith
  get-delete k j ((i, w) ∷ m) = ground (arith, get-delete k j m)

  pub get-modify :
      (k j : ℕ) (f : V → V) (m : List (ℕ × V))
      → get j (modify k f m) ≡ (if k == j then Option.map f (get j m) else get j m)
  unfolding get modify
  get-modify k j f [] = ground arith
  get-modify k j f ((i, w) ∷ m) = ground (arith, get-modify k j f m)

  -- No key stands twice.
  abbrev pub UniqueKeys : List (ℕ × V) → Type ℓ
  UniqueKeys [] = Unit
  UniqueKeys ((k, v) ∷ m) = (get k m ≡ none) × UniqueKeys m

  pub UniqueKeys-set : (k : ℕ) (v : V) (m : List (ℕ × V)) → UniqueKeys m → UniqueKeys (set k v m)
  unfolding set get
  UniqueKeys-set k v [] u = (refl, tt)
  UniqueKeys-set k v ((j, w) ∷ m) (a, u) = ground (arith, UniqueKeys-set k v m u, get-set k j v m)

  pub UniqueKeys-delete : (k : ℕ) (m : List (ℕ × V)) → UniqueKeys m → UniqueKeys (delete k m)
  unfolding delete
  UniqueKeys-delete k [] u = tt
  UniqueKeys-delete k ((j, w) ∷ m) (a, u) =
      ground (arith, UniqueKeys-delete k m u, get-delete k j m)

  pub UniqueKeys-modify :
      (k : ℕ) (f : V → V) (m : List (ℕ × V)) → UniqueKeys m → UniqueKeys (modify k f m)
  unfolding modify
  UniqueKeys-modify k f [] u = tt
  UniqueKeys-modify k f ((j, w) ∷ m) (a, u) =
      ground (arith, UniqueKeys-modify k f m u, get-modify k j f m)

pub ruleset map_laws = (get-set, get-delete, get-modify)
