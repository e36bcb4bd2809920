-- ===== src/Prelude/Tables.antt =====
-- Rows of a table and the queries that the controllers make of it: the model's `findOne`,
-- `findAll`, `update`, `destroy`, with the `where` clause as a Boolean test.
use Prim.Native.Nat.{ℕ, suc, ◌+◌, ◌≤◌}
use mathlib.Core.Path.{◌≡◌, refl, sym, ap, ◌∙◌}
use mathlib.Core.Logic.{◌⊎◌, inl, inr}
use mathlib.Core.Bool.{false≢true, Bool, true, false, ◌||◌}
use mathlib.Core.Option.{Option, none, some}
use mathlib.Core.List.{List, [], ◌∷◌, ◌++◌}
use native.Mathlib.Omega.{arith}
use infram.Prelude.Tests.{if◌then◌else◌, Bool-cases}

module _ {ℓ} {A : Type ℓ} where
  abbrev pub length : List A → ℕ
  length [] = 0
  length (x ∷ xs) = suc (length xs)

  pub length-append : (xs ys : List A) → length (xs ++ ys) ≡ length xs + length ys
  length-append [] ys = omega arith
  length-append (x ∷ xs) ys = omega (arith, length-append xs ys)

  unfoldable pub find_one : (A → Bool) → List A → Option A
  find_one p [] = none
  find_one p (x ∷ xs) = if p x then some x else find_one p xs

  unfoldable pub find_all : (A → Bool) → List A → List A
  find_all p [] = []
  find_all p (x ∷ xs) = if p x then x ∷ find_all p xs else find_all p xs

  unfoldable pub destroy : (A → Bool) → List A → List A
  destroy p [] = []
  destroy p (x ∷ xs) = if p x then destroy p xs else x ∷ destroy p xs

  unfoldable pub update : (A → Bool) → (A → A) → List A → List A
  update p f [] = []
  update p f (x ∷ xs) = (if p x then f x else x) ∷ update p f xs

  unfoldable pub any : (A → Bool) → List A → Bool
  any p [] = false
  any p (x ∷ xs) = p x || any p xs

  unfoldable pub count : (A → Bool) → List A → ℕ
  count p [] = 0
  count p (x ∷ xs) = if p x then suc (count p xs) else count p xs

-- A row stands in a table.
abbrev pub In : {A : Type 0} → A → List A → Type 0
In a [] = ⊥
In a (x ∷ xs) = (a ≡ x) ⊎ In a xs

abbrev pub All {ℓ κ} : {A : Type ℓ} → (A → Type κ) → List A → Type κ
All P [] = Unit
All P (x ∷ xs) = P x × All P xs

module _ {A : Type 0} where
  pub find_one-In : (p : A → Bool) (xs : List A) (a : A) → find_one p xs ≡ some a → In a xs
  unfolding find_one
  find_one-In p [] a h = ground arith
  find_one-In p (x ∷ xs) a h = ground (arith, find_one-In p xs a)

  pub find_one-test : (p : A → Bool) (xs : List A) (a : A) → find_one p xs ≡ some a → p a ≡ true
  unfolding find_one
  find_one-test p [] a h = ground arith
  find_one-test p (x ∷ xs) a h = ground (arith, find_one-test p xs a)

  pub find_one-none :
      (p : A → Bool) (xs : List A) (a : A) → find_one p xs ≡ none → In a xs → p a ≡ false
  unfolding find_one
  find_one-none p [] a h i = elim i [ ]
  find_one-none p (x ∷ xs) a h i = ground (arith, find_one-none p xs a)

  pub In-destroy :
      (p : A → Bool) (xs : List A) (a : A) → In a (destroy p xs) → In a xs × (p a ≡ false)
  unfolding destroy
  In-destroy p [] a i = elim i [ ]
  In-destroy p (x ∷ xs) a i = ground (arith, In-destroy p xs a)

  pub In-destroy_of :
      (p : A → Bool) (xs : List A) (a : A) → In a xs → p a ≡ false → In a (destroy p xs)
  unfolding destroy
  In-destroy_of p [] a i h = i
  In-destroy_of p (x ∷ xs) a i h = ground (arith, In-destroy_of p xs a)

  pub In-find_all :
      (p : A → Bool) (xs : List A) (a : A) → In a (find_all p xs) → In a xs × (p a ≡ true)
  unfolding find_all
  In-find_all p [] a i = elim i [ ]
  In-find_all p (x ∷ xs) a i = ground (arith, In-find_all p xs a)

  pub In-find_all_of :
      (p : A → Bool) (xs : List A) (a : A) → In a xs → p a ≡ true → In a (find_all p xs)
  unfolding find_all
  In-find_all_of p [] a i h = i
  In-find_all_of p (x ∷ xs) a i h = ground (arith, In-find_all_of p xs a)

  pub count-zero : (p : A → Bool) (xs : List A) → count p xs ≡ 0 → find_one p xs ≡ none
  unfolding count find_one
  count-zero p [] h = refl
  count-zero p (x ∷ xs) h = ground (arith, count-zero p xs)

  pub find_one_ext :
      (p q : A → Bool) (xs : List A) → ((a : A) → p a ≡ q a) → find_one p xs ≡ find_one q xs
  unfolding find_one
  find_one_ext p q [] h = refl
  find_one_ext p q (x ∷ xs) h = ground (arith, h x, find_one_ext p q xs h)

  pub any-In : (p : A → Bool) (xs : List A) → any p xs ≡ true → (a : A) × In a xs × (p a ≡ true)
  unfolding any
  any-In p [] h = absurd (false≢true h)
  any-In p (x ∷ xs) h = elim (Bool-cases (p x)) [
    | inl y ↦ (x, inl refl, y)
    | inr n ↦ let (a, i, e) = any-In p xs (ground arith) in (a, inr i, e)
  ]

  pub In-any : (p : A → Bool) (xs : List A) (a : A) → In a xs → p a ≡ true → any p xs ≡ true
  unfolding any
  In-any p [] a i h = elim i [ ]
  In-any p (x ∷ xs) a (inl e) h = let y : p x ≡ true = ap p (sym e) ∙ h in ground arith
  In-any p (x ∷ xs) a (inr i) h = ground (arith, In-any p xs a i h)

  pub destroy_nothing : (p : A → Bool) (xs : List A) → ((a : A) → p a ≡ false) → destroy p xs ≡ xs
  unfolding destroy
  destroy_nothing p [] h = refl
  destroy_nothing p (x ∷ xs) h = rw (h x) (ap (◌∷◌ x) (destroy_nothing p xs h))

  pub any-append : (p : A → Bool) (xs ys : List A) → any p (xs ++ ys) ≡ any p xs || any p ys
  unfolding any
  any-append p [] ys = refl
  any-append p (x ∷ xs) ys = ground (arith, any-append p xs ys)

  pub count-append : (p : A → Bool) (xs ys : List A) → count p (xs ++ ys) ≡ count p xs + count p ys
  unfolding count
  count-append p [] ys = omega arith
  count-append p (x ∷ xs) ys = ground (arith, count-append p xs ys)

  pub count-destroy : (p q : A → Bool) (xs : List A) → count p (destroy q xs) ≤ count p xs
  unfolding count destroy
  count-destroy p q [] = omega arith
  count-destroy p q (x ∷ xs) = ground (arith, count-destroy p q xs)

  pub count-none : (p : A → Bool) (xs : List A) → any p xs ≡ false → count p xs ≡ 0
  unfolding any count
  count-none p [] h = refl
  count-none p (x ∷ xs) h = ground (arith, count-none p xs)
