-- ===== src/Prelude/Answers.antt =====
-- What a handler of a controller returns: a result, or the status code of an error.
use Prim.Native.Nat.{ℕ}
use mathlib.Core.Bool.{Bool, true, false}
use mathlib.Core.Path.{◌≡◌, refl, ap}
use mathlib.Core.Logic.{◌⊎◌, inl, inr}
use mathlib.Core.Option.{Option, none, some}
use native.Mathlib.Omega.{arith}

pub data Result {ℓ} (A : Type ℓ) : Type ℓ where
  err : (code : ℕ) → Result A
  ok : (answer : A) → Result A

-- `if (!found) return { code }`
abbrev pub or_err {ℓ} : {A : Type ℓ} → Option A → ℕ → Result A
or_err none code = err code
or_err (some a) code = ok a

infixl 5 ◌>>=◌ ◌>>◌
abbrev pub ◌>>=◌ {κ ℓ} :
    {A : Type κ} {B : Type ℓ} → (first : Result A) (rest : A → Result B) → Result B
err code >>= rest = err code
ok a >>= rest = rest a

-- `if (!test) return { code }`
abbrev pub guard : (test : Bool) (code : ℕ) → Result (Unit {0})
guard false code = err code
guard true code = ok tt

abbrev pub ◌>>◌ {ℓ} : {B : Type ℓ} → (check : Result (Unit {0})) (rest : Result B) → Result B
check >> rest = check >>= λ _. rest

pub Result-cases {ℓ} :
    {A : Type ℓ} (r : Result A) → ((code : ℕ) × (r ≡ err code)) ⊎ ((a : A) × (r ≡ ok a))
Result-cases (err code) = inl (code, refl)
Result-cases (ok a) = inr (a, refl)

abbrev pub answer_of {ℓ} : {A : Type ℓ} → A → Result A → A
answer_of a (err code) = a
answer_of a (ok b) = b

-- What a handler that succeeds has passed.
pub bind-ok {κ ℓ} :
    {A : Type κ} {B : Type ℓ} (r : Result A) (f : A → Result B) {b : B}
    → (r >>= f) ≡ ok b
    → (a : A) × (r ≡ ok a) × (f a ≡ ok b)
bind-ok (err code) f h = ground arith
bind-ok (ok a) f h = (a, refl, h)

pub guard-ok {ℓ} :
    {B : Type ℓ} (test : Bool) (code : ℕ) (r : Result B) {b : B}
    → (guard test code >> r) ≡ ok b
    → (test ≡ true) × (r ≡ ok b)
guard-ok false code r h = ground arith
guard-ok true code r h = (refl, h)

pub or_err-ok {ℓ} :
    {A : Type ℓ} (o : Option A) (code : ℕ) (a : A) → or_err o code ≡ ok a → o ≡ some a
or_err-ok none code a h = ground arith
or_err-ok (some b) code a h = ap (λ r. elim r [ err c ↦ none | ok x ↦ some x ]) h

pub ok-injective {ℓ} : {A : Type ℓ} {a b : A} → ok a ≡ ok b → a ≡ b
ok-injective {a = a} h = ap (λ r. elim r [ err c ↦ a | ok x ↦ x ]) h
