-- ===== src/Prelude/Ids.antt =====
-- Identifiers as the source tests them: null and 0 are falsy, and `includes` looks one up.
use Prim.Native.Nat.{ℕ}
use mathlib.Core.Path.{◌≡◌}
use mathlib.Core.Bool.{Bool, not}
use mathlib.Core.Option.{Option, none, some}
use mathlib.Core.List.{List}
use native.Mathlib.Omega.{arith}
use infram.Prelude.Tests.{◌==◌, if◌then◌else◌, is_some}
use infram.Prelude.Tables.{any}

-- An identifier that is null, or 0, does not count.
abbrev pub given : Option ℕ → Option ℕ
given none = none
given (some id) = if id == 0 then none else some id

abbrev pub is_none {ℓ} : {A : Type ℓ} → Option A → Bool
is_none o = not (is_some o)

abbrev pub is_one_of : List ℕ → ℕ → Bool
is_one_of ids id = any (λ i. i == id) ids

pub given-eq : (o : Option ℕ) (n : ℕ) → given o ≡ some n → o ≡ some n
given-eq none n h = h
given-eq (some m) n h = ground arith
