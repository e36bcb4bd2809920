-- ===== src/Texts.antt =====
-- Texts as lists of UTF-16 code units, for the code that walks through them: `length`, `indexOf`,
-- `lastIndexOf`, `substring`, `split` and `String(n)` of JavaScript.
pub mod Decimal
pub mod Cutting
use Prim.Native.Char.{code}
use Prim.Native.String.{String}
use infram.Prelude.{
  ℕ, zero, suc, ◌+◌, ◌-◌, ◌*◌, ◌/◌, ◌%◌, Bool, true, false, ◌&&◌, ◌||◌, Option, none, some, List,
  [], ◌∷◌, ◌++◌, ◌==◌, ltb, leb, if◌then◌else◌,
}

abbrev pub Text : Type 0
Text = List ℕ

-- The text of a literal.
abbrev pub codes : String → Text
codes String.[] = []
codes (String.◌∷◌ c s) = code c ∷ codes s

unfoldable pub text_eq : Text → Text → Bool
text_eq [] [] = true
text_eq [] (c ∷ s) = false
text_eq (c ∷ s) [] = false
text_eq (c ∷ s) (d ∷ t) = c == d && text_eq s t

-- The rest of a text behind a beginning, if it has it.
unfoldable pub behind : (beginning : Text) → Text → Option Text
behind [] s = some s
behind (c ∷ p) [] = none
behind (c ∷ p) (d ∷ s) = if c == d then behind p s else none

-- `includes`
unfoldable pub includes : (part : Text) → Text → Bool
includes part [] = elim (behind part []) [ none ↦ false | some rest ↦ true ]
includes part (c ∷ s) =
    let later = includes part s in elim (behind part (c ∷ s)) [ none ↦ later | some rest ↦ true ]

unfoldable pub has_char : ℕ → Text → Bool
has_char k [] = false
has_char k (c ∷ s) = c == k || has_char k s

-- `substring(0, indexOf(k))` and `substring(indexOf(k) + 1)`
unfoldable pub cut_first : ℕ → Text → Option (Text × Text)
cut_first k [] = none
cut_first k (c ∷ s) =
    if c == k
    then some ([], s)
    else elim (cut_first k s) [ none ↦ none | some parts ↦ some (c ∷ parts.0, parts.1) ]

-- `substring(0, lastIndexOf(k) + 1)` and `substring(lastIndexOf(k) + 1)`
unfoldable pub cut_last : ℕ → Text → Option (Text × Text)
cut_last k [] = none
cut_last k (c ∷ s) = elim (cut_last k s) [
  | some parts ↦ some (c ∷ parts.0, parts.1)
  | none ↦ if c == k then some (c ∷ [], s) else none
]

-- `split(k)`
abbrev onto_first : ℕ → List Text → List Text
onto_first c [] = (c ∷ []) ∷ []
onto_first c (p ∷ ps) = (c ∷ p) ∷ ps

unfoldable pub split : ℕ → Text → List Text
split k [] = [] ∷ []
split k (c ∷ s) = if c == k then [] ∷ split k s else onto_first c (split k s)

abbrev pub is_digit : ℕ → Bool
is_digit c = leb b'0' c && leb c b'9'

-- The digits of a number in front of those that are there; `n` is below the fuel.
unfoldable pub digits : (fuel n : ℕ) → Text → Text
digits zero n out = out
digits (suc fuel) n out = elim (ltb n 10) [
  | true ↦ (b'0' + n) ∷ out
  | false ↦ digits fuel (n / 10) ((b'0' + n % 10) ∷ out)
]

-- `String(n)`
unfoldable pub decimal : ℕ → Text
decimal n = digits (suc n) n []

-- `\d*`, taken greedily: the digits and the rest.
unfoldable pub leading_digits : Text → Text × Text
leading_digits [] = ([], [])
leading_digits (c ∷ s) =
    let rest = leading_digits s in if is_digit c then (c ∷ rest.0, rest.1) else ([], c ∷ s)

-- `parseInt(…, 10)` of digits.
unfoldable pub number_of : Text → (before : ℕ) → ℕ
number_of [] n = n
number_of (c ∷ s) n = number_of s (n * 10 + (c - b'0'))
