-- ===== src/Guacd/Framing.antt =====
-- What `sendOpCode` writes, read as the Guacamole protocol says: each element is a number, a dot
-- and so many characters; a comma goes on, and a semicolon ends the instruction. guacd counts
-- characters of Unicode, and the client counts the units of UTF-16, two of which, a high and a low
-- one, may be one character.
use infram.Prelude.{
  ℕ, zero, suc, ◌<◌, ◌≡◌, refl, ap, ◌∙◌, Option, none, some, List, [], ◌∷◌, ◌++◌, ◌==◌, arith, map,
  if◌then◌else◌, length, any, Bool, false, ◌&&◌, leb,
}
use mathlib.Core.List.{append_assoc}
use infram.Texts.{Text, codes, behind, leading_digits, number_of, decimal}
use infram.Texts.Decimal.{read-decimal}
use infram.Guacd.{Value, shown, element, joined, op_code}

-- The first of the two units of a character that needs two.
abbrev is_high : ℕ → Bool
is_high c = leb 55296 c && leb c 56319

unfoldable pub onto : Text → Option (Text × Text) → Option (Text × Text)
onto t none = none
onto t (some parts) = some (t ++ parts.0, parts.1)

-- So many characters.
unfoldable pub take_exactly : ℕ → Text → Option (Text × Text)
take_exactly zero s = some ([], s)
take_exactly (suc n) [] = none
take_exactly (suc n) (c ∷ []) = if is_high c then none else onto (c ∷ []) (take_exactly n [])
take_exactly (suc n) (c ∷ d ∷ s) =
    let pair = take_exactly n s in
    let one = take_exactly n (d ∷ s) in
    if is_high c then onto (c ∷ d ∷ []) pair else onto (c ∷ []) one

unfoldable pub read_element : Text → Option (Text × Text)
read_element s =
    let parts = leading_digits s in
    elim (behind (codes ".") parts.1) [
      | none ↦ none
      | some rest ↦ take_exactly (number_of parts.0 0) rest
    ]

-- An instruction of no more elements than the fuel, and what is behind it.
unfoldable pub read_instruction : (fuel : ℕ) → Text → Option (List Text × Text)
read_instruction zero s = none
read_instruction (suc fuel) s = elim (read_element s) [
  | none ↦ none
  | some p ↦ elim p.1 [
    | [] ↦ none
    | c ∷ rest ↦
        let more = read_instruction fuel rest in
        if c == b';'
        then some (p.0 ∷ [], rest)
        else if c == b','
        then elim more [ none ↦ none | some q ↦ some (p.0 ∷ q.0, q.1) ]
        else none
  ]
]

take_exactly-step :
    (n c : ℕ) (s : Text)
    → is_high c ≡ false
    → take_exactly (suc n) (c ∷ s) ≡ onto (c ∷ []) (take_exactly n s)
unfolding take_exactly
take_exactly-step n c [] h = rw h refl
take_exactly-step n c (d ∷ s) h = rw h refl

take_exactly-length :
    (s rest : Text) → any is_high s ≡ false → take_exactly (length s) (s ++ rest) ≡ some (s, rest)
unfolding take_exactly any onto
take_exactly-length [] rest h = refl
take_exactly-length (c ∷ s) rest h =
    take_exactly-step (length s) c (s ++ rest) (ground arith)
    ∙ ap (onto (c ∷ [])) (take_exactly-length s rest (ground arith))

read_element_of :
    (t s : Text) (n : ℕ)
    → (leading_digits t).1 ≡ b'.' ∷ s
    → number_of (leading_digits t).0 0 ≡ n
    → read_element t ≡ take_exactly n s
unfolding read_element behind
read_element_of t s n a b = rw (read_element, a, b) refl

-- An element is read back, with dots, commas and semicolons in it as well.
read_element-element :
    (s rest : Text) → any is_high s ≡ false → read_element (element s ++ rest) ≡ some (s, rest)
unfolding element
read_element-element s rest plain =
    let (a, b) = read-decimal (length s) (b'.' ∷ (s ++ rest)) refl in
    ap read_element (append_assoc (decimal (length s)) (b'.' ∷ s) rest)
    ∙ read_element_of (decimal (length s) ++ b'.' ∷ (s ++ rest)) (s ++ rest) (length s) a b
    ∙ take_exactly-length s rest plain

-- An instruction that the client writes is read back as its parts and up to its end, by a reader that
-- counts characters and may read as many parts, if no part has a character of two units; dots,
-- commas and semicolons may be in the parts.
pub read_instruction-op_code :
    (p : Value) (ps : List Value) (rest : Text) (fuel : ℕ)
    → length ps < fuel
    → any (λ q. any is_high (shown q)) (p ∷ ps) ≡ false
    → read_instruction fuel (op_code (p ∷ ps) ++ rest) ≡ some (map shown (p ∷ ps), rest)
unfolding read_instruction op_code joined any
read_instruction-op_code p ps rest zero h plain = ground arith
read_instruction-op_code p [] rest (suc fuel) h plain =
    rw
      (
        append_assoc (element (shown p)) (b';' ∷ []) rest,
        read_instruction,
        read_element-element (shown p) (b';' ∷ rest) (ground arith),
      )
      refl
read_instruction-op_code p (q ∷ qs) rest (suc fuel) h plain =
    let ih = read_instruction-op_code q qs rest fuel (omega arith) (ground arith) in
    let e = element (shown p) in
    let more = joined (element (shown q)) (map (λ r. element (shown r)) qs) in
    rw
      (
        append_assoc e (b',' ∷ more) (b';' ∷ []),
        append_assoc e (b',' ∷ (more ++ b';' ∷ [])) rest,
        read_instruction,
        read_element-element (shown p) (b',' ∷ (more ++ b';' ∷ [] ++ rest)) (ground arith),
        ih,
      )
      refl
