-- ===== src/Texts/Decimal.antt =====
-- Reading a printed number.
use infram.Prelude.{
  ℕ, zero, suc, ◌+◌, ◌/◌, ◌%◌, ◌<◌, ◌≡◌, refl, ap, ◌∙◌, inl, inr, false, [], ◌∷◌, ◌++◌, arith,
  Bool-cases, ltb,
}
use infram.Texts.{Text, is_digit, digits, decimal, number_of, leading_digits}

-- A text that starts with no digit.
abbrev NoDigit : Text → Type 0
NoDigit [] = Unit
NoDigit (c ∷ s) = is_digit c ≡ false

digits-append :
    (fuel n : ℕ) (out rest : Text) → digits fuel n out ++ rest ≡ digits fuel n (out ++ rest)
unfolding digits
digits-append zero n out rest = refl
digits-append (suc fuel) n out rest = elim (Bool-cases (ltb n 10)) [
  | inl y ↦ rw (digits, y) refl
  | inr m ↦ rw (digits, m) (digits-append fuel (n / 10) ((b'0' + n % 10) ∷ out) rest)
]

no_leading : (s : Text) → NoDigit s → leading_digits s ≡ ([], s)
unfolding leading_digits
no_leading [] h = refl
no_leading (c ∷ s) h = rw h refl

-- The digits of a number are read up to a text that starts with none.
read-digits :
    (fuel n : ℕ) (out : Text)
    → n < fuel
    → ((leading_digits (digits fuel n out)).1 ≡ (leading_digits out).1)
      × (number_of (leading_digits (digits fuel n out)).0 0 ≡ number_of (leading_digits out).0 n)
unfolding digits leading_digits number_of
read-digits zero n out h = ground arith
read-digits (suc fuel) n out h = ground (arith, read-digits fuel (n / 10) ((b'0' + n % 10) ∷ out))

-- A printed number is read back, with what stands behind it.
pub read-decimal :
    (n : ℕ) (rest : Text)
    → NoDigit rest
    → ((leading_digits (decimal n ++ rest)).1 ≡ rest)
      × (number_of (leading_digits (decimal n ++ rest)).0 0 ≡ n)
unfolding decimal number_of
read-decimal n rest h = rw (digits-append (suc n) n [] rest) (
    let (a, b) = read-digits (suc n) n rest (omega arith) in
    let e = no_leading rest h in (a ∙ ap (λ x. x.1) e, b ∙ ap (λ x. number_of x.0 n) e))
