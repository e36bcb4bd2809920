-- ===== src/Texts/Cutting.antt =====
-- What cutting a text at a character gives.
use infram.Prelude.{
  ℕ, ◌≡◌, refl, ap, subst, ◌||◌, ==_iff, inl, inr, false, none, some, [], ◌∷◌, ◌++◌, arith,
  Bool-cases, ◌==◌, Option-cases,
}
use mathlib.Core.Option.{some-injective}
use infram.Texts.{Text, has_char, cut_first, cut_last}

-- Where there is no such character, there is none in the text.
pub cut_last-none : (k : ℕ) (s : Text) → cut_last k s ≡ none → has_char k s ≡ false
unfolding cut_last has_char
cut_last-none k [] h = refl
cut_last-none k (c ∷ s) h = ground (arith, cut_last-none k s)

-- The parts make up the text, and the last part has no such character.
pub cut_last-some :
    (k : ℕ) (s : Text) (p : Text × Text)
    → cut_last k s ≡ some p
    → (s ≡ p.0 ++ p.1) × (has_char k p.1 ≡ false)
unfolding cut_last has_char
cut_last-some k [] p h = ground arith
cut_last-some k (c ∷ s) p h = elim (Option-cases (cut_last k s)) [
  | inl e ↦ elim (Bool-cases (c == k)) [
    | inl y ↦
        subst (λ q. (c ∷ s ≡ q.0 ++ q.1) × (has_char k q.1 ≡ false))
          (some-injective (c ∷ [], s) p (rw (e, y) at h)) (refl, cut_last-none k s e)
    | inr n ↦ let bad = rw (e, n) at h in ground arith
  ]
  | inr (q, e) ↦
      let (x, y) = cut_last-some k s q e in
      subst (λ q. (c ∷ s ≡ q.0 ++ q.1) × (has_char k q.1 ≡ false))
        (some-injective (c ∷ q.0, q.1) p (rw e at h)) (ap (◌∷◌ c) x, y)
]

pub cut_first-none : (k : ℕ) (s : Text) → cut_first k s ≡ none → has_char k s ≡ false
unfolding cut_first has_char
cut_first-none k [] h = refl
cut_first-none k (c ∷ s) h = ground (arith, cut_first-none k s)

-- The first part has no such character, and the parts make up the text with one between them.
pub cut_first-some :
    (k : ℕ) (s : Text) (p : Text × Text)
    → cut_first k s ≡ some p
    → (s ≡ p.0 ++ k ∷ p.1) × (has_char k p.0 ≡ false)
unfolding cut_first has_char
cut_first-some k [] p h = ground arith
cut_first-some k (c ∷ s) p h = elim (Bool-cases (c == k)) [
  | inl y ↦
      subst (λ q. (c ∷ s ≡ q.0 ++ k ∷ q.1) × (has_char k q.0 ≡ false))
        (some-injective ([], s) p (rw y at h)) (ap (λ d. d ∷ s) ((==_iff c k).0 y), refl)
  | inr n ↦ elim (Option-cases (cut_first k s)) [
    | inl e ↦ let bad = rw (n, e) at h in ground arith
    | inr (q, e) ↦
        let (x, y) = cut_first-some k s q e in
        subst (λ q. (c ∷ s ≡ q.0 ++ k ∷ q.1) × (has_char k q.0 ≡ false))
          (some-injective (c ∷ q.0, q.1) p (rw (n, e) at h)) (ap (◌∷◌ c) x, rw n y)
  ]
]

has_char-append : (k : ℕ) (s t : Text) → has_char k (s ++ t) ≡ has_char k s || has_char k t
unfolding has_char
has_char-append k [] t = refl
has_char-append k (c ∷ s) t = ground (arith, has_char-append k s t)
