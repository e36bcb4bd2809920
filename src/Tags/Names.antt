-- ===== src/Tags/Names.antt =====
-- The names of an account's tags under the changes that tag.js makes to the table.
use infram.Prelude.{
  ℕ, ◌≡◌, refl, subst, ◌∙◌, inl, inr, Bool, true, false, not, ◌&&◌, ◌||◌, Option, none, some, List,
  [], ◌∷◌, ◌++◌, ◌==◌, any, find_one, destroy, update, arith, Bool-cases, any-append,
}
use mathlib.Core.Option.{some-injective}
use infram.Tags.{Tag, is_tag, is_named, is_taken, with_data}

-- Two tags that may not be there at once.
abbrev clashes : Tag → Tag → Bool
clashes t u = u.id == t.id || is_named t.account_id t.name u

abbrev pub UniqueTags : List Tag → Type 0
UniqueTags [] = Unit
UniqueTags (t ∷ l) = (any (clashes t) l ≡ false) × UniqueTags l

pub unique-append :
    (n : Tag) (l : List Tag)
    → any (is_named n.account_id n.name) l ≡ false
    → any (is_tag n.id) l ≡ false
    → UniqueTags l
    → UniqueTags (l ++ n ∷ [])
unfolding any
unique-append n [] h i u = (refl, tt)
unique-append n (t ∷ l) h i (alone, u) = (
  any-append (clashes t) l (n ∷ []) ∙ ground arith,
  unique-append n l (ground arith) (ground arith) u,
)

module _ {A : Type 0} where
  pub none-destroy : (p q : A → Bool) (l : List A) → any p l ≡ false → any p (destroy q l) ≡ false
  unfolding any destroy
  none-destroy p q [] h = refl
  none-destroy p q (a ∷ l) h = ground (arith, none-destroy p q l)

pub unique-destroy : (q : Tag → Bool) (l : List Tag) → UniqueTags l → UniqueTags (destroy q l)
unfolding destroy
unique-destroy q [] u = tt
unique-destroy q (t ∷ l) (alone, u) = elim (Bool-cases (q t)) [
  | inl y ↦ rw y (unique-destroy q l u)
  | inr n ↦ rw n (none-destroy (clashes t) q l alone, unique-destroy q l u)
]

-- The rows of an identifier are of the account.
abbrev is_foreign : (account id : ℕ) → Tag → Bool
is_foreign account id t = t.id == id && not (t.account_id == account)

none_else :
    (id : ℕ) (name color : Option ℕ) (l : List Tag)
    → any (is_tag id) l ≡ false
    → update (is_tag id) (with_data name color) l ≡ l
unfolding any update
none_else id name color [] h = refl
none_else id name color (t ∷ l) h = ground (arith, none_else id name color l)

-- A row that another one of the list does not clash with after the update.
none-update :
    (account id n : ℕ) (color : Option ℕ) (t : Tag) (l : List Tag)
    → (t.id == id) ≡ false
    → is_taken account n id t ≡ false
    → any (is_foreign account id) l ≡ false
    → any (clashes t) l ≡ false
    → any (clashes t) (update (is_tag id) (with_data (some n) color) l) ≡ false
unfolding any update
none-update account id n color t [] d k f h = refl
none-update account id n color t (u ∷ l) d k f h =
    ground (arith, none-update account id n color t l d k)

-- The updated row itself.
none_taken :
    (account id n : ℕ) (t : Tag) (l : List Tag)
    → (t.id == id) ≡ true
    → any (clashes t) l ≡ false
    → (any (is_tag id) l ≡ false) × (any (is_taken account n id) l ≡ any (is_named account n) l)
unfolding any
none_taken account id n t [] y h = (refl, refl)
none_taken account id n t (u ∷ l) y h =
    let (e, f) = none_taken account id n t l y (ground arith) in (ground arith, ground arith)

none-same :
    (s t : Tag) (l : List Tag)
    → any (is_tag s.id) l ≡ false
    → any (is_named s.account_id s.name) l ≡ false
    → any (clashes s) l ≡ false
unfolding any
none-same s t [] i h = refl
none-same s t (u ∷ l) i h = ground (arith, none-same s t l)

pub unique-rename :
    (account id n : ℕ) (color : Option ℕ) (l : List Tag)
    → any (is_taken account n id) l ≡ false
    → any (is_foreign account id) l ≡ false
    → UniqueTags l
    → UniqueTags (update (is_tag id) (with_data (some n) color) l)
unfolding any update
unique-rename account id n color [] k f u = tt
unique-rename account id n color (t ∷ l) k f (alone, u) = elim (Bool-cases (t.id == id)) [
  | inl y ↦
      let (out, same) = none_taken account id n t l y alone in
      rw (y, none_else id (some n) color l out)
        (none-same (with_data (some n) color t) t l (ground arith) (ground arith), u)
  | inr d ↦ rw d (
    none-update account id n color t l d (ground arith) (ground arith) alone,
    unique-rename account id n color l (ground arith) (ground arith) u,
  )
]

none-recolor :
    (id : ℕ) (color : Option ℕ) (t : Tag) (l : List Tag)
    → any (clashes t) (update (is_tag id) (with_data none color) l) ≡ any (clashes t) l
unfolding any update
none-recolor id color t [] = refl
none-recolor id color t (u ∷ l) = ground (arith, none-recolor id color t l)

pub unique-recolor :
    (id : ℕ) (color : Option ℕ) (l : List Tag)
    → UniqueTags l
    → UniqueTags (update (is_tag id) (with_data none color) l)
unfolding update
unique-recolor id color [] u = tt
unique-recolor id color (t ∷ l) (alone, u) = elim (Bool-cases (t.id == id)) [
  | inl y ↦ rw y (none-recolor id color t l ∙ alone, unique-recolor id color l u)
  | inr d ↦ rw d (none-recolor id color t l ∙ alone, unique-recolor id color l u)
]

found-none :
    (p q : Tag → Bool) (t : Tag) (l : List Tag)
    → any p l ≡ false
    → find_one q l ≡ some t
    → p t ≡ false
unfolding find_one any
found-none p q t [] h e = ground arith
found-none p q t (s ∷ l) h e = ground (arith, found-none p q t l)

parts :
    (id : ℕ) (s : Tag) (l : List Tag)
    → (s.id == id) ≡ true
    → any (clashes s) l ≡ false
    → (any (is_foreign s.account_id id) l ≡ false)
      × (any (is_taken s.account_id s.name id) l ≡ false)
unfolding any
parts id s [] y h = (refl, refl)
parts id s (u ∷ l) y h = ground (arith, parts id s l y)

-- The tag that was found has no namesake and its identifier no other row.
pub none_foreign :
    (id : ℕ) (t : Tag) (l : List Tag)
    → UniqueTags l
    → find_one (is_tag id) l ≡ some t
    → (any (is_foreign t.account_id id) l ≡ false)
      × (any (is_taken t.account_id t.name id) l ≡ false)
unfolding find_one any
none_foreign id t [] u e = ground arith
none_foreign id t (s ∷ l) (alone, u) e = elim (Bool-cases (s.id == id)) [
  | inl y ↦
      let one : s ≡ t = some-injective s t (rw y at e) in
      let (f, k) = parts id s l y alone in
      subst
        (λ r.
          (any (is_foreign r.account_id id) (s ∷ l) ≡ false)
          × (any (is_taken r.account_id r.name id) (s ∷ l) ≡ false))
        one (ground arith, ground arith)
  | inr n ↦
      let rest = rw n at e in
      let (f, k) = none_foreign id t l u rest in
      let other = found-none (clashes s) (is_tag id) t l alone rest in (ground arith, ground arith)
]
