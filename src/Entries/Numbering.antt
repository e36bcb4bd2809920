-- ===== src/Entries/Numbering.antt =====
-- The loop of `repositionEntry` that numbers the entries, and the list that it numbers.
use infram.Prelude.{
  ℕ, suc, zero, ◌+◌, ◌≤◌, ◌<◌, ltb, ◌≡◌, refl, sym, ap, ◌∙◌, inl, inr, Bool, false, Option, none,
  some, List, [], ◌∷◌, ◌==◌, if◌then◌else◌, arith, find_one, find_all, destroy, update, length,
  Bool-cases, Option-cases,
}
use mathlib.Core.Option
use infram.Models.{Entry}
use infram.Folders.{Context}
use infram.Entries.{entry_at}
use infram.Entries.Moving.{index_of, insert_at, put, renumber}

-- The identifier is the key of the table.
abbrev pub UniqueEntries : List Entry → Type 0
UniqueEntries [] = Unit
UniqueEntries (e ∷ l) = (index_of e.id l ≡ none) × UniqueEntries l

entry_at-update :
    (f : Entry → Entry) (k j : ℕ) (l : List Entry)
    → ((e : Entry) → (f e).id ≡ e.id)
    → entry_at j (update (λ x. x.id == k) f l)
      ≡ (if k == j then Option.map f (entry_at j l) else entry_at j l)
unfolding entry_at find_one update
entry_at-update f k j [] h = ground arith
entry_at-update f k j (e ∷ l) h = ground (arith, entry_at-update f k j l h, h e)

id-put : (id n : ℕ) (folder : Option ℕ) (c : Context) (e : Entry) → (put id n folder c e).id ≡ e.id
id-put id n folder c e = ground arith

-- What the row of an entry is after the loop.
abbrev pub numbered :
    (id : ℕ) → (folder : Option ℕ) → Context → (n : ℕ) → Option ℕ → Option Entry → Option Entry
numbered id folder c n none o = o
numbered id folder c n (some m) o = Option.map (put id (n + m) folder c) o

shifted :
    (id : ℕ) (folder : Option ℕ) (c : Context) (n : ℕ) (m : Option ℕ) (o : Option Entry)
    → numbered id folder c (suc n) m o
      ≡ numbered id folder c n (elim m [ none ↦ none | some k ↦ some (suc k) ]) o
shifted id folder c n none o = refl
shifted id folder c n (some m) o =
    let moves : suc n + m ≡ n + suc m = omega arith in
    ap (λ k. Option.map (put id k folder c) o) moves

pub entry_at-renumber :
    (id : ℕ) (folder : Option ℕ) (c : Context) (n : ℕ) (order l : List Entry) (j : ℕ)
    → UniqueEntries order
    → entry_at j (renumber id folder c n order l)
      ≡ numbered id folder c n (index_of j order) (entry_at j l)
unfolding renumber index_of
entry_at-renumber id folder c n [] l j u = refl
entry_at-renumber id folder c n (e ∷ order) l j (alone, u) =
    let after = update (λ x. x.id == e.id) (put id n folder c) l in
    let step = entry_at-renumber id folder c (suc n) order after j u in
    let here = entry_at-update (put id n folder c) e.id j l (id-put id n folder c) in
    elim (Bool-cases (e.id == j)) [
      | inl y ↦
          let same_id : e.id ≡ j = ground arith in
          let gone = ap (λ k. index_of k order) (sym same_id) ∙ alone in
          let zero_right : n ≡ n + 0 = omega arith in
          rw y (
            step
            ∙ ap (λ o. numbered id folder c (suc n) o (entry_at j after)) gone
            ∙ (rw y at here)
            ∙ ap (λ m. Option.map (put id m folder c) (entry_at j l)) zero_right)
      | inr o ↦ rw o (
          step
          ∙ ap (numbered id folder c (suc n) (index_of j order)) (rw o at here)
          ∙ shifted id folder c n (index_of j order) (entry_at j l))
    ]

pub index_of-destroy : (id : ℕ) (l : List Entry) → index_of id (destroy (λ x. x.id == id) l) ≡ none
unfolding index_of destroy
index_of-destroy id [] = refl
index_of-destroy id (e ∷ l) = ground (arith, index_of-destroy id l)

none-find_all :
    (p : Entry → Bool) (j : ℕ) (l : List Entry)
    → index_of j l ≡ none
    → index_of j (find_all p l) ≡ none
unfolding index_of find_all
none-find_all p j [] h = refl
none-find_all p j (e ∷ l) h = ground (arith, none-find_all p j l)

pub UniqueEntries-find_all :
    (p : Entry → Bool) (l : List Entry) → UniqueEntries l → UniqueEntries (find_all p l)
unfolding find_all
UniqueEntries-find_all p [] u = tt
UniqueEntries-find_all p (e ∷ l) (a, u) =
    ground (arith, UniqueEntries-find_all p l u, none-find_all p e.id l a)

none-destroy :
    (p : Entry → Bool) (j : ℕ) (l : List Entry)
    → index_of j l ≡ none
    → index_of j (destroy p l) ≡ none
unfolding index_of destroy
none-destroy p j [] h = refl
none-destroy p j (e ∷ l) h = ground (arith, none-destroy p j l)

pub UniqueEntries-destroy :
    (p : Entry → Bool) (l : List Entry) → UniqueEntries l → UniqueEntries (destroy p l)
unfolding destroy
UniqueEntries-destroy p [] u = tt
UniqueEntries-destroy p (e ∷ l) (a, u) =
    ground (arith, UniqueEntries-destroy p l u, none-destroy p e.id l a)

none-insert_at :
    (n : ℕ) (e : Entry) (l : List Entry) (j : ℕ)
    → index_of j l ≡ none
    → e.id == j ≡ false
    → index_of j (insert_at n e l) ≡ none
unfolding index_of insert_at
none-insert_at zero e l j h o = ground arith
none-insert_at (suc n) e [] j h o = ground arith
none-insert_at (suc n) e (x ∷ l) j h o = ground (arith, none-insert_at n e l j)

pub UniqueEntries-insert_at :
    (n : ℕ) (e : Entry) (l : List Entry)
    → index_of e.id l ≡ none
    → UniqueEntries l
    → UniqueEntries (insert_at n e l)
unfolding index_of insert_at
UniqueEntries-insert_at zero e l h u = (h, u)
UniqueEntries-insert_at (suc n) e [] h u = (refl, tt)
UniqueEntries-insert_at (suc n) e (x ∷ l) h (a, u) =
    ground (arith, UniqueEntries-insert_at n e l, none-insert_at n e l x.id a)

-- Where the entry stands, and where the others do.
pub index_of-insert_at :
    (n : ℕ) (e : Entry) (l : List Entry)
    → index_of e.id l ≡ none
    → n ≤ length l
    → index_of e.id (insert_at n e l) ≡ some n
unfolding index_of insert_at
index_of-insert_at zero e l h b = ground arith
index_of-insert_at (suc n) e [] h b = ground arith
index_of-insert_at (suc n) e (x ∷ l) h b = ground (arith, index_of-insert_at n e l)

-- A place before the entry stays, and one from it on moves by one.
abbrev pub shift : (n m : ℕ) → ℕ
shift n m = if ltb m n then m else suc m

pub index_of-insert_at_other :
    (n : ℕ) (e : Entry) (l : List Entry) (j m : ℕ)
    → e.id == j ≡ false
    → index_of j l ≡ some m
    → index_of j (insert_at n e l) ≡ some (shift n m)
unfolding index_of insert_at
index_of-insert_at_other zero e l j m o h = ground arith
index_of-insert_at_other (suc n) e [] j m o h = ground arith
index_of-insert_at_other (suc n) e (x ∷ l) j zero o h = elim (Option-cases (index_of j l)) [
  | inl z ↦ ground arith
  | inr (k, z) ↦ ground arith
]
index_of-insert_at_other (suc n) e (x ∷ l) j (suc m) o h = elim (Option-cases (index_of j l)) [
  | inl z ↦ ground arith
  | inr (k, z) ↦ ground (arith, index_of-insert_at_other n e l j k o z)
]

pub length-insert_at :
    (n : ℕ) (e : Entry) (l : List Entry) → length (insert_at n e l) ≡ suc (length l)
unfolding insert_at
length-insert_at zero e l = refl
length-insert_at (suc n) e [] = refl
length-insert_at (suc n) e (x ∷ l) = ap suc (length-insert_at n e l)

pub index_of-bound : (j : ℕ) (l : List Entry) (m : ℕ) → index_of j l ≡ some m → m < length l
unfolding index_of
index_of-bound j [] m h = ground arith
index_of-bound j (x ∷ l) m h = elim (Option-cases (index_of j l)) [
  | inl z ↦ ground arith
  | inr (k, z) ↦ ground (arith, index_of-bound j l k z)
]

pub destroy-insert_at :
    (id n : ℕ) (e : Entry) (l : List Entry)
    → e.id ≡ id
    → destroy (λ x. x.id == id) (insert_at n e l) ≡ destroy (λ x. x.id == id) l
unfolding destroy insert_at
destroy-insert_at id zero e l h = ground arith
destroy-insert_at id (suc n) e [] h = ground arith
destroy-insert_at id (suc n) e (x ∷ l) h = ground (arith, destroy-insert_at id n e l h)

pub destroy_twice :
    (id : ℕ) (l : List Entry)
    → destroy (λ x. x.id == id) (destroy (λ x. x.id == id) l) ≡ destroy (λ x. x.id == id) l
unfolding destroy
destroy_twice id [] = refl
destroy_twice id (x ∷ l) = ground (arith, destroy_twice id l)
