-- ===== src/Entries/Neighbours.antt =====
-- The neighbours of an entry that `repositionEntry` has put into the list.
use infram.Prelude.{
  ℕ, suc, ◌≤◌, ◌≡◌, sym, ap, ◌∙◌, inl, inr, false, none, some, List, ◌==◌, if◌then◌else◌, arith,
  length, Bool-cases, Option-cases, ok, ok-injective,
}
use infram.Models.{Entry}
use infram.Entries.Moving.{Target, index_of, target_index, insert_at}
use infram.Entries.Numbering.{
  index_of-insert_at, shift, index_of-insert_at_other, length-insert_at, index_of-bound,
}

-- The entry stands last, or right before or right after the target.
abbrev pub IsPlaced : Target → (id : ℕ) → List Entry → Type 0
IsPlaced t id order = (n : ℕ) × (index_of id order ≡ some n) × (elim t.target_id [
  | none ↦ suc n ≡ length order
  | some x ↦ (m : ℕ) × (index_of x order ≡ some m) × (if t.after then n ≡ suc m else m ≡ suc n)
])

module _ (id n : ℕ) (e : Entry) (rest : List Entry) (same_id : e.id ≡ id)
    (gone : index_of id rest ≡ none) where
  own_place : n ≤ length rest → index_of id (insert_at n e rest) ≡ some n
  own_place b =
      ap (λ k. index_of k (insert_at n e rest)) (sym same_id)
      ∙ index_of-insert_at n e rest (ap (λ k. index_of k rest) same_id ∙ gone) b

  other_id : (x m : ℕ) → index_of x rest ≡ some m → e.id == x ≡ false
  other_id x m y = elim (Bool-cases (e.id == x)) [
    | inl same_x ↦
        let z : id ≡ x = ground arith in
        let bad = sym gone ∙ ap (λ k. index_of k rest) z ∙ y in ground arith
    | inr o ↦ o
  ]

  placed_after :
      (x m : ℕ)
      → index_of x rest ≡ some m
      → suc m ≡ n
      → (index_of id (insert_at n e rest) ≡ some n)
        × ((k : ℕ) × (index_of x (insert_at n e rest) ≡ some k) × (n ≡ suc k))
  placed_after x m y z =
      let b = index_of-bound x rest m y in
      let moved_to : shift n m ≡ m = ground arith in
      (
        own_place (omega arith),
        (m, index_of-insert_at_other n e rest x m (other_id x m y) y ∙ ap some moved_to, sym z),
      )

  placed_before :
      (x m : ℕ)
      → index_of x rest ≡ some m
      → m ≡ n
      → (index_of id (insert_at n e rest) ≡ some n)
        × ((k : ℕ) × (index_of x (insert_at n e rest) ≡ some k) × (k ≡ suc n))
  placed_before x m y z =
      let b = index_of-bound x rest m y in
      let moved_to : shift n m ≡ suc m = ground arith in
      (
        own_place (omega arith),
        (
          suc m,
          index_of-insert_at_other n e rest x m (other_id x m y) y ∙ ap some moved_to,
          ap suc z,
        ),
      )

  pub placed : (t : Target) → target_index t rest ≡ ok n → IsPlaced t id (insert_at n e rest)
  unfolding target_index
  placed t h = elim (Option-cases t.target_id) [
    | inl z ↦
        let len = ok-injective (rw (target_index, z) at h) in
        (n, own_place (omega arith), rw z (ap suc (sym len) ∙ sym (length-insert_at n e rest)))
    | inr (x, z) ↦ elim (Option-cases (index_of x rest)) [
      | inl y ↦ let bad = rw (target_index, z, y) at h in ground arith
      | inr (m, y) ↦ elim (Bool-cases t.after) [
        | inl a ↦
            let (own, (k, at_k, next)) =
              placed_after x m y (ok-injective (rw (target_index, z, y, a) at h)) in
            (n, own, rw z (k, at_k, rw a next))
        | inr b ↦
            let (own, (k, at_k, next)) =
              placed_before x m y (ok-injective (rw (target_index, z, y, b) at h)) in
            (n, own, rw z (k, at_k, rw b next))
      ]
    ]
  ]
