-- ===== src/Organization/Ownership.antt =====
-- Every organization has at most one owner, and what each call does to the owners of it.
pub mod Inversion
pub mod Calls
pub mod Soundness
use Prim.Native.String.{String}
use infram.Prelude.{
  ℕ, suc, ◌+◌, ◌≤◌, ◌<◌, ◌≡◌, refl, sym, ap, subst, ◌∙◌, inl, inr, ◌⊎◌, Bool, true, false, not,
  ◌&&◌, Option, none, some, List, [], ◌∷◌, ◌++◌, ◌==◌, if◌then◌else◌, leb, ltb, find_one, find_all,
  destroy, update, count, All, arith, Bool-cases, is_some, find_one-test, ==_iff,
}
use infram.Organization.{
  Role, owner, manager, member, active, Member, Directory, rank, rank_or_zero, is_owner, is_active,
  is_row, is_owner_row,
}
use infram.Organization.Calls.{transferred}
use infram.Organization.Rows.{
  UniqueRows, UniqueRows-update, OwnersActive, All-find_one, destroy-none, count-update_same,
  find_one_and_none, find_one-update, update-none,
}

abbrev pub owners : (org : ℕ) → List Member → ℕ
owners org ms = count (is_owner_row org) ms

pub record IsSound (ms : List Member) : Type 0 where
  pub unique : UniqueRows ms
  pub owners_active : OwnersActive ms
  pub one_owner : (org : ℕ) → owners org ms ≤ 1

-- A row that passes one more test is the only row of its organization and account.
pub find_one-row :
    (org account : ℕ) (q : Member → Bool) (ms : List Member) (r : Member)
    → UniqueRows ms
    → find_one (λ m. is_row org account m && q m) ms ≡ some r
    → find_one (is_row org account) ms ≡ some r
unfolding find_one
find_one-row org account q [] r u h = ground arith
find_one-row org account q (m ∷ ms) r (a, u) h = elim (Bool-cases (is_row org account m)) [
  | inl y ↦ elim (Bool-cases (q m)) [
    | inl z ↦ ground arith
    | inr z ↦ ground (arith, find_one_and_none (is_row org account) q ms (ground arith))
  ]
  | inr n ↦ ground (arith, find_one-row org account q ms r u)
]

-- Deleting a row that is not an owner's.
pub owners-destroy_row :
    (o org account : ℕ) (ms : List Member) (r : Member)
    → UniqueRows ms
    → find_one (is_row org account) ms ≡ some r
    → is_owner r.role ≡ false
    → owners o (destroy (is_row org account) ms) ≡ owners o ms
unfolding find_one destroy count
owners-destroy_row o org account [] r u h k = refl
owners-destroy_row o org account (m ∷ ms) r (a, u) h k = elim (Bool-cases (is_row org account m)) [
  | inl y ↦
      let alone : find_one (is_row org account) ms ≡ none = ground (arith) in
      let same : m ≡ r = ground arith in
      let plain : is_owner m.role ≡ false = ap (λ x. is_owner x.role) same ∙ k in
      rw (y, destroy-none (is_row org account) ms alone) (ground arith)
  | inr n ↦ rw n (ground (arith, owners-destroy_row o org account ms r u))
]

-- Changing the role of a row that is not an owner's to one that is not the owner's.
pub owners-update_row :
    (o org account : ℕ) (role : Role) (ms : List Member) (r : Member)
    → UniqueRows ms
    → find_one (is_row org account) ms ≡ some r
    → is_owner r.role ≡ false
    → is_owner role ≡ false
    → owners o (update (is_row org account) (λ m. record m { role = role }) ms) ≡ owners o ms
unfolding find_one update count
owners-update_row o org account role [] r u h k l = refl
owners-update_row o org account role (m ∷ ms) r (a, u) h k l =
    elim (Bool-cases (is_row org account m)) [
      | inl y ↦
          let alone : find_one (is_row org account) ms ≡ none = ground arith in
          let same : m ≡ r = ground arith in
          let plain : is_owner m.role ≡ false = ap (λ x. is_owner x.role) same ∙ k in
          rw (y, update-none (is_row org account) (λ m. record m { role = role }) ms alone)
            (ground arith)
      | inr n ↦ rw n (ground (arith, owners-update_row o org account role ms r u))
    ]

owners-demote :
    (o org : ℕ) (ms : List Member)
    → owners o (update (is_owner_row org) (λ m. record m { role = manager }) ms)
      ≡ (if o == org then 0 else owners o ms)
unfolding update count
owners-demote o org [] = ground arith
owners-demote o org (m ∷ ms) = ground (arith, owners-demote o org ms)

owners-promote :
    (org account : ℕ) (ms : List Member) (r : Member)
    → UniqueRows ms
    → find_one (is_row org account) ms ≡ some r
    → owners org ms ≡ 0
    → owners org (update (is_row org account) (λ m. record m { role = owner }) ms) ≡ 1
unfolding find_one update count
owners-promote org account [] r u h z = ground arith
owners-promote org account (m ∷ ms) r (a, u) h z = elim (Bool-cases (is_row org account m)) [
  | inl y ↦
      let alone : find_one (is_row org account) ms ≡ none = ground arith in
      rw (y, update-none (is_row org account) (λ m. record m { role = owner }) ms alone)
        (ground arith)
  | inr n ↦ rw n (ground (arith, owners-promote org account ms r u))
]

-- After a transfer the organization has one owner; the others have as many as before.
pub owners-transferred :
    (o org successor : ℕ) (ms : List Member) (r : Member)
    → UniqueRows ms
    → find_one (is_row org successor) ms ≡ some r
    → owners o (transferred org successor ms) ≡ (if o == org then 1 else owners o ms)
unfolding transferred
owners-transferred o org successor ms r u h =
    let ms' = update (is_owner_row org) (λ m. record m { role = manager }) ms in
    let u' =
      UniqueRows-update (is_owner_row org) (λ m. record m { role = manager }) ms (λ m. (refl, refl))
        u in
    elim (Bool-cases (o == org)) [
      | inl y ↦
          let q : o ≡ org = (==_iff o org).0 y in
          rw (y, q)
            (owners-promote org successor ms' _ u'
              (find_one-update (is_row org successor) (is_owner_row org)
                (λ m. record m { role = manager }) ms r (λ b. refl) h)
              (owners-demote org org ms ∙ ground arith))
      | inr n ↦
          count-update_same (is_owner_row o) (is_row org successor) (λ m. record m { role = owner })
            ms' (λ m e. ground arith)
          ∙ (owners-demote o org ms ∙ rw n)
    ]
