-- ===== src/SignIn/Admins.antt =====
-- The last administrator.
use infram.Prelude.{
  ℕ, ◌+◌, ◌≤◌, ◌≡◌, refl, ap, inl, inr, false, Option, none, some, List, [], ◌∷◌, count, update,
  find_one, arith, Bool-cases, Option-cases, ◌==◌,
}
use mathlib.Core.Option.{some-injective}
use infram.SignIn.{Role, admin, user, Account, is_admin, is_enabled_admin, directory_role}

-- `Account.update({ ...(role && { role }) }, { where: { id } })`, as the directory sign-ins do.
pub apply_role : (id : ℕ) → Option Role → List Account → List Account
apply_role id none accounts = accounts
apply_role id (some role) accounts =
    update (λ a. a.id == id) (λ a. record a { role = role }) accounts

-- The identifier is the key of the table.
abbrev pub UniqueAccounts : List Account → Type 0
UniqueAccounts [] = Unit
UniqueAccounts (a ∷ l) = (find_one (λ b. b.id == a.id) l ≡ none) × UniqueAccounts l

no_change :
    (id : ℕ) (role : Role) (l : List Account)
    → find_one (λ b. b.id == id) l ≡ none
    → count is_enabled_admin (update (λ a. a.id == id) (λ a. record a { role = role }) l)
      ≡ count is_enabled_admin l
unfolding find_one update count
no_change id role [] h = refl
no_change id role (a ∷ l) h = ground (arith, no_change id role l)

one_less :
    (id : ℕ) (role : Role) (l : List Account)
    → UniqueAccounts l
    → count is_enabled_admin l
      ≤ count is_enabled_admin (update (λ a. a.id == id) (λ a. record a { role = role }) l) + 1
unfolding update count
one_less id role [] u = omega arith
one_less id role (a ∷ l) (alone, u) = ground (arith, one_less id role l u, no_change id role l)

not_fewer :
    (id : ℕ) (a : Account) (role : Role) (l : List Account)
    → UniqueAccounts l
    → find_one (λ b. b.id == id) l ≡ some a
    → is_admin a.role ≡ false
    → count is_enabled_admin l
      ≤ count is_enabled_admin (update (λ a. a.id == id) (λ a. record a { role = role }) l)
unfolding find_one update count
not_fewer id a role [] u e n = omega arith
not_fewer id a role (b ∷ l) (alone, u) e n = elim (Bool-cases (b.id == id)) [
  | inl y ↦
      let one = some-injective b a (rw y at e) in
      ground (arith, no_change id role l, ap (λ c. is_admin c.role) one)
  | inr z ↦ ground (arith, not_fewer id a role l u (rw z at e))
]

promoted :
    (id : ℕ) (l : List Account)
    → count is_enabled_admin l
      ≤ count is_enabled_admin (update (λ a. a.id == id) (λ a. record a { role = admin }) l)
unfolding update count
promoted id [] = omega arith
promoted id (a ∷ l) = ground (arith, promoted id l)

-- A directory sign-in never takes the role from the last enabled administrator: if there is one
-- before the role of the directory is applied, there is one afterwards. Account identifiers are
-- assumed to be unique.
pub directory_role_lem :
    (id : ℕ) (role : Option Role) (accounts : List Account)
    → UniqueAccounts accounts
    → 1 ≤ count is_enabled_admin accounts
    → 1
      ≤ count is_enabled_admin (
          apply_role id
            (directory_role (find_one (λ a. a.id == id) accounts) role accounts)
            accounts)
unfolding directory_role apply_role
directory_role_lem id none accounts u h = h
directory_role_lem id (some admin) accounts u h = ground (arith, promoted id accounts)
directory_role_lem id (some user) accounts u h =
    elim (Option-cases (find_one (λ a. a.id == id) accounts)) [
      | inl e ↦ ground (arith, no_change id user accounts)
      | inr (a, e) ↦ elim (Bool-cases (is_admin a.role)) [
        | inl y ↦ ground (arith, one_less id user accounts u)
        | inr n ↦ ground (arith, not_fewer id a user accounts u e n)
      ]
    ]
