-- ===== src/Accounts/Admins.antt =====
-- An administrator's requests leave the administrator enabled.
use Prim.Native.String.{String}
use infram.Prelude.{
  ℕ, ◌≡◌, refl, sym, ap, ◌∙◌, Bool, true, false, not, none, some, List, [], ◌∷◌, ◌++◌, find_one,
  update, any, arith, inl, inr, Bool-cases, Result-cases, Result, or_err, bind-ok, guard-ok,
  ok-injective, ok, err, ◌>>=◌, ◌==◌, ==_iff, find_one-test,
}
use infram.SignIn.{Account, is_enabled_admin}
use infram.Accounts.{
  Reset, People, Registration, is_account, account_of, is_of, is_managed, role_of, write,
  set_password, create_account, update_password, update_role, set_locked, reset_second_factor,
}
use infram.Accounts.SigningOut.{accounts-revoke_where}
use infram.Accounts.Locking.{set_locked-passed}
use infram.Accounts.Requests.{
  Request, creates_account, updates_password, updates_role, sets_locked, resets_second_factor,
  update_role_request, passes, handle, serve,
}

-- Is the row that a query finds an administrator who is enabled?
abbrev leads : (id : ℕ) → List Account → Bool
leads id l = elim (find_one (is_account id) l) [ none ↦ false | some a ↦ is_enabled_admin a ]

-- A change of another row, or one that leaves the role and the lock.
leads-update_other :
    (id k : ℕ) (f : Account → Account) (l : List Account)
    → (k == id) ≡ false
    → ((a : Account) → (f a).id ≡ a.id)
    → leads id (update (is_account k) f l) ≡ leads id l
unfolding update find_one
leads-update_other id k f [] n h = refl
leads-update_other id k f (a ∷ l) n h = ground (arith, h a, leads-update_other id k f l n h)

leads-update_same :
    (id k : ℕ) (f : Account → Account) (l : List Account)
    → ((a : Account) → ((f a).id ≡ a.id) × (is_enabled_admin (f a) ≡ is_enabled_admin a))
    → leads id (update (is_account k) f l) ≡ leads id l
unfolding update find_one
leads-update_same id k f [] h = refl
leads-update_same id k f (a ∷ l) h = ground (arith, h a, leads-update_same id k f l h)

leads-append : (id : ℕ) (l m : List Account) → leads id l ≡ true → leads id (l ++ m) ≡ true
unfolding find_one
leads-append id [] m h = ground arith
leads-append id (a ∷ l) m h = ground (arith, leads-append id l m)

people_of-ok :
    {A : Type 0} (r : Result (People × A)) (q : People)
    → (r >>= λ x. ok x.0) ≡ ok q
    → (x : A) × (r ≡ ok (q, x))
people_of-ok (err code) q h = ground arith
people_of-ok (ok (w, x)) q h = (x, ap (λ z. ok (z, x)) (ok-injective h))

-- The row at an identifier has this identifier.
id-account_of : (id : ℕ) (p : People) (a : Account) → account_of id p ≡ some a → a.id ≡ id
id-account_of id p a e = (==_iff a.id id).0 (find_one-test (is_account id) p.server.accounts a e)

module _ (acting : ℕ) (p q : People) where
  create_account-leads :
      (hash : String → String → String) (id : ℕ) (salt secret : String) (c : Registration)
      (a : Account)
      → create_account hash id false salt secret c p ≡ ok (q, a)
      → leads acting p.server.accounts ≡ true
      → leads acting q.server.accounts ≡ true
  unfolding create_account
  create_account-leads hash id salt secret c a h l =
      let (g, h1) = guard-ok _ 409 _ h in
      let (g', h2) = guard-ok _ 409 _ h1 in
      let one = ap (λ x. x.0.server.accounts) (ok-injective h2) in
      ap (leads acting) (sym one) ∙ leads-append acting p.server.accounts _ l

  update_password-leads :
      (hash : String → String → String) (id : ℕ) (salt password : String)
      → update_password hash id salt password p ≡ ok q
      → leads acting q.server.accounts ≡ leads acting p.server.accounts
  unfolding update_password
  update_password-leads hash id salt password h =
      let (a, e, h1) = bind-ok (or_err (account_of id p) 404) _ h in
      let (g, h2) = guard-ok (not (is_managed a)) 400 _ h1 in
      let one = ap (λ x. x.server.accounts) (ok-injective h2) in
      rw (sym one) (
        ap (leads acting)
          (accounts-revoke_where (is_of a.id) (set_password hash a.id salt password p))
        ∙ leads-update_same acting a.id _ p.server.accounts (λ b. (refl, refl)))

  update_role-leads :
      (id : ℕ) (role : String)
      → update_role_request acting id role p ≡ ok q
      → leads acting q.server.accounts ≡ leads acting p.server.accounts
  unfolding update_role_request update_role
  update_role-leads id role h =
      let (g, h1) = guard-ok (not (acting == id)) 400 _ h in
      let other : (id == acting) ≡ false = ground arith in
      let (a, e, h2) = bind-ok (or_err (account_of id p) 404) _ h1 in
      let (g', h3) = guard-ok _ 400 _ h2 in
      let (r, e', h4) = bind-ok (or_err (role_of role) 400) _ h3 in
      let one = ap (λ x. x.server.accounts) (ok-injective h4) in
      ap (leads acting) (sym one)
      ∙ leads-update_other acting id _ p.server.accounts other (λ b. refl)

  set_locked-leads :
      (id : ℕ) (locked : Bool) (name : String)
      → set_locked id locked acting p ≡ ok (q, name)
      → leads acting q.server.accounts ≡ leads acting p.server.accounts
  set_locked-leads id true name h =
      let (a, e, other, one) = set_locked-passed id true acting p q name h in
      ap (λ w. leads acting w.server.accounts) one
      ∙ ap (leads acting)
          (accounts-revoke_where (is_of id) (write id (λ b. record b { disabled = true }) p))
      ∙ leads-update_other acting id _ p.server.accounts other (λ b. refl)
  set_locked-leads id false name h =
      let (a, e, other, one) = set_locked-passed id false acting p q name h in
      ap (λ w. leads acting w.server.accounts) one
      ∙ leads-update_other acting id _ p.server.accounts other (λ b. refl)

  reset_second_factor-leads :
      (id : ℕ) (secret : String) (x : Reset)
      → reset_second_factor id secret p ≡ ok (q, x)
      → leads acting q.server.accounts ≡ leads acting p.server.accounts
  unfolding reset_second_factor
  reset_second_factor-leads id secret x h =
      let (a, e, h1) = bind-ok (or_err (account_of id p) 404) _ h in
      let (g, h2) = guard-ok _ 409 _ h1 in
      let one = ap (λ x. x.0.server.accounts) (ok-injective h2) in
      ap (leads acting) (sym one)
      ∙ leads-update_same acting a.id _ p.server.accounts (λ b. (refl, refl))

module _ (hash : String → String → String) where
  handle-leads :
      (acting : ℕ) (r : Request) (p q : People)
      → handle hash acting r p ≡ ok q
      → leads acting p.server.accounts ≡ true
      → leads acting q.server.accounts ≡ true
  unfolding handle
  handle-leads acting (creates_account id salt secret c) p q h l =
      let (a, e) = people_of-ok (create_account hash id false salt secret c p) q h in
      create_account-leads acting p q hash id salt secret c a e l
  handle-leads acting (updates_password id salt password) p q h l =
      update_password-leads acting p q hash id salt password h ∙ l
  handle-leads acting (updates_role id role) p q h l = update_role-leads acting p q id role h ∙ l
  handle-leads acting (sets_locked id locked) p q h l =
      let (name, e) = people_of-ok (set_locked id locked acting p) q h in
      set_locked-leads acting p q id locked name e ∙ l
  handle-leads acting (resets_second_factor id secret) p q h l =
      let (x, e) = people_of-ok (reset_second_factor id secret p) q h in
      reset_second_factor-leads acting p q id secret x e ∙ l

some_admin : (id : ℕ) (l : List Account) → leads id l ≡ true → any is_enabled_admin l ≡ true
unfolding find_one any
some_admin id [] h = ground arith
some_admin id (a ∷ l) h = ground (arith, some_admin id l)

-- An enabled administrator remains if there was one, whatever requests accounts make one after
-- the other, served or refused: to create an account, to reset a password or the second factor,
-- to change a role, to lock or unlock an account.
pub any-serve :
    (hash : String → String → String) (rs : List (ℕ × Request)) (p : People)
    → any is_enabled_admin p.server.accounts ≡ true
    → any is_enabled_admin (serve hash rs p).server.accounts ≡ true
unfolding serve
any-serve hash [] p h = h
any-serve hash ((acting, r) ∷ rs) p h = elim (Bool-cases (passes acting p)) [
  | inr n ↦ rw (serve, n) (any-serve hash rs p h)
  | inl y ↦ elim (Result-cases (handle hash acting r p)) [
    | inl (code, e) ↦ rw (serve, y, e) (any-serve hash rs p h)
    | inr (q, e) ↦
        rw (serve, y, e)
          (any-serve hash rs q
            (some_admin acting q.server.accounts (handle-leads hash acting r p q e y)))
  ]
]
