-- ===== src/Accounts/Requests.antt =====
-- The requests of server/routes/users.js on accounts, with the guards that stand before them
-- (`authenticate` and `isAdmin` of server/middlewares); that some refuse API tokens is left out.
use Prim.Native.String.{String}
use infram.Prelude.{
  ℕ, Bool, false, not, none, some, List, [], ◌∷◌, Result, err, ok, guard, ◌>>=◌, ◌>>◌, ◌==◌,
  if◌then◌else◌,
}
use infram.SignIn.{is_enabled_admin}
use infram.Accounts.{
  People, Registration, account_of, create_account, update_password, update_role, set_locked,
  reset_second_factor,
}

-- What the database and the random generator add to a request is part of it.
pub data Request : Type 0 where
  creates_account : (id : ℕ) (salt secret : String) (configuration : Registration) → Request
  updates_password : (id : ℕ) (salt password : String) → Request
  updates_role : (id : ℕ) (role : String) → Request
  sets_locked : (id : ℕ) (locked : Bool) → Request
  resets_second_factor : (id : ℕ) (secret : String) → Request

-- The guard of the route is before the handler.
unfoldable pub update_role_request : (acting id : ℕ) → (role : String) → People → Result People
update_role_request acting id role p = guard (not (acting == id)) 400 >> update_role id role p

abbrev people_of {ℓ} : {A : Type ℓ} → Result (People × A) → Result People
people_of r = r >>= λ x. ok x.0

-- Only an account that is enabled is authenticated, and only an administrator passes.
abbrev pub passes : (acting : ℕ) → People → Bool
passes acting p = elim (account_of acting p) [ none ↦ false | some a ↦ is_enabled_admin a ]

module _ (hash : (salt password : String) → String) where
  unfoldable pub handle : (acting : ℕ) → Request → People → Result People
  handle acting (creates_account id salt secret c) p =
      people_of (create_account hash id false salt secret c p)
  handle acting (updates_password id salt password) p = update_password hash id salt password p
  handle acting (updates_role id role) p = update_role_request acting id role p
  handle acting (sets_locked id locked) p = people_of (set_locked id locked acting p)
  handle acting (resets_second_factor id secret) p = people_of (reset_second_factor id secret p)

  abbrev served : People → Result People → People
  served p (err code) = p
  served p (ok q) = q

  -- The requests of several accounts, one after the other.
  unfoldable pub serve : List (ℕ × Request) → People → People
  serve [] p = p
  serve ((acting, r) ∷ rs) p =
      serve rs (if passes acting p then served p (handle acting r p) else p)
