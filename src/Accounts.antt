-- ===== src/Accounts.antt =====
-- server/controllers/account.js with server/models/Passkey.js: what administrators and accounts
-- change about accounts. The accounts, their sign-in sessions and the registry of connections are
-- those of SignIn. bcrypt's `hash` and `compare`, with a salt that `genSalt` drew, are parameters;
-- an account's new identifier and a new TOTP secret are arguments.
pub mod SigningOut
pub mod Locking
pub mod Requests
pub mod Admins
mod Tests
use Prim.Native.String.{String}
use text.Mathlib.Text.{◌==◌ as str_eq}
use infram.Prelude.{
  ℕ, Bool, true, false, not, ◌&&◌, ◌||◌, Option, none, some, List, [], ◌∷◌, ◌++◌, ◌==◌, ltb,
  if◌then◌else◌, find_one, find_all, destroy, update, length, count, Result, err, ok, or_err, guard,
  ◌>>=◌, ◌>>◌,
}
use infram.SignIn.{Session, Role, admin, user, Account, Server, is_admin, present, revoke_sessions}

pub record Passkey : Type 0 where
  pub id : ℕ
  pub account_id : ℕ

pub record People : Type 0 where
  pub server : Server
  pub passkeys : List Passkey

-- The `configuration` of a new account.
pub record Registration : Type 0 where
  pub username : String
  pub first_name : String
  pub last_name : String
  pub password : String

abbrev pub is_account : ℕ → Account → Bool
is_account id a = a.id == id

-- `Account.findByPk(id)`
abbrev pub account_of : ℕ → People → Option Account
account_of id p = find_one (is_account id) p.server.accounts

-- `Account.update(…, { where: { id } })`
abbrev pub write : (id : ℕ) → (Account → Account) → People → People
write id change p = record p {
  server = record p.server { accounts = update (is_account id) change p.server.accounts };
}

abbrev pub is_of : (account : ℕ) → Session → Bool
is_of account s = s.account_id == account

-- The account's other sign-in sessions.
abbrev pub is_other : (account current : ℕ) → Session → Bool
is_other account current s = s.account_id == account && not (s.id == current)

-- `revokeSessions(await Session.findAll({ where }))`
unfoldable pub revoke_where : (Session → Bool) → People → People
revoke_where test p = record p {
  server = revoke_sessions (find_all test p.server.sessions) p.server;
}

abbrev pub is_managed : Account → Bool
is_managed a = elim (present a.auth_provider_type) [ none ↦ false | some provider ↦ true ]

abbrev pub same : Bool → Bool → Bool
same true b = b
same false b = not b

-- The role of a request, where any other string is invalid.
abbrev pub role_of : String → Option Role
role_of name =
    if str_eq name "admin" then some admin else if str_eq name "user" then some user else none

module _ (hash : (salt password : String) → String) where
  unfoldable pub new_account :
      (id : ℕ) → (first_time_setup : Bool) → (salt secret : String) → Registration → Account
  new_account id first_time_setup salt secret c = record {
    id = id;
    first_name = c.first_name;
    last_name = c.last_name;
    username = c.username;
    password = hash salt c.password;
    totp_enabled = false;
    role = if first_time_setup then admin else user;
    disabled = false;
    auth_provider_type = none;
    auth_provider_name = none;
    totp_secret = secret;
    session_sync = "same_browser";
  }

  unfoldable pub create_account :
      (id : ℕ)
      → (first_time_setup : Bool) → (salt secret : String) → Registration
      → People
      → Result (People × Account)
  create_account id first_time_setup salt secret c p =
      let a = new_account id first_time_setup salt secret c in
      guard (not (ltb 0 (length p.server.accounts) && first_time_setup)) 409
      >> (guard (count (λ b. str_eq b.username c.username) p.server.accounts == 0) 409
          >> ok
              (record p { server = record p.server { accounts = p.server.accounts ++ a ∷ [] } }, a))

  abbrev pub set_password : (account : ℕ) → (salt password : String) → People → People
  set_password account salt password =
      write account (λ a. record a { password = hash salt password })

  unfoldable pub update_password : (id : ℕ) → (salt password : String) → People → Result People
  update_password id salt password p = or_err (account_of id p) 404 >>= λ a.
      guard (not (is_managed a)) 400
      >> ok (revoke_where (is_of a.id) (set_password a.id salt password p))

  unfoldable pub change_own_password :
      (compare : (password hashed : String) → Bool) (account : Account)
      → (current : ℕ) → (current_password salt password : String) → People
      → Result People
  change_own_password compare account current current_password salt password p =
      guard (not (is_managed account)) 400
      >> guard (compare current_password account.password) 403
      >> ok (revoke_where (is_other account.id current) (set_password account.id salt password p))

-- The handler compares the role with the account's own before it looks at what the role is.
unfoldable pub update_role : (id : ℕ) → (role : String) → People → Result People
update_role id role p = or_err (account_of id p) 404 >>= λ a.
    guard (not (str_eq role (if is_admin a.role then "admin" else "user"))) 400
    >> (or_err (role_of role) 400 >>= λ r. ok (write id (λ b. record b { role = r }) p))

unfoldable pub set_locked :
    (id : ℕ) → (locked : Bool) → (acting : ℕ) → People → Result (People × String)
set_locked id locked acting p = or_err (account_of id p) 404 >>= λ a.
    guard (not (a.id == acting)) 400
    >> (guard (not (same a.disabled locked)) 409
        >> (let w = write a.id (λ b. record b { disabled = locked }) p in
            ok (if locked then revoke_where (is_of a.id) w else w, a.username)))

pub record Reset : Type 0 where
  pub username : String
  pub totp : Bool
  pub passkeys : ℕ

abbrev is_passkey_of : (account : ℕ) → Passkey → Bool
is_passkey_of account k = k.account_id == account

unfoldable pub reset_second_factor : (id : ℕ) → (secret : String) → People → Result (People × Reset)
reset_second_factor id secret p = or_err (account_of id p) 404 >>= λ a.
    let n = count (is_passkey_of a.id) p.passkeys in
    let left = record p { passkeys = destroy (is_passkey_of a.id) p.passkeys } in
    guard (a.totp_enabled || not (n == 0)) 409
    >> ok (
      write a.id (λ b. record b { totp_enabled = false; totp_secret = secret }) left,
      record { username = a.username; totp = a.totp_enabled; passkeys = n },
    )

unfoldable pub update_totp : (id : ℕ) → (status : Bool) → People → Result People
update_totp id status p = or_err (account_of id p) 404 >>= λ a.
    guard (not (same a.totp_enabled status)) 409
    >> ok (write id (λ b. record b { totp_enabled = status }) p)

unfoldable pub update_session_sync : (id : ℕ) → (session_sync : String) → People → Result People
update_session_sync id session_sync p = or_err (account_of id p) 404 >>= λ a.
    ok (write id (λ b. record b { session_sync = session_sync }) p)
