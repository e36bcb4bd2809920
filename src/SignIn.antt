-- ===== src/SignIn.antt =====
-- server/utils/sessionAuth.js and server/models/Session.js: the sign-in sessions of the browser.
-- Times are milliseconds; `now` is `Date.now()`. The tables are lists of rows, the write times a
-- map, and the registry of connections is that of SessionManager.
pub mod Expiry
pub mod Revocation
pub mod Admission
pub mod Admins
pub mod Login
pub mod Signing
pub mod Tests
use Prim.Native.String.{String}
use text.Mathlib.Text.{◌==◌ as str_eq}
use infram.Prelude.{
  ℕ, suc, ◌-◌, ◌*◌, Bool, true, false, not, ◌&&◌, ◌||◌, Option, none, some, List, [], ◌∷◌, ◌++◌,
  ◌==◌, if◌then◌else◌, ltb, leb, find_one, find_all, destroy, update, any, count, map, get, set,
  delete,
}
use infram.SessionManager.{Manager}
use infram.SessionManager.Release.{remove_all_by_account_id}

pub record Session : Type 0 where
  pub id : ℕ
  pub account_id : ℕ
  pub token : String
  pub ip : String
  pub user_agent : String
  pub last_activity : ℕ
  pub created_at : ℕ
  pub impersonator_id : Option ℕ

pub data Role : Type 0 where
  admin user : Role

pub record Account : Type 0 where
  pub id : ℕ
  pub first_name : String
  pub last_name : String
  pub username : String
  pub password : String
  pub totp_enabled : Bool
  pub role : Role
  pub disabled : Bool
  pub auth_provider_type : Option String
  pub auth_provider_name : Option String
  pub totp_secret : String
  pub session_sync : String

-- The two settings of the sign-in policy.
pub record Policy : Type 0 where
  pub session_idle_hours : ℕ
  pub session_max_days : ℕ

-- `logged_out` lists the sessions that the state broadcaster was told to log out.
pub record Server : Type 0 where
  pub policy : Policy
  pub sessions : List Session
  pub accounts : List Account
  pub last_activity_writes : List (ℕ × ℕ)
  pub manager : Manager
  pub logged_out : List ℕ

abbrev pub hour : ℕ
hour = 60 * 60 * 1000

abbrev activity_write_interval : ℕ
activity_write_interval = 60 * 1000

-- A difference below zero is no more over a limit than zero is.
unfoldable pub is_expired : Session → Policy → (now : ℕ) → Bool
is_expired s p now =
    ltb (p.session_idle_hours * hour) (now - s.last_activity)
    || ltb (p.session_max_days * 24 * hour) (now - s.created_at)

-- An address counts if it is neither null nor empty.
abbrev pub present : Option String → Option String
present none = none
present (some s) = if str_eq s "" then none else some s

abbrev or_zero : Option ℕ → ℕ
or_zero none = 0
or_zero (some n) = n

abbrev with_ip : Option String → Session → Session
with_ip none s = s
with_ip (some ip) s = record s { ip = ip }

abbrev is_none {ℓ} : {A : Type ℓ} → Option A → Bool
is_none none = true
is_none (some a) = false

unfoldable pub touch_session : (id : ℕ) → Option String → (now : ℕ) → Server → Server
touch_session id ip now v =
    if is_none (present ip)
      && ltb (now - or_zero (get id v.last_activity_writes)) activity_write_interval
    then v
    else record v {
      last_activity_writes = set id now v.last_activity_writes;
      sessions =
          update (λ s. s.id == id) (λ s. with_ip (present ip) (record s { last_activity = now }))
            v.sessions;
    }

-- The members of a list in the order of their first occurrence, as `new Set(list)` has them.
unfoldable pub distinct : List ℕ → List ℕ
distinct [] = []
distinct (x ∷ xs) = x ∷ destroy (λ y. y == x) (distinct xs)

unfoldable pub forget : List Session → List (ℕ × ℕ) → List (ℕ × ℕ)
forget [] writes = writes
forget (s ∷ revoked) writes = forget revoked (delete s.id writes)

-- The connections of an account end with its last sign-in session.
unfoldable pub disconnect : List ℕ → List Session → Manager → Manager
disconnect [] sessions m = m
disconnect (a ∷ accounts) sessions m =
    disconnect accounts sessions
      (if count (λ s. s.account_id == a) sessions == 0 then (remove_all_by_account_id a m).0 else m)

unfoldable pub is_one_of : List Session → Session → Bool
is_one_of revoked s = any (λ r. r.id == s.id) revoked

abbrev pub left_after : List Session → List Session → List Session
left_after revoked sessions = destroy (is_one_of revoked) sessions

unfoldable pub revoke_sessions : List Session → Server → Server
revoke_sessions [] v = v
revoke_sessions (r ∷ rs) v = record v {
  sessions = left_after (r ∷ rs) v.sessions;
  last_activity_writes = forget (r ∷ rs) v.last_activity_writes;
  logged_out = v.logged_out ++ map (λ s. s.id) (r ∷ rs);
  manager =
      disconnect (distinct (map (λ s. s.account_id) (r ∷ rs))) (left_after (r ∷ rs) v.sessions)
        v.manager;
}

abbrev pub by_token : String → Session → Bool
by_token token s = str_eq s.token token

-- `ip !== session.ip ? ip : null`
abbrev new_ip : Option String → Session → Option String
new_ip none s = none
new_ip (some ip) s = if str_eq ip s.ip then none else some ip

abbrev pub admit :
    Session
    → Option String
    → (now : ℕ) → Server
    → Option Account
    → Server × Option (Session × Account)
admit s ip now v none = (v, none)
admit s ip now v (some a) =
    if a.disabled
    then (revoke_sessions (s ∷ []) v, none)
    else (touch_session s.id (new_ip ip s) now v, some (s, a))

-- `none` stands for a token that is missing or no string.
unfoldable pub resolve_session :
    (token : Option String) (ip : Option String) (now : ℕ)
    → Server
    → Server × Option (Session × Account)
resolve_session token ip now v = elim (present token) [
  | none ↦ (v, none)
  | some t ↦ elim (find_one (by_token t) v.sessions) [
    | none ↦ (v, none)
    | some s ↦
        if is_expired s v.policy now
        then (revoke_sessions (s ∷ []) v, none)
        else admit s ip now v (find_one (λ a. a.id == s.account_id) v.accounts)
  ]
]

-- The `where` clause of the sweep. Where the limit lies before the epoch no date is earlier.
unfoldable pub is_swept : Policy → (now : ℕ) → Session → Bool
is_swept p now s =
    ltb s.last_activity (now - p.session_idle_hours * hour)
    || ltb s.created_at (now - p.session_max_days * 24 * hour)

unfoldable pub sweep_expired_sessions : (now : ℕ) → Server → Server
sweep_expired_sessions now v = revoke_sessions (find_all (is_swept v.policy now) v.sessions) v

abbrev pub is_admin : Role → Bool
is_admin admin = true
is_admin user = false

abbrev pub is_enabled_admin : Account → Bool
is_enabled_admin a = is_admin a.role && not a.disabled

abbrev is_admin_account : Option Account → Bool
is_admin_account none = false
is_admin_account (some a) = is_admin a.role

-- The role that a directory gives to an account, or `none` where the old one is kept.
unfoldable pub directory_role : Option Account → Option Role → List Account → Option Role
directory_role account none accounts = none
directory_role account (some admin) accounts = some admin
directory_role account (some user) accounts =
    if not (is_admin_account account)
    then some user
    else if ltb 1 (count is_enabled_admin accounts)
    then some user
    else none

-- `refuseLockedAccount`
unfoldable pub refuse_locked_account : Option Account → Option ℕ
refuse_locked_account none = none
refuse_locked_account (some a) = if a.disabled then some 205 else none
