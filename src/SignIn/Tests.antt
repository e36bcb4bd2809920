-- ===== src/SignIn/Tests.antt =====
-- The theorems on the sign-in sessions at concrete inputs.
use Prim.Native.String.{String}
use text.Mathlib.Text.{◌==◌ as str_eq}
use infram.SignIn.Login.{Visit, create_sign_in_session, login, verify_account_totp}
use infram.SignIn.Signing.{IsVerified, resolve_session-login}
use infram.Prelude.{
  ℕ, Option, ok, ◌≡◌, ◌↔◌, ◌≤◌, refl, inl, inr, false, not, ◌&&◌, none, some, [], ◌∷◌, In, find_one,
  count, any, arith, if◌then◌else◌, ◌==◌,
}
use infram.SessionManager.{find}
use infram.SessionManager.Tests.{one_session, one_session-Inv, opened, find-one_session}
use infram.SignIn.{
  refuse_locked_account, admin, user, Account, Session, Server, is_expired, is_enabled_admin,
  resolve_session, revoke_sessions, sweep_expired_sessions, left_after, directory_role,
}
use infram.SignIn.Expiry.{IsCurrent, UniqueIds, In-sweep_expired_sessions}
use infram.SignIn.Revocation.{signed_in, find-revoke_sessions}
use infram.SignIn.Admission.{IsAdmitted, resolve_session_lem}
use infram.SignIn.Admins.{apply_role, directory_role_lem}

-- Sign-in session 8 of account 1, an administrator, whose connection is session 7 of the registry.
abbrev pub signed : Session
signed = record {
  id = 8;
  account_id = 1;
  token = "secret";
  ip = "10.0.0.1";
  user_agent = "Firefox";
  last_activity = 1000;
  created_at = 1000;
  impersonator_id = none;
}

abbrev pub root : Account
root = record {
  id = 1;
  first_name = "Rita";
  last_name = "Root";
  username = "root";
  password = "hashed";
  totp_enabled = false;
  role = admin;
  disabled = false;
  auth_provider_type = none;
  auth_provider_name = none;
  totp_secret = "JBSWY3DP";
  session_sync = "same_browser";
}

abbrev pub server : Server
server = record {
  policy = record { session_idle_hours = 24; session_max_days = 30 };
  sessions = signed ∷ [];
  accounts = root ∷ [];
  last_activity_writes = [];
  manager = one_session;
  logged_out = [];
}

pub server-UniqueIds : UniqueIds server.sessions
server-UniqueIds r s (inl p) (inl q) e = ground arith
server-UniqueIds r s (inr z) i e = elim z [ ]
server-UniqueIds r s i (inr z) e = elim z [ ]

In-sweep_expired_sessions_example :
    (In signed (sweep_expired_sessions 2000 server).sessions
      ↔ (In signed server.sessions × IsCurrent server.policy 2000 signed))
    × (IsCurrent server.policy 2000 signed ↔ (is_expired signed server.policy 2000 ≡ false))
In-sweep_expired_sessions_example = In-sweep_expired_sessions 2000 server signed server-UniqueIds

find-revoke_sessions_example : find 7 (revoke_sessions (signed ∷ []) server).manager ≡ (
    if any (λ r. r.account_id == opened.account_id) (signed ∷ [])
      && not (signed_in opened.account_id (left_after (signed ∷ []) server.sessions))
    then none
    else some opened)
find-revoke_sessions_example =
    find-revoke_sessions (signed ∷ []) server 7 opened one_session-Inv find-one_session

resolve_session_lem_example :
    ((resolve_session (some "secret") none 2000 server).1 ≡ some (signed, root))
    ↔ IsAdmitted (some "secret") 2000 server signed root
resolve_session_lem_example = resolve_session_lem (some "secret") none 2000 server signed root

secret-IsAdmitted : IsAdmitted (some "secret") 2000 server signed root
unfolding find_one is_expired
secret-IsAdmitted = ("secret", refl, refl, refl, refl, refl)

directory_role_lem_example :
    1
    ≤ count is_enabled_admin (
        apply_role 1
          (directory_role (find_one (λ a. a.id == 1) (root ∷ [])) (some user) (root ∷ []))
          (root ∷ []))
unfolding find_one count
directory_role_lem_example = directory_role_lem 1 (some user) (root ∷ []) (refl, tt) (ground arith)

abbrev visit : Visit
visit = record { ip = some "10.0.0.2"; user_agent = none; fresh = 9; token = "another"; now = 5000 }

abbrev entered : Server × Session
entered = create_sign_in_session 1 none visit server

-- A password stands for its own hash here.
login-server : login str_eq str_eq "root" "hashed" none visit server ≡ ok entered
unfolding login find_one verify_account_totp refuse_locked_account
login-server = refl

resolve_session-login_example :
    (a : Account) × IsVerified str_eq str_eq "root" "hashed" none server a
    × ((ip : Option String) (later : ℕ)
        → is_expired entered.1 server.policy later ≡ false
        → (resolve_session (some "another") ip later entered.0).1 ≡ some (entered.1, a))
unfolding find_one
resolve_session-login_example =
    resolve_session-login str_eq str_eq "root" "hashed" none visit server entered.0 entered.1
      (refl, tt) refl refl login-server
