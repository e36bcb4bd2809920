-- ===== src/SignIn/Login.antt =====
-- The sign-in with a password (`login` of server/controllers/auth.js where only that is enabled),
-- server/utils/totp.js and server/controllers/session.js. bcrypt's `compare` and speakeasy's `verify`
-- are parameters; the token and the identifier of a new session are drawn. Audit records are left out.
use Prim.Native.String.{String}
use text.Mathlib.Text.{◌==◌ as str_eq}
use infram.Prelude.{
  ℕ, Bool, not, ◌&&◌, Option, none, some, [], ◌∷◌, ◌++◌, ◌==◌, if◌then◌else◌, find_one, find_all,
  length, Result, err, ok, or_err, guard, ◌>>=◌, ◌>>◌,
}
use infram.SignIn.{
  Session, Account, Server, present, by_token, refuse_locked_account, revoke_sessions,
}

-- What a browser sends of itself, and what is drawn for a session.
pub record Visit : Type 0 where
  pub ip : Option String
  pub user_agent : Option String
  pub fresh : ℕ
  pub token : String
  pub now : ℕ

abbrev or_unknown : Option String → String
or_unknown s = elim (present s) [ none ↦ "unknown" | some t ↦ t ]

abbrev pub new_session : (account : ℕ) → (impersonator : Option ℕ) → Visit → Session
new_session account impersonator c = record {
  id = c.fresh;
  account_id = account;
  token = c.token;
  ip = or_unknown c.ip;
  user_agent = or_unknown c.user_agent;
  last_activity = c.now;
  created_at = c.now;
  impersonator_id = impersonator;
}

unfoldable pub create_sign_in_session :
    (account : ℕ) → (impersonator : Option ℕ) → Visit → Server → Server × Session
create_sign_in_session account impersonator c v =
    let s = new_session account impersonator c in (record v { sessions = v.sessions ++ s ∷ [] }, s)

abbrev to_result : Option ℕ → Result (Unit {0})
to_result none = ok tt
to_result (some code) = err code

module _ (compare verify : String → String → Bool) where
  unfoldable pub verify_account_totp : Account → (code : Option String) → Option ℕ
  verify_account_totp a code = if not a.totp_enabled then none else elim (present code) [
    | none ↦ some 202
    | some c ↦ if verify a.totp_secret c then none else some 203
  ]

  unfoldable pub login :
      (username password : String)
      → (code : Option String) → Visit
      → Server
      → Result (Server × Session)
  login username password code c v =
      or_err (find_one (λ a. str_eq a.username username) v.accounts) 201 >>= λ a.
      guard (compare password a.password) 201
      >> (to_result (refuse_locked_account (some a))
          >> (to_result (verify_account_totp a code) >> ok (create_sign_in_session a.id none c v)))

unfoldable pub logout : (token : String) → Server → Result Server
logout token v =
    or_err (find_one (by_token token) v.sessions) 204 >>= λ s. ok (revoke_sessions (s ∷ []) v)

-- An administrator signs in as another account.
unfoldable pub create_session :
    (account impersonator : ℕ) → Visit → Server → Result (Server × Session)
create_session account impersonator c v =
    or_err (find_one (λ a. a.id == account) v.accounts) 404 >>= λ a.
    guard (not (a.id == impersonator)) 400
    >> (guard (not a.disabled) 409 >> ok (create_sign_in_session a.id (some impersonator) c v))

unfoldable pub revoke_any_session : (session : ℕ) → Server → Result (Server × ℕ)
revoke_any_session session v = or_err (find_one (λ s. s.id == session) v.sessions) 404 >>= λ s.
    ok (revoke_sessions (s ∷ []) v, s.account_id)

unfoldable pub destroy_other_sessions : (account current : ℕ) → Server → Server × ℕ
destroy_other_sessions account current v =
    let others = find_all (λ s. s.account_id == account && not (s.id == current)) v.sessions in
    (revoke_sessions others v, length others)

unfoldable pub destroy_session : (account session : ℕ) → Server → Result Server
destroy_session account session v =
    or_err (find_one (λ s. s.account_id == account && s.id == session) v.sessions) 404 >>= λ s.
    ok (revoke_sessions (s ∷ []) v)
