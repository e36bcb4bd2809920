-- ===== src/SignIn/Admission.antt =====
-- Whom a request's token signs in.
use Prim.Native.String.{String}
use infram.Prelude.{
  ℕ, ◌≡◌, ◌↔◌, refl, sym, ap, ◌∙◌, inl, inr, false, Option, none, some, find_one, Bool-cases,
  Option-cases, arith, ◌==◌,
}
use infram.SignIn.{Session, Account, Server, present, by_token, is_expired, admit, resolve_session}

-- The token names a session within the policy's limits, of an account that is not disabled.
abbrev pub IsAdmitted : (token : Option String) (now : ℕ) → Server → Session → Account → Type 0
IsAdmitted token now v s a =
    (t : String) × (present token ≡ some t)
    × (find_one (by_token t) v.sessions ≡ some s)
    × (is_expired s v.policy now ≡ false)
    × (find_one (λ b. b.id == s.account_id) v.accounts ≡ some a)
    × (a.disabled ≡ false)

admit_lem :
    (r : Session) (ip : Option String) (now : ℕ) (v : Server) (found : Option Account) (s : Session)
    (a : Account)
    → (admit r ip now v found).1 ≡ some (s, a)
    → (r ≡ s) × (found ≡ some a) × (a.disabled ≡ false)
admit_lem r ip now v none s a h = ground arith
admit_lem r ip now v (some b) s a h = elim (Bool-cases b.disabled) [
  | inl y ↦ ground arith
  | inr n ↦ ground arith
]

admitted :
    (token ip : Option String) (now : ℕ) (v : Server) (s : Session) (a : Account)
    → (resolve_session token ip now v).1 ≡ some (s, a)
    → IsAdmitted token now v s a
unfolding resolve_session
admitted token ip now v s a h = elim (Option-cases (present token)) [
  | inl e ↦ let z = rw (resolve_session, e) at h in ground arith
  | inr (t, e) ↦ elim (Option-cases (find_one (by_token t) v.sessions)) [
    | inl f ↦ let z = rw (resolve_session, e, f) at h in ground arith
    | inr (r, f) ↦ elim (Bool-cases (is_expired r v.policy now)) [
      | inl y ↦ let z = rw (resolve_session, e, f, y) at h in ground arith
      | inr n ↦
          let (one, here, enabled) =
            admit_lem r ip now v (find_one (λ b. b.id == r.account_id) v.accounts) s a
              (rw (resolve_session, e, f, n) at h) in
          (t, e, f ∙ ap some one, rw (sym one) n, rw (sym one) here, enabled)
    ]
  ]
]

-- A request is signed in as a session and its account exactly if its token, which is not empty, is
-- the session's, the session is not expired, and the account is there and not disabled.
pub resolve_session_lem :
    (token ip : Option String) (now : ℕ) (v : Server) (s : Session) (a : Account)
    → ((resolve_session token ip now v).1 ≡ some (s, a)) ↔ IsAdmitted token now v s a
unfolding resolve_session
resolve_session_lem token ip now v s a = (
  admitted token ip now v s a,
  λ (t, e, f, n, here, enabled). rw (resolve_session, e, f, n, here, enabled) refl,
)
