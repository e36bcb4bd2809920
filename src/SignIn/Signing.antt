-- ===== src/SignIn/Signing.antt =====
-- A sign-in with a password, and the requests with its token.
use Prim.Native.String.{String}
use text.Mathlib.Text.{◌==◌ as str_eq}
use text.Mathlib.TextPositions.{eq_refl}
use infram.Prelude.{
  ℕ, ◌≡◌, refl, sym, ap, ◌∙◌, subst, inl, inr, Bool, true, false, Option, none, some, List, [], ◌∷◌,
  ◌++◌, ◌==◌, ==_refl, arith, Bool-cases, Option-cases, find_one, ok, or_err, or_err-ok, guard-ok,
  bind-ok, ok-injective, find_one-none, find_one-In,
}
use mathlib.Core.Option.{some-injective}
use infram.SignIn.{
  Session, Account, Server, present, by_token, is_expired, refuse_locked_account, resolve_session,
}
use infram.SignIn.Admins.{UniqueAccounts}
use infram.SignIn.Admission.{resolve_session_lem}
use infram.SignIn.Login.{Visit, new_session, create_sign_in_session, verify_account_totp, login}

found_last :
    (p : Session → Bool) (rows : List Session) (s : Session)
    → find_one p rows ≡ none
    → p s ≡ true
    → find_one p (rows ++ s ∷ []) ≡ some s
unfolding find_one
found_last p [] s h y = ground arith
found_last p (r ∷ rows) s h y = ground (arith, found_last p rows s)

found_by_id :
    (p : Account → Bool) (l : List Account) (a : Account)
    → UniqueAccounts l
    → find_one p l ≡ some a
    → find_one (λ b. b.id == a.id) l ≡ some a
unfolding find_one
found_by_id p [] a u h = ground arith
found_by_id p (b ∷ l) a (alone, u) h = elim (Bool-cases (p b)) [
  | inl y ↦
      let one = some-injective b a (rw y at h) in
      subst (λ c. find_one (λ d. d.id == c.id) (b ∷ l) ≡ some c) one (rw (==_refl b.id) refl)
  | inr n ↦ elim (Bool-cases (b.id == a.id)) [
    | inr m ↦ rw m (found_by_id p l a u (rw n at h))
    | inl z ↦
        let apart = find_one-none (λ c. c.id == b.id) l a alone (find_one-In p l a (rw n at h)) in
        ground arith
  ]
]

-- What an account has shown that signs in.
abbrev pub IsVerified :
    (compare verify : String → String → Bool) (username password : String) (code : Option String)
    (v : Server) (a : Account)
    → Type 0
IsVerified compare verify username password code v a =
    (find_one (λ b. str_eq b.username username) v.accounts ≡ some a)
    × (compare password a.password ≡ true)
    × (a.disabled ≡ false)
    × (verify_account_totp compare verify a code ≡ none)

passed :
    (compare verify : String → String → Bool) (username password : String) (code : Option String)
    (c : Visit) (v w : Server) (s : Session)
    → login compare verify username password code c v ≡ ok (w, s)
    → (a : Account) × IsVerified compare verify username password code v a
      × ((w, s) ≡ create_sign_in_session a.id none c v)
unfolding login refuse_locked_account
passed compare verify username password code c v w s h =
    let (a, e, h1) =
      bind-ok (or_err (find_one (λ b. str_eq b.username username) v.accounts) 201) _ h in
    let (g, h2) = guard-ok (compare password a.password) 201 _ h1 in
    elim (Bool-cases a.disabled) [
      | inl y ↦ let bad = rw y at h2 in ground arith
      | inr n ↦ elim (Option-cases (verify_account_totp compare verify a code)) [
        | inr (k, z) ↦ let bad = rw (n, z) at h2 in ground arith
        | inl z ↦
            let last = rw (n, z) at h2 in
            (a, (or_err-ok _ 201 a e, g, n, z), sym (ok-injective last))
      ]
    ]

-- A sign-in with a password succeeds only for the account of the name, with its password, a second
-- factor if the account has one, and if it is not locked; the token that it gives then signs this
-- account in, from any address, until its session expires. A token that is new and not empty and
-- unique account identifiers are assumed.
pub resolve_session-login :
    (compare verify : String → String → Bool) (username password : String) (code : Option String)
    (c : Visit) (v w : Server) (s : Session)
    → UniqueAccounts v.accounts
    → find_one (by_token c.token) v.sessions ≡ none
    → str_eq c.token "" ≡ false
    → login compare verify username password code c v ≡ ok (w, s)
    → (a : Account) × IsVerified compare verify username password code v a
      × ((ip : Option String) (later : ℕ)
          → is_expired s v.policy later ≡ false
          → (resolve_session (some c.token) ip later w).1 ≡ some (s, a))
unfolding create_sign_in_session
resolve_session-login compare verify username password code c v w s u new filled h =
    let (a, (found, shown, enabled, second), one) =
      passed compare verify username password code c v w s h in
    let mine = new_session a.id none c in
    let there : present (some c.token) ≡ some c.token = rw filled refl in
    (
      a,
      (found, shown, enabled, second),
      λ ip later fresh. (resolve_session_lem (some c.token) ip later w s a).1 (
        c.token,
        there,
        ap (λ x. find_one (by_token c.token) x.0.sessions) one
            ∙ (found_last (by_token c.token) v.sessions mine new (eq_refl c.token)
                ∙ ap (λ x. some x.1) (sym one)),
        ap (λ x. is_expired s x.0.policy later) one ∙ fresh,
        ap (λ x. find_one (λ b. b.id == x.1.account_id) x.0.accounts) one
            ∙ found_by_id (λ b. str_eq b.username username) v.accounts a u found,
        enabled,
      ),
    )
