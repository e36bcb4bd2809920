-- ===== src/Accounts/SigningOut.antt =====
-- `revokeSessions` on the sign-in sessions of an account, as the handlers of
-- server/controllers/account.js call it.
use infram.Prelude.{
  ℕ, ◌≡◌, ◌↔◌, refl, sym, ap, ◌∙◌, Bool, true, false, ◌&&◌, none, some, List, [], ◌∷◌, any, count,
  find_all, destroy, arith, inl, inr, In, In-find_all_of, In-destroy, In-destroy_of, In-any,
  Bool-cases, ◌==◌, ==_refl, ==_iff, if◌then◌else◌,
}
use infram.SessionManager
use infram.SessionManager.{find}
use infram.SessionManager.Invariant.{Inv}
use infram.SignIn.{Session, Server, is_one_of, left_after, revoke_sessions}
use infram.SignIn.Expiry.{UniqueIds, is_one_of-find_all, sessions-revoke_sessions}
use infram.SignIn.Revocation.{signed_in, find-revoke_sessions}
use infram.Accounts.{People, is_of, revoke_where}

-- The sign-in sessions that are left are those that the test does not hold of.
pub In-revoke_where :
    (test : Session → Bool) (p : People) (s : Session)
    → UniqueIds p.server.sessions
    → In s (revoke_where test p).server.sessions ↔ (In s p.server.sessions × (test s ≡ false))
unfolding revoke_where
In-revoke_where test p s u =
    let l = p.server.sessions in
    let after = sessions-revoke_sessions (find_all test l) p.server in
    (
      (λ i.
          let (at, out) = In-destroy (is_one_of (find_all test l)) l s (rw after at i) in
          (at, sym (is_one_of-find_all test l s u at) ∙ out)),
      (λ (at, out). rw after (
          In-destroy_of (is_one_of (find_all test l)) l s at
            (is_one_of-find_all test l s u at ∙ out))),
    )

any-find_all :
    (a k : ℕ) (l : List Session)
    → any (λ r. r.account_id == k) (find_all (is_of a) l) ≡ (a == k) && signed_in k l
unfolding any find_all count
any-find_all a k [] = ground arith
any-find_all a k (s ∷ l) = ground (arith, any-find_all a k l)

count-destroy_all :
    (p q : Session → Bool) (l : List Session)
    → ((s : Session) → In s l → p s ≡ true → q s ≡ true)
    → count p (destroy q l) ≡ 0
unfolding count destroy
count-destroy_all p q [] h = refl
count-destroy_all p q (s ∷ l) h =
    ground (arith, h s (inl refl), count-destroy_all p q l (λ r i. h r (inr i)))

-- No sign-in session of the account is left.
pub count-revoke_where :
    (a : ℕ) (p : People) → count (is_of a) (revoke_where (is_of a) p).server.sessions ≡ 0
unfolding revoke_where is_one_of
count-revoke_where a p =
    let l = p.server.sessions in
    rw (sessions-revoke_sessions (find_all (is_of a) l) p.server) (
      count-destroy_all (is_of a) (is_one_of (find_all (is_of a) l)) l (λ s i y.
        In-any (λ r. r.id == s.id) (find_all (is_of a) l) s (In-find_all_of (is_of a) l s i y)
          (==_refl s.id)))

Bool-and_true : (b : Bool) → (b && true) ≡ b
Bool-and_true b = ground arith

-- The connections of the account end if it had a sign-in session.
pub find-revoke_where :
    (a j : ℕ) (p : People) (s : SessionManager.Session)
    → Inv p.server.manager
    → find j p.server.manager ≡ some s
    → find j (revoke_where (is_of a) p).server.manager
      ≡ (if a == s.account_id && signed_in s.account_id p.server.sessions then none else some s)
unfolding revoke_where
find-revoke_where a j p s inv e =
    let l = p.server.sessions in
    let rs = find_all (is_of a) l in
    let none_left = count-revoke_where a p in
    let after = sessions-revoke_sessions rs p.server in
    let one = find-revoke_sessions rs p.server j s inv e in
    let two = any-find_all a s.account_id l in
    elim (Bool-cases (a == s.account_id)) [
      | inl y ↦
          let k = (==_iff a s.account_id).0 y in
          let zero : count (is_of s.account_id) (left_after rs l) ≡ 0 =
            ap (λ x. count (is_of x) (left_after rs l)) (sym k)
            ∙ (ap (count (is_of a)) (sym after) ∙ none_left) in
          one
          ∙ ap (λ b. if b then none else some s)
              (rw (two, zero, y) (Bool-and_true (signed_in s.account_id l)))
      | inr n ↦ rw n (let q = rw (two, n) at one in q)
    ]

accounts-revoke_sessions :
    (rs : List Session) (v : Server) → (revoke_sessions rs v).accounts ≡ v.accounts
unfolding revoke_sessions
accounts-revoke_sessions [] v = refl
accounts-revoke_sessions (r ∷ rs) v = refl

pub accounts-revoke_where :
    (test : Session → Bool) (p : People) → (revoke_where test p).server.accounts ≡ p.server.accounts
unfolding revoke_where
accounts-revoke_where test p = accounts-revoke_sessions (find_all test p.server.sessions) p.server
