-- ===== src/Accounts/Locking.antt =====
-- What locking an account does (`setLocked` of server/controllers/account.js).
use Prim.Native.String.{String}
use infram.Prelude.{
  ℕ, ◌≡◌, ◌↔◌, sym, ap, Bool, true, false, not, ◌&&◌, none, some, List, [], ◌∷◌, count, update,
  arith, In, inl, inr, Bool-cases, find_one-test, or_err-ok, guard-ok, bind-ok, ok-injective, ok,
  ◌==◌, ==_iff, if◌then◌else◌, or_err, ◌≢◌, refl, ◌∙◌, length, suc,
}
use infram.SessionManager
use infram.SessionManager.{find}
use infram.SessionManager.Invariant.{Inv}
use infram.SignIn.{Session, Account}
use infram.SignIn.Expiry.{UniqueIds}
use infram.SignIn.Revocation.{signed_in}
use infram.Accounts.{People, is_account, account_of, is_of, write, same, revoke_where, set_locked}
use infram.Accounts.SigningOut.{
  accounts-revoke_where, In-revoke_where, count-revoke_where, find-revoke_where,
}

-- What has passed the guards.
pub set_locked-passed :
    (id : ℕ) (locked : Bool) (acting : ℕ) (p q : People) (name : String)
    → set_locked id locked acting p ≡ ok (q, name)
    → (a : Account) × (account_of id p ≡ some a)
      × ((id == acting) ≡ false)
      × (q ≡ (
          if locked
          then revoke_where (is_of id) (write id (λ b. record b { disabled = locked }) p)
          else write id (λ b. record b { disabled = locked }) p))
unfolding set_locked
set_locked-passed id locked acting p q name h =
    let (a, e, h1) = bind-ok (or_err (account_of id p) 404) _ h in
    let (g, h2) = guard-ok (not (a.id == acting)) 400 _ h1 in
    let (g', h3) = guard-ok (not (same a.disabled locked)) 409 _ h2 in
    let at = or_err-ok (account_of id p) 404 a e in
    let k = (==_iff a.id id).0 (find_one-test (is_account id) p.server.accounts a at) in
    (
      a,
      at,
      (let g1 = rw k at g in ground arith),
      (let one = rw k at (ap (λ r. r.0) (ok-injective h3)) in sym one),
    )

-- Every row of an account is disabled.
disabled_each :
    (id : ℕ) (l : List Account) (b : Account)
    → In b (update (is_account id) (λ a. record a { disabled = true }) l)
    → b.id ≡ id
    → b.disabled ≡ true
unfolding update
disabled_each id [] b i e = elim i [ ]
disabled_each id (a ∷ l) b i e = elim (Bool-cases (a.id == id)) [
  | inl y ↦ elim i [ inl k ↦ ap (λ r. r.disabled) (rw y at k) | inr j ↦ disabled_each id l b j e ]
  | inr n ↦ elim i [
    | inl k ↦ let at = ap (λ r. r.id) (rw n at k) in ground arith
    | inr j ↦ disabled_each id l b j e
  ]
]

-- The rows of an update of one account: those of the other accounts are as before.
In-other :
    (id : ℕ) (f : Account → Account) (l : List Account) (b : Account)
    → ((a : Account) → (f a).id ≡ a.id)
    → b.id ≢ id
    → In b (update (is_account id) f l) ↔ In b l
unfolding update
In-other id f [] b same_id n = ((λ i. i), λ i. i)
In-other id f (a ∷ l) b same_id n =
    let (to, from) = In-other id f l b same_id n in
    elim (Bool-cases (a.id == id)) [
      | inr z ↦ rw z (
        (λ i. elim i [ inl e ↦ inl e | inr k ↦ inr (to k) ]),
        λ i. elim i [ inl e ↦ inl e | inr k ↦ inr (from k) ],
      )
      | inl y ↦
          let own : a.id ≡ id = (==_iff a.id id).0 y in
          rw y (
            (λ i. elim i [
              | inl e ↦ absurd (n (ap (λ x. x.id) e ∙ same_id a ∙ own))
              | inr k ↦ inr (to k)
            ]),
            λ i. elim i [ inl e ↦ absurd (n (ap (λ x. x.id) e ∙ own)) | inr k ↦ inr (from k) ],
          )
    ]

-- What locking does: of the account's rows only `disabled` changes, and it is set; the rows of the
-- other accounts, the passkeys and the other sign-in sessions are as before; the account's sign-in
-- sessions are gone, and its connections end if there was one.
pub record IsLockedOut (id : ℕ) (p q : People) : Type 0 where
  pub disabled : (a : Account) → In a q.server.accounts → a.id ≡ id → a.disabled ≡ true
  pub own_row :
      (a : Account)
      → In a p.server.accounts
      → a.id ≡ id
      → In (record a { disabled = true }) q.server.accounts
  pub other_rows : (a : Account) → a.id ≢ id → In a q.server.accounts ↔ In a p.server.accounts
  pub as_many : length q.server.accounts ≡ length p.server.accounts
  pub passkeys : q.passkeys ≡ p.passkeys
  pub signed_out : count (is_of id) q.server.sessions ≡ 0
  pub other_sessions :
      (s : Session) → is_of id s ≡ false → In s q.server.sessions ↔ In s p.server.sessions
  pub connections :
      (j : ℕ) (c : SessionManager.Session)
      → find j p.server.manager ≡ some c
      → find j q.server.manager
        ≡ (if id == c.account_id && signed_in c.account_id p.server.sessions then none else some c)

In-own :
    (id : ℕ) (f : Account → Account) (l : List Account) (a : Account)
    → In a l
    → a.id ≡ id
    → In (f a) (update (is_account id) f l)
unfolding update
In-own id f [] a i e = elim i [ ]
In-own id f (b ∷ l) a (inl k) e =
    let y : b.id == id ≡ true = (==_iff b.id id).1 (ap (λ x. x.id) (sym k) ∙ e) in
    rw y (inl (ap f k))
In-own id f (b ∷ l) a (inr k) e = inr (In-own id f l a k e)

length-update :
    (test : Account → Bool) (f : Account → Account) (l : List Account)
    → length (update test f l) ≡ length l
unfolding update
length-update test f [] = refl
length-update test f (a ∷ l) = ap suc (length-update test f l)

lock : (id : ℕ) → People → People
lock id p = write id (λ b. record b { disabled = true }) p

locked_out :
    (id : ℕ) (p : People)
    → Inv p.server.manager
    → UniqueIds p.server.sessions
    → IsLockedOut id p (revoke_where (is_of id) (lock id p))
unfolding lock revoke_where
locked_out id p inv u =
    let disable : Account → Account = λ b. record b { disabled = true } in
    let l = p.server.accounts in
    let rows = accounts-revoke_where (is_of id) (lock id p) in
    record {
      disabled = λ a i. disabled_each id l a (rw rows at i);
      own_row = λ a i e. rw rows (In-own id disable l a i e);
      other_rows = λ a n. rw rows (In-other id disable l a (λ b. refl) n);
      as_many = rw rows (length-update (is_account id) disable l);
      passkeys = refl;
      signed_out = count-revoke_where id (lock id p);
      other_sessions = λ s n.
          let (to, from) = In-revoke_where (is_of id) (lock id p) s u in
          ((λ i. (to i).0), λ i. from (i, n));
      connections = λ j c e. find-revoke_where id j (lock id p) c inv e;
    }

-- A successful request to lock an account sets `disabled` in its row and changes nothing else in the
-- table of accounts and nothing in the passkeys; it leaves no sign-in session of the account and
-- keeps those of the others; and it ends the account's connections if it had a sign-in session, and
-- no connection of another account. Nobody locks the own account. A registry that satisfies its
-- invariant and unique session identifiers are assumed.
pub set_locked-IsLockedOut :
    (id acting : ℕ) (p q : People) (name : String)
    → Inv p.server.manager
    → UniqueIds p.server.sessions
    → set_locked id true acting p ≡ ok (q, name)
    → IsLockedOut id p q × ((id == acting) ≡ false)
unfolding lock
set_locked-IsLockedOut id acting p q name inv u h =
    let (a, at, other, one) = set_locked-passed id true acting p q name h in
    (rw one (locked_out id p inv u), other)
