-- ===== src/Identities/Calls.antt =====
-- The calls of identity.js keep every identity with one owner.
use infram.Prelude.{
  ℕ, ◌≡◌, ◌≢◌, refl, subst, inl, inr, Bool, true, ◌||◌, Option, none, some, List, [], ◌∷◌, ◌++◌,
  ◌==◌, same, is_some, if◌then◌else◌, arith, All, destroy, update, Result, ok, guard-ok, bind-ok,
  ok-injective, given, is_none, Bool-cases, Option-cases, or_err,
}
use infram.Organization.{has_organization_access}
use infram.Identities.Credentials.{IdentityType}
use infram.Identities.{
  Identity, Vault, Configuration, identity_at, validate_access, create_identity, is_target,
  delete_identity, renamed, update_identity, move_identity_to_organization,
}
use infram.Identities.Owners.{IsOwned, by_account, by_organization}

pub data Call : Type 0 where
  creates : (name : ℕ) → IdentityType → Configuration → Call
  deletes : (id : ℕ) → Call
  updates : (id : ℕ) → Configuration → Call
  moves : (id org : ℕ) → Call

abbrev pub perform : (account fresh : ℕ) → Call → Vault → Result Vault
perform account fresh (creates name kind c) v = create_identity account fresh name kind c v
perform account fresh (deletes id) v = delete_identity account id v
perform account fresh (updates id c) v = update_identity account id c v
perform account fresh (moves id org) v = move_identity_to_organization account id org v

module _ {A : Type 0} (P : A → Type 0) where
  All-append : (xs ys : List A) → All P xs → All P ys → All P (xs ++ ys)
  All-append [] ys p q = q
  All-append (x ∷ xs) ys (p, ps) q = (p, All-append xs ys ps q)

  All-destroy : (p : A → Bool) (xs : List A) → All P xs → All P (destroy p xs)
  unfolding destroy
  All-destroy p [] a = tt
  All-destroy p (x ∷ xs) (a, rest) = elim (Bool-cases (p x)) [
    | inl y ↦ rw y (All-destroy p xs rest)
    | inr n ↦ rw n (a, All-destroy p xs rest)
  ]

  All-update :
      (p : A → Bool) (f : A → A) (xs : List A)
      → ((x : A) → P x → P (f x))
      → All P xs
      → All P (update p f xs)
  unfolding update
  All-update p f [] h a = tt
  All-update p f (x ∷ xs) h (a, rest) = elim (Bool-cases (p x)) [
    | inl y ↦ rw y (h x a, All-update p f xs h rest)
    | inr n ↦ rw n (a, All-update p f xs h rest)
  ]

IsOwned-renamed : (c : Configuration) (i : Identity) → IsOwned i → IsOwned (renamed c i)
IsOwned-renamed c i (by_account a e n g) = by_account a e n g
IsOwned-renamed c i (by_organization o e n g) = by_organization o e n g

created : (account fresh name : ℕ) → IdentityType → Configuration → Identity
created account fresh name kind c = record {
  id = fresh;
  name = name;
  kind = kind;
  username = c.username;
  account_id = if is_some (given c.organization_id) then none else some account;
  organization_id = given c.organization_id;
}

given-nonzero : (o : Option ℕ) (n : ℕ) → given o ≡ some n → n ≢ 0
given-nonzero none n h = ground arith
given-nonzero (some m) n h = ground arith

IsOwned-created :
    (account fresh name : ℕ) (kind : IdentityType) (c : Configuration)
    → account ≢ 0
    → IsOwned (created account fresh name kind c)
unfolding created
IsOwned-created account fresh name kind c n = elim (Option-cases (given c.organization_id)) [
  | inl e ↦ by_account account (rw e refl) n e
  | inr (org, e) ↦ by_organization org e (given-nonzero c.organization_id org e) (rw e refl)
]

access-nonzero :
    (account org : ℕ) (v : Vault)
    → has_organization_access account (some org) v.members ≡ true
    → org ≢ 0
unfolding has_organization_access
access-nonzero account org v h = ground arith

-- Whatever an account asks for, every identity is of one account or of one organization, and not of
-- both, if it was so before; the account's identifier is assumed not to be 0.
pub perform-IsOwned :
    (account fresh : ℕ) (c : Call) (v w : Vault)
    → account ≢ 0
    → All IsOwned v.identities
    → perform account fresh c v ≡ ok w
    → All IsOwned w.identities
unfolding create_identity delete_identity update_identity move_identity_to_organization created
perform-IsOwned account fresh (creates name kind c) v w n a h =
    let (g, e) =
      guard-ok
        (is_none (given c.organization_id)
          || has_organization_access account c.organization_id v.members)
        403 _ h in
    subst (λ x. All IsOwned x.identities) (ok-injective e)
      (All-append IsOwned v.identities (created account fresh name kind c ∷ []) a
        (IsOwned-created account fresh name kind c n, tt))
perform-IsOwned account fresh (deletes id) v w n a h =
    let (i, g, e) = bind-ok (validate_access account (identity_at id v.identities) v.members) _ h in
    subst (λ x. All IsOwned x.identities) (ok-injective e)
      (All-destroy IsOwned (is_target account i) v.identities a)
perform-IsOwned account fresh (updates id c) v w n a h =
    let (i, g, e) = bind-ok (validate_access account (identity_at id v.identities) v.members) _ h in
    subst (λ x. All IsOwned x.identities) (ok-injective e)
      (All-update IsOwned (is_target account i) (renamed c) v.identities (IsOwned-renamed c) a)
perform-IsOwned account fresh (moves id org) v w n a h =
    let (i, g, h1) = bind-ok (or_err (identity_at id v.identities) 404) _ h in
    let (g1, h2) = guard-ok (same i.account_id (some account)) 403 _ h1 in
    let (g2, e) = guard-ok (has_organization_access account (some org) v.members) 403 _ h2 in
    subst (λ x. All IsOwned x.identities) (ok-injective e)
      (All-update IsOwned (λ j. j.id == id)
        (λ j. record j { account_id = none; organization_id = some org }) v.identities
        (λ j o. by_organization org refl (access-nonzero account org v g2) refl) a)
