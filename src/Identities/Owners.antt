-- ===== src/Identities/Owners.antt =====
-- Who owns an identity, and who may use it.
use infram.Prelude.{
  ℕ, ◌≡◌, ◌≢◌, ◌↔◌, ◌⊎◌, refl, sym, ◌∙◌, inl, inr, Bool, true, false, ◌&&◌, ◌||◌, none, some, List,
  [], ◌∷◌, ◌++◌, ◌==◌, same, is_some, arith, In, any, map, find_all, find_one, In-find_all,
  In-find_all_of, ok, guard, ◌>>◌, guard-ok, given, is_none, is_one_of, Bool-cases,
}
use infram.Organization.{
  Member, has_organization_access, get_active_org_ids, is_active_row, is_active,
}
use infram.Identities.{Identity, validate_access, is_in_one_of, is_personal, list_identities}

-- An identity is of one account or of one organization, and not of both. Identifiers start at 1.
pub data IsOwned (i : Identity) : Type 0 where
  by_account :
      (account : ℕ)
      → i.account_id ≡ some account
      → account ≢ 0
      → i.organization_id ≡ none
      → IsOwned i
  by_organization :
      (org : ℕ) → i.organization_id ≡ some org → org ≢ 0 → i.account_id ≡ none → IsOwned i

In-append_left : {A : Type 0} (a : A) (xs ys : List A) → In a xs → In a (xs ++ ys)
In-append_left a [] ys i = elim i [ ]
In-append_left a (x ∷ xs) ys (inl e) = inl e
In-append_left a (x ∷ xs) ys (inr i) = inr (In-append_left a xs ys i)

In-append_right : {A : Type 0} (a : A) (xs ys : List A) → In a ys → In a (xs ++ ys)
In-append_right a [] ys i = i
In-append_right a (x ∷ xs) ys i = inr (In-append_right a xs ys i)

In-append : {A : Type 0} (a : A) (xs ys : List A) → In a (xs ++ ys) → In a xs ⊎ In a ys
In-append a [] ys i = inr i
In-append a (x ∷ xs) ys (inl e) = inl (inl e)
In-append a (x ∷ xs) ys (inr i) = elim (In-append a xs ys i) [ inl l ↦ inl (inr l) | inr r ↦ inr r ]

-- The organizations of an account are those that it has access to.
is_one_of-active :
    (account org : ℕ) (l : List Member)
    → is_one_of
        (map
          (λ m. m.organization_id)
          (find_all (λ m. m.account_id == account && is_active m.status) l))
        org
      ≡ is_some (find_one (is_active_row org account) l)
unfolding find_all find_one any
is_one_of-active account org [] = refl
is_one_of-active account org (m ∷ l) = ground (arith, is_one_of-active account org l)

is_one_of-has_organization_access :
    (account org : ℕ) (l : List Member)
    → org ≢ 0
    → is_one_of (get_active_org_ids account l) org ≡ has_organization_access account (some org) l
unfolding get_active_org_ids has_organization_access
is_one_of-has_organization_access account org l n = ground (arith, is_one_of-active account org l)

abbrev is_shared : (account : ℕ) → List Member → Identity → Bool
is_shared account members i = is_in_one_of (get_active_org_ids account members) i.organization_id

-- The rows that a listing has, and those that requests are let through for.
abbrev may_access : (account : ℕ) → List Member → Identity → Bool
may_access account members i =
    (is_none (given i.account_id) || same i.account_id (some account))
    && (is_none (given i.organization_id)
        || has_organization_access account i.organization_id members)

abbrev is_listed : (account : ℕ) → List Member → Identity → Bool
is_listed account members i = is_personal account i || is_shared account members i

In-list_identities :
    (account : ℕ) (l : List Identity) (members : List Member) (i : Identity)
    → In i l
    → In i (list_identities account l members) ↔ (is_listed account members i ≡ true)
unfolding list_identities
In-list_identities account l members i h = (
  (λ m. elim (In-append i (find_all (is_personal account) l) _ m) [
    | inl x ↦ let (p, y) = In-find_all (is_personal account) l i x in ground arith
    | inr x ↦ let (p, y) = In-find_all (is_shared account members) l i x in ground arith
  ]),
  (λ y. elim (Bool-cases (is_personal account i)) [
    | inl p ↦ In-append_left i _ _ (In-find_all_of (is_personal account) l i h p)
    | inr n ↦
        In-append_right i (find_all (is_personal account) l) _
          (In-find_all_of (is_shared account members) l i h (ground arith))
  ]),
)

both_guards {ℓ} :
    {A : Type ℓ} (a b : Bool) (x : A)
    → a && b ≡ true
    → (guard a 403 >> (guard b 403 >> ok x)) ≡ ok x
both_guards true true x h = refl
both_guards true false x h = ground arith
both_guards false b x h = ground arith

ok-answer :
    (account : ℕ) (members : List Member) (i : Identity)
    → may_access account members i ≡ true
    → validate_access account (some i) members ≡ ok i
unfolding validate_access
ok-answer account members i y =
    both_guards (is_none (given i.account_id) || same i.account_id (some account)) _ i y

answer-ok :
    (account : ℕ) (members : List Member) (i : Identity)
    → validate_access account (some i) members ≡ ok i
    → may_access account members i ≡ true
unfolding validate_access
answer-ok account members i h =
    let (g1, h1) =
      guard-ok (is_none (given i.account_id) || same i.account_id (some account)) 403 _ h in
    let (g2, h2) =
      guard-ok
        (is_none (given i.organization_id)
          || has_organization_access account i.organization_id members)
        403 _ h1 in
    ground arith

is_listed-may_access :
    (account : ℕ) (members : List Member) (i : Identity)
    → IsOwned i
    → is_listed account members i ≡ may_access account members i
is_listed-may_access account members i (by_account a e n g) = rw (e, g) (ground arith)
is_listed-may_access account members i (by_organization org e n g) =
    rw (e, g) (ground (arith, is_one_of-has_organization_access account org members n))

-- An identity of the table that has one owner, an account or an organization, is listed for an
-- account exactly if the account's requests for it are let through.
pub list_identities-validate_access :
    (account : ℕ) (l : List Identity) (members : List Member) (i : Identity)
    → In i l
    → IsOwned i
    → In i (list_identities account l members) ↔ (validate_access account (some i) members ≡ ok i)
list_identities-validate_access account l members i h o =
    let (there, back) = In-list_identities account l members i h in
    let agree = is_listed-may_access account members i o in
    (
      (λ m. ok-answer account members i (sym agree ∙ there m)),
      (λ e. back (agree ∙ answer-ok account members i e)),
    )
