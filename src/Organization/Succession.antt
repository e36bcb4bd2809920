-- ===== src/Organization/Succession.antt =====
-- After `handOverOrganizations` no organization is left without another owner.
use infram.Prelude.{
  ℕ, ◌≡◌, refl, sym, ap, ◌∙◌, subst, inl, inr, ◌⊎◌, Bool, true, false, ◌&&◌, none, some, List, [],
  ◌∷◌, ◌==◌, arith, any, find_all, destroy, update, map, In, In-find_all, In-find_all_of, any-In,
  Bool-cases, Option-cases,
}
use mathlib.Core.Option.{some-injective}
use infram.Organization.{owner, Member, Directory, is_owner, is_row, remove_organization_data}
use infram.Organization.HandOver.{
  HandOver, is_owned_by, is_other, comes_before, first_of, hand_over, hand_over_each,
  hand_over_organizations,
}

-- Has the organization an active owner other than the account?
abbrev has_other_owner : (account org : ℕ) → List Member → Bool
has_other_owner account org members = any (λ m. is_other org account m && is_owner m.role) members

-- The organization has another owner, or it is gone and so are its members.
abbrev pub IsSettled : (account org : ℕ) → Directory → Type 0
IsSettled account org d =
    (has_other_owner account org d.members ≡ true)
    ⊎ ((any (λ m. m.organization_id == org) d.members ≡ false)
        × (any (λ o. o.id == org) d.organizations ≡ false))

In-first_of : (l : List Member) (m : Member) → first_of l ≡ some m → In m l
unfolding first_of
In-first_of [] m h = ground arith
In-first_of (x ∷ l) m h = elim (Option-cases (first_of l)) [
  | inl z ↦ inl (sym (some-injective x m (rw (first_of, z) at h)))
  | inr (b, z) ↦ elim (Bool-cases (comes_before b x)) [
    | inl y ↦ inr (In-first_of l m (z ∙ (rw (first_of, z, y) at h)))
    | inr n ↦ inl (sym (some-injective x m (rw (first_of, z, n) at h)))
  ]
]

first_of-none : (l : List Member) (m : Member) → In m l → first_of l ≡ none → ⊥
unfolding first_of
first_of-none [] m i h = i
first_of-none (x ∷ l) m i h = elim (Option-cases (first_of l)) [
  | inl z ↦ let bad = rw (first_of, z) at h in ground arith
  | inr (b, z) ↦ elim (Bool-cases (comes_before b x)) [
    | inl y ↦ let bad = rw (first_of, z, y) at h in ground arith
    | inr n ↦ let bad = rw (first_of, z, n) at h in ground arith
  ]
]

-- A promotion makes an owner and unmakes none.
promoted :
    (account org successor : ℕ) (l : List Member) (m : Member)
    → In m l
    → is_other org account m ≡ true
    → m.account_id ≡ successor
    → has_other_owner account org (update (is_row org successor) (λ x. record x { role = owner }) l)
      ≡ true
unfolding any update
promoted account org successor [] m i o e = elim i [ ]
promoted account org successor (x ∷ l) m (inl q) o e =
    let is_candidate : is_other org account x ≡ true = ap (is_other org account) (sym q) ∙ o in
    let same_account : x.account_id ≡ successor = ap (λ y. y.account_id) (sym q) ∙ e in ground arith
promoted account org successor (x ∷ l) m (inr i) o e =
    ground (arith, promoted account org successor l m i o e)

still_owned :
    (account org k successor : ℕ) (l : List Member)
    → has_other_owner account k l ≡ true
    → has_other_owner account k (update (is_row org successor) (λ x. record x { role = owner }) l)
      ≡ true
unfolding any update
still_owned account org k successor [] h = h
still_owned account org k successor (x ∷ l) h =
    ground (arith, still_owned account org k successor l)

gone-update :
    (org k successor : ℕ) (l : List Member)
    → any
        (λ m. m.organization_id == k)
        (update (is_row org successor) (λ x. record x { role = owner }) l)
      ≡ any (λ m. m.organization_id == k) l
unfolding any update
gone-update org k successor [] = refl
gone-update org k successor (x ∷ l) = ground (arith, gone-update org k successor l)

any-destroy :
    {A : Type 0} (p q : A → Bool) (l : List A)
    → ((a : A) → p a ≡ true → q a ≡ true)
    → any p (destroy q l) ≡ false
unfolding any destroy
any-destroy p q [] h = refl
any-destroy p q (x ∷ l) h = ground (arith, any-destroy p q l h, h x)

any-destroy_less :
    {A : Type 0} (p q : A → Bool) (l : List A) → any p l ≡ false → any p (destroy q l) ≡ false
unfolding any destroy
any-destroy_less p q [] h = refl
any-destroy_less p q (x ∷ l) h = ground (arith, any-destroy_less p q l)

any-destroy_other :
    {A : Type 0} (p q : A → Bool) (l : List A)
    → any p l ≡ true
    → ((a : A) → p a ≡ true → q a ≡ false)
    → any p (destroy q l) ≡ true
unfolding any destroy
any-destroy_other p q [] h n = h
any-destroy_other p q (x ∷ l) h n = ground (arith, any-destroy_other p q l, n x)

-- One organization is settled by its turn.
hand_over-IsSettled :
    (account org : ℕ) (h : HandOver) → IsSettled account org (hand_over account org h).directory
unfolding hand_over remove_organization_data
hand_over-IsSettled account org h =
    let candidates = find_all (is_other org account) h.directory.members in
    elim (Option-cases (first_of candidates)) [
      | inl z ↦
          rw (hand_over, z)
            (inr (
              any-destroy (λ m. m.organization_id == org) (λ m. m.organization_id == org)
                  h.directory.members (λ m y. y),
              any-destroy (λ o. o.id == org) (λ o. o.id == org) h.directory.organizations
                  (λ o y. y),
            ))
      | inr (m, z) ↦
          let (i, o) =
            In-find_all (is_other org account) h.directory.members m (In-first_of candidates m z) in
          rw (hand_over, z) (inl (promoted account org m.account_id h.directory.members m i o refl))
    ]

-- The turn of another organization leaves it settled.
hand_over-stays :
    (account org k : ℕ) (h : HandOver)
    → IsSettled account k h.directory
    → IsSettled account k (hand_over account org h).directory
unfolding hand_over remove_organization_data
hand_over-stays account org k h s =
    let candidates = find_all (is_other org account) h.directory.members in
    elim (Option-cases (first_of candidates)) [
      | inr (m, z) ↦
          rw (hand_over, z)
            (elim s [
              | inl y ↦ inl (still_owned account org k m.account_id h.directory.members y)
              | inr (g, o) ↦ inr (gone-update org k m.account_id h.directory.members ∙ g, o)
            ])
      | inl z ↦
          rw (hand_over, z)
            (elim s [
              | inl y ↦ elim (Bool-cases (org == k)) [
                | inl same_org ↦
                    let (b, i, t) =
                      any-In (λ x. is_other k account x && is_owner x.role) h.directory.members y in
                    let candidate : is_other org account b ≡ true = ground arith in
                    absurd (
                      first_of-none candidates b
                        (In-find_all_of (is_other org account) h.directory.members b i candidate) z)
                | inr other_org ↦ inl (
                    any-destroy_other (λ x. is_other k account x && is_owner x.role)
                      (λ x. x.organization_id == org) h.directory.members y (λ a t. ground arith))
              ]
              | inr (g, o) ↦ inr (
                any-destroy_less (λ m. m.organization_id == k) _ h.directory.members g,
                any-destroy_less (λ x. x.id == k) _ h.directory.organizations o,
              )
            ])
    ]

hand_over_each-stays :
    (account k : ℕ) (orgs : List ℕ) (h : HandOver)
    → IsSettled account k h.directory
    → IsSettled account k (hand_over_each account orgs h).directory
unfolding hand_over_each
hand_over_each-stays account k [] h s = s
hand_over_each-stays account k (org ∷ orgs) h s =
    hand_over_each-stays account k orgs (hand_over account org h)
      (hand_over-stays account org k h s)

hand_over_each-IsSettled :
    (account k : ℕ) (orgs : List ℕ) (h : HandOver)
    → In k orgs
    → IsSettled account k (hand_over_each account orgs h).directory
unfolding hand_over_each
hand_over_each-IsSettled account k [] h i = elim i [ ]
hand_over_each-IsSettled account k (org ∷ orgs) h (inl e) =
    hand_over_each-stays account k orgs (hand_over account org h) (
      subst (λ o. IsSettled account o (hand_over account org h).directory) (sym e)
        (hand_over-IsSettled account org h))
hand_over_each-IsSettled account k (org ∷ orgs) h (inr i) =
    hand_over_each-IsSettled account k orgs (hand_over account org h) i

In-map : {A : Type 0} (f : A → ℕ) (a : A) (l : List A) → In a l → In (f a) (map f l)
In-map f a [] i = elim i [ ]
In-map f a (x ∷ l) (inl e) = inl (ap f e)
In-map f a (x ∷ l) (inr i) = inr (In-map f a l i)

-- After an account has handed over its organizations, each organization that it was an active owner
-- of has another active owner, or it is gone, with all its memberships.
pub hand_over_organizations-IsSettled :
    (account : ℕ) (d : Directory) (m : Member)
    → In m d.members
    → is_owned_by account m ≡ true
    → IsSettled account m.organization_id (hand_over_organizations account d).directory
unfolding hand_over_organizations
hand_over_organizations-IsSettled account d m i o =
    let owned = find_all (is_owned_by account) d.members in
    hand_over_each-IsSettled account m.organization_id (map (λ x. x.organization_id) owned) _ (
      In-map (λ x. x.organization_id) m owned
        (In-find_all_of (is_owned_by account) d.members m i o))
