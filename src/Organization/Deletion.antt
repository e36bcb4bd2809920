-- ===== src/Organization/Deletion.antt =====
-- What the deletion of an organization takes away, and what it leaves.
use infram.Prelude.{
  ℕ, ◌≡◌, ◌≢◌, ◌↔◌, refl, ap, inl, inr, ◌⊎◌, Bool, true, false, ◌&&◌, ◌||◌, Option, none, some,
  List, [], ◌∷◌, ◌==◌, ==_iff, destroy, any, In, In-destroy, In-destroy_of, arith, Bool-cases,
}
use mathlib.Core.Bool.{false≢true}
use infram.Organization.{
  Organization, Member, Item, Link, Directory, belongs, refers, is_of, remove_organization_data,
}

-- A reference to a row of the organization.
abbrev pub RefersTo : (org : ℕ) → List Item → Option ℕ → Type 0
RefersTo org items o = (i : Item) × In i items × (i.organization_id ≡ some org) × (o ≡ some i.id)

belongs_iff : (org : ℕ) (i : Item) → (belongs org i ≡ true) ↔ (i.organization_id ≡ some org)
unfolding belongs
belongs_iff org i = (λ h. go i.organization_id h, λ h. rw h (ground arith))
  where
    go : (o : Option ℕ) → is_of org o ≡ true → o ≡ some org
    go none h = cc
    go (some k) h = ground arith

refers_sound :
    (org : ℕ) (items : List Item) (o : Option ℕ) → refers org items o ≡ true → RefersTo org items o
unfolding refers any
refers_sound org items none h = cc
refers_sound org [] (some k) h = cc
refers_sound org (i ∷ items) (some k) h = elim (Bool-cases (belongs org i && i.id == k)) [
  | inl y ↦ (i, inl refl, (belongs_iff org i).0 (ground arith), ground arith)
  | inr n ↦
      let (j, at, mine, e) = refers_sound org items (some k) (ground arith) in (j, inr at, mine, e)
]

refers_complete :
    (org : ℕ) (items : List Item) (o : Option ℕ) → RefersTo org items o → refers org items o ≡ true
unfolding refers any
refers_complete org items none (i, at, mine, e) = cc
refers_complete org [] (some k) (i, at, mine, e) = elim at [ ]
refers_complete org (j ∷ items) (some k) (i, inl here, mine, e) =
    let b = (belongs_iff org i).1 mine in ground (arith, ap (belongs org) here, ap (λ x. x.id) here)
refers_complete org (j ∷ items) (some k) (i, inr later, mine, e) =
    ground (arith, refers_complete org items (some k) (i, later, mine, e))

false-of_not : (b : Bool) {P : Type 0} → (b ≡ true → P) → ¬ P → b ≡ false
false-of_not true f n = absurd (n (f refl))
false-of_not false f n = refl

not_of_false : (b : Bool) {P : Type 0} → (P → b ≡ true) → b ≡ false → ¬ P
not_of_false b f e p = let t = f p in ground arith

kept_iff :
    {A : Type 0} (p : A → Bool) (P : Type 0) (xs : List A) (a : A)
    → (p a ≡ true) ↔ P
    → In a (destroy p xs) ↔ (In a xs × (¬ P))
kept_iff p P xs a (to, from) = (
  (λ h. let (at, n) = In-destroy p xs a h in (at, not_of_false (p a) from n)),
  λ (at, n). In-destroy_of p xs a at (false-of_not (p a) to n),
)

refers_iff :
    (org : ℕ) (items : List Item) (o : Option ℕ)
    → (refers org items o ≡ true) ↔ RefersTo org items o
refers_iff org items o = (refers_sound org items o, refers_complete org items o)

either_iff :
    (a b : Bool) {P Q : Type 0} → (a ≡ true) ↔ P → (b ≡ true) ↔ Q → ((a || b) ≡ true) ↔ (P ⊎ Q)
either_iff true b (f, f') (g, g') = ((λ _. inl (f refl)), λ _. refl)
either_iff false b (f, f') (g, g') =
    ((λ h. inr (g h)), λ h. elim h [ inl p ↦ absurd (false≢true (f' p)) | inr q ↦ g' q ])

-- Deleting an organization takes away its own row and no other organization's, its members, its
-- rows of the tables of entries, folders, identities, snippets, scripts and integrations, the links
-- of its entries and its identities, the tags of its entries and the credentials of its identities;
-- every other row of these tables stays, and the accounts are as before.
pub In-remove_organization_data :
    (org : ℕ) (d : Directory) (o : Organization) (m : Member) (i : Item) (l : Link)
    → let e = remove_organization_data org d in
      (In o e.organizations ↔ (In o d.organizations × (o.id ≢ org)))
      × (e.accounts ≡ d.accounts)
      × (In m e.members ↔ (In m d.members × (m.organization_id ≢ org)))
      × (In i e.entries ↔ (In i d.entries × (i.organization_id ≢ some org)))
      × (In i e.folders ↔ (In i d.folders × (i.organization_id ≢ some org)))
      × (In i e.identities ↔ (In i d.identities × (i.organization_id ≢ some org)))
      × (In i e.snippets ↔ (In i d.snippets × (i.organization_id ≢ some org)))
      × (In i e.scripts ↔ (In i d.scripts × (i.organization_id ≢ some org)))
      × (In i e.integrations ↔ (In i d.integrations × (i.organization_id ≢ some org)))
      × (In l e.entry_identities ↔ (
          In l d.entry_identities
          × (¬ (RefersTo org d.entries l.entry_id ⊎ RefersTo org d.identities l.identity_id))))
      × (In l e.entry_tags ↔ (In l d.entry_tags × (¬ RefersTo org d.entries l.entry_id)))
      × (In l e.credentials ↔ (In l d.credentials × (¬ RefersTo org d.identities l.identity_id)))
unfolding remove_organization_data
In-remove_organization_data org d o m i l =
    let mine = belongs_iff org i in
    let entry = refers_iff org d.entries l.entry_id in
    let identity = refers_iff org d.identities l.identity_id in
    (
      kept_iff (λ x. x.id == org) (o.id ≡ org) d.organizations o (==_iff o.id org),
      refl,
      kept_iff (λ n. n.organization_id == org) (m.organization_id ≡ org) d.members m
          (==_iff m.organization_id org),
      kept_iff (belongs org) (i.organization_id ≡ some org) d.entries i mine,
      kept_iff (belongs org) (i.organization_id ≡ some org) d.folders i mine,
      kept_iff (belongs org) (i.organization_id ≡ some org) d.identities i mine,
      kept_iff (belongs org) (i.organization_id ≡ some org) d.snippets i mine,
      kept_iff (belongs org) (i.organization_id ≡ some org) d.scripts i mine,
      kept_iff (belongs org) (i.organization_id ≡ some org) d.integrations i mine,
      kept_iff (λ k. refers org d.entries k.entry_id || refers org d.identities k.identity_id)
          (RefersTo org d.entries l.entry_id ⊎ RefersTo org d.identities l.identity_id)
          d.entry_identities l
          (either_iff (refers org d.entries l.entry_id) (refers org d.identities l.identity_id)
            entry identity),
      kept_iff (λ k. refers org d.entries k.entry_id) (RefersTo org d.entries l.entry_id)
          d.entry_tags l entry,
      kept_iff (λ k. refers org d.identities k.identity_id)
          (RefersTo org d.identities l.identity_id) d.credentials l identity,
    )
