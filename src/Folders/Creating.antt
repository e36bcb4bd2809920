-- ===== src/Folders/Creating.antt =====
-- What a new folder may be.
use infram.Prelude.{
  ℕ, ◌≡◌, refl, sym, ap, ◌∙◌, inl, inr, ◌⊎◌, true, Option, none, some, List, [], ◌∷◌, ◌++◌, ◌||◌,
  arith, Bool-cases, Option-cases, if◌then◌else◌, Result-cases, answer_of, ok, same, same-eq,
  is_some, given, is_none, given-eq,
}
use mathlib.Core.Option.{some-injective}
use infram.Organization.{has_organization_access}
use infram.Folders.{
  Folder, Tree, Creation, folder_at, organization_for, may_create_in, create_folder,
}

-- What is asked of a new folder, its owner and its parent.
pub record IsProper (account fresh : ℕ) (c : Creation) (v : Tree) (f : Folder) : Type 0 where
  pub id : f.id ≡ fresh
  pub parent_id : f.parent_id ≡ c.parent_id
  pub owner :
      ((f.organization_id ≡ none) × (f.account_id ≡ some account))
      ⊎ ((f.account_id ≡ none)
          × (has_organization_access account f.organization_id v.members ≡ true))
  pub parent :
      (p : ℕ)
      → given c.parent_id ≡ some p
      → (g : Folder) × (folder_at p v.folders ≡ some g)
        × ((g.organization_id ≡ f.organization_id)
            ⊎ ((f.organization_id ≡ none) × (g.account_id ≡ f.account_id)))

parent_checked :
    (account : ℕ) (org parent : Option ℕ) (folders : List Folder) (u : Unit {0}) (p : ℕ)
    → may_create_in account org parent folders ≡ ok u
    → parent ≡ some p
    → (g : Folder) × (folder_at p folders ≡ some g)
      × ((if is_some (given org)
            then same g.organization_id org
            else same g.account_id (some account))
          ≡ true)
unfolding may_create_in
parent_checked account org none folders u p h e = ground arith
parent_checked account org (some q) folders u p h e = elim (Option-cases (folder_at q folders)) [
  | inl z ↦ let x = rw (may_create_in, z) at h in ground arith
  | inr (g, z) ↦
      let allowed =
        if is_some (given org)
        then same g.organization_id org
        else same g.account_id (some account) in
      elim (Bool-cases allowed) [
        | inl y ↦ (g, ap (λ i. folder_at i folders) (sym (some-injective q p e)) ∙ z, y)
        | inr ne ↦ let x = rw (may_create_in, z, ne) at h in ground arith
      ]
]

abbrev new_folder : (account fresh : ℕ) → Creation → Option ℕ → Folder
new_folder account fresh c org = record {
  id = fresh;
  name = c.name;
  account_id = if is_some (given org) then none else some account;
  organization_id = given org;
  parent_id = c.parent_id;
}

new_folder-IsProper :
    (account fresh : ℕ) (c : Creation) (v : Tree) (org : Option ℕ) (u : Unit {0})
    → (is_none (given org) || has_organization_access account org v.members) ≡ true
    → may_create_in account org (given c.parent_id) v.folders ≡ ok u
    → IsProper account fresh c v (new_folder account fresh c org)
new_folder-IsProper account fresh c v org u y z = elim (Option-cases (given org)) [
  | inl e ↦ record {
    id = refl;
    parent_id = refl;
    owner = inl (e, rw e refl);
    parent = λ p h.
        let (g, at, k) = parent_checked account org (given c.parent_id) v.folders u p z h in
        (g, at, inr (e, same-eq g.account_id (some account) (rw e at k) ∙ sym (rw e refl)));
  }
  | inr (o, e) ↦
      let whole = given-eq org o e in
      record {
        id = refl;
        parent_id = refl;
        owner = inr (
          rw e refl,
          ap (λ i. has_organization_access account i v.members) (e ∙ sym whole) ∙ (rw e at y),
        );
        parent = λ p h.
            let (g, at, k) = parent_checked account org (given c.parent_id) v.folders u p z h in
            (g, at, inl (same-eq g.organization_id org (rw e at k) ∙ (whole ∙ sym e)));
      }
]

-- A call that is not refused adds one folder, which is the creator's own or of an organization that
-- the creator is an active member of; its parent, if one is given, is there and of the same owner.
create_folder-IsProper :
    (account fresh : ℕ) (c : Creation) (v w : Tree)
    → create_folder account fresh c v ≡ ok w
    → (f : Folder) × (w.folders ≡ v.folders ++ f ∷ []) × IsProper account fresh c v f
unfolding create_folder
create_folder-IsProper account fresh c v w h = elim (Result-cases (organization_for c v.folders)) [
  | inl (code, e) ↦ let x = rw (create_folder, e) at h in ground arith
  | inr (org, e) ↦
      elim (Bool-cases (is_none (given org) || has_organization_access account org v.members)) [
        | inr ne ↦ let x = rw (create_folder, e, ne) at h in ground arith
        | inl y ↦ elim (Result-cases (may_create_in account org (given c.parent_id) v.folders)) [
          | inl (code, z) ↦ let x = rw (create_folder, e, y, z) at h in ground arith
          | inr (u, z) ↦
              let x = rw (create_folder, e, y, z) at h in
              (
                new_folder account fresh c org,
                sym (ap (λ r. (answer_of v r).folders) x),
                new_folder-IsProper account fresh c v org u y z,
              )
        ]
      ]
]
