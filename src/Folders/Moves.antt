-- ===== src/Folders/Moves.antt =====
-- Moving folders keeps the tree a tree.
use infram.Prelude.{
  ℕ, suc, zero, ◌≡◌, ◌≢◌, refl, sym, ap, ◌∙◌, inl, inr, Bool, true, false, Option, none, some, List,
  [], ◌∷◌, find_one, update, arith, Bool-cases, Option-cases, ◌==◌, if◌then◌else◌, map, same,
  find_all, ◌⊎◌, subst, find_one-test, given,
}
use mathlib.Core.Option.{some-injective}
use infram.Folders.{
  Folder, Tree, Context, by_id, folder_at, climb, cleanup_organization_identities, update_one, each,
  update_folder_context,
}
use infram.Folders.Edit.{Edit, Place, stay, to_root, under, placed, edited}

-- The parent of a folder, if the folder is there.
unfoldable pub parent_of : ℕ → List Folder → Option (Option ℕ)
unfolding folder_at
parent_of c l = elim (folder_at c l) [ none ↦ none | some f ↦ some f.parent_id ]

-- The way up from a folder ends.
pub data Rooted (l : List Folder) : ℕ → Type 0 where
  missing : {c : ℕ} → parent_of c l ≡ none → Rooted l c
  root : {c : ℕ} → parent_of c l ≡ some none → Rooted l c
  child : {c p : ℕ} → parent_of c l ≡ some (some p) → Rooted l p → Rooted l c

-- No folder is below itself.
abbrev pub IsTree : List Folder → Type 0
IsTree l = (c : ℕ) → Rooted l c

abbrev pub SameParents : List Folder → List Folder → Type 0
SameParents l l' = (c : ℕ) → parent_of c l' ≡ parent_of c l

pub Rooted-same : {l l' : List Folder} {c : ℕ} → SameParents l l' → Rooted l c → Rooted l' c
Rooted-same {c = c} s (missing e) = missing (s c ∙ e)
Rooted-same {c = c} s (root e) = root (s c ∙ e)
Rooted-same {c = c} s (child e r) = child (s c ∙ e) (Rooted-same s r)

parent_of-update :
    (f : Folder → Folder) (p : Folder → Bool) (l : List Folder) (c : ℕ)
    → ((g : Folder) → ((f g).id ≡ g.id) × ((f g).parent_id ≡ g.parent_id))
    → parent_of c (update p f l) ≡ parent_of c l
unfolding parent_of folder_at find_one update
parent_of-update f p [] c k = refl
parent_of-update f p (g ∷ l) c k = ground (arith, parent_of-update f p l c k, (k g).0, (k g).1)

pub folders-update_one :
    (id : ℕ) (c : Context) (old : Option ℕ) (v : Tree)
    → (update_one id c old v).folders
      ≡ update
          (by_id id)
          (λ f. record f { organization_id = c.organization_id; account_id = c.account_id })
          v.folders
unfolding update_one cleanup_organization_identities
folders-update_one id c old v = elim (Option-cases (given old)) [
  | inl e ↦ rw (update_one, e) refl
  | inr (org, e) ↦ elim (Bool-cases (same (some org) c.organization_id)) [
    | inl y ↦ rw (update_one, e, y) refl
    | inr n ↦ rw (update_one, e, n) refl
  ]
]

update_one-SameParents :
    (id : ℕ) (c : Context) (old : Option ℕ) (v : Tree)
    → SameParents v.folders (update_one id c old v).folders
update_one-SameParents id c old v k =
    ap (parent_of k) (folders-update_one id c old v)
    ∙ parent_of-update
        (λ f. record f { organization_id = c.organization_id; account_id = c.account_id })
        (by_id id) v.folders k (λ g. (refl, refl))

each-SameParents :
    (f : ℕ → Tree → Option Tree) (ids : List ℕ) (v w : Tree)
    → ((i : ℕ) (x y : Tree) → f i x ≡ some y → SameParents x.folders y.folders)
    → each f ids v ≡ some w
    → SameParents v.folders w.folders
unfolding each
each-SameParents f [] v w h e k = ap (λ x. parent_of k x.folders) (sym (some-injective v w e))
each-SameParents f (i ∷ ids) v w h e k = elim (Option-cases (f i v)) [
  | inl z ↦ let x = rw (each, z) at e in ground arith
  | inr (x, z) ↦ each-SameParents f ids x w h (rw (each, z) at e) k ∙ h i v x z k
]

-- Changing who owns a subtree moves no folder.
pub update_folder_context-SameParents :
    (n id : ℕ) (c : Context) (old : Option ℕ) (v w : Tree)
    → update_folder_context n id c old v ≡ some w
    → SameParents v.folders w.folders
unfolding update_folder_context
update_folder_context-SameParents zero id c old v w e k = ground arith
update_folder_context-SameParents (suc n) id c old v w e k =
    each-SameParents (λ i. update_folder_context n i c old)
      (map (λ f. f.id) (find_all (λ f. same f.parent_id (some id)) (update_one id c old v).folders))
      (update_one id c old v) w (λ i x y. update_folder_context-SameParents n i c old x y) e k
    ∙ update_one-SameParents id c old v k

-- The move itself.
pub parent_of-write :
    (id k : ℕ) (e : Edit) (l : List Folder)
    → parent_of k (update (by_id id) (edited e) l) ≡ (
        if k == id
        then elim (parent_of k l) [ none ↦ none | some p ↦ some (placed e.place p) ]
        else parent_of k l)
unfolding parent_of folder_at find_one update
parent_of-write id k e [] = ground arith
parent_of-write id k e (f ∷ l) = ground (arith, parent_of-write id k e l)

climb-step :
    (n id c : ℕ) (l : List Folder)
    → climb (suc n) id c l ≡ some false
    → (parent_of c l ≡ none)
      ⊎ ((c ≢ id) × (parent_of c l ≡ some none))
      ⊎ ((c ≢ id) × ((p : ℕ) × (parent_of c l ≡ some (some p)) × (climb n id p l ≡ some false)))
unfolding climb parent_of folder_at
climb-step n id c l h = elim (Option-cases (find_one (by_id c) l)) [
  | inl e ↦ inl (rw (parent_of, folder_at, e) refl)
  | inr (f, e) ↦ elim (Bool-cases (f.id == id)) [
    | inl y ↦ let z = rw (climb, folder_at, e, y) at h in ground arith
    | inr ne ↦
        let other : c ≢ id = ground (arith, find_one-test (by_id c) l f e) in
        elim (Option-cases f.parent_id) [
          | inl z ↦ inr (inl (other, rw (parent_of, folder_at, e, z) refl))
          | inr (p, z) ↦ inr (
              inr (
                other,
                (p, rw (parent_of, folder_at, e, z) refl, rw (climb, folder_at, e, ne, z) at h),
              ))
        ]
  ]
]

other_parent :
    (id k : ℕ) (e : Edit) (l : List Folder)
    → k ≢ id
    → parent_of k (update (by_id id) (edited e) l) ≡ parent_of k l
other_parent id k e l n = ground (arith, parent_of-write id k e l)

no_parent :
    (id k : ℕ) (e : Edit) (l : List Folder)
    → parent_of k l ≡ none
    → parent_of k (update (by_id id) (edited e) l) ≡ none
no_parent id k e l n = ground (arith, parent_of-write id k e l)

-- Where the climb does not meet the folder, the way up is as before.
climb-Rooted :
    (n id c : ℕ) (e : Edit) (l : List Folder)
    → climb n id c l ≡ some false
    → Rooted (update (by_id id) (edited e) l) c
unfolding climb
climb-Rooted zero id c e l h = ground arith
climb-Rooted (suc n) id c e l h = elim (climb-step n id c l h) [
  | inl z ↦ missing (no_parent id c e l z)
  | inr (inl (other, z)) ↦ root (other_parent id c e l other ∙ z)
  | inr (inr (other, (p, z, up))) ↦
      child (other_parent id c e l other ∙ z) (climb-Rooted n id p e l up)
]

-- Is it known that the edit makes no loop?
abbrev pub IsClear : ℕ → (id : ℕ) → Place → List Folder → Type 0
IsClear n id stay l = Unit
IsClear n id (to_root org) l = Unit
IsClear n id (under parent) l = climb n id parent l ≡ some false

-- The folder that is edited: its way up goes on from its old parent or from the new one.
settled :
    (n id c : ℕ) (e : Edit) (l : List Folder) (place : Place) (old : Option ℕ)
    → IsClear n id place l
    → parent_of c (update (by_id id) (edited e) l) ≡ some (placed place old)
    → ((p : ℕ) → old ≡ some p → Rooted (update (by_id id) (edited e) l) p)
    → Rooted (update (by_id id) (edited e) l) c
settled n id c e l stay none clear h up = root h
settled n id c e l stay (some p) clear h up = child h (up p refl)
settled n id c e l (to_root org) old clear h up = root h
settled n id c e l (under parent) old clear h up = child h (climb-Rooted n id parent e l clear)

new_parent :
    (id c : ℕ) (e : Edit) (l : List Folder) (old : Option ℕ)
    → c == id ≡ true
    → parent_of c l ≡ some old
    → parent_of c (update (by_id id) (edited e) l) ≡ some (placed e.place old)
new_parent id c e l old y h = ground (arith, parent_of-write id c e l)

pub write-Rooted :
    (n id : ℕ) (e : Edit) (l : List Folder) {c : ℕ}
    → IsClear n id e.place l
    → Rooted l c
    → Rooted (update (by_id id) (edited e) l) c
write-Rooted n id e l clear (missing z) = missing (no_parent id _ e l z)
write-Rooted n id e l {c} clear (root z) = elim (Bool-cases (c == id)) [
  | inl y ↦
      settled n id c e l e.place none clear (new_parent id c e l none y z) (λ p h. ground arith)
  | inr ne ↦ root (other_parent id c e l (ground arith) ∙ z)
]
write-Rooted n id e l {c} clear (child {p = p} z r) = elim (Bool-cases (c == id)) [
  | inl y ↦ settled n id c e l e.place (some p) clear (new_parent id c e l (some p) y z) (λ q h.
      subst (Rooted (update (by_id id) (edited e) l)) (some-injective p q h)
        (write-Rooted n id e l clear r))
  | inr ne ↦ child (other_parent id c e l (ground arith) ∙ z) (write-Rooted n id e l clear r)
]
