-- ===== src/Folders/Depth.antt =====
-- How deep a recursion over the tree goes: the way up from a folder, and the way down.
use infram.Prelude.{
  ℕ, suc, zero, ◌+◌, ◌≡◌, ◌≤◌, ◌<◌, refl, sym, ap, ◌∙◌, inl, inr, Bool, true, false, Option, some,
  List, [], ◌∷◌, find_one, find_all, update, map, arith, Bool-cases, Option-cases, ◌==◌, same, In,
  In-find_all, same-eq, subst,
}
use infram.Folders.{
  Folder, Tree, Context, by_id, folder_at, climb, update_one, each, update_folder_context,
}
use infram.Folders.Moves.{parent_of, Rooted, missing, root, child, folders-update_one}

unfoldable pub depth : {l : List Folder} {c : ℕ} → Rooted l c → ℕ
depth (missing e) = 0
depth (root e) = 0
depth (child e r) = suc (depth r)

pub depth_unique : {l : List Folder} {c : ℕ} (r s : Rooted l c) → depth r ≡ depth s
unfolding depth
depth_unique (missing e) (missing f) = refl
depth_unique (missing e) (root f) = refl
depth_unique (root e) (missing f) = refl
depth_unique (root e) (root f) = refl
depth_unique (missing e) (child f s) = ground arith
depth_unique (root e) (child f s) = ground arith
depth_unique (child e r) (missing f) = ground arith
depth_unique (child e r) (root f) = ground arith
depth_unique {l} (child {p = p} e r) (child {p = q} f s) =
    let one : p ≡ q = ground arith in
    ap suc (subst (λ x. (t : Rooted l x) → depth r ≡ depth t) one (depth_unique r) s)

-- The parent is less deep.
pub above :
    {l : List Folder} {c : ℕ} (r : Rooted l c) (p : ℕ)
    → parent_of c l ≡ some (some p)
    → (s : Rooted l p) × (depth s < depth r)
unfolding depth
above (missing e) p h = ground arith
above (root e) p h = ground arith
above {l} (child {p = q} e r) p h =
    let one : q ≡ p = ground arith in
    subst (λ x. (s : Rooted l x) × (depth s < suc (depth r))) one (r, omega arith)

-- The climb from a folder needs no more steps than the folder is deep.
pub climb-total :
    (n id c : ℕ) {l : List Folder} (r : Rooted l c)
    → depth r < n
    → (b : Bool) × (climb n id c l ≡ some b)
unfolding climb depth parent_of folder_at
climb-total zero id c r h = ground arith
climb-total (suc n) id c {l} r h = elim (Option-cases (find_one (by_id c) l)) [
  | inl e ↦ (false, rw (climb, folder_at, e) refl)
  | inr (f, e) ↦ elim (Bool-cases (f.id == id)) [
    | inl y ↦ (true, rw (climb, folder_at, e, y) refl)
    | inr ne ↦ elim (Option-cases f.parent_id) [
      | inl z ↦ (false, rw (climb, folder_at, e, ne, z) refl)
      | inr (p, z) ↦
          let (s, less) = above r p (rw (parent_of, folder_at, e, z) refl) in
          let (b, found) = climb-total n id p s (omega arith) in
          (b, rw (climb, folder_at, e, ne, z) found)
    ]
  ]
]

-- A depth for every identifier, which grows on the way down and is bounded.
abbrev pub IsRanked : (ℕ → ℕ) → ℕ → List Folder → Type 0
IsRanked d most l =
    (f : Folder) → In f l → (d f.id ≤ most) × ((p : ℕ) → f.parent_id ≡ some p → d p < d f.id)

In-update :
    (p : Folder → Bool) (h : Folder → Folder) (l : List Folder) (g : Folder)
    → ((f : Folder) → ((h f).id ≡ f.id) × ((h f).parent_id ≡ f.parent_id))
    → In g (update p h l)
    → (f : Folder) × In f l × (g.id ≡ f.id) × (g.parent_id ≡ f.parent_id)
unfolding update
In-update p h [] g k i = elim i [ ]
In-update p h (f ∷ l) g k (inl e) = elim (Bool-cases (p f)) [
  | inl y ↦
      let z = rw y at e in
      (f, inl refl, ap (λ x. x.id) z ∙ (k f).0, ap (λ x. x.parent_id) z ∙ (k f).1)
  | inr ne ↦ let z = rw ne at e in (f, inl refl, ap (λ x. x.id) z, ap (λ x. x.parent_id) z)
]
In-update p h (f ∷ l) g k (inr i) = let (x, at, e, e') = In-update p h l g k i in (x, inr at, e, e')

In-map_ids :
    (l : List Folder) (i : ℕ) → In i (map (λ f. f.id) l) → (f : Folder) × In f l × (i ≡ f.id)
In-map_ids [] i at = elim at [ ]
In-map_ids (f ∷ l) i (inl e) = (f, inl refl, e)
In-map_ids (f ∷ l) i (inr at) = let (g, there, e) = In-map_ids l i at in (g, inr there, e)

module _ (d : ℕ → ℕ) (most : ℕ) where
  update_one-IsRanked :
      (id : ℕ) (c : Context) (old : Option ℕ) (v : Tree)
      → IsRanked d most v.folders
      → IsRanked d most (update_one id c old v).folders
  update_one-IsRanked id c old v k g i =
      let (f, at, e, same_parent) =
        In-update (by_id id)
          (λ f. record f { organization_id = c.organization_id; account_id = c.account_id })
          v.folders g (λ f. (refl, refl)) (subst (In g) (folders-update_one id c old v) i) in
      let (low, up) = k f at in (rw e low, λ p h. rw e (up p (sym same_parent ∙ h)))

  each-total :
      (f : ℕ → Tree → Option Tree) (ids : List ℕ) (v : Tree)
      → ((i : ℕ)
          → In i ids
          → (x : Tree) → IsRanked d most x.folders
          → (y : Tree) × (f i x ≡ some y) × IsRanked d most y.folders)
      → IsRanked d most v.folders
      → (w : Tree) × (each f ids v ≡ some w) × IsRanked d most w.folders
  unfolding each
  each-total f [] v h k = (v, refl, k)
  each-total f (i ∷ ids) v h k =
      let (x, e, kx) = h i (inl refl) v k in
      let (w, e', kw) = each-total f ids x (λ j at. h j (inr at)) kx in (w, rw (each, e) e', kw)

  pub update_folder_context-total :
      (n id : ℕ) (c : Context) (old : Option ℕ) (v : Tree)
      → IsRanked d most v.folders
      → d id ≤ most
      → most < n + d id
      → (w : Tree) × (update_folder_context n id c old v ≡ some w) × IsRanked d most w.folders
  unfolding update_folder_context
  update_folder_context-total zero id c old v k low h = ground arith
  update_folder_context-total (suc n) id c old v k low h =
      let u = update_one id c old v in
      let ranked = update_one-IsRanked id c old v k in
      each-total (λ i. update_folder_context n i c old)
        (map (λ f. f.id) (find_all (λ f. same f.parent_id (some id)) u.folders)) u
        (λ i at x kx.
          let (f, found, e) =
            In-map_ids (find_all (λ f. same f.parent_id (some id)) u.folders) i at in
          let (there, below) = In-find_all (λ f. same f.parent_id (some id)) u.folders f found in
          let (bounded, up) = ranked f there in
          let deeper = up id ((same-eq f.parent_id (some id)) below) in
          update_folder_context-total n i c old x kx (rw e bounded) (rw e (omega arith)))
        ranked
