-- ===== src/Folders/Enough.antt =====
-- How much fuel an edit needs.
use infram.Prelude.{
  ℕ, ◌+◌, ◌≡◌, ◌≤◌, ◌<◌, refl, sym, inl, inr, none, some, List, [], ◌∷◌, arith, Bool-cases,
  Option-cases, Result, ok, err, same, In, find_one-In, given,
}
use infram.Organization.{has_organization_access}
use infram.Folders.{Folder, Tree, Context, by_id, folder_at, access}
use infram.Folders.Edit.{
  Edit, Place, Outcome, stay, to_root, under, relocate, belongs_to, move_to_root, may_move,
  move_under, move, write, finish, edit_folder,
}
use infram.Folders.Moves.{parent_of, IsTree}
use infram.Folders.Loops.{id-folder_at}
use infram.Folders.Depth.{
  depth, depth_unique, above, climb-total, IsRanked, update_folder_context-total,
}

-- The identifier is the key of the table.
abbrev pub UniqueFolders : List Folder → Type 0
UniqueFolders l = (f : Folder) → In f l → folder_at f.id l ≡ some f

-- The depths of the folders, added up.
unfoldable pub heights : {l : List Folder} → IsTree l → List Folder → ℕ
unfolding depth
heights t [] = 0
heights t (f ∷ fs) = depth (t f.id) + heights t fs

In-heights :
    {l : List Folder} (t : IsTree l) (fs : List Folder) (f : Folder)
    → In f fs
    → depth (t f.id) ≤ heights t fs
unfolding heights
In-heights t [] f i = elim i [ ]
In-heights t (g ∷ fs) f (inl e) = rw e (omega arith)
In-heights t (g ∷ fs) f (inr i) = let low = In-heights t fs f i in omega arith

tree-IsRanked :
    {l : List Folder} (t : IsTree l) → UniqueFolders l → IsRanked (λ c. depth (t c)) (heights t l) l
unfolding parent_of
tree-IsRanked {l} t u f i = (
  In-heights t l f i,
  λ p h.
      let (s, less) = above (t f.id) p (rw (parent_of, u f i, h) refl) in
      rw (depth_unique (t p) s) less,
)

abbrev Answers : Outcome → Type 0
Answers o = (r : Result Tree) × (o ≡ some r)

module _ (n account : ℕ) (v : Tree) (t : IsTree v.folders) (u : UniqueFolders v.folders)
    (enough : heights t v.folders < n) where
  relocate-total : (f : Folder) (c : Context) → In f v.folders → Answers (relocate n f c v)
  unfolding relocate
  relocate-total f c i = elim (Bool-cases (same f.organization_id c.organization_id)) [
    | inl y ↦ (ok v, rw (relocate, y) refl)
    | inr ne ↦
        let low = In-heights t v.folders f i in
        let (w, e, _) =
          update_folder_context-total (λ c. depth (t c)) (heights t v.folders) n f.id c
            f.organization_id v (tree-IsRanked t u) low (omega arith) in
        (ok w, rw (relocate, ne, e) refl)
  ]

  move_under-total :
      (f : Folder) (parent : ℕ) → In f v.folders → Answers (move_under n account f parent v)
  unfolding move_under folder_at
  move_under-total f parent i = elim (Option-cases (folder_at parent v.folders)) [
    | inl e ↦ (err 404, rw (move_under, e) refl)
    | inr (target, e) ↦ elim (Bool-cases (may_move account f target v.members)) [
      | inr ne ↦ (err 403, rw (move_under, e, ne) refl)
      | inl y ↦
          let low = In-heights t v.folders target (find_one-In (by_id parent) v.folders target e) in
          let (looped, z) =
            climb-total n f.id parent (t parent)
              (rw (sym (id-folder_at parent v.folders target e)) (omega arith)) in
          let done = relocate-total f (belongs_to account (given target.organization_id)) i in
          elim (Bool-cases looped) [
            | inl q ↦ (err 400, rw (move_under, e, y, z, q) refl)
            | inr q ↦ (done.0, rw (move_under, e, y, z, q) done.1)
          ]
    ]
  ]

  move-total : (f : Folder) (place : Place) → In f v.folders → Answers (move n account f place v)
  unfolding move move_to_root
  move-total f stay i = (ok v, refl)
  move-total f (to_root none) i = relocate-total f (belongs_to account none) i
  move-total f (to_root (some none)) i = relocate-total f (belongs_to account none) i
  move-total f (to_root (some (some org))) i =
      elim (Bool-cases (has_organization_access account (some org) v.members)) [
        | inl y ↦
            let (r, done) = relocate-total f (belongs_to account (some org)) i in
            (r, rw (move, move_to_root, y) done)
        | inr ne ↦ (err 403, rw (move, move_to_root, ne) refl)
      ]
  move-total f (under parent) i = move_under-total f parent i

finish-total : (id : ℕ) (e : Edit) (o : Outcome) → Answers o → Answers (finish id e o)
finish-total id e o (ok w, h) = (ok (write id e w), rw h refl)
finish-total id e o (err code, h) = (err code, rw h refl)

-- An edit of a tree of folders whose identifiers are unique returns, with an answer or a code, if
-- its fuel is more than the sum of the depths of the folders.
pub edit_folder-total :
    (n account id : ℕ) (e : Edit) (v : Tree) (t : IsTree v.folders)
    → UniqueFolders v.folders
    → heights t v.folders < n
    → (r : Result Tree) × (edit_folder n account id e v ≡ some r)
unfolding edit_folder folder_at
edit_folder-total n account id e v t u enough = elim (Option-cases (folder_at id v.folders)) [
  | inl z ↦ (err 404, rw (edit_folder, z) refl)
  | inr (f, z) ↦ elim (Bool-cases (access account f v.members)) [
    | inr ne ↦ (err 403, rw (edit_folder, z, ne) refl)
    | inl y ↦
        let (r, done) =
          finish-total id e (move n account f e.place v)
            (move-total n account v t u enough f e.place (find_one-In (by_id id) v.folders f z)) in
        (r, rw (edit_folder, z, y) done)
  ]
]
