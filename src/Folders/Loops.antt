-- ===== src/Folders/Loops.antt =====
-- No call of the controller makes a loop of folders.
use infram.Prelude.{
  ℕ, ◌≡◌, refl, sym, ap, ◌∙◌, inl, inr, true, false, Option, none, some, List, update, arith,
  Bool-cases, Option-cases, ◌==◌, if◌then◌else◌, ok, err, same, ==_iff, find_one-test, subst, given,
}
use infram.Organization.{has_organization_access}
use infram.Folders.{Folder, Tree, Context, by_id, folder_at, climb, access, update_folder_context}
use infram.Folders.Edit.{
  Edit, Place, Outcome, stay, to_root, under, placed, edited, write, relocate, belongs_to,
  move_to_root, may_move, move_under, move, finish, edit_folder,
}
use infram.Folders.Moves.{
  parent_of, IsTree, SameParents, Rooted, Rooted-same, IsClear, update_folder_context-SameParents,
  parent_of-write, write-Rooted,
}

answer : Tree → Outcome → Tree
answer v none = v
answer v (some (err code)) = v
answer v (some (ok w)) = w

relocate-SameParents :
    (n : ℕ) (f : Folder) (c : Context) (v w : Tree)
    → relocate n f c v ≡ some (ok w)
    → SameParents v.folders w.folders
unfolding relocate answer
relocate-SameParents n f c v w h k = elim (Bool-cases (same f.organization_id c.organization_id)) [
  | inl y ↦ ap (λ x. parent_of k (answer v x).folders) (sym (rw (relocate, y) at h))
  | inr ne ↦ elim (Option-cases (update_folder_context n f.id c f.organization_id v)) [
    | inl z ↦ let x = rw (relocate, ne, z) at h in ground arith
    | inr (x, z) ↦
        ap (λ u. parent_of k (answer v u).folders) (sym (rw (relocate, ne, z) at h))
        ∙ update_folder_context-SameParents n f.id c f.organization_id v x z k
  ]
]

move_to_root-SameParents :
    (n account : ℕ) (f : Folder) (org : Option (Option ℕ)) (v w : Tree)
    → move_to_root n account f org v ≡ some (ok w)
    → SameParents v.folders w.folders
unfolding move_to_root
move_to_root-SameParents n account f none v w h = relocate-SameParents n f _ v w h
move_to_root-SameParents n account f (some none) v w h = relocate-SameParents n f _ v w h
move_to_root-SameParents n account f (some (some org)) v w h =
    elim (Bool-cases (has_organization_access account (some org) v.members)) [
      | inl y ↦
          relocate-SameParents n f (belongs_to account (some org)) v w (rw (move_to_root, y) at h)
      | inr ne ↦ let x = rw (move_to_root, ne) at h in ground arith
    ]

move_under-SameParents :
    (n account : ℕ) (f : Folder) (parent : ℕ) (v w : Tree)
    → move_under n account f parent v ≡ some (ok w)
    → SameParents v.folders w.folders × (climb n f.id parent v.folders ≡ some false)
unfolding move_under
move_under-SameParents n account f parent v w h = elim (Option-cases (folder_at parent v.folders)) [
  | inl e ↦ let x = rw (move_under, e) at h in ground arith
  | inr (t, e) ↦ elim (Bool-cases (may_move account f t v.members)) [
    | inr ne ↦ let x = rw (move_under, e, ne) at h in ground arith
    | inl y ↦ elim (Option-cases (climb n f.id parent v.folders)) [
      | inl z ↦ let x = rw (move_under, e, y, z) at h in ground arith
      | inr (true, z) ↦ let x = rw (move_under, e, y, z) at h in ground arith
      | inr (false, z) ↦ (
        relocate-SameParents n f (belongs_to account (given t.organization_id)) v w
            (rw (move_under, e, y, z) at h),
        z,
      )
    ]
  ]
]

move-IsClear :
    (n account : ℕ) (f : Folder) (place : Place) (v w : Tree)
    → move n account f place v ≡ some (ok w)
    → SameParents v.folders w.folders × IsClear n f.id place v.folders
unfolding move answer
move-IsClear n account f stay v w h =
    ((λ k. ap (λ x. parent_of k (answer v x).folders) (sym h)), tt)
move-IsClear n account f (to_root org) v w h = (move_to_root-SameParents n account f org v w h, tt)
move-IsClear n account f (under parent) v w h = move_under-SameParents n account f parent v w h

finish_ok :
    (id : ℕ) (e : Edit) (o : Outcome) (v w : Tree)
    → finish id e o ≡ some (ok w)
    → (x : Tree) × (o ≡ some (ok x)) × (write id e x ≡ w)
unfolding answer
finish_ok id e none v w h = ground arith
finish_ok id e (some (err code)) v w h = ground arith
finish_ok id e (some (ok x)) v w h = (x, refl, ap (answer v) h)

pub id-folder_at : (id : ℕ) (l : List Folder) (f : Folder) → folder_at id l ≡ some f → f.id ≡ id
unfolding folder_at
id-folder_at id l f h = (==_iff f.id id).0 (find_one-test (by_id id) l f h)

write-SameParents :
    (id : ℕ) (e : Edit) (v x : Tree)
    → SameParents v.folders x.folders
    → SameParents (update (by_id id) (edited e) v.folders) (write id e x).folders
unfolding write
write-SameParents id e v x s k =
    parent_of-write id k e x.folders
    ∙ (ap (λ o. if k == id then elim o [ none ↦ none | some p ↦ some (placed e.place p) ] else o)
          (s k)
        ∙ sym (parent_of-write id k e v.folders))

-- An edit that is not refused keeps the folders a tree: where no folder was below itself, none is
-- afterwards.
pub edit_folder-IsTree :
    (n account id : ℕ) (e : Edit) (v w : Tree)
    → edit_folder n account id e v ≡ some (ok w)
    → IsTree v.folders
    → IsTree w.folders
unfolding edit_folder
edit_folder-IsTree n account id e v w h t c = elim (Option-cases (folder_at id v.folders)) [
  | inl z ↦ let x = rw (edit_folder, z) at h in ground arith
  | inr (f, z) ↦ elim (Bool-cases (access account f v.members)) [
    | inr ne ↦ let x = rw (edit_folder, z, ne) at h in ground arith
    | inl y ↦
        let (x, done, last) =
          finish_ok id e (move n account f e.place v) v w (rw (edit_folder, z, y) at h) in
        let (same_parents, clear) = move-IsClear n account f e.place v x done in
        subst (λ u. Rooted u.folders c) last
          (Rooted-same (write-SameParents id e v x same_parents) (
            write-Rooted n id e v.folders
              (subst (λ i. IsClear n i e.place v.folders) (id-folder_at id v.folders f z) clear)
              (t c)))
  ]
]
