-- ===== src/Folders/Edit.antt =====
-- server/controllers/folder.js: `editFolder`, which renames a folder, moves it, or both.
use infram.Prelude.{
  ℕ, Bool, ◌&&◌, ◌||◌, Option, none, some, List, ◌==◌, if◌then◌else◌, same, is_some, update, Result,
  ok, err, given,
}
use infram.Organization.{Member, has_organization_access}
use infram.Folders.{Folder, Tree, Context, by_id, folder_at, access, climb, update_folder_context}

-- Where `parentId` puts the folder; for the root, the organization may be named as well.
pub data Place : Type 0 where
  stay : Place
  to_root : (organization_id : Option (Option ℕ)) → Place
  under : (parent : ℕ) → Place

pub record Edit : Type 0 where
  pub name : Option ℕ
  pub place : Place

-- Out of fuel, refused with a code, or done.
abbrev pub Outcome : Type 0
Outcome = Option (Result Tree)

-- The context changes only if the organization does.
unfoldable pub relocate : ℕ → Folder → Context → Tree → Outcome
relocate n f c v =
    if same f.organization_id c.organization_id
    then some (ok v)
    else elim (update_folder_context n f.id c f.organization_id v) [
      | none ↦ none
      | some w ↦ some (ok w)
    ]

abbrev pub belongs_to : (account : ℕ) → Option ℕ → Context
belongs_to account org = record {
  organization_id = org;
  account_id = if is_some (given org) then none else some account;
}

unfoldable pub move_to_root : ℕ → (account : ℕ) → Folder → Option (Option ℕ) → Tree → Outcome
move_to_root n account f none v = relocate n f (belongs_to account none) v
move_to_root n account f (some none) v = relocate n f (belongs_to account none) v
move_to_root n account f (some (some org)) v =
    if has_organization_access account (some org) v.members
    then relocate n f (belongs_to account (some org)) v
    else some (err 403)

-- The checks on the folder's organization and the target's.
unfoldable pub may_move : (account : ℕ) → (f target : Folder) → List Member → Bool
may_move account f target members =
    let from = has_organization_access account f.organization_id members in
    let to = has_organization_access account target.organization_id members in
    elim (given f.organization_id) [
      | none ↦ elim (given target.organization_id) [
        | none ↦ same target.account_id (some account)
        | some t ↦ to
      ]
      | some o ↦ elim (given target.organization_id) [ none ↦ from | some t ↦ t == o || from && to ]
    ]

unfoldable pub move_under : ℕ → (account : ℕ) → Folder → (parent : ℕ) → Tree → Outcome
move_under n account f parent v = elim (folder_at parent v.folders) [
  | none ↦ some (err 404)
  | some target ↦
      if may_move account f target v.members
      then elim (climb n f.id parent v.folders) [
        | none ↦ none
        | some looped ↦
            if looped
            then some (err 400)
            else relocate n f (belongs_to account (given target.organization_id)) v
      ]
      else some (err 403)
]

unfoldable pub move : ℕ → (account : ℕ) → Folder → Place → Tree → Outcome
move n account f stay v = some (ok v)
move n account f (to_root org) v = move_to_root n account f org v
move n account f (under parent) v = move_under n account f parent v

abbrev pub placed : Place → Option ℕ → Option ℕ
placed stay old = old
placed (to_root org) old = none
placed (under parent) old = some parent

abbrev pub named : Option ℕ → ℕ → ℕ
named none old = old
named (some name) old = name

abbrev pub edited : Edit → Folder → Folder
edited e f = record f { name = named e.name f.name; parent_id = placed e.place f.parent_id }

-- `Folder.update(configuration, { where: { id: folderId } })`
unfoldable pub write : (id : ℕ) → Edit → Tree → Tree
write id e v = record v { folders = update (by_id id) (edited e) v.folders }

abbrev pub finish : (id : ℕ) → Edit → Outcome → Outcome
finish id e none = none
finish id e (some (err code)) = some (err code)
finish id e (some (ok w)) = some (ok (write id e w))

-- The first argument bounds the depth of the tree; `none` says that it was too small.
unfoldable pub edit_folder : ℕ → (account id : ℕ) → Edit → Tree → Outcome
edit_folder n account id e v = elim (folder_at id v.folders) [
  | none ↦ some (err 404)
  | some f ↦
      if access account f v.members
      then finish id e (move n account f e.place v)
      else some (err 403)
]
