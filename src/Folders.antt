-- ===== src/Folders.antt =====
-- server/controllers/folder.js: the tree of folders, each of an account or of an organization.
pub mod Edit
pub mod Moves
pub mod Loops
pub mod Depth
pub mod Enough
pub mod Creating
mod Tests
use infram.Prelude.{
  ℕ, suc, zero, Bool, true, false, not, ◌&&◌, ◌||◌, Option, none, some, List, [], ◌∷◌, ◌++◌, ◌==◌,
  if◌then◌else◌, same, is_some, find_one, find_all, destroy, update, any, map, Result, ok, err,
  or_err, guard, given, is_none, is_one_of, ◌>>=◌, ◌>>◌,
}
use infram.Models.{Entry}
use infram.Identities.{Identity, EntryIdentity}
use infram.Organization.{Member, has_organization_access}
use infram.SessionManager.{Manager}
use infram.SessionManager.Release.{remove_all_by_entry_id}

-- A name is kept as the number that stands for it.
pub record Folder : Type 0 where
  pub id : ℕ
  pub name : ℕ
  pub account_id : Option ℕ
  pub organization_id : Option ℕ
  pub parent_id : Option ℕ

pub record Tree : Type 0 where
  pub folders : List Folder
  pub entries : List Entry
  pub entry_identities : List EntryIdentity
  pub identities : List Identity
  pub members : List Member
  pub manager : Manager

abbrev pub by_id : ℕ → Folder → Bool
by_id id f = f.id == id

unfoldable pub folder_at : ℕ → List Folder → Option Folder
folder_at id folders = find_one (by_id id) folders

-- The connections of the entries end; the identities of the old organization are taken off them.
unfoldable pub remove_connections : List ℕ → Manager → Manager
remove_connections [] m = m
remove_connections (id ∷ ids) m = remove_connections ids (remove_all_by_entry_id id m).0

unfoldable pub is_identity_of : (org : ℕ) → List Identity → ℕ → Bool
is_identity_of org identities id =
    any (λ i. i.id == id && same i.organization_id (some org)) identities

unfoldable pub cleanup_organization_identities : List ℕ → (org : ℕ) → Tree → Tree
cleanup_organization_identities ids org v = record v {
  manager = remove_connections ids v.manager;
  entry_identities =
      destroy (λ l. is_one_of ids l.entry_id && is_identity_of org v.identities l.identity_id)
        v.entry_identities;
}

abbrev pub is_in : ℕ → Entry → Bool
is_in id e = same e.folder_id (some id)

-- The owner of a folder and of an entry: an account, an organization, or both or neither.
pub record Context : Type 0 where
  pub organization_id : Option ℕ
  pub account_id : Option ℕ

-- The two updates of `updateFolderContext` and the cleanup, for one folder.
unfoldable pub update_one : (id : ℕ) → Context → (old : Option ℕ) → Tree → Tree
update_one id c old v =
    let w = record v {
      folders =
          update (by_id id)
            (λ f. record f { organization_id = c.organization_id; account_id = c.account_id })
            v.folders;
      entries =
          update (is_in id)
            (λ e. record e { organization_id = c.organization_id; account_id = c.account_id })
            v.entries;
    } in
    elim (given old) [
      | none ↦ w
      | some org ↦
          if same (some org) c.organization_id
          then w
          else cleanup_organization_identities (map (λ e. e.id) (find_all (is_in id) v.entries)) org
              w
    ]

unfoldable pub each : (ℕ → Tree → Option Tree) → List ℕ → Tree → Option Tree
each f [] v = some v
each f (id ∷ ids) v = elim (f id v) [ none ↦ none | some w ↦ each f ids w ]

-- A folder, its entries and all that is below it. The first argument bounds the depth, and `none`
-- says that it was too small.
unfoldable pub update_folder_context :
    ℕ → (id : ℕ) → Context → (old : Option ℕ) → Tree → Option Tree
update_folder_context zero id c old v = none
update_folder_context (suc n) id c old v =
    let w = update_one id c old v in
    each (λ i. update_folder_context n i c old)
      (map (λ f. f.id) (find_all (λ f. same f.parent_id (some id)) w.folders)) w

-- Is a folder among another one and those above it?
unfoldable pub climb : ℕ → (id current : ℕ) → List Folder → Option Bool
climb zero id current folders = none
climb (suc n) id current folders = elim (folder_at current folders) [
  | none ↦ some false
  | some f ↦
      let above : Option Bool = elim f.parent_id [
        | none ↦ some false
        | some p ↦ climb n id p folders
      ] in
      if f.id == id then some true else above
]

-- May an account edit a folder?
unfoldable pub access : (account : ℕ) → Folder → List Member → Bool
access account f members = elim (given f.account_id) [
  | some owner ↦
      owner == account
      && (is_none (given f.organization_id)
          || has_organization_access account f.organization_id members)
  | none ↦
      is_none (given f.organization_id) || has_organization_access account f.organization_id members
]

pub record Creation : Type 0 where
  pub name : ℕ
  pub organization_id : Option ℕ
  pub parent_id : Option ℕ

-- The organization of a new folder: the one that is asked for, or else the parent's.
unfoldable pub organization_for : Creation → List Folder → Result (Option ℕ)
organization_for c folders =
    if is_some (given c.parent_id) && is_none (given c.organization_id)
    then elim (find_one (λ f. same (some f.id) c.parent_id) folders) [
      | none ↦ err 404
      | some p ↦
          ok (if is_some (given p.organization_id) then p.organization_id else c.organization_id)
    ]
    else ok c.organization_id

unfoldable pub may_create_in : (account : ℕ) → Option ℕ → Option ℕ → List Folder → Result (Unit {0})
may_create_in account org none folders = ok tt
may_create_in account org (some parent) folders = do
  p ← or_err (folder_at parent folders) 404
  guard
      (if is_some (given org) then same p.organization_id org else same p.account_id (some account))
      403

unfoldable pub create_folder : (account fresh : ℕ) → Creation → Tree → Result Tree
create_folder account fresh c v = do
  org ← organization_for c v.folders
  guard (is_none (given org) || has_organization_access account org v.members) 403
  may_create_in account org (given c.parent_id) v.folders
  ok (record v {
    folders =
        v.folders
        ++ record {
          id = fresh;
          name = c.name;
          account_id = if is_some (given org) then none else some account;
          organization_id = given org;
          parent_id = c.parent_id;
        }
          ∷ [];
  })
