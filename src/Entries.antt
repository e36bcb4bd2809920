-- ===== src/Entries.antt =====
-- server/controllers/entry.js: the entries, which are the servers of an account or of an
-- organization. The tables are those of Folders; the names and the connections are kept there too.
pub mod Tests
pub mod Editing
pub mod Links
pub mod Moving
pub mod Numbering
pub mod Neighbours
pub mod Place
pub mod Placing
pub mod Leaving
pub mod Importing
pub mod Recent
pub mod Bounds
pub mod Resolving
pub mod Resolved
use Prim.Native.String.{String, ◌++◌ as append}
use infram.Prelude.{
  ℕ, Bool, true, false, not, ◌&&◌, ◌||◌, Option, none, some, List, [], ◌∷◌, ◌++◌, ◌==◌, same,
  is_some, if◌then◌else◌, find_one, find_all, destroy, update, any, map, Result, ok, err, or_err,
  guard, ◌>>=◌, ◌>>◌, given, is_none, is_one_of,
}
use infram.Models.{
  Protocol, ssh, telnet, rdp, vnc, EntryType, Renderer, terminal, guac, Config, Entry,
}
use infram.Organization.{Member, has_organization_access}
use infram.Identities.{EntryIdentity, list_identities}
use infram.Folders.{Folder, Tree, Context, folder_at}

unfoldable pub entry_at : ℕ → List Entry → Option Entry
entry_at id entries = find_one (λ e. e.id == id) entries

-- `RENDERER_BY_PROTOCOL`
abbrev pub renderer_by_protocol : Protocol → Renderer
renderer_by_protocol ssh = terminal
renderer_by_protocol telnet = terminal
renderer_by_protocol rdp = guac
renderer_by_protocol vnc = guac

-- `entry.folderId ? await Folder.findByPk(entry.folderId) : null`
abbrev pub folder_of : Option ℕ → List Folder → Option Folder
folder_of id folders = elim (given id) [ none ↦ none | some f ↦ folder_at f folders ]

-- Whose entry it is: the folder's, or its own where there is no folder.
abbrev pub owner_of : Entry → Option Folder → Context
owner_of e none = record { organization_id = e.organization_id; account_id = e.account_id }
owner_of e (some f) = record { organization_id = f.organization_id; account_id = f.account_id }

-- May the account use what belongs to the organization, or else to the account?
abbrev pub may_use : (account : ℕ) → Context → List Member → Bool
may_use account c members =
    if is_some (given c.organization_id)
    then has_organization_access account c.organization_id members
    else same c.account_id (some account)

unfoldable pub validate_entry_access : (account : ℕ) → Option Entry → Tree → Result Entry
validate_entry_access account none v = err 404
validate_entry_access account (some e) v = do
  guard (may_use account (owner_of e (folder_of e.folder_id v.folders)) v.members) 403
  ok e

-- `validateFolderAccess` of utils/permission.js
unfoldable pub validate_folder_access : (account id : ℕ) → Tree → Result Folder
validate_folder_access account id v = do
  f ← or_err (folder_at id v.folders) 404
  guard
      (may_use account (record { organization_id = f.organization_id; account_id = f.account_id })
        v.members)
      403
  ok f

unfoldable pub accessible_ids : (account : ℕ) → Tree → List ℕ
accessible_ids account v = map (λ i. i.id) (list_identities account v.identities v.members)

unfoldable pub validate_identities :
    (account : ℕ) → List ℕ → (org : Option ℕ) → Tree → Result (Unit {0})
validate_identities account [] org v = ok tt
validate_identities account (i ∷ is) org v = do
  guard (not (any (λ id. not (is_one_of (accessible_ids account v) id)) (i ∷ is))) 403
  guard (is_none (given org) || has_organization_access account org v.members) 403

abbrev pub protocol_of : Option Config → Option Protocol
protocol_of none = none
protocol_of (some c) = c.protocol

abbrev is_ssh : Option Protocol → Bool
is_ssh (some ssh) = true
is_ssh _ = false

unfoldable pub validate_jump_hosts : (account : ℕ) → List ℕ → Tree → Result (Unit {0})
validate_jump_hosts account [] v = ok tt
validate_jump_hosts account (id ∷ ids) v =
    let rest = validate_jump_hosts account ids v in
    do
      e ← or_err (entry_at id v.entries) 404
      guard (is_ssh (protocol_of e.config)) 400
      _ ← validate_entry_access account (some e) v
      rest

-- What `createEntry` is called with. A list that is missing is empty.
pub record Creation : Type 0 where
  pub name : String
  pub kind : EntryType
  pub renderer : Option Renderer
  pub icon : Option ℕ
  pub folder_id : Option ℕ
  pub organization_id : Option ℕ
  pub identities : List ℕ
  pub config : Config

abbrev pub hosts_of : Option (List ℕ) → List ℕ
hosts_of none = []
hosts_of (some hosts) = hosts

-- The icon "server".
abbrev pub server_icon : ℕ
server_icon = 1

-- The renderer that is asked for, or else the one of the protocol.
abbrev renderer_for : Option Renderer → Option Protocol → Option Renderer
renderer_for none none = none
renderer_for none (some p) = some (renderer_by_protocol p)
renderer_for (some r) p = some r

-- The loop that links an entry to identities; the first one is the default, where `first` is true.
-- The list is taken to name no identity twice: the table would refuse the second row.
abbrev pub links_for : (entry : ℕ) → (first : Bool) → List ℕ → List EntryIdentity
links_for entry first [] = []
links_for entry first (id ∷ ids) =
    record { entry_id = entry; identity_id = id; is_default = first } ∷ links_for entry false ids

-- The folder of a new entry, if it has one.
unfoldable pub creation_folder : (account : ℕ) → Option ℕ → Tree → Result (Option Folder)
creation_folder account none v = ok none
creation_folder account (some id) v = do f ← validate_folder_access account id v; ok (some f)

abbrev creation_organization : Creation → Option Folder → Option ℕ
creation_organization c none = given c.organization_id
creation_organization c (some f) = given f.organization_id

abbrev created_entry : (account fresh : ℕ) → Creation → (org : Option ℕ) → Entry
created_entry account fresh c org = record {
  id = fresh;
  name = c.name;
  account_id = if is_some org then none else some account;
  organization_id = org;
  folder_id = given c.folder_id;
  kind = c.kind;
  renderer = renderer_for c.renderer c.config.protocol;
  icon = elim (given c.icon) [ none ↦ some server_icon | some i ↦ some i ];
  position = 0;
  config = some c.config;
}

unfoldable pub create_entry : (account fresh : ℕ) → Creation → Tree → Result Tree
create_entry account fresh c v = do
  folder ← creation_folder account (given c.folder_id) v
  let org = creation_organization c folder
  guard (is_some folder || (is_none org || has_organization_access account org v.members)) 403
  validate_identities account c.identities org v
  validate_jump_hosts account (hosts_of c.config.jump_hosts) v
  ok (record v {
    entries = v.entries ++ created_entry account fresh c org ∷ [];
    entry_identities = v.entry_identities ++ links_for fresh true c.identities;
  })

-- What the database deletes with the row is not part of the model.
unfoldable pub delete_entry : (account id : ℕ) → Tree → Result Tree
delete_entry account id v = do
  _ ← validate_entry_access account (entry_at id v.entries) v
  ok (record v { entries = destroy (λ e. e.id == id) v.entries })

-- `ordered` is the database's `order: [['isDefault', 'DESC']]`.
unfoldable pub get_entry :
    (ordered : List EntryIdentity → List EntryIdentity)
    → (account id : ℕ) → Tree
    → Result (Entry × List ℕ)
get_entry ordered account id v = do
  e ← validate_entry_access account (entry_at id v.entries) v
  ok (
    e,
    find_all (is_one_of (accessible_ids account v))
        (map (λ l. l.identity_id) (ordered (find_all (λ l. l.entry_id == id) v.entry_identities))),
  )

abbrev relinked : (entry : ℕ) → EntryIdentity → EntryIdentity
relinked entry l = record l { entry_id = entry }

unfoldable pub duplicate_entry :
    (ordered : List EntryIdentity → List EntryIdentity)
    → (account id fresh : ℕ) → Tree
    → Result Tree
duplicate_entry ordered account id fresh v = do
  e ← or_err (entry_at id v.entries) 404
  _ ← validate_entry_access account (some e) v
  ok (record v {
    entries = v.entries ++ record e { id = fresh; name = append e.name " (Copy)" } ∷ [];
    entry_identities =
        v.entry_identities
        ++ map (relinked fresh) (ordered (find_all (λ l. l.entry_id == id) v.entry_identities));
  })
