-- ===== src/Entries/Tests.antt =====
-- The theorems on entries at concrete inputs.
use infram.Prelude.{
  ◌≡◌, ◌≤◌, ◌↔◌, refl, true, false, none, some, [], ◌∷◌, List, ok, arith, In, find_all, destroy,
  if◌then◌else◌, ◌==◌, ◌&&◌, is_one_of, Option, ℕ, length, find_one, any, update,
}
use infram.Audit.Actions.{ssh_connect, entry}
use infram.Audit.{AuditLog}
use infram.Models.{ssh as ssh_protocol, server, terminal, Config, Entry}
use infram.Organization.{get_active_org_ids, has_organization_access}
use infram.Identities.{Identity, EntryIdentity, list_identities}
use infram.Identities.Tests.{own_login, chief}
use infram.SessionManager.{Session, find}
use infram.SessionManager.Release.{remove_all_by_entry_id}
use infram.SessionManager.Tests.{one_session, one_session-Inv}
use infram.Folders.{Tree, Context}
use infram.Entries.{
  entry_at, accessible_ids, validate_entry_access, validate_identities, validate_jump_hosts,
}
use infram.Entries.Editing.{
  Edit, edit_entry, edit_scope, edit_identities, finish_edit, replace_identities, edited,
}
use infram.Entries.Links.{linked, defaults, linked-edit_entry}
use infram.Entries.Moving.{
  Target, reposition_entry, index_of, stands_in, may_move_into, target_context, target_index,
  leave_organization, insert_at, renumber,
}
use infram.Entries.Numbering.{UniqueEntries}
use infram.Entries.Place.{IsFolder, IsOwner}
use infram.Entries.Neighbours.{IsPlaced}
use infram.Entries.Placing.{standing, entry_at-reposition_entry}
use infram.Entries.Leaving.{IsOldLink, In-reposition_entry}
use infram.Entries.Recent.{
  Recent, keep_unique, shown, is_connection, get_recent_connections, is_own_connection,
}
use infram.Entries.Bounds.{UniqueRecents, Shows, get_recent_connections-bounds}

abbrev pub shell : Config
shell = record {
  protocol = some ssh_protocol;
  ip = some 50;
  port = some 22;
  jump_hosts = none;
  mac_address = none;
  wake_on_lan_enabled = false;
  wake_on_lan_broadcast = none;
}

-- Entry 3 of organization 2, and the entries 8 and 9 of account 1.
abbrev pub shared_server : Entry
shared_server = record {
  id = 3;
  name = "shared";
  account_id = none;
  organization_id = some 2;
  folder_id = none;
  kind = server;
  renderer = some terminal;
  icon = some 1;
  position = 0;
  config = some shell;
}

abbrev first : Entry
first = record shared_server { id = 8; name = "first"; account_id = some 1; organization_id = none }

abbrev second : Entry
second = record first { id = 9; name = "second"; position = 1 }

-- Identity 6 of organization 2.
abbrev shared_login : Identity
shared_login = record own_login { id = 6; account_id = none; organization_id = some 2 }

abbrev link : EntryIdentity
link = record { entry_id = 3; identity_id = 6; is_default = true }

abbrev pub estate : Tree
estate = record {
  folders = [];
  entries = shared_server ∷ first ∷ second ∷ [];
  entry_identities = link ∷ [];
  identities = own_login ∷ shared_login ∷ [];
  members = chief ∷ [];
  manager = one_session;
}

abbrev swap : Edit
swap = record {
  name = none;
  kind = none;
  renderer = none;
  icon = none;
  folder_id = none;
  identities = some (4 ∷ []);
  config = none;
}

abbrev swapped : Tree
swapped = record estate {
  entry_identities = record { entry_id = 3; identity_id = 4; is_default = true } ∷ [];
}

edit_entry-estate : edit_entry 1 3 swap estate ≡ (swapped, ok tt)
unfolding edit_entry validate_entry_access entry_at find_one has_organization_access edit_scope
    edit_identities validate_identities any accessible_ids list_identities find_all finish_edit
    validate_jump_hosts replace_identities update edited destroy get_active_org_ids
edit_entry-estate = refl

linked-edit_entry_example :
    (linked 3 6 swapped.entry_identities ≡ (
      if 3 == 3 && is_one_of (accessible_ids 1 estate) 6
      then is_one_of (4 ∷ []) 6
      else linked 3 6 estate.entry_identities))
    × (defaults 3 estate.entry_identities ≤ 1 → defaults 3 swapped.entry_identities ≤ 1)
linked-edit_entry_example =
    linked-edit_entry 1 3 swap estate swapped tt (4 ∷ []) 3 6 edit_entry-estate refl

-- Before entry 9, in the account's own list.
abbrev before_second : Target
before_second = record {
  target_id = some 9;
  after = false;
  folder_id = none;
  organization_id = none;
}

abbrev unsorted : List Entry → List Entry
unsorted l = l

abbrev own_server : Entry
own_server = record shared_server { account_id = some 1; organization_id = none; position = 1 }

abbrev rearranged : Tree
rearranged = record estate {
  entries = own_server ∷ first ∷ record second { position = 2 } ∷ [];
  entry_identities = [];
  manager = (remove_all_by_entry_id 3 one_session).0;
}

reposition_entry-estate : reposition_entry unsorted 1 3 before_second estate ≡ ok rearranged
unfolding reposition_entry validate_entry_access entry_at find_one has_organization_access
    may_move_into target_context target_index index_of destroy find_all leave_organization insert_at
    renumber update any
reposition_entry-estate = refl

estate-UniqueEntries : UniqueEntries estate.entries
unfolding index_of
estate-UniqueEntries = (refl, (refl, (refl, tt)))

entry_at-reposition_entry_example :
    (e : Entry) × (entry_at 3 estate.entries ≡ some e)
    × ((folder : Option ℕ) × IsFolder before_second e folder
        × ((c : Context) × IsOwner 1 before_second folder estate c
            × ((order : List Entry) × (destroy (λ e. e.id == 3) order
                  ≡ destroy
                      (λ e. e.id == 3)
                      (unsorted (find_all (stands_in folder c) estate.entries)))
                × IsPlaced before_second 3 order
                × ((j : ℕ)
                    → entry_at j rearranged.entries
                      ≡ standing 3 folder c (index_of j order) (entry_at j estate.entries)))))
entry_at-reposition_entry_example =
    entry_at-reposition_entry unsorted 1 3 before_second estate rearranged estate-UniqueEntries
      (λ l u. u) reposition_entry-estate

In-reposition_entry_example :
    ((l : EntryIdentity)
      → In l rearranged.entry_identities ↔ (
          In l estate.entry_identities
          × ¬ (IsOldLink 3 shared_server.organization_id estate.identities l)))
    × ((k : ℕ) (s : Session)
        → find k estate.manager ≡ some s
        → find k rearranged.manager ≡ (if s.entry_id == 3 then none else some s))
unfolding entry_at find_one
In-reposition_entry_example =
    In-reposition_entry unsorted 1 3 before_second estate rearranged shared_server own_server
      estate-UniqueEntries (λ l u. u) one_session-Inv reposition_entry-estate refl refl
      (λ h. ground arith)

abbrev connected : AuditLog
connected = record {
  id = 1;
  account_id = 1;
  organization_id = some 2;
  action = ssh_connect;
  resource = entry;
  resource_id = some 3;
  timestamp = 100;
}

abbrev every : ℕ → List AuditLog → List AuditLog
every n l = l

abbrev as_stored : List EntryIdentity → List EntryIdentity
as_stored l = l

get_recent_connections-bounds_example :
    (length (get_recent_connections every as_stored 1 5 (connected ∷ connected ∷ []) estate) ≤ 5)
    × UniqueRecents (get_recent_connections every as_stored 1 5 (connected ∷ connected ∷ []) estate)
    × ((r : Recent)
        → In r (get_recent_connections every as_stored 1 5 (connected ∷ connected ∷ []) estate)
        → (l : AuditLog) × In l (connected ∷ connected ∷ [])
          × (is_own_connection 1 (get_active_org_ids 1 estate.members) l ≡ true)
          × Shows l r)
get_recent_connections-bounds_example =
    get_recent_connections-bounds every as_stored 1 5 (connected ∷ connected ∷ []) estate
      (λ n l x i. i)

-- Two connections to one entry are shown once.
shown_once :
    length (get_recent_connections every as_stored 1 5 (connected ∷ connected ∷ []) estate) ≡ 1
unfolding get_recent_connections keep_unique shown find_all is_connection get_active_org_ids any
    entry_at find_one
shown_once = refl
