-- ===== src/Entries/Importing.antt =====
-- `importSSHConfig` of server/controllers/entry.js.
use Prim.Native.String.{String}
use text.Mathlib.Text.{◌==◌ as str_eq}
use infram.Prelude.{
  ℕ, suc, Bool, true, false, ◌&&◌, Option, none, some, List, [], ◌∷◌, ◌++◌, same, is_some,
  if◌then◌else◌, find_one, Result, ok, err, ◌>>=◌, given,
}
use infram.Models.{ssh, server, terminal, Entry}
use infram.Folders.{Tree}
use infram.Entries.{server_icon, links_for, validate_folder_access, validate_identities}

pub record Host : Type 0 where
  pub name : String
  pub ip : ℕ
  pub port : ℕ
  pub identities : List ℕ

-- One line of `details`, by the name of the host.
pub data Detail : Type 0 where
  imported : String → (entry : ℕ) → Detail
  skipped refused : String → Detail

-- The tables, the identifier of the next entry, and `results`.
pub record Import : Type 0 where
  pub tree : Tree
  pub next : ℕ
  pub imported_count : ℕ
  pub skipped_count : ℕ
  pub error_count : ℕ
  pub details : List Detail

abbrev pub is_named : (name : String) → (folder : ℕ) → (org : Option ℕ) → Entry → Bool
is_named name folder org e =
    str_eq e.name name && (same e.folder_id (some folder) && same e.organization_id org)

abbrev imported_entry : (account fresh folder : ℕ) → (org : Option ℕ) → Host → Entry
imported_entry account fresh folder org h = record {
  id = fresh;
  name = h.name;
  account_id = if is_some org then none else some account;
  organization_id = org;
  folder_id = some folder;
  kind = server;
  renderer = some terminal;
  icon = some server_icon;
  position = 0;
  config = some (record {
    protocol = some ssh;
    ip = some h.ip;
    port = some h.port;
    jump_hosts = none;
    mac_address = none;
    wake_on_lan_enabled = false;
    wake_on_lan_broadcast = none;
  });
}

abbrev add_host : (account folder : ℕ) → (org : Option ℕ) → Host → Import → Import
add_host account folder org h r = record r {
  tree = record r.tree {
    entries = r.tree.entries ++ imported_entry account r.next folder org h ∷ [];
    entry_identities = r.tree.entry_identities ++ links_for r.next true h.identities;
  };
  next = suc r.next;
  imported_count = suc r.imported_count;
  details = r.details ++ imported h.name r.next ∷ [];
}

unfoldable pub import_host : (account folder : ℕ) → (org : Option ℕ) → Import → Host → Import
import_host account folder org r h =
    if is_some (find_one (is_named h.name folder org) r.tree.entries)
    then record r {
      skipped_count = suc r.skipped_count;
      details = r.details ++ skipped h.name ∷ [];
    }
    else elim (validate_identities account h.identities org r.tree) [
      | err code ↦ record r {
        error_count = suc r.error_count;
        details = r.details ++ refused h.name ∷ [];
      }
      | ok u ↦ add_host account folder org h r
    ]

unfoldable pub import_hosts : (account folder : ℕ) → (org : Option ℕ) → List Host → Import → Import
import_hosts account folder org [] r = r
import_hosts account folder org (h ∷ hs) r =
    import_hosts account folder org hs (import_host account folder org r h)

abbrev nothing_imported : (fresh : ℕ) → Tree → Import
nothing_imported fresh v = record {
  tree = v;
  next = fresh;
  imported_count = 0;
  skipped_count = 0;
  error_count = 0;
  details = [];
}

unfoldable pub import_ssh_config : (account folder fresh : ℕ) → List Host → Tree → Result Import
import_ssh_config account folder fresh hosts v = do
  f ← validate_folder_access account folder v
  ok (import_hosts account folder (given f.organization_id) hosts (nothing_imported fresh v))
