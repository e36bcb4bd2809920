-- ===== src/Entries/Editing.antt =====
-- `editEntry` of server/controllers/entry.js.
use Prim.Native.String.{String}
use infram.Prelude.{
  ℕ, Bool, not, ◌&&◌, Option, none, some, List, [], ◌++◌, ◌==◌, is_some, if◌then◌else◌, destroy,
  update, any, Result, ok, err, ◌>>=◌, given, is_one_of,
}
use infram.Models.{EntryType, Renderer, Config, Entry}
use infram.Identities.{EntryIdentity, or_else}
use infram.Folders.{Tree, Context}
use infram.Entries.{
  entry_at, renderer_by_protocol, validate_entry_access, validate_folder_access, accessible_ids,
  validate_identities, protocol_of, validate_jump_hosts, links_for, hosts_of,
}

-- What `editEntry` is called with: a field that is missing is `none`. The folder may also be null.
pub record Edit : Type 0 where
  pub name : Option String
  pub kind : Option EntryType
  pub renderer : Option Renderer
  pub icon : Option ℕ
  pub folder_id : Option (Option ℕ)
  pub identities : Option (List ℕ)
  pub config : Option Config

-- `scope`, which has the owner of the new folder; it is empty where no folder is asked for.
unfoldable pub edit_scope : (account : ℕ) → Option (Option ℕ) → Tree → Result (Option Context)
edit_scope account none v = ok none
edit_scope account (some none) v = ok none
edit_scope account (some (some id)) v = do
  f ← validate_folder_access account id v
  ok (
      some (record {
        organization_id = given f.organization_id;
        account_id = if is_some (given f.organization_id) then none else some account;
      }))

abbrev pub target_organization : Option Context → Entry → Option ℕ
target_organization none e = e.organization_id
target_organization (some scope) e = scope.organization_id

-- The links of the entry to identities that the account can use.
abbrev pub is_replaced : (account entry : ℕ) → Tree → EntryIdentity → Bool
is_replaced account entry v l =
    l.entry_id == entry && is_one_of (accessible_ids account v) l.identity_id

unfoldable pub replace_identities : (account entry : ℕ) → List ℕ → Tree → Tree
replace_identities account entry ids v =
    let kept = destroy (is_replaced account entry v) v.entry_identities in
    let has_default = any (λ l. l.entry_id == entry && l.is_default) kept in
    record v { entry_identities = kept ++ links_for entry (not has_default) ids }

-- The identities are replaced if a list of them is given and may be used.
unfoldable pub edit_identities :
    (account entry : ℕ) → Option (List ℕ) → (target : Option ℕ) → Tree → Result Tree
edit_identities account entry none target v = ok v
edit_identities account entry (some ids) target v = do
  _ ← validate_identities account ids target v
  ok (replace_identities account entry ids v)

abbrev pub jump_hosts_of : Option Config → List ℕ
jump_hosts_of none = []
jump_hosts_of (some c) = hosts_of c.jump_hosts

abbrev edited_renderer : Edit → Entry → Option Renderer
edited_renderer c e = elim (protocol_of c.config) [
  | none ↦ elim c.renderer [ none ↦ e.renderer | some r ↦ some r ]
  | some p ↦ some (renderer_by_protocol p)
]

abbrev scoped : Option Context → Entry → Entry
scoped none e = e
scoped (some scope) e = record e {
  organization_id = scope.organization_id;
  account_id = scope.account_id;
}

-- `{ ...configuration, ...scope }`
unfoldable pub edited : Edit → Option Context → Entry → Entry
edited c scope e = scoped scope (record e {
  name = or_else c.name e.name;
  kind = or_else c.kind e.kind;
  renderer = edited_renderer c e;
  icon = elim c.icon [ none ↦ e.icon | some i ↦ some i ];
  folder_id = or_else c.folder_id e.folder_id;
  config = elim c.config [ none ↦ e.config | some config ↦ some config ];
})

abbrev pub write : (id : ℕ) → Edit → Option Context → Tree → Tree
write id c scope v = record v { entries = update (λ e. e.id == id) (edited c scope) v.entries }

-- The jump hosts are looked at after the identities are written: where they are refused, the tables
-- have changed.
unfoldable pub finish_edit :
    (account id : ℕ) → Edit → Option Context → Tree → Tree × Result (Unit {0})
finish_edit account id c scope v = elim (validate_jump_hosts account (jump_hosts_of c.config) v) [
  | err code ↦ (v, err code)
  | ok u ↦ (write id c scope v, ok tt)
]

abbrev pub checked_edit : (account id : ℕ) → Edit → Tree → Result (Entry × Option Context)
checked_edit account id c v = do
  e ← validate_entry_access account (entry_at id v.entries) v
  scope ← edit_scope account c.folder_id v
  ok (e, scope)

unfoldable pub edit_entry : (account id : ℕ) → Edit → Tree → Tree × Result (Unit {0})
edit_entry account id c v = elim (checked_edit account id c v) [
  | err code ↦ (v, err code)
  | ok found ↦
      elim (edit_identities account id c.identities (target_organization found.1 found.0) v) [
        | err code ↦ (v, err code)
        | ok w ↦ finish_edit account id c found.1 w
      ]
]
