-- ===== src/ServerSessions.antt =====
-- server/controllers/serverSession.js: what the users of the registry of connections may do with it.
-- A request is one step; `fresh` is the identifier that is drawn, and `now` is `Date.now()`.
pub mod Calls
pub mod Tests
mod Passed
mod Elsewhere
pub mod Guards
pub mod Isolation
use infram.Prelude.{
  ℕ, Bool, true, false, not, ◌&&◌, ◌||◌, Option, none, some, List, [], ◌∷◌, ◌==◌, is_some,
  if◌then◌else◌, find_one, Result, ok, err, or_err, guard, ◌>>=◌, ◌>>◌, given,
}
use infram.Models.{
  Protocol, ssh, telnet, rdp, vnc, EntryType, server, pve, plain, other, Renderer, SessionType,
  sftp, Entry,
}
use infram.Audit.Actions.{
  Action, ssh_connect, telnet_connect, rdp_connect, vnc_connect, pve_connect, script_execute,
  Resource, script, entry,
}
use infram.Audit.{Settings, Journal, Event, get_org_audit_settings, create_audit_log}
use infram.Identities.{EntryIdentity}
use infram.Identities.Credentials.{Credential}
use infram.SessionManager.{Configuration, Manager, Session, create, find}
use infram.SessionManager.Release.{remove}
use infram.Folders.{Tree}
use infram.Entries.{entry_at, protocol_of, validate_entry_access}
use infram.Entries.Resolving.{Resolution, direct, found, missing, is_pve, resolve_identity}

-- How the sessions of an account are shared between its tabs and browsers.
pub data Sync : Type 0 where
  across_devices same_browser same_tab : Sync

pub record Account : Type 0 where
  pub id : ℕ
  pub session_sync : Option Sync

pub record World : Type 0 where
  pub tree : Tree
  pub credentials : List Credential
  pub accounts : List Account
  pub journal : Journal

abbrev pub manager_of : World → Manager
manager_of w = w.tree.manager

abbrev pub with_manager : Manager → World → World
with_manager m w = record w { tree = record w.tree { manager = m } }

-- `ENTRY_TYPE_TO_AUDIT_ACTION[type] || AUDIT_ACTIONS.SSH_CONNECT`
abbrev protocol_action : Option Protocol → Action
protocol_action (some telnet) = telnet_connect
protocol_action (some rdp) = rdp_connect
protocol_action (some vnc) = vnc_connect
protocol_action _ = ssh_connect

abbrev entry_action : Entry → Action
entry_action e = elim e.kind [
  | server ↦ protocol_action (protocol_of e.config)
  | pve p ↦ pve_connect
  | plain p ↦ protocol_action (some p)
  | other ↦ ssh_connect
]

abbrev get_audit_action : Entry → (script_id : Option ℕ) → Action
get_audit_action e id = if is_some (given id) then script_execute else entry_action e

-- What `createSession` is called with. A reason or a path that is empty is `none`.
pub record Request : Type 0 where
  pub identity_id : Option ℕ
  pub connection_reason : Option ℕ
  pub kind : Option SessionType
  pub direct_identity : Option ℕ
  pub tab_id : Option ℕ
  pub browser_id : Option ℕ
  pub script_id : Option ℕ
  pub start_path : Option ℕ

abbrev pub is_ok {ℓ} : {A : Type ℓ} → Result A → Bool
is_ok (err code) = false
is_ok (ok a) = true

abbrev pub needs_reason : Option Settings → Bool
needs_reason none = false
needs_reason (some s) = s.require_connection_reason

-- The identifier of the identity, which is null for a direct one.
unfoldable pub identity_for : Resolution → Result (Option ℕ)
identity_for (direct d) = ok none
identity_for (found i) = ok (some i.id)
identity_for (missing requires_identity access_denied) = do
  guard (not access_denied) 403
  guard (not requires_identity) 400
  ok none

abbrev session_renderer : Option SessionType → Entry → Option Renderer
session_renderer (some sftp) e = some Renderer.sftp
session_renderer _ e = e.renderer

abbrev pub configuration_of : Request → Entry → (identity : Option ℕ) → Configuration
configuration_of r e identity = record {
  identity_id = identity;
  kind = r.kind;
  direct_identity = r.direct_identity;
  script_id = given r.script_id;
  start_path = r.start_path;
  renderer = session_renderer r.kind e;
}

abbrev pub connect_event : (account : ℕ) → Request → Entry → Event
connect_event account r e = record {
  account_id = account;
  organization_id = e.organization_id;
  action = get_audit_action e r.script_id;
  resource = if is_some (given r.script_id) then script else entry;
  resource_id = if is_some (given r.script_id) then r.script_id else some e.id;
}

abbrev pub opened :
    (account fresh now : ℕ) → Request → Entry → (identity : Option ℕ) → World → World
opened account fresh now r e identity w =
    let logged = create_audit_log now (connect_event account r e) w.journal in
    record (with_manager
      (create fresh account e.id (configuration_of r e identity) r.connection_reason r.tab_id
        r.browser_id logged.1 now (manager_of w))
      w) { journal = logged.0 }

-- The connection itself is made later: see `connection_failed`.
unfoldable pub create_session :
    (ordered : List EntryIdentity → List EntryIdentity)
    → (account id fresh now : ℕ) → Request
    → World
    → Result World
create_session ordered account id fresh now r w = do
  e ← or_err (entry_at id w.tree.entries) 404
  guard (is_ok (validate_entry_access account (some e) w.tree)) 403
  guard (not (is_some r.direct_identity && is_pve e.kind)) 400
  guard
      (not (needs_reason (get_org_audit_settings e.organization_id w.journal.stored))
        || is_some r.connection_reason)
      400
  identity ←
      identity_for
        (resolve_identity ordered e r.identity_id r.direct_identity (some account) w.tree)
  ok (opened account fresh now r e identity w)

-- `createConnectionForSession` was rejected.
unfoldable pub connection_failed : (session : ℕ) → World → World
connection_failed session w = with_manager (remove session (manager_of w)).0 w

-- `validateSessionOwnership`
unfoldable pub validate_session_ownership : (account session : ℕ) → World → Result Session
validate_session_ownership account session w = do
  s ← or_err (find session (manager_of w)) 404
  guard (s.account_id == account) 403
  ok s
