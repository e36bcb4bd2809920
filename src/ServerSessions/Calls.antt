-- ===== src/ServerSessions/Calls.antt =====
-- server/controllers/serverSession.js: the calls on a session that is there.
use infram.Prelude.{
  ℕ, ◌+◌, ◌*◌, min, Bool, false, not, ◌||◌, Option, none, some, List, [], ◌∷◌, ◌==◌, is_some,
  find_one, Result, ok, or_err, guard, ◌>>=◌, ◌>>◌, given,
}
use infram.Models.{Entry}
use infram.Audit.Actions.{
  Action, share_start, share_stop, share_update, identity_credentials_access, entry, identity,
}
use infram.Audit.{Settings, default_audit_settings, get_org_audit_settings, create_audit_log}
use infram.Identities.{Vault, EntryIdentity, get_identity}
use infram.Identities.Credentials.{CredentialType, secret_of}
use infram.SessionManager.{Session, Connection, hibernate, resume, get_all, get_master_connection}
use infram.SessionManager.Release.{remove}
use infram.SessionManager.Sharing.{start_sharing, stop_sharing, update_share_permissions}
use infram.Entries.{entry_at}
use infram.ServerSessions.{
  World, Account, Sync, across_devices, same_browser, same_tab, Request, manager_of, with_manager,
  create_session, validate_session_ownership,
}

abbrev sync_of : Account → Sync
sync_of a = elim a.session_sync [ none ↦ same_browser | some s ↦ s ]

-- The arguments of `getAll` for the tab and for the browser.
abbrev listed_for : Sync → (tab browser : Option ℕ) → Option (Option ℕ) × Option (Option ℕ)
listed_for across_devices tab browser = (none, none)
listed_for same_browser tab browser = (none, some browser)
listed_for same_tab tab browser = (some tab, none)

-- `safeConfiguration`
abbrev without_direct_identity : ℕ × Session → ℕ × Session
without_direct_identity (id, s) =
    (id, record s { configuration = record s.configuration { direct_identity = none } })

unfoldable pub each_safe : List (ℕ × Session) → List (ℕ × Session)
each_safe [] = []
each_safe (x ∷ rest) = without_direct_identity x ∷ each_safe rest

-- The sessions, from which the answer is made. The names of the organizations are left out.
unfoldable pub get_sessions : (account : ℕ) → (tab browser : Option ℕ) → World → List (ℕ × Session)
get_sessions account tab browser w = elim (find_one (λ a. a.id == account) w.accounts) [
  | none ↦ []
  | some a ↦
      let wanted = listed_for (sync_of a) tab browser in
      each_safe (get_all account wanted.0 wanted.1 (manager_of w))
]

unfoldable pub get_session : (account session : ℕ) → World → Result (Session × Entry)
get_session account session w = do
  s ← validate_session_ownership account session w
  e ← or_err (entry_at s.entry_id w.tree.entries) 404
  ok (s, e)

unfoldable pub hibernate_session : (account session now : ℕ) → World → Result World
hibernate_session account session now w = do
  _ ← validate_session_ownership account session w
  let answer = hibernate session now (manager_of w)
  guard answer.1 404
  ok (with_manager answer.0 w)

unfoldable pub resume_session :
    (account session : ℕ) → (tab browser : Option ℕ) → (now : ℕ) → World → Result World
resume_session account session tab browser now w = do
  _ ← validate_session_ownership account session w
  let answer = resume session tab browser now (manager_of w)
  guard answer.1 404
  ok (with_manager answer.0 w)

-- `remove` is not waited for here, so the answer never is that it found nothing.
unfoldable pub delete_session : (account session : ℕ) → World → Result World
delete_session account session w = do
  _ ← validate_session_ownership account session w
  ok (with_manager (remove session (manager_of w)).0 w)

abbrev organization_of : Option Entry → Option ℕ
organization_of none = none
organization_of (some e) = given e.organization_id

unfoldable pub audit_share : (account now : ℕ) → Session → Action → World → World
audit_share account now s action w = record w {
  journal =
      (create_audit_log now
        (record {
          account_id = account;
          organization_id = organization_of (entry_at s.entry_id w.tree.entries);
          action = action;
          resource = entry;
          resource_id = some s.entry_id;
        })
        w.journal).0;
}

-- `sharingPolicy`: the settings of the organization of the entry.
unfoldable pub sharing_policy : Session → World → Settings
sharing_policy s w =
    elim (get_org_audit_settings (organization_of (entry_at s.entry_id w.tree.entries))
      w.journal.stored) [ none ↦ default_audit_settings | some settings ↦ settings ]

abbrev pub hour : ℕ
hour = 3600000

unfoldable pub expires_at : (hours now : ℕ) → Settings → ℕ
expires_at hours now s = now + min hours s.share_max_hours * hour

pub record Share : Type 0 where
  pub share_id : Option ℕ
  pub writable : Bool
  pub expires_at : ℕ

unfoldable pub share_session :
    (account session fresh now : ℕ)
    → (writable : Bool) → (hours : ℕ) → World
    → Result (World × Share)
share_session account session fresh now writable hours w = do
  s ← validate_session_ownership account session w
  let policy = sharing_policy s w
  guard policy.allow_session_sharing 403
  guard (not writable || policy.allow_writable_sharing) 403
  let expires = expires_at hours now policy
  let started = start_sharing session fresh writable expires (manager_of w)
  ok (
    audit_share account now s share_start (with_manager started.0 w),
    record { share_id = started.1; writable = writable; expires_at = expires },
  )

unfoldable pub unshare_session : (account session now : ℕ) → World → Result World
unshare_session account session now w = do
  s ← validate_session_ownership account session w
  ok (audit_share account now s share_stop (with_manager (stop_sharing session (manager_of w)).0 w))

unfoldable pub set_share_permissions :
    (account session now : ℕ) → (writable : Bool) → World → Result World
set_share_permissions account session now writable w = do
  s ← validate_session_ownership account session w
  guard (is_some s.share_id) 400
  guard (not writable || (sharing_policy s w).allow_writable_sharing) 403
  ok (
      audit_share account now s share_update
        (with_manager (update_share_permissions session writable (manager_of w)).0 w))

-- A session like another one, which is of the same account.
abbrev pub again : Session → (tab browser : Option ℕ) → Request
again s tab browser = record {
  identity_id = s.configuration.identity_id;
  connection_reason = s.connection_reason;
  kind = s.configuration.kind;
  direct_identity = s.configuration.direct_identity;
  tab_id = tab;
  browser_id = browser;
  script_id = s.configuration.script_id;
  start_path = s.configuration.start_path;
}

unfoldable pub duplicate_session :
    (ordered : List EntryIdentity → List EntryIdentity)
    → (account session fresh now : ℕ) → (tab browser : Option ℕ) → World
    → Result World
duplicate_session ordered account session fresh now tab browser w = do
  s ← validate_session_ownership account session w
  _ ← or_err (entry_at s.entry_id w.tree.entries) 404
  create_session ordered account s.entry_id fresh now (again s tab browser) w

abbrev pub vault_of : World → Vault
vault_of w = record {
  identities = w.tree.identities;
  credentials = w.credentials;
  entry_identities = w.tree.entry_identities;
  members = w.tree.members;
}

abbrev pub has_stream : Option Connection → Bool
has_stream none = false
has_stream (some c) = c.stream

-- The password is what is written to the stream; `writes` says whether that succeeds.
unfoldable pub paste_identity_password :
    (writes : Bool) → (account session now : ℕ) → World → Result (World × ℕ)
paste_identity_password writes account session now w = do
  s ← validate_session_ownership account session w
  id ← or_err (given s.configuration.identity_id) 400
  i ← get_identity account id (vault_of w)
  password ← or_err (secret_of id CredentialType.password w.credentials) 400
  guard (has_stream (get_master_connection session (manager_of w))) 400
  guard writes 500
  ok (
    record w {
      journal =
          (create_audit_log now
            (record {
              account_id = account;
              organization_id = organization_of (entry_at s.entry_id w.tree.entries);
              action = identity_credentials_access;
              resource = identity;
              resource_id = some i.id;
            })
            w.journal).0;
    },
    password,
  )
