-- ===== src/ServerSessions/Tests.antt =====
-- The theorems on the requests of serverSession.js at concrete inputs.
use infram.Prelude.{
  ◌≡◌, ◌≤◌, ◌+◌, ◌*◌, refl, true, none, some, [], ◌∷◌, List, ok, ℕ, answer_of, arith, find_one,
  find_all, any, get, set,
}
use infram.Models.{Entry, telnet}
use infram.Organization.{has_organization_access, get_active_org_ids}
use infram.Audit.{get_org_audit_settings}
use infram.Identities.{list_identities, EntryIdentity}
use infram.SessionManager.{Session, find, create}
use infram.SessionManager.Sharing.{shared, start_sharing}
use infram.SessionManager.Tests.{opened, find-one_session}
use infram.Entries.{entry_at, validate_entry_access, accessible_ids}
use infram.Entries.Resolving.{resolve_identity, may_sign_in_with, first_usable}
use infram.Entries.Tests.{estate, shared_server, shell}
use infram.ServerSessions.{
  World, Request, manager_of, create_session, identity_for, validate_session_ownership,
}
use infram.ServerSessions.Calls.{
  Share, share_session, sharing_policy, hour, audit_share, expires_at,
}
use infram.ServerSessions.Guards.{IsAllowed, create_session-IsAllowed, share_session-bounds}
use infram.ServerSessions.Isolation.{Call, creates, run, run-find}

-- Session 7 of account 1 on entry 3 of organization 2, whose settings are the default ones.
abbrev world : World
world = record {
  tree = estate;
  credentials = [];
  accounts = record { id = 1; session_sync = none } ∷ [];
  journal = record { logs = []; next = 1; stored = [] };
}

abbrev request : Request
request = record {
  identity_id = some 6;
  connection_reason = none;
  kind = none;
  direct_identity = none;
  tab_id = none;
  browser_id = none;
  script_id = none;
  start_path = none;
}

abbrev as_listed : List EntryIdentity → List EntryIdentity
as_listed l = l

abbrev connected : World
connected = answer_of world (create_session as_listed 1 3 8 2000 request world)

create_session-world : create_session as_listed 1 3 8 2000 request world ≡ ok connected
unfolding create_session entry_at find_one validate_entry_access has_organization_access
    get_org_audit_settings get identity_for resolve_identity may_sign_in_with any accessible_ids
    list_identities find_all get_active_org_ids
create_session-world = refl

create_session-IsAllowed_example :
    (s : Session) × (find 8 (manager_of connected) ≡ some s) × IsAllowed 1 3 world s
create_session-IsAllowed_example =
    create_session-IsAllowed as_listed 1 3 8 2000 request world connected (omega arith)
      create_session-world

-- Account 1 shares its session for 48 hours; the limit is 24.
abbrev share : Share
share = record { share_id = some 9; writable = true; expires_at = 86402000 }

abbrev sharing : World
sharing = (answer_of (world, share) (share_session 1 7 9 2000 true 48 world)).0

share_session-world : share_session 1 7 9 2000 true 48 world ≡ ok (sharing, share)
unfolding share_session validate_session_ownership get create set sharing_policy
    get_org_audit_settings entry_at find_one audit_share start_sharing expires_at
share_session-world = refl

share_session-bounds_example :
    (s : Session) × (link : ℕ) × (find 7 (manager_of world) ≡ some s)
    × (s.account_id ≡ 1)
    × (share.expires_at ≤ 2000 + 48 * hour)
    × (share.expires_at ≤ 2000 + (sharing_policy s world).share_max_hours * hour)
    × ((sharing_policy s world).allow_session_sharing ≡ true)
    × (true ≡ true → (sharing_policy s world).allow_writable_sharing ≡ true)
    × (share.share_id ≡ some link)
    × (find 7 (manager_of sharing) ≡ some (shared link true share.expires_at s))
share_session-bounds_example =
    share_session-bounds 1 7 9 2000 true 48 world sharing share share_session-world

-- Account 5 opens a session on its own entry 20; session 7 is of account 1.
abbrev own_server : Entry
own_server = record shared_server {
  id = 20;
  account_id = some 5;
  organization_id = none;
  config = some (record shell { protocol = some telnet });
}

abbrev busy : World
busy = record world { tree = record estate { entries = shared_server ∷ own_server ∷ [] } }

abbrev visit : Call
visit = creates 20 (record request { identity_id = none })

abbrev visited : World
visited = answer_of busy (run as_listed 5 8 2000 visit busy)

run-busy : run as_listed 5 8 2000 visit busy ≡ ok visited
unfolding create_session entry_at find_one validate_entry_access has_organization_access
    get_org_audit_settings get identity_for resolve_identity may_sign_in_with any accessible_ids
    list_identities find_all get_active_org_ids first_usable
run-busy = refl

unused : find 8 (manager_of busy) ≡ none
unfolding get create set
unused = refl

run-find_example : find 7 (manager_of visited) ≡ some opened
run-find_example =
    run-find as_listed 5 8 2000 7 visit busy visited opened run-busy unused find-one_session
      (omega arith)
