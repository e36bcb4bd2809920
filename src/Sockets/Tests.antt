-- ===== src/Sockets/Tests.antt =====
-- The theorem on web sockets at a concrete input.
use infram.Prelude.{
  ◌↔◌, Bool, true, ◌≡◌, refl, none, some, [], ◌∷◌, List, ok, get, set, modify, find_one, find_all,
  any,
}
use infram.Audit.{get_org_audit_settings}
use infram.Organization.{has_organization_access, get_active_org_ids}
use infram.Identities.{EntryIdentity, list_identities}
use infram.Identities.Tests.{own_login}
use infram.SessionManager.Tests.{opened, one_session, one_session-Inv}
use infram.SessionManager.{Manager}
use infram.SessionManager.Sharing.{shared, start_sharing, get_by_share_id}
use infram.SessionManager.Invariant.{Inv}
use infram.SessionManager.Invariant.Sharing.{start_sharing-Inv}
use infram.SessionManager.{create}
use infram.SignIn.{resolve_session, touch_session, is_expired}
use infram.SignIn.Tests.{server, signed, root}
use infram.Entries.{entry_at, validate_entry_access, accessible_ids}
use infram.Entries.Resolving.{found, resolve_identity, may_sign_in_with}
use infram.Entries.Tests.{estate, shared_server}
use infram.Sockets.{
  Hub, Query, Context, own_session, admit_entry, admit_target, authenticate_web_socket,
  admit_identity, authenticate, authenticate_shared_session,
}
use infram.Sockets.Guests.{IsShared, authenticate_shared_session-IsShared}
use infram.Sockets.Admitted.{IsLetIn, authenticate-IsLetIn}

abbrev hub : Hub
hub = record {
  world = record {
    tree = estate;
    credentials = [];
    accounts = record { id = 1; session_sync = none } ∷ [];
    journal = record { logs = []; next = 1; stored = [] };
  };
  sign_in = server;
}

-- Session 7 of the registry.
abbrev query : Query
query = record {
  session_token = some "secret";
  entry_id = none;
  session_id = some 7;
  identity_id = none;
  connection_reason = none;
}

abbrev as_read : List EntryIdentity → List EntryIdentity
as_read l = l

abbrev let_in : Context
let_in = record {
  admission = record {
    user = root;
    session = signed;
    entry = shared_server;
    server_session = some (record opened { last_activity = 2000 });
  };
  identity = found own_login;
  connection_reason = none;
}

authenticate-hub : (authenticate as_read query 2000 hub).1 ≡ ok let_in
unfolding authenticate authenticate_web_socket resolve_session touch_session find_one is_expired
    admit_target own_session create set get modify admit_entry entry_at validate_entry_access
    has_organization_access admit_identity get_org_audit_settings resolve_identity may_sign_in_with
    any accessible_ids list_identities find_all get_active_org_ids
authenticate-hub = refl

authenticate-IsLetIn_example : IsLetIn query 2000 hub (authenticate as_read query 2000 hub).0 let_in
authenticate-IsLetIn_example = authenticate-IsLetIn as_read query 2000 hub let_in authenticate-hub

-- Session 7 is shared by link 9 until 5000.
abbrev sharing : Manager
sharing = (start_sharing 7 9 true 5000 one_session).0

sharing-Inv : Inv sharing
unfolding create get
sharing-Inv = start_sharing-Inv 7 9 true 5000 one_session refl one_session-Inv

abbrev guest_hub : Hub
guest_hub = record hub { world = record hub.world { tree = record estate { manager = sharing } } }

authenticate_shared_session-IsShared_example :
    ((authenticate_shared_session 9 3000 guest_hub).1
      ≡ ok (shared_server, shared 9 true 5000 opened, true))
    ↔ (IsShared 9 3000 sharing (shared 9 true 5000 opened)
        × (entry_at 3 estate.entries ≡ some shared_server)
        × (◌≡◌ {A = Bool} true true))
authenticate_shared_session-IsShared_example =
    authenticate_shared_session-IsShared 9 3000 guest_hub shared_server (shared 9 true 5000 opened)
      true sharing-Inv

-- The guest is let in.
guest_let_in :
    (authenticate_shared_session 9 3000 guest_hub).1
    ≡ ok (shared_server, shared 9 true 5000 opened, true)
unfolding authenticate_shared_session get_by_share_id start_sharing create set get modify entry_at
    find_one
guest_let_in = refl
