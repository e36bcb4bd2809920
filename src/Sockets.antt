-- ===== src/Sockets.antt =====
-- server/middlewares/wsAuth.js: which web socket may use which entry, and with which identity. An
-- error is the code that the socket is closed with. The listener that notes the activity of the
-- sign-in session, the integration, the address and the browser's name are left out.
pub mod Admitted
pub mod Guests
mod Tests
use Prim.Native.String.{String}
use infram.Prelude.{
  ℕ, Bool, true, false, not, ◌&&◌, ◌||◌, Option, none, some, List, [], ◌∷◌, ◌==◌, is_some,
  if◌then◌else◌, Result, ok, err, or_err, guard, ◌>>=◌, ◌>>◌, given,
}
use infram.Models.{Entry}
use infram.Audit.{get_org_audit_settings}
use infram.Identities.{Identity, EntryIdentity}
use infram.SessionManager
use infram.SessionManager.{Manager, find, update_activity}
use infram.SessionManager.Sharing.{get_by_share_id}
use infram.SignIn
use infram.SignIn.{Account, Server, present, resolve_session}
use infram.Entries.{entry_at, validate_entry_access}
use infram.Entries.Resolving.{Resolution, direct, found, missing, resolve_identity}
use infram.ServerSessions.{World, manager_of, with_manager, is_ok, needs_reason}

-- The tables, and the sign-in sessions; the registry is that of `world`.
pub record Hub : Type 0 where
  pub world : World
  pub sign_in : Server

abbrev pub server_of : Hub → Server
server_of h = record h.sign_in { manager = manager_of h.world }

abbrev pub with_server : Server → Hub → Hub
with_server v h = record { world = with_manager v.manager h.world; sign_in = v }

abbrev on_manager : (Manager → Manager) → Hub → Hub
on_manager f h = record h { world = with_manager (f (manager_of h.world)) h.world }

-- The query of the request.
pub record Query : Type 0 where
  pub session_token : Option String
  pub entry_id : Option ℕ
  pub session_id : Option ℕ
  pub identity_id : Option ℕ
  pub connection_reason : Option ℕ

pub record Admission : Type 0 where
  pub user : Account
  pub session : SignIn.Session
  pub entry : Entry
  pub server_session : Option SessionManager.Session

unfoldable pub own_session :
    (user : Account) → (id now : ℕ) → Hub → Hub × Result SessionManager.Session
own_session user id now h = elim (find id (manager_of h.world)) [
  | none ↦ (h, err 4007)
  | some s ↦
      if s.account_id == user.id
      then (on_manager (update_activity id now) h, ok (record s { last_activity = now }))
      else (h, err 4003)
]

unfoldable pub admit_entry :
    Account → SignIn.Session → Option SessionManager.Session → Option ℕ → Hub → Result Admission
admit_entry user session s target h = or_err (given target) 4002 >>= λ id.
    or_err (entry_at id h.world.tree.entries) 4005 >>= λ e.
    guard (is_ok (validate_entry_access user.id (some e) h.world.tree)) 4005
    >> ok (record { user = user; session = session; entry = e; server_session = s })

unfoldable pub admit_target :
    Account → SignIn.Session → Query → (now : ℕ) → Hub → Hub × Result Admission
admit_target user session q now h = elim (given q.session_id) [
  | none ↦ (h, admit_entry user session none q.entry_id h)
  | some id ↦
      let (h', r) = own_session user id now h in
      (h', r >>= λ s. admit_entry user session (some s) (some s.entry_id) h')
]

unfoldable pub authenticate_web_socket : Query → (now : ℕ) → Hub → Hub × Result Admission
authenticate_web_socket q now h = elim (present q.session_token) [
  | none ↦ (h, err 4001)
  | some token ↦
      let r = resolve_session (some token) none now (server_of h) in
      elim r.1 [
        | none ↦ (with_server r.0 h, err 4003)
        | some signed ↦ admit_target signed.1 signed.0 q now (with_server r.0 h)
      ]
]

-- What a socket may use.
pub record Context : Type 0 where
  pub admission : Admission
  pub identity : Resolution
  pub connection_reason : Option ℕ

abbrev pub or_this : Option ℕ → Option ℕ → Option ℕ
or_this none b = b
or_this (some a) b = some a

-- What the session of the registry says goes before what the query says.
abbrev pub identity_id_of : Query → Option SessionManager.Session → Option ℕ
identity_id_of q none = q.identity_id
identity_id_of q (some s) = or_this (given s.configuration.identity_id) q.identity_id

abbrev pub direct_identity_of : Option SessionManager.Session → Option ℕ
direct_identity_of none = none
direct_identity_of (some s) = s.configuration.direct_identity

abbrev pub reason_of : Query → Option SessionManager.Session → Option ℕ
reason_of q none = q.connection_reason
reason_of q (some s) = or_this s.connection_reason q.connection_reason

abbrev pub checked : Resolution → Result Resolution
checked (direct d) = ok (direct d)
checked (found i) = ok (found i)
checked (missing requires_identity access_denied) =
    guard (not access_denied) 4006
    >> (guard (not requires_identity) 4006 >> ok (missing requires_identity access_denied))

unfoldable pub admit_identity :
    (ordered : List EntryIdentity → List EntryIdentity) → Query → Hub → Admission → Result Context
admit_identity ordered q h a =
    let reason = reason_of q a.server_session in
    guard
      (not (needs_reason (get_org_audit_settings a.entry.organization_id h.world.journal.stored))
        || is_some reason)
      4008
    >> (checked (
          resolve_identity ordered a.entry (identity_id_of q a.server_session)
            (direct_identity_of a.server_session) (some a.user.id) h.world.tree)
        >>= λ i. ok (record { admission = a; identity = i; connection_reason = reason }))

-- The middleware for a socket without a share link.
unfoldable pub authenticate :
    (ordered : List EntryIdentity → List EntryIdentity)
    → Query
    → (now : ℕ) → Hub
    → Hub × Result Context
authenticate ordered q now h =
    let r = authenticate_web_socket q now h in (r.0, r.1 >>= λ a. admit_identity ordered q r.0 a)

-- `authenticateSharedSession`: the entry, the session, and whether the guest may write.
unfoldable pub authenticate_shared_session :
    (share now : ℕ) → Hub → Hub × Result (Entry × SessionManager.Session × Bool)
authenticate_shared_session share now h =
    let (m, id) = get_by_share_id share now (manager_of h.world) in
    (
      on_manager (λ old. m) h,
      or_err id 4013 >>= λ k. or_err (find k m) 4013 >>= λ s.
          or_err (entry_at s.entry_id h.world.tree.entries) 4005 >>= λ e.
          ok (e, s, s.share_writable),
    )
