-- ===== src/Entries/Recent.antt =====
-- `getRecentConnections` and `wakeEntry` of server/controllers/entry.js.
use Prim.Native.String.{String}
use infram.Prelude.{
  ℕ, ◌*◌, Bool, true, false, not, ◌&&◌, ◌||◌, Option, none, some, List, [], ◌∷◌, ◌++◌, ◌==◌, same,
  if◌then◌else◌, ltb, length, find_all, any, map, Result, ok, err, guard, ◌>>=◌, ◌>>◌, given,
}
use infram.Models.{Protocol, EntryType, server, Config, Entry}
use infram.Audit.Actions.{
  Action, ssh_connect, sftp_connect, pve_connect, rdp_connect, vnc_connect, telnet_connect,
  Resource, entry,
}
use infram.Audit.{AuditLog}
use infram.Organization.{get_active_org_ids}
use infram.Identities.{EntryIdentity, is_in_one_of}
use infram.Folders.{Tree}
use infram.Entries.{entry_at, protocol_of, validate_entry_access}

-- `connectionActions`
unfoldable pub is_connection : Action → Bool
is_connection ssh_connect = true
is_connection sftp_connect = true
is_connection pve_connect = true
is_connection rdp_connect = true
is_connection vnc_connect = true
is_connection telnet_connect = true
is_connection _ = false

abbrev is_entry : Resource → Bool
is_entry entry = true
is_entry _ = false

-- The `where` clause of the search.
abbrev pub is_own_connection : (account : ℕ) → (orgs : List ℕ) → AuditLog → Bool
is_own_connection account orgs l =
    is_connection l.action
    && (is_entry l.resource
        && ((l.account_id == account && same l.organization_id none)
            || is_in_one_of orgs l.organization_id))

-- The loop over the logs; `seen` are the resources that were kept.
unfoldable pub keep_unique : (limit : ℕ) → (kept : List AuditLog) → List AuditLog → List AuditLog
keep_unique limit kept [] = kept
keep_unique limit kept (l ∷ rest) =
    keep_unique limit
      (if not (any (λ k. same k.resource_id l.resource_id) kept) && ltb (length kept) limit
        then kept ++ l ∷ []
        else kept)
      rest

pub record Recent : Type 0 where
  pub entry_id : ℕ
  pub name : String
  pub icon : Option ℕ
  pub kind : EntryType
  pub protocol : Option Protocol
  pub connection_type : Action
  pub timestamp : ℕ
  pub identities : List ℕ

abbrev pub recent_of :
    (ordered : List EntryIdentity → List EntryIdentity) → Tree → AuditLog → Entry → Recent
recent_of ordered v l e = record {
  entry_id = e.id;
  name = e.name;
  icon = e.icon;
  kind = e.kind;
  protocol = protocol_of e.config;
  connection_type = l.action;
  timestamp = l.timestamp;
  identities =
      map (λ i. i.identity_id) (ordered (find_all (λ i. i.entry_id == e.id) v.entry_identities));
}

abbrev pub logged_entry : AuditLog → List Entry → Option Entry
logged_entry l entries = elim l.resource_id [ none ↦ none | some id ↦ entry_at id entries ]

-- A log of an entry that is gone gives nothing.
unfoldable pub shown :
    (ordered : List EntryIdentity → List EntryIdentity) → Tree → List AuditLog → List Recent
shown ordered v [] = []
shown ordered v (l ∷ rest) = elim (logged_entry l v.entries) [
  | none ↦ shown ordered v rest
  | some e ↦ recent_of ordered v l e ∷ shown ordered v rest
]

-- `latest n` is the database's `order: [["timestamp", "DESC"]], limit: n`, and `ordered` its
-- `order: [['isDefault', 'DESC']]`.
unfoldable pub get_recent_connections :
    (latest : ℕ → List AuditLog → List AuditLog) (ordered : List EntryIdentity → List EntryIdentity)
    → (account limit : ℕ) → List AuditLog
    → Tree
    → List Recent
get_recent_connections latest ordered account limit logs v = shown ordered v (
    keep_unique limit [] (
      latest (limit * 3)
        (find_all (is_own_connection account (get_active_org_ids account v.members)) logs)))

abbrev pub is_server : EntryType → Bool
is_server server = true
is_server _ = false

-- The address of the target and the address that is broadcast to, if there is one.
abbrev wake_target : Option Config → Result (ℕ × Option ℕ)
wake_target none = err 400
wake_target (some c) = do
  guard c.wake_on_lan_enabled 400
  mac ← (elim (given c.mac_address) [ none ↦ err 400 | some m ↦ ok m ])
  ok (mac, given c.wake_on_lan_broadcast)

-- `send` says whether `sendWakeOnLan` succeeds. The result is what was sent.
unfoldable pub wake_entry :
    (send : ℕ → Option ℕ → Bool) → (account id : ℕ) → Tree → Result (ℕ × Option ℕ)
wake_entry send account id v = do
  e ← validate_entry_access account (entry_at id v.entries) v
  guard (is_server e.kind) 400
  packet ← wake_target e.config
  guard (send packet.0 packet.1) 500
  ok packet
