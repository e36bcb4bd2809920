-- ===== src/SessionManager.antt =====
-- server/lib/SessionManager.js: the registry of running connections, held in memory.
-- A session object is a record in `sessions`, and an assignment to a field of it is `modify`.
-- Times are milliseconds and arguments, as `Date.now()` is; sockets, SFTP handles, entries and
-- accounts are numbers. `create` and `start_sharing` take the identifier that `uuidv4` returns.
pub mod Sharing
pub mod Release
pub mod Log
pub mod Invariant
pub mod Steps
pub mod Links
pub mod Tests
pub mod Listing
pub mod Removal
pub mod Evolution
use infram.Models.{SessionType, Renderer}
use infram.Prelude.{
  ℕ, Bool, true, false, ◌&&◌, ◌||◌, Option, none, some, List, [], ◌∷◌, ◌==◌, if◌then◌else◌, same,
  is_some, get, set, modify,
}

-- The configuration that `createSession` of controllers/serverSession.js builds. A direct
-- identity and a path are kept as the numbers that stand for them.
pub record Configuration : Type 0 where
  pub identity_id : Option ℕ
  pub kind : Option SessionType
  pub direct_identity : Option ℕ
  pub script_id : Option ℕ
  pub start_path : Option ℕ
  pub renderer : Option Renderer

-- A connection to the target. The Boolean fields say whether the resource is there.
pub record Connection : Type 0 where
  pub guacd_connection : Bool
  pub guacd_connection_id : Option ℕ
  pub guacd_client : Bool
  pub keep_alive_interval : Bool
  pub recording_enabled : Bool
  pub audit_log_id : Option ℕ
  pub stream : Bool
  pub ssh : Bool
  pub sftp_handles : Option (List ℕ)
  pub socket : Bool
  pub lxc_socket : Bool

-- What is written to the asciicast file; a chunk of output is a list of character codes.
pub data CastEvent : Type 0 where
  header : (cols rows : ℕ) → CastEvent
  resized : (elapsed cols rows : ℕ) → CastEvent
  output : (elapsed : ℕ) → List ℕ → CastEvent

pub record Recording : Type 0 where
  pub start_time : ℕ
  pub cols : ℕ
  pub rows : ℕ
  pub written : List CastEvent

pub record Session : Type 0 where
  pub account_id : ℕ
  pub entry_id : ℕ
  pub configuration : Configuration
  pub connection_reason : Option ℕ
  pub tab_id : Option ℕ
  pub browser_id : Option ℕ
  pub audit_log_id : Option ℕ
  pub is_hibernated : Bool
  pub created_at : ℕ
  pub last_activity : ℕ
  pub master_connection : Option Connection
  pub master_connection_pending : Bool
  pub log_buffer : List ℕ
  pub active_ws : Option ℕ
  pub connected_ws : List ℕ
  pub shared_ws : List ℕ
  pub share_id : Option ℕ
  pub share_writable : Bool
  pub share_expires_at : Option ℕ
  pub share_timer : Option ℕ
  pub recording : Option Recording

pub record Manager : Type 0 where
  pub sessions : List (ℕ × Session)
  pub share_index : List (ℕ × ℕ)

abbrev pub find : ℕ → Manager → Option Session
find id m = get id m.sessions

abbrev pub change : ℕ → (Session → Session) → Manager → Manager
change id f m = record m { sessions = modify id f m.sessions }

-- Does `this.get(sessionId)` find a session?
abbrev pub known : ℕ → Manager → Bool
known id m = is_some (find id m)

abbrev pub new_session :
    ℕ → ℕ → Configuration → Option ℕ → Option ℕ → Option ℕ → Option ℕ → ℕ → Session
new_session account entry configuration reason tab browser audit now = record {
  account_id = account;
  entry_id = entry;
  configuration = configuration;
  connection_reason = reason;
  tab_id = tab;
  browser_id = browser;
  audit_log_id = audit;
  is_hibernated = false;
  created_at = now;
  last_activity = now;
  master_connection = none;
  master_connection_pending = false;
  log_buffer = [];
  active_ws = none;
  connected_ws = [];
  shared_ws = [];
  share_id = none;
  share_writable = false;
  share_expires_at = none;
  share_timer = none;
  recording = none;
}

unfoldable pub create :
    (session_id account entry : ℕ) (configuration : Configuration)
    (reason tab browser audit : Option ℕ) (now : ℕ)
    → Manager
    → Manager
create id account entry configuration reason tab browser audit now m = record m {
  sessions =
      set id (new_session account entry configuration reason tab browser audit now) m.sessions;
}

abbrev fits : Option (Option ℕ) → Option ℕ → Bool
fits none own = true
fits (some wanted) own = same own wanted

-- The filter of `getAll`. An argument is `none` for undefined and `some none` for null.
unfoldable pub is_listed : ℕ → Option (Option ℕ) → Option (Option ℕ) → Session → Bool
is_listed account tab browser s =
    s.account_id == account && (s.is_hibernated || (fits tab s.tab_id && fits browser s.browser_id))

unfoldable pub get_all_from :
    ℕ → Option (Option ℕ) → Option (Option ℕ) → List (ℕ × Session) → List (ℕ × Session)
unfolding is_listed
get_all_from account tab browser [] = []
get_all_from account tab browser ((id, s) ∷ rest) =
    if is_listed account tab browser s
    then (id, s) ∷ get_all_from account tab browser rest
    else get_all_from account tab browser rest

unfoldable pub get_all : ℕ → Option (Option ℕ) → Option (Option ℕ) → Manager → List (ℕ × Session)
unfolding get_all_from
get_all account tab browser m = get_all_from account tab browser m.sessions

-- `hibernate`, `resume` and `updateActivity`; the Boolean is the value returned.
unfoldable pub hibernate : ℕ → ℕ → Manager → Manager × Bool
hibernate id now m =
    (change id (λ s. record s { is_hibernated = true; last_activity = now }) m, known id m)

abbrev or_else : Option ℕ → Option ℕ → Option ℕ
or_else none old = old
or_else (some new) old = some new

unfoldable pub resume : ℕ → Option ℕ → Option ℕ → ℕ → Manager → Manager × Bool
resume id tab browser now m = (
  change id
      (λ s. record s {
        is_hibernated = false;
        last_activity = now;
        tab_id = or_else tab s.tab_id;
        browser_id = or_else browser s.browser_id;
      })
      m,
  known id m,
)

unfoldable pub update_activity : ℕ → ℕ → Manager → Manager
update_activity id now m = change id (λ s. record s { last_activity = now }) m

-- The master connection: claimed by `set_master_connection_pending`, then set once.
unfoldable pub set_master_connection : ℕ → Connection → Manager → Manager × Bool
set_master_connection id c m = elim (find id m) [
  | none ↦ (m, false)
  | some s ↦ if is_some s.master_connection then (m, false) else (
    change id (λ s. record s { master_connection = some c; master_connection_pending = false }) m,
    true,
  )
]

unfoldable pub get_master_connection : ℕ → Manager → Option Connection
get_master_connection id m = elim (find id m) [ none ↦ none | some s ↦ s.master_connection ]

unfoldable pub update_master_connection_id : ℕ → ℕ → Manager → Manager
update_master_connection_id id connection m =
    change id
      (λ s. record s {
        master_connection = elim s.master_connection [
          | none ↦ none
          | some c ↦ some (record c { guacd_connection_id = some connection })
        ];
      })
      m

unfoldable pub has_master_connection : ℕ → Manager → Bool
has_master_connection id m = elim (find id m) [
  | none ↦ false
  | some s ↦ elim s.master_connection [
    | none ↦ s.master_connection_pending
    | some c ↦ c.guacd_client || s.master_connection_pending
  ]
]

unfoldable pub set_master_connection_pending : ℕ → Manager → Manager × Bool
set_master_connection_pending id m = elim (find id m) [
  | none ↦ (m, false)
  | some s ↦
      if is_some s.master_connection || s.master_connection_pending
      then (m, false)
      else (change id (λ s. record s { master_connection_pending = true }) m, true)
]
