-- ===== src/SessionManager/Release.antt =====
-- server/lib/SessionManager.js: closing sockets, and removing sessions.
-- `remove` waits for the recording to be finished between its two halves, so it is two steps, and
-- other calls may come between. The second wait, for the guacd recording, stands before the first
-- assignment of the second half, so it needs no step of its own.
use infram.Prelude.{
  ℕ, ◌-◌, ◌*◌, Bool, true, false, not, ◌&&◌, Option, none, some, List, [], ◌∷◌, ◌++◌, map, ◌==◌,
  if◌then◌else◌, is_some, leb, ltb, delete, length,
}
use infram.SessionManager.{Connection, Session, Manager, find, change, known}
use infram.SessionManager.Sharing.{add, drop_from}

-- Calls on what is outside of the process, in their order.
pub data Effect : Type 0 where
  close_ws : (ws code : ℕ) → Effect
  end_recording : Effect
  end_guacd clear_keep_alive close_stream end_ssh end_socket close_lxc : Effect
  finalize_guac : (audit : ℕ) → Effect
  end_sftp : (handle : ℕ) → Effect
  clear_share_timer : Effect
  broadcast_connections : (account : ℕ) → Effect

-- A socket is closed if it is connecting or open; `ready` gives its `readyState`.
unfoldable pub close_each : (ready : ℕ → ℕ) → ℕ → List ℕ → List Effect
close_each ready code [] = []
close_each ready code (ws ∷ rest) =
    if leb (ready ws) 1
    then close_ws ws code ∷ close_each ready code rest
    else close_each ready code rest

unfoldable pub close_effects : (ready : ℕ → ℕ) → Session → List Effect
unfolding close_each
close_effects ready s = close_each ready 1000 s.connected_ws ++ close_each ready 4016 s.shared_ws

abbrev pub without_sockets : Session → Session
without_sockets s = record s { connected_ws = []; shared_ws = []; active_ws = none }

unfoldable pub close_all_web_sockets : ℕ → Manager → Manager
close_all_web_sockets id m = change id without_sockets m

abbrev when : Bool → Effect → List Effect
when true e = e ∷ []
when false e = []

abbrev guac_recording : Bool → Option ℕ → List Effect
guac_recording true (some audit) = finalize_guac audit ∷ []
guac_recording _ _ = []

abbrev handles : Option (List ℕ) → List ℕ
handles none = []
handles (some hs) = hs

-- What `remove` does to the connection.
unfoldable pub release_connection : Connection → List Effect
release_connection c =
    when c.guacd_connection end_guacd
    ++ (when c.keep_alive_interval clear_keep_alive
        ++ (guac_recording c.recording_enabled c.audit_log_id
            ++ (when c.stream close_stream
                ++ (when c.ssh end_ssh
                    ++ (map end_sftp (handles c.sftp_handles)
                        ++ (when c.socket end_socket ++ when c.lxc_socket close_lxc))))))

-- The first half of `remove`, up to the wait for the recording.
unfoldable pub remove_start : ℕ → Manager → Manager × Bool
remove_start id m = (change id (λ s. record (without_sockets s) { recording = none }) m, known id m)

unfoldable pub remove_start_effects : (ready : ℕ → ℕ) → Session → List Effect
unfolding close_effects
remove_start_effects ready s = close_effects ready s ++ when (is_some s.recording) end_recording

-- The second half. If another call of `remove` was faster, the session has left both maps and
-- there is nothing left to delete.
unfoldable pub remove_finish : ℕ → Manager → Manager
remove_finish id m = elim (find id m) [
  | none ↦ m
  | some s ↦ record {
    sessions = delete id m.sessions;
    share_index = elim s.share_id [ none ↦ m.share_index | some link ↦ delete link m.share_index ];
  }
]

abbrev connection_effects : Option Connection → List Effect
connection_effects none = []
connection_effects (some c) = release_connection c

unfoldable pub remove_finish_effects : Session → List Effect
unfolding release_connection
remove_finish_effects s =
    connection_effects s.master_connection
    ++ (when (is_some s.share_id) clear_share_timer ++ broadcast_connections s.account_id ∷ [])

-- `remove` where nothing comes between, as when there is no recording.
unfoldable pub remove : ℕ → Manager → Manager × Bool
unfolding remove_start remove_finish
remove id m = let (m', found) = remove_start id m in (remove_finish id m', found)

unfoldable pub register_sftp_handle : (id handle : ℕ) → Manager → Manager
register_sftp_handle id handle m =
    change id
      (λ s. record s {
        master_connection = elim s.master_connection [
          | none ↦ none
          | some c ↦ some (record c { sftp_handles = some (add handle (handles c.sftp_handles)) })
        ];
      })
      m

unfoldable pub unregister_sftp_handle : (id handle : ℕ) → Manager → Manager
unregister_sftp_handle id handle m =
    change id
      (λ s. record s {
        master_connection = elim s.master_connection [
          | none ↦ none
          | some c ↦ some (record c {
            sftp_handles = elim c.sftp_handles [
              | none ↦ none
              | some hs ↦ some (drop_from handle hs)
            ];
          })
        ];
      })
      m

-- Six hours.
abbrev pub max_idle : ℕ
max_idle = 6 * 60 * 60 * 1000

-- `new Date(session.lastActivity) < sixHoursAgo`; at less than six hours after the epoch no date is.
unfoldable pub is_old : (now : ℕ) → Session → Bool
is_old now s = not s.is_hibernated && ltb s.last_activity (now - max_idle)

-- The identifiers of the sessions that fit a test, in the order of the map.
unfoldable pub ids_where : (Session → Bool) → List (ℕ × Session) → List ℕ
ids_where p [] = []
ids_where p ((id, s) ∷ rest) = if p s then id ∷ ids_where p rest else ids_where p rest

unfoldable pub remove_each : List ℕ → Manager → Manager
unfolding remove
remove_each [] m = m
remove_each (id ∷ ids) m = remove_each ids (remove id m).0

unfoldable pub cleanup_old_sessions : (now : ℕ) → Manager → Manager × ℕ
unfolding is_old ids_where remove_each
cleanup_old_sessions now m =
    let ids = ids_where (is_old now) m.sessions in (remove_each ids m, length ids)

unfoldable pub remove_all_by_account_id : (account : ℕ) → Manager → Manager × ℕ
unfolding ids_where remove_each
remove_all_by_account_id account m =
    let ids = ids_where (λ s. s.account_id == account) m.sessions in (remove_each ids m, length ids)

unfoldable pub remove_all_by_entry_id : (entry : ℕ) → Manager → Manager × ℕ
unfolding ids_where remove_each
remove_all_by_entry_id entry m =
    let ids = ids_where (λ s. s.entry_id == entry) m.sessions in (remove_each ids m, length ids)
