-- ===== src/SessionManager/Steps.antt =====
-- The calls of the registry as steps. The event loop runs one call at a time, so every history is
-- a sequence of these; `remove` is two steps because it waits in between.
use infram.Prelude.{ℕ, ◌≡◌, Bool, Option, none, List, get}
use infram.SessionManager.{
  Configuration, Connection, Manager, find, create, hibernate, resume, update_activity,
  set_master_connection, update_master_connection_id, set_master_connection_pending,
}
use infram.SessionManager.Sharing.{
  set_active_ws, add_web_socket, remove_web_socket, start_sharing, stop_sharing,
  update_share_permissions, get_by_share_id, timer_fires,
}
use infram.SessionManager.Log.{append_log, init_recording, record_resize}
use infram.SessionManager.Release.{
  close_all_web_sockets, remove_start, remove_finish, register_sftp_handle, unregister_sftp_handle,
}

-- The identifiers of `uuidv4` are new: that is all that is assumed of it.
pub data Step (m : Manager) : Manager → Type 0 where
  creates :
      (id account entry : ℕ) (c : Configuration) (reason tab browser audit : Option ℕ) (now : ℕ)
      → find id m ≡ none
      → Step m (create id account entry c reason tab browser audit now m)
  hibernates : (id now : ℕ) → Step m (hibernate id now m).0
  resumes : (id : ℕ) (tab browser : Option ℕ) (now : ℕ) → Step m (resume id tab browser now m).0
  is_active : (id now : ℕ) → Step m (update_activity id now m)
  claims : (id : ℕ) → Step m (set_master_connection_pending id m).0
  connects : (id : ℕ) (c : Connection) → Step m (set_master_connection id c m).0
  gets_ready : (id connection : ℕ) → Step m (update_master_connection_id id connection m)
  adds_ws : (id ws : ℕ) (is_shared : Bool) → Step m (add_web_socket id ws is_shared m)
  removes_ws : (id ws : ℕ) (is_shared : Bool) → Step m (remove_web_socket id ws is_shared m)
  activates_ws : (id : ℕ) (ws : Option ℕ) → Step m (set_active_ws id ws m)
  closes_ws : (id : ℕ) → Step m (close_all_web_sockets id m)
  registers_sftp : (id handle : ℕ) → Step m (register_sftp_handle id handle m)
  unregisters_sftp : (id handle : ℕ) → Step m (unregister_sftp_handle id handle m)
  logs : (id : ℕ) (chunk : List ℕ) (now : ℕ) → Step m (append_log id chunk now m)
  records :
      (id : ℕ) (enabled : Bool) (cols rows now : ℕ)
      → Step m (init_recording id enabled cols rows now m).0
  resizes : (id cols rows now : ℕ) → Step m (record_resize id cols rows now m)
  starts_sharing :
      (id fresh : ℕ) (writable : Bool) (expires : ℕ)
      → get fresh m.share_index ≡ none
      → Step m (start_sharing id fresh writable expires m).0
  stops_sharing : (id : ℕ) → Step m (stop_sharing id m).0
  updates_share : (id : ℕ) (writable : Bool) → Step m (update_share_permissions id writable m).0
  follows_link : (link now : ℕ) → Step m (get_by_share_id link now m).0
  timer_runs : (id now : ℕ) → Step m (timer_fires id now m)
  starts_removal : (id : ℕ) → Step m (remove_start id m).0
  finishes_removal : (id : ℕ) → Step m (remove_finish id m)

pub data Reach (m : Manager) : Manager → Type 0 where
  here : Reach m m
  next : {n k : Manager} → Reach m n → Step n k → Reach m k
