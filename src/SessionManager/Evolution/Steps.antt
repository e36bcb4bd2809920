-- ===== src/SessionManager/Evolution/Steps.antt =====
-- The life of a session: every call ends it or lets it evolve.
use infram.Prelude.{ℕ, ◌≡◌, refl, ◌⊎◌, true, false, none, some, arith}
use infram.SessionManager.{
  Session, Manager, find, new_session, create, hibernate, resume, update_activity,
  update_master_connection_id,
}
use infram.SessionManager.Sharing.{set_active_ws, add_web_socket, remove_web_socket}
use infram.SessionManager.Log.{logged, append_log, record_resize}
use infram.SessionManager.Release.{
  close_all_web_sockets, remove_start, register_sftp_handle, unregister_sftp_handle,
}
use infram.SessionManager.Steps.{
  Step, creates, hibernates, resumes, is_active, claims, connects, gets_ready, adds_ws, removes_ws,
  activates_ws, closes_ws, registers_sftp, unregisters_sftp, logs, records, resizes, starts_sharing,
  stops_sharing, updates_share, follows_link, timer_runs, starts_removal, finishes_removal,
}
use infram.SessionManager.Evolution.{Evolves, plain_After}
use infram.SessionManager.Evolution.Calls.{
  create_After, set_master_connection-After, claim_After, in_master_After, stop_sharing-After,
  start_sharing-After, get_by_share_id-After, timer_fires-After, init_recording-After,
  update_share_permissions-After, remove_finish-After,
}

-- Whatever call comes next, a session is either gone or still belongs to the same account and
-- entry, with the same configuration, connection reason, audit log and time of creation; and if its
-- master connection was there or claimed, it is so still.
pub Step-After :
    {m n : Manager} (j : ℕ) (s : Session)
    → Step m n
    → find j m ≡ some s
    → (find j n ≡ none) ⊎ ((t : Session) × (find j n ≡ some t) × Evolves s t)
unfolding create hibernate resume update_activity update_master_connection_id set_active_ws
    add_web_socket remove_web_socket close_all_web_sockets register_sftp_handle
    unregister_sftp_handle append_log logged record_resize remove_start
Step-After {m} j s (creates id account entry c reason tab browser audit now fresh) e =
    create_After j id (new_session account entry c reason tab browser audit now) m s e fresh
Step-After {m} j s (hibernates id now) e =
    plain_After id j _ m s e (refl, refl, refl, refl, refl, refl, λ h. h)
Step-After {m} j s (resumes id tab browser now) e =
    plain_After id j _ m s e (refl, refl, refl, refl, refl, refl, λ h. h)
Step-After {m} j s (is_active id now) e =
    plain_After id j _ m s e (refl, refl, refl, refl, refl, refl, λ h. h)
Step-After {m} j s (claims id) e = claim_After j id m s e
Step-After {m} j s (connects id c) e = set_master_connection-After j id c m s e
Step-After {m} j s (gets_ready id connection) e = in_master_After j id _ m s e
Step-After {m} j s (adds_ws id ws true) e =
    plain_After id j _ m s e (refl, refl, refl, refl, refl, refl, λ h. h)
Step-After {m} j s (adds_ws id ws false) e =
    plain_After id j _ m s e (refl, refl, refl, refl, refl, refl, λ h. h)
Step-After {m} j s (removes_ws id ws is_shared) e = plain_After id j _ m s e (
  ground arith,
  ground arith,
  ground arith,
  ground arith,
  ground arith,
  ground arith,
  λ h. ground arith,
)
Step-After {m} j s (activates_ws id ws) e =
    plain_After id j _ m s e (refl, refl, refl, refl, refl, refl, λ h. h)
Step-After {m} j s (closes_ws id) e =
    plain_After id j _ m s e (refl, refl, refl, refl, refl, refl, λ h. h)
Step-After {m} j s (registers_sftp id handle) e = in_master_After j id _ m s e
Step-After {m} j s (unregisters_sftp id handle) e = in_master_After j id _ m s e
Step-After {m} j s (logs id chunk now) e =
    plain_After id j _ m s e (refl, refl, refl, refl, refl, refl, λ h. h)
Step-After {m} j s (records id enabled cols rows now) e =
    init_recording-After j id enabled cols rows now m s e
Step-After {m} j s (resizes id cols rows now) e =
    plain_After id j _ m s e (refl, refl, refl, refl, refl, refl, λ h. h)
Step-After {m} j s (starts_sharing id fresh w expires unused) e =
    start_sharing-After j id fresh w expires m s e
Step-After {m} j s (stops_sharing id) e = stop_sharing-After j id m s e
Step-After {m} j s (updates_share id w) e = update_share_permissions-After j id w m s e
Step-After {m} j s (follows_link link now) e = get_by_share_id-After j link now m s e
Step-After {m} j s (timer_runs id now) e = timer_fires-After j id now m s e
Step-After {m} j s (starts_removal id) e =
    plain_After id j _ m s e (refl, refl, refl, refl, refl, refl, λ h. h)
Step-After {m} j s (finishes_removal id) e = remove_finish-After j id m s e
