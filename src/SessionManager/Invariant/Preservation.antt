-- ===== src/SessionManager/Invariant/Preservation.antt =====
-- Every call keeps the registry's invariant, so it holds after any history.
use infram.Prelude.{
  ℕ, ◌≡◌, refl, sym, ◌∙◌, inl, inr, Bool, true, false, ◌||◌, none, some, List, is_some, arith,
  Option-cases, Bool-cases, [],
}
use infram.SessionManager.{
  Connection, Session, Manager, find, change, hibernate, resume, update_activity,
  set_master_connection, update_master_connection_id, set_master_connection_pending,
}
use infram.SessionManager.Sharing.{
  set_active_ws, add_web_socket, remove_web_socket, update_share_permissions,
}
use infram.SessionManager.Log.{
  logged, append_log, init_recording, record_resize, max_log_buffer_size,
}
use infram.SessionManager.Log.Window.{length-append_bounded-le}
use infram.SessionManager.Release.{
  close_all_web_sockets, remove_start, register_sftp_handle, unregister_sftp_handle,
}
use infram.SessionManager.Steps.{
  Step, creates, hibernates, resumes, is_active, claims, connects, gets_ready, adds_ws, removes_ws,
  activates_ws, closes_ws, registers_sftp, unregisters_sftp, logs, records, resizes, starts_sharing,
  stops_sharing, updates_share, follows_link, timer_runs, starts_removal, finishes_removal, Reach,
  here, next,
}
use infram.SessionManager.Invariant.{Inv, change-Inv}
use infram.SessionManager.Invariant.Rows.{empty-Inv, create-Inv, remove_finish-Inv}
use infram.SessionManager.Invariant.Sharing.{
  start_sharing-Inv, stop_sharing-Inv, get_by_share_id-Inv, timer_fires-Inv,
}

-- An assignment to fields that the invariant does not speak of.
plain-Inv :
    (id : ℕ) (f : Session → Session) (m : Manager)
    → ((s : Session)
        → ((f s).share_id ≡ s.share_id)
          × ((f s).share_expires_at ≡ s.share_expires_at)
          × ((f s).share_timer ≡ s.share_timer)
          × ((f s).log_buffer ≡ s.log_buffer)
          × ((f s).master_connection ≡ s.master_connection)
          × ((f s).master_connection_pending ≡ s.master_connection_pending))
    → Inv m
    → Inv (change id f m)
plain-Inv id f m same v =
    change-Inv id f m (λ s. (same s).0)
      (λ s e ok.
        let (a, b, c, d, g, h) = same s in
        record {
          one_master = λ p. g ∙ ok.one_master (sym h ∙ p);
          bounded = rw d ok.bounded;
          expiry = rw (a, b) ok.expiry;
          timed = rw (b, c) ok.timed;
        })
      v

set_master_connection-Inv :
    (id : ℕ) (c : Connection) (m : Manager) → Inv m → Inv (set_master_connection id c m).0
unfolding set_master_connection
set_master_connection-Inv id c m v = elim (Option-cases (find id m)) [
  | inl e ↦ rw (e, set_master_connection) v
  | inr (s, e) ↦
      rw (e, set_master_connection)
        (elim (Bool-cases (is_some s.master_connection)) [
          | inl has ↦ rw has v
          | inr lacks ↦ rw lacks (
              change-Inv id _ m (λ t. refl)
                (λ t e' ok. record {
                  one_master = λ p. cc;
                  bounded = ok.bounded;
                  expiry = ok.expiry;
                  timed = ok.timed;
                })
                v)
        ])
]

set_master_connection_pending-Inv :
    (id : ℕ) (m : Manager) → Inv m → Inv (set_master_connection_pending id m).0
unfolding set_master_connection_pending
set_master_connection_pending-Inv id m v = elim (Option-cases (find id m)) [
  | inl e ↦ rw (e, set_master_connection_pending) v
  | inr (s, e) ↦
      rw (e, set_master_connection_pending)
        (elim (Bool-cases (is_some s.master_connection || s.master_connection_pending)) [
          | inl has ↦ rw has v
          | inr lacks ↦ rw lacks (
              change-Inv id _ m (λ t. refl)
                (λ t e' ok. record {
                  one_master = λ p. ground arith;
                  bounded = ok.bounded;
                  expiry = ok.expiry;
                  timed = ok.timed;
                })
                v)
        ])
]

-- An assignment inside the connection object.
in_master-Inv :
    (id : ℕ) (g : Connection → Connection) (m : Manager)
    → Inv m
    → Inv (
        change id
          (λ s. record s {
            master_connection = elim s.master_connection [ none ↦ none | some c ↦ some (g c) ];
          })
          m)
in_master-Inv id g m v =
    change-Inv id _ m (λ t. refl)
      (λ t e ok. record {
        one_master = λ p. let q = ok.one_master p in ground arith;
        bounded = ok.bounded;
        expiry = ok.expiry;
        timed = ok.timed;
      })
      v

append_log-Inv :
    (id : ℕ) (chunk : List ℕ) (now : ℕ) (m : Manager) → Inv m → Inv (append_log id chunk now m)
unfolding append_log logged
append_log-Inv id chunk now m v =
    change-Inv id (logged chunk now) m (λ t. refl)
      (λ t e ok. record {
        one_master = ok.one_master;
        bounded = length-append_bounded-le max_log_buffer_size t.log_buffer chunk;
        expiry = ok.expiry;
        timed = ok.timed;
      })
      v

init_recording-Inv :
    (id : ℕ) (enabled : Bool) (cols rows now : ℕ) (m : Manager)
    → Inv m
    → Inv (init_recording id enabled cols rows now m).0
unfolding init_recording
init_recording-Inv id enabled cols rows now m v = elim (Option-cases (find id m)) [
  | inl e ↦ rw (e, init_recording) v
  | inr (s, e) ↦
      rw (e, init_recording)
        (elim (Option-cases s.audit_log_id) [
          | inl off ↦ rw off v
          | inr (audit, on) ↦ rw on (elim (Bool-cases enabled) [
            | inl yes' ↦ rw yes' (plain-Inv id _ m (λ t. (refl, refl, refl, refl, refl, refl)) v)
            | inr no' ↦ rw no' v
          ])
        ])
]

update_share_permissions-Inv :
    (id : ℕ) (writable : Bool) (m : Manager)
    → Inv m
    → Inv (update_share_permissions id writable m).0
unfolding update_share_permissions
update_share_permissions-Inv id writable m v = elim (Option-cases (find id m)) [
  | inl e ↦ rw (e, update_share_permissions) v
  | inr (s, e) ↦
      rw (e, update_share_permissions)
        (elim (Bool-cases (is_some s.share_id)) [
          | inl has ↦ rw has (plain-Inv id _ m (λ t. (refl, refl, refl, refl, refl, refl)) v)
          | inr lacks ↦ rw lacks v
        ])
]

add_web_socket-Inv :
    (id ws : ℕ) (is_shared : Bool) (m : Manager) → Inv m → Inv (add_web_socket id ws is_shared m)
unfolding add_web_socket
add_web_socket-Inv id ws true m v = plain-Inv id _ m (λ t. (refl, refl, refl, refl, refl, refl)) v
add_web_socket-Inv id ws false m v = plain-Inv id _ m (λ t. (refl, refl, refl, refl, refl, refl)) v

remove_web_socket-Inv :
    (id ws : ℕ) (is_shared : Bool) (m : Manager) → Inv m → Inv (remove_web_socket id ws is_shared m)
unfolding remove_web_socket
remove_web_socket-Inv id ws is_shared m v =
    plain-Inv id _ m
      (λ t. (ground arith, ground arith, ground arith, ground arith, ground arith, ground arith)) v

-- Each call keeps the invariant.
pub Step-Inv : {m n : Manager} → Step m n → Inv m → Inv n
unfolding hibernate resume update_activity update_master_connection_id set_active_ws
    close_all_web_sockets register_sftp_handle unregister_sftp_handle record_resize remove_start
Step-Inv {m} (creates id account entry c reason tab browser audit now fresh) v =
    create-Inv id account entry c reason tab browser audit now m fresh v
Step-Inv {m} (hibernates id now) v = plain-Inv id _ m (λ t. (refl, refl, refl, refl, refl, refl)) v
Step-Inv {m} (resumes id tab browser now) v =
    plain-Inv id _ m (λ t. (refl, refl, refl, refl, refl, refl)) v
Step-Inv {m} (is_active id now) v = plain-Inv id _ m (λ t. (refl, refl, refl, refl, refl, refl)) v
Step-Inv {m} (claims id) v = set_master_connection_pending-Inv id m v
Step-Inv {m} (connects id c) v = set_master_connection-Inv id c m v
Step-Inv {m} (gets_ready id connection) v = in_master-Inv id _ m v
Step-Inv {m} (adds_ws id ws is_shared) v = add_web_socket-Inv id ws is_shared m v
Step-Inv {m} (removes_ws id ws is_shared) v = remove_web_socket-Inv id ws is_shared m v
Step-Inv {m} (activates_ws id ws) v = plain-Inv id _ m (λ t. (refl, refl, refl, refl, refl, refl)) v
Step-Inv {m} (closes_ws id) v = plain-Inv id _ m (λ t. (refl, refl, refl, refl, refl, refl)) v
Step-Inv {m} (registers_sftp id handle) v = in_master-Inv id _ m v
Step-Inv {m} (unregisters_sftp id handle) v = in_master-Inv id _ m v
Step-Inv {m} (logs id chunk now) v = append_log-Inv id chunk now m v
Step-Inv {m} (records id enabled cols rows now) v = init_recording-Inv id enabled cols rows now m v
Step-Inv {m} (resizes id cols rows now) v =
    plain-Inv id _ m (λ t. (refl, refl, refl, refl, refl, refl)) v
Step-Inv {m} (starts_sharing id fresh writable expires unused) v =
    start_sharing-Inv id fresh writable expires m unused v
Step-Inv {m} (stops_sharing id) v = stop_sharing-Inv id m v
Step-Inv {m} (updates_share id writable) v = update_share_permissions-Inv id writable m v
Step-Inv {m} (follows_link link now) v = get_by_share_id-Inv link now m v
Step-Inv {m} (timer_runs id now) v = timer_fires-Inv id now m v
Step-Inv {m} (starts_removal id) v = plain-Inv id _ m (λ t. (refl, refl, refl, refl, refl, refl)) v
Step-Inv {m} (finishes_removal id) v = remove_finish-Inv id m v

-- The manager as it is constructed.
abbrev pub no_sessions : Manager
no_sessions = record { sessions = []; share_index = [] }

Reach-Inv : {m n : Manager} → Inv m → Reach m n → Inv n
Reach-Inv v here = v
Reach-Inv v (next r st) = Step-Inv st (Reach-Inv v r)

-- After any sequence of calls on a new registry, interleaved in any way: a link of the share index
-- leads to a session that carries this link; every session that carries a link is found by it; a
-- session with a master connection is not waiting for one; no log buffer exceeds its limit; and a
-- session has an expiry, and a timer for just that time, exactly if it is shared.
pub Reach-no_sessions-Inv : {m : Manager} → Reach no_sessions m → Inv m
Reach-no_sessions-Inv r = Reach-Inv empty-Inv r
