-- ===== src/SessionManager/Evolution.antt =====
-- What no call changes of a session, and what is never undone.
pub mod Calls
pub mod Steps
pub mod Claims
use infram.Prelude.{
  ℕ, ◌≡◌, refl, sym, ◌∙◌, subst, inl, inr, ◌⊎◌, ◌≢◌, Bool, true, false, ◌||◌, Option, none, some,
  List, ◌==◌, if◌then◌else◌, is_some, arith, Option-cases, Bool-cases, get-set, get-delete,
  get-modify, get, set, delete, leb, not,
}
use infram.SessionManager.{
  Configuration, Connection, Session, Manager, find, change, new_session, create, hibernate, resume,
  update_activity, set_master_connection, update_master_connection_id,
  set_master_connection_pending,
}
use infram.SessionManager.Sharing.{
  set_active_ws, add_web_socket, remove_web_socket, update_share_permissions, start_sharing, shared,
  unshared, stop_sharing, get_by_share_id, resolve, has_expired, timer_fires,
}
use infram.SessionManager.Log.{logged, append_log, init_recording, record_resize}
use infram.SessionManager.Release.{
  close_all_web_sockets, remove_start, remove_finish, register_sftp_handle, unregister_sftp_handle,
}
use infram.SessionManager.Steps.{
  Step, creates, hibernates, resumes, is_active, claims, connects, gets_ready, adds_ws, removes_ws,
  activates_ws, closes_ws, registers_sftp, unregisters_sftp, logs, records, resizes, starts_sharing,
  stops_sharing, updates_share, follows_link, timer_runs, starts_removal, finishes_removal,
}
use infram.SessionManager.Invariant.{find-change, changed}

-- Somebody has a master connection to the target, or is about to open one.
abbrev pub is_claimed : Session → Bool
is_claimed s = is_some s.master_connection || s.master_connection_pending

pub record Evolves (s t : Session) : Type 0 where
  pub same_account : t.account_id ≡ s.account_id
  pub same_entry : t.entry_id ≡ s.entry_id
  pub same_configuration : t.configuration ≡ s.configuration
  pub same_reason : t.connection_reason ≡ s.connection_reason
  pub same_audit_log : t.audit_log_id ≡ s.audit_log_id
  pub same_creation : t.created_at ≡ s.created_at
  pub claimed : is_claimed s ≡ true → is_claimed t ≡ true

pub Evolves-refl : (s : Session) → Evolves s s
Evolves-refl s = record {
  same_account = refl;
  same_entry = refl;
  same_configuration = refl;
  same_reason = refl;
  same_audit_log = refl;
  same_creation = refl;
  claimed = λ h. h;
}

-- A session is gone, or it has evolved.
abbrev pub After : ℕ → Session → Manager → Type 0
After j s n = (find j n ≡ none) ⊎ ((t : Session) × (find j n ≡ some t) × Evolves s t)

pub kept : (j : ℕ) (s : Session) (m : Manager) → find j m ≡ some s → After j s m
kept j s m e = inr (s, e, Evolves-refl s)

-- Assignments that touch neither what is fixed nor the master connection.
changed_After :
    (id j : ℕ) (f : Session → Session) (m : Manager) (s : Session)
    → find j m ≡ some s
    → (id ≡ j → Evolves s (f s))
    → After j s (change id f m)
changed_After id j f m s e ok = inr (
  (if id == j then f s else s),
  find-change id j f m s e,
  changed (Evolves s) id j f s (if id == j then f s else s) refl ok (λ _. Evolves-refl s),
)

pub plain_After :
    (id j : ℕ) (f : Session → Session) (m : Manager) (s : Session)
    → find j m ≡ some s
    → ((f s).account_id ≡ s.account_id)
      × ((f s).entry_id ≡ s.entry_id)
      × ((f s).configuration ≡ s.configuration)
      × ((f s).connection_reason ≡ s.connection_reason)
      × ((f s).audit_log_id ≡ s.audit_log_id)
      × ((f s).created_at ≡ s.created_at)
      × (is_claimed s ≡ true → is_claimed (f s) ≡ true)
    → After j s (change id f m)
plain_After id j f m s e (a, b, c, d, g, h, k) = changed_After id j f m s e λ _. record {
  same_account = a;
  same_entry = b;
  same_configuration = c;
  same_reason = d;
  same_audit_log = g;
  same_creation = h;
  claimed = k;
}
