-- ===== src/SessionManager/Evolution/Calls.antt =====
-- Each call of the registry, against a session that it may or may not be about.
use infram.Prelude.{
  ℕ, ◌≡◌, refl, inl, inr, Bool, true, false, none, some, ◌==◌, is_some, arith, Option-cases,
  Bool-cases, get-set, get-delete, get, set, delete, leb,
}
use infram.SessionManager.{
  Connection, Session, Manager, find, change, set_master_connection, set_master_connection_pending,
}
use infram.SessionManager.Sharing.{
  update_share_permissions, start_sharing, shared, unshared, stop_sharing, get_by_share_id, resolve,
  has_expired, timer_fires,
}
use infram.SessionManager.Log.{init_recording}
use infram.SessionManager.Release.{remove_finish}
use infram.SessionManager.Evolution.{is_claimed, Evolves-refl, After, kept, plain_After}

pub create_After :
    (j id : ℕ) (n : Session) (m : Manager) (s : Session)
    → find j m ≡ some s
    → find id m ≡ none
    → After j s (record m { sessions = set id n m.sessions })
create_After j id n m s e fresh = inr (s, ground (arith, get-set id j n m.sessions), Evolves-refl s)

pub set_master_connection-After :
    (j id : ℕ) (c : Connection) (m : Manager) (s : Session)
    → find j m ≡ some s
    → After j s (set_master_connection id c m).0
unfolding set_master_connection
set_master_connection-After j id c m s e = elim (Option-cases (find id m)) [
  | inl e' ↦ rw (e', set_master_connection) (kept j s m e)
  | inr (t, e') ↦
      rw (e', set_master_connection)
        (elim (Bool-cases (is_some t.master_connection)) [
          | inl has ↦ rw has (kept j s m e)
          | inr lacks ↦
              rw lacks (plain_After id j _ m s e (refl, refl, refl, refl, refl, refl, λ _. refl))
        ])
]

pub claim_After :
    (j id : ℕ) (m : Manager) (s : Session)
    → find j m ≡ some s
    → After j s (set_master_connection_pending id m).0
unfolding set_master_connection_pending
claim_After j id m s e = elim (Option-cases (find id m)) [
  | inl e' ↦ rw (e', set_master_connection_pending) (kept j s m e)
  | inr (t, e') ↦
      rw (e', set_master_connection_pending)
        (elim (Bool-cases (is_claimed t)) [
          | inl has ↦ rw has (kept j s m e)
          | inr lacks ↦
              rw lacks
                (plain_After id j _ m s e (refl, refl, refl, refl, refl, refl, λ h. ground arith))
        ])
]

pub in_master_After :
    (j id : ℕ) (g : Connection → Connection) (m : Manager) (s : Session)
    → find j m ≡ some s
    → After j s (
        change id
          (λ t. record t {
            master_connection = elim t.master_connection [ none ↦ none | some c ↦ some (g c) ];
          })
          m)
in_master_After j id g m s e =
    plain_After id j _ m s e (refl, refl, refl, refl, refl, refl, λ h. ground arith)

pub stop_sharing-After :
    (j id : ℕ) (m : Manager) (s : Session) → find j m ≡ some s → After j s (stop_sharing id m).0
unfolding stop_sharing
stop_sharing-After j id m s e = elim (Option-cases (find id m)) [
  | inl e' ↦ rw (e', stop_sharing) (kept j s m e)
  | inr (t, e') ↦ elim (Option-cases t.share_id) [
    | inl alone ↦ rw (e', stop_sharing) (rw alone (kept j s m e))
    | inr (link, linked) ↦
        rw (e', stop_sharing)
          (rw linked (
            plain_After id j unshared (record m { share_index = delete link m.share_index }) s e
              (refl, refl, refl, refl, refl, refl, λ h. h)))
  ]
]

pub start_sharing-After :
    (j id fresh : ℕ) (w : Bool) (expires : ℕ) (m : Manager) (s : Session)
    → find j m ≡ some s
    → After j s (start_sharing id fresh w expires m).0
unfolding start_sharing
start_sharing-After j id fresh w expires m s e = elim (Option-cases (find id m)) [
  | inl e' ↦ rw (e', start_sharing) (kept j s m e)
  | inr (t, e') ↦ elim (Option-cases t.share_id) [
    | inl alone ↦
        rw (e', start_sharing)
          (rw alone (
            plain_After id j (shared fresh w expires)
              (record m { share_index = set fresh id m.share_index }) s e
              (refl, refl, refl, refl, refl, refl, λ h. h)))
    | inr (link, linked) ↦
        rw (e', start_sharing)
          (rw linked (
            plain_After id j (shared link w expires) m s e
              (refl, refl, refl, refl, refl, refl, λ h. h)))
  ]
]

pub get_by_share_id-After :
    (j link now : ℕ) (m : Manager) (s : Session)
    → find j m ≡ some s
    → After j s (get_by_share_id link now m).0
unfolding get_by_share_id
get_by_share_id-After j link now m s e = elim (Option-cases (get link m.share_index)) [
  | inl e' ↦ rw (e', get_by_share_id) (kept j s m e)
  | inr (id, e') ↦
      rw (e', get_by_share_id)
        (elim (Option-cases (find id m)) [
          | inl out ↦ rw (out, resolve) (kept j s m e)
          | inr (t, found) ↦
              rw (found, resolve)
                (elim (Bool-cases (has_expired now t)) [
                  | inl over ↦ rw over (stop_sharing-After j id m s e)
                  | inr still ↦ rw still (kept j s m e)
                ])
        ])
]

pub timer_fires-After :
    (j id now : ℕ) (m : Manager) (s : Session)
    → find j m ≡ some s
    → After j s (timer_fires id now m)
unfolding timer_fires
timer_fires-After j id now m s e = elim (Option-cases (find id m)) [
  | inl e' ↦ rw (e', timer_fires) (kept j s m e)
  | inr (t, e') ↦ elim (Option-cases t.share_timer) [
    | inl off ↦ rw (e', timer_fires) (rw off (kept j s m e))
    | inr (due, on) ↦
        rw (e', timer_fires)
          (rw on (elim (Bool-cases (leb due now)) [
            | inl late ↦ rw late (stop_sharing-After j id m s e)
            | inr early ↦ rw early (kept j s m e)
          ]))
  ]
]

pub init_recording-After :
    (j id : ℕ) (enabled : Bool) (cols rows now : ℕ) (m : Manager) (s : Session)
    → find j m ≡ some s
    → After j s (init_recording id enabled cols rows now m).0
unfolding init_recording
init_recording-After j id false cols rows now m s e = elim (Option-cases (find id m)) [
  | inl e' ↦ rw (e', init_recording) (kept j s m e)
  | inr (t, e') ↦ elim (Option-cases t.audit_log_id) [
    | inl off ↦ rw (e', init_recording) (rw off (kept j s m e))
    | inr (audit, on) ↦ rw (e', init_recording) (rw on (kept j s m e))
  ]
]
init_recording-After j id true cols rows now m s e = elim (Option-cases (find id m)) [
  | inl e' ↦ rw (e', init_recording) (kept j s m e)
  | inr (t, e') ↦ elim (Option-cases t.audit_log_id) [
    | inl off ↦ rw (e', init_recording) (rw off (kept j s m e))
    | inr (audit, on) ↦
        rw (e', init_recording)
          (rw on (plain_After id j _ m s e (refl, refl, refl, refl, refl, refl, λ h. h)))
  ]
]

pub update_share_permissions-After :
    (j id : ℕ) (w : Bool) (m : Manager) (s : Session)
    → find j m ≡ some s
    → After j s (update_share_permissions id w m).0
unfolding update_share_permissions
update_share_permissions-After j id w m s e = elim (Option-cases (find id m)) [
  | inl e' ↦ rw (e', update_share_permissions) (kept j s m e)
  | inr (t, e') ↦
      rw (e', update_share_permissions)
        (elim (Bool-cases (is_some t.share_id)) [
          | inl has ↦ rw has (plain_After id j _ m s e (refl, refl, refl, refl, refl, refl, λ h. h))
          | inr lacks ↦ rw lacks (kept j s m e)
        ])
]

pub remove_finish-After :
    (j id : ℕ) (m : Manager) (s : Session) → find j m ≡ some s → After j s (remove_finish id m)
unfolding remove_finish
remove_finish-After j id m s e = elim (Option-cases (find id m)) [
  | inl e' ↦ rw (e', remove_finish) (kept j s m e)
  | inr (t, e') ↦
      rw (e', remove_finish)
        (elim (Bool-cases (id == j)) [
          | inl same ↦ inl (ground (arith, get-delete id j m.sessions))
          | inr other ↦ inr (s, ground (arith, get-delete id j m.sessions), Evolves-refl s)
        ])
]
