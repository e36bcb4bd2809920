-- ===== src/SessionManager/Invariant.antt =====
-- The registry's invariant: the share index and the sessions agree, and each session is in order.
pub mod Rows
pub mod Sharing
pub mod Preservation
use infram.Prelude.{
  UniqueKeys, UniqueKeys-modify, ℕ, ◌≤◌, ◌≡◌, sym, subst, ◌∙◌, ◌≢◌, inl, inr, true, none, some,
  ◌==◌, if◌then◌else◌, is_some, ==_iff, get, get-modify, length, arith, Bool-cases, Option-cases,
}
use infram.SessionManager.{Session, Manager, find, change}
use infram.SessionManager.Log.{max_log_buffer_size}

-- A session is not waiting for a master connection that it has, its log buffer is bounded, and it
-- has an expiry exactly when it is shared.
pub record IsOrderly (s : Session) : Type 0 where
  pub one_master : s.master_connection_pending ≡ true → s.master_connection ≡ none
  pub bounded : length s.log_buffer ≤ max_log_buffer_size
  pub expiry : is_some s.share_expires_at ≡ is_some s.share_id
  pub timed : s.share_timer ≡ s.share_expires_at

pub record Inv (m : Manager) : Type 0 where
  pub sound :
      (link id : ℕ)
      → get link m.share_index ≡ some id
      → (s : Session) × (find id m ≡ some s) × (s.share_id ≡ some link)
  pub complete :
      (id link : ℕ) (s : Session)
      → find id m ≡ some s
      → s.share_id ≡ some link
      → get link m.share_index ≡ some id
  pub orderly : (id : ℕ) (s : Session) → find id m ≡ some s → IsOrderly s
  pub unique : UniqueKeys m.sessions

pub find-change :
    (id j : ℕ) (f : Session → Session) (m : Manager) (s : Session)
    → find j m ≡ some s
    → find j (change id f m) ≡ some (if id == j then f s else s)
find-change id j f m s h = ground (arith, get-modify id j f m.sessions)

pub find-change_self :
    (id : ℕ) (f : Session → Session) (m : Manager) (s : Session)
    → find id m ≡ some s
    → find id (change id f m) ≡ some (f s)
find-change_self id f m s h = ground (arith, get-modify id id f m.sessions)

find-change-none :
    (id j : ℕ) (f : Session → Session) (m : Manager)
    → find j m ≡ none
    → find j (change id f m) ≡ none
find-change-none id j f m h = ground (arith, get-modify id j f m.sessions)

pub find-change_inv :
    (id j : ℕ) (f : Session → Session) (m : Manager) (t : Session)
    → find j (change id f m) ≡ some t
    → (s : Session) × (find j m ≡ some s) × (t ≡ (if id == j then f s else s))
find-change_inv id j f m t h = elim (Option-cases (find j m)) [
  | inl e ↦ ground (arith, find-change-none id j f m e)
  | inr (s, e) ↦ (s, e, ground (arith, find-change id j f m s e))
]

-- What holds of the assigned session and of the old one holds of the one that is found.
pub changed {ℓ} :
    (P : Session → Type ℓ) (id j : ℕ) (f : Session → Session) (s t : Session)
    → t ≡ (if id == j then f s else s)
    → (id ≡ j → P (f s))
    → (id ≢ j → P s)
    → P t
changed P id j f s t e yes' no' = elim (Bool-cases (id == j)) [
  | inl same ↦ subst P (sym (e ∙ rw same)) (yes' ((==_iff id j).0 same))
  | inr other ↦ subst P (sym (e ∙ rw other)) (no' (λ p. ground (arith, (==_iff id j).1)))
]

-- An assignment that leaves the share link alone keeps the invariant.
pub change-Inv :
    (id : ℕ) (f : Session → Session) (m : Manager)
    → ((s : Session) → (f s).share_id ≡ s.share_id)
    → ((s : Session) → find id m ≡ some s → IsOrderly s → IsOrderly (f s))
    → Inv m
    → Inv (change id f m)
change-Inv id f m keeps orderly v = record {
  sound = λ link j h.
      let (s, e, l) = v.sound link j h in
      ((if id == j then f s else s), find-change id j f m s e, ground (arith, keeps s));
  complete = λ j link t e l.
      let (s, e', p) = find-change_inv id j f m t e in
      v.complete j link s e' (ground (arith, keeps s));
  orderly = λ j t e.
      let (s, e', p) = find-change_inv id j f m t e in
      changed IsOrderly id j f s t p
        (λ q. orderly s (subst (λ k. find k m ≡ some s) (sym q) e') (v.orderly j s e'))
        (λ _. v.orderly j s e');
  unique = UniqueKeys-modify id f m.sessions v.unique;
}
