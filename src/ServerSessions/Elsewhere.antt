-- ===== src/ServerSessions/Elsewhere.antt =====
-- What the calls of the registry leave of a session under another identifier.
use infram.Prelude.{
  ℕ, ◌≡◌, ◌≢◌, refl, inl, inr, Bool, List, ◌==◌, if◌then◌else◌, is_some, arith, Bool-cases,
  Option-cases, get, get-modify, modify,
}
use infram.SessionManager.{Session, Manager, find}
use infram.SessionManager.Sharing.{
  shared, start_sharing, stop_sharing, update_share_permissions, unshared,
}

-- What is left of a session under another identifier.
pub get-modify_other :
    (id k : ℕ) (f : Session → Session) (l : List (ℕ × Session))
    → id ≢ k
    → get k (modify id f l) ≡ get k l
get-modify_other id k f l n = ground (arith, get-modify id k f l)

pub elsewhere {ℓ} : {A : Type ℓ} (x y : A) (i k : ℕ) → i ≢ k → (if i == k then x else y) ≡ y
elsewhere x y i k n = ground arith

pub find-start_sharing_other :
    (id k fresh expires : ℕ) (writable : Bool) (m : Manager)
    → id ≢ k
    → find k (start_sharing id fresh writable expires m).0 ≡ find k m
unfolding start_sharing
find-start_sharing_other id k fresh expires writable m n = elim (Option-cases (find id m)) [
  | inl e ↦ rw (start_sharing, e) refl
  | inr (s, e) ↦ elim (Option-cases s.share_id) [
    | inl z ↦
        rw (start_sharing, e, z)
          (get-modify_other id k (shared fresh writable expires) m.sessions n)
    | inr (link, z) ↦
        rw (start_sharing, e, z) (get-modify_other id k (shared link writable expires) m.sessions n)
  ]
]

pub find-stop_sharing_other :
    (id k : ℕ) (m : Manager) → id ≢ k → find k (stop_sharing id m).0 ≡ find k m
unfolding stop_sharing
find-stop_sharing_other id k m n = elim (Option-cases (find id m)) [
  | inl e ↦ rw (stop_sharing, e) refl
  | inr (s, e) ↦ elim (Option-cases s.share_id) [
    | inl z ↦ rw (stop_sharing, e, z) refl
    | inr (link, z) ↦ rw (stop_sharing, e, z) (get-modify_other id k unshared m.sessions n)
  ]
]

pub find-update_share_permissions_other :
    (id k : ℕ) (writable : Bool) (m : Manager)
    → id ≢ k
    → find k (update_share_permissions id writable m).0 ≡ find k m
unfolding update_share_permissions
find-update_share_permissions_other id k writable m n = elim (Option-cases (find id m)) [
  | inl e ↦ rw (update_share_permissions, e) refl
  | inr (s, e) ↦ elim (Bool-cases (is_some s.share_id)) [
    | inl y ↦
        rw (update_share_permissions, e, y)
          (get-modify_other id k (λ t. record t { share_writable = writable }) m.sessions n)
    | inr z ↦ rw (update_share_permissions, e, z) refl
  ]
]
