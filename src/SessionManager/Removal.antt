-- ===== src/SessionManager/Removal.antt =====
-- Which sessions a removal takes away, and what happens to their resources.
use infram.Prelude.{
  ℕ, ◌≡◌, ◌+◌, refl, ◌∙◌, ap, inl, inr, Bool, false, not, ◌&&◌, none, some, List, [], ◌∷◌, ◌==◌,
  if◌then◌else◌, ltb, arith, Option-cases, get, get-modify, get-delete, UniqueKeys, any,
}
use infram.SessionManager.{Session, Manager, find, change}
use infram.SessionManager.Release.{
  without_sockets, remove_start, remove_finish, remove, is_old, ids_where, remove_each,
  cleanup_old_sessions, remove_all_by_account_id, remove_all_by_entry_id, max_idle,
}
use infram.SessionManager.Invariant.{Inv}

find-remove_finish :
    (id j : ℕ) (m : Manager) → find j (remove_finish id m) ≡ (if id == j then none else find j m)
unfolding remove_finish
find-remove_finish id j m = elim (Option-cases (find id m)) [
  | inl e ↦ rw (e, remove_finish) (ground arith)
  | inr (s, e) ↦ rw (e, remove_finish) (get-delete id j m.sessions)
]

pub find-remove :
    (id j : ℕ) (m : Manager) → find j (remove id m).0 ≡ (if id == j then none else find j m)
unfolding remove remove_start
find-remove id j m =
    let f = λ (s : Session). record (without_sockets s) { recording = none } in
    find-remove_finish id j (change id f m) ∙ ground (arith, get-modify id j f m.sessions)

pub find-remove_each :
    (j : ℕ) (ids : List ℕ) (m : Manager)
    → find j (remove_each ids m) ≡ (if any (λ i. i == j) ids then none else find j m)
unfolding remove_each any
find-remove_each j [] m = refl
find-remove_each j (i ∷ ids) m =
    ground (arith, find-remove_each j ids (remove i m).0, find-remove i j m)

any-ids_where-none :
    (p : Session → Bool) (l : List (ℕ × Session)) (j : ℕ)
    → get j l ≡ none
    → any (λ i. i == j) (ids_where p l) ≡ false
unfolding any ids_where get
any-ids_where-none p [] j e = refl
any-ids_where-none p ((i, s) ∷ l) j e = ground (arith, any-ids_where-none p l j)

any-ids_where :
    (p : Session → Bool) (l : List (ℕ × Session)) (j : ℕ) (s : Session)
    → UniqueKeys l
    → get j l ≡ some s
    → any (λ i. i == j) (ids_where p l) ≡ p s
unfolding any ids_where get
any-ids_where p [] j s u e = ground arith
any-ids_where p ((i, t) ∷ l) j s (a, u) e =
    ground (arith, any-ids_where p l j s u, any-ids_where-none p l j)

find-remove_each_where :
    (p : Session → Bool) (j : ℕ) (m : Manager) (s : Session)
    → Inv m
    → find j m ≡ some s
    → find j (remove_each (ids_where p m.sessions) m) ≡ (if p s then none else some s)
find-remove_each_where p j m s v e =
    find-remove_each j (ids_where p m.sessions) m
    ∙ (rw (any-ids_where p m.sessions j s v.unique e, e))

-- The periodic cleanup removes a session exactly if it is not hibernated and its last activity is
-- more than six hours ago; any other session stays as it is. The registry satisfies its invariant.
find-cleanup_old_sessions :
    (now j : ℕ) (m : Manager) (s : Session)
    → Inv m
    → find j m ≡ some s
    → find j (cleanup_old_sessions now m).0
      ≡ (if not s.is_hibernated && ltb (s.last_activity + max_idle) now then none else some s)
unfolding cleanup_old_sessions is_old
find-cleanup_old_sessions now j m s v e =
    find-remove_each_where (is_old now) j m s v e
    ∙ ap (λ b. if not s.is_hibernated && b then none else some s) (ground arith)

-- Removing the sessions of an account, or of an entry, removes exactly those: they are gone, and
-- every other session is still there, unchanged. The registry satisfies its invariant.
pub find-remove_all :
    (key j : ℕ) (m : Manager) (s : Session)
    → Inv m
    → find j m ≡ some s
    → (find j (remove_all_by_account_id key m).0 ≡ (if s.account_id == key then none else some s))
      × (find j (remove_all_by_entry_id key m).0 ≡ (if s.entry_id == key then none else some s))
unfolding remove_all_by_account_id remove_all_by_entry_id
find-remove_all key j m s v e = (
  find-remove_each_where (λ t. t.account_id == key) j m s v e,
  find-remove_each_where (λ t. t.entry_id == key) j m s v e,
)
