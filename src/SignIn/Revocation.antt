-- ===== src/SignIn/Revocation.antt =====
-- Revoking sign-in sessions, and the connections that end with them.
use infram.Prelude.{
  ℕ, ◌≡◌, refl, ap, ◌∙◌, Bool, true, false, ◌&&◌, not, none, some, List, [], ◌∷◌, map, count,
  destroy, arith, ◌==◌, if◌then◌else◌, any,
}
use infram.SessionManager
use infram.SessionManager.{Manager, find}
use infram.SessionManager.Steps.{starts_removal, finishes_removal}
use infram.SessionManager.Release.{ids_where, remove_each, remove, remove_all_by_account_id}
use infram.SessionManager.Removal.{find-remove_all, find-remove_each}
use infram.SessionManager.Invariant.{Inv}
use infram.SessionManager.Invariant.Preservation.{Step-Inv}
use infram.SignIn.{Session, Server, distinct, disconnect, left_after, revoke_sessions}

any-destroy :
    (k x : ℕ) (l : List ℕ)
    → (x == k) ≡ false
    → any (λ a. a == k) (destroy (λ y. y == x) l) ≡ any (λ a. a == k) l
unfolding any destroy
any-destroy k x [] n = refl
any-destroy k x (y ∷ l) n = ground (arith, any-destroy k x l n)

any-distinct :
    (k : ℕ) (l : List Session)
    → any (λ a. a == k) (distinct (map (λ s. s.account_id) l)) ≡ any (λ s. s.account_id == k) l
unfolding any distinct
any-distinct k [] = refl
any-distinct k (s ∷ l) =
    ground
      (arith, any-distinct k l, any-destroy k s.account_id (distinct (map (λ s. s.account_id) l)))

-- Does an account have a sign-in session?
abbrev pub signed_in : ℕ → List Session → Bool
signed_in a sessions = if count (λ s. s.account_id == a) sessions == 0 then false else true

remove_each-Inv : (ids : List ℕ) (m : Manager) → Inv m → Inv (remove_each ids m)
unfolding remove_each remove
remove_each-Inv [] m v = v
remove_each-Inv (id ∷ ids) m v =
    remove_each-Inv ids (remove id m).0
      (Step-Inv (finishes_removal id) (Step-Inv (starts_removal id) v))

remove_all-Inv : (a : ℕ) (m : Manager) → Inv m → Inv (remove_all_by_account_id a m).0
unfolding remove_all_by_account_id
remove_all-Inv a m v = remove_each-Inv (ids_where (λ s. s.account_id == a) m.sessions) m v

none_after :
    (a j : ℕ) (m : Manager) → find j m ≡ none → find j (remove_all_by_account_id a m).0 ≡ none
unfolding remove_all_by_account_id
none_after a j m e =
    ground (arith, find-remove_each j (ids_where (λ s. s.account_id == a) m.sessions) m)

gone :
    (accounts : List ℕ) (sessions : List Session) (m : Manager) (j : ℕ)
    → find j m ≡ none
    → find j (disconnect accounts sessions m) ≡ none
unfolding disconnect
gone [] sessions m j e = e
gone (a ∷ accounts) sessions m j e = ground (
  arith,
  gone accounts sessions (remove_all_by_account_id a m).0 j,
  gone accounts sessions m j,
  none_after a j m e,
)

-- Does a session of the registry end with the sign-in sessions of these accounts?
abbrev ends : List ℕ → List Session → SessionManager.Session → Bool
ends accounts sessions s =
    any (λ a. a == s.account_id) accounts && not (signed_in s.account_id sessions)

find-disconnect :
    (accounts : List ℕ) (sessions : List Session) (m : Manager) (j : ℕ) (s : SessionManager.Session)
    → Inv m
    → find j m ≡ some s
    → find j (disconnect accounts sessions m) ≡ (if ends accounts sessions s then none else some s)
unfolding disconnect any
find-disconnect [] sessions m j s v e = e
find-disconnect (a ∷ accounts) sessions m j s v e = ground (
  arith,
  find-disconnect accounts sessions (remove_all_by_account_id a m).0 j s (remove_all-Inv a m v),
  find-disconnect accounts sessions m j s v e,
  gone accounts sessions (remove_all_by_account_id a m).0 j,
  (find-remove_all a j m s v e).0,
)

-- Revoking sign-in sessions ends a connection of the registry exactly if one of them is of the
-- connection's account and the account has no other sign-in session left; every other connection
-- stays as it is. A registry that satisfies its invariant is assumed.
pub find-revoke_sessions :
    (rs : List Session) (v : Server) (j : ℕ) (s : SessionManager.Session)
    → Inv v.manager
    → find j v.manager ≡ some s
    → find j (revoke_sessions rs v).manager ≡ (
        if any (λ r. r.account_id == s.account_id) rs
          && not (signed_in s.account_id (left_after rs v.sessions))
        then none
        else some s)
unfolding revoke_sessions any
find-revoke_sessions [] v j s inv e = e
find-revoke_sessions (r ∷ rs) v j s inv e =
    find-disconnect (distinct (map (λ s. s.account_id) (r ∷ rs))) (left_after (r ∷ rs) v.sessions)
      v.manager j s inv e
    ∙ ap
        (λ b.
          if b && not (signed_in s.account_id (left_after (r ∷ rs) v.sessions))
          then none
          else some s)
        (any-distinct s.account_id (r ∷ rs))
