-- ===== src/SessionManager/Evolution/Claims.antt =====
-- The master connection is opened by one client only.
use infram.Prelude.{ℕ, ◌≡◌, inl, inr, true, false, some, arith, Bool-cases, not}
use infram.SessionManager.{Session, Manager, find, change, set_master_connection_pending}
use infram.SessionManager.Steps.{Step}
use infram.SessionManager.Invariant.{find-change_self}
use infram.SessionManager.Evolution.{is_claimed}
use infram.SessionManager.Evolution.Steps.{Step-After}

claim_refused :
    (id : ℕ) (m : Manager) (s : Session)
    → find id m ≡ some s
    → is_claimed s ≡ true
    → set_master_connection_pending id m ≡ (m, false)
unfolding set_master_connection_pending
claim_refused id m s e h = rw (e, set_master_connection_pending) (rw h)

claim_granted :
    (id : ℕ) (m : Manager) (s : Session)
    → find id m ≡ some s
    → is_claimed s ≡ false
    → set_master_connection_pending id m
      ≡ (change id (λ t. record t { master_connection_pending = true }) m, true)
unfolding set_master_connection_pending
claim_granted id m s e h = rw (e, set_master_connection_pending) (rw h)

-- A history in which a session is in the registry all the time.
pub data Lives (id : ℕ) (m : Manager) : Manager → Type 0 where
  start : Lives id m m
  more : {n k : Manager} (t : Session) → Lives id m n → Step n k → find id k ≡ some t → Lives id m k

Claimed : ℕ → Manager → Type 0
Claimed id m = (s : Session) × (find id m ≡ some s) × (is_claimed s ≡ true)

Step-Claimed :
    {m n : Manager} (id : ℕ) (t : Session)
    → Step m n
    → find id n ≡ some t
    → Claimed id m
    → Claimed id n
unfolding Claimed
Step-Claimed id t st e (s, found, h) = elim (Step-After id s st found) [
  | inl gone ↦ cc
  | inr (u, e', ev) ↦ (u, e', ev.claimed h)
]

Lives-Claimed : {id : ℕ} {m n : Manager} → Lives id m n → Claimed id m → Claimed id n
Lives-Claimed start c = c
Lives-Claimed {id} (more t l st e) c = Step-Claimed id t st e (Lives-Claimed l c)

claim-Claimed :
    (id : ℕ) (m : Manager) (s : Session)
    → find id m ≡ some s
    → Claimed id (set_master_connection_pending id m).0
unfolding Claimed
claim-Claimed id m s e = elim (Bool-cases (is_claimed s)) [
  | inl has ↦ rw (claim_refused id m s e has) (s, e, has)
  | inr lacks ↦ rw (claim_granted id m s e lacks) (
    record s { master_connection_pending = true },
    find-change_self id (λ t. record t { master_connection_pending = true }) m s e,
    ground arith,
  )
]

-- A claim to open the master connection of a known session is granted exactly if there is neither
-- a connection nor a claim; and as long as the session stays in the registry, whatever calls come
-- between, every further claim is refused and changes nothing.
pub claim_once :
    (id : ℕ) (m n : Manager) (s : Session)
    → find id m ≡ some s
    → Lives id (set_master_connection_pending id m).0 n
    → ((set_master_connection_pending id m).1 ≡ not (is_claimed s))
      × (set_master_connection_pending id n ≡ (n, false))
unfolding Claimed
claim_once id m n s e l =
    let (t, found, h) = Lives-Claimed l (claim-Claimed id m s e) in
    (
      elim (Bool-cases (is_claimed s)) [
        | inl has ↦ rw (claim_refused id m s e has) (rw has)
        | inr lacks ↦ rw (claim_granted id m s e lacks) (rw lacks)
      ],
      claim_refused id n t found h,
    )
