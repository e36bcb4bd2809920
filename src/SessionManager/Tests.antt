-- ===== src/SessionManager/Tests.antt =====
-- The registry's theorems at concrete inputs, and runs of its calls.
use infram.Models.{Renderer}
use infram.Prelude.{
  ℕ, ◌≡◌, refl, ◌⊎◌, true, false, not, none, some, [], ◌∷◌, ◌++◌, if◌then◌else◌, arith, get, set,
  delete, modify, leb,
}
use infram.SessionManager.{
  Configuration, Session, Manager, find, new_session, create, hibernate,
  set_master_connection_pending, get_all,
}
use infram.SessionManager.Sharing.{shared, unshared, start_sharing, stop_sharing, get_by_share_id}
use infram.SessionManager.Log.{get_log_buffer, max_log_buffer_size, take_last}
use infram.SessionManager.Log.Window.{append_logs, all_output, get_log_buffer-append_logs}
use infram.SessionManager.Release.{cleanup_old_sessions}
use infram.SessionManager.Steps.{creates, hibernates, starts_sharing, Reach, here, next}
use infram.SessionManager.Invariant.{Inv}
use infram.SessionManager.Invariant.Preservation.{no_sessions, Reach-no_sessions-Inv}
use infram.SessionManager.Links.{get_by_share_id-stop_sharing, get_by_share_id-start_sharing}
use infram.SessionManager.Evolution.{Evolves, is_claimed}
use infram.SessionManager.Evolution.Steps.{Step-After}
use infram.SessionManager.Evolution.Claims.{start, claim_once}

abbrev terminal : Configuration
terminal = record {
  identity_id = some 4;
  kind = none;
  direct_identity = none;
  script_id = none;
  start_path = none;
  renderer = some Renderer.terminal;
}

-- Session 7 of account 1 on entry 3, from tab 20 of browser 30.
abbrev pub opened : Session
opened = new_session 1 3 terminal none (some 20) (some 30) (some 5) 1000

abbrev pub one_session : Manager
one_session = create 7 1 3 terminal none (some 20) (some 30) (some 5) 1000 no_sessions

abbrev shared_session : Manager
shared_session = (start_sharing 7 9 true 5000 one_session).0

one_session-Reach : Reach no_sessions one_session
unfolding get
one_session-Reach = next here (creates 7 1 3 terminal none (some 20) (some 30) (some 5) 1000 refl)

pub find-one_session : find 7 one_session ≡ some opened
unfolding create set get
find-one_session = refl

find-shared_session : find 7 shared_session ≡ some (shared 9 true 5000 opened)
unfolding create set get start_sharing modify
find-shared_session = refl

Reach-no_sessions-Inv_example : Inv shared_session
unfolding create get
Reach-no_sessions-Inv_example =
    Reach-no_sessions-Inv (next one_session-Reach (starts_sharing 7 9 true 5000 refl))

pub one_session-Inv : Inv one_session
one_session-Inv = Reach-no_sessions-Inv one_session-Reach

get_by_share_id-start_sharing_example :
    (link : ℕ) × ((start_sharing 7 9 true 5000 one_session).1 ≡ some link)
    × (get_by_share_id link 6000 (start_sharing 7 9 true 5000 one_session).0 ≡ (
        if leb 5000 6000
        then ((stop_sharing 7 (start_sharing 7 9 true 5000 one_session).0).0, none)
        else ((start_sharing 7 9 true 5000 one_session).0, some 7)))
    × (get link (stop_sharing 7 (start_sharing 7 9 true 5000 one_session).0).0.share_index ≡ none)
    × (find 7 (stop_sharing 7 (start_sharing 7 9 true 5000 one_session).0).0
        ≡ some (unshared (shared link true 5000 opened)))
get_by_share_id-start_sharing_example =
    get_by_share_id-start_sharing 7 9 5000 6000 true one_session opened one_session-Inv
      find-one_session (omega arith)

get_by_share_id-stop_sharing_example :
    ((get_by_share_id 9 2000 (stop_sharing 7 shared_session).0).1 ≡ none)
    × (get 8 (stop_sharing 7 shared_session).0.share_index ≡ get 8 shared_session.share_index)
get_by_share_id-stop_sharing_example =
    get_by_share_id-stop_sharing 7 9 8 2000 shared_session (shared 9 true 5000 opened)
      find-shared_session refl (omega arith)

Step-After_example :
    (find 7 (hibernate 7 2000 one_session).0 ≡ none)
    ⊎ ((t : Session) × (find 7 (hibernate 7 2000 one_session).0 ≡ some t) × Evolves opened t)
Step-After_example = Step-After 7 opened (hibernates 7 2000) find-one_session

claim_once_example :
    ((set_master_connection_pending 7 one_session).1 ≡ not (is_claimed opened))
    × (set_master_connection_pending 7 (set_master_connection_pending 7 one_session).0
        ≡ ((set_master_connection_pending 7 one_session).0, false))
claim_once_example =
    claim_once 7 one_session (set_master_connection_pending 7 one_session).0 opened find-one_session
      start

get_log_buffer-append_logs_example :
    get_log_buffer 7 (append_logs 7 ((1100, 65 ∷ []) ∷ (1200, 66 ∷ 67 ∷ []) ∷ []) one_session)
    ≡ take_last max_log_buffer_size
        (get_log_buffer 7 one_session ++ all_output ((1100, 65 ∷ []) ∷ (1200, 66 ∷ 67 ∷ []) ∷ []))
get_log_buffer-append_logs_example =
    get_log_buffer-append_logs 7 1100 (65 ∷ []) ((1200, 66 ∷ 67 ∷ []) ∷ []) one_session opened
      find-one_session

-- A session of another browser is hidden until it is hibernated.
other_browser :
    (get_all 1 none (some (some 31)) one_session ≡ [])
    × (get_all 1 none (some (some 31)) (hibernate 7 2000 one_session).0
        ≡ (7, record opened { is_hibernated = true; last_activity = 2000 }) ∷ [])
unfolding get_all hibernate create set modify
other_browser = (refl, refl)

cleaned_up :
    (cleanup_old_sessions 30000000 one_session ≡ (no_sessions, 1))
    × (cleanup_old_sessions 21601000 one_session ≡ (one_session, 0))
unfolding cleanup_old_sessions create set modify delete get
cleaned_up = (refl, refl)
