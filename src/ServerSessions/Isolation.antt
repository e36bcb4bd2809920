-- ===== src/ServerSessions/Isolation.antt =====
-- The calls of serverSession.js on sessions of other accounts.
use infram.Prelude.{
  ℕ, ◌≡◌, ◌≢◌, refl, sym, ap, ◌∙◌, Bool, not, ◌||◌, Option, none, some, List, is_some, arith,
  Result, ok, err, or_err, bind-ok, guard-ok, ok-injective, get-set,
}
use mathlib.Core.Option.{some-injective}
use infram.Audit.Actions.{Action}
use infram.Models.{Entry}
use infram.Identities.{EntryIdentity}
use infram.SessionManager.{Session, find, create, hibernate, resume}
use infram.SessionManager.Removal.{find-remove}
use infram.ServerSessions.Elsewhere.{
  get-modify_other, elsewhere, find-start_sharing_other, find-stop_sharing_other,
  find-update_share_permissions_other,
}
use infram.ServerSessions.Passed.{
  owned, create_session-Opening, share_session-Sharing, paste_identity_password-manager,
}
use infram.ServerSessions.{
  World, Request, manager_of, create_session, opened, validate_session_ownership,
}
use infram.ServerSessions.Calls.{
  hibernate_session, resume_session, delete_session, share_session, unshare_session,
  set_share_permissions, duplicate_session, paste_identity_password, audit_share, sharing_policy,
}
use infram.Entries.{entry_at}

-- A call of a user, and what it makes of the world.
pub data Call : Type 0 where
  creates : (entry : ℕ) → Request → Call
  hibernates : (session : ℕ) → Call
  resumes : (session : ℕ) → (tab browser : Option ℕ) → Call
  deletes : (session : ℕ) → Call
  shares : (session : ℕ) → (writable : Bool) → (hours : ℕ) → Call
  unshares : (session : ℕ) → Call
  permits : (session : ℕ) → (writable : Bool) → Call
  duplicates : (session : ℕ) → (tab browser : Option ℕ) → Call
  pastes : (writes : Bool) → (session : ℕ) → Call

abbrev world_of {ℓ} : {A : Type ℓ} → Result (World × A) → Result World
world_of (err code) = err code
world_of (ok a) = ok a.0

world_of-ok {ℓ} :
    {A : Type ℓ} (r : Result (World × A)) {w : World}
    → world_of r ≡ ok w
    → (x : World) × (a : A) × (r ≡ ok (x, a)) × (x ≡ w)
world_of-ok (err code) h = ground arith
world_of-ok (ok (x, a)) h = (x, a, refl, ok-injective h)

abbrev pub run :
    (List EntryIdentity → List EntryIdentity)
    → (account fresh now : ℕ) → Call
    → World
    → Result World
run ordered account fresh now (creates entry r) w =
    create_session ordered account entry fresh now r w
run ordered account fresh now (hibernates session) w = hibernate_session account session now w
run ordered account fresh now (resumes session tab browser) w =
    resume_session account session tab browser now w
run ordered account fresh now (deletes session) w = delete_session account session w
run ordered account fresh now (shares session writable hours) w =
    world_of (share_session account session fresh now writable hours w)
run ordered account fresh now (unshares session) w = unshare_session account session now w
run ordered account fresh now (permits session writable) w =
    set_share_permissions account session now writable w
run ordered account fresh now (duplicates session tab browser) w =
    duplicate_session ordered account session fresh now tab browser w
run ordered account fresh now (pastes writes session) w =
    world_of (paste_identity_password writes account session now w)

-- The session that a call is about is none of another account's.
other_session :
    (account session k : ℕ) (w : World) (s t : Session)
    → validate_session_ownership account session w ≡ ok t
    → find k (manager_of w) ≡ some s
    → s.account_id ≢ account
    → session ≢ k
other_session account session k w s t h f n same_id =
    let (e, own) = owned account session w t h in
    let one = some-injective t s (sym e ∙ ap (λ i. find i (manager_of w)) same_id ∙ f) in
    n (ap (λ x. x.account_id) (sym one) ∙ own)

manager-audit_share :
    (account now : ℕ) (s : Session) (a : Action) (w : World)
    → manager_of (audit_share account now s a w) ≡ manager_of w
unfolding audit_share
manager-audit_share account now s a w = refl

find-opened_other :
    (account fresh now k : ℕ) (r : Request) (e : Entry) (i : Option ℕ) (w : World)
    → fresh ≢ k
    → find k (manager_of (opened account fresh now r e i w)) ≡ find k (manager_of w)
unfolding create
find-opened_other account fresh now k r e i w n =
    get-set fresh k _ w.tree.manager.sessions ∙ elsewhere _ _ fresh k n

-- Where a call ends, seen by another session.
ends :
    (k : ℕ) (w : World) {x w' : World}
    → ok x ≡ ok w'
    → find k (manager_of x) ≡ find k (manager_of w)
    → find k (manager_of w') ≡ find k (manager_of w)
ends k w h e = ap (λ x. find k (manager_of x)) (sym (ok-injective h)) ∙ e

created_other :
    (ordered : List EntryIdentity → List EntryIdentity) (account entry fresh now k : ℕ)
    (r : Request) (w w' : World)
    → create_session ordered account entry fresh now r w ≡ ok w'
    → fresh ≢ k
    → find k (manager_of w') ≡ find k (manager_of w)
created_other ordered account entry fresh now k r w w' h n =
    let o = create_session-Opening ordered account entry fresh now r w w' h in
    ends k w (ap ok o.result) (find-opened_other account fresh now k r o.entry o.identity w n)

-- The session that a call is about, if there is one, is not the session `k`.
abbrev Spares : (account k : ℕ) → World → Type 0
Spares account k w =
    (session : ℕ) (t : Session) → validate_session_ownership account session w ≡ ok t → session ≢ k

run_other :
    (ordered : List EntryIdentity → List EntryIdentity) (account fresh now k : ℕ) (c : Call)
    (w w' : World)
    → run ordered account fresh now c w ≡ ok w'
    → fresh ≢ k
    → Spares account k w
    → find k (manager_of w') ≡ find k (manager_of w)
unfolding hibernate_session resume_session delete_session share_session unshare_session
    set_share_permissions duplicate_session paste_identity_password hibernate resume audit_share
run_other ordered account fresh now k (creates entry r) w w' h n other =
    created_other ordered account entry fresh now k r w w' h n
run_other ordered account fresh now k (hibernates session) w w' h n other =
    let (t, own, h1) = bind-ok (validate_session_ownership account session w) _ h in
    let (g, h2) = guard-ok (hibernate session now (manager_of w)).1 404 _ h1 in
    ends k w h2 (get-modify_other session k _ (manager_of w).sessions (other session t own))
run_other ordered account fresh now k (resumes session tab browser) w w' h n other =
    let (t, own, h1) = bind-ok (validate_session_ownership account session w) _ h in
    let (g, h2) = guard-ok (resume session tab browser now (manager_of w)).1 404 _ h1 in
    ends k w h2 (get-modify_other session k _ (manager_of w).sessions (other session t own))
run_other ordered account fresh now k (deletes session) w w' h n other =
    let (t, own, h1) = bind-ok (validate_session_ownership account session w) _ h in
    let away = other session t own in
    ends k w h1 (find-remove session k (manager_of w) ∙ elsewhere _ _ session k away)
run_other ordered account fresh now k (shares session writable hours) w w' h n other =
    let (w1, share, e, f) = world_of-ok _ h in
    let o = share_session-Sharing account session fresh now writable hours w w1 share e in
    let away = other session o.target o.target_owned in
    ends k w (ap ok (o.result ∙ f))
      (find-start_sharing_other session k fresh _ writable (manager_of w) away)
run_other ordered account fresh now k (unshares session) w w' h n other =
    let (t, own, h1) = bind-ok (validate_session_ownership account session w) _ h in
    ends k w h1 (find-stop_sharing_other session k (manager_of w) (other session t own))
run_other ordered account fresh now k (permits session writable) w w' h n other =
    let (t, own, h1) = bind-ok (validate_session_ownership account session w) _ h in
    let (g1, h2) = guard-ok (is_some t.share_id) 400 _ h1 in
    let (g2, h3) =
      guard-ok (not writable || (sharing_policy t w).allow_writable_sharing) 403 _ h2 in
    ends k w h3
      (find-update_share_permissions_other session k writable (manager_of w) (other session t own))
run_other ordered account fresh now k (duplicates session tab browser) w w' h n other =
    let (t, own, h1) = bind-ok (validate_session_ownership account session w) _ h in
    let (e, found, h2) = bind-ok (or_err (entry_at t.entry_id w.tree.entries) 404) _ h1 in
    created_other ordered account t.entry_id fresh now k _ w w' h2 n
run_other ordered account fresh now k (pastes writes session) w w' h n other =
    let (w1, password, e, f) = world_of-ok _ h in
    ap (λ x. find k (manager_of x)) (sym f)
    ∙ ap (find k) (paste_identity_password-manager writes account session now w w1 password e)

-- Whatever a user asks of a session, or of a new one, the sessions of other accounts are as before:
-- a call that succeeds has left every session of another account in the registry, unchanged. The
-- identifier that is drawn for a new session is assumed to be unused.
pub run-find :
    (ordered : List EntryIdentity → List EntryIdentity) (account fresh now k : ℕ) (c : Call)
    (w w' : World) (s : Session)
    → run ordered account fresh now c w ≡ ok w'
    → find fresh (manager_of w) ≡ none
    → find k (manager_of w) ≡ some s
    → s.account_id ≢ account
    → find k (manager_of w') ≡ some s
run-find ordered account fresh now k c w w' s h new e n =
    run_other ordered account fresh now k c w w' h
      (λ same_id. let x = sym new ∙ ap (λ i. find i (manager_of w)) same_id ∙ e in ground arith)
      (λ session t own. other_session account session k w s t own e n)
    ∙ e
