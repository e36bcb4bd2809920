-- ===== src/ServerSessions/Guards.antt =====
-- What is guaranteed of a session that was opened and of a share that was made.
use infram.Prelude.{
  ℕ, ◌+◌, ◌*◌, ◌≤◌, ◌≡◌, ◌≢◌, refl, sym, ap, ◌∙◌, subst, inl, inr, Bool, true, not, ◌||◌, Option,
  some, List, ◌==◌, if◌then◌else◌, is_some, arith, Option-cases, ok, guard-ok, ok-injective, get,
  modify, get-set, get-modify, find_one-test, is_one_of, given,
}
use mathlib.Core.Option.{some-injective}
use infram.Audit.{Settings, create_audit_log, get_org_audit_settings}
use infram.Identities.{Identity, EntryIdentity}
use infram.Models.{Entry}
use infram.Folders.{Tree}
use infram.SessionManager.{Manager, Session, find, create, new_session}
use infram.SessionManager.Sharing.{shared, start_sharing}
use infram.Entries.{entry_at, validate_entry_access, accessible_ids}
use infram.Entries.Resolving.{Resolution, direct, found, missing, may_sign_in_with}
use infram.Entries.Resolved.{resolve_identity-allowed}
use infram.ServerSessions.{
  World, Request, manager_of, configuration_of, connect_event, create_session, opened, is_ok,
  needs_reason, identity_for,
}
use infram.ServerSessions.Calls.{
  Share, share_session, sharing_policy, expires_at, hour, audit_share,
}
use infram.ServerSessions.Passed.{owned, create_session-Opening, share_session-Sharing}

here {ℓ} : {A : Type ℓ} (x y : A) (i : ℕ) → (if i == i then x else y) ≡ x
here x y i = ground arith

-- What a new session may be: it is of the account, on an entry that the account may use, with an
-- identity that the account may use, if it has one, and with a reason where one is required.
pub record IsAllowed (account id : ℕ) (w : World) (s : Session) : Type 0 where
  pub entry : Entry
  pub of_account : s.account_id ≡ account
  pub of_entry : s.entry_id ≡ id
  pub entry_found : entry_at id w.tree.entries ≡ some entry
  pub entry_allowed : is_ok (validate_entry_access account (some entry) w.tree) ≡ true
  pub has_reason :
      needs_reason (get_org_audit_settings entry.organization_id w.journal.stored) ≡ true
      → is_some s.connection_reason ≡ true
  pub identity_allowed :
      (i : ℕ)
      → s.configuration.identity_id ≡ some i
      → is_one_of (accessible_ids account w.tree) i ≡ true

abbrev session_of : (account now : ℕ) → Request → Entry → Option ℕ → World → Session
session_of account now r e i w =
    new_session account e.id (configuration_of r e i) r.connection_reason r.tab_id r.browser_id
      (create_audit_log now (connect_event account r e) w.journal).1 now

find-opened :
    (account fresh now : ℕ) (r : Request) (e : Entry) (i : Option ℕ) (w : World)
    → find fresh (manager_of (opened account fresh now r e i w))
      ≡ some (session_of account now r e i w)
unfolding create
find-opened account fresh now r e i w =
    get-set fresh fresh (session_of account now r e i w) w.tree.manager.sessions
    ∙ here (some (session_of account now r e i w)) _ fresh

-- The identity of a session is one that the account may use.
identity_for-allowed :
    (account : ℕ) (v : Tree) (x : Resolution) (o : Option ℕ) (i : ℕ)
    → account ≢ 0
    → ((j : Identity) → x ≡ found j → may_sign_in_with (some account) v j.id ≡ true)
    → identity_for x ≡ ok o
    → o ≡ some i
    → is_one_of (accessible_ids account v) i ≡ true
unfolding identity_for may_sign_in_with
identity_for-allowed account v (direct d) o i n may h e = let x = ok-injective h ∙ e in ground arith
identity_for-allowed account v (found j) o i n may h e =
    let same_id = some-injective j.id i (ok-injective h ∙ e) in
    let known : given (some account) ≡ some account = ground arith in
    let allowed = rw (may_sign_in_with, known) at may j refl in
    ap (is_one_of (accessible_ids account v)) (sym same_id) ∙ allowed
identity_for-allowed account v (missing r a) o i n may h e =
    let (g1, h1) = guard-ok (not a) 403 _ h in
    let (g2, h2) = guard-ok (not r) 400 _ h1 in let x = ok-injective h2 ∙ e in ground arith

pub implied : (a b : Bool) → (not a || b) ≡ true → a ≡ true → b ≡ true
implied a b h y = ground arith

-- A session that is created is in the registry, and it is of the account that asked for it, on an
-- entry that this account may use, with a reason if the organization of the entry requires one; the
-- identity that it signs in with, if it has one, is one that the account may use. The account's
-- identifier is assumed not to be 0.
pub create_session-IsAllowed :
    (ordered : List EntryIdentity → List EntryIdentity) (account id fresh now : ℕ) (r : Request)
    (w w' : World)
    → account ≢ 0
    → create_session ordered account id fresh now r w ≡ ok w'
    → (s : Session) × (find fresh (manager_of w') ≡ some s) × IsAllowed account id w s
unfolding entry_at
create_session-IsAllowed ordered account id fresh now r w w' n h =
    let o = create_session-Opening ordered account id fresh now r w w' h in
    let same_id : o.entry.id ≡ id =
      let x = find_one-test (λ e. e.id == id) w.tree.entries o.entry o.entry_found in
      ground arith in
    (
      session_of account now r o.entry o.identity w,
      ap (λ x. find fresh (manager_of x)) (sym o.result)
          ∙ find-opened account fresh now r o.entry o.identity w,
      record {
        entry = o.entry;
        of_account = refl;
        of_entry = same_id;
        entry_found = o.entry_found;
        entry_allowed = o.entry_allowed;
        has_reason = λ y. implied _ (is_some r.connection_reason) o.has_reason y;
        identity_allowed = λ i e.
            identity_for-allowed account w.tree _ o.identity i n
              (λ j f.
                resolve_identity-allowed ordered o.entry r.identity_id r.direct_identity
                  (some account) w.tree j f)
              o.identity_found e;
      },
    )

get-modified :
    (id : ℕ) (f : Session → Session) (l : List (ℕ × Session)) (s : Session)
    → get id l ≡ some s
    → get id (modify id f l) ≡ some (f s)
get-modified id f l s e = get-modify id id f l ∙ ground arith

find-start_sharing :
    (id fresh expires : ℕ) (writable : Bool) (m : Manager) (s : Session)
    → find id m ≡ some s
    → (link : ℕ) × ((start_sharing id fresh writable expires m).1 ≡ some link)
      × (find id (start_sharing id fresh writable expires m).0
          ≡ some (shared link writable expires s))
unfolding start_sharing
find-start_sharing id fresh expires writable m s e = elim (Option-cases s.share_id) [
  | inl z ↦ (
    fresh,
    rw (start_sharing, e, z) refl,
    rw (start_sharing, e, z) (get-modified id (shared fresh writable expires) m.sessions s e),
  )
  | inr (link, z) ↦ (
    link,
    rw (start_sharing, e, z) refl,
    rw (start_sharing, e, z) (get-modified id (shared link writable expires) m.sessions s e),
  )
]

expires_at-bounds :
    (hours now : ℕ) (s : Settings)
    → (expires_at hours now s ≤ now + hours * hour)
      × (expires_at hours now s ≤ now + s.share_max_hours * hour)
unfolding expires_at
expires_at-bounds hours now s = (omega arith, omega arith)

-- A share that is made is of a session of the account; it expires no later than the hours asked for
-- from now, nor later than the organization's limit; it is made only where the organization allows
-- sharing, and with writing only where it allows that; and the session in the registry carries
-- exactly the link, the permission and the expiry that the answer has.
pub share_session-bounds :
    (account session fresh now : ℕ) (writable : Bool) (hours : ℕ) (w w' : World) (share : Share)
    → share_session account session fresh now writable hours w ≡ ok (w', share)
    → (s : Session) × (link : ℕ) × (find session (manager_of w) ≡ some s)
      × (s.account_id ≡ account)
      × (share.expires_at ≤ now + hours * hour)
      × (share.expires_at ≤ now + (sharing_policy s w).share_max_hours * hour)
      × ((sharing_policy s w).allow_session_sharing ≡ true)
      × (writable ≡ true → (sharing_policy s w).allow_writable_sharing ≡ true)
      × (share.share_id ≡ some link)
      × (find session (manager_of w') ≡ some (shared link writable share.expires_at s))
unfolding audit_share
share_session-bounds account session fresh now writable hours w w' share h =
    let o = share_session-Sharing account session fresh now writable hours w w' share h in
    let (e, own) = owned account session w o.target o.target_owned in
    let policy = sharing_policy o.target w in
    let until = expires_at hours now policy in
    let (link, given_link, made) =
      find-start_sharing session fresh until writable (manager_of w) o.target e in
    let (by_hours, by_policy) = expires_at-bounds hours now policy in
    (
      o.target,
      link,
      e,
      own,
      subst (λ x. x.expires_at ≤ now + hours * hour) o.answer by_hours,
      subst (λ x. x.expires_at ≤ now + policy.share_max_hours * hour) o.answer by_policy,
      o.sharing_allowed,
      implied writable policy.allow_writable_sharing o.writing_allowed,
      ap (λ x. x.share_id) (sym o.answer) ∙ given_link,
      ap (λ x. find session (manager_of x)) (sym o.result)
          ∙ made
          ∙ ap (λ x. some (shared link writable x.expires_at o.target)) o.answer,
    )
