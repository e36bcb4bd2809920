-- ===== src/Sockets/Admitted.antt =====
-- What holds of a socket that is let in.
use Prim.Native.String.{String}
use text.Mathlib.Text.{◌==◌ as str_eq}
use infram.Prelude.{
  ℕ, ◌≡◌, refl, sym, ap, ◌∙◌, subst, inl, inr, true, not, ◌||◌, Option, none, some, List, ◌==◌,
  ==_iff, arith, Bool-cases, Option-cases, is_some, given, ok, or_err, bind-ok, guard-ok,
  ok-injective,
}
use mathlib.Core.Option.{some-injective}
use infram.Audit.{get_org_audit_settings}
use infram.Identities.{Identity, EntryIdentity}
use infram.SessionManager
use infram.SessionManager.{Manager, find, update_activity}
use infram.SignIn
use infram.SignIn.{Account, present, resolve_session}
use infram.SignIn.Admission.{IsAdmitted, resolve_session_lem}
use infram.Entries.{entry_at, validate_entry_access}
use infram.Entries.Resolving.{
  Resolution, direct, found, missing, resolve_identity, may_sign_in_with,
}
use infram.Entries.Resolved.{resolve_identity-allowed}
use infram.ServerSessions.{manager_of, with_manager, is_ok, needs_reason}
use infram.ServerSessions.Guards.{implied}
use infram.Sockets.{
  Hub, Query, Admission, Context, server_of, with_server, own_session, admit_entry, admit_target,
  authenticate_web_socket, identity_id_of, direct_identity_of, reason_of, checked, admit_identity,
  authenticate,
}

-- What holds of the first part, in the tables that it leaves.
record Passed (user : Account) (session : SignIn.Session) (h h' : Hub) (a : Admission)
    : Type 0 where
  pub same_user : a.user ≡ user
  pub same_session : a.session ≡ session
  pub allowed : is_ok (validate_entry_access user.id (some a.entry) h'.world.tree) ≡ true
  pub own : (s : SessionManager.Session) → a.server_session ≡ some s → s.account_id ≡ user.id
  pub tables : (m : Manager) × (h'.world ≡ with_manager m h.world)

admit_entry-Passed :
    (user : Account) (session : SignIn.Session) (s : Option SessionManager.Session)
    (target : Option ℕ) (h h' : Hub) (a : Admission)
    → ((r : SessionManager.Session) → s ≡ some r → r.account_id ≡ user.id)
    → (m : Manager) × (h'.world ≡ with_manager m h.world)
    → admit_entry user session s target h' ≡ ok a
    → Passed user session h h' a
unfolding admit_entry
admit_entry-Passed user session s target h h' a mine t e =
    let (id, e0, e1) = bind-ok (or_err (given target) 4002) _ e in
    let (x, e2, e3) = bind-ok (or_err (entry_at id h'.world.tree.entries) 4005) _ e1 in
    let (g, e4) =
      guard-ok (is_ok (validate_entry_access user.id (some x) h'.world.tree)) 4005 _ e3 in
    subst (Passed user session h h') (ok-injective e4)
      (record { same_user = refl; same_session = refl; allowed = g; own = mine; tables = t })

own_session-ok :
    (user : Account) (id now : ℕ) (h : Hub) (s : SessionManager.Session)
    → (own_session user id now h).1 ≡ ok s
    → (s.account_id ≡ user.id)
      × ((m : Manager) × ((own_session user id now h).0.world ≡ with_manager m h.world))
unfolding own_session
own_session-ok user id now h s e = elim (Option-cases (find id (manager_of h.world))) [
  | inl n ↦ let bad = rw (own_session, n) at e in ground arith
  | inr (r, f) ↦ elim (Bool-cases (r.account_id == user.id)) [
    | inr z ↦ let bad = rw (own_session, f, z) at e in ground arith
    | inl y ↦
        let one = ok-injective (rw (own_session, f, y) at e) in
        (
          ap (λ x. x.account_id) (sym one) ∙ (==_iff r.account_id user.id).0 y,
          (update_activity id now (manager_of h.world), rw (own_session, f, y) refl),
        )
  ]
]

admit_target-Passed :
    (user : Account) (session : SignIn.Session) (q : Query) (now : ℕ) (h : Hub) (a : Admission)
    → (admit_target user session q now h).1 ≡ ok a
    → Passed user session h (admit_target user session q now h).0 a
unfolding admit_target
admit_target-Passed user session q now h a e = elim (Option-cases (given q.session_id)) [
  | inl n ↦
      rw (admit_target, n)
        (admit_entry-Passed user session none q.entry_id h h a (λ r x. ground arith)
          (manager_of h.world, refl) (rw (admit_target, n) at e))
  | inr (id, g) ↦
      let o = own_session user id now h in
      let (s, e1, e2) =
        bind-ok o.1 (λ r. admit_entry user session (some r) (some r.entry_id) o.0)
          (rw (admit_target, g) at e) in
      let (mine, t) = own_session-ok user id now h s e1 in
      rw (admit_target, g)
        (admit_entry-Passed user session (some s) (some s.entry_id) h o.0 a
          (λ r x. ap (λ z. z.account_id) (sym (some-injective s r x)) ∙ mine) t e2)
]

-- What a socket that is let in may use. The tables are those that the request leaves, in which only
-- the registry and the sign-in sessions may have changed.
pub record IsLetIn (q : Query) (now : ℕ) (h h' : Hub) (c : Context) : Type 0 where
  pub signed_in : IsAdmitted q.session_token now (server_of h) c.admission.session c.admission.user
  pub entry_allowed :
      is_ok (validate_entry_access c.admission.user.id (some c.admission.entry) h'.world.tree)
      ≡ true
  pub own_session_only :
      (s : SessionManager.Session)
      → c.admission.server_session ≡ some s
      → s.account_id ≡ c.admission.user.id
  pub has_reason :
      needs_reason
          (get_org_audit_settings c.admission.entry.organization_id h'.world.journal.stored)
        ≡ true
      → is_some c.connection_reason ≡ true
  pub identity_allowed :
      (i : Identity)
      → c.identity ≡ found i
      → may_sign_in_with (some c.admission.user.id) h'.world.tree i.id ≡ true
  pub tables : (m : Manager) × (h'.world ≡ with_manager m h.world)

checked-ok : (r i : Resolution) → checked r ≡ ok i → r ≡ i
checked-ok (direct d) i h = ok-injective h
checked-ok (found j) i h = ok-injective h
checked-ok (missing a b) i h =
    let (g, h1) = guard-ok (not b) 4006 _ h in
    let (g', h2) = guard-ok (not a) 4006 _ h1 in ok-injective h2

present-eq : (o : Option String) (t : String) → present o ≡ some t → o ≡ some t
present-eq none t h = h
present-eq (some s) t h = elim (Bool-cases (str_eq s "")) [
  | inl y ↦ let bad = rw y at h in ground arith
  | inr n ↦ rw n at h
]

web_socket-Passed :
    (q : Query) (now : ℕ) (h : Hub) (a : Admission)
    → (authenticate_web_socket q now h).1 ≡ ok a
    → IsAdmitted q.session_token now (server_of h) a.session a.user
      × Passed a.user a.session h (authenticate_web_socket q now h).0 a
unfolding authenticate_web_socket
web_socket-Passed q now h a e = elim (Option-cases (present q.session_token)) [
  | inl n ↦ let bad = rw (authenticate_web_socket, n) at e in ground arith
  | inr (t, y) ↦
      let r = resolve_session (some t) none now (server_of h) in
      elim (Option-cases r.1) [
        | inl n ↦ let bad = rw (authenticate_web_socket, y, n) at e in ground arith
        | inr (su, z) ↦
            let v = with_server r.0 h in
            let p =
              admit_target-Passed su.1 su.0 q now v a (rw (authenticate_web_socket, y, z) at e) in
            let signed = (resolve_session_lem (some t) none now (server_of h) su.0 su.1).0 z in
            (
              rw (present-eq q.session_token t y, p.same_session, p.same_user) signed,
              rw (authenticate_web_socket, y, z)
                  (record {
                    same_user = refl;
                    same_session = refl;
                    allowed =
                        subst
                          (λ u.
                            is_ok (
                              validate_entry_access u.id (some a.entry)
                                (admit_target su.1 su.0 q now v).0.world.tree)
                            ≡ true)
                          (sym p.same_user) p.allowed;
                    own = λ s x. p.own s x ∙ ap (λ u. u.id) (sym p.same_user);
                    tables = p.tables;
                  }),
            )
      ]
]

-- A socket without a share link is let in only with the token of a sign-in session that is valid, of
-- an account that is not disabled; it then uses an entry that this account may use, a session of the
-- registry only if it is the account's own, and an identity only if the account may sign in with it;
-- and a reason is given where the organization of the entry requires one.
pub authenticate-IsLetIn :
    (ordered : List EntryIdentity → List EntryIdentity) (q : Query) (now : ℕ) (h : Hub)
    (c : Context)
    → (authenticate ordered q now h).1 ≡ ok c
    → IsLetIn q now h (authenticate ordered q now h).0 c
unfolding authenticate admit_identity
authenticate-IsLetIn ordered q now h c e =
    let r = authenticate_web_socket q now h in
    let (a, e1, e2) = bind-ok r.1 (λ a. admit_identity ordered q r.0 a) e in
    let (signed, p) = web_socket-Passed q now h a e1 in
    let needed =
      needs_reason (get_org_audit_settings a.entry.organization_id r.0.world.journal.stored) in
    let (g, e3) = guard-ok (not needed || is_some (reason_of q a.server_session)) 4008 _ e2 in
    let i =
      resolve_identity ordered a.entry (identity_id_of q a.server_session)
        (direct_identity_of a.server_session) (some a.user.id) r.0.world.tree in
    let (j, e4, e5) = bind-ok (checked i) _ e3 in
    subst (IsLetIn q now h r.0) (ok-injective e5) (record {
      signed_in = signed;
      entry_allowed = p.allowed;
      own_session_only = p.own;
      has_reason = λ y. implied needed (is_some (reason_of q a.server_session)) g y;
      identity_allowed = λ k f.
          resolve_identity-allowed ordered a.entry (identity_id_of q a.server_session)
            (direct_identity_of a.server_session) (some a.user.id) r.0.world.tree k
            (checked-ok i j e4 ∙ f);
      tables = p.tables;
    })
