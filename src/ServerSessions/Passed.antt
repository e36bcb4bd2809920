-- ===== src/ServerSessions/Passed.antt =====
-- What a request to serverSession.js that succeeds has passed.
use infram.Prelude.{
  ℕ, ◌≡◌, sym, ap, ◌∙◌, Bool, true, not, ◌&&◌, ◌||◌, Option, some, List, ◌==◌, is_some, arith, ok,
  or_err, bind-ok, guard-ok, or_err-ok, ok-injective, given,
}
use infram.Audit.{get_org_audit_settings}
use infram.Identities.{EntryIdentity, get_identity}
use infram.Identities.Credentials.{CredentialType, secret_of}
use infram.Models.{Entry}
use infram.SessionManager.{Session, find, get_master_connection}
use infram.SessionManager.Sharing.{start_sharing}
use infram.Audit.Actions.{share_start}
use infram.Entries.{entry_at, validate_entry_access}
use infram.Entries.Resolving.{resolve_identity, is_pve}
use infram.ServerSessions.{
  World, Request, manager_of, with_manager, is_ok, needs_reason, identity_for, create_session,
  opened, validate_session_ownership,
}
use infram.ServerSessions.Calls.{
  Share, share_session, sharing_policy, expires_at, audit_share, paste_identity_password,
  has_stream, vault_of,
}

-- The session that a call is about is of the account.
pub owned :
    (account session : ℕ) (w : World) (s : Session)
    → validate_session_ownership account session w ≡ ok s
    → (find session (manager_of w) ≡ some s) × (s.account_id ≡ account)
unfolding validate_session_ownership
owned account session w s h =
    let (t, e, g) = bind-ok (or_err (find session (manager_of w)) 404) _ h in
    let (y, z) = guard-ok (t.account_id == account) 403 (ok t) g in
    let same_session = ok-injective z in
    let of_account : t.account_id ≡ account = ground arith in
    (
      or_err-ok _ 404 s (e ∙ ap ok same_session),
      ap (λ x. x.account_id) (sym same_session) ∙ of_account,
    )

pub record Opening (ordered : List EntryIdentity → List EntryIdentity) (account id fresh now : ℕ)
    (r : Request) (w w' : World) : Type 0 where
  pub entry : Entry
  pub identity : Option ℕ
  pub entry_found : entry_at id w.tree.entries ≡ some entry
  pub entry_allowed : is_ok (validate_entry_access account (some entry) w.tree) ≡ true
  pub has_reason :
      (not (needs_reason (get_org_audit_settings entry.organization_id w.journal.stored))
        || is_some r.connection_reason)
      ≡ true
  pub identity_found :
      identity_for
        (resolve_identity ordered entry r.identity_id r.direct_identity (some account) w.tree)
      ≡ ok identity
  pub result : opened account fresh now r entry identity w ≡ w'

pub create_session-Opening :
    (ordered : List EntryIdentity → List EntryIdentity) (account id fresh now : ℕ) (r : Request)
    (w w' : World)
    → create_session ordered account id fresh now r w ≡ ok w'
    → Opening ordered account id fresh now r w w'
unfolding create_session
create_session-Opening ordered account id fresh now r w w' h =
    let (e, found, h1) = bind-ok (or_err (entry_at id w.tree.entries) 404) _ h in
    let (allowed, h2) = guard-ok (is_ok (validate_entry_access account (some e) w.tree)) 403 _ h1 in
    let (g2, h3) = guard-ok (not (is_some r.direct_identity && is_pve e.kind)) 400 _ h2 in
    let (reason, h4) =
      guard-ok
        (not (needs_reason (get_org_audit_settings e.organization_id w.journal.stored))
          || is_some r.connection_reason)
        400 _ h3 in
    let (i, resolved, h5) =
      bind-ok
        (identity_for
          (resolve_identity ordered e r.identity_id r.direct_identity (some account) w.tree))
        _ h4 in
    record {
      entry = e;
      identity = i;
      entry_found = or_err-ok _ 404 e found;
      entry_allowed = allowed;
      has_reason = reason;
      identity_found = resolved;
      result = ok-injective h5;
    }

pub record Sharing (account session fresh now : ℕ) (writable : Bool) (hours : ℕ) (w w' : World)
    (share : Share) : Type 0 where
  pub target : Session
  pub target_owned : validate_session_ownership account session w ≡ ok target
  pub sharing_allowed : (sharing_policy target w).allow_session_sharing ≡ true
  pub writing_allowed : (not writable || (sharing_policy target w).allow_writable_sharing) ≡ true
  pub result :
      audit_share account now target share_start (
        with_manager
          (start_sharing session fresh writable
            (expires_at hours now (sharing_policy target w))
            (manager_of w)).0
          w)
      ≡ w'
  pub answer :
      record {
        share_id =
            (start_sharing session fresh writable
              (expires_at hours now (sharing_policy target w))
              (manager_of w)).1;
        writable = writable;
        expires_at = expires_at hours now (sharing_policy target w);
      }
      ≡ share

pub share_session-Sharing :
    (account session fresh now : ℕ) (writable : Bool) (hours : ℕ) (w w' : World) (share : Share)
    → share_session account session fresh now writable hours w ≡ ok (w', share)
    → Sharing account session fresh now writable hours w w' share
unfolding share_session
share_session-Sharing account session fresh now writable hours w w' share h =
    let (t, own, h1) = bind-ok (validate_session_ownership account session w) _ h in
    let (allowed, h2) = guard-ok (sharing_policy t w).allow_session_sharing 403 _ h1 in
    let (writing, h3) =
      guard-ok (not writable || (sharing_policy t w).allow_writable_sharing) 403 _ h2 in
    let made = ok-injective h3 in
    record {
      target = t;
      target_owned = own;
      sharing_allowed = allowed;
      writing_allowed = writing;
      result = ap (λ p. p.0) made;
      answer = ap (λ p. p.1) made;
    }

-- Pasting a password leaves the registry.
pub paste_identity_password-manager :
    (writes : Bool) (account session now : ℕ) (w w' : World) (p : ℕ)
    → paste_identity_password writes account session now w ≡ ok (w', p)
    → manager_of w' ≡ manager_of w
unfolding paste_identity_password
paste_identity_password-manager writes account session now w w' p h =
    let (s, own, h1) = bind-ok (validate_session_ownership account session w) _ h in
    let (id, e1, h2) = bind-ok (or_err (given s.configuration.identity_id) 400) _ h1 in
    let (i, e2, h3) = bind-ok (get_identity account id (vault_of w)) _ h2 in
    let (q, e3, h4) =
      bind-ok (or_err (secret_of id CredentialType.password w.credentials) 400) _ h3 in
    let (g1, h5) = guard-ok (has_stream (get_master_connection session (manager_of w))) 400 _ h4 in
    let (g2, h6) = guard-ok writes 500 _ h5 in sym (ap (λ x. manager_of x.0) (ok-injective h6))
