-- ===== src/Organization/Ownership/Inversion.antt =====
-- What a call that is not refused has found, and what it has written.
use Prim.Native.String.{String}
use text.Mathlib.Text.{◌==◌ as str_eq}
use infram.Prelude.{
  ◌≤◌, ◌<◌, ◌≢◌, ℕ, ◌≡◌, inl, inr, Bool, true, false, Option, none, some, [], ◌∷◌, ◌++◌,
  if◌then◌else◌, find_one, destroy, update, arith, Option-cases, ok, ◌==◌, bind-ok, guard-ok,
  ok-injective, or_err, err, ap, sym,
}
use infram.Organization.{
  Role, owner, manager, Member, Directory, active, rank, is_owner, is_row, is_active_row,
  effective_role, has_role, remove_organization_data,
}
use infram.Organization.Calls.{
  with_members, invitation, invite_user, is_pending_row, respond_to_invitation, remove_member,
  leave_organization, set_member_role, transferred, transfer_ownership, delete_organization,
}

pub invite_user_ok :
    (account : ℕ) (organization : Option ℕ) (username : String) (now : ℕ) (d e : Directory)
    → invite_user account organization username now d ≡ ok e
    → (org id : ℕ) × (has_role account org manager d ≡ true)
      × (find_one (is_row org id) d.members ≡ none)
      × (e ≡ with_members (d.members ++ invitation account org id now ∷ []) d)
unfolding invite_user
invite_user_ok account none username now d e h = ground arith
invite_user_ok account (some org) username now d e h =
    elim (Option-cases (find_one (λ a. str_eq a.username username) d.accounts)) [
      | inl out ↦ ground arith
      | inr (a, found) ↦ (org, a.id, ground arith, ground arith, ground arith)
    ]

pub respond_to_invitation_ok :
    (account : ℕ) (organization : Option ℕ) (accept : Bool) (d e : Directory)
    → respond_to_invitation account organization accept d ≡ ok e
    → (org : ℕ) × (r : Member) × (find_one (is_pending_row org account) d.members ≡ some r)
      × (e
          ≡ with_members
              (if accept
                then update (is_row org account) (λ m. record m { status = active }) d.members
                else destroy (is_row org account) d.members)
              d)
unfolding respond_to_invitation
respond_to_invitation_ok account none accept d e h = ground arith
respond_to_invitation_ok account (some org) accept d e h =
    elim (Option-cases (find_one (is_pending_row org account) d.members)) [
      | inl out ↦ ground arith
      | inr (r, found) ↦ (org, r, found, ground arith)
    ]

pub remove_member_ok :
    (account : ℕ) (organization target : Option ℕ) (d e : Directory)
    → remove_member account organization target d ≡ ok e
    → (org id : ℕ) × (r : Member) × (actor : Role) × (effective_role account org d ≡ some actor)
      × (find_one (is_row org id) d.members ≡ some r)
      × (rank manager ≤ rank actor)
      × (rank r.role < rank actor)
      × (e ≡ with_members (destroy (is_row org id) d.members) d)
unfolding remove_member
remove_member_ok account none target d e h = ground arith
remove_member_ok account (some org) none d e h = ground arith
remove_member_ok account (some org) (some id) d e h =
    elim (Option-cases (find_one (is_row org id) d.members)) [
      | inl out ↦ ground arith
      | inr (r, found) ↦ elim (Option-cases (effective_role account org d)) [
        | inl nobody ↦ ground arith
        | inr (actor, acts) ↦
            (org, id, r, actor, acts, found, ground arith, ground arith, ground arith)
      ]
    ]

pub leave_organization_ok :
    (account : ℕ) (organization : Option ℕ) (d e : Directory)
    → leave_organization account organization d ≡ ok e
    → (org : ℕ) × (r : Member) × (find_one (is_active_row org account) d.members ≡ some r)
      × (is_owner r.role ≡ false)
      × (e ≡ with_members (destroy (is_row org account) d.members) d)
unfolding leave_organization
leave_organization_ok account none d e h = ground arith
leave_organization_ok account (some org) d e h =
    elim (Option-cases (find_one (is_active_row org account) d.members)) [
      | inl out ↦ ground arith
      | inr (r, found) ↦ (org, r, found, ground arith, ground arith)
    ]

pub set_member_role_ok :
    (account org target : ℕ) (role : Role) (d e : Directory)
    → set_member_role account org target role d ≡ ok e
    → (r : Member) × (has_role account org owner d ≡ true)
      × (find_one (is_active_row org target) d.members ≡ some r)
      × (is_owner r.role ≡ false)
      × (e ≡ with_members (update (is_row org target) (λ m. record m { role = role }) d.members) d)
unfolding set_member_role
set_member_role_ok account org target role d e h =
    elim (Option-cases (find_one (is_active_row org target) d.members)) [
      | inl out ↦ ground arith
      | inr (r, found) ↦ (r, ground arith, found, ground arith, ground arith)
    ]

pub transfer_ownership_ok :
    (account org successor : ℕ) (d e : Directory)
    → transfer_ownership account org successor d ≡ ok e
    → (r : Member) × (has_role account org owner d ≡ true)
      × (successor ≢ account)
      × (find_one (is_active_row org successor) d.members ≡ some r)
      × (e ≡ with_members (transferred org successor d.members) d)
unfolding transfer_ownership
transfer_ownership_ok account org successor d e h =
    elim (Option-cases (find_one (is_active_row org successor) d.members)) [
      | inl out ↦ ground arith
      | inr (r, found) ↦ (r, ground arith, ground arith, found, ground arith)
    ]

pub delete_organization_ok :
    (account : ℕ) (organization : Option ℕ) (d e : Directory)
    → delete_organization account organization d ≡ ok e
    → (org : ℕ) × (organization ≡ some org)
      × (has_role account org owner d ≡ true)
      × (e ≡ remove_organization_data org d)
unfolding delete_organization
delete_organization_ok account none d e h = ground arith
delete_organization_ok account (some org) d e h =
    let (k, e0, h1) = bind-ok (if org == 0 then err 400 else ok org) _ h in
    let (g, h2) = guard-ok (has_role account k owner d) 403 _ h1 in
    let (o, e1, h3) = bind-ok (or_err (find_one (λ x. x.id == k) d.organizations) 500) _ h2 in
    (k, ap some (ground arith), g, sym (ok-injective h3))
