-- ===== src/Organization/Calls.antt =====
-- server/controllers/organization.js: the calls that change memberships. A refused call returns
-- the status code of its answer and leaves the tables as they are.
use Prim.Native.String.{String}
use text.Mathlib.Text.{◌==◌ as str_eq}
use infram.Prelude.{
  ℕ, Bool, not, ◌&&◌, Option, none, some, List, [], ◌∷◌, ◌++◌, ◌==◌, if◌then◌else◌, leb, ltb,
  find_one, destroy, update, is_some, Result, ok, err, or_err, guard, ◌>>=◌, ◌>>◌,
}
use infram.Organization.{
  Role, owner, manager, member, pending, active, Member, Organization, Directory, rank,
  rank_or_zero, is_owner, is_active, is_row, is_active_row, is_owner_row, effective_role, has_role,
  remove_organization_data,
}

-- `isNaN(orgId) || orgId <= 0`
abbrev valid_id : Option ℕ → Result ℕ
valid_id none = err 400
valid_id (some id) = if id == 0 then err 400 else ok id

abbrev pub with_members : List Member → Directory → Directory
with_members ms d = record d { members = ms }

-- `id` is the key that the database gives to the new row.
unfoldable pub create_organization :
    (account id : ℕ) → (name description : String) → (now : ℕ) → Directory → Directory
create_organization account id name description now d =
    let existing = is_some (find_one (is_row id account) d.members) in
    let founder : Member = record {
      organization_id = id;
      account_id = account;
      role = owner;
      status = active;
      invited_by = account;
      created_at = now;
    } in
    record d {
      organizations =
          d.organizations ++ record { id = id; name = name; description = description } ∷ [];
      members = if existing then d.members else d.members ++ founder ∷ [];
    }

-- Without the organization's row the handler throws, which stands here as the code 500.
unfoldable pub delete_organization : (account : ℕ) → Option ℕ → Directory → Result Directory
delete_organization account organization d = do
  org ← valid_id organization
  guard (has_role account org owner d) 403
  deleted ← or_err (find_one (λ o. o.id == org) d.organizations) 500
  ok (remove_organization_data org d)

unfoldable pub update_organization :
    (account : ℕ) → Option ℕ → (Organization → Organization) → Directory → Result Directory
update_organization account organization change d = do
  org ← valid_id organization
  guard (has_role account org manager d) 403
  ok (record d { organizations = update (λ o. o.id == org) change d.organizations })

abbrev pub invitation : (account org invited now : ℕ) → Member
invitation account org invited now = record {
  organization_id = org;
  account_id = invited;
  role = member;
  status = pending;
  invited_by = account;
  created_at = now;
}

unfoldable pub invite_user :
    (account : ℕ) → Option ℕ → String → (now : ℕ) → Directory → Result Directory
invite_user account organization username now d = do
  org ← valid_id organization
  guard (has_role account org manager d) 403
  invited ← or_err (find_one (λ a. str_eq a.username username) d.accounts) 404
  guard (not (is_some (find_one (is_row org invited.id) d.members))) 409
  ok (with_members (d.members ++ invitation account org invited.id now ∷ []) d)

abbrev pub is_pending_row : (org account : ℕ) → Member → Bool
is_pending_row org account m = is_row org account m && not (is_active m.status)

unfoldable pub respond_to_invitation :
    (account : ℕ) → Option ℕ → Bool → Directory → Result Directory
respond_to_invitation account organization accept d = do
  org ← valid_id organization
  invitation ← or_err (find_one (is_pending_row org account) d.members) 404
  ok (
      with_members
        (if accept
          then update (is_row org account) (λ m. record m { status = active }) d.members
          else destroy (is_row org account) d.members)
        d)

unfoldable pub remove_member :
    (account : ℕ) → (organization target : Option ℕ) → Directory → Result Directory
remove_member account organization target d = do
  org ← valid_id organization
  id ← valid_id target
  let role = effective_role account org d
  guard (leb (rank manager) (rank_or_zero role)) 403
  removed ← or_err (find_one (is_row org id) d.members) 404
  guard (ltb (rank removed.role) (rank_or_zero role)) 403
  ok (with_members (destroy (is_row org id) d.members) d)

unfoldable pub leave_organization : (account : ℕ) → Option ℕ → Directory → Result Directory
leave_organization account organization d = do
  org ← valid_id organization
  membership ← or_err (find_one (is_active_row org account) d.members) 404
  guard (not (is_owner membership.role)) 403
  ok (with_members (destroy (is_row org account) d.members) d)

-- The route lets `manager` and `member` through, as `memberRoleSchema` says.
unfoldable pub set_member_role : (account org target : ℕ) → Role → Directory → Result Directory
set_member_role account org target role d = do
  guard (has_role account org owner d) 403
  changed ← or_err (find_one (is_active_row org target) d.members) 404
  guard (not (is_owner changed.role)) 400
  ok (with_members (update (is_row org target) (λ m. record m { role = role }) d.members) d)

-- Both updates are one transaction.
unfoldable pub transferred : (org successor : ℕ) → List Member → List Member
transferred org successor ms =
    update (is_row org successor) (λ m. record m { role = owner })
      (update (is_owner_row org) (λ m. record m { role = manager }) ms)

unfoldable pub transfer_ownership : (account org successor : ℕ) → Directory → Result Directory
transfer_ownership account org successor d = do
  guard (has_role account org owner d) 403
  guard (not (successor == account)) 400
  new ← or_err (find_one (is_active_row org successor) d.members) 404
  ok (with_members (transferred org successor d.members) d)
