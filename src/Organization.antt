-- ===== src/Organization.antt =====
-- server/controllers/organization.js, server/models/OrganizationMember.js and the membership tests
-- of server/utils/permission.js: organizations, their members and what these may do.
-- A table is a list of its rows. An identifier from the request is what `parseInt` makes of it:
-- `none` stands for NaN and for a negative number.
pub mod Calls
pub mod Rows
pub mod Deletion
pub mod Roles
pub mod HandOver
pub mod Succession
mod Tests
pub mod Ownership
use Prim.Native.String.{String}
use infram.Prelude.{
  ℕ, suc, Bool, true, false, not, ◌&&◌, ◌||◌, Option, none, some, List, [], ◌∷◌, ◌==◌,
  if◌then◌else◌, leb, find_one, find_all, destroy, any, map, is_some,
}

pub data Role : Type 0 where
  owner manager member : Role

pub data Status : Type 0 where
  pending active : Status

pub record Member : Type 0 where
  pub organization_id : ℕ
  pub account_id : ℕ
  pub role : Role
  pub status : Status
  pub invited_by : ℕ
  pub created_at : ℕ

pub record Account : Type 0 where
  pub id : ℕ
  pub username : String
  pub is_admin : Bool

pub record Organization : Type 0 where
  pub id : ℕ
  pub name : String
  pub description : String

-- A row that may belong to an organization: of entries, folders, identities and so on.
pub record Item : Type 0 where
  pub id : ℕ
  pub organization_id : Option ℕ

-- A row that refers to an entry, to an identity, or to one of each.
pub record Link : Type 0 where
  pub entry_id : Option ℕ
  pub identity_id : Option ℕ

pub record Directory : Type 0 where
  pub accounts : List Account
  pub organizations : List Organization
  pub members : List Member
  pub entries : List Item
  pub folders : List Item
  pub identities : List Item
  pub snippets : List Item
  pub scripts : List Item
  pub integrations : List Item
  pub entry_identities : List Link
  pub entry_tags : List Link
  pub credentials : List Link

abbrev pub rank : Role → ℕ
rank member = 1
rank manager = 2
rank owner = 3

-- `ROLE_RANK[role] || 0`
abbrev pub rank_or_zero : Option Role → ℕ
rank_or_zero none = 0
rank_or_zero (some r) = rank r

abbrev pub is_owner : Role → Bool
is_owner owner = true
is_owner _ = false

abbrev pub is_active : Status → Bool
is_active active = true
is_active pending = false

-- The `where` clauses of the controller.
abbrev pub is_row : (org account : ℕ) → Member → Bool
is_row org account m = m.organization_id == org && m.account_id == account

abbrev pub is_active_row : (org account : ℕ) → Member → Bool
is_active_row org account m = is_row org account m && is_active m.status

abbrev pub is_owner_row : (org : ℕ) → Member → Bool
is_owner_row org m = m.organization_id == org && is_owner m.role

abbrev is_active_owner_row : (org : ℕ) → Member → Bool
is_active_owner_row org m = is_owner_row org m && is_active m.status

-- `hasOrganizationAccess`; the identifier 0 is as false as null.
unfoldable pub has_organization_access : (account : ℕ) → Option ℕ → List Member → Bool
has_organization_access account none members = false
has_organization_access account (some org) members =
    not (org == 0) && is_some (find_one (is_active_row org account) members)

unfoldable pub get_active_org_ids : (account : ℕ) → List Member → List ℕ
get_active_org_ids account members =
    map (λ m. m.organization_id)
      (find_all (λ m. m.account_id == account && is_active m.status) members)

-- Is the account an administrator of the installation?
unfoldable pub is_admin_account : ℕ → Directory → Bool
is_admin_account account d = elim (find_one (λ a. a.id == account) d.accounts) [
  | none ↦ false
  | some a ↦ a.is_admin
]

-- An administrator counts as the owner of an organization that has none, if it is a member.
unfoldable pub effective_role : (account org : ℕ) → Directory → Option Role
unfolding is_admin_account
effective_role account org d = elim (find_one (is_active_row org account) d.members) [
  | none ↦ none
  | some m ↦
      if not (is_owner m.role)
        && (not (is_some (find_one (is_active_owner_row org) d.members))
            && is_admin_account account d)
      then some owner
      else some m.role
]

unfoldable pub has_role : (account org : ℕ) → Role → Directory → Bool
unfolding effective_role
has_role account org minimum d = leb (rank minimum) (rank_or_zero (effective_role account org d))

abbrev pub is_of : (org : ℕ) → Option ℕ → Bool
is_of org none = false
is_of org (some o) = o == org

unfoldable pub belongs : (org : ℕ) → Item → Bool
belongs org i = is_of org i.organization_id

-- `{ [Op.in]: ids }`, where the ids are those of the organization's rows of a table.
unfoldable pub refers : (org : ℕ) → List Item → Option ℕ → Bool
unfolding belongs any
refers org items none = false
refers org items (some k) = any (λ i. belongs org i && i.id == k) items

-- `removeOrganizationData`, one transaction.
unfoldable pub remove_organization_data : ℕ → Directory → Directory
unfolding belongs refers
remove_organization_data org d = record {
  accounts = d.accounts;
  organizations = destroy (λ o. o.id == org) d.organizations;
  members = destroy (λ m. m.organization_id == org) d.members;
  entries = destroy (belongs org) d.entries;
  folders = destroy (belongs org) d.folders;
  identities = destroy (belongs org) d.identities;
  snippets = destroy (belongs org) d.snippets;
  scripts = destroy (belongs org) d.scripts;
  integrations = destroy (belongs org) d.integrations;
  entry_identities =
      destroy (λ l. refers org d.entries l.entry_id || refers org d.identities l.identity_id)
        d.entry_identities;
  entry_tags = destroy (λ l. refers org d.entries l.entry_id) d.entry_tags;
  credentials = destroy (λ l. refers org d.identities l.identity_id) d.credentials;
}
