-- ===== src/Identities.antt =====
-- server/controllers/identity.js: the identities with which accounts sign in to servers, each of an
-- account or of an organization. Names and secrets are kept as the numbers that stand for them; a
-- secret that is empty or missing is `none`.
pub mod Credentials
mod Rows
pub mod Secrets
pub mod Owners
pub mod Tests
pub mod Calls
use infram.Prelude.{
  ℕ, Bool, true, false, not, ◌&&◌, ◌||◌, Option, none, some, List, [], ◌∷◌, ◌++◌, ◌==◌, same,
  is_some, if◌then◌else◌, find_one, find_all, destroy, update, Result, ok, err, or_err, guard,
  ◌>>=◌, ◌>>◌, given, is_none, is_one_of,
}
use infram.Organization.{Member, has_organization_access, get_active_org_ids}
use infram.Identities.Credentials.{IdentityType, Credential, sync_credentials}

pub record Identity : Type 0 where
  pub id : ℕ
  pub name : ℕ
  pub kind : IdentityType
  pub username : Option ℕ
  pub account_id : Option ℕ
  pub organization_id : Option ℕ

pub record EntryIdentity : Type 0 where
  pub entry_id : ℕ
  pub identity_id : ℕ
  pub is_default : Bool

pub record Vault : Type 0 where
  pub identities : List Identity
  pub credentials : List Credential
  pub entry_identities : List EntryIdentity
  pub members : List Member

abbrev pub identity_at : ℕ → List Identity → Option Identity
identity_at id identities = find_one (λ i. i.id == id) identities

unfoldable pub validate_access : (account : ℕ) → Option Identity → List Member → Result Identity
validate_access account none members = err 404
validate_access account (some i) members = do
  guard (is_none (given i.account_id) || same i.account_id (some account)) 403
  guard
      (is_none (given i.organization_id)
        || has_organization_access account i.organization_id members)
      403
  ok i

abbrev pub is_in_one_of : List ℕ → Option ℕ → Bool
is_in_one_of orgs none = false
is_in_one_of orgs (some org) = is_one_of orgs org

abbrev pub is_personal : (account : ℕ) → Identity → Bool
is_personal account i = same i.account_id (some account) && is_none i.organization_id

unfoldable pub list_identities : (account : ℕ) → List Identity → List Member → List Identity
list_identities account identities members =
    find_all (is_personal account) identities
    ++ find_all (λ i. is_in_one_of (get_active_org_ids account members) i.organization_id)
        identities

-- What `createIdentity` and `updateIdentity` are called with.
pub record Configuration : Type 0 where
  pub name : Option ℕ
  pub kind : Option IdentityType
  pub username : Option ℕ
  pub password : Option ℕ
  pub ssh_key : Option ℕ
  pub passphrase : Option ℕ
  pub organization_id : Option ℕ

abbrev pub or_else {ℓ} : {A : Type ℓ} → Option A → A → A
or_else none a = a
or_else (some b) a = b

abbrev synced : (id : ℕ) → IdentityType → Configuration → List Credential → List Credential
synced id kind c credentials =
    sync_credentials id kind c.password c.ssh_key c.passphrase credentials

-- The name and the type are required here, and given by themselves.
unfoldable pub create_identity :
    (account fresh name : ℕ) → IdentityType → Configuration → Vault → Result Vault
create_identity account fresh name kind c v = do
  guard
      (is_none (given c.organization_id)
        || has_organization_access account c.organization_id v.members)
      403
  ok (record v {
    identities =
        v.identities
        ++ record {
          id = fresh;
          name = name;
          kind = kind;
          username = c.username;
          account_id = if is_some (given c.organization_id) then none else some account;
          organization_id = given c.organization_id;
        }
          ∷ [];
    credentials = synced fresh kind c v.credentials;
  })

-- The `where` clause of the two statements that change an identity: the identifier, and the
-- organization if there is one, or else the account.
abbrev pub is_target : (account : ℕ) → Identity → Identity → Bool
is_target account i j =
    j.id == i.id
    && (if is_some (given i.organization_id)
        then same j.organization_id i.organization_id
        else same j.account_id (some account))

unfoldable pub delete_identity : (account id : ℕ) → Vault → Result Vault
delete_identity account id v = do
  i ← validate_access account (identity_at id v.identities) v.members
  ok (record v {
    credentials = destroy (λ c. c.identity_id == id) v.credentials;
    entry_identities = destroy (λ l. l.identity_id == id) v.entry_identities;
    identities = destroy (is_target account i) v.identities;
  })

abbrev pub renamed : Configuration → Identity → Identity
renamed c i = record i {
  name = or_else c.name i.name;
  kind = or_else c.kind i.kind;
  username = elim c.username [ none ↦ i.username | some n ↦ some n ];
}

unfoldable pub update_identity : (account id : ℕ) → Configuration → Vault → Result Vault
update_identity account id c v = do
  i ← validate_access account (identity_at id v.identities) v.members
  ok (record v {
    identities = update (is_target account i) (renamed c) v.identities;
    credentials = synced id (or_else c.kind i.kind) c v.credentials;
  })

unfoldable pub move_identity_to_organization : (account id org : ℕ) → Vault → Result Vault
move_identity_to_organization account id org v = do
  i ← or_err (identity_at id v.identities) 404
  guard (same i.account_id (some account)) 403
  guard (has_organization_access account (some org) v.members) 403
  ok (record v {
    identities =
        update (λ j. j.id == id) (λ j. record j { account_id = none; organization_id = some org })
          v.identities;
  })

unfoldable pub get_identity : (account id : ℕ) → Vault → Result Identity
get_identity account id v = validate_access account (identity_at id v.identities) v.members
