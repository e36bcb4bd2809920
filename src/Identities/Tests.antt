-- ===== src/Identities/Tests.antt =====
-- The theorems on identities at concrete inputs.
use infram.Prelude.{
  find_one, update, ◌≡◌, ◌↔◌, refl, inl, none, some, [], ◌∷◌, All, ok, arith, In, if◌then◌else◌,
  ◌==◌, List,
}
use infram.Organization.{Member, owner, active, has_organization_access}
use infram.Identities.Credentials.{ssh, CredentialType, Credential, sync_credentials, secret_of}
use infram.Identities.{
  Identity, Vault, list_identities, validate_access, move_identity_to_organization,
}
use infram.Identities.Rows.{UniqueCredentials}
use infram.Identities.Secrets.{secret_after, secret_of-sync_credentials}
use infram.Identities.Owners.{IsOwned, by_account, list_identities-validate_access}
use infram.Identities.Calls.{moves, perform, perform-IsOwned}

-- Identity 4 of account 1, which has the password 70.
abbrev pub own_login : Identity
own_login = record {
  id = 4;
  name = 40;
  kind = ssh;
  username = some 41;
  account_id = some 1;
  organization_id = none;
}

abbrev pub chief : Member
chief = record {
  organization_id = 2;
  account_id = 1;
  role = owner;
  status = active;
  invited_by = 1;
  created_at = 10;
}

abbrev secrets : List Credential
secrets = record { identity_id = 4; kind = CredentialType.password; secret = 70 } ∷ []

secrets-UniqueCredentials : UniqueCredentials secrets
unfolding secret_of
secrets-UniqueCredentials = (refl, tt)

-- With the key 71 the password goes.
secret_of-sync_credentials_example :
    (secret_of 4 CredentialType.password (sync_credentials 4 ssh none (some 71) none secrets) ≡ (
      if 4 == 4
      then secret_after ssh none
          (some 71)
          none
          CredentialType.password
          (secret_of 4 CredentialType.password secrets)
      else secret_of 4 CredentialType.password secrets))
    × UniqueCredentials (sync_credentials 4 ssh none (some 71) none secrets)
secret_of-sync_credentials_example =
    secret_of-sync_credentials 4 ssh none (some 71) none secrets 4 CredentialType.password
      secrets-UniqueCredentials

own_login-IsOwned : IsOwned own_login
own_login-IsOwned = by_account 1 refl (omega arith) refl

list_identities-validate_access_example :
    In own_login (list_identities 1 (own_login ∷ []) (chief ∷ []))
    ↔ (validate_access 1 (some own_login) (chief ∷ []) ≡ ok own_login)
list_identities-validate_access_example =
    list_identities-validate_access 1 (own_login ∷ []) (chief ∷ []) own_login (inl refl)
      own_login-IsOwned

abbrev vault : Vault
vault = record {
  identities = own_login ∷ [];
  credentials = secrets;
  entry_identities = [];
  members = chief ∷ [];
}

abbrev given_away : Vault
given_away = record vault {
  identities = record own_login { account_id = none; organization_id = some 2 } ∷ [];
}

perform-vault : perform 1 9 (moves 4 2) vault ≡ ok given_away
unfolding move_identity_to_organization find_one has_organization_access update
perform-vault = refl

perform-IsOwned_example : All IsOwned given_away.identities
perform-IsOwned_example =
    perform-IsOwned 1 9 (moves 4 2) vault given_away (omega arith) (own_login-IsOwned, tt)
      perform-vault
