-- ===== src/Identities/Credentials.antt =====
-- The secrets of an identity: `upsertCredential`, `syncCredentials` and `getIdentityCredentials`.
use infram.Prelude.{
  ℕ, Bool, true, false, ◌&&◌, ◌||◌, Option, none, some, List, [], ◌∷◌, ◌==◌, if◌then◌else◌, destroy,
}

pub data IdentityType : Type 0 where
  password ssh both password_only : IdentityType

-- The key, its passphrase and the password stand in rows of their own.
pub data CredentialType : Type 0 where
  password ssh_key passphrase : CredentialType

pub record Credential : Type 0 where
  pub identity_id : ℕ
  pub kind : CredentialType
  pub secret : ℕ

abbrev pub is_kind : CredentialType → CredentialType → Bool
is_kind CredentialType.password CredentialType.password = true
is_kind ssh_key ssh_key = true
is_kind passphrase passphrase = true
is_kind _ _ = false

abbrev pub is_credential : (identity : ℕ) → CredentialType → Credential → Bool
is_credential identity k c = c.identity_id == identity && is_kind c.kind k

-- The first row that is found is written, or else a new one is added.
unfoldable pub upsert_credential :
    (identity : ℕ) → CredentialType → (secret : ℕ) → List Credential → List Credential
upsert_credential identity k secret [] =
    record { identity_id = identity; kind = k; secret = secret } ∷ []
upsert_credential identity k secret (c ∷ rest) =
    if is_credential identity k c
    then record c { secret = secret } ∷ rest
    else c ∷ upsert_credential identity k secret rest

unfoldable pub destroy_credentials :
    (identity : ℕ) → CredentialType → List Credential → List Credential
destroy_credentials identity k = destroy (is_credential identity k)

abbrev pub upsert_given :
    (identity : ℕ) → CredentialType → Option ℕ → List Credential → List Credential
upsert_given identity k none l = l
upsert_given identity k (some secret) l = upsert_credential identity k secret l

-- `passphrase ? upsert : destroy`
abbrev set_passphrase : (identity : ℕ) → Option ℕ → List Credential → List Credential
set_passphrase identity none l = destroy_credentials identity passphrase l
set_passphrase identity (some secret) l = upsert_credential identity passphrase secret l

abbrev pub set_password_only : (identity : ℕ) → Option ℕ → List Credential → List Credential
set_password_only identity none l = l
set_password_only identity (some secret) l =
    destroy (λ c. is_credential identity ssh_key c || is_credential identity passphrase c)
      (upsert_credential identity CredentialType.password secret l)

abbrev pub set_key : (identity : ℕ) → (key phrase : Option ℕ) → List Credential → List Credential
set_key identity none phrase l = l
set_key identity (some key) phrase l =
    set_passphrase identity phrase (upsert_credential identity ssh_key key l)

abbrev pub set_key_only :
    (identity : ℕ) → (key phrase : Option ℕ) → List Credential → List Credential
set_key_only identity none phrase l = l
set_key_only identity (some key) phrase l =
    destroy_credentials identity CredentialType.password (set_key identity (some key) phrase l)

unfoldable pub sync_credentials :
    (identity : ℕ)
    → IdentityType
    → (password key phrase : Option ℕ) → List Credential
    → List Credential
sync_credentials identity IdentityType.password p key phrase l = set_password_only identity p l
sync_credentials identity password_only p key phrase l = set_password_only identity p l
sync_credentials identity both p key phrase l =
    set_key identity key phrase (upsert_given identity CredentialType.password p l)
sync_credentials identity ssh p key phrase l = set_key_only identity key phrase l

-- `getIdentityCredentials`, by the type: a later row overwrites an earlier one.
unfoldable pub secret_of : (identity : ℕ) → CredentialType → List Credential → Option ℕ
secret_of identity k [] = none
secret_of identity k (c ∷ rest) = elim (secret_of identity k rest) [
  | some s ↦ some s
  | none ↦ if is_credential identity k c then some c.secret else none
]
