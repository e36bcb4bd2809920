-- ===== src/Identities/Secrets.antt =====
-- Which secrets an identity has after `syncCredentials`.
use infram.Prelude.{
  ℕ, ◌≡◌, refl, ap, ◌∙◌, Bool, ◌&&◌, ◌||◌, Option, none, some, List, ◌==◌, if◌then◌else◌, arith,
  is_some,
}
use infram.Identities.Credentials.{
  IdentityType, ssh, both, password_only, CredentialType, ssh_key, passphrase, Credential, is_kind,
  upsert_credential, destroy_credentials, upsert_given, set_password_only, set_key,
  sync_credentials, secret_of,
}
use infram.Identities.Rows.{
  UniqueCredentials, secret_of-upsert_credential, UniqueCredentials-upsert_credential,
  UniqueCredentials-set_key, UniqueCredentials-set_password_only, UniqueCredentials-set_key_only,
  UniqueCredentials-upsert_given, secret_of-destroy_credentials, secret_of-destroy_both,
}

-- What an identity's secret of a type becomes: it is replaced, kept or dropped.
abbrev password_after : IdentityType → (password key old : Option ℕ) → Option ℕ
password_after ssh none key old = if is_some key then none else old
password_after ssh (some p) key old = if is_some key then none else old
password_after _ none key old = old
password_after _ (some p) key old = some p

abbrev key_after : IdentityType → (password key old : Option ℕ) → Option ℕ
key_after IdentityType.password p key old = if is_some p then none else old
key_after password_only p key old = if is_some p then none else old
key_after _ p none old = old
key_after _ p (some key) old = some key

abbrev passphrase_after : IdentityType → (password key phrase old : Option ℕ) → Option ℕ
passphrase_after IdentityType.password p key phrase old = if is_some p then none else old
passphrase_after password_only p key phrase old = if is_some p then none else old
passphrase_after _ p key phrase old = if is_some key then phrase else old

abbrev pub secret_after :
    IdentityType → (password key phrase : Option ℕ) → CredentialType → (old : Option ℕ) → Option ℕ
secret_after t p key phrase CredentialType.password old = password_after t p key old
secret_after t p key phrase ssh_key old = key_after t p key old
secret_after t p key phrase passphrase old = passphrase_after t p key phrase old

-- The two steps of `set_password_only`, and those of `set_key`, for each type.
only_password :
    (b : Bool) (s : ℕ) (old mid new : Option ℕ) (k : CredentialType)
    → new ≡ (if b && (is_kind k ssh_key || is_kind k passphrase) then none else mid)
    → mid ≡ (if b && is_kind k CredentialType.password then some s else old)
    → new ≡ (if b then secret_after password_only (some s) none none k old else old)
only_password b s old mid new CredentialType.password h g = ground arith
only_password b s old mid new ssh_key h g = ground arith
only_password b s old mid new passphrase h g = ground arith

key_and_phrase :
    (b : Bool) (s : ℕ) (phrase old mid new : Option ℕ) (k : CredentialType)
    → new ≡ (if b && is_kind k passphrase then phrase else mid)
    → mid ≡ (if b && is_kind k ssh_key then some s else old)
    → new ≡ (if b then secret_after both none (some s) phrase k old else old)
key_and_phrase b s phrase old mid new CredentialType.password h g = ground arith
key_and_phrase b s phrase old mid new ssh_key h g = ground arith
key_and_phrase b s phrase old mid new passphrase h g = ground arith

secret_of-set_password_only :
    (i : ℕ) (p : Option ℕ) (l : List Credential) (j : ℕ) (k : CredentialType)
    → UniqueCredentials l
    → secret_of j k (set_password_only i p l) ≡ (
        if j == i
        then secret_after password_only p none none k (secret_of j k l)
        else secret_of j k l)
secret_of-set_password_only i none l j CredentialType.password u = ground arith
secret_of-set_password_only i none l j ssh_key u = ground arith
secret_of-set_password_only i none l j passphrase u = ground arith
secret_of-set_password_only i (some s) l j k u =
    let after = upsert_credential i CredentialType.password s l in
    let dropped = secret_of-destroy_both i after j k in
    let written = secret_of-upsert_credential i CredentialType.password s l j k u in
    only_password (j == i) s (secret_of j k l) _ _ k dropped written

secret_of-set_key :
    (i : ℕ) (key phrase : Option ℕ) (l : List Credential) (j : ℕ) (k : CredentialType)
    → UniqueCredentials l
    → secret_of j k (set_key i key phrase l)
      ≡ (if j == i then secret_after both none key phrase k (secret_of j k l) else secret_of j k l)
secret_of-set_key i none phrase l j CredentialType.password u = ground arith
secret_of-set_key i none phrase l j ssh_key u = ground arith
secret_of-set_key i none phrase l j passphrase u = ground arith
secret_of-set_key i (some s) none l j k u =
    key_and_phrase (j == i) s none (secret_of j k l) _ _ k
      (secret_of-destroy_credentials i passphrase (upsert_credential i ssh_key s l) j k)
      (secret_of-upsert_credential i ssh_key s l j k u)
secret_of-set_key i (some s) (some t) l j k u =
    key_and_phrase (j == i) s (some t) (secret_of j k l) _ _ k
      (secret_of-upsert_credential i passphrase t (upsert_credential i ssh_key s l) j k
        (UniqueCredentials-upsert_credential i ssh_key s l u))
      (secret_of-upsert_credential i ssh_key s l j k u)

combined :
    (b : Bool) (p key phrase old mid new : Option ℕ) (k : CredentialType)
    → new ≡ (if b then secret_after both none key phrase k mid else mid)
    → mid ≡ (if b && is_kind k CredentialType.password && is_some p then p else old)
    → new ≡ (if b then secret_after both p key phrase k old else old)
combined b none none phrase old mid new CredentialType.password h g = ground arith
combined b none none phrase old mid new ssh_key h g = ground arith
combined b none none phrase old mid new passphrase h g = ground arith
combined b none (some t) phrase old mid new CredentialType.password h g = ground arith
combined b none (some t) phrase old mid new ssh_key h g = ground arith
combined b none (some t) phrase old mid new passphrase h g = ground arith
combined b (some s) none phrase old mid new CredentialType.password h g = ground arith
combined b (some s) none phrase old mid new ssh_key h g = ground arith
combined b (some s) none phrase old mid new passphrase h g = ground arith
combined b (some s) (some t) phrase old mid new CredentialType.password h g = ground arith
combined b (some s) (some t) phrase old mid new ssh_key h g = ground arith
combined b (some s) (some t) phrase old mid new passphrase h g = ground arith

secret_of-upsert_given :
    (i : ℕ) (p : Option ℕ) (l : List Credential) (j : ℕ) (k : CredentialType)
    → UniqueCredentials l
    → secret_of j k (upsert_given i CredentialType.password p l)
      ≡ (if j == i && is_kind k CredentialType.password && is_some p then p else secret_of j k l)
secret_of-upsert_given i none l j k u = ground arith
secret_of-upsert_given i (some s) l j k u =
    ground (arith, secret_of-upsert_credential i CredentialType.password s l j k u)

of_password :
    (p key phrase old : Option ℕ) (k : CredentialType)
    → secret_after password_only p none none k old
      ≡ secret_after IdentityType.password p key phrase k old
of_password none key phrase old CredentialType.password = refl
of_password none key phrase old ssh_key = refl
of_password none key phrase old passphrase = refl
of_password (some s) key phrase old CredentialType.password = refl
of_password (some s) key phrase old ssh_key = refl
of_password (some s) key phrase old passphrase = refl

of_password_only :
    (p key phrase old : Option ℕ) (k : CredentialType)
    → secret_after password_only p none none k old ≡ secret_after password_only p key phrase k old
of_password_only none key phrase old CredentialType.password = refl
of_password_only none key phrase old ssh_key = refl
of_password_only none key phrase old passphrase = refl
of_password_only (some s) key phrase old CredentialType.password = refl
of_password_only (some s) key phrase old ssh_key = refl
of_password_only (some s) key phrase old passphrase = refl

only_key :
    (b : Bool) (s : ℕ) (p phrase old mid new : Option ℕ) (k : CredentialType)
    → new ≡ (if b && is_kind k CredentialType.password then none else mid)
    → mid ≡ (if b then secret_after both none (some s) phrase k old else old)
    → new ≡ (if b then secret_after ssh p (some s) phrase k old else old)
only_key b s none phrase old mid new CredentialType.password h g = ground arith
only_key b s none phrase old mid new ssh_key h g = ground arith
only_key b s none phrase old mid new passphrase h g = ground arith
only_key b s (some t) phrase old mid new CredentialType.password h g = ground arith
only_key b s (some t) phrase old mid new ssh_key h g = ground arith
only_key b s (some t) phrase old mid new passphrase h g = ground arith

no_key : (p phrase old : Option ℕ) (k : CredentialType) → secret_after ssh p none phrase k old ≡ old
no_key none phrase old CredentialType.password = refl
no_key none phrase old ssh_key = refl
no_key none phrase old passphrase = refl
no_key (some t) phrase old CredentialType.password = refl
no_key (some t) phrase old ssh_key = refl
no_key (some t) phrase old passphrase = refl

-- Storing the secrets of an identity replaces, keeps and drops its secrets by the type of the
-- identity: a password identity that is given a password keeps no key; an SSH identity that is
-- given a key takes its passphrase with it and keeps no password; an identity of both kinds takes
-- what it is given; nothing given, nothing changes. The secrets of other identities stay. One row
-- for each identity and type is assumed, and kept.
pub secret_of-sync_credentials :
    (i : ℕ) (t : IdentityType) (p key phrase : Option ℕ) (l : List Credential) (j : ℕ)
    (k : CredentialType)
    → UniqueCredentials l
    → (secret_of j k (sync_credentials i t p key phrase l)
        ≡ (if j == i then secret_after t p key phrase k (secret_of j k l) else secret_of j k l))
      × UniqueCredentials (sync_credentials i t p key phrase l)
unfolding sync_credentials destroy_credentials
secret_of-sync_credentials i IdentityType.password p key phrase l j k u = (
  secret_of-set_password_only i p l j k u
      ∙ ap (λ o. if j == i then o else secret_of j k l)
          (of_password p key phrase (secret_of j k l) k),
  UniqueCredentials-set_password_only i p l u,
)
secret_of-sync_credentials i password_only p key phrase l j k u = (
  secret_of-set_password_only i p l j k u
      ∙ ap (λ o. if j == i then o else secret_of j k l)
          (of_password_only p key phrase (secret_of j k l) k),
  UniqueCredentials-set_password_only i p l u,
)
secret_of-sync_credentials i both p key phrase l j k u = (
  combined (j == i) p key phrase (secret_of j k l) _ _ k
      (secret_of-set_key i key phrase (upsert_given i CredentialType.password p l) j k
        (UniqueCredentials-upsert_given i CredentialType.password p l u))
      (secret_of-upsert_given i p l j k u),
  UniqueCredentials-set_key i key phrase (upsert_given i CredentialType.password p l)
      (UniqueCredentials-upsert_given i CredentialType.password p l u),
)
secret_of-sync_credentials i ssh p none phrase l j k u =
    (ground (arith, no_key p phrase (secret_of j k l) k), u)
secret_of-sync_credentials i ssh p (some s) phrase l j k u = (
  only_key (j == i) s p phrase (secret_of j k l) _ _ k
      (secret_of-destroy_credentials i CredentialType.password (set_key i (some s) phrase l) j k)
      (secret_of-set_key i (some s) phrase l j k u),
  UniqueCredentials-set_key_only i (some s) phrase l u,
)
