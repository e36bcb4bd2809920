-- ===== src/Identities/Rows.antt =====
-- The rows of credentials: what writing and destroying rows does to the secrets.
use infram.Prelude.{
  ℕ, ◌≡◌, refl, sym, inl, inr, Bool, true, ◌&&◌, ◌||◌, Option, none, some, List, [], ◌∷◌, ◌==◌,
  if◌then◌else◌, arith, Bool-cases, destroy,
}
use infram.Identities.Credentials.{
  CredentialType, ssh_key, passphrase, Credential, is_kind, is_credential, upsert_credential,
  destroy_credentials, upsert_given, set_password_only, set_key, set_key_only, secret_of,
}

-- An identity has one row for a type.
abbrev pub UniqueCredentials : List Credential → Type 0
UniqueCredentials [] = Unit
UniqueCredentials (c ∷ l) = (secret_of c.identity_id c.kind l ≡ none) × UniqueCredentials l

is_kind-eq : (a b : CredentialType) → is_kind a b ≡ true → a ≡ b
is_kind-eq CredentialType.password CredentialType.password h = refl
is_kind-eq ssh_key ssh_key h = refl
is_kind-eq passphrase passphrase h = refl
is_kind-eq CredentialType.password ssh_key h = ground arith
is_kind-eq CredentialType.password passphrase h = ground arith
is_kind-eq ssh_key CredentialType.password h = ground arith
is_kind-eq ssh_key passphrase h = ground arith
is_kind-eq passphrase CredentialType.password h = ground arith
is_kind-eq passphrase ssh_key h = ground arith

is_kind_refl : (a : CredentialType) → is_kind a a ≡ true
is_kind_refl CredentialType.password = refl
is_kind_refl ssh_key = refl
is_kind_refl passphrase = refl

is_kind_comm : (a b : CredentialType) → is_kind a b ≡ is_kind b a
is_kind_comm a b = elim (Bool-cases (is_kind a b)) [
  | inl y ↦ ground (arith, is_kind-eq a b, is_kind_refl a)
  | inr n ↦ ground (arith, is_kind-eq b a, is_kind_refl b)
]

pub secret_of-upsert_credential :
    (i : ℕ) (k : CredentialType) (s : ℕ) (l : List Credential) (j : ℕ) (k' : CredentialType)
    → UniqueCredentials l
    → secret_of j k' (upsert_credential i k s l)
      ≡ (if j == i && is_kind k' k then some s else secret_of j k' l)
unfolding secret_of upsert_credential
secret_of-upsert_credential i k s [] j k' u = ground (arith, is_kind_comm k k')
secret_of-upsert_credential i k s (c ∷ l) j k' (u, us) = elim (Bool-cases (is_credential i k c)) [
  | inl y ↦
      let same_identity : c.identity_id ≡ i = ground arith in
      let same_kind = is_kind-eq c.kind k (ground arith) in
      let alone : secret_of i k l ≡ none = rw (sym same_identity, sym same_kind) u in
      ground (arith, is_kind_comm k k', is_kind-eq k' k)
  | inr n ↦ ground (arith, secret_of-upsert_credential i k s l j k' us)
]

secret_of-destroy :
    (p : Credential → Bool) (hit : Bool) (l : List Credential) (j : ℕ) (k : CredentialType)
    → ((c : Credential) → is_credential j k c ≡ true → p c ≡ hit)
    → secret_of j k (destroy p l) ≡ (if hit then none else secret_of j k l)
unfolding secret_of destroy
secret_of-destroy p hit [] j k h = ground arith
secret_of-destroy p hit (c ∷ l) j k h = ground (arith, secret_of-destroy p hit l j k h, h c)

none-destroy :
    (p : Credential → Bool) (l : List Credential) (j : ℕ) (k : CredentialType)
    → secret_of j k l ≡ none
    → secret_of j k (destroy p l) ≡ none
unfolding secret_of destroy
none-destroy p [] j k h = refl
none-destroy p (c ∷ l) j k h = ground (arith, none-destroy p l j k)

UniqueCredentials-destroy :
    (p : Credential → Bool) (l : List Credential)
    → UniqueCredentials l
    → UniqueCredentials (destroy p l)
unfolding destroy
UniqueCredentials-destroy p [] u = tt
UniqueCredentials-destroy p (c ∷ l) (u, us) =
    ground (arith, UniqueCredentials-destroy p l us, none-destroy p l c.identity_id c.kind u)

pub UniqueCredentials-upsert_credential :
    (i : ℕ) (k : CredentialType) (s : ℕ) (l : List Credential)
    → UniqueCredentials l
    → UniqueCredentials (upsert_credential i k s l)
unfolding upsert_credential secret_of
UniqueCredentials-upsert_credential i k s [] u = (refl, tt)
UniqueCredentials-upsert_credential i k s (c ∷ l) (u, us) = ground (
  arith,
  UniqueCredentials-upsert_credential i k s l us,
  secret_of-upsert_credential i k s l c.identity_id c.kind us,
)

pub secret_of-destroy_credentials :
    (i : ℕ) (k' : CredentialType) (l : List Credential) (j : ℕ) (k : CredentialType)
    → secret_of j k (destroy_credentials i k' l)
      ≡ (if j == i && is_kind k k' then none else secret_of j k l)
unfolding destroy_credentials
secret_of-destroy_credentials i k' l j k =
    secret_of-destroy (is_credential i k') (j == i && is_kind k k') l j k
      (λ c h. ground (arith, is_kind-eq c.kind k))

pub secret_of-destroy_both :
    (i : ℕ) (l : List Credential) (j : ℕ) (k : CredentialType)
    → secret_of j k (destroy (λ c. is_credential i ssh_key c || is_credential i passphrase c) l)
      ≡ (if j == i && (is_kind k ssh_key || is_kind k passphrase) then none else secret_of j k l)
secret_of-destroy_both i l j k =
    secret_of-destroy (λ c. is_credential i ssh_key c || is_credential i passphrase c)
      (j == i && (is_kind k ssh_key || is_kind k passphrase)) l j k
      (λ c h. ground (arith, is_kind-eq c.kind k))

pub UniqueCredentials-set_key :
    (i : ℕ) (key phrase : Option ℕ) (l : List Credential)
    → UniqueCredentials l
    → UniqueCredentials (set_key i key phrase l)
unfolding destroy_credentials
UniqueCredentials-set_key i none phrase l u = u
UniqueCredentials-set_key i (some s) none l u =
    UniqueCredentials-destroy (is_credential i passphrase) (upsert_credential i ssh_key s l)
      (UniqueCredentials-upsert_credential i ssh_key s l u)
UniqueCredentials-set_key i (some s) (some t) l u =
    UniqueCredentials-upsert_credential i passphrase t (upsert_credential i ssh_key s l)
      (UniqueCredentials-upsert_credential i ssh_key s l u)

pub UniqueCredentials-set_password_only :
    (i : ℕ) (p : Option ℕ) (l : List Credential)
    → UniqueCredentials l
    → UniqueCredentials (set_password_only i p l)
UniqueCredentials-set_password_only i none l u = u
UniqueCredentials-set_password_only i (some s) l u =
    UniqueCredentials-destroy (λ c. is_credential i ssh_key c || is_credential i passphrase c)
      (upsert_credential i CredentialType.password s l)
      (UniqueCredentials-upsert_credential i CredentialType.password s l u)

pub UniqueCredentials-set_key_only :
    (i : ℕ) (key phrase : Option ℕ) (l : List Credential)
    → UniqueCredentials l
    → UniqueCredentials (set_key_only i key phrase l)
unfolding destroy_credentials
UniqueCredentials-set_key_only i none phrase l u = u
UniqueCredentials-set_key_only i (some s) phrase l u =
    UniqueCredentials-destroy (is_credential i CredentialType.password)
      (set_key i (some s) phrase l) (UniqueCredentials-set_key i (some s) phrase l u)

pub UniqueCredentials-upsert_given :
    (i : ℕ) (k : CredentialType) (s : Option ℕ) (l : List Credential)
    → UniqueCredentials l
    → UniqueCredentials (upsert_given i k s l)
UniqueCredentials-upsert_given i k none l u = u
UniqueCredentials-upsert_given i k (some s) l u = UniqueCredentials-upsert_credential i k s l u
