-- ===== src/ApiTokens.antt =====
-- server/utils/apiTokens.js: the tokens of the programming interface. Names, scopes, tokens and their
-- hashes are kept as the numbers that stand for them; the hash function is a parameter. The prefix
-- that the listing shows is left out.
pub mod Life
mod Tests
use infram.Prelude.{
  ℕ, ◌+◌, ◌-◌, ◌*◌, Bool, true, false, ◌&&◌, Option, none, some, List, [], ◌∷◌, ◌++◌, ◌==◌,
  if◌then◌else◌, leb, ltb, find_one, destroy, update, Result, ok, err, or_err, ◌>>=◌,
}
use infram.SignIn.{Account}

pub record ApiToken : Type 0 where
  pub id : ℕ
  pub account_id : ℕ
  pub name : ℕ
  pub scope : ℕ
  pub token_hash : ℕ
  pub expires_at : ℕ
  pub last_used_at : Option ℕ
  pub created_at : ℕ

pub record Tokens : Type 0 where
  pub rows : List ApiToken
  pub accounts : List Account

abbrev last_used_write_interval : ℕ
last_used_write_interval = 5 * 60 * 1000

abbrev pub new_token : (fresh account name scope days hashed now : ℕ) → ApiToken
new_token fresh account name scope days hashed now = record {
  id = fresh;
  account_id = account;
  name = name;
  scope = scope;
  token_hash = hashed;
  expires_at = now + days * 24 * 3600 * 1000;
  last_used_at = none;
  created_at = now;
}

abbrev pub has_hash : ℕ → ApiToken → Bool
has_hash hashed row = row.token_hash == hashed

-- The row that is to be revoked; an account may only name its own.
abbrev is_revocable : (id : ℕ) → Option ℕ → ApiToken → Bool
is_revocable id none row = row.id == id
is_revocable id (some account) row = row.id == id && row.account_id == account

unfoldable pub revoke_api_token : (id : ℕ) → Option ℕ → Tokens → Result Tokens
revoke_api_token id account v = do
  row ← or_err (find_one (is_revocable id account) v.rows) 404
  ok (record v { rows = destroy (λ r. r.id == row.id) v.rows })

-- `!row.lastUsedAt || Date.now() - row.lastUsedAt > LAST_USED_WRITE_INTERVAL`
abbrev is_stale : (now : ℕ) → ApiToken → Bool
is_stale now row = elim row.last_used_at [
  | none ↦ true
  | some used ↦ ltb last_used_write_interval (now - used)
]

abbrev pub use_token : (now : ℕ) → ApiToken → Tokens → Tokens
use_token now row v =
    if is_stale now row
    then record v {
      rows = update (λ r. r.id == row.id) (λ r. record r { last_used_at = some now }) v.rows;
    }
    else v

abbrev admit_token :
    (now : ℕ) → ApiToken → Tokens → Option Account → Tokens × Option (ApiToken × Account)
admit_token now row v none = (v, none)
admit_token now row v (some a) =
    if a.disabled then (v, none) else (use_token now row v, some (row, a))

module _ (hash_token : ℕ → ℕ) where
  -- `fresh` is the key of the new row and `token` the text that is drawn for it.
  unfoldable pub create_api_token : (fresh account name scope days token now : ℕ) → Tokens → Tokens
  create_api_token fresh account name scope days token now v = record v {
    rows = v.rows ++ new_token fresh account name scope days (hash_token token) now ∷ [];
  }

  unfoldable pub resolve_api_token : (token now : ℕ) → Tokens → Tokens × Option (ApiToken × Account)
  resolve_api_token token now v = elim (find_one (has_hash (hash_token token)) v.rows) [
    | none ↦ (v, none)
    | some row ↦
        if leb row.expires_at now
        then (v, none)
        else admit_token now row v (find_one (λ a. a.id == row.account_id) v.accounts)
  ]
