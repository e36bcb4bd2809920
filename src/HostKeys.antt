-- ===== src/HostKeys.antt =====
-- server/utils/hostKeys.js and server/controllers/hostKey.js: the keys of SSH hosts, trusted on first
-- use. Hosts (in lower case), types of keys and fingerprints are kept as the numbers that stand for
-- them.
pub mod Trust
mod Tests
use infram.Prelude.{
  ℕ, ◌-◌, ◌*◌, Bool, true, false, not, ◌&&◌, Option, none, some, List, [], ◌∷◌, ◌++◌, ◌==◌,
  if◌then◌else◌, same, ltb, find_one, destroy, update, Result, ok, err, or_err, ◌>>=◌,
}

pub record HostKey : Type 0 where
  pub id : ℕ
  pub host : ℕ
  pub port : ℕ
  pub key_type : ℕ
  pub fingerprint : ℕ
  pub pending_key_type : Option ℕ
  pub pending_fingerprint : Option ℕ
  pub pending_seen_at : Option ℕ
  pub first_seen_at : ℕ
  pub last_seen_at : ℕ

-- A key that a host presents; `port` is what the entry says.
pub record Presented : Type 0 where
  pub host : ℕ
  pub port : Option ℕ
  pub key_type : ℕ
  pub fingerprint : ℕ

-- `Number(port) || 22`
abbrev pub port_of : Option ℕ → ℕ
port_of none = 22
port_of (some port) = if port == 0 then 22 else port

abbrev pub is_at : (host port : ℕ) → HostKey → Bool
is_at host port k = k.host == host && k.port == port

abbrev pub last_seen_write_interval : ℕ
last_seen_write_interval = 60 * 60 * 1000

abbrev pub first_seen : (fresh now : ℕ) → Presented → HostKey
first_seen fresh now a = record {
  id = fresh;
  host = a.host;
  port = port_of a.port;
  key_type = a.key_type;
  fingerprint = a.fingerprint;
  pending_key_type = none;
  pending_fingerprint = none;
  pending_seen_at = none;
  first_seen_at = now;
  last_seen_at = now;
}

abbrev pub pended : (now : ℕ) → Presented → HostKey → HostKey
pended now a k = record k {
  pending_key_type = some a.key_type;
  pending_fingerprint = some a.fingerprint;
  pending_seen_at = some now;
}

abbrev pub matches : Presented → HostKey → Bool
matches a k = k.fingerprint == a.fingerprint && k.key_type == a.key_type

-- The check of a known host.
abbrev verify_known : (now : ℕ) → Presented → HostKey → List HostKey → List HostKey × Bool
verify_known now a known keys =
    if matches a known
    then (
      if ltb last_seen_write_interval (now - known.last_seen_at)
          then update (λ k. k.id == known.id) (λ k. record k { last_seen_at = now }) keys
          else keys,
      true,
    )
    else (
      if same known.pending_fingerprint (some a.fingerprint)
          then keys
          else update (λ k. k.id == known.id) (pended now a) keys,
      false,
    )

-- `fresh` is the identifier of the row that is written for a new host.
unfoldable pub verify_host_key : (fresh now : ℕ) → Presented → List HostKey → List HostKey × Bool
verify_host_key fresh now a keys = elim (find_one (is_at a.host (port_of a.port)) keys) [
  | none ↦ (keys ++ first_seen fresh now a ∷ [], true)
  | some known ↦ verify_known now a known keys
]

-- The two pending columns are set and cleared together, so that the type is there.
abbrev accepted : (now : ℕ) → HostKey → ℕ → HostKey → HostKey
accepted now key fingerprint k = record k {
  key_type = elim key.pending_key_type [ none ↦ k.key_type | some t ↦ t ];
  fingerprint = fingerprint;
  pending_key_type = none;
  pending_fingerprint = none;
  pending_seen_at = none;
  last_seen_at = now;
}

unfoldable pub accept_host_key : (id now : ℕ) → List HostKey → Result (List HostKey)
accept_host_key id now keys = do
  key ← or_err (find_one (λ k. k.id == id) keys) 404
  fingerprint ← or_err key.pending_fingerprint 409
  ok (update (λ k. k.id == key.id) (accepted now key fingerprint) keys)

unfoldable pub forget_host_key : (id : ℕ) → List HostKey → Result (List HostKey)
forget_host_key id keys = do
  key ← or_err (find_one (λ k. k.id == id) keys) 404
  ok (destroy (λ k. k.id == key.id) keys)
