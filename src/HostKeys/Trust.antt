-- ===== src/HostKeys/Trust.antt =====
-- Whom the server trusts: the first key of a host, until an administrator accepts another one.
use infram.Prelude.{
  ℕ, ◌≡◌, refl, ap, ◌∙◌, inl, inr, Bool, true, ◌&&◌, Option, none, some, List, [], ◌∷◌, ◌++◌, ◌==◌,
  same, ltb, ◌-◌, arith, Bool-cases, Option-cases, find_one, update, ==_refl,
}
use infram.HostKeys.{
  HostKey, Presented, port_of, is_at, last_seen_write_interval, first_seen, pended, matches,
  verify_host_key,
}

-- The key that is trusted for a host and a port: its type and its fingerprint.
unfoldable pub trusted : (host port : ℕ) → List HostKey → Option (ℕ × ℕ)
trusted host port keys = elim (find_one (is_at host port) keys) [
  | none ↦ none
  | some k ↦ some (k.key_type, k.fingerprint)
]

-- The verdict that the trusted key calls for.
unfoldable pub verdict : Presented → Option (ℕ × ℕ) → Bool
verdict a none = true
verdict a (some (t, f)) = f == a.fingerprint && t == a.key_type

-- Connections to hosts, one after the other.
unfoldable pub verify_all : List (ℕ × ℕ × Presented) → List HostKey → List HostKey
verify_all [] keys = keys
verify_all ((fresh, now, a) ∷ rest) keys = verify_all rest (verify_host_key fresh now a keys).0

verify_host_key-verdict :
    (fresh now : ℕ) (a : Presented) (keys : List HostKey)
    → (verify_host_key fresh now a keys).1 ≡ verdict a (trusted a.host (port_of a.port) keys)
unfolding verify_host_key verdict trusted
verify_host_key-verdict fresh now a keys =
    elim (Option-cases (find_one (is_at a.host (port_of a.port)) keys)) [
      | inl e ↦ rw (verify_host_key, trusted, e, verdict) refl
      | inr (k, e) ↦ elim (Bool-cases (matches a k)) [
        | inl y ↦ rw (verify_host_key, trusted, e, y) refl
        | inr ne ↦ rw (verify_host_key, trusted, e, ne) refl
      ]
    ]

trusted-update :
    (host port : ℕ) (p : HostKey → Bool) (g : HostKey → HostKey) (keys : List HostKey)
    → ((k : HostKey)
        → ((g k).host ≡ k.host)
          × ((g k).port ≡ k.port)
          × ((g k).key_type ≡ k.key_type)
          × ((g k).fingerprint ≡ k.fingerprint))
    → trusted host port (update p g keys) ≡ trusted host port keys
unfolding trusted find_one update
trusted-update host port p g [] h = refl
trusted-update host port p g (k ∷ keys) h =
    let (a, b, c, d) = h k in ground (arith, trusted-update host port p g keys h, a, b, c, d)

trusted-append :
    (host port : ℕ) (keys : List HostKey) (k : HostKey) (t : ℕ × ℕ)
    → trusted host port keys ≡ some t
    → trusted host port (keys ++ k ∷ []) ≡ some t
unfolding trusted find_one
trusted-append host port [] k t h = ground arith
trusted-append host port (x ∷ keys) k t h = ground (arith, trusted-append host port keys k t)

no_row :
    (host port : ℕ) (keys : List HostKey)
    → trusted host port keys ≡ none
    → find_one (is_at host port) keys ≡ none
unfolding trusted
no_row host port keys h = elim (Option-cases (find_one (is_at host port) keys)) [
  | inl e ↦ e
  | inr (k, e) ↦ let x = rw (trusted, e) at h in ground arith
]

trusted-first :
    (fresh now : ℕ) (a : Presented) (keys : List HostKey)
    → find_one (is_at a.host (port_of a.port)) keys ≡ none
    → trusted a.host (port_of a.port) (keys ++ first_seen fresh now a ∷ [])
      ≡ some (a.key_type, a.fingerprint)
unfolding trusted find_one
trusted-first fresh now a [] h = ground (arith, ==_refl a.host, ==_refl (port_of a.port))
trusted-first fresh now a (x ∷ keys) h = ground (arith, trusted-first fresh now a keys)

trusted-verify_host_key :
    (fresh now host port : ℕ) (a : Presented) (keys : List HostKey) (t : ℕ × ℕ)
    → trusted host port keys ≡ some t
    → trusted host port (verify_host_key fresh now a keys).0 ≡ some t
unfolding verify_host_key
trusted-verify_host_key fresh now host port a keys t h =
    elim (Option-cases (find_one (is_at a.host (port_of a.port)) keys)) [
      | inl e ↦ rw (verify_host_key, e) (trusted-append host port keys (first_seen fresh now a) t h)
      | inr (k, e) ↦
          let seen =
            trusted-update host port (λ x. x.id == k.id) (λ x. record x { last_seen_at = now }) keys
              (λ x. (refl, refl, refl, refl)) in
          let waits =
            trusted-update host port (λ x. x.id == k.id) (pended now a) keys
              (λ x. (refl, refl, refl, refl)) in
          elim (Bool-cases (matches a k)) [
            | inl y ↦ elim (Bool-cases (ltb last_seen_write_interval (now - k.last_seen_at))) [
              | inl z ↦ rw (verify_host_key, e, y, z) (seen ∙ h)
              | inr z ↦ rw (verify_host_key, e, y, z) h
            ]
            | inr ne ↦ elim (Bool-cases (same k.pending_fingerprint (some a.fingerprint))) [
              | inl z ↦ rw (verify_host_key, e, ne, z) h
              | inr z ↦ rw (verify_host_key, e, ne, z) (waits ∙ h)
            ]
          ]
    ]

trusted-verify_all :
    (host port : ℕ) (l : List (ℕ × ℕ × Presented)) (keys : List HostKey) (t : ℕ × ℕ)
    → trusted host port keys ≡ some t
    → trusted host port (verify_all l keys) ≡ some t
unfolding verify_all
trusted-verify_all host port [] keys t h = h
trusted-verify_all host port ((fresh, now, a) ∷ l) keys t h =
    trusted-verify_all host port l (verify_host_key fresh now a keys).0 t
      (trusted-verify_host_key fresh now host port a keys t h)

-- The first key that an unknown host presents is let through; and from then on, whatever keys this
-- or other hosts present in between, a key of this host is let through exactly if it has the same
-- type and fingerprint as the first one.
pub verify_host_key-first_use :
    (fresh now fresh' now' : ℕ) (a b : Presented) (between : List (ℕ × ℕ × Presented))
    (keys : List HostKey)
    → trusted a.host (port_of a.port) keys ≡ none
    → b.host ≡ a.host
    → port_of b.port ≡ port_of a.port
    → ((verify_host_key fresh now a keys).1 ≡ true)
      × ((verify_host_key fresh' now' b (verify_all between (verify_host_key fresh now a keys).0)).1
          ≡ (a.fingerprint == b.fingerprint && a.key_type == b.key_type))
unfolding verdict verify_host_key
verify_host_key-first_use fresh now fresh' now' a b between keys h same_host same_port =
    let unknown = no_row a.host (port_of a.port) keys h in
    let learnt =
      trusted-verify_all a.host (port_of a.port) between (verify_host_key fresh now a keys).0
        (a.key_type, a.fingerprint)
        (rw (verify_host_key, unknown) (trusted-first fresh now a keys unknown)) in
    let later = verify_all between (verify_host_key fresh now a keys).0 in
    (
      verify_host_key-verdict fresh now a keys ∙ ap (verdict a) h,
      verify_host_key-verdict fresh' now' b later
          ∙ ap (verdict b) (
              ap (λ x. trusted x (port_of b.port) later) same_host
              ∙ (ap (λ y. trusted a.host y later) same_port ∙ learnt)),
    )
