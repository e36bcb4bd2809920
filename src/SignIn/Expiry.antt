-- ===== src/SignIn/Expiry.antt =====
-- When a sign-in session ends, at a request and in the sweep.
use infram.Prelude.{
  ℕ, ◌+◌, ◌*◌, ◌≤◌, ◌≡◌, ◌↔◌, refl, sym, ap, ◌∙◌, inl, inr, false, List, [], ◌∷◌, find_all, any, In,
  In-destroy, In-destroy_of, In-find_all, In-find_all_of, arith, Bool, Bool-cases, ◌==◌, any-In,
  In-any, destroy_nothing, ==_iff, ==_refl,
}
use mathlib.Core.Bool.{false≢true}
use infram.SignIn.{
  Session, Policy, Server, hour, is_expired, is_swept, is_one_of, left_after, revoke_sessions,
  sweep_expired_sessions,
}

-- Within both limits of the policy.
abbrev pub IsCurrent : Policy → (now : ℕ) → Session → Type 0
IsCurrent p now s =
    (now ≤ s.last_activity + p.session_idle_hours * hour)
    × (now ≤ s.created_at + p.session_max_days * 24 * hour)

-- The identifier is the key of the table.
abbrev pub UniqueIds : List Session → Type 0
UniqueIds l = (r s : Session) → In r l → In s l → r.id ≡ s.id → r ≡ s

is_expired-IsCurrent :
    (s : Session) (p : Policy) (now : ℕ) → (is_expired s p now ≡ false) ↔ IsCurrent p now s
unfolding is_expired
is_expired-IsCurrent s p now = ((λ h. (ground arith, ground arith)), λ c. ground arith)

is_swept-IsCurrent :
    (s : Session) (p : Policy) (now : ℕ) → (is_swept p now s ≡ false) ↔ IsCurrent p now s
unfolding is_swept
is_swept-IsCurrent s p now = ((λ h. (ground arith, ground arith)), λ c. ground arith)

pub sessions-revoke_sessions :
    (rs : List Session) (v : Server) → (revoke_sessions rs v).sessions ≡ left_after rs v.sessions
unfolding revoke_sessions is_one_of any
sessions-revoke_sessions [] v = sym (destroy_nothing (is_one_of []) v.sessions (λ a. refl))
sessions-revoke_sessions (r ∷ rs) v = refl

-- Does a revocation of the sessions that satisfy a test revoke this one?
pub is_one_of-find_all :
    (test : Session → Bool) (l : List Session) (s : Session)
    → UniqueIds l
    → In s l
    → is_one_of (find_all test l) s ≡ test s
unfolding is_one_of
is_one_of-find_all test l s u at = elim (Bool-cases (test s)) [
  | inl y ↦
      In-any (λ r. r.id == s.id) (find_all test l) s (In-find_all_of test l s at y) (==_refl s.id)
      ∙ sym y
  | inr n ↦ elim (Bool-cases (is_one_of (find_all test l) s)) [
    | inl z ↦
        let (r, i, e) = any-In (λ r. r.id == s.id) (find_all test l) z in
        let (here, old) = In-find_all test l r i in
        let one = u r s here at ((==_iff r.id s.id).0 e) in
        absurd (false≢true (sym n ∙ (ap test (sym one) ∙ old)))
    | inr w ↦ w ∙ sym n
  ]
]

-- The sweep leaves exactly the sessions that are within both limits of the policy, which are those
-- that a request would not find expired. Session identifiers are unique.
pub In-sweep_expired_sessions :
    (now : ℕ) (v : Server) (s : Session)
    → UniqueIds v.sessions
    → (In s (sweep_expired_sessions now v).sessions ↔ (In s v.sessions × IsCurrent v.policy now s))
      × (IsCurrent v.policy now s ↔ (is_expired s v.policy now ≡ false))
unfolding sweep_expired_sessions
In-sweep_expired_sessions now v s u =
    let expired = find_all (is_swept v.policy now) v.sessions in
    let after = sessions-revoke_sessions expired v in
    let (current, swept) = is_swept-IsCurrent s v.policy now in
    let (to, from) = is_expired-IsCurrent s v.policy now in
    (
      rw after (
        (λ h.
            let (at, n) = In-destroy (is_one_of expired) v.sessions s h in
            (at, current (sym (is_one_of-find_all (is_swept v.policy now) v.sessions s u at) ∙ n))),
        λ (at, c).
            In-destroy_of (is_one_of expired) v.sessions s at
              (is_one_of-find_all (is_swept v.policy now) v.sessions s u at ∙ swept c),
      ),
      (from, to),
    )
