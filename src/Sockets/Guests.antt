-- ===== src/Sockets/Guests.antt =====
-- Who is let in with a share link.
use infram.Prelude.{
  ℕ, ◌≡◌, ◌<◌, ◌↔◌, refl, sym, ap, ◌∙◌, subst, ◌⊎◌, inl, inr, Bool, false, some, ◌==◌, arith,
  Bool-cases, Option-cases, get, ok, or_err, bind-ok, or_err-ok, ok-injective, ◌>>=◌,
}
use mathlib.Core.Option.{some-injective}
use infram.Models.{Entry}
use infram.SessionManager.{Session, Manager, find}
use infram.SessionManager.Sharing.{get_by_share_id, has_expired}
use infram.SessionManager.Invariant.{Inv}
use infram.Entries.{entry_at}
use infram.ServerSessions.{manager_of}
use infram.Sockets.{Hub, authenticate_shared_session}

-- A session that is shared by the link at this time; an expiry of 0 stands for none.
pub record IsShared (link now : ℕ) (m : Manager) (s : Session) : Type 0 where
  pub known : (id : ℕ) × (find id m ≡ some s)
  pub linked : s.share_id ≡ some link
  pub live : (expires : ℕ) × (s.share_expires_at ≡ some expires) × ((expires ≡ 0) ⊎ (now < expires))

live-has_expired :
    (now expires : ℕ) (s : Session)
    → s.share_expires_at ≡ some expires
    → (has_expired now s ≡ false) ↔ ((expires ≡ 0) ⊎ (now < expires))
live-has_expired now expires s e = (
  λ h. elim (Bool-cases (expires == 0)) [
    | inl y ↦ inl (ground arith)
    | inr n ↦ inr (let late = rw (e, n) at h in ground arith)
  ],
  λ l. rw e (elim l [ inl y ↦ ground arith | inr y ↦ ground arith ]),
)

followed :
    (link now k : ℕ) (m : Manager)
    → (get_by_share_id link now m).1 ≡ some k
    → (s : Session) × (get link m.share_index ≡ some k)
      × (find k m ≡ some s)
      × (has_expired now s ≡ false)
unfolding get_by_share_id
followed link now k m h = elim (Option-cases (get link m.share_index)) [
  | inl n ↦ let bad = rw (get_by_share_id, n) at h in ground arith
  | inr (j, e) ↦ elim (Option-cases (find j m)) [
    | inl n ↦ let bad = rw (get_by_share_id, e, n) at h in ground arith
    | inr (s, f) ↦ elim (Bool-cases (has_expired now s)) [
      | inl y ↦ let bad = rw (get_by_share_id, e, f, y) at h in ground arith
      | inr n ↦
          let same = some-injective j k (rw (get_by_share_id, e, f, n) at h) in
          (s, e ∙ ap (λ x. some x) same, ap (λ x. find x m) (sym same) ∙ f, n)
    ]
  ]
]

leads :
    (link now k : ℕ) (m : Manager) (s : Session)
    → get link m.share_index ≡ some k
    → find k m ≡ some s
    → has_expired now s ≡ false
    → get_by_share_id link now m ≡ (m, some k)
unfolding get_by_share_id
leads link now k m s e f n = rw (get_by_share_id, e) (rw f (rw n refl))

invited :
    (link now k : ℕ) (h : Hub) (s : Session)
    → get link (manager_of h.world).share_index ≡ some k
    → find k (manager_of h.world) ≡ some s
    → has_expired now s ≡ false
    → (authenticate_shared_session link now h).1 ≡ (
        or_err (entry_at s.entry_id h.world.tree.entries) 4005 >>= λ e. ok (e, s, s.share_writable))
unfolding authenticate_shared_session
invited link now k h s e f n =
    rw (authenticate_shared_session, leads link now k (manager_of h.world) s e f n) (rw f refl)

indexed-IsShared :
    (link now k : ℕ) (m : Manager) (s : Session)
    → Inv m
    → get link m.share_index ≡ some k
    → find k m ≡ some s
    → has_expired now s ≡ false
    → IsShared link now m s
indexed-IsShared link now k m s v e f n =
    let (t, g, l) = v.sound link k e in
    let linked = ap (λ x. x.share_id) (some-injective s t (sym f ∙ g)) ∙ l in
    elim (Option-cases s.share_expires_at) [
      | inl z ↦ let bad = (v.orderly k s f).expiry in ground arith
      | inr (expires, z) ↦ record {
        known = (k, f);
        linked = linked;
        live = (expires, z, (live-has_expired now expires s z).0 n);
      }
    ]

-- With a share link a socket is let in exactly to a session that is shared by this link and whose
-- expiry has not come, on an entry that is still there, and it may write exactly if the session is
-- shared for writing. The registry satisfies its invariant.
pub authenticate_shared_session-IsShared :
    (link now : ℕ) (h : Hub) (e : Entry) (s : Session) (writable : Bool)
    → Inv (manager_of h.world)
    → ((authenticate_shared_session link now h).1 ≡ ok (e, s, writable)) ↔ (
        IsShared link now (manager_of h.world) s
        × (entry_at s.entry_id h.world.tree.entries ≡ some e)
        × (writable ≡ s.share_writable))
unfolding authenticate_shared_session
authenticate_shared_session-IsShared link now h e s writable v =
    let m = manager_of h.world in
    (
      λ y.
          let (k, e0, e1) = bind-ok (or_err (get_by_share_id link now m).1 4013) _ y in
          let (t, at, found, fresh) = followed link now k m (or_err-ok _ 4013 k e0) in
          let (x, e2, e3) =
            bind-ok (or_err (entry_at t.entry_id h.world.tree.entries) 4005) _
              (sym (invited link now k h t at found fresh) ∙ y) in
          let one : (x, t, t.share_writable) ≡ (e, s, writable) = ok-injective e3 in
          let same : t ≡ s = ap (λ z. z.1) one in
          (
            subst (IsShared link now m) same (indexed-IsShared link now k m t v at found fresh),
            ap (λ z. entry_at z.entry_id h.world.tree.entries) (sym same)
                ∙ (or_err-ok _ 4005 x e2 ∙ ap (λ z. some z.0) one),
            sym (ap (λ z. z.2) one) ∙ ap (λ z. z.share_writable) same,
          ),
      λ (shared, there, w).
          let (k, found) = shared.known in
          let (expires, z, l) = shared.live in
          invited link now k h s (v.complete k link s found shared.linked) found
            ((live-has_expired now expires s z).1 l)
          ∙ rw there (ap (λ b. ok (e, s, b)) (sym w)),
    )
