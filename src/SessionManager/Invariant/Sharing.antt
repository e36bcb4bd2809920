-- ===== src/SessionManager/Invariant/Sharing.antt =====
-- The invariant under the calls that share a session or stop sharing it.
use infram.Prelude.{
  UniqueKeys-modify, ℕ, ◌≡◌, refl, subst, inl, inr, Bool, none, some, ◌==◌, if◌then◌else◌, get, set,
  delete, get-set, get-delete, leb, arith, Option-cases, Bool-cases,
}
use infram.SessionManager.{Session, Manager, find, change}
use infram.SessionManager.Sharing.{
  shared, start_sharing, unshared, stop_sharing, get_by_share_id, timer_fires, has_expired, resolve,
}
use infram.SessionManager.Invariant.{Inv, IsOrderly, find-change, find-change_inv, changed}

-- A session that was not shared gets a new link.
link_new-Inv :
    (id fresh : ℕ) (f : Session → Session) (m : Manager) (s : Session)
    → find id m ≡ some s
    → s.share_id ≡ none
    → get fresh m.share_index ≡ none
    → (f s).share_id ≡ some fresh
    → IsOrderly (f s)
    → Inv m
    → Inv (change id f (record m { share_index = set fresh id m.share_index }))
link_new-Inv id fresh f m s e alone unused linked ok v = record {
  sound = λ link j h. elim (Bool-cases (fresh == link)) [
    | inl same ↦ (
      f s,
      ground (arith, get-set fresh link id m.share_index, find-change id j f m s),
      ground (arith, get-set fresh link id m.share_index),
    )
    | inr other ↦
        let (s', e', l) = v.sound link j (ground (arith, get-set fresh link id m.share_index)) in
        (s', ground (arith, find-change id j f m s' e'), l)
  ];
  complete = λ j link t e' l.
      let (s', e'', p) = find-change_inv id j f m t e' in
      ground (arith, get-set fresh link id m.share_index, v.complete j link s' e'');
  orderly = λ j t e'.
      let (s', e'', p) = find-change_inv id j f m t e' in
      changed IsOrderly id j f s' t p (λ q. subst (λ x. IsOrderly (f x)) (ground arith) ok)
        (λ _. v.orderly j s' e'');
  unique = UniqueKeys-modify id f m.sessions v.unique;
}

-- A session loses its link: by `stopSharing`, where it stays, and by `remove`.
unlink-Inv :
    (id link : ℕ) (f : Session → Session) (m : Manager) (s : Session)
    → find id m ≡ some s
    → s.share_id ≡ some link
    → (f s).share_id ≡ none
    → IsOrderly (f s)
    → Inv m
    → Inv (change id f (record m { share_index = delete link m.share_index }))
unlink-Inv id link f m s e linked free ok v = record {
  sound = λ l j h.
      let (s', e', l') = v.sound l j (ground (arith, get-delete link l m.share_index)) in
      (s', ground (arith, find-change id j f m s' e', get-delete link l m.share_index), l');
  complete = λ j l t e' h.
      let (s', e'', p) = find-change_inv id j f m t e' in
      ground (
        arith,
        get-delete link l m.share_index,
        v.complete j l s' e'',
        v.complete id link s e linked,
      );
  orderly = λ j t e'.
      let (s', e'', p) = find-change_inv id j f m t e' in
      changed IsOrderly id j f s' t p (λ q. subst (λ x. IsOrderly (f x)) (ground arith) ok)
        (λ _. v.orderly j s' e'');
  unique = UniqueKeys-modify id f m.sessions v.unique;
}

shared-IsOrderly :
    (link : ℕ) (w : Bool) (expires : ℕ) (s : Session)
    → IsOrderly s
    → IsOrderly (shared link w expires s)
shared-IsOrderly link w expires s ok = record {
  one_master = ok.one_master;
  bounded = ok.bounded;
  expiry = refl;
  timed = refl;
}

unshared-IsOrderly : (s : Session) → IsOrderly s → IsOrderly (unshared s)
unshared-IsOrderly s ok = record {
  one_master = ok.one_master;
  bounded = ok.bounded;
  expiry = refl;
  timed = refl;
}

-- A session that is shared keeps its link.
relink-Inv :
    (id link : ℕ) (w : Bool) (expires : ℕ) (m : Manager) (s : Session)
    → find id m ≡ some s
    → s.share_id ≡ some link
    → Inv m
    → Inv (change id (shared link w expires) m)
relink-Inv id link w expires m s e linked v = record {
  sound = λ l j h.
      let (s', e', l') = v.sound l j h in
      (
        (if id == j then shared link w expires s' else s'),
        find-change id j (shared link w expires) m s' e',
        ground arith,
      );
  complete = λ j l t e' h.
      let (s', e'', p) = find-change_inv id j (shared link w expires) m t e' in
      ground (arith, v.complete j l s' e'');
  orderly = λ j t e'.
      let (s', e'', p) = find-change_inv id j (shared link w expires) m t e' in
      changed IsOrderly id j (shared link w expires) s' t p
        (λ _. shared-IsOrderly link w expires s' (v.orderly j s' e'')) (λ _. v.orderly j s' e'');
  unique = UniqueKeys-modify id (shared link w expires) m.sessions v.unique;
}

pub start_sharing-Inv :
    (id fresh : ℕ) (w : Bool) (expires : ℕ) (m : Manager)
    → get fresh m.share_index ≡ none
    → Inv m
    → Inv (start_sharing id fresh w expires m).0
unfolding start_sharing
start_sharing-Inv id fresh w expires m unused v = elim (Option-cases (find id m)) [
  | inl e ↦ rw (e, start_sharing) v
  | inr (s, e) ↦ elim (Option-cases s.share_id) [
    | inl alone ↦
        rw (e, start_sharing, alone)
          (link_new-Inv id fresh (shared fresh w expires) m s e alone unused refl
            (shared-IsOrderly fresh w expires s (v.orderly id s e)) v)
    | inr (link, linked) ↦
        rw (e, start_sharing, linked) (relink-Inv id link w expires m s e linked v)
  ]
]

pub stop_sharing-Inv : (id : ℕ) (m : Manager) → Inv m → Inv (stop_sharing id m).0
unfolding stop_sharing
stop_sharing-Inv id m v = elim (Option-cases (find id m)) [
  | inl e ↦ rw (e, stop_sharing) v
  | inr (s, e) ↦ elim (Option-cases s.share_id) [
    | inl alone ↦ rw (e, stop_sharing, alone) v
    | inr (link, linked) ↦
        rw (e, stop_sharing, linked)
          (unlink-Inv id link unshared m s e linked refl (unshared-IsOrderly s (v.orderly id s e))
            v)
  ]
]

pub get_by_share_id-Inv : (link now : ℕ) (m : Manager) → Inv m → Inv (get_by_share_id link now m).0
unfolding get_by_share_id
get_by_share_id-Inv link now m v = elim (Option-cases (get link m.share_index)) [
  | inl e ↦ rw (e, get_by_share_id) v
  | inr (id, e) ↦
      rw (e, get_by_share_id)
        (elim (Option-cases (find id m)) [
          | inl e' ↦ rw (e', resolve) v
          | inr (s, e') ↦
              rw (e', resolve)
                (elim (Bool-cases (has_expired now s)) [
                  | inl over ↦ rw over (stop_sharing-Inv id m v)
                  | inr still ↦ rw still v
                ])
        ])
]

pub timer_fires-Inv : (id now : ℕ) (m : Manager) → Inv m → Inv (timer_fires id now m)
unfolding timer_fires
timer_fires-Inv id now m v = elim (Option-cases (find id m)) [
  | inl e ↦ rw (e, timer_fires) v
  | inr (s, e) ↦ elim (Option-cases s.share_timer) [
    | inl off ↦ rw (e, timer_fires, off) v
    | inr (due, on) ↦
        rw (e, timer_fires, on)
          (elim (Bool-cases (leb due now)) [
            | inl late ↦ rw late (stop_sharing-Inv id m v)
            | inr early ↦ rw early v
          ])
  ]
]
