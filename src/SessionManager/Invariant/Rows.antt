-- ===== src/SessionManager/Invariant/Rows.antt =====
-- The invariant where there are no sessions, and under `create` and `remove`.
use infram.Prelude.{
  UniqueKeys-set, UniqueKeys-delete, ℕ, ◌≡◌, ◌≢◌, refl, sym, subst, inl, inr, Option, none, some,
  ◌==◌, get, set, delete, get-set, get-delete, ◌⊎◌, arith, Option-cases, Bool-cases, List, [],
}
use infram.SessionManager.{Configuration, Session, Manager, find, new_session, create}
use infram.SessionManager.Release.{remove_finish}
use infram.SessionManager.Invariant.{Inv, IsOrderly}

pub empty-Inv : Inv (record { sessions = []; share_index = [] })
unfolding get
empty-Inv = record {
  sound = λ l i h. cc;
  complete = λ i l s h e. cc;
  orderly = λ i s h. cc;
  unique = tt;
}

set_new-Inv :
    (id : ℕ) (n : Session) (m : Manager)
    → find id m ≡ none
    → n.share_id ≡ none
    → IsOrderly n
    → Inv m
    → Inv (record m { sessions = set id n m.sessions })
set_new-Inv id n m fresh alone ok v = record {
  sound = λ link j h.
      let (s, e, l) = v.sound link j h in (s, ground (arith, get-set id j n m.sessions), l);
  complete = λ j link s e l. ground (arith, get-set id j n m.sessions, v.complete j link s);
  orderly = λ j s e. elim (Bool-cases (id == j)) [
    | inl same ↦
        let p : s ≡ n = ground (arith, get-set id j n m.sessions) in subst IsOrderly (sym p) ok
    | inr other ↦ v.orderly j s (ground (arith, get-set id j n m.sessions))
  ];
  unique = UniqueKeys-set id n m.sessions v.unique;
}

pub create-Inv :
    (id account entry : ℕ) (c : Configuration) (reason tab browser audit : Option ℕ) (now : ℕ)
    (m : Manager)
    → find id m ≡ none
    → Inv m
    → Inv (create id account entry c reason tab browser audit now m)
unfolding create
create-Inv id account entry c reason tab browser audit now m fresh v =
    set_new-Inv id (new_session account entry c reason tab browser audit now) m fresh refl
      (record { one_master = λ _. refl; bounded = omega arith; expiry = refl; timed = refl }) v

-- The index that `remove` leaves.
without_link : Option ℕ → List (ℕ × ℕ) → List (ℕ × ℕ)
without_link none index = index
without_link (some link) index = delete link index

get-without_link :
    (o : Option ℕ) (l : ℕ) (index : List (ℕ × ℕ))
    → ((o ≡ some l) × (get l (without_link o index) ≡ none))
      ⊎ ((o ≢ some l) × (get l (without_link o index) ≡ get l index))
unfolding without_link
get-without_link none l index = inr (λ e. cc, refl)
get-without_link (some k) l index = elim (Bool-cases (k == l)) [
  | inl same ↦ inl (ground arith, ground (arith, get-delete k l index))
  | inr other ↦ inr (λ e. ground arith, ground (arith, get-delete k l index))
]

drop-Inv :
    (id : ℕ) (m : Manager) (s : Session)
    → find id m ≡ some s
    → Inv m
    → Inv (record {
      sessions = delete id m.sessions;
      share_index = without_link s.share_id m.share_index;
    })
drop-Inv id m s e v = record {
  sound = λ l j h.
      let split = get-without_link s.share_id l m.share_index in
      let (s', e', l') = v.sound l j (ground arith) in
      (s', ground (arith, get-delete id j m.sessions), l');
  complete = λ j l t e' h.
      let split = get-without_link s.share_id l m.share_index in
      let old : find j m ≡ some t = ground (arith, get-delete id j m.sessions) in
      ground (arith, get-delete id j m.sessions, v.complete j l t old h, v.complete id l s e);
  orderly = λ j t e'. v.orderly j t (ground (arith, get-delete id j m.sessions));
  unique = UniqueKeys-delete id m.sessions v.unique;
}

pub remove_finish-Inv : (id : ℕ) (m : Manager) → Inv m → Inv (remove_finish id m)
unfolding remove_finish without_link
remove_finish-Inv id m v = elim (Option-cases (find id m)) [
  | inl e ↦ rw (e, remove_finish) v
  | inr (s, e) ↦
      rw (e, remove_finish)
        (elim (Option-cases s.share_id) [
          | inl alone ↦ rw alone (rw alone at (drop-Inv id m s e v))
          | inr (link, linked) ↦ rw linked (rw linked at (drop-Inv id m s e v))
        ])
]
