-- ===== src/SessionManager/Links.antt =====
-- What a share link leads to, from the moment that it is made until it is revoked.
use infram.Prelude.{
  ℕ, ◌≡◌, ◌<◌, refl, ◌∙◌, ap, inl, inr, Bool, true, none, some, if◌then◌else◌, get, ◌≢◌, set,
  get-set, get-delete, leb, arith, Option-cases, delete,
}
use infram.SessionManager.{Session, Manager, find, change}
use infram.SessionManager.Sharing.{
  shared, start_sharing, unshared, stop_sharing, resolve, has_expired, get_by_share_id,
}
use infram.SessionManager.Release.{remove_finish}
use infram.SessionManager.Invariant.{Inv, find-change_self}

-- A link that is not in the index leads nowhere.
unlisted :
    (link now : ℕ) (m : Manager)
    → get link m.share_index ≡ none
    → get_by_share_id link now m ≡ (m, none)
unfolding get_by_share_id
unlisted link now m e = rw (e, get_by_share_id)

listed :
    (link now id : ℕ) (m : Manager) (s : Session)
    → get link m.share_index ≡ some id
    → find id m ≡ some s
    → get_by_share_id link now m
      ≡ (if has_expired now s then ((stop_sharing id m).0, none) else (m, some id))
unfolding get_by_share_id
listed link now id m s e f = rw (e, get_by_share_id) (rw (f, resolve))

stop_sharing_of_link :
    (id link : ℕ) (m : Manager) (s : Session)
    → find id m ≡ some s
    → s.share_id ≡ some link
    → stop_sharing id m
      ≡ (change id unshared (record m { share_index = delete link m.share_index }), true)
unfolding stop_sharing
stop_sharing_of_link id link m s e l = rw (e, stop_sharing) (rw l)

-- When a known, shared session stops being shared, its link leads nowhere at any time, and every
-- other link is looked up in the index as before.
pub get_by_share_id-stop_sharing :
    (id link other now : ℕ) (m : Manager) (s : Session)
    → find id m ≡ some s
    → s.share_id ≡ some link
    → link ≢ other
    → ((get_by_share_id link now (stop_sharing id m).0).1 ≡ none)
      × (get other (stop_sharing id m).0.share_index ≡ get other m.share_index)
get_by_share_id-stop_sharing id link other now m s e l h =
    rw (stop_sharing_of_link id link m s e l) (
      ap (λ p. p.1) (unlisted link now _ (ground (arith, get-delete link link m.share_index))),
      ground (arith, get-delete link other m.share_index),
    )

-- Once a known, shared session is removed, it is gone and its link leads nowhere at any time.
get_by_share_id-remove_finish :
    (id link now : ℕ) (m : Manager) (s : Session)
    → find id m ≡ some s
    → s.share_id ≡ some link
    → (find id (remove_finish id m) ≡ none)
      × ((get_by_share_id link now (remove_finish id m)).1 ≡ none)
unfolding remove_finish
get_by_share_id-remove_finish id link now m s e l =
    let gone : find id (remove_finish id m) ≡ none =
      rw (e, remove_finish) (ground (arith, get-delete id id m.sessions)) in
    let out : get link (remove_finish id m).share_index ≡ none =
      rw (e, remove_finish) (rw l (ground (arith, get-delete link link m.share_index))) in
    (gone, ap (λ p. p.1) (unlisted link now _ out))

-- The link that `start_sharing` returns, with the registry that it leaves.
started :
    (id fresh expires : ℕ) (w : Bool) (m : Manager) (s : Session)
    → Inv m
    → find id m ≡ some s
    → (link : ℕ) × ((start_sharing id fresh w expires m).1 ≡ some link)
      × (get link (start_sharing id fresh w expires m).0.share_index ≡ some id)
      × (find id (start_sharing id fresh w expires m).0 ≡ some (shared link w expires s))
unfolding start_sharing
started id fresh expires w m s v e = elim (Option-cases s.share_id) [
  | inl alone ↦ (
    fresh,
    rw (e, start_sharing) (rw alone),
    rw (e, start_sharing) (rw alone (ground (arith, get-set fresh fresh id m.share_index))),
    rw (e, start_sharing)
        (rw alone (
          find-change_self id (shared fresh w expires)
            (record m { share_index = set fresh id m.share_index }) s e)),
  )
  | inr (link, linked) ↦ (
    link,
    rw (e, start_sharing) (rw linked),
    rw (e, start_sharing) (rw linked (v.complete id link s e linked)),
    rw (e, start_sharing) (rw linked (find-change_self id (shared link w expires) m s e)),
  )
]

-- Sharing a known session returns a link; until the expiry the link leads to this session and
-- leaves the registry as it is; from the expiry on it leads nowhere, and following it takes the
-- link out of the index and off the session. The registry satisfies its invariant, and the expiry
-- is after the epoch.
pub get_by_share_id-start_sharing :
    (id fresh expires now : ℕ) (w : Bool) (m : Manager) (s : Session)
    → Inv m
    → find id m ≡ some s
    → 0 < expires
    → (link : ℕ) × ((start_sharing id fresh w expires m).1 ≡ some link)
      × (get_by_share_id link now (start_sharing id fresh w expires m).0 ≡ (
          if leb expires now
          then ((stop_sharing id (start_sharing id fresh w expires m).0).0, none)
          else ((start_sharing id fresh w expires m).0, some id)))
      × (get link (stop_sharing id (start_sharing id fresh w expires m).0).0.share_index ≡ none)
      × (find id (stop_sharing id (start_sharing id fresh w expires m).0).0
          ≡ some (unshared (shared link w expires s)))
get_by_share_id-start_sharing id fresh expires now w m s v e pos =
    let (link, returned, indexed, found) = started id fresh expires w m s v e in
    let m' = (start_sharing id fresh w expires m).0 in
    let stopped = stop_sharing_of_link id link m' (shared link w expires s) found refl in
    let due : has_expired now (shared link w expires s) ≡ leb expires now = ground arith in
    (
      link,
      returned,
      listed link now id m' (shared link w expires s) indexed found
          ∙ ap (λ b. if b then ((stop_sharing id m').0, none) else (m', some id)) due,
      rw stopped (ground (arith, get-delete link link m'.share_index)),
      rw stopped (
          find-change_self id unshared (record m' { share_index = delete link m'.share_index })
            (shared link w expires s) found),
    )
