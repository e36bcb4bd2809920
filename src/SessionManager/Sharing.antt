-- ===== src/SessionManager/Sharing.antt =====
-- server/lib/SessionManager.js: the sockets of a session and its share link.
use infram.Prelude.{
  ℕ, Bool, true, false, Option, none, some, List, [], ◌∷◌, ◌++◌, ◌==◌, if◌then◌else◌, same, is_some,
  leb, get, set, delete, destroy, any,
}
use infram.SessionManager.{Session, Manager, find, change}

-- `Set.add`: a member is not added twice.
abbrev pub add : ℕ → List ℕ → List ℕ
add x xs = if any (λ y. y == x) xs then xs else xs ++ x ∷ []

abbrev pub drop_from : ℕ → List ℕ → List ℕ
drop_from x xs = destroy (λ y. y == x) xs

unfoldable pub set_active_ws : ℕ → Option ℕ → Manager → Manager
set_active_ws id ws m = change id (λ s. record s { active_ws = ws }) m

unfoldable pub is_active_ws : ℕ → ℕ → Manager → Bool
is_active_ws id ws m = elim (find id m) [ none ↦ false | some s ↦ same s.active_ws (some ws) ]

unfoldable pub add_web_socket : ℕ → ℕ → Bool → Manager → Manager
add_web_socket id ws is_shared m =
    change id
      (λ s.
        if is_shared
        then record s { shared_ws = add ws s.shared_ws }
        else record s { connected_ws = add ws s.connected_ws })
      m

abbrev clear_active : ℕ → Session → Session
clear_active ws s = if same s.active_ws (some ws) then record s { active_ws = none } else s

unfoldable pub remove_web_socket : ℕ → ℕ → Bool → Manager → Manager
remove_web_socket id ws is_shared m =
    change id
      (λ s. clear_active ws (
        if is_shared
        then record s { shared_ws = drop_from ws s.shared_ws }
        else record s { connected_ws = drop_from ws s.connected_ws }))
      m

-- The assignments of `startSharing` to the session; the timer is set for the expiry.
abbrev pub shared : ℕ → Bool → ℕ → Session → Session
shared link writable expires s = record s {
  share_id = some link;
  share_writable = writable;
  share_expires_at = some expires;
  share_timer = some expires;
}

-- `fresh` is the identifier drawn from `uuidv4`; a session that is shared keeps its own.
unfoldable pub start_sharing : (id fresh : ℕ) → Bool → ℕ → Manager → Manager × Option ℕ
start_sharing id fresh writable expires m = elim (find id m) [
  | none ↦ (m, none)
  | some s ↦ elim s.share_id [
    | some link ↦ (change id (shared link writable expires) m, some link)
    | none ↦ (
      change id (shared fresh writable expires)
          (record m { share_index = set fresh id m.share_index }),
      some fresh,
    )
  ]
]

-- The active socket is reset if it is one of the shared ones, and all of these are closed.
abbrev pub unshared : Session → Session
unshared s = record s {
  active_ws = if any (λ ws. same s.active_ws (some ws)) s.shared_ws then none else s.active_ws;
  shared_ws = [];
  share_timer = none;
  share_id = none;
  share_writable = false;
  share_expires_at = none;
}

unfoldable pub stop_sharing : ℕ → Manager → Manager × Bool
stop_sharing id m = elim (find id m) [
  | none ↦ (m, false)
  | some s ↦ elim s.share_id [
    | none ↦ (m, false)
    | some link ↦ (change id unshared (record m { share_index = delete link m.share_index }), true)
  ]
]

unfoldable pub update_share_permissions : ℕ → Bool → Manager → Manager × Bool
update_share_permissions id writable m = elim (find id m) [
  | none ↦ (m, false)
  | some s ↦
      if is_some s.share_id
      then (change id (λ t. record t { share_writable = writable }) m, true)
      else (m, false)
]

-- `session?.shareExpiresAt && session.shareExpiresAt <= Date.now()`
abbrev pub has_expired : ℕ → Session → Bool
has_expired now s = elim s.share_expires_at [
  | none ↦ false
  | some expires ↦ if expires == 0 then false else leb expires now
]

abbrev pub resolve : ℕ → ℕ → Manager → Option Session → Manager × Option ℕ
resolve now id m none = (m, none)
resolve now id m (some s) =
    if has_expired now s then ((stop_sharing id m).0, none) else (m, some id)

-- The session that a link leads to, by its identifier.
unfoldable pub get_by_share_id : (link now : ℕ) → Manager → Manager × Option ℕ
unfolding stop_sharing
get_by_share_id link now m = elim (get link m.share_index) [
  | none ↦ (m, none)
  | some id ↦ resolve now id m (find id m)
]

-- The callback of the timer that `startSharing` sets.
unfoldable pub timer_fires : (id now : ℕ) → Manager → Manager
unfolding stop_sharing
timer_fires id now m = elim (find id m) [
  | none ↦ m
  | some s ↦ elim s.share_timer [
    | none ↦ m
    | some due ↦ if leb due now then (stop_sharing id m).0 else m
  ]
]
