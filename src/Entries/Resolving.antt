-- ===== src/Entries/Resolving.antt =====
-- server/utils/identityResolver.js: which identity signs in to an entry.
use infram.Prelude.{
  ℕ, Bool, true, false, not, ◌&&◌, Option, none, some, List, [], ◌∷◌, ◌==◌, if◌then◌else◌, find_all,
  given, is_one_of,
}
use infram.Models.{Protocol, telnet, EntryType, server, pve, plain, Entry}
use infram.Identities.{Identity, EntryIdentity, identity_at}
use infram.Folders.{Tree}
use infram.Entries.{accessible_ids, protocol_of}

-- A direct identity is kept as the number that stands for it. `missing` says whether the entry
-- requires an identity, and whether one was denied.
pub data Resolution : Type 0 where
  direct : ℕ → Resolution
  found : Identity → Resolution
  missing : (requires_identity access_denied : Bool) → Resolution

abbrev pub is_pve : EntryType → Bool
is_pve (pve p) = true
is_pve _ = false

abbrev is_telnet_protocol : Option Protocol → Bool
is_telnet_protocol (some telnet) = true
is_telnet_protocol _ = false

abbrev is_telnet : Entry → Bool
is_telnet e = elim e.kind [
  | plain p ↦ is_telnet_protocol (some p)
  | server ↦ is_telnet_protocol (protocol_of e.config)
  | _ ↦ false
]

abbrev pub requires : Entry → Bool
requires e = not (is_pve e.kind) && not (is_telnet e)

-- Without an account every identity may be used.
unfoldable pub may_sign_in_with : (account : Option ℕ) → Tree → ℕ → Bool
may_sign_in_with account v id = elim (given account) [
  | none ↦ true
  | some a ↦ is_one_of (accessible_ids a v) id
]

unfoldable pub first_usable : (account : Option ℕ) → List EntryIdentity → Tree → Option Identity
first_usable account [] v = none
first_usable account (l ∷ rest) v =
    let later = first_usable account rest v in
    if may_sign_in_with account v l.identity_id
    then elim (identity_at l.identity_id v.identities) [ none ↦ later | some i ↦ some i ]
    else later

abbrev resolve_asked : Entry → (account : Option ℕ) → Option Identity → Tree → Resolution
resolve_asked e account none v = missing (requires e) false
resolve_asked e account (some i) v =
    if may_sign_in_with account v i.id then found i else missing (requires e) true

abbrev found_or_missing : Entry → Option Identity → Resolution
found_or_missing e none = missing (requires e) false
found_or_missing e (some i) = found i

-- `ordered` is the database's `order: [['isDefault', 'DESC']]`.
unfoldable pub resolve_identity :
    (ordered : List EntryIdentity → List EntryIdentity)
    → Entry
    → (identity direct account : Option ℕ) → Tree
    → Resolution
resolve_identity ordered e identity (some d) account v = direct d
resolve_identity ordered e identity none account v = elim (given identity) [
  | some id ↦ resolve_asked e account (identity_at id v.identities) v
  | none ↦
      found_or_missing e
        (first_usable account (ordered (find_all (λ l. l.entry_id == e.id) v.entry_identities)) v)
]
