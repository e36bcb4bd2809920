-- ===== src/Netbox/Review.antt =====
-- How many servers a sync removes without a review, and which.
use infram.Prelude.{
  Result, find_all, ==_refl, ℕ, ◌*◌, ◌≤◌, ◌<◌, ◌≡◌, refl, sym, ap, ◌∙◌, subst, ◌⊎◌, inl, inr, Bool,
  true, false, ◌&&◌, List, [], ◌∷◌, if◌then◌else◌, any, any-In, In, In-any, In-find_all, length,
  arith, Bool-cases, Result-cases, ok, ok-injective, ==_iff,
}
use mathlib.Core.Bool.{false≢true}
use infram.Netbox.{Item}
use infram.Netbox.Actions.{Integration}
use infram.Netbox.Sync.{
  Entry, Table, Counts, Summary, is_managed, is_unmatched, needs_review, write_items, remove_each,
  existing_of, matched_of, to_delete, is_held, sync_netbox_integration,
}
use infram.Netbox.Rows.{UniqueIds, has_id, any-write_items, any-remove_each}

-- A server that is matched, or that is no server of the integration, is not to be deleted.
kept_id :
    (items : List Item) (i : Integration) (t : Table) (e : Entry)
    → UniqueIds t.entries
    → In e t.entries
    → (is_managed i.id e && is_unmatched items e) ≡ false
    → any (has_id e.id) (to_delete items (existing_of i t)) ≡ false
unfolding to_delete existing_of
kept_id items i t e u at k =
    elim (Bool-cases (any (has_id e.id) (to_delete items (existing_of i t)))) [
      | inr n ↦ n
      | inl y ↦
          let (f, f_at, same) = any-In (has_id e.id) (to_delete items (existing_of i t)) y in
          let (f_old, bad) = In-find_all (is_unmatched items) (existing_of i t) f f_at in
          let (f_in, managed) = In-find_all (is_managed i.id) t.entries f f_old in
          let one = u f e f_in at ((==_iff f.id e.id).0 same) in
          let both : (is_managed i.id f && is_unmatched items f) ≡ true = ground arith in
          absurd (
            false≢true (
              sym (subst (λ g. (is_managed i.id g && is_unmatched items g) ≡ false) (sym one) k)
              ∙ both))
    ]

few : (n d : ℕ) → d ≤ n → needs_review d n ≡ false → (d ≡ 0) ⊎ ((d < n) × ((d ≤ 5) ⊎ (d * 10 ≤ n)))
unfolding needs_review
few n d l h = ground arith

reviewed :
    (n d : ℕ)
    → d ≤ n
    → ((if needs_review d n then 0 else d) ≡ 0)
      ⊎ (((if needs_review d n then 0 else d) < n)
          × (((if needs_review d n then 0 else d) ≤ 5)
              ⊎ ((if needs_review d n then 0 else d) * 10 ≤ n)))
reviewed n d l = elim (Bool-cases (needs_review d n)) [
  | inl y ↦ rw y (inl refl)
  | inr m ↦ rw m (few n d l m)
]

length-find_all : (p : Entry → Bool) (l : List Entry) → length (find_all p l) ≤ length l
unfolding find_all
length-find_all p [] = omega arith
length-find_all p (e ∷ l) = ground (arith, length-find_all p l)

-- What was written for the items before anything is removed.
abbrev pub written : List Item → Integration → (account : ℕ) → Table → Table × Result Counts
written inventory i account t =
    write_items (existing_of i t) (matched_of inventory i) account i t
      (record { created = 0; updated = 0 })

abbrev summary : Bool → (gone : ℕ) → Counts → (matched : ℕ) → Summary
summary held gone c matched = record {
  held = held;
  pending_removals = if held then gone else 0;
  created = c.created;
  updated = c.updated;
  deleted = if held then 0 else gone;
  total_matched = matched;
}

module _ (inventory : List Item) (i : Integration) (account : ℕ) (allow : Bool) (t : Table) where
  abbrev pub matched : List Item
  matched = matched_of inventory i

  abbrev pub gone : List Entry
  gone = to_delete matched (existing_of i t)

  abbrev pub held : Bool
  held = is_held allow matched (existing_of i t)

  -- A sync that succeeds has written all items.
  pub sync-ok :
      (s : Summary)
      → (sync_netbox_integration inventory i account allow t).1 ≡ ok s
      → (c : Counts) × ((written inventory i account t).1 ≡ ok c)
        × (s ≡ summary held (length gone) c (length matched))
        × ((sync_netbox_integration inventory i account allow t).0 ≡ (
            if held
            then (written inventory i account t).0
            else remove_each gone (written inventory i account t).0))
  unfolding sync_netbox_integration
  sync-ok s h = elim (Result-cases (written inventory i account t).1) [
    | inl (code, e) ↦ let bad = rw (sync_netbox_integration, e) at h in ground arith
    | inr (c, e) ↦
        let one = rw (sync_netbox_integration, e) at h in
        (c, e, sym (ok-injective one), rw (sync_netbox_integration, e) refl)
  ]

  pub present :
      (k : ℕ)
      → any (has_id k) t.entries ≡ true
      → (held ≡ true) ⊎ (any (has_id k) gone ≡ false)
      → any
          (has_id k)
          (if held
            then (written inventory i account t).0
            else remove_each gone (written inventory i account t).0).entries
        ≡ true
  present k h n =
      let kept =
        any-write_items k (existing_of i t) matched account i t
          (record { created = 0; updated = 0 }) h in
      elim (Bool-cases held) [
        | inl y ↦ rw y kept
        | inr m ↦
            let out : any (has_id k) gone ≡ false = elim n [
              | inl y ↦ absurd (false≢true (sym m ∙ y))
              | inr a ↦ a
            ] in
            rw m (
              any-remove_each (has_id k) k gone (written inventory i account t).0
                (λ f g. (==_iff f.id k).0 g) out
              ∙ kept)
      ]

-- A sync for which removals are not allowed removes no server, or fewer than all that the
-- integration manages and then at most five or at most a tenth of them; a server that stays is one
-- that is no server of the integration, that is among the matched items, or any server where the
-- removals are held back. Unique identifiers and a sync that succeeds are assumed.
pub sync_netbox_integration-removals :
    (inventory : List Item) (i : Integration) (account : ℕ) (t : Table) (s : Summary)
    → UniqueIds t.entries
    → (sync_netbox_integration inventory i account false t).1 ≡ ok s
    → ((s.deleted ≡ 0)
        ⊎ ((s.deleted < length (existing_of i t))
            × ((s.deleted ≤ 5) ⊎ (s.deleted * 10 ≤ length (existing_of i t)))))
      × ((e : Entry)
          → In e t.entries
          → (s.held ≡ true)
            ⊎ ((is_managed i.id e && is_unmatched (matched_of inventory i) e) ≡ false)
          → any (has_id e.id) (sync_netbox_integration inventory i account false t).0.entries
            ≡ true)
unfolding to_delete
sync_netbox_integration-removals inventory i account t s u h =
    let (c, w, one, after) = sync-ok inventory i account false t s h in
    let n = length (existing_of i t) in
    let d = length (gone inventory i account false t) in
    let small = length-find_all (is_unmatched (matched_of inventory i)) (existing_of i t) in
    (
      subst (λ z. (z.deleted ≡ 0) ⊎ ((z.deleted < n) × ((z.deleted ≤ 5) ⊎ (z.deleted * 10 ≤ n))))
          (sym one) (reviewed n d small),
      λ e at k.
          ap (λ z. any (has_id e.id) z.entries) after
          ∙ present inventory i account false t e.id
              (In-any (has_id e.id) t.entries e at (==_refl e.id))
              (elim k [
                | inl y ↦ inl (sym (ap (λ z. z.held) one) ∙ y)
                | inr f ↦ inr (kept_id (matched_of inventory i) i t e u at f)
              ]),
    )
