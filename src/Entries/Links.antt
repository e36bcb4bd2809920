-- ===== src/Entries/Links.antt =====
-- Which identities an entry is linked to after `editEntry`.
use infram.Prelude.{
  ℕ, ◌≤◌, ◌≡◌, refl, sym, ap, ◌∙◌, subst, inl, inr, Bool, true, false, not, ◌&&◌, ◌||◌, Option,
  some, List, [], ◌∷◌, ◌++◌, ◌==◌, if◌then◌else◌, arith, any, count, any-append, count-append,
  count-destroy, count-none, destroy, Result, ok, err, guard-ok, is_one_of, Bool-cases,
  Result-cases,
}
use infram.Identities.{EntryIdentity}
use infram.Folders.{Tree, Context}
use infram.Entries.{accessible_ids, validate_identities, validate_jump_hosts, links_for}
use infram.Entries.Editing.{
  Edit, is_replaced, replace_identities, edit_identities, target_organization, jump_hosts_of,
  finish_edit, checked_edit, edit_entry,
}

abbrev pub linked : (entry identity : ℕ) → List EntryIdentity → Bool
linked entry identity links = any (λ l. l.entry_id == entry && l.identity_id == identity) links

abbrev pub defaults : (entry : ℕ) → List EntryIdentity → ℕ
defaults entry links = count (λ l. l.entry_id == entry && l.is_default) links

linked-destroy :
    (usable : ℕ → Bool) (entry k j : ℕ) (l : List EntryIdentity)
    → linked k j (destroy (λ x. x.entry_id == entry && usable x.identity_id) l)
      ≡ linked k j l && not (k == entry && usable j)
unfolding any destroy
linked-destroy usable entry k j [] = refl
linked-destroy usable entry k j (x ∷ l) = elim (Bool-cases (x.identity_id == j)) [
  | inl y ↦
      let e : x.identity_id ≡ j = ground arith in
      let u = ap usable e in ground (arith, linked-destroy usable entry k j l)
  | inr n ↦ ground (arith, linked-destroy usable entry k j l)
]

linked-links_for :
    (entry : ℕ) (first : Bool) (ids : List ℕ) (k j : ℕ)
    → linked k j (links_for entry first ids) ≡ k == entry && is_one_of ids j
unfolding any
linked-links_for entry first [] k j = ground arith
linked-links_for entry first (i ∷ ids) k j = ground (arith, linked-links_for entry false ids k j)

defaults-links_for :
    (entry : ℕ) (first : Bool) (ids : List ℕ) (k : ℕ)
    → defaults k (links_for entry first ids) ≤ (if first && k == entry then 1 else 0)
unfolding count
defaults-links_for entry first [] k = ground arith
defaults-links_for entry first (i ∷ ids) k = ground (arith, defaults-links_for entry false ids k)

all_usable :
    (usable : ℕ → Bool) (ids : List ℕ) (j : ℕ)
    → any (λ id. not (usable id)) ids ≡ false
    → is_one_of ids j ≡ true
    → usable j ≡ true
unfolding any
all_usable usable [] j h y = ground arith
all_usable usable (i ∷ ids) j h y = elim (Bool-cases (i == j)) [
  | inl z ↦ let e : i ≡ j = ground arith in let u = ap usable e in ground arith
  | inr n ↦ all_usable usable ids j (ground arith) (ground arith)
]

validate_identities-usable :
    (account : ℕ) (ids : List ℕ) (org : Option ℕ) (v : Tree) (u : Unit {0}) (j : ℕ)
    → validate_identities account ids org v ≡ ok u
    → is_one_of ids j ≡ true
    → is_one_of (accessible_ids account v) j ≡ true
unfolding validate_identities any
validate_identities-usable account [] org v u j h y = ground arith
validate_identities-usable account (i ∷ ids) org v u j h y =
    let (g, e) =
      guard-ok (not (any (λ id. not (is_one_of (accessible_ids account v) id)) (i ∷ ids))) 403 _
        h in
    all_usable (is_one_of (accessible_ids account v)) (i ∷ ids) j (ground arith) y

merged :
    (here usable asked old kept added : Bool)
    → kept ≡ old && not (here && usable)
    → added ≡ here && asked
    → (asked ≡ true → usable ≡ true)
    → kept || added ≡ (if here && usable then asked else old)
merged true true asked old kept added h g u = ground arith
merged true false true old kept added h g u = let x = u refl in ground arith
merged true false false old kept added h g u = ground arith
merged false usable asked old kept added h g u = ground arith

-- The entry that gets links has one default link at most, where it had none or gets none.
added_defaults :
    (entry k : ℕ) (ids : List ℕ) (kept : List EntryIdentity)
    → defaults k kept ≤ 1
    → defaults k
        (kept ++ links_for entry (not (any (λ l. l.entry_id == entry && l.is_default) kept)) ids)
      ≤ 1
added_defaults entry k ids kept h =
    elim (Bool-cases (any (λ l. l.entry_id == entry && l.is_default) kept)) [
      | inl y ↦ rw y (
          let b = defaults-links_for entry false ids k in
          let e =
            count-append (λ l. l.entry_id == k && l.is_default) kept (links_for entry false ids) in
          ground arith)
      | inr n ↦ rw n (
          let b = defaults-links_for entry true ids k in
          let e =
            count-append (λ l. l.entry_id == k && l.is_default) kept (links_for entry true ids) in
          let z = count-none (λ l. l.entry_id == entry && l.is_default) kept n in
          elim (Bool-cases (k == entry)) [
            | inl y ↦
                let same_entry : k ≡ entry = ground arith in
                let zk = ap (λ x. defaults x kept) same_entry ∙ z in ground arith
            | inr o ↦ ground arith
          ])
    ]

-- What the replacement of the identities does to the links and to the defaults.
linked-replace_identities :
    (account entry : ℕ) (ids : List ℕ) (v : Tree) (k j : ℕ)
    → (is_one_of ids j ≡ true → is_one_of (accessible_ids account v) j ≡ true)
    → linked k j (replace_identities account entry ids v).entry_identities ≡ (
        if k == entry && is_one_of (accessible_ids account v) j
        then is_one_of ids j
        else linked k j v.entry_identities)
unfolding replace_identities
linked-replace_identities account entry ids v k j h =
    let usable = is_one_of (accessible_ids account v) in
    let kept = destroy (is_replaced account entry v) v.entry_identities in
    any-append (λ l. l.entry_id == k && l.identity_id == j) kept _
    ∙ merged (k == entry) (usable j) (is_one_of ids j) (linked k j v.entry_identities) _ _
        (linked-destroy usable entry k j v.entry_identities) (linked-links_for entry _ ids k j) h

defaults-replace_identities :
    (account entry : ℕ) (ids : List ℕ) (v : Tree) (k : ℕ)
    → defaults k v.entry_identities ≤ 1
    → defaults k (replace_identities account entry ids v).entry_identities ≤ 1
unfolding replace_identities
defaults-replace_identities account entry ids v k h =
    let kept = destroy (is_replaced account entry v) v.entry_identities in
    let fewer =
      count-destroy (λ l. l.entry_id == k && l.is_default) (is_replaced account entry v)
        v.entry_identities in
    added_defaults entry k ids kept (omega arith)

-- An edit that succeeds and that is given a list of identities has replaced the links.
finish_edit-links :
    (account id : ℕ) (c : Edit) (scope : Option Context) (v w : Tree) (u : Unit {0})
    → finish_edit account id c scope v ≡ (w, ok u)
    → w.entry_identities ≡ v.entry_identities
unfolding finish_edit
finish_edit-links account id c scope v w u h =
    elim (Result-cases (validate_jump_hosts account (jump_hosts_of c.config) v)) [
      | inl (code, e) ↦ sym (ap (λ p. p.0.entry_identities) (rw (finish_edit, e) at h))
      | inr (x, e) ↦ sym (ap (λ p. p.0.entry_identities) (rw (finish_edit, e) at h))
    ]

abbrev succeeds : Tree × Result (Unit {0}) → Bool
succeeds (v, err code) = false
succeeds (v, ok u) = true

edit_entry-links :
    (account id : ℕ) (c : Edit) (v w : Tree) (u : Unit {0}) (ids : List ℕ)
    → edit_entry account id c v ≡ (w, ok u)
    → c.identities ≡ some ids
    → (org : Option ℕ) × (validate_identities account ids org v ≡ ok tt)
      × (w.entry_identities ≡ (replace_identities account id ids v).entry_identities)
unfolding edit_entry edit_identities
edit_entry-links account id c v w u ids h e = elim (Result-cases (checked_edit account id c v)) [
  | inl (code, z) ↦ let x = ap succeeds (rw (edit_entry, z) at h) in ground arith
  | inr ((found, scope), z) ↦
      let org = target_organization scope found in
      elim (Result-cases (validate_identities account ids org v)) [
        | inl (code, y) ↦
            let x = ap succeeds (rw (edit_entry, z, e, edit_identities, y) at h) in ground arith
        | inr (t, y) ↦ (
          org,
          y,
          finish_edit-links account id c scope (replace_identities account id ids v) w u
              (rw (edit_entry, z, e, edit_identities, y) at h),
        )
      ]
]

-- After an edit that succeeds and was given a list of identities, the entry is linked to those of
-- the identities that the account may use that are in the list, and to no other of them; its links
-- to identities that the account may not use, and the links of other entries, are as before. An
-- entry that had one default link at most has one at most.
pub linked-edit_entry :
    (account id : ℕ) (c : Edit) (v w : Tree) (u : Unit {0}) (ids : List ℕ) (k j : ℕ)
    → edit_entry account id c v ≡ (w, ok u)
    → c.identities ≡ some ids
    → (linked k j w.entry_identities ≡ (
        if k == id && is_one_of (accessible_ids account v) j
        then is_one_of ids j
        else linked k j v.entry_identities))
      × (defaults k v.entry_identities ≤ 1 → defaults k w.entry_identities ≤ 1)
linked-edit_entry account id c v w u ids k j h e =
    let (org, valid, links) = edit_entry-links account id c v w u ids h e in
    (
      ap (linked k j) links
          ∙ linked-replace_identities account id ids v k j
              (validate_identities-usable account ids org v tt j valid),
      λ one.
          subst (λ x. defaults k x ≤ 1) (sym links)
            (defaults-replace_identities account id ids v k one),
    )
