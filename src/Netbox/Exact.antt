-- ===== src/Netbox/Exact.antt =====
-- A sync leaves the servers of exactly the matched items.
use infram.Prelude.{
  ℕ, ◌≡◌, refl, sym, ap, ◌∙◌, inl, inr, Bool, true, false, not, List, [], ◌∷◌, ◌==◌, any, any-In,
  In, In-any, In-find_all, In-find_all_of, In-destroy, destroy, arith, Bool-cases, Option-cases, ok,
  ==_iff, ==_refl,
}
use mathlib.Core.Bool.{false≢true}
use infram.Texts.{Text}
use infram.Netbox.{Item}
use infram.Netbox.Actions.{Integration}
use infram.Netbox.Sync.{
  Entry, Table, Summary, is_managed, is_unmatched, has_external, has_item, remove_each, existing_of,
  matched_of, to_delete, sync_netbox_integration,
}
use infram.Netbox.Rows.{UniqueIds, has_id, any-remove_each}
use infram.Netbox.Review.{written, gone, held, sync-ok}
use infram.Netbox.Keys.{text_eq-eq, is_server, is_server_at, In-write_items}
use infram.Netbox.Serving.{AreBelow, Served, served}

is_unmatched-matched :
    (items : List Item) (x : Text) (e : Entry)
    → has_external x e ≡ true
    → is_unmatched items e ≡ not (any (has_item x) items)
is_unmatched-matched items x e h = elim (Option-cases e.external_id) [
  | inl n ↦ let bad = rw n at h in ground arith
  | inr (z, s) ↦ rw s (ap (λ w. not (any (has_item w) items)) (text_eq-eq z x (rw s at h)))
]

In-remove_each :
    (es : List Entry) (t : Table) (f : Entry)
    → In f (remove_each es t).entries
    → In f t.entries × (any (has_id f.id) es ≡ false)
unfolding remove_each any
In-remove_each [] t f at = (at, refl)
In-remove_each (e ∷ es) t f at =
    let (rest, out) =
      In-remove_each es (record t { entries = destroy (λ g. g.id == e.id) t.entries }) f at in
    let (here, other) = In-destroy (λ g. g.id == e.id) t.entries f rest in (here, ground arith)

server_of :
    (i k : ℕ) (x : Text) (l : List Entry)
    → any (is_server_at i k x) l ≡ true
    → any (is_server i x) l ≡ true
unfolding any
server_of i k x [] h = h
server_of i k x (e ∷ l) h = ground (arith, server_of i k x l)

module _ (inventory : List Item) (i : Integration) (account : ℕ) (allow : Bool) (t : Table) where
  left : Table
  left = remove_each (gone inventory i account allow t) (written inventory i account t).0

  -- An item that matches has a server, which is not removed.
  item_has_server :
      (x : Text)
      → any (has_item x) (matched_of inventory i) ≡ true
      → Served i (existing_of i t) account x (written inventory i account t).0
      → any (is_server i.id x) left.entries ≡ true
  unfolding left to_delete
  item_has_server x y (k, at, only) =
      let w = (written inventory i account t).0 in
      let g = gone inventory i account allow t in
      let none_gone : any (has_id k) g ≡ false = elim (Bool-cases (any (has_id k) g)) [
        | inr n ↦ n
        | inl z ↦
            let (e, e_at, same) = any-In (has_id k) g z in
            let (old, bad) =
              In-find_all (is_unmatched (matched_of inventory i)) (existing_of i t) e e_at in
            let not_bad = is_unmatched-matched (matched_of inventory i) x e (only e old same) in
            absurd (false≢true (ap not (sym y) ∙ (sym not_bad ∙ bad)))
      ] in
      server_of i.id k x left.entries (
        any-remove_each (is_server_at i.id k x) k g w (λ e h. (==_iff e.id k).0 (ground arith))
          none_gone
        ∙ at)

  -- A server that is left is that of an item.
  server_has_item :
      (x : Text)
      → any (is_server i.id x) left.entries ≡ true
      → any (has_item x) (matched_of inventory i) ≡ true
  unfolding left to_delete existing_of
  server_has_item x h =
      let items = matched_of inventory i in
      let (f, at, is) = any-In (is_server i.id x) left.entries h in
      let (in_w, out) =
        In-remove_each (gone inventory i account allow t) (written inventory i account t).0 f at in
      let has : has_external x f ≡ true = ground arith in
      let mine : is_managed i.id f ≡ true = ground arith in
      elim (In-write_items i (existing_of i t) items account t (record { created = 0; updated = 0 })
        x f in_w has) [
          | inl y ↦ y
          | inr old ↦ elim (Bool-cases (any (has_item x) items)) [
            | inl y ↦ y
            | inr n ↦
                let lost = is_unmatched-matched items x f has ∙ ap not n in
                let in_gone =
                  In-find_all_of (is_unmatched items) (existing_of i t) f
                    (In-find_all_of (is_managed i.id) t.entries f old mine) lost in
                absurd (
                  false≢true (
                    sym out
                    ∙ In-any (has_id f.id) (gone inventory i account allow t) f in_gone
                        (==_refl f.id)))
          ]
        ]

-- After a sync that succeeds and holds nothing back, the integration has a server with an external
-- identifier exactly if a matched item of the inventory has it. Identifiers that are unique, and new
-- ones that are above those of the table, are assumed.
pub any-sync_netbox_integration :
    (inventory : List Item) (i : Integration) (account : ℕ) (allow : Bool) (t : Table) (s : Summary)
    (x : Text)
    → UniqueIds t.entries
    → AreBelow t.next t.entries
    → (sync_netbox_integration inventory i account allow t).1 ≡ ok s
    → s.held ≡ false
    → any (is_server i.id x) (sync_netbox_integration inventory i account allow t).0.entries
      ≡ any (has_item x) (matched_of inventory i)
unfolding existing_of left
any-sync_netbox_integration inventory i account allow t s x u below h free =
    let (c, w, one, after) = sync-ok inventory i account allow t s h in
    let items = matched_of inventory i in
    let old : (e : Entry) → In e (existing_of i t) → In e t.entries =
      λ e at. (In-find_all (is_managed i.id) t.entries e at).0 in
    let not_held : held inventory i account allow t ≡ false = sym (ap (λ z. z.held) one) ∙ free in
    let now = rw not_held at after in
    ap (λ z. any (is_server i.id x) z.entries) now ∙ elim (Bool-cases (any (has_item x) items)) [
      | inl y ↦
          item_has_server inventory i account allow t x y (
            served i (existing_of i t) account items t (record { created = 0; updated = 0 }) c x
              (λ a b p q e. u a b (old a p) (old b q) e)
              (
                (λ e at. In-any (has_id e.id) t.entries e (old e at) (==_refl e.id)),
                λ e at. below e (old e at),
              )
              w y)
          ∙ sym y
      | inr n ↦
          elim (Bool-cases (any (is_server i.id x) (left inventory i account allow t).entries)) [
            | inl z ↦ absurd (false≢true (sym n ∙ server_has_item inventory i account allow t x z))
            | inr m ↦ m ∙ sym n
          ]
    ]
