-- ===== src/Netbox/Rows.antt =====
-- Which rows of the table stay when items are written and servers are removed.
use infram.Prelude.{
  ℕ, ◌≡◌, refl, ◌∙◌, inl, inr, Bool, true, false, Option, none, some, List, [], ◌∷◌, ◌==◌, any, In,
  update, destroy, arith, Bool-cases, Result-cases, any-append,
}
use infram.Netbox.{Item}
use infram.Netbox.Actions.{Payload, Integration, payload_for}
use infram.Netbox.Sync.{
  Entry, Table, Counts, last_of, managed_entry, write_item, write_items, counted, remove_each,
}

-- The identifier is the key of the table.
abbrev pub UniqueIds : List Entry → Type 0
UniqueIds l = (a b : Entry) → In a l → In b l → a.id ≡ b.id → a ≡ b

abbrev pub has_id : ℕ → Entry → Bool
has_id k e = e.id == k

any-update :
    (k j : ℕ) (item : Item) (p : Payload) (i : Integration) (l : List Entry)
    → any (has_id k) (update (λ f. f.id == j) (λ f. managed_entry f.id item p i) l)
      ≡ any (has_id k) l
unfolding any update
any-update k j item p i [] = refl
any-update k j item p i (e ∷ l) = ground (arith, any-update k j item p i l)

pub any-write_item :
    (k : ℕ) (item : Item) (p : Payload) (i : Integration) (old : Option Entry) (t : Table)
    → any (has_id k) t.entries ≡ true
    → any (has_id k) (write_item item p i old t).entries ≡ true
unfolding write_item
any-write_item k item p i none t h =
    any-append (has_id k) t.entries (managed_entry t.next item p i ∷ []) ∙ ground arith
any-write_item k item p i (some e) t h = any-update k e.id item p i t.entries ∙ h

pub any-write_items :
    (k : ℕ) (existing : List Entry) (items : List Item) (account : ℕ) (i : Integration) (t : Table)
    (c : Counts)
    → any (has_id k) t.entries ≡ true
    → any (has_id k) (write_items existing items account i t c).0.entries ≡ true
unfolding write_items
any-write_items k existing [] account i t c h = h
any-write_items k existing (item ∷ items) account i t c h =
    elim (Result-cases (payload_for item account i)) [
      | inl (code, e) ↦ rw (write_items, e) h
      | inr (p, e) ↦
          let old = last_of item.external_id existing in
          rw (write_items, e)
            (any-write_items k existing items account i (write_item item p i old t) (counted old c)
              (any-write_item k item p i old t h))
    ]

-- A test that holds only of rows of one identifier.
pub any-destroy :
    (test : Entry → Bool) (k j : ℕ) (l : List Entry)
    → ((e : Entry) → test e ≡ true → e.id ≡ k)
    → (j == k) ≡ false
    → any test (destroy (λ f. f.id == j) l) ≡ any test l
unfolding any destroy
any-destroy test k j [] h n = refl
any-destroy test k j (e ∷ l) h n = elim (Bool-cases (test e)) [
  | inl y ↦ let at = h e y in ground (arith, any-destroy test k j l h n)
  | inr m ↦ ground (arith, any-destroy test k j l h n)
]

pub any-remove_each :
    (test : Entry → Bool) (k : ℕ) (es : List Entry) (t : Table)
    → ((e : Entry) → test e ≡ true → e.id ≡ k)
    → any (has_id k) es ≡ false
    → any test (remove_each es t).entries ≡ any test t.entries
unfolding remove_each any
any-remove_each test k [] t h n = refl
any-remove_each test k (e ∷ es) t h n =
    any-remove_each test k es (record t { entries = destroy (λ f. f.id == e.id) t.entries }) h
      (ground arith)
    ∙ any-destroy test k e.id t.entries h (ground arith)
