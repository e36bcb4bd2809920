-- ===== src/Netbox/Keys.antt =====
-- The rows that the loop over the items writes.
use infram.Prelude.{
  ℕ, ◌≡◌, refl, sym, ap, ◌∙◌, ◌⊎◌, inl, inr, Bool, true, ◌&&◌, Option, none, some, List, [], ◌∷◌,
  ◌++◌, ◌==◌, any, In, update, arith, Bool-cases, Result-cases,
}
use infram.Texts.{Text, text_eq}
use infram.Netbox.{Item}
use infram.Netbox.Actions.{Payload, Integration, payload_for}
use infram.Netbox.Sync.{
  Entry, Table, Counts, is_managed, has_external, has_item, last_of, managed_entry, write_item,
  write_items, counted,
}
use infram.Netbox.Rows.{has_id}

pub text_eq_refl : (s : Text) → text_eq s s ≡ true
unfolding text_eq
text_eq_refl [] = refl
text_eq_refl (c ∷ s) = ground (arith, text_eq_refl s)

pub text_eq-eq : (s t : Text) → text_eq s t ≡ true → s ≡ t
unfolding text_eq
text_eq-eq [] [] h = refl
text_eq-eq [] (d ∷ t) h = ground arith
text_eq-eq (c ∷ s) [] h = ground arith
text_eq-eq (c ∷ s) (d ∷ t) h =
    let e : c ≡ d = ground arith in
    let rest = text_eq-eq s t (ground arith) in ap (λ k. k ∷ s) e ∙ ap (◌∷◌ d) rest

-- A server of the integration with this external identifier.
abbrev pub is_server : (integration : ℕ) → Text → Entry → Bool
is_server i x e = is_managed i e && has_external x e

abbrev pub is_server_at : (integration k : ℕ) → Text → Entry → Bool
is_server_at i k x e = has_id k e && is_server i x e

module _ (i : Integration) where
  pub managed :
      (id : ℕ) (item : Item) (p : Payload) → is_managed i.id (managed_entry id item p i) ≡ true
  unfolding is_managed
  managed id item p = ground arith

  In-update :
      (j : ℕ) (item : Item) (p : Payload) (l : List Entry) (f : Entry)
      → In f (update (λ g. g.id == j) (λ g. managed_entry g.id item p i) l)
      → In f l ⊎ (f.external_id ≡ some item.external_id)
  unfolding update
  In-update j item p [] f at = elim at [ ]
  In-update j item p (e ∷ l) f at = elim (Bool-cases (e.id == j)) [
    | inl y ↦ elim (rw y at at) [
      | inl one ↦ inr (ap (λ g. g.external_id) one)
      | inr rest ↦ elim (In-update j item p l f rest) [ inl a ↦ inl (inr a) | inr b ↦ inr b ]
    ]
    | inr n ↦ elim (rw n at at) [
      | inl one ↦ inl (inl one)
      | inr rest ↦ elim (In-update j item p l f rest) [ inl a ↦ inl (inr a) | inr b ↦ inr b ]
    ]
  ]

  In-append : (l : List Entry) (x f : Entry) → In f (l ++ x ∷ []) → In f l ⊎ (f ≡ x)
  In-append [] x f (inl e) = inr e
  In-append [] x f (inr at) = elim at [ ]
  In-append (e ∷ l) x f (inl h) = inl (inl h)
  In-append (e ∷ l) x f (inr at) = elim (In-append l x f at) [ inl a ↦ inl (inr a) | inr b ↦ inr b ]

  In-write_item :
      (item : Item) (p : Payload) (old : Option Entry) (t : Table) (f : Entry)
      → In f (write_item item p i old t).entries
      → In f t.entries ⊎ (f.external_id ≡ some item.external_id)
  unfolding write_item
  In-write_item item p none t f at =
      elim (In-append t.entries (managed_entry t.next item p i) f at) [
        | inl a ↦ inl a
        | inr e ↦ inr (ap (λ g. g.external_id) e)
      ]
  In-write_item item p (some e) t f at = In-update e.id item p t.entries f at

  external : (x y : Text) (f : Entry) → f.external_id ≡ some y → has_external x f ≡ text_eq y x
  external x y f e = rw e refl

  -- A row is an old one, or it was written for an item.
  pub In-write_items :
      (existing : List Entry) (items : List Item) (account : ℕ) (t : Table) (c : Counts) (x : Text)
      (f : Entry)
      → In f (write_items existing items account i t c).0.entries
      → has_external x f ≡ true
      → (any (has_item x) items ≡ true) ⊎ In f t.entries
  unfolding write_items any
  In-write_items existing [] account t c x f at h = inr at
  In-write_items existing (item ∷ items) account t c x f at h =
      elim (Result-cases (payload_for item account i)) [
        | inl (code, e) ↦ inr (rw (write_items, e) at at)
        | inr (p, e) ↦
            let old = last_of item.external_id existing in
            elim (In-write_items existing items account (write_item item p i old t) (counted old c)
              x f (rw (write_items, e) at at) h) [
                | inl y ↦ inl (ground arith)
                | inr rest ↦ elim (In-write_item item p old t f rest) [
                  | inl a ↦ inr a
                  | inr b ↦
                      let same = sym (external x item.external_id f b) ∙ h in inl (ground arith)
                ]
              ]
      ]

  pub server-update :
      (item : Item) (p : Payload) (j : ℕ) (l : List Entry)
      → any (has_id j) l ≡ true
      → any
          (is_server_at i.id j item.external_id)
          (update (λ g. g.id == j) (λ g. managed_entry g.id item p i) l)
        ≡ true
  unfolding any update
  server-update item p j [] h = ground arith
  server-update item p j (e ∷ l) h =
      ground (arith, server-update item p j l, managed e.id item p, text_eq_refl item.external_id)

  pub stays-update :
      (item : Item) (p : Payload) (j k : ℕ) (x : Text) (l : List Entry)
      → ((j == k) ≡ true → item.external_id ≡ x)
      → any (is_server_at i.id k x) l ≡ true
      → any (is_server_at i.id k x) (update (λ g. g.id == j) (λ g. managed_entry g.id item p i) l)
        ≡ true
  unfolding any update
  stays-update item p j k x [] n h = h
  stays-update item p j k x (e ∷ l) n h = elim (Bool-cases (e.id == j)) [
    | inr m ↦ ground (arith, stays-update item p j k x l n)
    | inl y ↦ elim (Bool-cases (j == k)) [
      | inr m ↦ ground (arith, stays-update item p j k x l n)
      | inl z ↦
          let same = text_eq_refl item.external_id in
          let here = ap (λ s. text_eq item.external_id s) (sym (n z)) ∙ same in
          ground (arith, stays-update item p j k x l n, managed e.id item p)
    ]
  ]
