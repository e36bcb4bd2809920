-- ===== src/Netbox/Serving.antt =====
-- Every matched item has its server after the loop over the items.
use infram.Prelude.{
  ℕ, ◌≤◌, ◌<◌, ◌≡◌, refl, sym, ◌∙◌, subst, inl, inr, true, false, Option, none, some, List, [], ◌∷◌,
  ◌==◌, any, In, arith, Bool-cases, Option-cases, Result-cases, ok, any-append, ==_iff,
}
use mathlib.Core.Bool.{false≢true}
use mathlib.Core.Option.{some-injective}
use infram.Texts.{Text}
use infram.Netbox.{Item}
use infram.Netbox.Actions.{Payload, Integration, payload_for}
use infram.Netbox.Sync.{
  Entry, Table, Counts, has_external, has_item, last_of, managed_entry, write_item, write_items,
  counted,
}
use infram.Netbox.Rows.{UniqueIds, has_id, any-write_item}
use infram.Netbox.Keys.{
  text_eq_refl, text_eq-eq, is_server_at, managed, server-update, stays-update,
}

-- New identifiers are above those of the table.
abbrev pub AreBelow : ℕ → List Entry → Type 0
AreBelow n l = (e : Entry) → In e l → e.id < n

last_of-In :
    (x : Text) (es : List Entry) (e : Entry)
    → last_of x es ≡ some e
    → In e es × (has_external x e ≡ true)
unfolding last_of
last_of-In x [] e h = ground arith
last_of-In x (f ∷ es) e h = elim (Option-cases (last_of x es)) [
  | inr (g, y) ↦
      let one = some-injective g e (rw (last_of, y) at h) in
      let (at, has) = last_of-In x es g y in
      subst (λ z. In z (f ∷ es) × (has_external x z ≡ true)) one (inr at, has)
  | inl n ↦ elim (Bool-cases (has_external x f)) [
    | inl y ↦
        let one = some-injective f e (rw (last_of, n, y) at h) in
        subst (λ z. In z (f ∷ es) × (has_external x z ≡ true)) one (inl refl, y)
    | inr m ↦ let bad = rw (last_of, n, m) at h in ground arith
  ]
]

one_external : (x y : Text) (e : Entry) → has_external x e ≡ true → has_external y e ≡ true → y ≡ x
one_external x y e h k = elim (Option-cases e.external_id) [
  | inl n ↦ let bad = rw n at h in ground arith
  | inr (z, s) ↦ sym (text_eq-eq z y (rw s at k)) ∙ text_eq-eq z x (rw s at h)
]

module _ (i : Integration) (existing : List Entry) (account : ℕ) where
  -- Writes for other items leave a server.
  stays :
      (items : List Item) (t : Table) (c : Counts) (k : ℕ) (x : Text)
      → ((y : Text) (e : Entry) → last_of y existing ≡ some e → (e.id == k) ≡ true → y ≡ x)
      → any (is_server_at i.id k x) t.entries ≡ true
      → any (is_server_at i.id k x) (write_items existing items account i t c).0.entries ≡ true
  unfolding write_items write_item
  stays [] t c k x o h = h
  stays (item ∷ items) t c k x o h = elim (Result-cases (payload_for item account i)) [
    | inl (code, e) ↦ rw (write_items, e) h
    | inr (p, e) ↦ elim (Option-cases (last_of item.external_id existing)) [
      | inl n ↦
          rw (write_items, e, n)
            (stays items (write_item item p i none t) (counted none c) k x o (
              any-append (is_server_at i.id k x) t.entries (managed_entry t.next item p i ∷ [])
              ∙ ground arith))
      | inr (f, s) ↦
          rw (write_items, e, s)
            (stays items (write_item item p i (some f) t) (counted (some f) c) k x o
              (stays-update i item p f.id k x t.entries (o item.external_id f s) h))
    ]
  ]

  next-write_item :
      (item : Item) (p : Payload) (old : Option Entry) (t : Table)
      → t.next ≤ (write_item item p i old t).next
  unfolding write_item
  next-write_item item p none t = omega arith
  next-write_item item p (some e) t = omega arith

  -- The servers that were there still have rows, and a new row gets a new identifier.
  abbrev pub Covers : Table → Type 0
  Covers t =
      ((e : Entry) → In e existing → any (has_id e.id) t.entries ≡ true)
      × ((e : Entry) → In e existing → e.id < t.next)

  Covers-write_item :
      (item : Item) (p : Payload) (old : Option Entry) (t : Table)
      → Covers t
      → Covers (write_item item p i old t)
  Covers-write_item item p old t (there, below) = (
    (λ e at. any-write_item e.id item p i old t (there e at)),
    λ e at. let less = below e at in let up = next-write_item item p old t in omega arith,
  )

  -- The server of a matched item, which stands in the row `k`.
  abbrev pub Served : Text → Table → Type 0
  Served x t =
      (k : ℕ) × (any (is_server_at i.id k x) t.entries ≡ true)
      × ((e : Entry) → In e existing → (e.id == k) ≡ true → has_external x e ≡ true)

  written_now :
      (item : Item) (items : List Item) (p : Payload) (old : Option Entry) (t : Table) (c : Counts)
      → UniqueIds existing
      → Covers t
      → last_of item.external_id existing ≡ old
      → Served item.external_id
          (write_items existing items account i (write_item item p i old t) c).0
  unfolding write_item any
  written_now item items p none t c u (there, below) e =
      let new : (f : Entry) → In f existing → (f.id == t.next) ≡ false =
        λ f at. let less = below f at in ground arith in
      (
        t.next,
        stays items (write_item item p i none t) c t.next item.external_id
            (λ y f s z. absurd (false≢true (sym (new f (last_of-In y existing f s).0) ∙ z)))
            (any-append (is_server_at i.id t.next item.external_id) t.entries
                (managed_entry t.next item p i ∷ [])
              ∙ ground (arith, managed i t.next item p, text_eq_refl item.external_id)),
        λ f at z. absurd (false≢true (sym (new f at) ∙ z)),
      )
  written_now item items p (some g) t c u (there, below) e =
      let (at, has) = last_of-In item.external_id existing g e in
      let one : (f : Entry) → In f existing → (f.id == g.id) ≡ true → f ≡ g =
        λ f in_f z. u f g in_f at ((==_iff f.id g.id).0 z) in
      (
        g.id,
        stays items (write_item item p i (some g) t) c g.id item.external_id
            (λ y f s z.
              let (in_f, has_y) = last_of-In y existing f s in
              one_external item.external_id y g has
                (subst (λ w. has_external y w ≡ true) (one f in_f z) has_y))
            (server-update i item p g.id t.entries (there g at)),
        λ f in_f z. subst (λ w. has_external item.external_id w ≡ true) (sym (one f in_f z)) has,
      )

  pub served :
      (items : List Item) (t : Table) (c d : Counts) (x : Text)
      → UniqueIds existing
      → Covers t
      → (write_items existing items account i t c).1 ≡ ok d
      → any (has_item x) items ≡ true
      → Served x (write_items existing items account i t c).0
  unfolding write_items any
  served [] t c d x u v h y = ground arith
  served (item ∷ items) t c d x u v h y = elim (Result-cases (payload_for item account i)) [
    | inl (code, e) ↦ let bad = rw (write_items, e) at h in ground arith
    | inr (p, e) ↦
        let old = last_of item.external_id existing in
        elim (Bool-cases (has_item x item)) [
          | inl z ↦
              rw (write_items, e)
                (subst
                  (λ w.
                    Served w
                      (write_items existing items account i (write_item item p i old t)
                        (counted old c)).0)
                  (text_eq-eq item.external_id x z)
                  (written_now item items p old t (counted old c) u v refl))
          | inr n ↦
              rw (write_items, e)
                (served items (write_item item p i old t) (counted old c) d x u
                  (Covers-write_item item p old t v) (rw (write_items, e) at h) (ground arith))
        ]
  ]
