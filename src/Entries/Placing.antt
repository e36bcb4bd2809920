-- ===== src/Entries/Placing.antt =====
-- Where `repositionEntry` puts an entry, and what it does to the links and the connections.
use infram.Prelude.{
  ℕ, ◌+◌, ◌≡◌, refl, sym, ap, ◌∙◌, inl, inr, Option, none, some, List, ◌==◌, same, if◌then◌else◌,
  arith, find_one-test, find_all, destroy, Bool-cases, Option-cases, ok, bind-ok, guard-ok,
  ok-injective,
}
use mathlib.Core.Option
use mathlib.Core.Option.{some-injective}
use infram.Models.{Entry}
use infram.Folders.{Tree, Context}
use infram.Entries.{may_use, owner_of, folder_of, entry_at, validate_entry_access}
use infram.Entries.Moving.{
  Target, may_move_into, target_folder, target_context, index_of, target_index, insert_at, put,
  renumber, leave_organization, others, moved, reposition_entry, stands_in,
}
use infram.Entries.Place.{IsFolder, IsOwner, target_folder-IsFolder, target_context-IsOwner}
use infram.Entries.Neighbours.{IsPlaced, placed}
use infram.Entries.Numbering.{
  UniqueEntries, numbered, entry_at-renumber, index_of-destroy, UniqueEntries-find_all,
  UniqueEntries-destroy, UniqueEntries-insert_at, destroy-insert_at, destroy_twice,
}

-- What a move that succeeds has found.
pub record Move (sorted : List Entry → List Entry) (account id : ℕ) (t : Target) (v w : Tree)
    : Type 0 where
  pub entry : Entry
  pub context : Context
  pub index : ℕ
  pub entry_allowed : validate_entry_access account (entry_at id v.entries) v ≡ ok entry
  pub context_found : target_context account t (target_folder t entry) v ≡ ok context
  pub index_found : target_index t (others sorted id (target_folder t entry) context v) ≡ ok index
  pub result :
      (let rest = others sorted id (target_folder t entry) context v in
        let x = moved id (target_folder t entry) context (insert_at index entry rest) v in
        if same entry.organization_id context.organization_id
        then x
        else leave_organization id entry.organization_id x)
      ≡ w

pub reposition_entry-Move :
    (sorted : List Entry → List Entry) (account id : ℕ) (t : Target) (v w : Tree)
    → reposition_entry sorted account id t v ≡ ok w
    → Move sorted account id t v w
unfolding reposition_entry
reposition_entry-Move sorted account id t v w h =
    let (e, allowed, h1) = bind-ok (validate_entry_access account (entry_at id v.entries) v) _ h in
    let (u, may, h2) = bind-ok (may_move_into account t.folder_id v) _ h1 in
    let (c, context, h3) = bind-ok (target_context account t (target_folder t e) v) _ h2 in
    let (n, found, h4) = bind-ok (target_index t (others sorted id (target_folder t e) c v)) _ h3 in
    record {
      entry = e;
      context = c;
      context_found = context;
      index = n;
      entry_allowed = allowed;
      index_found = found;
      result = ok-injective h4;
    }

pub id-validate_entry_access :
    (account id : ℕ) (v : Tree) (e : Entry)
    → validate_entry_access account (entry_at id v.entries) v ≡ ok e
    → (entry_at id v.entries ≡ some e) × (e.id ≡ id)
unfolding validate_entry_access entry_at
id-validate_entry_access account id v e h = elim (Option-cases (entry_at id v.entries)) [
  | inl z ↦ let bad = rw z at h in ground arith
  | inr (a, z) ↦
      let (g, same_entry) =
        guard-ok (may_use account (owner_of a (folder_of a.folder_id v.folders)) v.members) 403 _
          (rw z at h) in
      let found = z ∙ ap some (ok-injective same_entry) in
      let x = find_one-test (λ y. y.id == id) v.entries e found in (found, ground arith)
]

entries-leave_organization :
    (id : ℕ) (old : Option ℕ) (v : Tree) → (leave_organization id old v).entries ≡ v.entries
unfolding leave_organization
entries-leave_organization id old v = refl

result-entries :
    (sorted : List Entry → List Entry) (account id : ℕ) (t : Target) (v w : Tree)
    (m : Move sorted account id t v w)
    → w.entries
      ≡ renumber id
          (target_folder t m.entry)
          m.context
          0
          (insert_at m.index m.entry (others sorted id (target_folder t m.entry) m.context v))
          v.entries
unfolding leave_organization
result-entries sorted account id t v w m =
    elim (Bool-cases (same m.entry.organization_id m.context.organization_id)) [
      | inl y ↦ sym (ap (λ x. x.entries) (rw y at m.result))
      | inr n ↦ sym (ap (λ x. x.entries) (rw n at m.result))
    ]

organization-put :
    (id n : ℕ) (folder : Option ℕ) (c : Context) (e : Entry)
    → e.id ≡ id
    → (put id n folder c e).organization_id ≡ c.organization_id
organization-put id n folder c e h = ground arith

module _ (sorted : List Entry → List Entry) (account id : ℕ) (t : Target) (v w : Tree)
    (u : UniqueEntries v.entries)
    (keeps : (l : List Entry) → UniqueEntries l → UniqueEntries (sorted l))
    (m : Move sorted account id t v w) where
  abbrev pub order_of : List Entry
  order_of = insert_at m.index m.entry (others sorted id (target_folder t m.entry) m.context v)

  pub order-IsPlaced : IsPlaced t id order_of
  order-IsPlaced =
      let (found, same_id) = id-validate_entry_access account id v m.entry m.entry_allowed in
      placed id m.index m.entry (others sorted id (target_folder t m.entry) m.context v) same_id
        (index_of-destroy id _) t m.index_found

  pub rows-Move :
      (j : ℕ)
      → entry_at j w.entries
        ≡ numbered id
            (target_folder t m.entry)
            m.context
            0
            (index_of j order_of)
            (entry_at j v.entries)
  rows-Move j =
      let (found, same_id) = id-validate_entry_access account id v m.entry m.entry_allowed in
      let folder = target_folder t m.entry in
      let rows = sorted (find_all (stands_in folder m.context) v.entries) in
      let rest = destroy (λ e. e.id == id) rows in
      let unique_rest =
        UniqueEntries-destroy (λ e. e.id == id) rows
          (keeps _ (UniqueEntries-find_all (stands_in folder m.context) v.entries u)) in
      let unique =
        UniqueEntries-insert_at m.index m.entry rest
          (ap (λ k. index_of k rest) same_id ∙ index_of-destroy id rows) unique_rest in
      ap (entry_at j) (result-entries sorted account id t v w m)
      ∙ entry_at-renumber id folder m.context 0 order_of v.entries j unique

  pub organization-Move :
      (e : Entry) → entry_at id w.entries ≡ some e → e.organization_id ≡ m.context.organization_id
  organization-Move e h =
      let (found, same_id) = id-validate_entry_access account id v m.entry m.entry_allowed in
      let (n, at_n, next) = order-IsPlaced in
      let folder = target_folder t m.entry in
      let row =
        rows-Move id
        ∙ ap (λ o. numbered id folder m.context 0 o (entry_at id v.entries)) at_n
        ∙ ap (Option.map (put id (0 + n) folder m.context)) found in
      let same_row = some-injective e (put id (0 + n) folder m.context m.entry) (sym h ∙ row) in
      ap (λ x. x.organization_id) same_row
      ∙ organization-put id (0 + n) folder m.context m.entry same_id

-- What the row of an entry becomes that stands at this index of the place, if it does.
abbrev pub standing :
    (id : ℕ) → (folder : Option ℕ) → Context → (index : Option ℕ) → Option Entry → Option Entry
standing id folder c none o = o
standing id folder c (some n) o =
    Option.map {A = Entry} {B = Entry}
      (λ e. record e {
        position = n;
        folder_id = folder;
        organization_id = if e.id == id then c.organization_id else e.organization_id;
        account_id = if e.id == id then c.account_id else e.account_id;
      })
      o

numbered-standing :
    (id : ℕ) (folder : Option ℕ) (c : Context) (index : Option ℕ) (o : Option Entry)
    → numbered id folder c 0 index o ≡ standing id folder c index o
numbered-standing id folder c none o = refl
numbered-standing id folder c (some n) none = refl
numbered-standing id folder c (some n) (some e) =
    let at : 0 + n ≡ n = omega arith in
    elim (Bool-cases (e.id == id)) [ inl y ↦ rw (y, at) refl | inr z ↦ rw (z, at) refl ]

-- A move that succeeds puts the entry last, or right before or right after the target, among the
-- other entries of the new place, which stay in their order. The new place is the folder that the
-- request names, or else the entry's own, and the owner is that of this folder; outside of folders
-- it is the organization of the request, which the account has access to, or the account. Every entry
-- of the place gets its index as its position, with the folder of the place, the moved one also the
-- owner, and all other rows are as before. Entry identifiers are assumed to be unique, and the
-- database's sorting to keep them so.
pub entry_at-reposition_entry :
    (sorted : List Entry → List Entry) (account id : ℕ) (t : Target) (v w : Tree)
    → UniqueEntries v.entries
    → ((l : List Entry) → UniqueEntries l → UniqueEntries (sorted l))
    → reposition_entry sorted account id t v ≡ ok w
    → (e : Entry) × (entry_at id v.entries ≡ some e)
      × ((folder : Option ℕ) × IsFolder t e folder
          × ((c : Context) × IsOwner account t folder v c
              × ((order : List Entry) × (destroy (λ e. e.id == id) order
                    ≡ destroy (λ e. e.id == id) (sorted (find_all (stands_in folder c) v.entries)))
                  × IsPlaced t id order
                  × ((j : ℕ)
                      → entry_at j w.entries
                        ≡ standing id folder c (index_of j order) (entry_at j v.entries)))))
entry_at-reposition_entry sorted account id t v w u keeps h =
    let m = reposition_entry-Move sorted account id t v w h in
    let (found, same_id) = id-validate_entry_access account id v m.entry m.entry_allowed in
    let folder = target_folder t m.entry in
    let rows = sorted (find_all (stands_in folder m.context) v.entries) in
    (
      m.entry,
      found,
      (
        folder,
        target_folder-IsFolder t m.entry,
        (
          m.context,
          target_context-IsOwner account t folder v m.context m.context_found,
          (
            order_of sorted account id t v w u keeps m,
            destroy-insert_at id m.index m.entry _ same_id ∙ destroy_twice id rows,
            order-IsPlaced sorted account id t v w u keeps m,
            λ j.
                rows-Move sorted account id t v w u keeps m j
                ∙ numbered-standing id folder m.context
                    (index_of j (order_of sorted account id t v w u keeps m))
                    (entry_at j v.entries),
          ),
        ),
      ),
    )
