-- ===== src/Entries/Moving.antt =====
-- `repositionEntry` of server/controllers/entry.js.
use infram.Prelude.{
  ℕ, zero, suc, Bool, ◌&&◌, Option, none, some, List, [], ◌∷◌, ◌==◌, same, is_some, if◌then◌else◌,
  find_all, destroy, update, any, Result, ok, err, guard, ◌>>=◌, ◌>>◌, given, length,
}
use infram.Models.{Entry}
use infram.Organization.{has_organization_access}
use infram.Identities.{Identity, EntryIdentity}
use infram.SessionManager.Release.{remove_all_by_entry_id}
use infram.Folders.{Tree, Context}
use infram.Entries.{entry_at, validate_entry_access, validate_folder_access, folder_of}

-- Where an entry goes. A folder and an organization are missing, null, or an identifier.
pub record Target : Type 0 where
  pub target_id : Option ℕ
  pub after : Bool
  pub folder_id : Option (Option ℕ)
  pub organization_id : Option (Option ℕ)

unfoldable pub may_move_into : (account : ℕ) → Option (Option ℕ) → Tree → Result (Unit {0})
may_move_into account none v = ok tt
may_move_into account (some none) v = ok tt
may_move_into account (some (some id)) v = do _ ← validate_folder_access account id v; ok tt

abbrev pub target_folder : Target → Entry → Option ℕ
target_folder t e = elim t.folder_id [ none ↦ e.folder_id | some f ↦ f ]

abbrev asked_organization : Target → Option ℕ
asked_organization t = elim t.organization_id [ none ↦ none | some org ↦ org ]

-- Who owns the entry at its new place.
unfoldable pub target_context : (account : ℕ) → Target → (folder : Option ℕ) → Tree → Result Context
target_context account t folder v =
    if is_some (given folder)
    then ok (elim (folder_of folder v.folders) [
      | none ↦ record { organization_id = asked_organization t; account_id = some account }
      | some f ↦ record {
        organization_id = given f.organization_id;
        account_id = if is_some (given f.organization_id) then none else some account;
      }
    ])
    else if is_some (given (asked_organization t))
    then guard (has_organization_access account (asked_organization t) v.members) 403
      >> ok (record { organization_id = asked_organization t; account_id = none })
    else ok (record { organization_id = none; account_id = some account })

-- The rows of the new place.
abbrev pub stands_in : (folder : Option ℕ) → Context → Entry → Bool
stands_in folder c e =
    same e.folder_id folder
    && (same e.organization_id c.organization_id && same e.account_id c.account_id)

-- `findIndex`
unfoldable pub index_of : (id : ℕ) → List Entry → Option ℕ
index_of id [] = none
index_of id (e ∷ rest) =
    let later : Option ℕ = elim (index_of id rest) [ none ↦ none | some n ↦ some (suc n) ] in
    if e.id == id then some zero else later

unfoldable pub target_index : Target → List Entry → Result ℕ
target_index t l = elim t.target_id [
  | none ↦ ok (length l)
  | some id ↦ elim (index_of id l) [ none ↦ err 404 | some n ↦ ok (if t.after then suc n else n) ]
]

-- `splice(index, 0, entry)`
unfoldable pub insert_at : ℕ → Entry → List Entry → List Entry
insert_at zero e l = e ∷ l
insert_at (suc n) e [] = e ∷ []
insert_at (suc n) e (x ∷ l) = x ∷ insert_at n e l

abbrev pub settled : (id : ℕ) → Context → Entry → Entry
settled id c e =
    if e.id == id
    then record e { organization_id = c.organization_id; account_id = c.account_id }
    else e

abbrev pub put : (id position : ℕ) → (folder : Option ℕ) → Context → Entry → Entry
put id position folder c e = settled id c (record e { position = position; folder_id = folder })

-- The loop that numbers the entries of the new place.
unfoldable pub renumber :
    (id : ℕ) → (folder : Option ℕ) → Context → (position : ℕ) → List Entry → List Entry → List Entry
renumber id folder c n [] entries = entries
renumber id folder c n (e ∷ rest) entries =
    renumber id folder c (suc n) rest (update (λ x. x.id == e.id) (put id n folder c) entries)

-- The identities of the old organization leave the entry, and its connections end.
abbrev pub is_old_identity : (id : ℕ) → (old : Option ℕ) → List Identity → EntryIdentity → Bool
is_old_identity id old identities l =
    l.entry_id == id && any (λ i. i.id == l.identity_id && same i.organization_id old) identities

unfoldable pub leave_organization : (id : ℕ) → (old : Option ℕ) → Tree → Tree
leave_organization id old v = record v {
  entry_identities = destroy (is_old_identity id old v.identities) v.entry_identities;
  manager = (remove_all_by_entry_id id v.manager).0;
}

-- The rows of the new place in their new order. `sorted` is the database's
-- `order: [["position", "ASC"]]`.
abbrev pub others :
    (sorted : List Entry → List Entry)
    → (id : ℕ) → (folder : Option ℕ) → Context
    → Tree
    → List Entry
others sorted id folder c v =
    destroy (λ x. x.id == id) (sorted (find_all (stands_in folder c) v.entries))

abbrev pub moved : (id : ℕ) → (folder : Option ℕ) → Context → List Entry → Tree → Tree
moved id folder c order v = record v { entries = renumber id folder c 0 order v.entries }

unfoldable pub reposition_entry :
    (sorted : List Entry → List Entry) → (account id : ℕ) → Target → Tree → Result Tree
reposition_entry sorted account id t v = do
  e ← validate_entry_access account (entry_at id v.entries) v
  may_move_into account t.folder_id v
  let folder = target_folder t e
  c ← target_context account t folder v
  let rest = others sorted id folder c v
  n ← target_index t rest
  let w = moved id folder c (insert_at n e rest) v
  ok (
      if same e.organization_id c.organization_id
      then w
      else leave_organization id e.organization_id w)
