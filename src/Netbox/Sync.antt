-- ===== src/Netbox/Sync.antt =====
-- `syncNetboxIntegration`: the servers of an integration are brought in line with its inventory.
use infram.Prelude.{
  ℕ, suc, ◌*◌, Bool, true, false, not, ◌&&◌, ◌||◌, Option, none, some, List, [], ◌∷◌, ◌++◌, ◌==◌,
  if◌then◌else◌, ltb, any, find_all, destroy, update, length, map, is_some, Result, err, ok,
}
use infram.Texts.{Text, text_eq}
use infram.Netbox.{Item, matches_filters}
use infram.Netbox.Actions.{Payload, Integration, payload_for}

-- The columns of an entry that the sync reads or writes.
pub record Entry : Type 0 where
  pub id : ℕ
  pub integration_id : Option ℕ
  pub is_netbox : Bool
  pub external_id : Option Text
  pub is_managed_disabled : Bool
  pub payload : Payload

abbrev same_integration : (id : ℕ) → Option ℕ → Bool
same_integration id none = false
same_integration id (some j) = j == id

-- The `where` of the servers that the integration manages.
unfoldable pub is_managed : (integration : ℕ) → Entry → Bool
is_managed id e = same_integration id e.integration_id && e.is_netbox && is_some e.external_id

abbrev pub has_external : Text → Entry → Bool
has_external x e = elim e.external_id [ none ↦ false | some y ↦ text_eq y x ]

-- A later entry of a `Map` that has the same key replaces an earlier one.
unfoldable pub last_of : Text → List Entry → Option Entry
last_of x [] = none
last_of x (e ∷ es) =
    let later = last_of x es in
    elim later [ some f ↦ some f | none ↦ if has_external x e then some e else none ]

abbrev pub has_item : Text → Item → Bool
has_item x i = text_eq i.external_id x

-- Is the server none of the items?
abbrev pub is_unmatched : List Item → Entry → Bool
is_unmatched items e = elim e.external_id [ none ↦ true | some x ↦ not (any (has_item x) items) ]

abbrev removal_limit : ℕ
removal_limit = 5

-- `removals > managed * REMOVAL_SHARE`, where the share is a tenth.
unfoldable pub needs_review : (removals managed : ℕ) → Bool
needs_review removals managed =
    ltb 0 removals
    && (removals == managed || (ltb removal_limit removals && ltb managed (removals * 10)))

abbrev pub managed_entry : (id : ℕ) → Item → Payload → Integration → Entry
managed_entry id item p i = record {
  id = id;
  integration_id = some i.id;
  is_netbox = true;
  external_id = some item.external_id;
  is_managed_disabled = false;
  payload = p;
}

-- The table, and the identifier of the next row.
pub record Table : Type 0 where
  pub entries : List Entry
  pub next : ℕ

pub record Counts : Type 0 where
  pub created : ℕ
  pub updated : ℕ

unfoldable pub write_item : Item → Payload → Integration → Option Entry → Table → Table
write_item item p i (some e) t = record t {
  entries = update (λ f. f.id == e.id) (λ f. managed_entry f.id item p i) t.entries;
}
write_item item p i none t = record {
  entries = t.entries ++ managed_entry t.next item p i ∷ [];
  next = suc t.next;
}

abbrev pub counted : Option Entry → Counts → Counts
counted none c = record c { created = suc c.created }
counted (some e) c = record c { updated = suc c.updated }

-- The loop over the items. An item whose action is in error stops it; those before are written.
unfoldable pub write_items :
    (existing : List Entry)
    → List Item
    → (account : ℕ) → Integration
    → Table
    → Counts
    → Table × Result Counts
write_items existing [] account i t c = (t, ok c)
write_items existing (item ∷ items) account i t c = elim (payload_for item account i) [
  | err code ↦ (t, err code)
  | ok p ↦
      let old = last_of item.external_id existing in
      write_items existing items account i (write_item item p i old t) (counted old c)
]

unfoldable pub remove_each : List Entry → Table → Table
remove_each [] t = t
remove_each (e ∷ es) t =
    remove_each es (record t { entries = destroy (λ f. f.id == e.id) t.entries })

pub record Summary : Type 0 where
  pub held : Bool
  pub pending_removals : ℕ
  pub created : ℕ
  pub updated : ℕ
  pub deleted : ℕ
  pub total_matched : ℕ

unfoldable pub existing_of : Integration → Table → List Entry
existing_of i t = find_all (is_managed i.id) t.entries

unfoldable pub matched_of : List Item → Integration → List Item
matched_of inventory i = find_all (λ item. matches_filters item i.config) inventory

unfoldable pub to_delete : List Item → List Entry → List Entry
to_delete items existing = find_all (is_unmatched items) existing

abbrev pub is_held : (allow_removals : Bool) → (items : List Item) → (existing : List Entry) → Bool
is_held allow items existing =
    not allow && needs_review (length (to_delete items existing)) (length existing)

unfoldable pub sync_netbox_integration :
    (inventory : List Item)
    → Integration
    → (account : ℕ) → (allow_removals : Bool) → Table
    → Table × Result Summary
sync_netbox_integration inventory i account allow t =
    let items = matched_of inventory i in
    let existing = existing_of i t in
    let gone = to_delete items existing in
    let held = is_held allow items existing in
    let written = write_items existing items account i t (record { created = 0; updated = 0 }) in
    elim written.1 [
      | err code ↦ (written.0, err code)
      | ok c ↦ (
        if held then written.0 else remove_each gone written.0,
        ok (record {
          held = held;
          pending_removals = if held then length gone else 0;
          created = c.created;
          updated = c.updated;
          deleted = if held then 0 else length gone;
          total_matched = length items;
        }),
      )
    ]

-- What a dry run shows: the names of the servers that would be created, updated and removed.
pub record Preview : Type 0 where
  pub create : List Text
  pub update : List Text
  pub remove : List Text
  pub removals_need_review : Bool

abbrev is_known : List Entry → Item → Bool
is_known existing item = any (has_external item.external_id) existing

unfoldable pub dry_run : (inventory : List Item) → Integration → Table → Preview
dry_run inventory i t =
    let items = matched_of inventory i in
    let existing = existing_of i t in
    let gone = to_delete items existing in
    record {
      create = map (λ j. j.name) (find_all (λ j. not (is_known existing j)) items);
      update = map (λ j. j.name) (find_all (is_known existing) items);
      remove = map (λ e. e.payload.name) gone;
      removals_need_review = needs_review (length gone) (length existing);
    }
