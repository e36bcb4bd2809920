-- ===== src/Netbox/Tests.antt =====
-- The theorems on the NetBox sync at concrete inputs.
use infram.Prelude.{
  ◌≡◌, ◌≤◌, ◌<◌, ◌*◌, ◌⊎◌, refl, inl, inr, true, false, none, some, List, [], ◌∷◌, any, In, arith,
  ok, length, ◌&&◌, find_one, find_all,
}
use infram.Texts.{Text, codes, text_eq}
use infram.Netbox.{
  Kind, device, vm, Item, matches_filters, normalize, normalize_list, contains_any, trim_start,
  trim_end, default_port,
}
use infram.Netbox.Actions.{Payload, Integration, no_action, payload_for, resolve_action, rule_for}
use infram.Netbox.Sync.{
  Entry, Table, Summary, is_managed, is_unmatched, has_item, existing_of, matched_of, to_delete,
  sync_netbox_integration, write_items, write_item, last_of, needs_review, managed_entry,
}
use infram.Netbox.Rows.{UniqueIds, has_id}
use infram.Netbox.Review.{sync_netbox_integration-removals}
use infram.Netbox.Keys.{is_server}
use infram.Netbox.Serving.{AreBelow}
use infram.Netbox.Exact.{any-sync_netbox_integration}

abbrev item : Kind → (external_id : Text) → Item
item kind x = record {
  kind = kind;
  external_id = x;
  netbox_id = 1;
  name = codes "web";
  role = codes "Web";
  platform = [];
  tags = [];
  custom_fields = [];
  primary_address = some (codes "10.0.0.5");
}

abbrev office : Integration
office = record {
  id = 4;
  organization_id = some 2;
  config = record {
    include_device_roles = codes " web " ∷ [];
    exclude_device_roles = [];
    include_vm_roles = [];
    exclude_vm_roles = [];
    include_tags = [];
    exclude_tags = [];
    protocol_rules = [];
    default_action = no_action;
    folder_id = none;
  };
}

abbrev payload : Payload
payload = record {
  name = codes "old";
  renderer = codes "terminal";
  icon = codes "linux";
  account_id = none;
  organization_id = some 2;
  folder_id = none;
  config = record {
    ip = [];
    port = 22;
    protocol = codes "ssh";
    object_type = device;
    object_id = 1;
    role = [];
    platform = [];
    tags = [];
    matched_rule_id = none;
  };
}

-- Two servers of the integration; the inventory has the first one, and a new machine.
abbrev table : Table
table = record {
  entries =
      managed_entry 1 (item device (codes "device:1")) payload office
      ∷ managed_entry 2 (item device (codes "device:2")) payload office
      ∷ [];
  next = 3;
}

abbrev inventory : List Item
inventory = item device (codes "device:1") ∷ item vm (codes "vm:7") ∷ []

abbrev no_summary : Summary
no_summary = record {
  held = false;
  pending_removals = 0;
  created = 0;
  updated = 0;
  deleted = 0;
  total_matched = 0;
}

abbrev report : Summary
report = record {
  held = false;
  pending_removals = 0;
  created = 1;
  updated = 1;
  deleted = 1;
  total_matched = 2;
}

sync-report : (sync_netbox_integration inventory office 1 false table).1 ≡ ok report
unfolding sync_netbox_integration existing_of matched_of find_all is_managed matches_filters
    normalize normalize_list contains_any trim_start trim_end any text_eq to_delete write_items
    write_item payload_for resolve_action rule_for find_one last_of default_port needs_review
sync-report = refl

table-UniqueIds : UniqueIds table.entries
table-UniqueIds a b (inl p) (inl q) e = ground arith
table-UniqueIds a b (inl p) (inr (inl q)) e = ground arith
table-UniqueIds a b (inr (inl p)) (inl q) e = ground arith
table-UniqueIds a b (inr (inl p)) (inr (inl q)) e = ground arith
table-UniqueIds a b (inr (inr z)) at e = elim z [ ]
table-UniqueIds a b at (inr (inr z)) e = elim z [ ]

table-AreBelow : AreBelow table.next table.entries
table-AreBelow e (inl p) = ground arith
table-AreBelow e (inr (inl p)) = ground arith
table-AreBelow e (inr (inr z)) = elim z [ ]

sync_netbox_integration-removals_example :
    ((report.deleted ≡ 0)
      ⊎ ((report.deleted < length (existing_of office table))
          × ((report.deleted ≤ 5) ⊎ (report.deleted * 10 ≤ length (existing_of office table)))))
    × ((e : Entry)
        → In e table.entries
        → (report.held ≡ true)
          ⊎ ((is_managed office.id e && is_unmatched (matched_of inventory office) e) ≡ false)
        → any (has_id e.id) (sync_netbox_integration inventory office 1 false table).0.entries
          ≡ true)
sync_netbox_integration-removals_example =
    sync_netbox_integration-removals inventory office 1 table report table-UniqueIds sync-report

any-sync_netbox_integration_example :
    any
      (is_server office.id (codes "vm:7"))
      (sync_netbox_integration inventory office 1 false table).0.entries
    ≡ any (has_item (codes "vm:7")) (matched_of inventory office)
any-sync_netbox_integration_example =
    any-sync_netbox_integration inventory office 1 false table report (codes "vm:7") table-UniqueIds
      table-AreBelow sync-report refl
