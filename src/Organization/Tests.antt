-- ===== src/Organization/Tests.antt =====
-- The theorems on organizations at concrete inputs, and runs of the calls.
use infram.Prelude.{
  inl, ◌≡◌, ◌≢◌, ◌↔◌, ◌⊎◌, refl, false, none, some, [], ◌∷◌, find_one, destroy, count, In, arith,
  ok, err,
}
use infram.Organization.HandOver.{hand_over_organizations}
use infram.Organization.Succession.{IsSettled, hand_over_organizations-IsSettled}
use infram.Organization.{
  owner, member, active, Member, Directory, Organization, Item, Link, is_row,
  remove_organization_data, effective_role, has_role,
}
use infram.Organization.Calls.{
  with_members, invite_user, remove_member, leave_organization, transferred, transfer_ownership,
}
use infram.Organization.Ownership.{IsSound}
use infram.Organization.Ownership.Calls.{transfers}
use infram.Organization.Ownership.Soundness.{Call-IsSound}
use infram.Organization.Deletion.{RefersTo, In-remove_organization_data}

-- Account 1 owns organization 5; account 2 is a member.
abbrev boss : Member
boss = record {
  organization_id = 5;
  account_id = 1;
  role = owner;
  status = active;
  invited_by = 1;
  created_at = 10;
}

abbrev worker : Member
worker = record boss { account_id = 2; role = member; created_at = 20 }

abbrev company : Organization
company = record { id = 5; name = "firm"; description = "" }

abbrev firm : Directory
firm = record {
  accounts = record { id = 1; username = "ann"; is_admin = false } ∷ [];
  organizations = company ∷ [];
  members = boss ∷ worker ∷ [];
  entries = [];
  folders = [];
  identities = [];
  snippets = [];
  scripts = [];
  integrations = [];
  entry_identities = [];
  entry_tags = [];
  credentials = [];
}

firm-IsSound : IsSound firm.members
unfolding find_one count
firm-IsSound = record {
  unique = (refl, (refl, tt));
  owners_active = ((λ _. refl), ((λ _. refl), tt));
  one_owner = λ org. ground arith;
}

abbrev handed_over : Directory
handed_over = with_members (transferred 5 2 firm.members) firm

transfer_ownership-firm : transfer_ownership 1 5 2 firm ≡ ok handed_over
unfolding transfer_ownership has_role effective_role find_one
transfer_ownership-firm = refl

abbrev alone : Directory
alone = with_members (destroy (is_row 5 2) firm.members) firm

remove_member-firm : remove_member 1 (some 5) (some 2) firm ≡ ok alone
unfolding remove_member effective_role find_one
remove_member-firm = refl

Call-IsSound_example : IsSound handed_over.members
Call-IsSound_example =
    Call-IsSound (transfers 1 5 2 handed_over transfer_ownership-firm) firm-IsSound

abbrev printer : Item
printer = record { id = 4; organization_id = some 5 }

abbrev printer_tag : Link
printer_tag = record { entry_id = some 4; identity_id = none }

abbrev equipped : Directory
equipped = record firm { entries = printer ∷ []; entry_tags = printer_tag ∷ [] }

In-remove_organization_data_example :
    let e = remove_organization_data 5 equipped in
    (In company e.organizations ↔ (In company equipped.organizations × (company.id ≢ 5)))
    × (e.accounts ≡ equipped.accounts)
    × (In worker e.members ↔ (In worker equipped.members × (worker.organization_id ≢ 5)))
    × (In printer e.entries ↔ (In printer equipped.entries × (printer.organization_id ≢ some 5)))
    × (In printer e.folders ↔ (In printer equipped.folders × (printer.organization_id ≢ some 5)))
    × (In printer e.identities
        ↔ (In printer equipped.identities × (printer.organization_id ≢ some 5)))
    × (In printer e.snippets ↔ (In printer equipped.snippets × (printer.organization_id ≢ some 5)))
    × (In printer e.scripts ↔ (In printer equipped.scripts × (printer.organization_id ≢ some 5)))
    × (In printer e.integrations
        ↔ (In printer equipped.integrations × (printer.organization_id ≢ some 5)))
    × (In printer_tag e.entry_identities ↔ (
        In printer_tag equipped.entry_identities
        × (¬ (RefersTo 5 equipped.entries (some 4) ⊎ RefersTo 5 equipped.identities none))))
    × (In printer_tag e.entry_tags
        ↔ (In printer_tag equipped.entry_tags × (¬ RefersTo 5 equipped.entries (some 4))))
    × (In printer_tag e.credentials
        ↔ (In printer_tag equipped.credentials × (¬ RefersTo 5 equipped.identities none)))
In-remove_organization_data_example =
    In-remove_organization_data 5 equipped company worker printer printer_tag

-- The owner cannot leave, a member cannot remove it, and nobody is invited twice.
refused :
    (leave_organization 1 (some 5) firm ≡ err 403)
    × (remove_member 2 (some 5) (some 1) firm ≡ err 403)
    × (invite_user 1 (some 5) "ann" 30 firm ≡ err 409)
    × (invite_user 1 none "ann" 30 firm ≡ err 400)
unfolding leave_organization remove_member invite_user has_role effective_role find_one
refused = (refl, refl, refl, refl)

-- The owner of the firm leaves; the other member takes over.
hand_over_organizations-IsSettled_example : IsSettled 1 5 (hand_over_organizations 1 firm).directory
hand_over_organizations-IsSettled_example =
    hand_over_organizations-IsSettled 1 firm boss (inl refl) refl
