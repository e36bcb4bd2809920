-- ===== src/Organization/HandOver.antt =====
-- `handOverOrganizations` and `joinOrganizations` of server/controllers/organization.js.
use infram.Prelude.{
  ℕ, Bool, not, ◌&&◌, ◌||◌, Option, none, some, List, [], ◌∷◌, ◌++◌, ◌==◌, if◌then◌else◌, ltb,
  find_one, find_all, update, any, map,
}
use infram.Organization.{
  owner, member, active, Member, Directory, rank, is_owner, is_active, is_row,
  remove_organization_data,
}

-- The organizations that were handed over, with their new owners, and those that were deleted.
pub record HandOver : Type 0 where
  pub directory : Directory
  pub transferred : List (ℕ × ℕ)
  pub deleted : List ℕ

abbrev pub is_owned_by : (account : ℕ) → Member → Bool
is_owned_by account m = m.account_id == account && (is_owner m.role && is_active m.status)

abbrev pub is_other : (org account : ℕ) → Member → Bool
is_other org account m =
    m.organization_id == org && (is_active m.status && not (m.account_id == account))

-- The order of `others.sort`: the higher role first, and then the earlier row.
abbrev pub comes_before : Member → Member → Bool
comes_before a b =
    ltb (rank b.role) (rank a.role) || (rank a.role == rank b.role && ltb a.created_at b.created_at)

-- `others.sort(…)[0]`, where a row goes before a later one that is equal to it.
unfoldable pub first_of : List Member → Option Member
first_of [] = none
first_of (m ∷ rest) = elim (first_of rest) [
  | none ↦ some m
  | some b ↦ if comes_before b m then some b else some m
]

abbrev pub promote : (org account : ℕ) → Directory → Directory
promote org account d = record d {
  members = update (is_row org account) (λ m. record m { role = owner }) d.members;
}

unfoldable pub hand_over : (account org : ℕ) → HandOver → HandOver
hand_over account org h = elim (first_of (find_all (is_other org account) h.directory.members)) [
  | some m ↦ record h {
    directory = promote org m.account_id h.directory;
    transferred = h.transferred ++ (org, m.account_id) ∷ [];
  }
  | none ↦ record h {
    directory = remove_organization_data org h.directory;
    deleted = h.deleted ++ org ∷ [];
  }
]

unfoldable pub hand_over_each : (account : ℕ) → List ℕ → HandOver → HandOver
hand_over_each account [] h = h
hand_over_each account (org ∷ orgs) h = hand_over_each account orgs (hand_over account org h)

unfoldable pub hand_over_organizations : (account : ℕ) → Directory → HandOver
hand_over_organizations account d =
    hand_over_each account (map (λ m. m.organization_id) (find_all (is_owned_by account) d.members))
      (record { directory = d; transferred = []; deleted = [] })

-- `joinOrganizations`; the identifiers are the distinct positive integers of the request. `now` is the time that
-- the database writes into a new row.
abbrev pub new_member : (org account now : ℕ) → Member
new_member org account now = record {
  organization_id = org;
  account_id = account;
  role = member;
  status = active;
  invited_by = account;
  created_at = now;
}

-- What a membership that was there becomes.
abbrev pub activated : (account : ℕ) → (existing : Member) → Member → Member
activated account e m = record m {
  status = active;
  role = e.role;
  invited_by = if e.invited_by == 0 then account else e.invited_by;
}

abbrev pub joined : (account now org : ℕ) → Option Member → List Member → List Member
joined account now org none members = members ++ new_member org account now ∷ []
joined account now org (some e) members = update (is_row org account) (activated account e) members

unfoldable pub join : (account now org : ℕ) → Directory → Directory
join account now org d = if not (any (λ o. o.id == org) d.organizations) then d else record d {
  members = joined account now org (find_one (is_row org account) d.members) d.members;
}

unfoldable pub join_organizations : (account now : ℕ) → List ℕ → Directory → Directory
join_organizations account now [] d = d
join_organizations account now (org ∷ orgs) d =
    join_organizations account now orgs (join account now org d)
