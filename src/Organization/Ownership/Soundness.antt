-- ===== src/Organization/Ownership/Soundness.antt =====
-- The calls keep the table of members in order, and the organizations owned.

use infram.Prelude.{
  All, ℕ, ◌≤◌, ◌≡◌, refl, inl, inr, true, false, none, some, List, [], ◌∷◌, ◌==◌, find_one, update,
  arith, Bool-cases, Option-cases, any,
}
use infram.Organization.{
  manager, Member, Directory, is_owner, is_active, is_row, is_active_row, is_owner_row,
  remove_organization_data,
}
use infram.Organization.Calls.{create_organization, invitation, transferred}
use infram.Organization.HandOver.{new_member, activated, join}
use infram.Organization.Rows.{
  UniqueRows, OwnersActive, All-destroy, All-update, All-append_one, find_one_and_none,
  UniqueRows-destroy, UniqueRows-update, UniqueRows-append_one,
}
use infram.Organization.Ownership.{owners, IsSound}
use infram.Organization.Ownership.Inversion.{
  invite_user_ok, respond_to_invitation_ok, remove_member_ok, leave_organization_ok,
  set_member_role_ok, transfer_ownership_ok, delete_organization_ok,
}
use infram.Organization.Ownership.Calls.{
  Call, creates, invites, responds, removes, leaves, sets_role, transfers, deletes, joins,
  OwnersAfter, deleted, same, one, gone, no_members, no_row, Call-OwnersAfter,
}

All-none :
    (org account : ℕ) (ms : List Member)
    → find_one (is_row org account) ms ≡ none
    → All (λ m. is_row org account m ≡ true → is_active m.status ≡ true) ms
unfolding find_one
All-none org account [] h = tt
All-none org account (m ∷ ms) h = ((λ y. ground arith), All-none org account ms (ground arith))

-- Of the rows of an active member none is pending.
row_active :
    (org account : ℕ) (ms : List Member) (r : Member)
    → UniqueRows ms
    → find_one (is_active_row org account) ms ≡ some r
    → All (λ m. is_row org account m ≡ true → is_active m.status ≡ true) ms
unfolding find_one
row_active org account [] r u h = tt
row_active org account (m ∷ ms) r (a, u) h = elim (Bool-cases (is_row org account m)) [
  | inl y ↦
      let alone : find_one (is_row org account) ms ≡ none = ground arith in
      (
        (λ _.
            ground
              (arith, find_one_and_none (is_row org account) (λ x. is_active x.status) ms alone)),
        All-none org account ms alone,
      )
  | inr n ↦ ((λ y. cc), row_active org account ms r u (ground arith))
]

Call-UniqueRows : {d e : Directory} → Call d e → UniqueRows d.members → UniqueRows e.members
unfolding create_organization remove_organization_data transferred join
Call-UniqueRows {d} (creates account id name description now fresh) u =
    rw (no_row id account d.members fresh)
      (UniqueRows-append_one d.members _ u (no_row id account d.members fresh))
Call-UniqueRows {d} (invites account organization username now e h) u =
    let (org, id, _, alone, written) = invite_user_ok account organization username now d e h in
    rw written (UniqueRows-append_one d.members (invitation account org id now) u alone)
Call-UniqueRows {d} (responds account organization true e h) u =
    let (org, r, _, written) = respond_to_invitation_ok account organization true d e h in
    rw written (UniqueRows-update (is_row org account) _ d.members (λ m. (refl, refl)) u)
Call-UniqueRows {d} (responds account organization false e h) u =
    let (org, r, _, written) = respond_to_invitation_ok account organization false d e h in
    rw written (UniqueRows-destroy (is_row org account) d.members u)
Call-UniqueRows {d} (removes account organization target e h) u =
    let (org, id, r, actor, _, found, _, below, written) =
      remove_member_ok account organization target d e h in
    rw written (UniqueRows-destroy (is_row org id) d.members u)
Call-UniqueRows {d} (leaves account organization e h) u =
    let (org, r, found, plain, written) = leave_organization_ok account organization d e h in
    rw written (UniqueRows-destroy (is_row org account) d.members u)
Call-UniqueRows {d} (sets_role account org target role e low h) u =
    let (r, _, found, plain, written) = set_member_role_ok account org target role d e h in
    rw written (UniqueRows-update (is_row org target) _ d.members (λ m. (refl, refl)) u)
Call-UniqueRows {d} (transfers account org successor e h) u =
    let (r, _, _, found, written) = transfer_ownership_ok account org successor d e h in
    rw written (
      UniqueRows-update (is_row org successor) _
        (update (is_owner_row org) (λ m. record m { role = manager }) d.members) (λ m. (refl, refl))
        (UniqueRows-update (is_owner_row org) _ d.members (λ m. (refl, refl)) u))
Call-UniqueRows {d} (deletes account organization e h) u =
    let (org, _, _, written) = delete_organization_ok account organization d e h in
    rw written (UniqueRows-destroy (λ m. m.organization_id == org) d.members u)
Call-UniqueRows {d} (joins account now org) u =
    elim (Bool-cases (any (λ x. x.id == org) d.organizations)) [
      | inr n ↦ rw (join, n) u
      | inl y ↦ elim (Option-cases (find_one (is_row org account) d.members)) [
        | inl z ↦ rw (join, y, z) (UniqueRows-append_one d.members (new_member org account now) u z)
        | inr (r, z) ↦
            rw (join, y, z)
              (UniqueRows-update (is_row org account) (activated account r) d.members
                (λ m. (refl, refl)) u)
      ]
    ]

transferred-OwnersActive :
    (org successor : ℕ) (ms : List Member)
    → OwnersActive ms
    → All (λ m. is_row org successor m ≡ true → is_active m.status ≡ true) ms
    → OwnersActive (transferred org successor ms)
unfolding transferred update
transferred-OwnersActive org successor [] k l = tt
transferred-OwnersActive org successor (m ∷ ms) (k, ks) (l, ls) =
    ((λ y. ground arith), transferred-OwnersActive org successor ms ks ls)

abbrev OwnerActive : Member → Type 0
OwnerActive m = is_owner m.role ≡ true → is_active m.status ≡ true

Call-OwnersActive :
    {d e : Directory}
    → Call d e
    → UniqueRows d.members
    → OwnersActive d.members
    → OwnersActive e.members
unfolding create_organization remove_organization_data transferred join
Call-OwnersActive {d} (creates account id name description now fresh) u k =
    rw (no_row id account d.members fresh) (All-append_one OwnerActive d.members _ k (λ _. refl))
Call-OwnersActive {d} (invites account organization username now e h) u k =
    let (org, id, _, alone, written) = invite_user_ok account organization username now d e h in
    rw written (All-append_one OwnerActive d.members (invitation account org id now) k (λ x. cc))
Call-OwnersActive {d} (responds account organization true e h) u k =
    let (org, r, _, written) = respond_to_invitation_ok account organization true d e h in
    rw written (All-update OwnerActive (is_row org account) _ d.members (λ m t p x. refl) k)
Call-OwnersActive {d} (responds account organization false e h) u k =
    let (org, r, _, written) = respond_to_invitation_ok account organization false d e h in
    rw written (All-destroy OwnerActive (is_row org account) d.members k)
Call-OwnersActive {d} (removes account organization target e h) u k =
    let (org, id, r, actor, _, found, _, below, written) =
      remove_member_ok account organization target d e h in
    rw written (All-destroy OwnerActive (is_row org id) d.members k)
Call-OwnersActive {d} (leaves account organization e h) u k =
    let (org, r, found, plain, written) = leave_organization_ok account organization d e h in
    rw written (All-destroy OwnerActive (is_row org account) d.members k)
Call-OwnersActive {d} (sets_role account org target role e low h) u k =
    let (r, _, found, plain, written) = set_member_role_ok account org target role d e h in
    rw written (All-update OwnerActive (is_row org target) _ d.members (λ m t p x. cc) k)
Call-OwnersActive {d} (transfers account org successor e h) u k =
    let (r, _, _, found, written) = transfer_ownership_ok account org successor d e h in
    rw written (
      transferred-OwnersActive org successor d.members k
        (row_active org successor d.members r u found))
Call-OwnersActive {d} (deletes account organization e h) u k =
    let (org, _, _, written) = delete_organization_ok account organization d e h in
    rw written (All-destroy OwnerActive (λ m. m.organization_id == org) d.members k)
Call-OwnersActive {d} (joins account now org) u k =
    elim (Bool-cases (any (λ x. x.id == org) d.organizations)) [
      | inr n ↦ rw (join, n) k
      | inl y ↦ elim (Option-cases (find_one (is_row org account) d.members)) [
        | inl z ↦
            rw (join, y, z)
              (All-append_one OwnerActive d.members (new_member org account now) k (λ _. refl))
        | inr (r, z) ↦
            rw (join, y, z)
              (All-update OwnerActive (is_row org account) (activated account r) d.members
                (λ m t p x. refl) k)
      ]
    ]

-- In a sound directory, each of the calls that create, delete and transfer organizations, that invite
-- and answer, remove, leave and set roles, and each turn of joining organizations, if it is not
-- refused: keeps one row for a member of an organization, keeps owners active, and keeps every
-- organization from having two owners. The hand-over of the organizations of an account that is about
-- to be deleted is not among them: it leaves the row of that account as it is.
pub Call-IsSound : {d e : Directory} → Call d e → IsSound d.members → IsSound e.members
Call-IsSound {d} {e} c v = record {
  unique = Call-UniqueRows c v.unique;
  owners_active = Call-OwnersActive c v.unique v.owners_active;
  one_owner = λ o. at_most_one o (Call-OwnersAfter o c v);
}
  where
    at_most_one : (o : ℕ) → OwnersAfter o (deleted c) d.members e.members → owners o e.members ≤ 1
    at_most_one o (same h) = omega (arith, v.one_owner o)
    at_most_one o (one h) = omega arith
    at_most_one o (gone _ h) = omega (arith, no_members o e.members h)
