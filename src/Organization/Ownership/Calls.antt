-- ===== src/Organization/Ownership/Calls.antt =====
-- The calls on memberships as steps, and what each of them does to the owners.
use Prim.Native.String.{String}
use infram.Prelude.{
  ℕ, ◌<◌, ◌≡◌, refl, sym, ap, subst, ◌∙◌, inl, inr, Bool, true, false, Option, none, some, List, [],
  ◌∷◌, ◌++◌, ◌==◌, ==_iff, find_one-test, find_one, destroy, update, any, Option-cases, count,
  arith, Bool-cases, ok,
}
use infram.Organization.{
  Role, owner, manager, member, Member, Directory, is_owner, is_row, is_owner_row, rank,
  remove_organization_data,
}
use infram.Organization.Calls.{
  create_organization, invitation, invite_user, is_pending_row, respond_to_invitation,
  remove_member, leave_organization, set_member_role, transfer_ownership, delete_organization,
}
use infram.Organization.HandOver.{new_member, activated, join}
use infram.Organization.Rows.{
  UniqueRows, update-none, All-find_one, count-append_one, count-update_same,
}
use infram.Organization.Ownership.{
  owners, IsSound, find_one-row, owners-destroy_row, owners-update_row, owners-transferred,
}
use infram.Organization.Ownership.Inversion.{
  invite_user_ok, respond_to_invitation_ok, remove_member_ok, leave_organization_ok,
  set_member_role_ok, transfer_ownership_ok, delete_organization_ok,
}

-- The calls that change memberships and are not refused, without the hand-over. A new organization has a new key, and the
-- request schema of `set_member_role` does not let the owner's role through.
pub data Call (d : Directory) : Directory → Type 0 where
  creates :
      (account id : ℕ) (name description : String) (now : ℕ)
      → find_one (λ m. m.organization_id == id) d.members ≡ none
      → Call d (create_organization account id name description now d)
  invites :
      (account : ℕ) (organization : Option ℕ) (username : String) (now : ℕ) (e : Directory)
      → invite_user account organization username now d ≡ ok e
      → Call d e
  responds :
      (account : ℕ) (organization : Option ℕ) (accept : Bool) (e : Directory)
      → respond_to_invitation account organization accept d ≡ ok e
      → Call d e
  removes :
      (account : ℕ) (organization target : Option ℕ) (e : Directory)
      → remove_member account organization target d ≡ ok e
      → Call d e
  leaves :
      (account : ℕ) (organization : Option ℕ) (e : Directory)
      → leave_organization account organization d ≡ ok e
      → Call d e
  sets_role :
      (account org target : ℕ) (role : Role) (e : Directory)
      → is_owner role ≡ false
      → set_member_role account org target role d ≡ ok e
      → Call d e
  transfers :
      (account org successor : ℕ) (e : Directory)
      → transfer_ownership account org successor d ≡ ok e
      → Call d e
  deletes :
      (account : ℕ) (organization : Option ℕ) (e : Directory)
      → delete_organization account organization d ≡ ok e
      → Call d e
  joins : (account now org : ℕ) → Call d (join account now org d)

-- The organization that a call deletes.
abbrev pub deleted : {d e : Directory} → Call d e → Option ℕ
deleted (creates account id name description now fresh) = none
deleted (invites account organization username now e h) = none
deleted (responds account organization accept e h) = none
deleted (removes account organization target e h) = none
deleted (leaves account organization e h) = none
deleted (sets_role account org target role e low h) = none
deleted (transfers account org successor e h) = none
deleted (deletes account organization e h) = organization
deleted (joins account now org) = none

-- What a call does to the number of owners of an organization.
pub data OwnersAfter (o : ℕ) (deleted : Option ℕ) (ms ns : List Member) : Type 0 where
  same : owners o ns ≡ owners o ms → OwnersAfter o deleted ms ns
  one : owners o ns ≡ 1 → OwnersAfter o deleted ms ns
  gone :
      deleted ≡ some o
      → find_one (λ m. m.organization_id == o) ns ≡ none
      → OwnersAfter o deleted ms ns

pub no_members :
    (o : ℕ) (ms : List Member) → find_one (λ m. m.organization_id == o) ms ≡ none → owners o ms ≡ 0
unfolding find_one count
no_members o [] h = refl
no_members o (m ∷ ms) h = ground (arith, no_members o ms)

pub no_row :
    (o account : ℕ) (ms : List Member)
    → find_one (λ m. m.organization_id == o) ms ≡ none
    → find_one (is_row o account) ms ≡ none
unfolding find_one
no_row o account [] h = refl
no_row o account (m ∷ ms) h = ground (arith, no_row o account ms)

destroyed :
    (o : ℕ) (ms : List Member)
    → find_one (λ m. m.organization_id == o) (destroy (λ m. m.organization_id == o) ms) ≡ none
unfolding find_one destroy
destroyed o [] = refl
destroyed o (m ∷ ms) = ground (arith, destroyed o ms)

destroyed_other :
    (o org : ℕ) (ms : List Member)
    → (o == org) ≡ false
    → owners o (destroy (λ m. m.organization_id == org) ms) ≡ owners o ms
unfolding count destroy
destroyed_other o org [] h = refl
destroyed_other o org (m ∷ ms) h = ground (arith, destroyed_other o org ms h)

-- A row that is activated keeps its role.
owners-activated :
    (o org account : ℕ) (ms : List Member) (r : Member)
    → UniqueRows ms
    → find_one (is_row org account) ms ≡ some r
    → owners o (update (is_row org account) (activated account r) ms) ≡ owners o ms
unfolding find_one update count
owners-activated o org account [] r u h = refl
owners-activated o org account (m ∷ ms) r (a, u) h = elim (Bool-cases (is_row org account m)) [
  | inl y ↦
      let alone : find_one (is_row org account) ms ≡ none = ground arith in
      let same_row : m ≡ r = ground arith in
      let same_role : is_owner r.role ≡ is_owner m.role =
        ap (λ x. is_owner x.role) (sym same_row) in
      rw (y, update-none (is_row org account) (activated account r) ms alone) (ground arith)
  | inr n ↦ rw n (ground (arith, owners-activated o org account ms r u))
]

pending-not_owner :
    (org account : ℕ) (ms : List Member) (r : Member)
    → IsSound ms
    → find_one (is_pending_row org account) ms ≡ some r
    → is_owner r.role ≡ false
pending-not_owner org account ms r v h =
    let waits = find_one-test (is_pending_row org account) ms r h in
    let acts = All-find_one _ (is_pending_row org account) ms r v.owners_active h in
    elim (Bool-cases (is_owner r.role)) [ inl y ↦ let z = acts y in ground arith | inr n ↦ n ]

below-not_owner : (a b : Role) → rank a < rank b → is_owner a ≡ false
below-not_owner owner owner h = absurd (omega arith)
below-not_owner owner manager h = absurd (omega arith)
below-not_owner owner member h = absurd (omega arith)
below-not_owner manager b h = refl
below-not_owner member b h = refl

founded :
    (o : ℕ) (n : Member) (ms : List Member)
    → find_one (λ m. m.organization_id == n.organization_id) ms ≡ none
    → n.role ≡ owner
    → OwnersAfter o none ms (ms ++ n ∷ [])
founded o n ms fresh first = elim (Bool-cases (n.organization_id == o)) [
  | inl y ↦
      let q : n.organization_id ≡ o = (==_iff n.organization_id o).0 y in
      let none_yet : owners o ms ≡ 0 =
        subst (λ k. owners k ms ≡ 0) q (no_members n.organization_id ms fresh) in
      one (count-append_one (is_owner_row o) ms n ∙ ground (arith, ap is_owner first))
  | inr other ↦ same (count-append_one (is_owner_row o) ms n ∙ ground arith)
]

pub Call-OwnersAfter :
    {d e : Directory} (o : ℕ) (c : Call d e)
    → IsSound d.members
    → OwnersAfter o (deleted c) d.members e.members
unfolding create_organization remove_organization_data join
Call-OwnersAfter {d} o (creates account id name description now fresh) v =
    rw (no_row id account d.members fresh) (founded o _ d.members fresh refl)
Call-OwnersAfter {d} o (invites account organization username now e h) v =
    let (org, id, _, _, written) = invite_user_ok account organization username now d e h in
    same (
      rw written (
        count-append_one (is_owner_row o) d.members (invitation account org id now) ∙ ground arith))
Call-OwnersAfter {d} o (responds account organization true e h) v =
    let (org, r, _, written) = respond_to_invitation_ok account organization true d e h in
    same (
      rw written
        (count-update_same (is_owner_row o) (is_row org account) _ d.members (λ m t. refl)))
Call-OwnersAfter {d} o (responds account organization false e h) v =
    let (org, r, found, written) = respond_to_invitation_ok account organization false d e h in
    same (
      rw written (
        owners-destroy_row o org account d.members r v.unique
          (find_one-row org account _ d.members r v.unique found)
          (pending-not_owner org account d.members r v found)))
Call-OwnersAfter {d} o (removes account organization target e h) v =
    let (org, id, r, actor, _, found, _, below, written) =
      remove_member_ok account organization target d e h in
    same (
      rw written (
        owners-destroy_row o org id d.members r v.unique found
          (below-not_owner r.role actor below)))
Call-OwnersAfter {d} o (leaves account organization e h) v =
    let (org, r, found, plain, written) = leave_organization_ok account organization d e h in
    same (
      rw written (
        owners-destroy_row o org account d.members r v.unique
          (find_one-row org account _ d.members r v.unique found) plain))
Call-OwnersAfter {d} o (sets_role account org target role e low h) v =
    let (r, _, found, plain, written) = set_member_role_ok account org target role d e h in
    same (
      rw written (
        owners-update_row o org target role d.members r v.unique
          (find_one-row org target _ d.members r v.unique found) plain low))
Call-OwnersAfter {d} o (transfers account org successor e h) v =
    let (r, _, _, found, written) = transfer_ownership_ok account org successor d e h in
    let count' =
      owners-transferred o org successor d.members r v.unique
        (find_one-row org successor _ d.members r v.unique found) in
    elim (Bool-cases (o == org)) [
      | inl y ↦ one (rw written (count' ∙ rw y))
      | inr n ↦ same (rw written (count' ∙ rw n))
    ]
Call-OwnersAfter {d} o (deletes account organization e h) v =
    let (org, asked, _, written) = delete_organization_ok account organization d e h in
    elim (Bool-cases (o == org)) [
      | inl y ↦
          gone (asked ∙ ap some (sym ((==_iff o org).0 y)))
            (rw (written, (==_iff o org).0 y) (destroyed org d.members))
      | inr n ↦ same (rw written (destroyed_other o org d.members n))
    ]
Call-OwnersAfter {d} o (joins account now org) v =
    elim (Bool-cases (any (λ x. x.id == org) d.organizations)) [
      | inr n ↦ same (rw (join, n) refl)
      | inl y ↦ elim (Option-cases (find_one (is_row org account) d.members)) [
        | inl z ↦ same (
            rw (join, y, z)
              (count-append_one (is_owner_row o) d.members (new_member org account now)
                ∙ ground arith))
        | inr (r, z) ↦
            same (rw (join, y, z) (owners-activated o org account d.members r v.unique z))
      ]
    ]
