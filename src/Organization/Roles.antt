-- ===== src/Organization/Roles.antt =====
-- Who may do what to whom.
use infram.Prelude.{
  ℕ, ◌≤◌, ◌<◌, ◌≡◌, ◌≢◌, refl, ◌∙◌, true, false, Option, some, ==_refl, if◌then◌else◌, find_one,
  update, arith, find_one-test, In, In-destroy, In-destroy_of, ◌↔◌, ok,
}
use infram.Organization.{
  Role, owner, manager, Member, Directory, rank, is_owner, is_active, is_row, is_active_row,
  is_owner_row, effective_role, has_role,
}
use infram.Organization.Calls.{remove_member, transferred, transfer_ownership}
use infram.Organization.Rows.{find_one-update}
use infram.Organization.Ownership.{owners, IsSound, find_one-row, owners-transferred}
use infram.Organization.Ownership.Inversion.{remove_member_ok, transfer_ownership_ok}

-- A removal that is not refused takes away the rows of one member, whose role ranks strictly below
-- the role in which the caller acts, which is at least a manager's; every other row stays.
remove_member_outranks :
    (account : ℕ) (organization target : Option ℕ) (d e : Directory) (m : Member)
    → remove_member account organization target d ≡ ok e
    → (org id : ℕ) × (r : Member) × (actor : Role) × (effective_role account org d ≡ some actor)
      × (find_one (is_row org id) d.members ≡ some r)
      × (rank manager ≤ rank actor)
      × (rank r.role < rank actor)
      × (In m e.members ↔ (In m d.members × (is_row org id m ≡ false)))
remove_member_outranks account organization target d e m h =
    let (org, id, r, actor, acts, found, high, below, written) =
      remove_member_ok account organization target d e h in
    (
      org,
      id,
      r,
      actor,
      acts,
      found,
      high,
      below,
      rw written (
        In-destroy (is_row org id) d.members m,
        λ (at, n). In-destroy_of (is_row org id) d.members m at n,
      ),
    )

-- In a sound directory, a transfer that is not refused was asked for by somebody who acts as the
-- owner; afterwards the successor, an active member other than the caller, is the one owner, and
-- the row that was the caller's is at most a manager's.
transfer_ownership_lem :
    (account org successor : ℕ) (d e : Directory) (mine : Member)
    → IsSound d.members
    → transfer_ownership account org successor d ≡ ok e
    → find_one (is_row org account) d.members ≡ some mine
    → (has_role account org owner d ≡ true)
      × (successor ≢ account)
      × (owners org e.members ≡ 1)
      × ((r : Member) × (find_one (is_row org successor) e.members ≡ some r)
          × (r.role ≡ owner)
          × (is_active r.status ≡ true))
      × ((r : Member) × (find_one (is_row org account) e.members ≡ some r)
          × (is_owner r.role ≡ false))
unfolding transferred
transfer_ownership_lem account org successor d e mine v h own =
    let (r, may, other, found, written) = transfer_ownership_ok account org successor d e h in
    let row = find_one-row org successor (λ m. is_active m.status) d.members r v.unique found in
    let demote = λ (m : Member). record m { role = manager } in
    let promote = λ (m : Member). record m { role = owner } in
    let middle = update (is_owner_row org) demote d.members in
    let step =
      find_one-update (is_row org successor) (is_owner_row org) demote d.members r (λ b. refl)
        row in
    let last =
      find_one-update (is_row org successor) (is_row org successor) promote middle
        (if is_owner_row org r then demote r else r) (λ b. refl) step in
    let step' =
      find_one-update (is_row org account) (is_owner_row org) demote d.members mine (λ b. refl)
        own in
    let last' =
      find_one-update (is_row org account) (is_row org successor) promote middle
        (if is_owner_row org mine then demote mine else mine) (λ b. refl) step' in
    let active = find_one-test (is_active_row org successor) d.members r found in
    let here = find_one-test (is_row org account) d.members mine own in
    (
      may,
      other,
      rw written (owners-transferred org org successor d.members r v.unique row ∙ rw (==_refl org)),
      (
        (if is_row org successor (if is_owner_row org r then demote r else r)
            then promote (if is_owner_row org r then demote r else r)
            else (if is_owner_row org r then demote r else r)),
        rw written last,
        ground arith,
        ground arith,
      ),
      (
        (if is_row org successor (if is_owner_row org mine then demote mine else mine)
            then promote (if is_owner_row org mine then demote mine else mine)
            else (if is_owner_row org mine then demote mine else mine)),
        rw written last',
        ground arith,
      ),
    )
