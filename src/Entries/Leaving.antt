-- ===== src/Entries/Leaving.antt =====
-- What `repositionEntry` takes from an entry that leaves an organization.
use infram.Prelude.{
  ℕ, ◌≡◌, sym, ap, ◌∙◌, subst, inl, inr, true, false, ◌&&◌, Option, none, some, List, ◌==◌, same,
  same-eq, same_refl, if◌then◌else◌, arith, any, destroy, In, In-destroy, In-destroy_of, In-any,
  any-In, ok, Bool-cases, ◌↔◌, ◌≢◌,
}
use mathlib.Core.Option.{some-injective}
use infram.Models.{Entry}
use infram.Identities.{Identity, EntryIdentity}
use infram.SessionManager.{Session, find}
use infram.SessionManager.Invariant.{Inv}
use infram.SessionManager.Removal.{find-remove_all}
use infram.Folders.{Tree}
use infram.Entries.{entry_at}
use infram.Entries.Moving.{Target, is_old_identity, leave_organization, reposition_entry}
use infram.Entries.Numbering.{UniqueEntries}
use infram.Entries.Placing.{organization-Move, reposition_entry-Move, id-validate_entry_access}

-- A link of the entry to an identity of the organization (or of no organization, where it is none).
abbrev pub IsOldLink : (id : ℕ) → (old : Option ℕ) → List Identity → EntryIdentity → Type 0
IsOldLink id old identities l =
    (l.entry_id ≡ id)
    × ((i : Identity) × In i identities × (i.id ≡ l.identity_id) × (i.organization_id ≡ old))

old_link :
    (id : ℕ) (old : Option ℕ) (identities : List Identity) (l : EntryIdentity)
    → (is_old_identity id old identities l ≡ true) ↔ IsOldLink id old identities l
old_link id old identities l = (
  (λ h.
      let found : any (λ i. i.id == l.identity_id && same i.organization_id old) identities ≡ true =
        ground arith in
      let (i, m, t) = any-In _ identities found in
      let of_old = same-eq i.organization_id old (ground arith) in
      (ground arith, (i, m, ground arith, of_old))),
  (λ (e, (i, m, same_id, of_old)).
      let t : i.id == l.identity_id && same i.organization_id old ≡ true =
        let x = ap (λ o. same o old) of_old ∙ same_refl old in ground arith in
      let found =
        In-any (λ j. j.id == l.identity_id && same j.organization_id old) identities i m t in
      ground arith),
)

left_links :
    (id : ℕ) (old : Option ℕ) (identities : List Identity) (links : List EntryIdentity)
    (l : EntryIdentity)
    → In l (destroy (is_old_identity id old identities) links)
      ↔ (In l links × ¬ (IsOldLink id old identities l))
left_links id old identities links l =
    let (there, back) = old_link id old identities l in
    (
      (λ i.
          let (stays, n) = In-destroy (is_old_identity id old identities) links l i in
          (stays, λ o. let y = back o in ground arith)),
      (λ (i, n).
          In-destroy_of (is_old_identity id old identities) links l i
            (elim (Bool-cases (is_old_identity id old identities l)) [
              | inl y ↦ absurd (n (there y))
              | inr z ↦ z
            ])),
    )

-- When a move that succeeds changes the organization of an entry, the entry loses exactly its links
-- to identities of the old organization and its connections end; other links and other connections
-- are as before. Entry identifiers are assumed to be unique, the database's sorting to keep them so,
-- and the registry to satisfy its invariant.
pub In-reposition_entry :
    (sorted : List Entry → List Entry) (account id : ℕ) (t : Target) (v w : Tree) (old new : Entry)
    → UniqueEntries v.entries
    → ((l : List Entry) → UniqueEntries l → UniqueEntries (sorted l))
    → Inv v.manager
    → reposition_entry sorted account id t v ≡ ok w
    → entry_at id v.entries ≡ some old
    → entry_at id w.entries ≡ some new
    → new.organization_id ≢ old.organization_id
    → ((l : EntryIdentity)
        → In l w.entry_identities
          ↔ (In l v.entry_identities × ¬ (IsOldLink id old.organization_id v.identities l)))
      × ((k : ℕ) (s : Session)
          → find k v.manager ≡ some s
          → find k w.manager ≡ (if s.entry_id == id then none else some s))
unfolding leave_organization
In-reposition_entry sorted account id t v w old new u keeps inv h e e' changed =
    let m = reposition_entry-Move sorted account id t v w h in
    let (found, same_id) = id-validate_entry_access account id v m.entry m.entry_allowed in
    let same_old = some-injective old m.entry (sym e ∙ found) in
    let target = organization-Move sorted account id t v w u keeps m new e' in
    let differs : same m.entry.organization_id m.context.organization_id ≡ false =
      elim (Bool-cases (same m.entry.organization_id m.context.organization_id)) [
        | inl y ↦
            absurd
              (changed (target ∙ sym (same-eq _ _ y) ∙ ap (λ x. x.organization_id) (sym same_old)))
        | inr n ↦ n
      ] in
    let left = rw differs at m.result in
    let org = ap (λ x. x.organization_id) same_old in
    let links : w.entry_identities
        ≡ destroy (is_old_identity id old.organization_id v.identities) v.entry_identities =
      sym (ap (λ x. x.entry_identities) left)
      ∙ ap (λ o. destroy (is_old_identity id o v.identities) v.entry_identities) (sym org) in
    (
      (λ l.
          subst
            (λ x.
              In l x
              ↔ (In l v.entry_identities × ¬ (IsOldLink id old.organization_id v.identities l)))
            (sym links) (left_links id old.organization_id v.identities v.entry_identities l)),
      (λ k s f. ap (λ x. find k x.manager) (sym left) ∙ (find-remove_all id k v.manager s inv f).1),
    )
