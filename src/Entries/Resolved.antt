-- ===== src/Entries/Resolved.antt =====
-- The identities that `resolveIdentity` gives.
use infram.Prelude.{
  ℕ, ◌≡◌, sym, ap, ◌∙◌, inl, inr, true, Option, none, some, List, [], ◌∷◌, ◌==◌, arith, Bool-cases,
  Option-cases, find_one-test, find_all, given,
}
use mathlib.Core.Option.{some-injective}
use infram.Models.{Entry}
use infram.Identities.{Identity, EntryIdentity, identity_at}
use infram.Folders.{Tree}
use infram.Entries.Resolving.{
  Resolution, direct, found, missing, may_sign_in_with, first_usable, resolve_identity,
}

found_identity : Resolution → Option Identity
found_identity (direct d) = none
found_identity (found i) = some i
found_identity (missing r a) = none

id-identity_at : (id : ℕ) (l : List Identity) (i : Identity) → identity_at id l ≡ some i → i.id ≡ id
id-identity_at id l i h = let x = find_one-test (λ j. j.id == id) l i h in ground arith

first_usable-allowed :
    (account : Option ℕ) (l : List EntryIdentity) (v : Tree) (i : Identity)
    → first_usable account l v ≡ some i
    → may_sign_in_with account v i.id ≡ true
unfolding first_usable
first_usable-allowed account [] v i h = ground arith
first_usable-allowed account (x ∷ l) v i h =
    elim (Bool-cases (may_sign_in_with account v x.identity_id)) [
      | inr n ↦ first_usable-allowed account l v i (rw (first_usable, n) at h)
      | inl y ↦ elim (Option-cases (identity_at x.identity_id v.identities)) [
        | inl e ↦ first_usable-allowed account l v i (rw (first_usable, y, e) at h)
        | inr (j, e) ↦
            let one = some-injective j i (rw (first_usable, y, e) at h) in
            ap (λ k. may_sign_in_with account v k.id) (sym one)
            ∙ ap (may_sign_in_with account v) (id-identity_at x.identity_id v.identities j e)
            ∙ y
      ]
    ]

-- An identity that is found is one that the account may sign in with.
pub resolve_identity-allowed :
    (ordered : List EntryIdentity → List EntryIdentity) (e : Entry) (identity d account : Option ℕ)
    (v : Tree) (i : Identity)
    → resolve_identity ordered e identity d account v ≡ found i
    → may_sign_in_with account v i.id ≡ true
unfolding resolve_identity found_identity
resolve_identity-allowed ordered e identity (some d) account v i h =
    let x = ap found_identity h in ground arith
resolve_identity-allowed ordered e identity none account v i h =
    elim (Option-cases (given identity)) [
      | inr (id, g) ↦ elim (Option-cases (identity_at id v.identities)) [
        | inl z ↦ let x = ap found_identity (rw (resolve_identity, g, z) at h) in ground arith
        | inr (j, z) ↦ elim (Bool-cases (may_sign_in_with account v j.id)) [
          | inr n ↦ let x = ap found_identity (rw (resolve_identity, g, z, n) at h) in ground arith
          | inl y ↦
              let one =
                some-injective j i (ap found_identity (rw (resolve_identity, g, z, y) at h)) in
              ap (λ k. may_sign_in_with account v k.id) (sym one) ∙ y
        ]
      ]
      | inl g ↦
          let links = ordered (find_all (λ l. l.entry_id == e.id) v.entry_identities) in
          elim (Option-cases (first_usable account links v)) [
            | inl z ↦ let x = ap found_identity (rw (resolve_identity, g, z) at h) in ground arith
            | inr (j, z) ↦
                let one =
                  some-injective j i (ap found_identity (rw (resolve_identity, g, z) at h)) in
                first_usable-allowed account links v i (z ∙ ap some one)
          ]
    ]
