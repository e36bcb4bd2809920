-- ===== src/Entries/Place.antt =====
-- The place that a move asks for: its folder, and who owns the entry there.
use infram.Prelude.{
  ℕ, ◌≡◌, refl, sym, ap, ◌∙◌, subst, inl, inr, true, Option, none, some, ok, ok-injective, guard-ok,
  given, is_some, Option-cases,
}
use infram.Models.{Entry}
use infram.Organization.{has_organization_access}
use infram.Folders.{folder_at, Folder, Tree, Context}
use infram.Entries.{folder_of}
use infram.Entries.Moving.{Target, target_folder, target_context}

-- The folder that the request names, null included, or else the entry's own.
pub data IsFolder (t : Target) (e : Entry) (folder : Option ℕ) : Type 0 where
  asked : t.folder_id ≡ some folder → IsFolder t e folder
  kept : t.folder_id ≡ none → e.folder_id ≡ folder → IsFolder t e folder

-- Which organization the request names; a missing one and null are the same.
pub data Asks (t : Target) (org : Option ℕ) : Type 0 where
  names : t.organization_id ≡ some org → Asks t org
  names_none : t.organization_id ≡ none → org ≡ none → Asks t org

-- The owner: the organization of the folder; the account, where the folder is of none; outside of
-- folders the organization of the request, which the account must have access to, and the account
-- where the request has none. For a folder that is not there, the organization of the request goes
-- together with the account.
pub data IsOwner (account : ℕ) (t : Target) (folder : Option ℕ) (v : Tree) (c : Context)
    : Type 0 where
  of_folder :
      (f : Folder) (org : ℕ)
      → folder_of folder v.folders ≡ some f
      → given f.organization_id ≡ some org
      → c.organization_id ≡ some org
      → c.account_id ≡ none
      → IsOwner account t folder v c
  in_own_folder :
      (f : Folder)
      → folder_of folder v.folders ≡ some f
      → given f.organization_id ≡ none
      → c.organization_id ≡ none
      → c.account_id ≡ some account
      → IsOwner account t folder v c
  in_missing_folder :
      is_some (given folder) ≡ true
      → folder_of folder v.folders ≡ none
      → Asks t c.organization_id
      → c.account_id ≡ some account
      → IsOwner account t folder v c
  of_organization :
      (org : ℕ)
      → given folder ≡ none
      → given c.organization_id ≡ some org
      → Asks t c.organization_id
      → has_organization_access account c.organization_id v.members ≡ true
      → c.account_id ≡ none
      → IsOwner account t folder v c
  of_account :
      (org : Option ℕ)
      → given folder ≡ none
      → Asks t org
      → given org ≡ none
      → c.organization_id ≡ none
      → c.account_id ≡ some account
      → IsOwner account t folder v c

pub target_folder-IsFolder : (t : Target) (e : Entry) → IsFolder t e (target_folder t e)
target_folder-IsFolder t e = elim (Option-cases t.folder_id) [
  | inl z ↦ kept z (sym (ap (λ o. elim o [ none ↦ e.folder_id | some g ↦ g ]) z))
  | inr (f, z) ↦ asked (z ∙ ap some (sym (ap (λ o. elim o [ none ↦ e.folder_id | some g ↦ g ]) z)))
]

asked_org : Option (Option ℕ) → Option ℕ
asked_org o = elim o [ none ↦ none | some org ↦ org ]

asked_org-Asks : (t : Target) → Asks t (asked_org t.organization_id)
unfolding asked_org
asked_org-Asks t = elim (Option-cases t.organization_id) [
  | inl z ↦ names_none z (ap asked_org z)
  | inr (o, z) ↦ names (z ∙ ap some (sym (ap asked_org z)))
]

pub target_context-IsOwner :
    (account : ℕ) (t : Target) (folder : Option ℕ) (v : Tree) (c : Context)
    → target_context account t folder v ≡ ok c
    → IsOwner account t folder v c
unfolding target_context asked_org
target_context-IsOwner account t folder v c h =
    let org = asked_org t.organization_id in
    let asks = asked_org-Asks t in
    elim (Option-cases (given folder)) [
      | inl top ↦ elim (Option-cases (given org)) [
        | inl z ↦
            subst (IsOwner account t folder v) (ok-injective (rw (target_context, top, z) at h))
              (of_account org top asks z refl refl)
        | inr (k, z) ↦
            let (access, h1) =
              guard-ok (has_organization_access account org v.members) 403 _
                (rw (target_context, top, z) at h) in
            subst (IsOwner account t folder v) (ok-injective h1)
              (of_organization k top z asks access refl)
      ]
      | inr (i, z) ↦ elim (Option-cases (folder_at i v.folders)) [
        | inl lost ↦
            subst (IsOwner account t folder v) (ok-injective (rw (target_context, z, lost) at h))
              (in_missing_folder (rw z refl) (rw (folder_of, z) lost) asks refl)
        | inr (f, at) ↦ elim (Option-cases (given f.organization_id)) [
          | inl own ↦
              subst (IsOwner account t folder v)
                (ok-injective (rw (target_context, z, at, own) at h))
                (in_own_folder f (rw (folder_of, z) at) own refl refl)
          | inr (k, of) ↦
              subst (IsOwner account t folder v)
                (ok-injective (rw (target_context, z, at, of) at h))
                (of_folder f k (rw (folder_of, z) at) of refl refl)
        ]
      ]
    ]
