-- ===== src/Entries/Bounds.antt =====
-- How many recent connections there are, and whose.
use infram.Prelude.{
  ℕ, ◌*◌, ◌≤◌, ltb, ◌≡◌, refl, sym, ap, ◌∙◌, inl, inr, ◌⊎◌, true, false, not, ◌&&◌, Option, none,
  some, List, [], ◌∷◌, ◌++◌, ◌==◌, same, same_refl, arith, any, any-append, find_all, In,
  In-find_all, length, length-append, find_one-test, any-In, In-any, Bool-cases, Option-cases,
}
use infram.Models.{Entry}
use infram.Audit.{AuditLog}
use infram.Organization.{get_active_org_ids}
use infram.Identities.{EntryIdentity}
use infram.Folders.{Tree}
use infram.Entries.{entry_at}
use infram.Entries.Recent.{
  is_own_connection, keep_unique, Recent, recent_of, logged_entry, shown, get_recent_connections,
}

-- No two logs are of the same resource, and no two recent connections of the same entry.
abbrev UniqueLogs : List AuditLog → Type 0
UniqueLogs [] = Unit
UniqueLogs (l ∷ ls) = (any (λ k. same k.resource_id l.resource_id) ls ≡ false) × UniqueLogs ls

abbrev pub UniqueRecents : List Recent → Type 0
UniqueRecents [] = Unit
UniqueRecents (r ∷ rs) = (any (λ q. q.entry_id == r.entry_id) rs ≡ false) × UniqueRecents rs

same_comm : (a b : Option ℕ) → same a b ≡ same b a
same_comm none none = refl
same_comm none (some b) = refl
same_comm (some a) none = refl
same_comm (some a) (some b) = ground arith

UniqueLogs-append :
    (ls : List AuditLog) (l : AuditLog)
    → UniqueLogs ls
    → any (λ k. same k.resource_id l.resource_id) ls ≡ false
    → UniqueLogs (ls ++ l ∷ [])
unfolding any
UniqueLogs-append [] l u h = (refl, tt)
UniqueLogs-append (k ∷ ls) l (a, u) h = (
  any-append (λ x. same x.resource_id k.resource_id) ls (l ∷ [])
      ∙ ground (arith, same_comm k.resource_id l.resource_id),
  UniqueLogs-append ls l u (ground arith),
)

In-append_one : {A : Type 0} (a x : A) (xs : List A) → In a (xs ++ x ∷ []) → In a xs ⊎ (a ≡ x)
In-append_one a x [] (inl e) = inr e
In-append_one a x [] (inr i) = elim i [ ]
In-append_one a x (y ∷ xs) (inl e) = inl (inl e)
In-append_one a x (y ∷ xs) (inr i) = elim (In-append_one a x xs i) [
  | inl l ↦ inl (inr l)
  | inr e ↦ inr e
]

-- What the loop over the logs keeps.
record Kept (limit : ℕ) (from kept : List AuditLog) : Type 0 where
  few : length kept ≤ limit
  unique : UniqueLogs kept
  within : (l : AuditLog) → In l kept → In l from

keep_unique-Kept :
    (limit : ℕ) (from kept rest : List AuditLog)
    → Kept limit from kept
    → ((l : AuditLog) → In l rest → In l from)
    → Kept limit from (keep_unique limit kept rest)
unfolding keep_unique
keep_unique-Kept limit from kept [] k h = k
keep_unique-Kept limit from kept (l ∷ rest) k h =
    elim (Bool-cases
      (not (any (λ x. same x.resource_id l.resource_id) kept) && ltb (length kept) limit)) [
        | inl y ↦ rw y (
            keep_unique-Kept limit from (kept ++ l ∷ []) rest
              (record {
                few = let e = length-append kept (l ∷ []) in ground arith;
                unique = UniqueLogs-append kept l k.unique (ground arith);
                within = λ x i. elim (In-append_one x l kept i) [
                  | inl j ↦ k.within x j
                  | inr e ↦ h x (inl e)
                ];
              })
              (λ x i. h x (inr i)))
        | inr n ↦ rw n (keep_unique-Kept limit from kept rest k (λ x i. h x (inr i)))
      ]

length-shown :
    (ordered : List EntryIdentity → List EntryIdentity) (v : Tree) (ls : List AuditLog)
    → length (shown ordered v ls) ≤ length ls
unfolding shown
length-shown ordered v [] = omega arith
length-shown ordered v (l ∷ ls) = ground (arith, length-shown ordered v ls)

-- A recent connection comes from a log of its entry.
abbrev pub Shows : AuditLog → Recent → Type 0
Shows l r =
    (l.resource_id ≡ some r.entry_id) × (l.action ≡ r.connection_type) × (l.timestamp ≡ r.timestamp)

id-logged_entry :
    (l : AuditLog) (entries : List Entry) (e : Entry)
    → logged_entry l entries ≡ some e
    → l.resource_id ≡ some e.id
unfolding entry_at
id-logged_entry l entries e h = elim (Option-cases l.resource_id) [
  | inl z ↦ let bad = rw z at h in ground arith
  | inr (id, z) ↦
      let x = find_one-test (λ y. y.id == id) entries e (rw z at h) in
      let y : id ≡ e.id = ground arith in z ∙ ap some y
]

In-shown :
    (ordered : List EntryIdentity → List EntryIdentity) (v : Tree) (ls : List AuditLog) (r : Recent)
    → In r (shown ordered v ls)
    → (l : AuditLog) × In l ls × Shows l r
unfolding shown
In-shown ordered v [] r i = elim i [ ]
In-shown ordered v (l ∷ ls) r i = elim (Option-cases (logged_entry l v.entries)) [
  | inl z ↦ let (k, j, s) = In-shown ordered v ls r (rw (shown, z) at i) in (k, inr j, s)
  | inr (e, z) ↦
      let j : (r ≡ recent_of ordered v l e) ⊎ In r (shown ordered v ls) = rw (shown, z) at i in
      elim j [
        | inl q ↦ (
          l,
          inl refl,
          (
            id-logged_entry l v.entries e z ∙ ap (λ x. some x.entry_id) (sym q),
            ap (λ x. x.connection_type) (sym q),
            ap (λ x. x.timestamp) (sym q),
          ),
        )
        | inr q ↦ let (k, m, s) = In-shown ordered v ls r q in (k, inr m, s)
      ]
]

not_again :
    (ordered : List EntryIdentity → List EntryIdentity) (v : Tree) (l : AuditLog)
    (ls : List AuditLog) (e : Entry)
    → logged_entry l v.entries ≡ some e
    → any (λ k. same k.resource_id l.resource_id) ls ≡ false
    → any (λ q. q.entry_id == e.id) (shown ordered v ls) ≡ false
not_again ordered v l ls e z a =
    elim (Bool-cases (any (λ q. q.entry_id == e.id) (shown ordered v ls))) [
      | inr n ↦ n
      | inl y ↦
          let (q, i, of_entry) = any-In (λ x. x.entry_id == e.id) (shown ordered v ls) y in
          let (k, j, s) = In-shown ordered v ls q i in
          let same_entry : q.entry_id ≡ e.id = ground arith in
          let equal : k.resource_id ≡ l.resource_id =
            s.0 ∙ ap some same_entry ∙ sym (id-logged_entry l v.entries e z) in
          let again =
            In-any (λ x. same x.resource_id l.resource_id) ls k j
              (ap (λ o. same o l.resource_id) equal ∙ same_refl l.resource_id) in
          ground arith
    ]

UniqueRecents-shown :
    (ordered : List EntryIdentity → List EntryIdentity) (v : Tree) (ls : List AuditLog)
    → UniqueLogs ls
    → UniqueRecents (shown ordered v ls)
unfolding shown
UniqueRecents-shown ordered v [] u = tt
UniqueRecents-shown ordered v (l ∷ ls) (a, u) = elim (Option-cases (logged_entry l v.entries)) [
  | inl z ↦ rw (shown, z) (UniqueRecents-shown ordered v ls u)
  | inr (e, z) ↦ rw (shown, z) (not_again ordered v l ls e z a, UniqueRecents-shown ordered v ls u)
]

-- The recent connections of an account are at most as many as asked for, no two of them are of the
-- same entry, and each comes from a log of a connection that is the account's own or of one of its
-- organizations. The database is assumed to give only rows of the table.
pub get_recent_connections-bounds :
    (latest : ℕ → List AuditLog → List AuditLog) (ordered : List EntryIdentity → List EntryIdentity)
    (account limit : ℕ) (logs : List AuditLog) (v : Tree)
    → ((n : ℕ) (l : List AuditLog) (x : AuditLog) → In x (latest n l) → In x l)
    → (length (get_recent_connections latest ordered account limit logs v) ≤ limit)
      × UniqueRecents (get_recent_connections latest ordered account limit logs v)
      × ((r : Recent)
          → In r (get_recent_connections latest ordered account limit logs v)
          → (l : AuditLog) × In l logs
            × (is_own_connection account (get_active_org_ids account v.members) l ≡ true)
            × Shows l r)
unfolding get_recent_connections
get_recent_connections-bounds latest ordered account limit logs v h =
    let own = is_own_connection account (get_active_org_ids account v.members) in
    let found = latest (limit * 3) (find_all own logs) in
    let k =
      keep_unique-Kept limit found [] found
        (record { few = omega arith; unique = tt; within = λ l i. elim i [ ] }) (λ l i. i) in
    let kept = keep_unique limit [] found in
    let few = k.few in
    let shorter = length-shown ordered v kept in
    (
      omega arith,
      UniqueRecents-shown ordered v kept k.unique,
      λ r i.
          let (l, j, s) = In-shown ordered v kept r i in
          let (m, y) =
            In-find_all own logs l (h (limit * 3) (find_all own logs) l (k.within l j)) in
          (l, m, y, s),
    )
