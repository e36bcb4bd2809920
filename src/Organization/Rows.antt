-- ===== src/Organization/Rows.antt =====
-- Tables of members with one row for an organization and an account, and how queries change the
-- number of rows that a test counts.
use infram.Prelude.{
  ◌+◌, ◌≤◌, ◌≡◌, refl, subst, inl, inr, Bool, true, false, ◌&&◌, none, some, List, [], ◌∷◌, ◌++◌,
  if◌then◌else◌, find_one, destroy, update, count, All, arith, Bool-cases,
}
use infram.Organization.{Member, is_owner, is_active, is_row}

abbrev pub UniqueRows : List Member → Type 0
UniqueRows [] = Unit
UniqueRows (m ∷ ms) = (find_one (is_row m.organization_id m.account_id) ms ≡ none) × UniqueRows ms

-- An owner is an active member.
abbrev pub OwnersActive : List Member → Type 0
OwnersActive = All (λ m. is_owner m.role ≡ true → is_active m.status ≡ true)

module _ {A : Type 0} where
  pub All-find_one :
      (P : A → Type 0) (p : A → Bool) (xs : List A) (a : A)
      → All P xs
      → find_one p xs ≡ some a
      → P a
  unfolding find_one
  All-find_one P p [] a h e = cc
  All-find_one P p (x ∷ xs) a (px, h) e = elim (Bool-cases (p x)) [
    | inl y ↦ let q : x ≡ a = ground arith in subst P q px
    | inr n ↦ All-find_one P p xs a h (ground arith)
  ]

  pub All-destroy : (P : A → Type 0) (p : A → Bool) (xs : List A) → All P xs → All P (destroy p xs)
  unfolding destroy
  All-destroy P p [] h = tt
  All-destroy P p (x ∷ xs) (px, h) = elim (Bool-cases (p x)) [
    | inl y ↦ rw y (All-destroy P p xs h)
    | inr n ↦ rw n (px, All-destroy P p xs h)
  ]

  pub All-update :
      (P : A → Type 0) (p : A → Bool) (f : A → A) (xs : List A)
      → ((a : A) → p a ≡ true → P a → P (f a))
      → All P xs
      → All P (update p f xs)
  unfolding update
  All-update P p f [] k h = tt
  All-update P p f (x ∷ xs) k (px, h) = elim (Bool-cases (p x)) [
    | inl y ↦ rw y (k x y px, All-update P p f xs k h)
    | inr n ↦ rw n (px, All-update P p f xs k h)
  ]

  pub All-append_one :
      (P : A → Type 0) (xs : List A) (a : A) → All P xs → P a → All P (xs ++ a ∷ [])
  All-append_one P [] a h p = (p, tt)
  All-append_one P (x ∷ xs) a (px, h) p = (px, All-append_one P xs a h p)

  pub destroy-none : (p : A → Bool) (xs : List A) → find_one p xs ≡ none → destroy p xs ≡ xs
  unfolding find_one destroy
  destroy-none p [] h = refl
  destroy-none p (x ∷ xs) h = ground (arith, destroy-none p xs)

  pub update-none :
      (p : A → Bool) (f : A → A) (xs : List A) → find_one p xs ≡ none → update p f xs ≡ xs
  unfolding find_one update
  update-none p f [] h = refl
  update-none p f (x ∷ xs) h = ground (arith, update-none p f xs)

  pub find_one-destroy-none :
      (p q : A → Bool) (xs : List A) → find_one p xs ≡ none → find_one p (destroy q xs) ≡ none
  unfolding find_one destroy
  find_one-destroy-none p q [] h = refl
  find_one-destroy-none p q (x ∷ xs) h = ground (arith, find_one-destroy-none p q xs)

  pub find_one-update-none :
      (p q : A → Bool) (f : A → A) (xs : List A)
      → ((a : A) → p (f a) ≡ p a)
      → find_one p xs ≡ none
      → find_one p (update q f xs) ≡ none
  unfolding find_one update
  find_one-update-none p q f [] k h = refl
  find_one-update-none p q f (x ∷ xs) k h = ground (arith, k x, find_one-update-none p q f xs k)

  pub find_one-append_none :
      (p : A → Bool) (xs : List A) (a : A)
      → find_one p xs ≡ none
      → p a ≡ false
      → find_one p (xs ++ a ∷ []) ≡ none
  unfolding find_one
  find_one-append_none p [] a h e = ground arith
  find_one-append_none p (x ∷ xs) a h e = ground (arith, find_one-append_none p xs a)

  pub count-append_one :
      (p : A → Bool) (xs : List A) (a : A)
      → count p (xs ++ a ∷ []) ≡ count p xs + (if p a then 1 else 0)
  unfolding count
  count-append_one p [] a = ground arith
  count-append_one p (x ∷ xs) a = ground (arith, count-append_one p xs a)

  pub count-update_same :
      (p q : A → Bool) (f : A → A) (xs : List A)
      → ((a : A) → q a ≡ true → p (f a) ≡ p a)
      → count p (update q f xs) ≡ count p xs
  unfolding count update
  count-update_same p q f [] k = refl
  count-update_same p q f (x ∷ xs) k = ground (arith, k x, count-update_same p q f xs k)

  pub find_one_and_none :
      (p q : A → Bool) (xs : List A) → find_one p xs ≡ none → find_one (λ a. p a && q a) xs ≡ none
  unfolding find_one
  find_one_and_none p q [] h = refl
  find_one_and_none p q (x ∷ xs) h = ground (arith, find_one_and_none p q xs)

  -- An update that the test does not see keeps the row that it finds, up to the update.
  pub find_one-update :
      (p q : A → Bool) (f : A → A) (xs : List A) (a : A)
      → ((b : A) → p (f b) ≡ p b)
      → find_one p xs ≡ some a
      → find_one p (update q f xs) ≡ some (if q a then f a else a)
  unfolding find_one update
  find_one-update p q f [] a k h = ground arith
  find_one-update p q f (x ∷ xs) a k h = ground (arith, k x, find_one-update p q f xs a k)

  pub count-destroy-le : (p q : A → Bool) (xs : List A) → count p (destroy q xs) ≤ count p xs
  unfolding count destroy
  count-destroy-le p q [] = omega arith
  count-destroy-le p q (x ∷ xs) = ground (arith, count-destroy-le p q xs)

pub UniqueRows-destroy :
    (p : Member → Bool) (ms : List Member) → UniqueRows ms → UniqueRows (destroy p ms)
unfolding destroy
UniqueRows-destroy p [] u = tt
UniqueRows-destroy p (m ∷ ms) (a, u) = elim (Bool-cases (p m)) [
  | inl y ↦ rw y (UniqueRows-destroy p ms u)
  | inr n ↦ rw n (find_one-destroy-none _ p ms a, UniqueRows-destroy p ms u)
]

pub UniqueRows-update :
    (p : Member → Bool) (f : Member → Member) (ms : List Member)
    → ((m : Member)
        → ((f m).organization_id ≡ m.organization_id) × ((f m).account_id ≡ m.account_id))
    → UniqueRows ms
    → UniqueRows (update p f ms)
unfolding update
UniqueRows-update p f [] k u = tt
UniqueRows-update p f (m ∷ ms) k (a, u) =
    let same =
      find_one-update-none (is_row m.organization_id m.account_id) p f ms
        (λ x. rw ((k x).0, (k x).1)) a in
    elim (Bool-cases (p m)) [
      | inl y ↦ rw (y, (k m).0, (k m).1) (same, UniqueRows-update p f ms k u)
      | inr n ↦ rw n (same, UniqueRows-update p f ms k u)
    ]

pub UniqueRows-append_one :
    (ms : List Member) (n : Member)
    → UniqueRows ms
    → find_one (is_row n.organization_id n.account_id) ms ≡ none
    → UniqueRows (ms ++ n ∷ [])
unfolding find_one
UniqueRows-append_one [] n u h = (refl, tt)
UniqueRows-append_one (m ∷ ms) n (a, u) h = (
  find_one-append_none (is_row m.organization_id m.account_id) ms n a (ground arith),
  UniqueRows-append_one ms n u (ground arith),
)
