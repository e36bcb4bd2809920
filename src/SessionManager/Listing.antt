-- ===== src/SessionManager/Listing.antt =====
-- Which sessions an account is shown.
use infram.Prelude.{
  ℕ, ◌≡◌, refl, sym, ap, ◌∙◌, inl, inr, ◌⊎◌, ◌↔◌, true, Option, none, some, List, [], ◌∷◌, same-eq,
  same_refl, arith, Bool-cases, In,
}
use mathlib.Core.Bool.{false≢true}
use infram.SessionManager.{Session, Manager, fits, is_listed, get_all_from, get_all}

-- A filter that is given fits a session with just that value; null is a value.
abbrev FitsTo : Option (Option ℕ) → Option ℕ → Type 0
FitsTo filter own = (wanted : Option ℕ) → filter ≡ some wanted → own ≡ wanted

-- What the sharing mode of an account lets it see: its own sessions, those that are hibernated
-- wherever they come from.
abbrev IsVisible : ℕ → Option (Option ℕ) → Option (Option ℕ) → Session → Type 0
IsVisible account tab browser s =
    (s.account_id ≡ account)
    × ((s.is_hibernated ≡ true) ⊎ (FitsTo tab s.tab_id × FitsTo browser s.browser_id))

fits-FitsTo :
    (filter : Option (Option ℕ)) (own : Option ℕ) → fits filter own ≡ true → FitsTo filter own
fits-FitsTo none own h w e = cc
fits-FitsTo (some v) own h w e = same-eq own v h ∙ ground arith

FitsTo-fits :
    (filter : Option (Option ℕ)) (own : Option ℕ) → FitsTo filter own → fits filter own ≡ true
FitsTo-fits none own h = refl
FitsTo-fits (some v) own h = rw (h v refl) (same_refl v)

is_listed_iff :
    (account : ℕ) (tab browser : Option (Option ℕ)) (s : Session)
    → (is_listed account tab browser s ≡ true) ↔ IsVisible account tab browser s
unfolding is_listed
is_listed_iff account tab browser s = (
  (λ h. (
    ground arith,
    elim (Bool-cases s.is_hibernated) [
      | inl y ↦ inl y
      | inr n ↦
          inr (
            fits-FitsTo tab s.tab_id (ground arith),
            fits-FitsTo browser s.browser_id (ground arith),
          )
    ],
  )),
  λ (own, how). elim how [
    | inl y ↦ ground arith
    | inr (a, b) ↦ ground (arith, FitsTo-fits tab s.tab_id a, FitsTo-fits browser s.browser_id b)
  ],
)

In-get_all_from :
    (account : ℕ) (tab browser : Option (Option ℕ)) (l : List (ℕ × Session)) (x : ℕ × Session)
    → In x (get_all_from account tab browser l)
      ↔ (In x l × (is_listed account tab browser x.1 ≡ true))
unfolding get_all_from
In-get_all_from account tab browser [] x = (λ h. elim h [ ], λ h. elim h.0 [ ])
In-get_all_from account tab browser ((id, s) ∷ l) x =
    let (to, from) = In-get_all_from account tab browser l x in
    let test = λ (y : ℕ × Session). is_listed account tab browser y.1 in
    elim (Bool-cases (is_listed account tab browser s)) [
      | inl y ↦ rw y (
        (λ h. elim h [ inl e ↦ (inl e, ap test e ∙ y) | inr i ↦ (inr (to i).0, (to i).1) ]),
        λ (h, t). elim h [ inl e ↦ inl e | inr i ↦ inr (from (i, t)) ],
      )
      | inr n ↦ rw n (
        (λ h. (inr (to h).0, (to h).1)),
        λ (h, t). elim h [
          | inl e ↦ absurd (false≢true (sym (ap test e ∙ n) ∙ t))
          | inr i ↦ from (i, t)
        ],
      )
    ]

-- `getAll` shows an account a session exactly if the registry has it, it is the account's own, and
-- it is hibernated or fits the tab and the browser that are asked for.
In-get_all :
    (account : ℕ) (tab browser : Option (Option ℕ)) (m : Manager) (id : ℕ) (s : Session)
    → In (id, s) (get_all account tab browser m)
      ↔ (In (id, s) m.sessions × IsVisible account tab browser s)
unfolding get_all
In-get_all account tab browser m id s =
    let (to, from) = In-get_all_from account tab browser m.sessions (id, s) in
    let (seen, shown) = is_listed_iff account tab browser s in
    ((λ h. ((to h).0, seen (to h).1)), λ h. from (h.0, shown h.1))
