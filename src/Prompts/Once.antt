-- ===== src/Prompts/Once.antt =====
-- A prompt is settled once.
use infram.Prelude.{
  ℕ, ◌+◌, ◌≡◌, ◌≤◌, refl, sym, inl, inr, Bool, none, some, List, [], ◌∷◌, ◌++◌, ◌==◌, get, get-set,
  get-delete, ap, ◌∙◌, ==_iff, answer_of, count, arith, Bool-cases, Option-cases, if◌then◌else◌, ok,
  err, is_some, any, destroy, ◌||◌, subst, true, false,
}
use infram.Prompts.{
  Outcome, Prompts, timed_out, clear_timer, settle, ask_account, outcome_of, answer_prompt, is_set,
  timer_fires,
}

-- How often the promise of a prompt has ended.
unfoldable pub times : ℕ → List (ℕ × Outcome) → ℕ
times id l = count (λ p. p.0 == id) l

-- The calls and the timers; a prompt is asked under an identifier that was never in use.
pub data Step (v : Prompts) : Prompts → Type 0 where
  asks :
      (account fresh : ℕ)
      → get fresh v.pending ≡ none
      → times fresh v.settled ≡ 0
      → Step v (ask_account account fresh v)
  answers :
      (account id : ℕ) (cancel : Bool) (reply : ℕ) {w : Prompts}
      → answer_prompt account id cancel reply v ≡ ok w
      → Step v w
  times_out : (id : ℕ) → is_set id v ≡ true → Step v (timer_fires id v)

pub data Reach (v : Prompts) : Prompts → Type 0 where
  here : Reach v v
  next : {w x : Prompts} → Reach v w → Step w x → Reach v x

abbrev pub nothing_asked : Prompts
nothing_asked = record { pending = []; timers = []; settled = [] }

-- Settled at most once, and not at all while it is open; and a timer is set exactly for an open one.
record IsOnce (v : Prompts) : Type 0 where
  pub once : (id : ℕ) → times id v.settled + (if is_some (get id v.pending) then 1 else 0) ≤ 1
  pub timed : (id : ℕ) → is_set id v ≡ is_some (get id v.pending)

any-append_one :
    (id k : ℕ) (l : List ℕ) → any (λ j. j == id) (l ++ k ∷ []) ≡ any (λ j. j == id) l || k == id
unfolding any
any-append_one id k [] = ground arith
any-append_one id k (j ∷ l) = ground (arith, any-append_one id k l)

any-destroy :
    (id k : ℕ) (l : List ℕ)
    → any (λ j. j == id) (destroy (λ j. j == k) l)
      ≡ (if k == id then false else any (λ j. j == id) l)
unfolding any destroy
any-destroy id k [] = ground arith
any-destroy id k (j ∷ l) = ground (arith, any-destroy id k l)

times-append :
    (id k : ℕ) (o : Outcome) (l : List (ℕ × Outcome))
    → times id (l ++ (k, o) ∷ []) ≡ times id l + (if k == id then 1 else 0)
unfolding times count
times-append id k o [] = ground arith
times-append id k o (p ∷ l) = ground (arith, times-append id k o l)

-- A prompt that is open is settled, with its timer cleared.
settle-IsOnce :
    (k account : ℕ) (o : Outcome) (v : Prompts)
    → get k v.pending ≡ some account
    → IsOnce v
    → IsOnce (settle k o v)
unfolding settle clear_timer
settle-IsOnce k account o v at i =
    rw (settle, clear_timer, at)
      (record {
        once = λ id.
            ground (arith, times-append id k o v.settled, get-delete k id v.pending, i.once id);
        timed =
            λ id. ground (arith, any-destroy id k v.timers, get-delete k id v.pending, i.timed id);
      })

destroy_twice :
    (k : ℕ) (l : List ℕ) → destroy (λ j. j == k) (destroy (λ j. j == k) l) ≡ destroy (λ j. j == k) l
unfolding destroy
destroy_twice k [] = refl
destroy_twice k (j ∷ l) = ground (arith, destroy_twice k l)

-- The timer of an open prompt settles it as its answer does.
timer_fires-open :
    (k account : ℕ) (v : Prompts)
    → get k v.pending ≡ some account
    → timer_fires k v ≡ settle k timed_out v
unfolding timer_fires settle clear_timer
timer_fires-open k account v at =
    rw (timer_fires, settle, clear_timer, at) (rw (destroy_twice k v.timers) refl)

answer_prompt_ok :
    (account id : ℕ) (cancel : Bool) (reply : ℕ) (v w : Prompts)
    → answer_prompt account id cancel reply v ≡ ok w
    → (get id v.pending ≡ some account) × (settle id (outcome_of cancel reply) v ≡ w)
unfolding answer_prompt
answer_prompt_ok account id cancel reply v w h = elim (Option-cases (get id v.pending)) [
  | inl e ↦ let x = rw (answer_prompt, e) at h in ground arith
  | inr (a, e) ↦ elim (Bool-cases (a == account)) [
    | inl y ↦
        let x = rw (answer_prompt, e, y) at h in
        (e ∙ ap some ((==_iff a account).0 y), ap (answer_of v) x)
    | inr ne ↦ let x = rw (answer_prompt, e, ne) at h in ground arith
  ]
]

Step-IsOnce : {v w : Prompts} → Step v w → IsOnce v → IsOnce w
unfolding ask_account
Step-IsOnce {v} (asks account fresh new never) i = record {
  once = λ id. ground (arith, get-set fresh id account v.pending, i.once id);
  timed = λ id.
      ground
        (arith, any-append_one id fresh v.timers, get-set fresh id account v.pending, i.timed id);
}
Step-IsOnce {v} (answers account id cancel reply {w} h) i =
    let (at, e) = answer_prompt_ok account id cancel reply v w h in
    rw (sym e) (settle-IsOnce id account (outcome_of cancel reply) v at i)
Step-IsOnce {v} (times_out id armed) i = elim (Option-cases (get id v.pending)) [
  | inl e ↦ let bad = i.timed id in ground arith
  | inr (a, e) ↦ subst IsOnce (sym (timer_fires-open id a v e)) (settle-IsOnce id a timed_out v e i)
]

nothing-IsOnce : IsOnce nothing_asked
unfolding times count get any
nothing-IsOnce = record { once = λ id. omega arith; timed = λ id. refl }

reached-IsOnce : {v w : Prompts} → IsOnce v → Reach v w → IsOnce w
reached-IsOnce once here = once
reached-IsOnce once (next r st) = Step-IsOnce st (reached-IsOnce once r)

-- Whatever prompts are asked, answered, cancelled and timed out, in any order: no prompt is settled
-- twice; once a prompt is settled, any answer to it is refused with 404 and no timer of it is set;
-- and as long as a prompt is open, its timer is set.
pub Reach-settled_once :
    {v : Prompts} (account id : ℕ) (cancel : Bool) (reply : ℕ)
    → Reach nothing_asked v
    → (times id v.settled ≤ 1)
      × (1 ≤ times id v.settled
          → (answer_prompt account id cancel reply v ≡ err 404) × (is_set id v ≡ false))
      × (is_some (get id v.pending) ≡ true → is_set id v ≡ true)
unfolding answer_prompt
Reach-settled_once {v} account id cancel reply r =
    let i = reached-IsOnce nothing-IsOnce r in
    let once = i.once id in
    let timed = i.timed id in
    (
      omega (arith, once),
      λ h.
          let closed : get id v.pending ≡ none = elim (Option-cases (get id v.pending)) [
            | inl e ↦ e
            | inr (a, e) ↦ let x = rw e at once in ground arith
          ] in
          (rw (answer_prompt, closed) refl, timed ∙ ap is_some closed),
      λ open_one. timed ∙ open_one,
    )
