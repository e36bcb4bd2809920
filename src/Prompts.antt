-- ===== src/Prompts.antt =====
-- server/utils/connectionPrompts.js: questions to an account while a connection is opened, such as
-- for a one-time code. Answers are kept as the numbers that stand for them.
pub mod Once
mod Tests
use infram.Prelude.{
  ℕ, Bool, true, false, Option, none, some, List, [], ◌∷◌, ◌++◌, ◌==◌, get, set, delete, destroy,
  any, Result, ok, err, or_err, guard, ◌>>=◌, ◌>>◌,
}

-- How the promise of `askAccount` ends.
pub data Outcome : Type 0 where
  answered : (answers : ℕ) → Outcome
  cancelled timed_out : Outcome

-- The open prompts with their accounts, the prompts whose timer is set, and the promises that have
-- ended, in this order. A prompt's timer is known by the prompt's identifier.
pub record Prompts : Type 0 where
  pub pending : List (ℕ × ℕ)
  pub timers : List ℕ
  pub settled : List (ℕ × Outcome)

-- `clearTimeout(pending.get(id)?.timer)`
unfoldable pub clear_timer : (id : ℕ) → Prompts → Prompts
clear_timer id v = elim (get id v.pending) [
  | none ↦ v
  | some account ↦ record v { timers = destroy (λ k. k == id) v.timers }
]

unfoldable pub settle : (id : ℕ) → Outcome → Prompts → Prompts
unfolding clear_timer
settle id outcome v =
    let w = clear_timer id v in
    record w { pending = delete id w.pending; settled = w.settled ++ (id, outcome) ∷ [] }

-- `fresh` is the identifier drawn from `crypto.randomUUID`.
unfoldable pub ask_account : (account fresh : ℕ) → Prompts → Prompts
ask_account account fresh v = record v {
  pending = set fresh account v.pending;
  timers = v.timers ++ fresh ∷ [];
}

abbrev pub outcome_of : (cancel : Bool) → (answers : ℕ) → Outcome
outcome_of true answers = cancelled
outcome_of false answers = answered answers

unfoldable pub answer_prompt :
    (account id : ℕ) → (cancel : Bool) → (answers : ℕ) → Prompts → Result Prompts
answer_prompt account id cancel answers v = do
  asked ← or_err (get id v.pending) 404
  guard (asked == account) 404
  ok (settle id (outcome_of cancel answers) v)

abbrev pub is_set : (id : ℕ) → Prompts → Bool
is_set id v = any (λ k. k == id) v.timers

-- The runtime fires a timer that is set, which is set no more, and calls `settle`.
unfoldable pub timer_fires : (id : ℕ) → Prompts → Prompts
unfolding settle
timer_fires id v = settle id timed_out (record v { timers = destroy (λ k. k == id) v.timers })
