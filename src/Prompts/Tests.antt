-- ===== src/Prompts/Tests.antt =====
-- The theorem on prompts at a concrete one, and an answer of somebody else.
use infram.Prelude.{◌≤◌, is_some, [], ◌∷◌, ◌≡◌, refl, true, false, err, get, set, count}
use infram.Prompts.{
  Prompts, timed_out, clear_timer, is_set, answered, settle, ask_account, answer_prompt,
  timer_fires,
}
use infram.Prompts.Once.{times, Reach, here, next, asks, answers, nothing_asked, Reach-settled_once}

abbrev asked : Prompts
asked = ask_account 4 7 nothing_asked

abbrev done : Prompts
done = settle 7 (answered 123) asked

done-Reach : Reach nothing_asked done
unfolding ask_account answer_prompt get set times count
done-Reach = next (next here (asks 4 7 refl refl)) (answers 4 7 false 123 refl)

Reach-settled_once_example :
    (times 7 done.settled ≤ 1)
    × (1 ≤ times 7 done.settled
        → (answer_prompt 4 7 true 0 done ≡ err 404) × (is_set 7 done ≡ false))
    × (is_some (get 7 done.pending) ≡ true → is_set 7 done ≡ true)
Reach-settled_once_example = Reach-settled_once 4 7 true 0 done-Reach

-- An unanswered prompt times out.
timed_out_once : (timer_fires 7 asked).settled ≡ (7, timed_out) ∷ []
unfolding ask_account timer_fires settle clear_timer get set
timed_out_once = refl

not_asked : answer_prompt 5 7 false 123 asked ≡ err 404
unfolding ask_account answer_prompt get set
not_asked = refl
