-- ===== src/SessionManager/Log/Window.antt =====
-- The log buffer is a window on the end of all output.
use infram.Prelude.{
  ℕ, zero, suc, ◌+◌, ◌-◌, ◌≤◌, ◌≡◌, refl, sym, ap, ◌∙◌, inl, inr, some, List, [], ◌∷◌, ◌++◌, ltb,
  length, length-append, arith, Bool-cases,
}
use infram.SessionManager.{Session, Manager, find}
use infram.SessionManager.Invariant.{find-change_self}
use infram.SessionManager.Log.{
  drop, take_last, append_bounded, logged, append_log, get_log_buffer, max_log_buffer_size,
}
use mathlib.Core.List.{append_assoc, append-nil}
use native.Mathlib.Nat.{zero-add, suc-add}

length-drop : (n : ℕ) (xs : List ℕ) → length (drop n xs) ≡ length xs - n
unfolding drop
length-drop zero xs = omega arith
length-drop (suc n) [] = omega arith
length-drop (suc n) (x ∷ xs) = omega (arith, length-drop n xs)

drop-nil : (n : ℕ) → drop n [] ≡ []
unfolding drop
drop-nil zero = refl
drop-nil (suc n) = refl

drop-add : (i j : ℕ) (xs : List ℕ) → drop j (drop i xs) ≡ drop (i + j) xs
unfolding drop
drop-add zero j xs = rw (zero-add j)
drop-add (suc i) j [] = rw (drop-nil j, drop-nil (suc i + j))
drop-add (suc i) j (x ∷ xs) = rw suc-add (drop-add i j xs)

drop-append : (i : ℕ) (xs ys : List ℕ) → i ≤ length xs → drop i (xs ++ ys) ≡ drop i xs ++ ys
unfolding drop
drop-append zero xs ys h = refl
drop-append (suc i) [] ys h = absurd (omega arith)
drop-append (suc i) (x ∷ xs) ys h = drop-append i xs ys (omega arith)

take_last-append : (n : ℕ) (a b : List ℕ) → take_last n (take_last n a ++ b) ≡ take_last n (a ++ b)
unfolding take_last
take_last-append n a b =
    let i = length a - n in
    let s = drop i a ++ b in
    let joined : s ≡ drop i (a ++ b) = sym (drop-append i a b (omega arith)) in
    let skipped : i + (length s - n) ≡ length (a ++ b) - n =
      omega (arith, length-append (drop i a) b, length-append a b, length-drop i a) in
    ap (drop (length s - n)) joined
    ∙ (drop-add i (length s - n) (a ++ b) ∙ ap (λ k. drop k (a ++ b)) skipped)

append_bounded_lem :
    (limit : ℕ) (b c : List ℕ) → append_bounded limit b c ≡ take_last limit (b ++ c)
unfolding append_bounded drop
append_bounded_lem limit b c = elim (Bool-cases (ltb limit (length (b ++ c)))) [
  | inl over ↦ rw over
  | inr fits ↦ rw fits (let e : length (b ++ c) - limit ≡ 0 = ground arith in rw e)
]

-- The buffer never holds more than its limit.
pub length-append_bounded-le :
    (limit : ℕ) (b c : List ℕ) → length (append_bounded limit b c) ≤ limit
unfolding take_last
length-append_bounded-le limit b c =
    rw (append_bounded_lem limit b c)
      (omega (arith, length-drop (length (b ++ c) - limit) (b ++ c)))

-- `appendLog` for a sequence of chunks, each with its time.
pub append_logs : ℕ → List (ℕ × List ℕ) → Manager → Manager
append_logs id [] m = m
append_logs id ((now, c) ∷ cs) m = append_logs id cs (append_log id c now m)

abbrev pub all_output : List (ℕ × List ℕ) → List ℕ
all_output [] = []
all_output ((now, c) ∷ cs) = c ++ all_output cs

append_all : ℕ → List (ℕ × List ℕ) → List ℕ → List ℕ
append_all limit [] b = b
append_all limit ((now, c) ∷ cs) b = append_all limit cs (append_bounded limit b c)

append_all_lem :
    (limit now : ℕ) (c : List ℕ) (cs : List (ℕ × List ℕ)) (b : List ℕ)
    → append_all limit ((now, c) ∷ cs) b ≡ take_last limit (b ++ all_output ((now, c) ∷ cs))
unfolding append_all
append_all_lem limit now c [] b =
    append_bounded_lem limit b c ∙ ap (λ t. take_last limit (b ++ t)) (sym (append-nil c))
append_all_lem limit now c ((later, d) ∷ cs) b =
    append_all_lem limit later d cs (append_bounded limit b c)
    ∙ (ap (λ t. take_last limit (t ++ all_output ((later, d) ∷ cs))) (append_bounded_lem limit b c)
        ∙ (take_last-append limit (b ++ c) (all_output ((later, d) ∷ cs))
            ∙ ap (take_last limit) (append_assoc b c (all_output ((later, d) ∷ cs)))))

get_log_buffer_lem :
    (id : ℕ) (m : Manager) (s : Session) → find id m ≡ some s → get_log_buffer id m ≡ s.log_buffer
unfolding get_log_buffer
get_log_buffer_lem id m s h = rw (h, get_log_buffer)

get_log_buffer-append_logs_all :
    (id : ℕ) (cs : List (ℕ × List ℕ)) (m : Manager) (s : Session)
    → find id m ≡ some s
    → get_log_buffer id (append_logs id cs m) ≡ append_all max_log_buffer_size cs s.log_buffer
unfolding append_logs append_all append_log
get_log_buffer-append_logs_all id [] m s h = get_log_buffer_lem id m s h
get_log_buffer-append_logs_all id ((now, c) ∷ cs) m s h =
    get_log_buffer-append_logs_all id cs (append_log id c now m) (logged c now s)
      (find-change_self id (logged c now) m s h)

-- After any positive number of chunks, the buffer of a known session is the end of what it was
-- with all of the chunks behind it: as many characters as the limit allows, or all.
pub get_log_buffer-append_logs :
    (id now : ℕ) (c : List ℕ) (cs : List (ℕ × List ℕ)) (m : Manager) (s : Session)
    → find id m ≡ some s
    → get_log_buffer id (append_logs id ((now, c) ∷ cs) m)
      ≡ take_last max_log_buffer_size (get_log_buffer id m ++ all_output ((now, c) ∷ cs))
get_log_buffer-append_logs id now c cs m s h =
    get_log_buffer-append_logs_all id ((now, c) ∷ cs) m s h
    ∙ (append_all_lem max_log_buffer_size now c cs s.log_buffer
        ∙ ap (λ b. take_last max_log_buffer_size (b ++ all_output ((now, c) ∷ cs)))
            (sym (get_log_buffer_lem id m s h)))
