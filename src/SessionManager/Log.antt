-- ===== src/SessionManager/Log.antt =====
-- server/lib/SessionManager.js: the log buffer that a rejoining client is sent, and the recording.
pub mod Window
use infram.Prelude.{
  ℕ, zero, suc, ◌-◌, ◌*◌, Bool, true, false, ◌&&◌, Option, none, some, List, [], ◌∷◌, ◌++◌, ◌==◌,
  if◌then◌else◌, ltb, length,
}
use infram.SessionManager.{
  CastEvent, header, resized, output, Recording, Session, Manager, find, change,
}

-- `MAX_LOG_BUFFER_SIZE`, in characters.
abbrev pub max_log_buffer_size : ℕ
max_log_buffer_size = 200 * 1024

unfoldable pub drop : ℕ → List ℕ → List ℕ
drop zero xs = xs
drop (suc n) [] = []
drop (suc n) (x ∷ xs) = drop n xs

-- `buffer.slice(-n)`
unfoldable pub take_last : ℕ → List ℕ → List ℕ
unfolding drop
take_last n xs = drop (length xs - n) xs

-- `appendLog` for a buffer of at most `limit` characters.
unfoldable pub append_bounded : ℕ → List ℕ → List ℕ → List ℕ
unfolding take_last
append_bounded limit buffer chunk =
    let whole = buffer ++ chunk in if ltb limit (length whole) then take_last limit whole else whole

-- Elapsed times are kept in milliseconds; the file has them divided by 1000.
abbrev pub write : CastEvent → Recording → Recording
write e r = record r { written = r.written ++ e ∷ [] }

abbrev on_recording : (Recording → Recording) → Option Recording → Option Recording
on_recording f none = none
on_recording f (some r) = some (f r)

unfoldable pub logged : List ℕ → (now : ℕ) → Session → Session
unfolding append_bounded
logged chunk now s = record s {
  log_buffer = append_bounded max_log_buffer_size s.log_buffer chunk;
  recording = on_recording (λ r. write (output (now - r.start_time) chunk) r) s.recording;
}

unfoldable pub append_log : (id : ℕ) → List ℕ → (now : ℕ) → Manager → Manager
unfolding logged
append_log id chunk now m = change id (logged chunk now) m

unfoldable pub get_log_buffer : ℕ → Manager → List ℕ
get_log_buffer id m = elim (find id m) [ none ↦ [] | some s ↦ s.log_buffer ]

-- `initRecording`, once `isRecordingEnabled` has answered.
unfoldable pub init_recording :
    (id : ℕ) (enabled : Bool) (cols rows now : ℕ) → Manager → Manager × Bool
init_recording id enabled cols rows now m = elim (find id m) [
  | none ↦ (m, false)
  | some s ↦ elim s.audit_log_id [
    | none ↦ (m, false)
    | some audit ↦
        if enabled
        then (
          change id
              (λ t. record t {
                recording = some (record {
                  start_time = now;
                  cols = cols;
                  rows = rows;
                  written = header cols rows ∷ [];
                });
              })
              m,
          true,
        )
        else (m, false)
  ]
]

unfoldable pub resize : (cols rows now : ℕ) → Recording → Recording
resize cols rows now r =
    if r.cols == cols && r.rows == rows
    then r
    else write (resized (now - r.start_time) cols rows) (record r { cols = cols; rows = rows })

unfoldable pub record_resize : (id cols rows now : ℕ) → Manager → Manager
unfolding resize
record_resize id cols rows now m =
    change id (λ s. record s { recording = on_recording (resize cols rows now) s.recording }) m
