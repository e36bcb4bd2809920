-- ===== src/Guacd/Data.antt =====
-- What GuacdClient does with the data of guacd: the handshake, and the instructions that it passes on.
-- The regular expressions are functions that match at the start of a text; none of them can match
-- a shorter run of digits, since a character that is no digit follows. An exception of the
-- socket's `write` is not modelled.
use infram.Prelude.{
  ℕ, zero, suc, ◌-◌, ◌+◌, Bool, true, false, ◌&&◌, Option, none, some, List, [], ◌∷◌, ◌++◌, ◌/◌,
  if◌then◌else◌, is_none,
}
use infram.Texts.{
  Text, codes, behind, includes, cut_first, cut_last, split, leading_digits, number_of,
}
use infram.Guacd.{
  GuacdClient, Run, State, opened, text, forwards, becomes_ready, does, handle_close, send_op_code,
  send_each, recorded, replies,
}

-- A number that ends with `.`, and the text behind it.
unfoldable pub after_number : Text → Option Text
after_number s =
    let parts = leading_digits s in elim parts.0 [ [] ↦ none | c ∷ ds ↦ behind (codes ".") parts.1 ]

-- Not empty, and up to the character.
unfoldable pub up_to : ℕ → Text → Option Text
up_to k s = elim (cut_first k s) [
  | none ↦ none
  | some parts ↦ elim parts.0 [ [] ↦ none | c ∷ rest ↦ some (c ∷ rest) ]
]

infixl 5 ◌then_◌
abbrev ◌then_◌ {ℓ} : {A : Type ℓ} → Option Text → (Text → Option A) → Option A
none then_ f = none
some s then_ f = f s

-- `\d+\.error,(\d+)\.([^,]+),`, the second group.
unfoldable pub error_at : Text → Option Text
error_at s = (after_number s then_ behind (codes "error,")) then_ after_number then_ up_to b','

-- `5\.ready,(\d+)\.([^;]+);`, the second group.
unfoldable pub ready_at : Text → Option Text
ready_at s = (behind (codes "5.ready,") s then_ after_number) then_ up_to b';'

-- The first place of a text that matches.
unfoldable pub first_match : (Text → Option Text) → Text → Option Text
first_match at [] = at []
first_match at (c ∷ s) =
    let later = first_match at s in elim (at (c ∷ s)) [ none ↦ later | some m ↦ some m ]

-- `4\.sync,\d+\.(\d+)`: the number, and what is left behind the match.
unfoldable pub sync_at : Text → Option (ℕ × Text)
sync_at s = (behind (codes "4.sync,") s then_ after_number) then_ λ t.
    let parts = leading_digits t in
    elim parts.0 [ [] ↦ none | c ∷ ds ↦ some (number_of (c ∷ ds) 0, parts.1) ]

abbrev size : Text → ℕ
size [] = 0
size (c ∷ s) = suc (size s)

-- All matches, each behind the one before: so many characters of the last match are to be skipped.
unfoldable pub syncs_from : (skip : ℕ) → Text → List ℕ
syncs_from skip [] = []
syncs_from (suc skip) (c ∷ s) = syncs_from skip s
syncs_from zero (c ∷ s) = elim (sync_at (c ∷ s)) [
  | none ↦ syncs_from zero s
  | some m ↦ m.0 ∷ syncs_from (size s - size m.1) s
]

abbrev or_this : Option ℕ → ℕ → ℕ
or_this none t = t
or_this (some n) t = n

unfoldable pub note_syncs : List ℕ → GuacdClient → GuacdClient
note_syncs [] c = c
note_syncs (t ∷ ts) c = note_syncs ts (record c {
  first_sync_timestamp = some (or_this c.first_sync_timestamp t);
  last_sync_timestamp = some t;
})

abbrev pub on_client : (GuacdClient → GuacdClient) → Run → Run
on_client f r = record r { client = f r.client }

abbrev pub ready_of : GuacdClient → Text → Option Text
ready_of c chunk =
    if c.is_master && is_none c.guacd_connection_id && includes (codes "5.ready") chunk
    then first_match ready_at chunk
    else none

unfoldable pub note_ready : Text → Run → Run
note_ready chunk r = elim (ready_of r.client chunk) [
  | none ↦ r
  | some id ↦
      does (becomes_ready id ∷ []) (on_client (λ c. record c { guacd_connection_id = some id }) r)
]

unfoldable pub note_sync : Text → Run → Run
note_sync chunk r =
    if r.client.is_master && r.client.recording_enabled && includes (codes ".sync,") chunk
    then on_client (note_syncs (syncs_from 0 chunk)) r
    else r

unfoldable pub error_of : Text → Option Text
error_of chunk = if includes (codes ".error,") chunk then first_match error_at chunk else none

unfoldable pub pass_on : Text → Run → Run
pass_on chunk r = elim (error_of chunk) [
  | some message ↦ handle_close (codes "error: " ++ message) r
  | none ↦ does (forwards chunk ∷ []) (note_sync chunk (note_ready chunk r))
]

unfoldable pub process_data : Run → Run
process_data r = elim (cut_last b';' r.client.received_buffer) [
  | none ↦ r
  | some parts ↦ pass_on parts.0 (on_client (λ c. record c { received_buffer = parts.1 }) r)
]

-- The server's handshake, and what came behind it.
unfoldable pub complete_handshake : (handshake rest : Text) → Run → Run
complete_handshake handshake rest r =
    let conn = recorded r.client in
    let c = record r.client { received_buffer = rest; connection = conn } in
    let s = send_each (replies c conn (split b',' handshake)) (record r { client = c }) in
    process_data (on_client (λ c. record c { handshake_complete = true; state = opened }) s)

-- The bytes that an event brings. `decode` is what `+=` makes of them, by the runtime's decoder of
-- UTF-8: each event's bytes are decoded alone, so that a character which is cut between two events
-- is lost.
abbrev pub Buffer : Type 0
Buffer = List ℕ

-- The listener of the socket's `data`, which is taken off when the client closes.
unfoldable pub receive : (decode : Buffer → Text) → Buffer → Run → Run
receive decode bytes r =
    let s = on_client (λ c. record c { received_buffer = c.received_buffer ++ decode bytes }) r in
    if s.client.handshake_complete
    then process_data s
    else elim (cut_first b';' s.client.received_buffer) [
      | none ↦ s
      | some parts ↦ complete_handshake parts.0 parts.1 s
    ]

unfoldable pub on_data : (decode : Buffer → Text) → Buffer → Run → Run
on_data decode bytes r = if r.client.connected then receive decode bytes r else r

unfoldable pub feed : (decode : Buffer → Text) → List Buffer → Run → Run
feed decode [] r = r
feed decode (d ∷ ds) r = feed decode ds (on_data decode d r)

-- `getRecordingDuration`, in seconds, rounded to the nearest; the stamps of guacd do not fall.
unfoldable pub get_recording_duration : GuacdClient → Option ℕ
get_recording_duration c = elim c.first_sync_timestamp [
  | none ↦ none
  | some first ↦ elim c.last_sync_timestamp [
    | none ↦ none
    | some last ↦ some ((last - first + 500) / 1000)
  ]
]

abbrev is_open : State → Bool
is_open opened = true
is_open _ = false

-- The first instruction, and the one that keeps the connection alive.
unfoldable pub on_connect : Run → Run
on_connect r = elim r.client.join_connection_id [
  | some id ↦ send_op_code (text (codes "select") ∷ text id ∷ []) r
  | none ↦ send_op_code (text (codes "select") ∷ text r.client.connection_type ∷ []) r
]

unfoldable pub keep_alive : Run → Run
keep_alive r = if is_open r.client.state then send_op_code (text (codes "nop") ∷ []) r else r
