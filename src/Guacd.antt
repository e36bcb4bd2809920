-- ===== src/Guacd.antt =====
-- server/lib/GuacdClient.js: the client of the guacd daemon, which turns desktop protocols into
-- Guacamole instructions. Texts are lists of UTF-16 code units, as `length` counts them. What the
-- client does to the socket, to the registry and by its callbacks is a list of effects.
pub mod Data
pub mod Framing
pub mod Forwarding
pub mod Stream
mod Tests
use infram.Prelude.{
  ℕ, ◌-◌, ◌+◌, ◌/◌, Bool, true, false, not, ◌&&◌, ◌||◌, Option, none, some, List, [], ◌∷◌, ◌++◌,
  ◌==◌, if◌then◌else◌, length, map,
}
use infram.Texts.{
  Text, codes, text_eq, behind, includes, has_char, cut_first, cut_last, split, decimal,
  leading_digits, number_of,
}

-- A part of an instruction, or a setting of the connection.
pub data Value : Type 0 where
  null : Value
  number : ℕ → Value
  text : Text → Value

pub data State : Type 0 where
  connecting opened closed : State

pub data Effect : Type 0 where
  writes : Text → Effect
  forwards : Text → Effect
  becomes_ready : (connection_id : Text) → Effect
  closes : (reason : Text) → Effect
  reports_closed : (reason : Text) → Effect

-- `recordings_dir` is RECORDINGS_DIR; `connected` tells whether the socket is there.
pub record GuacdClient : Type 0 where
  pub connection : List (Text × Value)
  pub enable_audio : Bool
  pub join_connection_id : Option Text
  pub connection_type : Text
  pub is_master : Bool
  pub recording_enabled : Bool
  pub audit_log_id : Option ℕ
  pub recordings_dir : Text
  pub guacd_connection_id : Option Text
  pub first_sync_timestamp : Option ℕ
  pub last_sync_timestamp : Option ℕ
  pub state : State
  pub handshake_complete : Bool
  pub received_buffer : Text
  pub connected : Bool

-- `p === null ? '' : String(p)`
abbrev pub shown : Value → Text
shown null = []
shown (number n) = decimal n
shown (text s) = s

unfoldable pub element : Text → Text
element s = decimal (length s) ++ b'.' ∷ s

unfoldable pub joined : Text → List Text → Text
joined s [] = s
joined s (t ∷ ts) = s ++ b',' ∷ joined t ts

-- `parts.map(…).join(',') + ';'`
unfoldable pub op_code : List Value → Text
op_code [] = b';' ∷ []
op_code (p ∷ ps) = joined (element (shown p)) (map (λ q. element (shown q)) ps) ++ b';' ∷ []

-- The client, and what has happened so far.
pub record Run : Type 0 where
  pub client : GuacdClient
  pub effects : List Effect

abbrev pub does : List Effect → Run → Run
does es r = record r { effects = r.effects ++ es }

abbrev pub is_closed : State → Bool
is_closed closed = true
is_closed _ = false

abbrev pub writable : GuacdClient → Bool
writable c = not (is_closed c.state) && c.connected

unfoldable pub send : Text → Run → Run
send s r = if writable r.client then does (writes s ∷ []) r else r

unfoldable pub send_op_code : List Value → Run → Run
send_op_code parts r = send (op_code parts) r

-- `handleClose` with `cleanup`, which takes the listeners off the socket.
unfoldable pub handle_close : (reason : Text) → Run → Run
handle_close reason r = if is_closed r.client.state then r else record {
  client = record r.client { state = closed; connected = false };
  effects =
      r.effects ++ closes reason ∷ (if r.client.is_master then reports_closed reason ∷ [] else []);
}

unfoldable pub setting : Text → List (Text × Value) → Option Value
setting name [] = none
setting name ((key, v) ∷ rest) = if text_eq key name then some v else setting name rest

unfoldable pub set_setting : Text → Value → List (Text × Value) → List (Text × Value)
set_setting name v [] = (name, v) ∷ []
set_setting name v ((key, w) ∷ rest) =
    if text_eq key name then (key, v) ∷ rest else (key, w) ∷ set_setting name v rest

-- `conn[name] !== undefined ? conn[name] : ''`
abbrev pub argument : Option Value → Value
argument none = text []
argument (some v) = v

abbrev is_falsy : Value → Bool
is_falsy null = true
is_falsy (number n) = n == 0
is_falsy (text []) = true
is_falsy (text (c ∷ s)) = false

-- `conn.width || 1024`
abbrev value_or : ℕ → Option Value → Value
value_or n none = number n
value_or n (some v) = if is_falsy v then number n else v

-- `attr.substring(attr.indexOf('.') + 1)`
abbrev name_of : Text → Text
name_of attr = elim (cut_first b'.' attr) [ none ↦ attr | some parts ↦ parts.1 ]

abbrev tail : List Text → List Text
tail [] = []
tail (a ∷ rest) = rest

abbrev pub arguments : Option Text → List (Text × Value) → List Text → List Value
arguments (some join) conn names = map (λ a. text []) names
arguments none conn names = map (λ a. argument (setting (name_of a) conn)) names

-- The settings of a recording.
unfoldable pub recorded : GuacdClient → List (Text × Value)
recorded c =
    if not (c.recording_enabled && c.is_master) then c.connection else elim c.audit_log_id [
      | none ↦ c.connection
      | some id ↦ set_setting (codes "create-recording-path") (text (codes "true")) (
          set_setting (codes "recording-name") (text (decimal id))
            (set_setting (codes "recording-path") (text c.recordings_dir) c.connection))
    ]

abbrev audio : Bool → List Value
audio true = text (codes "audio/L8") ∷ text (codes "audio/L16") ∷ []
audio false = []

-- The instructions that answer the server's handshake, whose attributes are given.
unfoldable pub replies : GuacdClient → (conn : List (Text × Value)) → List Text → List (List Value)
replies c conn attributes =
    (text (codes "size")
      ∷ value_or 1024 (setting (codes "width") conn)
      ∷ value_or 768 (setting (codes "height") conn)
      ∷ value_or 96 (setting (codes "dpi") conn)
      ∷ [])
    ∷ (text (codes "audio") ∷ audio c.enable_audio)
    ∷ (text (codes "video") ∷ [])
    ∷ (text (codes "image") ∷ [])
    ∷ (text (codes "connect") ∷ arguments c.join_connection_id conn (tail attributes))
    ∷ []

unfoldable pub send_each : List (List Value) → Run → Run
send_each [] r = r
send_each (parts ∷ more) r = send_each more (send_op_code parts r)
