-- ===== src/Guacd/Stream.antt =====
-- The stream of guacd's data as a whole.
use infram.Prelude.{◌≡◌, true, false, List, [], ◌∷◌, ◌++◌}
use infram.Texts.{Text, has_char}
use infram.Guacd.{Run}
use infram.Guacd.Data.{Buffer, on_client}
use infram.Guacd.Forwarding.{forwarded, Live}

-- What was passed on and what is kept back, which holds no end of an instruction.
record Kept (r s : Run) : Type 0 where
  pub all :
      forwarded s.effects ++ s.client.received_buffer
      ≡ forwarded r.effects ++ r.client.received_buffer
  pub unfinished : has_char b';' s.client.received_buffer ≡ false
  pub live : Live s
  pub handshake : s.client.handshake_complete ≡ r.client.handshake_complete

-- Where the stream that has come in stands: in the handshake, or behind it. Behind it, everything
-- but the handshake was passed on, in order, or is the unfinished rest.
pub data Stands (seen : Text) (r : Run) : Type 0 where
  before_handshake :
      r.client.handshake_complete ≡ false
      → forwarded r.effects ≡ []
      → r.client.received_buffer ≡ seen
      → has_char b';' seen ≡ false
      → Stands seen r
  behind_handshake :
      (handshake : Text)
      → r.client.handshake_complete ≡ true
      → has_char b';' handshake ≡ false
      → seen ≡ handshake ++ b';' ∷ (forwarded r.effects ++ r.client.received_buffer)
      → has_char b';' r.client.received_buffer ≡ false
      → Stands seen r

buffered : (chunk : Text) → Run → Run
buffered chunk r = on_client (λ c. record c { received_buffer = c.received_buffer ++ chunk }) r

-- The text of the events, each of them decoded alone.
abbrev pub whole : (decode : Buffer → Text) → List Buffer → Text
whole decode [] = []
whole decode (d ∷ ds) = decode d ++ whole decode ds
