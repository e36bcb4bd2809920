-- ===== src/Guacd/Tests.antt =====
-- The theorems on the client of guacd at concrete inputs.
use infram.Prelude.{any, ◌≡◌, refl, true, false, none, some, [], ◌∷◌, ◌++◌, List, map, arith}
use infram.Texts.{
  leading_digits, number_of, decimal, digits, Text, codes, cut_first, cut_last, behind, includes,
}
use infram.Guacd.{
  joined, element, Run, text, number, connecting, shown, op_code, send_each, send_op_code, send,
  replies,
}
use infram.Guacd.Data.{
  Buffer, feed, on_data, receive, complete_handshake, process_data, pass_on, note_ready, note_sync,
  error_of,
}
use infram.Guacd.Framing.{
  take_exactly, onto, read_element, read_instruction, read_instruction-op_code,
}
use infram.Guacd.Forwarding.{forwarded}

-- The text has a comma and a semicolon in it.
read_instruction-op_code_example :
    read_instruction 3
      (op_code (text (codes "size") ∷ number 1024 ∷ text (codes "a,b;") ∷ []) ++ codes "3.nop;")
    ≡ some
        (map shown (text (codes "size") ∷ number 1024 ∷ text (codes "a,b;") ∷ []), codes "3.nop;")
unfolding any decimal digits
read_instruction-op_code_example =
    read_instruction-op_code (text (codes "size")) (number 1024 ∷ text (codes "a,b;") ∷ [])
      (codes "3.nop;") 3 (omega arith) refl

abbrev fresh : Run
fresh = record {
  client = record {
    connection = (codes "hostname", text (codes "10.0.0.9")) ∷ [];
    enable_audio = true;
    join_connection_id = none;
    connection_type = codes "rdp";
    is_master = false;
    recording_enabled = false;
    audit_log_id = none;
    recordings_dir = codes "/data/recordings";
    guacd_connection_id = none;
    first_sync_timestamp = none;
    last_sync_timestamp = none;
    state = connecting;
    handshake_complete = false;
    received_buffer = [];
    connected = true;
  };
  effects = [];
}

-- A decoder that knows the characters of one byte.
abbrev latin : Buffer → Text
latin bytes = bytes

abbrev chunks : List Buffer
chunks = codes "4.args,8.host" ∷ codes "name;4.sy" ∷ codes "nc,2.17;3." ∷ []

passed_on : forwarded (feed latin chunks fresh).effects ≡ codes "4.sync,2.17;"
unfolding feed on_data receive cut_first cut_last complete_handshake send_each send_op_code send
    process_data pass_on error_of note_ready note_sync includes replies behind
passed_on = refl

-- U+1F600 is written with the length 2, so that a reader of characters takes the semicolon for a
-- part of it.
astral : read_instruction 1 (op_code (text (55357 ∷ 56832 ∷ []) ∷ [])) ≡ none
unfolding read_instruction read_element take_exactly onto op_code joined element behind
    leading_digits decimal digits number_of
astral = refl
