-- ===== src/Guacd/Forwarding.antt =====
-- What the client passes on to the browser, however guacd's data is cut into pieces.
use infram.Prelude.{
  ℕ, ◌≡◌, refl, sym, ap, ◌∙◌, ◌⊎◌, inl, inr, true, false, ◌&&◌, some, List, [], ◌∷◌, ◌++◌,
  Bool-cases, Option-cases,
}
use mathlib.Core.List.{append_assoc, append-nil}
use infram.Texts.{Text, codes, includes}
use infram.Guacd.{
  Run, Effect, Value, writes, forwards, becomes_ready, closes, reports_closed, is_closed, writable,
  does, send, send_op_code, send_each, handle_close, op_code,
}
use infram.Guacd.Data.{
  on_client, ready_of, note_ready, note_syncs, note_sync, syncs_from, error_of, pass_on,
}

-- All that was passed on.
abbrev pub forwarded : List Effect → Text
forwarded [] = []
forwarded (forwards s ∷ es) = s ++ forwarded es
forwarded (writes s ∷ es) = forwarded es
forwarded (becomes_ready i ∷ es) = forwarded es
forwarded (closes i ∷ es) = forwarded es
forwarded (reports_closed i ∷ es) = forwarded es

forwarded-append : (es more : List Effect) → forwarded (es ++ more) ≡ forwarded es ++ forwarded more
forwarded-append [] more = refl
forwarded-append (forwards s ∷ es) more =
    ap (◌++◌ s) (forwarded-append es more) ∙ sym (append_assoc s (forwarded es) (forwarded more))
forwarded-append (writes s ∷ es) more = forwarded-append es more
forwarded-append (becomes_ready i ∷ es) more = forwarded-append es more
forwarded-append (closes i ∷ es) more = forwarded-append es more
forwarded-append (reports_closed i ∷ es) more = forwarded-append es more

-- What the steps between leave as it is.
pub record Same (r s : Run) : Type 0 where
  pub passed : forwarded s.effects ≡ forwarded r.effects
  pub buffer : s.client.received_buffer ≡ r.client.received_buffer
  pub connected : s.client.connected ≡ r.client.connected
  pub state : is_closed s.client.state ≡ is_closed r.client.state
  pub handshake : s.client.handshake_complete ≡ r.client.handshake_complete

Same-refl : (r : Run) → Same r r
Same-refl r = record {
  passed = refl;
  buffer = refl;
  connected = refl;
  state = refl;
  handshake = refl;
}

Same-trans : {r s t : Run} → Same r s → Same s t → Same r t
Same-trans a b = record {
  passed = b.passed ∙ a.passed;
  buffer = b.buffer ∙ a.buffer;
  connected = b.connected ∙ a.connected;
  state = b.state ∙ a.state;
  handshake = b.handshake ∙ a.handshake;
}

-- An effect that passes nothing on.
Same-does : (es : List Effect) (r : Run) → forwarded es ≡ [] → Same r (does es r)
Same-does es r h = record {
  passed =
      forwarded-append r.effects es
      ∙ ap (◌++◌ (forwarded r.effects)) h
      ∙ append-nil (forwarded r.effects);
  buffer = refl;
  connected = refl;
  state = refl;
  handshake = refl;
}

Same-send : (s : Text) (r : Run) → Same r (send s r)
unfolding send
Same-send s r = elim (Bool-cases (writable r.client)) [
  | inl y ↦ rw (send, y) (Same-does (writes s ∷ []) r refl)
  | inr n ↦ rw (send, n) (Same-refl r)
]

pub Same-send_each : (ps : List (List Value)) (r : Run) → Same r (send_each ps r)
unfolding send_each send_op_code
Same-send_each [] r = Same-refl r
Same-send_each (p ∷ ps) r =
    Same-trans (Same-send (op_code p) r) (Same-send_each ps (send (op_code p) r))

Same-note_syncs : (ts : List ℕ) (r : Run) → Same r (on_client (note_syncs ts) r)
unfolding note_syncs
Same-note_syncs [] r = Same-refl r
Same-note_syncs (t ∷ ts) r = record {
  passed = refl;
  buffer = (Same-note_syncs ts (on_client (note_syncs (t ∷ [])) r)).buffer;
  connected = (Same-note_syncs ts (on_client (note_syncs (t ∷ [])) r)).connected;
  state = (Same-note_syncs ts (on_client (note_syncs (t ∷ [])) r)).state;
  handshake = (Same-note_syncs ts (on_client (note_syncs (t ∷ [])) r)).handshake;
}

Same-note_sync : (chunk : Text) (r : Run) → Same r (note_sync chunk r)
unfolding note_sync
Same-note_sync chunk r =
    elim (Bool-cases
      (r.client.is_master && r.client.recording_enabled && includes (codes ".sync,") chunk)) [
        | inl y ↦ rw (note_sync, y) (Same-note_syncs (syncs_from 0 chunk) r)
        | inr n ↦ rw (note_sync, n) (Same-refl r)
      ]

Same-note_ready : (chunk : Text) (r : Run) → Same r (note_ready chunk r)
unfolding note_ready
Same-note_ready chunk r = elim (Option-cases (ready_of r.client chunk)) [
  | inl e ↦ rw (note_ready, e) (Same-refl r)
  | inr (id, e) ↦
      rw (note_ready, e)
        (Same-trans
          (record {
            passed = refl;
            buffer = refl;
            connected = refl;
            state = refl;
            handshake = refl;
          })
          (Same-does (becomes_ready id ∷ [])
            (on_client (λ c. record c { guacd_connection_id = some id }) r) refl))
]

-- The client is open, or on its way to be.
pub record Live (r : Run) : Type 0 where
  pub is_connected : r.client.connected ≡ true
  pub not_closed : is_closed r.client.state ≡ false

-- Data was passed on behind what was, and all else is as before.
pub record Passes (chunk : Text) (r s : Run) : Type 0 where
  pub passed : forwarded s.effects ≡ forwarded r.effects ++ chunk
  pub buffer : s.client.received_buffer ≡ r.client.received_buffer
  pub live : Live s
  pub handshake : s.client.handshake_complete ≡ r.client.handshake_complete

-- A message of an error closes the client; other data is passed on as it is.
pub pass_on-Passes :
    (chunk : Text) (r : Run)
    → Live r
    → ((pass_on chunk r).client.connected ≡ false) ⊎ Passes chunk r (pass_on chunk r)
unfolding pass_on handle_close
pass_on-Passes chunk r l = elim (Option-cases (error_of chunk)) [
  | inr (m, e) ↦ inl (rw (pass_on, e) (rw (handle_close, l.not_closed) refl))
  | inl e ↦
      let a = Same-trans (Same-note_ready chunk r) (Same-note_sync chunk (note_ready chunk r)) in
      inr (
        rw (pass_on, e)
          (record {
            passed =
                forwarded-append (note_sync chunk (note_ready chunk r)).effects
                  (forwards chunk ∷ [])
                ∙ (ap (λ s. s ++ (chunk ++ [])) a.passed
                    ∙ ap (◌++◌ (forwarded r.effects)) (append-nil chunk));
            buffer = a.buffer;
            live = record {
              is_connected = a.connected ∙ l.is_connected;
              not_closed = a.state ∙ l.not_closed;
            };
            handshake = a.handshake;
          }))
]
