-- ===== src/Collector/FrameStreams/Handshake.antt =====
-- Whole sessions, from the bytes that a writer sends.
use ca_dns.Prelude.{
  ℕ, zero, suc, ◌+◌, ◌≤◌, ◌<◌, ◌≡◌, refl, ◌∙◌, inl, inr, true, Option, none, some, List, [], ◌∷◌,
  ◌++◌, append-nil, append_assoc, arith, Option-cases, length, any, All, length-append,
}
use ca_dns.Prelude.Text.{Without, text_eq, split, join, split-join, text_eq_refl}
use mathlib.Core.Option.{some-injective}
use ca_dns.Collector.FrameStreams.{
  Bytes, ok, control_accept, control_start, control_stop, control_ready, control_finish,
  control_frame_max, newline, pack, encode_fields, encode_control, read_frame, Connection, returned,
  continue, finish, on_data, on_control, turn, serve_loop, serve_connection,
}
use ca_dns.Collector.FrameStreams.Words.{
  unpack-pack, length-pack, read_exactly-append, read_exactly-pack,
}
use ca_dns.Collector.FrameStreams.Control.{read_frame-encode_control, control_payload_fits}
use ca_dns.Collector.FrameStreams.Session.{
  IsDeliverable, serve_loop_continue, serve_loop_finish, feed,
}

-- A data frame as a writer sends it.
abbrev pub data_frame : Bytes → Bytes
data_frame payload = pack (length payload) ++ payload

abbrev pub data_frames : List Bytes → Bytes
data_frames [] = []
data_frames (payload ∷ payloads) = data_frame payload ++ data_frames payloads

-- A data frame is read back, and what follows it is left.
pub read_frame-data_frame :
    (payload rest : Bytes)
    → IsDeliverable payload
    → read_frame (data_frame payload ++ rest) ≡ ok (none, payload, rest)
unfolding read_frame
read_frame-data_frame payload rest h = rw (append_assoc (pack (length payload)) payload rest) (
    ground (
      arith,
      read_exactly-pack (length payload) (payload ++ rest),
      unpack-pack (length payload) [] (omega arith),
      append-nil (pack (length payload)),
      read_exactly-append payload rest,
    ))

module _ {S : Type 0} (on_frame : Bytes → S → Option S) (content_type : Bytes) where
  ready_turn :
      (offered : Bytes) (s : Connection S)
      → any (text_eq content_type) (split newline offered) ≡ true
      → turn on_frame content_type (some control_ready) offered s
        ≡ continue
            (record s { written = s.written ++ encode_control control_accept (content_type ∷ []) })
  unfolding turn on_control
  ready_turn offered s h = rw h

  start_turn :
      (s : Connection S)
      → turn on_frame content_type (some control_start) content_type s
        ≡ continue (record s { started = true })
  unfolding turn on_control
  start_turn s = ground (arith, text_eq_refl content_type)

  stop_turn :
      (s : Connection S)
      → turn on_frame content_type (some control_stop) [] s
        ≡ finish
            (returned s.frames)
            (record s { written = s.written ++ encode_control control_finish [] })
  unfolding turn on_control
  stop_turn s = refl

  data_turn :
      (payload : Bytes) (s : Connection S) (next : S)
      → s.started ≡ true
      → on_frame payload s.state ≡ some next
      → turn on_frame content_type none payload s
        ≡ continue (record s { state = next; frames = s.frames + 1 })
  unfolding turn on_data
  data_turn payload s next started taken = ground (arith, started, taken)

  -- The data frames and the STOP behind them, from a started session on.
  serve_loop-data_frames :
      (payloads : List Bytes) (fuel : ℕ) (s : Connection S) (rest : Bytes) (last : S)
      → length payloads < fuel
      → s.started ≡ true
      → All IsDeliverable payloads
      → feed on_frame payloads s.state ≡ some last
      → serve_loop on_frame content_type fuel
          (data_frames payloads ++ (encode_control control_stop [] ++ rest))
          s
        ≡ (
          returned (s.frames + length payloads),
          record s {
            frames = s.frames + length payloads;
            state = last;
            written = s.written ++ encode_control control_finish [];
          },
        )
  unfolding join
  serve_loop-data_frames payloads zero s rest last enough started fits fed = absurd (omega arith)
  serve_loop-data_frames [] (suc fuel) s rest last enough started fits fed =
      serve_loop_finish on_frame content_type fuel _ s (some control_stop) [] rest
        (returned s.frames) _
        (read_frame-encode_control control_stop [] rest (omega arith)
          (control_payload_fits control_stop [] (unfold encode_fields in omega arith)))
        (stop_turn s)
      ∙ ground (arith, some-injective s.state last fed)
  serve_loop-data_frames (p ∷ ps) (suc fuel) s rest last enough started fits fed =
      elim (Option-cases (on_frame p s.state)) [
        | inl e ↦ cc (rw (e, feed) at fed)
        | inr (next, e) ↦
            rw
              (append_assoc (data_frame p) (data_frames ps)
                (encode_control control_stop [] ++ rest))
              (serve_loop_continue on_frame content_type fuel _ s none p _ _
                  (read_frame-data_frame p _ fits.0) (data_turn p s next started e)
                ∙ serve_loop-data_frames ps fuel (record s { state = next; frames = s.frames + 1 })
                    rest last (omega arith) started fits.1 (rw (e, feed) at fed)
                ∙ ground arith)
      ]

  -- The bytes of a whole session: READY, START, the data frames and STOP.
  abbrev pub conversation : List Bytes → List Bytes → Bytes → Bytes
  conversation offered payloads rest =
      encode_control control_ready offered
      ++ (encode_control control_start (content_type ∷ [])
          ++ (data_frames payloads ++ (encode_control control_stop [] ++ rest)))

  length-data_frames-le : (payloads : List Bytes) → length payloads ≤ length (data_frames payloads)
  length-data_frames-le [] = omega arith
  length-data_frames-le (p ∷ ps) = omega (
    arith,
    length-append (data_frame p) (data_frames ps),
    length-append (pack (length p)) p,
    length-pack (length p),
    length-data_frames-le ps,
  )

  length-encode_control-ge :
      (control_type : ℕ) (cts : List Bytes) → 8 ≤ length (encode_control control_type cts)
  unfolding encode_control pack
  length-encode_control-ge control_type cts = omega arith

  length-conversation :
      (offered payloads : List Bytes) (rest : Bytes)
      → length payloads + 2 ≤ length (conversation offered payloads rest)
  length-conversation offered payloads rest = omega (
    arith,
    length-append {0},
    length-encode_control-ge control_ready offered,
    length-encode_control-ge control_start (content_type ∷ []),
    length-data_frames-le payloads,
  )

  offered_again :
      (offered : List Bytes)
      → any (text_eq content_type) offered ≡ true
      → All (Without newline) offered
      → any (text_eq content_type) (split newline (join newline offered)) ≡ true
  offered_again [] found plain = cc
  offered_again (ct ∷ cts) found plain = rw (split-join newline ct cts plain) found

  module _ (offered payloads : List Bytes) (rest : Bytes)
      (found : any (text_eq content_type) offered ≡ true) (plain : All (Without newline) offered)
      (offer_fits : length (encode_fields offered) + 4 ≤ control_frame_max)
      (type_fits : length content_type + 12 ≤ control_frame_max)
      (deliverable : All IsDeliverable payloads) (state last : S)
      (fed : feed on_frame payloads state ≡ some last) where
    one_type_fits : length (encode_fields (content_type ∷ [])) + 4 ≤ control_frame_max
    unfolding encode_fields pack
    one_type_fits = omega (arith, length-append content_type [])

    serve_loop-conversation :
        (fuel : ℕ) (s : Connection S)
        → length payloads + 2 < fuel
        → s.state ≡ state
        → serve_loop on_frame content_type fuel (conversation offered payloads rest) s ≡ (
          returned (s.frames + length payloads),
          record {
            frames = s.frames + length payloads;
            started = true;
            written =
                (s.written ++ encode_control control_accept (content_type ∷ []))
                ++ encode_control control_finish [];
            state = last;
          },
        )
    unfolding join
    serve_loop-conversation zero s enough here = absurd (omega arith)
    serve_loop-conversation (suc zero) s enough here = absurd (omega arith)
    serve_loop-conversation (suc (suc fuel)) s enough here =
        let accepted = record s {
          written = s.written ++ encode_control control_accept (content_type ∷ []);
        } in
        serve_loop_continue on_frame content_type (suc fuel) _ s (some control_ready) _ _ accepted
          (read_frame-encode_control control_ready offered _ (omega arith)
            (control_payload_fits control_ready offered offer_fits))
          (ready_turn (join newline offered) s (offered_again offered found plain))
        ∙ serve_loop_continue on_frame content_type fuel _ accepted (some control_start) _ _
            (record accepted { started = true })
            (read_frame-encode_control control_start (content_type ∷ []) _ (omega arith)
              (control_payload_fits control_start (content_type ∷ []) one_type_fits))
            (start_turn accepted)
        ∙ serve_loop-data_frames payloads fuel (record accepted { started = true }) rest last
            (omega arith) refl deliverable (rw here fed)

    -- A whole session. The writer offers content types without newlines, the reader's among them,
    -- in a control frame that fits; it starts with that type, sends data frames of 1 to
    -- `data_frame_max` bytes that the callback takes, and stops. Then the session returns the number
    -- of the frames, the callback has had exactly these payloads in this order, and the reader has
    -- written ACCEPT with its content type, and FINISH. What follows STOP is not looked at.
    pub serve_connection-conversation :
        serve_connection on_frame content_type (conversation offered payloads rest) state ≡ (
          returned (length payloads),
          record {
            frames = length payloads;
            started = true;
            written =
                encode_control control_accept (content_type ∷ [])
                ++ encode_control control_finish [];
            state = last;
          },
        )
    unfolding serve_connection
    serve_connection-conversation =
        serve_loop-conversation (suc (length (conversation offered payloads rest))) _
          (omega (arith, length-conversation offered payloads rest)) refl
        ∙ ground arith
