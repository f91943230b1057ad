-- ===== src/Collector/FrameStreams/Refusals.antt =====
-- Sessions that the reader refuses at the first frame, before the callback sees anything.
use ca_dns.Prelude.{
  ℕ, ◌+◌, ◌^◌, ◌≤◌, ◌<◌, ◌≡◌, refl, false, Option, none, some, List, [], ◌∷◌, ◌++◌, append-nil,
  arith, length, any, All,
}
use ca_dns.Prelude.Text.{Without, text_eq, split, split-join}
use ca_dns.Collector.FrameStreams.{
  Bytes, data_too_long, data_before_start, not_offered, err, control_ready, control_frame_max,
  data_frame_max, newline, pack, encode_fields, encode_control, read_frame, Connection, failed,
  finish, on_data, on_control, turn, serve_connection,
}
use ca_dns.Collector.FrameStreams.Words.{unpack-pack, read_exactly-pack}
use ca_dns.Collector.FrameStreams.Control.{read_frame-encode_control, control_payload_fits}
use ca_dns.Collector.FrameStreams.Session.{IsDeliverable, serve_loop_finish, serve_loop_err}
use ca_dns.Collector.FrameStreams.Handshake.{data_frame, read_frame-data_frame}

read_frame_too_long :
    (len : ℕ) (rest : Bytes)
    → data_frame_max < len
    → len < 2 ^ 32
    → read_frame (pack len ++ rest) ≡ err (data_too_long len)
unfolding read_frame
read_frame_too_long len rest long word =
    ground (arith, read_exactly-pack len rest, unpack-pack len [] word, append-nil (pack len))

module _ {S : Type 0} (on_frame : Bytes → S → Option S) (content_type : Bytes) (state : S) where
  abbrev pub untouched : Connection S
  untouched = record { frames = 0; started = false; written = []; state = state }

  early_turn :
      (payload : Bytes)
      → turn on_frame content_type none payload untouched
        ≡ finish (failed data_before_start) untouched
  unfolding turn on_data
  early_turn payload = refl

  unoffered_turn :
      (offered : Bytes)
      → any (text_eq content_type) (split newline offered) ≡ false
      → turn on_frame content_type (some control_ready) offered untouched
        ≡ finish (failed not_offered) untouched
  unfolding turn on_control
  unoffered_turn offered h = rw h

  -- A session is refused, with nothing written and the callback not called, if it begins with a
  -- data frame, with a length above `data_frame_max`, or with a READY that offers content types
  -- without newlines (one at least) and not the reader's.
  pub serve_connection_refuses :
      (payload rest : Bytes) (len : ℕ) (ct : Bytes) (cts : List Bytes)
      → IsDeliverable payload
      → data_frame_max < len
      → len < 2 ^ 32
      → All (Without newline) (ct ∷ cts)
      → any (text_eq content_type) (ct ∷ cts) ≡ false
      → length (encode_fields (ct ∷ cts)) + 4 ≤ control_frame_max
      → (serve_connection on_frame content_type (data_frame payload ++ rest) state
          ≡ (failed data_before_start, untouched))
        × (serve_connection on_frame content_type (pack len ++ rest) state
            ≡ (failed (data_too_long len), untouched))
        × (serve_connection on_frame content_type
              (encode_control control_ready (ct ∷ cts) ++ rest)
              state
            ≡ (failed not_offered, untouched))
  unfolding serve_connection
  serve_connection_refuses payload rest len ct cts fits long word plain unknown offer_fits = (
    serve_loop_finish on_frame content_type _ _ untouched none payload rest _ untouched
        (read_frame-data_frame payload rest fits) (early_turn payload),
    serve_loop_err on_frame content_type _ _ untouched _ (read_frame_too_long len rest long word),
    serve_loop_finish on_frame content_type _ _ untouched (some control_ready) _ rest _ untouched
        (read_frame-encode_control control_ready (ct ∷ cts) rest (omega arith)
          (control_payload_fits control_ready (ct ∷ cts) offer_fits))
        (unoffered_turn _ (rw (split-join newline ct cts plain) unknown)),
  )
