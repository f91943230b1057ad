-- ===== src/Collector/FrameStreams/Tests.antt =====
-- Sessions on concrete streams, and the theorems at them.
use ca_dns.Prelude.{◌≡◌, refl, true, Option, some, List, [], ◌∷◌, ◌++◌, arith}
use ca_dns.Prelude.Text.{codes, join, split, text_eq}
use ca_dns.Collector.FrameStreams.{
  Bytes, truncated_field, data_too_long, data_before_start, not_offered, err, control_accept,
  control_ready, control_finish, dnstap_content_type, pack, unpack, encode_fields, control_payload,
  encode_control, decode_control, read_exactly, read_frame, returned, failed, turn, serve_loop,
  serve_connection,
}
use ca_dns.Collector.FrameStreams.Session.{EndsWell, Handled, serve_connection_accounts}
use ca_dns.Collector.FrameStreams.Handshake.{
  data_frame, conversation, serve_connection-conversation,
}
use ca_dns.Collector.FrameStreams.Refusals.{untouched, serve_connection_refuses}

-- A callback that keeps what it gets.
abbrev keep : Bytes → List Bytes → Option (List Bytes)
keep payload kept = some (kept ++ (payload ∷ []))

abbrev two_frames : List Bytes
two_frames = (7 ∷ []) ∷ (8 ∷ 9 ∷ []) ∷ []

abbrev offers : List Bytes
offers = codes "other" ∷ dnstap_content_type ∷ []

abbrev whole : Bytes
whole = conversation keep dnstap_content_type offers two_frames []

ready_bytes :
    encode_control control_ready (codes "ab" ∷ [])
    ≡ 0 ∷ 0 ∷ 0 ∷ 0 ∷ 0 ∷ 0 ∷ 0 ∷ 14 ∷ 0 ∷ 0 ∷ 0 ∷ 4 ∷ 0 ∷ 0 ∷ 0 ∷ 1 ∷ 0 ∷ 0 ∷ 0 ∷ 2 ∷ 97 ∷ 98 ∷ []
unfolding encode_control control_payload pack
ready_bytes = refl

truncated_control : decode_control (0 ∷ 0 ∷ 0 ∷ 4 ∷ 0 ∷ 0 ∷ []) ≡ err truncated_field
unfolding decode_control unpack
truncated_control = refl

whole_session : (serve_connection keep dnstap_content_type whole []).0 ≡ returned 2
unfolding serve_connection serve_loop read_frame read_exactly decode_control unpack pack
    encode_control control_payload turn join split text_eq
whole_session = refl

serve_connection-conversation_example : serve_connection keep dnstap_content_type whole [] ≡ (
  returned 2,
  record {
    frames = 2;
    started = true;
    written =
        encode_control control_accept (dnstap_content_type ∷ [])
        ++ encode_control control_finish [];
    state = two_frames;
  },
)
unfolding encode_fields pack text_eq
serve_connection-conversation_example =
    serve_connection-conversation keep dnstap_content_type offers two_frames [] refl
      (refl, (refl, tt)) (omega arith) (omega arith)
      ((omega arith, omega arith), ((omega arith, omega arith), tt)) [] two_frames refl

serve_connection_accounts_example :
    EndsWell
      (serve_connection keep dnstap_content_type whole []).0
      (serve_connection keep dnstap_content_type whole []).1
    × ((payloads : List Bytes) × Handled keep []
          (serve_connection keep dnstap_content_type whole []).1
          payloads)
serve_connection_accounts_example = serve_connection_accounts keep dnstap_content_type [] whole

serve_connection_refuses_example :
    (serve_connection keep (codes "a") (data_frame (7 ∷ []) ++ (1 ∷ [])) []
      ≡ (failed data_before_start, untouched keep (codes "a") []))
    × (serve_connection keep (codes "a") (pack 2000000 ++ (1 ∷ [])) []
        ≡ (failed (data_too_long 2000000), untouched keep (codes "a") []))
    × (serve_connection keep
          (codes "a")
          (encode_control control_ready (codes "b" ∷ []) ++ (1 ∷ []))
          []
        ≡ (failed not_offered, untouched keep (codes "a") []))
unfolding encode_fields pack text_eq
serve_connection_refuses_example =
    serve_connection_refuses keep (codes "a") [] (7 ∷ []) (1 ∷ []) 2000000 (codes "b") []
      (omega arith) (omega arith) (omega arith) (refl, tt) refl (omega arith)
