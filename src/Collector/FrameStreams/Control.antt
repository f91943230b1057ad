-- ===== src/Collector/FrameStreams/Control.antt =====
-- Control frames: `decode_control` ends on every payload and reads back what `encode_control` wrote.
use ca_dns.Prelude.{
  ℕ, zero, suc, ◌+◌, ◌^◌, ◌≤◌, ◌<◌, ◌≡◌, refl, ap, ◌∙◌, ◌≢◌, some, List, [], ◌∷◌, ◌++◌, append-nil,
  append_assoc, arith, length, take, drop, All, length-append, length-drop, take-length_append,
  drop-length_append,
}
use ca_dns.Prelude.Text.{join}
use ca_dns.Collector.FrameStreams.{
  Bytes, ok, stuck, field_content_type, control_frame_max, newline, pack, unpack, encode_fields,
  control_payload, encode_control, decode_fields, decode_control, read_frame,
}
use ca_dns.Collector.FrameStreams.Words.{
  unpack-pack, drop-pack, read_exactly-append, read_exactly-pack,
}

decode_fields-ne-stuck :
    (fuel : ℕ) (rest : Bytes) (cts : List Bytes)
    → length rest ≤ fuel
    → decode_fields fuel rest cts ≢ stuck
unfolding decode_fields
decode_fields-ne-stuck zero [] cts h e = cc
decode_fields-ne-stuck (suc fuel) [] cts h e = cc
decode_fields-ne-stuck zero (b ∷ bs) cts h e = absurd (omega arith)
decode_fields-ne-stuck (suc fuel) (b ∷ bs) cts h e = ground (
  arith,
  length-drop 8 (b ∷ bs),
  length-drop (unpack (drop 4 (b ∷ bs))) (drop 8 (b ∷ bs)),
  decode_fields-ne-stuck fuel (drop (unpack (drop 4 (b ∷ bs))) (drop 8 (b ∷ bs))) cts,
  decode_fields-ne-stuck fuel (drop (unpack (drop 4 (b ∷ bs))) (drop 8 (b ∷ bs)))
      (cts ++ (take (unpack (drop 4 (b ∷ bs))) (drop 8 (b ∷ bs)) ∷ [])),
)

-- `decode_control` ends on every payload.
pub decode_control-ne-stuck : (payload : Bytes) → decode_control payload ≢ stuck
unfolding decode_control
decode_control-ne-stuck payload e =
    ground
      (arith, length-drop 4 payload, decode_fields-ne-stuck (length payload) (drop 4 payload) [])

abbrev pub IsShort : Bytes → Type 0
IsShort ct = length ct < 2 ^ 32

decode_fields_step :
    (fuel : ℕ) (ct tail : Bytes) (cts : List Bytes)
    → IsShort ct
    → decode_fields (suc fuel) (pack field_content_type ++ (pack (length ct) ++ (ct ++ tail))) cts
      ≡ decode_fields fuel tail (cts ++ (ct ∷ []))
unfolding decode_fields pack
decode_fields_step fuel ct tail cts h = ground (
  arith,
  unpack-pack field_content_type (pack (length ct) ++ (ct ++ tail)) (omega arith),
  unpack-pack (length ct) (ct ++ tail) h,
  length-append ct tail,
  take-length_append ct tail,
  drop-length_append ct tail,
)

length_field :
    (ct : Bytes) (cts : List Bytes)
    → length (encode_fields (ct ∷ cts)) ≡ 8 + length ct + length (encode_fields cts)
unfolding encode_fields pack
length_field ct cts = omega (arith, length-append ct (encode_fields cts))

IsShort-length : (cts : List Bytes) → length (encode_fields cts) < 2 ^ 32 → All IsShort cts
IsShort-length [] h = tt
IsShort-length (ct ∷ cts) h =
    (omega (arith, length_field ct cts), IsShort-length cts (omega (arith, length_field ct cts)))

length-control_payload :
    (control_type : ℕ) (cts : List Bytes)
    → length (control_payload control_type cts) ≡ 4 + length (encode_fields cts)
unfolding control_payload pack
length-control_payload control_type cts = omega arith

decode_fields-encode_fields :
    (fuel : ℕ) (written found : List Bytes)
    → All IsShort written
    → length (encode_fields written) ≤ fuel
    → decode_fields fuel (encode_fields written) found ≡ ok (found ++ written)
unfolding encode_fields decode_fields
decode_fields-encode_fields fuel [] found h enough = rw (append-nil, decode_fields) refl
decode_fields-encode_fields zero (ct ∷ cts) found h enough =
    absurd (omega (arith, length_field ct cts))
decode_fields-encode_fields (suc fuel) (ct ∷ cts) found h enough =
    rw (decode_fields_step fuel ct (encode_fields cts) found h.0) (
      decode_fields-encode_fields fuel cts (found ++ (ct ∷ [])) h.1
        (omega (arith, length_field ct cts))
      ∙ ap ok (append_assoc found (ct ∷ []) cts))

control_payload_parts :
    (control_type : ℕ) (cts : List Bytes)
    → control_type < 2 ^ 32
    → (unpack (control_payload control_type cts) ≡ control_type)
      × (drop 4 (control_payload control_type cts) ≡ encode_fields cts)
unfolding control_payload
control_payload_parts control_type cts h =
    (unpack-pack control_type (encode_fields cts) h, drop-pack control_type (encode_fields cts))

-- `decode_control` reads back the type and the content types of any payload that
-- `encode_control` builds.
pub decode_control-control_payload :
    (control_type : ℕ) (cts : List Bytes)
    → control_type < 2 ^ 32
    → All IsShort cts
    → decode_control (control_payload control_type cts) ≡ ok (control_type, cts)
unfolding decode_control
decode_control-control_payload control_type cts h short =
    let payload = control_payload control_type cts in
    let (kind, fields) = control_payload_parts control_type cts h in
    let size = length-control_payload control_type cts in
    ground (arith, kind, fields, size, decode_fields-encode_fields (length payload) cts [] short)

-- `_read_frame` reads back the control frame that `encode_control` wrote and leaves what follows it.
pub read_frame-encode_control :
    (control_type : ℕ) (cts : List Bytes) (rest : Bytes)
    → control_type < 2 ^ 32
    → length (control_payload control_type cts) ≤ control_frame_max
    → read_frame (encode_control control_type cts ++ rest)
      ≡ ok (some control_type, join newline cts, rest)
unfolding read_frame encode_control
read_frame-encode_control control_type cts rest h fits =
    let payload = control_payload control_type cts in
    rw
      (
        append_assoc (pack 0) (pack (length payload) ++ payload) rest,
        append_assoc (pack (length payload)) payload rest,
      )
      (ground (
        arith,
        read_exactly-pack 0 (pack (length payload) ++ (payload ++ rest)),
        unpack-pack 0 [] (omega arith),
        append-nil (pack 0),
        read_exactly-pack (length payload) (payload ++ rest),
        unpack-pack (length payload) [] (omega arith),
        append-nil (pack (length payload)),
        read_exactly-append payload rest,
        decode_control-control_payload control_type cts h
            (IsShort-length cts (omega (arith, length-control_payload control_type cts))),
      ))

-- The payloads that fit into a control frame, by the content types in them.
pub control_payload_fits :
    (control_type : ℕ) (cts : List Bytes)
    → length (encode_fields cts) + 4 ≤ control_frame_max
    → length (control_payload control_type cts) ≤ control_frame_max
control_payload_fits control_type cts h = omega (arith, length-control_payload control_type cts)
