-- ===== src/Collector/Dnstap/Tests.antt =====
-- dnstap frames and names on concrete inputs, and the theorems at them.
use ca_dns.Prelude.{
  ℕ, ◌+◌, ◌-◌, ◌*◌, ◌^◌, ◌≡◌, ◌≢◌, refl, ◌↔◌, ◌⊎◌, true, false, Option, some, List, [], ◌∷◌, ◌++◌,
  arith,
}
use ca_dns.Prelude.Text.{Text, Without, codes, split, join, text_eq}
use ca_dns.Collector.Dnstap.{
  Bytes, ok, stuck, type_error, varint_loop, varint, iter_fields, ClientResponse,
  decode_client_response, dot, is_ignored, Question, Message, miss, Event, lower, classify,
}
use ca_dns.Collector.Dnstap.Varint.{varint_bytes, varint-varint_bytes}
use ca_dns.Collector.Dnstap.Fields.{
  Wire, varint_wire, fixed64_wire, fixed32_wire, sized_wire, values, low_bytes, field_bytes,
  fields_bytes, iter_fields-fields_bytes, iter_fields-ne-stuck,
}
use ca_dns.Collector.Dnstap.Response.{
  decode_client_response-response, decode_client_response-type_error,
}
use ca_dns.Collector.Dnstap.Ignored.{listed, IsUnder, is_ignored_iff}
use ca_dns.Collector.Dnstap.Events.{Explains, classify_iff}

varint_300 : varint (0xac ∷ 0x02 ∷ 9 ∷ []) ≡ ok (300, 9 ∷ [])
unfolding varint varint_loop
varint_300 = refl

-- Ten full bytes hold 70 bits; an eleventh is refused.
varint_70_bits : varint (varint_bytes 9 (2 ^ 70 - 1) ++ []) ≡ ok (2 ^ 70 - 1, [])
unfolding varint varint_loop varint_bytes
varint_70_bits = refl

varint-varint_bytes_example : varint (varint_bytes 9 300 ++ (9 ∷ [])) ≡ ok (300, 9 ∷ [])
varint-varint_bytes_example = varint-varint_bytes 300 (9 ∷ []) (omega arith)

-- As BIND sends them: the nanoseconds are a fixed number of 32 bits.
abbrev response_fields : List (ℕ × Wire)
response_fields =
    (1, varint_wire 6)
    ∷ (12, varint_wire 5)
    ∷ (14, sized_wire (1 ∷ 2 ∷ []))
    ∷ (13, fixed32_wire 7)
    ∷ (12, varint_wire 6)
    ∷ (99, fixed64_wire (2 ^ 40))
    ∷ []

abbrev odd_fields : List (ℕ × Wire)
odd_fields = (1, varint_wire 6) ∷ (12, sized_wire (5 ∷ [])) ∷ (14, sized_wire (1 ∷ 2 ∷ [])) ∷ []

-- A frame with an identity, a version, a message and a type.
abbrev frame_fields : List (ℕ × Wire) → List (ℕ × Wire)
frame_fields inner =
    (1, sized_wire (codes "ns1"))
    ∷ (2, sized_wire (codes "BIND"))
    ∷ (14, sized_wire (fields_bytes inner))
    ∷ (15, varint_wire 1)
    ∷ []

iter_fields-fields_bytes_example :
    iter_fields (fields_bytes response_fields) ≡ ok (values response_fields)
iter_fields-fields_bytes_example = iter_fields-fields_bytes response_fields (omega arith)

iter_fields-ne-stuck_example : iter_fields (0xac ∷ []) ≢ stuck
iter_fields-ne-stuck_example = iter_fields-ne-stuck (0xac ∷ [])

decode_client_response-response_example :
    decode_client_response (fields_bytes (frame_fields response_fields))
    ≡ ok (some (record { response_time = some (6 * 10 ^ 9 + 7); wire = 1 ∷ 2 ∷ [] }))
unfolding fields_bytes field_bytes varint_bytes low_bytes
decode_client_response-response_example =
    decode_client_response-response (frame_fields response_fields) response_fields (omega arith)
      (omega arith) refl (1 ∷ 2 ∷ []) (some 6) refl refl refl

decode_client_response-type_error_example :
    decode_client_response (fields_bytes (frame_fields odd_fields)) ≡ type_error
unfolding fields_bytes field_bytes varint_bytes
decode_client_response-type_error_example =
    decode_client_response-type_error (frame_fields odd_fields) odd_fields (omega arith)
      (omega arith) refl (5 ∷ []) refl refl

abbrev suffixes : List Text
suffixes = codes "test" ∷ codes "example.com" ∷ []

ignored_names :
    (is_ignored (codes "www.example.com") suffixes ≡ true)
    × (is_ignored (codes "badexample.com") suffixes ≡ false)
    × (is_ignored (codes "localhost") suffixes ≡ true)
unfolding is_ignored split join text_eq
ignored_names = (refl, refl, refl)

is_ignored_iff_example : (is_ignored (codes "a.test") suffixes ≡ true) ↔ (
    (Without dot (codes "a.test"))
    ⊎ ((s : Text) × (listed s suffixes ≡ true) × IsUnder s (codes "a.test")))
is_ignored_iff_example = is_ignored_iff (codes "a.test") suffixes

abbrev a_question : Question
a_question = record { name = codes "WWW.ab.de"; rdclass = 1; rdtype = 1 }

abbrev reply : Message
reply = record { opcode = 0; question = a_question ∷ []; authoritative = false; rcode = 3 }

abbrev parser : Bytes → Option Message
parser wire = some reply

abbrev timed : ClientResponse
timed = record { response_time = some 0; wire = [] }

abbrev missed : Event
missed = record { kind = miss; name = codes "www.ab.de"; time = 9 }

a_miss : classify parser timed suffixes 9 ≡ some missed
unfolding classify is_ignored split join text_eq lower
a_miss = refl

classify_iff_example : (classify parser timed suffixes 9 ≡ some missed) ↔ (
    (m : Message) × (q : Question) × (parser timed.wire ≡ some m)
    × Explains timed suffixes 9 m q missed)
classify_iff_example = classify_iff parser timed suffixes 9 missed
