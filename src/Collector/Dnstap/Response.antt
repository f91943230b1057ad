-- ===== src/Collector/Dnstap/Response.antt =====
-- `decode_client_response` on the frames of a dnstap writer: what it finds, what it passes over,
-- and the frames on which it raises a `TypeError`.
use ca_dns.Prelude.{
  ℕ, ◌+◌, ◌*◌, ◌^◌, ◌≡◌, refl, ◌∙◌, Bool, true, false, not, ◌&&◌, Option, none, some, List, [], ◌∷◌,
  arith, ◌==◌, if◌then◌else◌, All,
}
use ca_dns.Collector.Dnstap.{
  Bytes, ok, type_error, Value, int, bytes, Outer, outer_field, outer_fields, inner_message, Inner,
  inner_field, inner_fields, is_int, response_time_of, client_response, decode_client_response,
}
use ca_dns.Collector.Dnstap.Fields.{
  Wire, values, fields_bytes, IsWritable, iter_fields-fields_bytes,
}

abbrev pub is_some {ℓ} : {A : Type ℓ} → Option A → Bool
is_some none = false
is_some (some a) = true

-- The last value with a number; of those that are bytes; of those that are numbers.
abbrev pub or_else {ℓ} : {A : Type ℓ} → Option A → Option A → Option A
or_else (some a) b = some a
or_else none b = b

abbrev pub last_value : ℕ → List (ℕ × Value) → Option Value
last_value n [] = none
last_value n ((number, value) ∷ fields) =
    or_else (last_value n fields) (if number == n then some value else none)

abbrev pub last_bytes : ℕ → List (ℕ × Value) → Option Bytes
last_bytes n [] = none
last_bytes n ((number, bytes b) ∷ fields) =
    or_else (last_bytes n fields) (if number == n then some b else none)
last_bytes n ((number, int k) ∷ fields) = last_bytes n fields

abbrev pub last_int : ℕ → List (ℕ × Value) → ℕ → ℕ
last_int n [] default = default
last_int n ((number, int k) ∷ fields) default =
    last_int n fields (if number == n then k else default)
last_int n ((number, bytes b) ∷ fields) default = last_int n fields default

inner_fields_last :
    (fields : List (ℕ × Value)) (m : Inner)
    → inner_fields m fields ≡ record {
      message_type = or_else (last_value 1 fields) m.message_type;
      seconds = or_else (last_value 12 fields) m.seconds;
      wire = or_else (last_bytes 14 fields) m.wire;
      nanoseconds = last_int 13 fields m.nanoseconds;
    }
unfolding inner_fields
inner_fields_last [] m = refl
inner_fields_last ((number, int n) ∷ fields) m =
    inner_fields_last fields (inner_field m number (int n)) ∙ ground arith
inner_fields_last ((number, bytes b) ∷ fields) m =
    inner_fields_last fields (inner_field m number (bytes b)) ∙ ground arith

abbrev no_inner : Inner
no_inner = record { message_type = none; seconds = none; wire = none; nanoseconds = 0 }

outer_fields_last :
    (fields : List (ℕ × Value)) (o : Outer)
    → outer_fields o fields ≡ record {
      dnstap_type = or_else (last_value 15 fields) o.dnstap_type;
      message = or_else (last_bytes 14 fields) o.message;
    }
unfolding outer_fields
outer_fields_last [] o = refl
outer_fields_last ((number, int n) ∷ fields) o =
    outer_fields_last fields (outer_field o number (int n)) ∙ ground arith
outer_fields_last ((number, bytes b) ∷ fields) o =
    outer_fields_last fields (outer_field o number (bytes b)) ∙ ground arith

abbrev no_outer : Outer
no_outer = record { dnstap_type = none; message = none }

-- A dnstap frame of type MESSAGE, whose message has the type CLIENT_RESPONSE and wire bytes, by
-- the last field of each number.
abbrev pub carries_response : List (ℕ × Value) → List (ℕ × Value) → Bool
carries_response outer inner =
    is_int (last_value 15 outer) 1 && is_int (last_value 1 inner) 6 && is_some (last_bytes 14 inner)

abbrev pub times : Option ℕ → ℕ → Option ℕ
times none nanoseconds = none
times (some seconds) nanoseconds = some (seconds * 10 ^ 9 + nanoseconds)

abbrev pub int_value : Option ℕ → Option Value
int_value none = none
int_value (some n) = some (int n)

-- Frames with any fields, the last message (14) of which has the fields `inner`.
module _ (outer inner : List (ℕ × Wire)) (outer_ok : All IsWritable outer)
    (inner_ok : All IsWritable inner)
    (has_message : last_bytes 14 (values outer) ≡ some (fields_bytes inner)) where
  decode_message_frame : decode_client_response (fields_bytes outer) ≡ (
      if not (is_int (last_value 15 (values outer)) 1)
      then ok none
      else client_response
          (record {
            message_type = or_else (last_value 1 (values inner)) none;
            seconds = or_else (last_value 12 (values inner)) none;
            wire = or_else (last_bytes 14 (values inner)) none;
            nanoseconds = last_int 13 (values inner) 0;
          })
          (or_else (last_bytes 14 (values inner)) none))
  unfolding decode_client_response inner_message
  decode_message_frame =
      rw
        (
          iter_fields-fields_bytes outer outer_ok,
          outer_fields_last (values outer) no_outer,
          has_message,
        )
        (ground (
          arith,
          iter_fields-fields_bytes inner inner_ok,
          inner_fields_last (values inner) no_inner,
        ))

  -- A frame of fields that a protobuf writer sends, in any order and of any wire types, whose last
  -- message (14) is such fields too: when, by the last field of each number, its type is MESSAGE
  -- (15: 1), the message's type is CLIENT_RESPONSE (1: 6), there are wire bytes (14), and the seconds
  -- (12) are a number or missing, it is decoded to these wire bytes and to the time of the seconds and
  -- the nanoseconds (13, 0 if there are none), or to no time without seconds.
  pub decode_client_response-response :
      (wire : Bytes) (seconds : Option ℕ)
      → carries_response (values outer) (values inner) ≡ true
      → last_bytes 14 (values inner) ≡ some wire
      → last_value 12 (values inner) ≡ int_value seconds
      → decode_client_response (fields_bytes outer)
        ≡ ok (
            some (record {
              response_time = times seconds (last_int 13 (values inner) 0);
              wire = wire;
            }))
  unfolding client_response response_time_of
  decode_client_response-response wire none carried has_wire clock =
      rw decode_message_frame (ground (arith, carried, has_wire, clock))
  decode_client_response-response wire (some s) carried has_wire clock =
      rw decode_message_frame (ground (arith, carried, has_wire, clock))

  -- Any other such frame is passed over.
  pub decode_client_response-other :
      carries_response (values outer) (values inner) ≡ false
      → decode_client_response (fields_bytes outer) ≡ ok none
  unfolding client_response response_time_of
  decode_client_response-other other = rw decode_message_frame (ground (arith, other))

  -- A frame of fields that a protobuf writer sends, whose last message (14) is such fields too: when
  -- it is a CLIENT_RESPONSE with wire bytes whose last seconds field is sent as bytes, it raises a
  -- `TypeError`, and no `ProtobufError`.
  pub decode_client_response-type_error :
      (text : Bytes)
      → carries_response (values outer) (values inner) ≡ true
      → last_value 12 (values inner) ≡ some (bytes text)
      → decode_client_response (fields_bytes outer) ≡ type_error
  unfolding client_response response_time_of
  decode_client_response-type_error text carried clock =
      rw decode_message_frame (ground (arith, carried, clock))
