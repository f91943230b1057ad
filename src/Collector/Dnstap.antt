-- ===== src/Collector/Dnstap.antt =====
-- services/src/cadns/collector/dnstap.py: dnstap messages and the classes of client responses.
-- Times are numbers of nanoseconds; the code has floats of seconds, whose rounding is left out.
-- `dns.message.from_wire` is a parameter.
pub mod Varint
pub mod Fields
pub mod Response
pub mod Ignored
pub mod Events
mod Tests
use ca_dns.Prelude.{
  ℕ, zero, suc, ◌+◌, ◌*◌, ◌/◌, ◌%◌, ◌^◌, Bool, true, false, not, ◌&&◌, ◌||◌, Option, none, some,
  List, [], ◌∷◌, ◌++◌, ltb, leb, ◌==◌, if◌then◌else◌, length, take, drop, any, bit_and, bit_or,
}
use ca_dns.Prelude.Text.{Text, text_eq, join, split}

abbrev pub Bytes : Type 0
Bytes = List ℕ

-- `protobuf` is a `ProtobufError`, `type_error` the `TypeError` of an addition of bytes and a
-- number. `stuck` is no outcome of the code: fuel ran out.
pub data Result {ℓ} (A : Type ℓ) : Type ℓ where
  ok : A → Result A
  protobuf : Result A
  type_error : Result A
  stuck : Result A

infixl 5 ◌>>=◌
abbrev pub ◌>>=◌ {ℓ κ} : {A : Type ℓ} {B : Type κ} → Result A → (A → Result B) → Result B
ok a >>= f = f a
protobuf >>= f = protobuf
type_error >>= f = type_error
stuck >>= f = stuck

abbrev pub dnstap_type_message : ℕ
dnstap_type_message = 1

abbrev pub message_client_response : ℕ
message_client_response = 6

-- The loop of `_varint`: the bytes from `pos` on, and `value` and `shift` so far.
unfoldable pub varint_loop : Bytes → ℕ → ℕ → Result (ℕ × Bytes)
varint_loop [] value shift = protobuf
varint_loop (byte ∷ rest) value shift =
    let value' = bit_or value (bit_and byte 0x7f * 2 ^ shift) in
    let more = varint_loop rest value' (shift + 7) in
    if ltb 63 shift then protobuf else if ltb byte 0x80 then ok (value', rest) else more

-- `_varint(buf, pos)`: the number, and the bytes behind it.
unfoldable pub varint : Bytes → Result (ℕ × Bytes)
varint buf = varint_loop buf 0 0

-- A field's value: an `int`, or `bytes`.
pub data Value : Type 0 where
  int : ℕ → Value
  bytes : Bytes → Value

-- `int.from_bytes(b, "little")`
unfoldable pub little_endian : Bytes → ℕ
little_endian [] = 0
little_endian (b ∷ bs) = b + 256 * little_endian bs

-- The value of a field of `size` bytes, and the check that they are there.
unfoldable pub fixed : ℕ → Bytes → Result (Value × Bytes)
unfolding little_endian
fixed size rest =
    if ltb (length rest) size
    then protobuf
    else ok (int (little_endian (take size rest)), drop size rest)

unfoldable pub sized : Bytes → Result (Value × Bytes)
sized rest = do
  (len, behind) ← varint rest
  if ltb (length behind) len then protobuf else ok (bytes (take len behind), drop len behind)

-- One field's value by its wire type, in the body of `iter_fields`.
unfoldable pub field_value : ℕ → Bytes → Result (Value × Bytes)
unfolding fixed sized
field_value wire_type rest =
    if wire_type == 0
    then (do (value, behind) ← varint rest; ok (int value, behind))
    else if wire_type == 1
    then fixed 8 rest
    else if wire_type == 2
    then sized rest
    else if wire_type == 5
    then fixed 4 rest
    else protobuf

-- `iter_fields`: what a consumer of the whole generator gets. Both consumers drop what they have
-- seen when it raises, so the fields before the error need not be kept.
unfoldable pub iter_fields_loop : ℕ → Bytes → Result (List (ℕ × Value))
iter_fields_loop fuel [] = ok []
iter_fields_loop zero (b ∷ bs) = stuck
iter_fields_loop (suc fuel) (b ∷ bs) = do
  (key, behind) ← varint (b ∷ bs)
  (value, rest) ← field_value (bit_and key 0x7) behind
  fields ← iter_fields_loop fuel rest
  ok ((key / 2 ^ 3, value) ∷ fields)

-- A field takes a byte at least.
unfoldable pub iter_fields : Bytes → Result (List (ℕ × Value))
iter_fields buf = iter_fields_loop (length buf) buf

-- The variables of the first loop of `decode_client_response`.
pub record Outer : Type 0 where
  pub dnstap_type : Option Value
  pub message : Option Bytes

unfoldable pub outer_field : Outer → ℕ → Value → Outer
outer_field o number (bytes b) =
    if number == 15
    then record o { dnstap_type = some (bytes b) }
    else if number == 14
    then record o { message = some b }
    else o
outer_field o number (int n) = if number == 15 then record o { dnstap_type = some (int n) } else o

unfoldable pub outer_fields : Outer → List (ℕ × Value) → Outer
unfolding outer_field
outer_fields o [] = o
outer_fields o ((number, value) ∷ fields) = outer_fields (outer_field o number value) fields

-- The variables of its second loop.
pub record Inner : Type 0 where
  pub message_type : Option Value
  pub seconds : Option Value
  pub wire : Option Bytes
  pub nanoseconds : ℕ

unfoldable pub inner_field : Inner → ℕ → Value → Inner
inner_field m number (int n) =
    if number == 1
    then record m { message_type = some (int n) }
    else if number == 12
    then record m { seconds = some (int n) }
    else if number == 13
    then record m { nanoseconds = n }
    else m
inner_field m number (bytes b) =
    if number == 1
    then record m { message_type = some (bytes b) }
    else if number == 12
    then record m { seconds = some (bytes b) }
    else if number == 14
    then record m { wire = some b }
    else m

unfoldable pub inner_fields : Inner → List (ℕ × Value) → Inner
unfolding inner_field
inner_fields m [] = m
inner_fields m ((number, value) ∷ fields) = inner_fields (inner_field m number value) fields

pub record ClientResponse : Type 0 where
  pub response_time : Option ℕ
  pub wire : Bytes

-- `value == n`, which is false of bytes and of `None`
abbrev pub is_int : Option Value → ℕ → Bool
is_int none n = false
is_int (some (int k)) n = k == n
is_int (some (bytes b)) n = false

-- `seconds + nanoseconds / 1e9 if seconds is not None else None`
unfoldable pub response_time_of : Option Value → ℕ → Result (Option ℕ)
response_time_of none nanoseconds = ok none
response_time_of (some (int seconds)) nanoseconds = ok (some (seconds * 10 ^ 9 + nanoseconds))
response_time_of (some (bytes b)) nanoseconds = type_error

client_response : Inner → Option Bytes → Result (Option ClientResponse)
client_response m none = ok none
client_response m (some wire) =
    if not (is_int m.message_type message_client_response) then ok none else do
      time ← response_time_of m.seconds m.nanoseconds
      ok (some (record { response_time = time; wire = wire }))

inner_message : Outer → Option Bytes → Result (Option ClientResponse)
inner_message o none = ok none
inner_message o (some message) =
    if not (is_int o.dnstap_type dnstap_type_message) then ok none else do
      fields ← iter_fields message
      let m =
          inner_fields
            (record { message_type = none; seconds = none; wire = none; nanoseconds = 0 }) fields
      client_response m m.wire

unfoldable pub decode_client_response : Bytes → Result (Option ClientResponse)
unfolding inner_message client_response response_time_of outer_fields inner_fields
decode_client_response frame = do
  fields ← iter_fields frame
  let o = outer_fields (record { dnstap_type = none; message = none }) fields
  inner_message o o.message

-- `labels[i:]` for `i in range(len(labels))`
unfoldable pub tails : List Text → List (List Text)
tails [] = []
tails (label ∷ labels) = (label ∷ labels) ∷ tails labels

abbrev pub dot : ℕ
dot = b'.'

unfoldable pub is_ignored : Text → List Text → Bool
unfolding tails
is_ignored name ignore_suffixes =
    if not (any (λ c. c == dot) name)
    then true
    else any (λ labels. any (text_eq (join dot labels)) ignore_suffixes) (tails (split dot name))

-- What the code reads of a `dns.message.Message`. `name` is the question's `to_text` without the
-- final dot, which is ASCII.
pub record Question : Type 0 where
  pub name : Text
  pub rdclass : ℕ
  pub rdtype : ℕ

pub record Message : Type 0 where
  pub opcode : ℕ
  pub question : List Question
  pub authoritative : Bool
  pub rcode : ℕ

pub data Kind : Type 0 where
  hit miss : Kind

pub record Event : Type 0 where
  pub kind : Kind
  pub name : Text
  pub time : ℕ

unfoldable pub to_lower : ℕ → ℕ
to_lower c = if leb b'A' c && leb c b'Z' then c + 32 else c

unfoldable pub lower : Text → Text
unfolding to_lower
lower [] = []
lower (c ∷ cs) = to_lower c ∷ lower cs

-- `response.response_time or time.time()`: 0 counts as missing.
unfoldable pub event_time : Option ℕ → ℕ → ℕ
event_time none now = now
event_time (some t) now = if t == 0 then now else t

-- The DNS codes QUERY, IN, A, AAAA, NOERROR and NXDOMAIN.
abbrev pub is_address_question : Question → Bool
is_address_question q = q.rdclass == 1 && (q.rdtype == 1 || q.rdtype == 28)

classify_question : ClientResponse → Message → List Question → List Text → ℕ → Option Event
classify_question response message (q ∷ []) ignore_suffixes now =
    let name = lower q.name in
    let when = event_time response.response_time now in
    if not (message.opcode == 0) || not (is_address_question q)
    then none
    else if is_ignored name ignore_suffixes
    then none
    else if message.authoritative
    then some (record { kind = hit; name = name; time = when })
    else if message.rcode == 0 || message.rcode == 3
    then some (record { kind = miss; name = name; time = when })
    else none
classify_question response message _ ignore_suffixes now = none

-- `from_wire` gives no message where the library raises a `DNSException`; `now` is `time.time()`.
unfoldable pub classify : (Bytes → Option Message) → ClientResponse → List Text → ℕ → Option Event
unfolding classify_question event_time
classify from_wire response ignore_suffixes now = elim (from_wire response.wire) [
  | none ↦ none
  | some message ↦ classify_question response message message.question ignore_suffixes now
]
