-- ===== src/Collector/Dnstap/Fields.antt =====
-- `iter_fields`: it ends on every buffer, and reads back the fields that a protobuf writer sends.
use ca_dns.Prelude.{
  ℕ, zero, suc, ap, take, drop, ◌+◌, ◌*◌, ◌/◌, ◌%◌, ◌^◌, ◌≤◌, ◌<◌, bit_and, ◌≡◌, refl, ◌∙◌, ◌≢◌,
  ◌⊎◌, inl, inr, List, [], ◌∷◌, ◌++◌, append_assoc, arith, length, All, length-append, length-drop,
  take-length_append, drop-length_append,
}
use ca_dns.Prelude.Bits.{low_three}
use ca_dns.Collector.Dnstap.{
  Bytes, Result, ok, protobuf, type_error, stuck, ◌>>=◌, varint_loop, varint, Value, int, bytes,
  little_endian, fixed, field_value, iter_fields_loop, iter_fields,
}
use ca_dns.Collector.Dnstap.Varint.{
  varint_takes, varint-ne-stuck, varint_bytes, varint-varint_bytes,
}

pub Result-cases {ℓ} :
    {A : Type ℓ} (r : Result A)
    → ((a : A) × (r ≡ ok a)) ⊎ ((r ≡ protobuf) ⊎ ((r ≡ type_error) ⊎ (r ≡ stuck)))
Result-cases (ok a) = inl (a, refl)
Result-cases protobuf = inr (inl refl)
Result-cases type_error = inr (inr (inl refl))
Result-cases stuck = inr (inr (inr refl))

field_value_takes :
    (wire_type : ℕ) (src : Bytes) (value : Value) (rest : Bytes)
    → field_value wire_type src ≡ ok (value, rest)
    → length rest ≤ length src
unfolding field_value
field_value_takes wire_type src value rest e =
    let eight = length-drop 8 src in
    let four = length-drop 4 src in
    elim (Result-cases (varint src)) [
      | inl ((v, behind), read) ↦
          ground (arith, read, varint_takes src v behind read, length-drop v behind, eight, four)
      | inr other ↦ ground (arith, other, eight, four)
    ]

field_value-ne-stuck : (wire_type : ℕ) (src : Bytes) → field_value wire_type src ≢ stuck
unfolding field_value
field_value-ne-stuck wire_type src e = ground (arith, varint-ne-stuck src)

iter_fields_loop-ne-stuck :
    (fuel : ℕ) (src : Bytes) → length src ≤ fuel → iter_fields_loop fuel src ≢ stuck
unfolding iter_fields_loop
iter_fields_loop-ne-stuck fuel [] h e = ground arith
iter_fields_loop-ne-stuck zero (b ∷ bs) h e = absurd (omega arith)
iter_fields_loop-ne-stuck (suc fuel) (b ∷ bs) h e = elim (Result-cases (varint (b ∷ bs))) [
  | inl ((key, behind), read) ↦ elim (Result-cases (field_value (bit_and key 0x7) behind)) [
    | inl ((value, rest), found) ↦ ground (
      arith,
      read,
      found,
      varint_takes (b ∷ bs) key behind read,
      field_value_takes (bit_and key 0x7) behind value rest found,
      iter_fields_loop-ne-stuck fuel rest,
    )
    | inr other ↦ ground (arith, read, other, field_value-ne-stuck (bit_and key 0x7) behind)
  ]
  | inr other ↦ ground (arith, other, varint-ne-stuck (b ∷ bs))
]

-- `iter_fields` ends on every buffer.
pub iter_fields-ne-stuck : (buf : Bytes) → iter_fields buf ≢ stuck
unfolding iter_fields
iter_fields-ne-stuck buf = iter_fields_loop-ne-stuck (length buf) buf (omega arith)

-- A value as a protobuf writer sends it: a varint, a number of 64 or 32 bits, or bytes.
pub data Wire : Type 0 where
  varint_wire fixed64_wire fixed32_wire : ℕ → Wire
  sized_wire : Bytes → Wire

abbrev pub value_of : Wire → Value
value_of (varint_wire n) = int n
value_of (fixed64_wire n) = int n
value_of (fixed32_wire n) = int n
value_of (sized_wire b) = bytes b

-- The fields that a reader gets.
abbrev pub values : List (ℕ × Wire) → List (ℕ × Value)
values [] = []
values ((number, wire) ∷ fields) = (number, value_of wire) ∷ values fields

-- The lowest `size` bytes of a number, the lowest first.
unfoldable pub low_bytes : ℕ → ℕ → Bytes
low_bytes zero n = []
low_bytes (suc size) n = (n % 256) ∷ low_bytes size (n / 256)

unfoldable pub field_bytes : ℕ → Wire → Bytes
field_bytes number (varint_wire n) = varint_bytes 9 (number * 8 + 0) ++ varint_bytes 9 n
field_bytes number (fixed64_wire n) = varint_bytes 9 (number * 8 + 1) ++ low_bytes 8 n
field_bytes number (sized_wire b) =
    varint_bytes 9 (number * 8 + 2) ++ (varint_bytes 9 (length b) ++ b)
field_bytes number (fixed32_wire n) = varint_bytes 9 (number * 8 + 5) ++ low_bytes 4 n

unfoldable pub fields_bytes : List (ℕ × Wire) → Bytes
fields_bytes [] = []
fields_bytes ((number, wire) ∷ fields) = field_bytes number wire ++ fields_bytes fields

-- A number of at most 64 or 32 bits, or bytes of a length of 64 bits.
abbrev pub FitsWord : Wire → Type 0
FitsWord (varint_wire n) = n < 2 ^ 64
FitsWord (fixed64_wire n) = n < 2 ^ 64
FitsWord (fixed32_wire n) = n < 2 ^ 32
FitsWord (sized_wire b) = length b < 2 ^ 64

-- Field numbers have 29 bits.
abbrev pub IsWritable : ℕ × Wire → Type 0
IsWritable (number, wire) = (number < 2 ^ 29) × FitsWord wire

length-low_bytes : (size n : ℕ) → length (low_bytes size n) ≡ size
unfolding low_bytes
length-low_bytes zero n = refl
length-low_bytes (suc size) n = ap suc (length-low_bytes size (n / 256))

little_endian-low_bytes : (size n : ℕ) → n < 256 ^ size → little_endian (low_bytes size n) ≡ n
unfolding low_bytes little_endian
little_endian-low_bytes zero n h = omega (arith, h)
little_endian-low_bytes (suc size) n h =
    let rest = little_endian-low_bytes size (n / 256) (omega (arith, h)) in omega (arith, rest)

read_fixed :
    (size n : ℕ) (rest : Bytes)
    → n < 256 ^ size
    → fixed size (low_bytes size n ++ rest) ≡ ok (int n, rest)
unfolding fixed
read_fixed size n rest h =
    let long = length-low_bytes size n in
    let taken : take size (low_bytes size n ++ rest) ≡ low_bytes size n =
      rw long at (take-length_append (low_bytes size n) rest) in
    let dropped : drop size (low_bytes size n ++ rest) ≡ rest =
      rw long at (drop-length_append (low_bytes size n) rest) in
    ground (
      arith,
      long,
      taken,
      dropped,
      length-append (low_bytes size n) rest,
      little_endian-low_bytes size n h,
    )

iter_step :
    (fuel : ℕ) (src : Bytes) (key number wire_type : ℕ) (behind rest : Bytes) (value : Value)
    → varint src ≡ ok (key, behind)
    → key ≡ number * 8 + wire_type
    → wire_type < 8
    → field_value wire_type behind ≡ ok (value, rest)
    → iter_fields_loop (suc fuel) src
      ≡ (iter_fields_loop fuel rest >>= λ fields. ok ((number, value) ∷ fields))
unfolding iter_fields_loop
iter_step fuel [] key number wire_type behind rest value read split small found =
    absurd (unfold varint varint_loop in cc read)
iter_step fuel (b ∷ bs) key number wire_type behind rest value read split small found =
    let wire : bit_and key 0x7 ≡ wire_type = low_three key ∙ omega arith in
    let field : key / 2 ^ 3 ≡ number = omega arith in ground (arith, read, wire, field, found)

read_int :
    (n : ℕ) (rest : Bytes)
    → n < 2 ^ 64
    → field_value 0 (varint_bytes 9 n ++ rest) ≡ ok (int n, rest)
unfolding field_value
read_int n rest h = ground (arith, varint-varint_bytes n rest (omega arith))

read_bytes :
    (b rest : Bytes)
    → length b < 2 ^ 64
    → field_value 2 (varint_bytes 9 (length b) ++ (b ++ rest)) ≡ ok (bytes b, rest)
unfolding field_value
read_bytes b rest h = ground (
  arith,
  varint-varint_bytes (length b) (b ++ rest) (omega arith),
  length-append b rest,
  take-length_append b rest,
  drop-length_append b rest,
)

read_fixed64 :
    (n : ℕ) (rest : Bytes) → n < 2 ^ 64 → field_value 1 (low_bytes 8 n ++ rest) ≡ ok (int n, rest)
unfolding field_value
read_fixed64 n rest h = read_fixed 8 n rest (omega (arith, h))

read_fixed32 :
    (n : ℕ) (rest : Bytes) → n < 2 ^ 32 → field_value 5 (low_bytes 4 n ++ rest) ≡ ok (int n, rest)
unfolding field_value
read_fixed32 n rest h = read_fixed 4 n rest (omega (arith, h))

-- A field of a given wire type, read by its key.
read_keyed :
    (number wire_type : ℕ) (behind rest : Bytes) (value : Value) (fuel : ℕ)
    → number < 2 ^ 29
    → wire_type < 8
    → field_value wire_type behind ≡ ok (value, rest)
    → iter_fields_loop (suc fuel) (varint_bytes 9 (number * 8 + wire_type) ++ behind)
      ≡ (iter_fields_loop fuel rest >>= λ fields. ok ((number, value) ∷ fields))
read_keyed number wire_type behind rest value fuel h small found =
    iter_step fuel _ (number * 8 + wire_type) number wire_type behind rest value
      (varint-varint_bytes (number * 8 + wire_type) behind (omega arith)) refl small found

read_field :
    (number : ℕ) (wire : Wire) (rest : Bytes) (fuel : ℕ)
    → IsWritable (number, wire)
    → iter_fields_loop (suc fuel) (field_bytes number wire ++ rest)
      ≡ (iter_fields_loop fuel rest >>= λ fields. ok ((number, value_of wire) ∷ fields))
unfolding field_bytes
read_field number (varint_wire n) rest fuel h =
    rw (append_assoc (varint_bytes 9 (number * 8 + 0)) (varint_bytes 9 n) rest)
      (read_keyed number 0 _ rest (int n) fuel h.0 (omega arith) (read_int n rest h.1))
read_field number (fixed64_wire n) rest fuel h =
    rw (append_assoc (varint_bytes 9 (number * 8 + 1)) (low_bytes 8 n) rest)
      (read_keyed number 1 _ rest (int n) fuel h.0 (omega arith) (read_fixed64 n rest h.1))
read_field number (fixed32_wire n) rest fuel h =
    rw (append_assoc (varint_bytes 9 (number * 8 + 5)) (low_bytes 4 n) rest)
      (read_keyed number 5 _ rest (int n) fuel h.0 (omega arith) (read_fixed32 n rest h.1))
read_field number (sized_wire b) rest fuel h =
    rw
      (
        append_assoc (varint_bytes 9 (number * 8 + 2)) (varint_bytes 9 (length b) ++ b) rest,
        append_assoc (varint_bytes 9 (length b)) b rest,
      )
      (read_keyed number 2 _ rest (bytes b) fuel h.0 (omega arith) (read_bytes b rest h.1))

iter_fields_loop-fields_bytes :
    (fields : List (ℕ × Wire)) (fuel : ℕ)
    → All IsWritable fields
    → length fields ≤ fuel
    → iter_fields_loop fuel (fields_bytes fields) ≡ ok (values fields)
unfolding fields_bytes
iter_fields_loop-fields_bytes [] fuel h enough = unfold iter_fields_loop in ground arith
iter_fields_loop-fields_bytes (field ∷ fields) zero h enough = absurd (omega arith)
iter_fields_loop-fields_bytes ((number, wire) ∷ fields) (suc fuel) h enough =
    read_field number wire (fields_bytes fields) fuel h.0
    ∙ rw (iter_fields_loop-fields_bytes fields fuel h.1 (omega arith))

varint_bytes_pos : (k v : ℕ) → 0 < length (varint_bytes k v)
unfolding varint_bytes
varint_bytes_pos zero v = omega arith
varint_bytes_pos (suc k) v = ground arith

field_bytes_pos : (number : ℕ) (wire : Wire) → 0 < length (field_bytes number wire)
unfolding field_bytes
field_bytes_pos number (varint_wire n) = omega (
  arith,
  length-append (varint_bytes 9 (number * 8 + 0)) (varint_bytes 9 n),
  varint_bytes_pos 9 (number * 8 + 0),
)
field_bytes_pos number (fixed64_wire n) = omega (
  arith,
  length-append (varint_bytes 9 (number * 8 + 1)) (low_bytes 8 n),
  varint_bytes_pos 9 (number * 8 + 1),
)
field_bytes_pos number (fixed32_wire n) = omega (
  arith,
  length-append (varint_bytes 9 (number * 8 + 5)) (low_bytes 4 n),
  varint_bytes_pos 9 (number * 8 + 5),
)
field_bytes_pos number (sized_wire b) = omega (
  arith,
  length-append (varint_bytes 9 (number * 8 + 2)) (varint_bytes 9 (length b) ++ b),
  varint_bytes_pos 9 (number * 8 + 2),
)

length-fields_bytes-ge : (fields : List (ℕ × Wire)) → length fields ≤ length (fields_bytes fields)
unfolding fields_bytes
length-fields_bytes-ge [] = omega arith
length-fields_bytes-ge ((number, wire) ∷ fields) = omega (
  arith,
  length-append (field_bytes number wire) (fields_bytes fields),
  field_bytes_pos number wire,
  length-fields_bytes-ge fields,
)

-- Fields with numbers of 29 bits, and as values varints and fixed numbers of 64 bits, fixed numbers
-- of 32 bits, or bytes of a length of 64 bits, are read back in order from what a protobuf writer
-- sends for them.
pub iter_fields-fields_bytes :
    (fields : List (ℕ × Wire))
    → All IsWritable fields
    → iter_fields (fields_bytes fields) ≡ ok (values fields)
unfolding iter_fields
iter_fields-fields_bytes fields h =
    iter_fields_loop-fields_bytes fields (length (fields_bytes fields)) h
      (length-fields_bytes-ge fields)
