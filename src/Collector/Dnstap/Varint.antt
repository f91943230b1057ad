-- ===== src/Collector/Dnstap/Varint.antt =====
-- `_varint`: what it takes, the numbers it can give, and the round trip with the protobuf encoding.
use ca_dns.Prelude.{
  ℕ, zero, suc, ◌+◌, ◌*◌, ◌/◌, ◌%◌, ◌^◌, ◌≤◌, ◌<◌, bit_and, bit_or, ◌≡◌, ap, ◌∙◌, ◌≢◌, inl, inr, [],
  ◌∷◌, ◌++◌, arith, ltb, if◌then◌else◌, ltb→lt, Bool-cases, length, All,
}
use ca_dns.Prelude.Bits.{bit_or_group, pow_seven}
use native.Mathlib.Nat.{pow-le-pow_right, pow-suc}
use ca_dns.Collector.Dnstap.{Bytes, ok, stuck, varint_loop, varint}

abbrev pub IsByte : ℕ → Type 0
IsByte b = b < 256

varint_loop_takes :
    (src : Bytes) (value shift v : ℕ) (rest : Bytes)
    → varint_loop src value shift ≡ ok (v, rest)
    → length rest < length src
unfolding varint_loop
varint_loop_takes [] value shift v rest e = cc
varint_loop_takes (b ∷ bs) value shift v rest e =
    ground
      (arith, varint_loop_takes bs (bit_or value (bit_and b 0x7f * 2 ^ shift)) (shift + 7) v rest)

pub varint_takes :
    (src : Bytes) (v : ℕ) (rest : Bytes) → varint src ≡ ok (v, rest) → length rest < length src
unfolding varint
varint_takes src v rest e = varint_loop_takes src 0 0 v rest e

varint_loop-ne-stuck : (src : Bytes) (value shift : ℕ) → varint_loop src value shift ≢ stuck
unfolding varint_loop
varint_loop-ne-stuck [] value shift e = cc
varint_loop-ne-stuck (b ∷ bs) value shift e =
    ground (arith, varint_loop-ne-stuck bs (bit_or value (bit_and b 0x7f * 2 ^ shift)) (shift + 7))

pub varint-ne-stuck : (src : Bytes) → varint src ≢ stuck
unfolding varint
varint-ne-stuck src = varint_loop-ne-stuck src 0 0

pow_le_70 : (n : ℕ) → n ≤ 70 → 2 ^ n ≤ 2 ^ 70
pow_le_70 n h = pow-le-pow_right {n = 2} (omega arith) h

-- After `k` bytes the shift is `7 * k`, and the loop goes on only while that is at most 63.
varint_loop_bounds :
    (src : Bytes) (k shift value v : ℕ) (rest : Bytes)
    → All IsByte src
    → shift ≡ 7 * k
    → k ≤ 10
    → value < 2 ^ shift
    → varint_loop src value shift ≡ ok (v, rest)
    → (v < 2 ^ 70) × (length src + k ≤ length rest + 10)
unfolding varint_loop
varint_loop_bounds [] k shift value v rest small hs enough fits e = cc
varint_loop_bounds (b ∷ bs) k shift value v rest small hs enough fits e =
    let value' = bit_or value (bit_and b 0x7f * 2 ^ shift) in
    let (joined, wider) = bit_or_group shift value b fits small.0 in
    let grown : value' < 2 ^ (shift + 7) = rw joined wider in
    ground (
      arith,
      grown,
      pow_le_70 (shift + 7),
      varint_loop_bounds bs (k + 1) (shift + 7) value' v rest small.1,
    )

-- A number that `_varint` reads is below 2 ^ 70 and takes ten bytes at most: the bound of the test
-- `shift > 63`, which also lets numbers of more than 64 bits pass.
pub varint_bounds :
    (src : Bytes) (v : ℕ) (rest : Bytes)
    → All IsByte src
    → varint src ≡ ok (v, rest)
    → (v < 2 ^ 70) × (length rest < length src) × (length src ≤ length rest + 10)
unfolding varint
varint_bounds src v rest small e =
    let (bound, size) =
      varint_loop_bounds src 0 0 0 v rest small (omega arith) (omega arith) (omega arith) e in
    (bound, varint_takes src v rest e, omega (arith, size))

-- The protobuf encoding of a number, groups of seven bits, in `k + 1` bytes at most.
unfoldable pub varint_bytes : ℕ → ℕ → Bytes
varint_bytes zero v = v ∷ []
varint_bytes (suc k) v =
    let higher = varint_bytes k (v / 128) in if ltb v 128 then v ∷ [] else (v % 128 + 128) ∷ higher

last_byte :
    (w value shift : ℕ) (rest : Bytes)
    → w < 128
    → shift ≤ 63
    → value < 2 ^ shift
    → varint_loop (w ∷ rest) value shift ≡ ok (value + w * 2 ^ shift, rest)
unfolding varint_loop
last_byte w value shift rest small near fits =
    ground (arith, bit_or_group shift value w fits (omega arith))

other_byte :
    (g value shift : ℕ) (rest : Bytes)
    → g < 128
    → shift ≤ 63
    → value < 2 ^ shift
    → (varint_loop ((g + 128) ∷ rest) value shift
        ≡ varint_loop rest (value + g * 2 ^ shift) (shift + 7))
      × (value + g * 2 ^ shift < 2 ^ (shift + 7))
unfolding varint_loop
other_byte g value shift rest small near fits =
    let low : (g + 128) % 128 ≡ g = omega arith in
    ground (arith, low, bit_or_group shift value (g + 128) fits (omega arith))

groups_join :
    (value v shift : ℕ)
    → value + v % 128 * 2 ^ shift + v / 128 * 2 ^ (shift + 7) ≡ value + v * 2 ^ shift
groups_join value v shift =
    let weight = 2 ^ shift in
    let high : v / 128 * 2 ^ (shift + 7) ≡ v / 128 * 128 * weight =
      rw (pow_seven shift) (omega arith) in
    let whole : v * weight ≡ (v / 128 * 128 + v % 128) * weight =
      ap (λ (n : ℕ). n * weight) (omega arith) in
    omega (arith, high, whole)

varint_loop-varint_bytes :
    (k j v value shift : ℕ) (rest : Bytes)
    → shift ≡ 7 * j
    → j + k ≤ 9
    → v < 128 ^ suc k
    → value < 2 ^ shift
    → varint_loop (varint_bytes k v ++ rest) value shift ≡ ok (value + v * 2 ^ shift, rest)
unfolding varint_bytes
varint_loop-varint_bytes zero j v value shift rest hs hj hv fits =
    last_byte v value shift rest hv (omega arith) fits
varint_loop-varint_bytes (suc k) j v value shift rest hs hj hv fits =
    elim (Bool-cases (ltb v 128)) [
      | inl one ↦ rw one (last_byte v value shift rest (ltb→lt v 128 one) (omega arith) fits)
      | inr more ↦
          let (step, wider) =
            other_byte (v % 128) value shift (varint_bytes k (v / 128) ++ rest) (omega arith)
              (omega arith) fits in
          rw more (
            step
            ∙ varint_loop-varint_bytes k (j + 1) (v / 128) (value + v % 128 * 2 ^ shift) (shift + 7)
                rest (omega arith) (omega arith) (omega (arith, pow-suc 128 (suc k))) wider
            ∙ ap (λ (n : ℕ). ok (n, rest)) (groups_join value v shift))
    ]

-- `_varint` reads back every number below 2 ^ 70 from its encoding, and leaves what follows.
pub varint-varint_bytes :
    (v : ℕ) (rest : Bytes) → v < 2 ^ 70 → varint (varint_bytes 9 v ++ rest) ≡ ok (v, rest)
unfolding varint
varint-varint_bytes v rest h =
    varint_loop-varint_bytes 9 0 v 0 0 rest (omega arith) (omega arith) h (omega arith)
    ∙ ap (λ (n : ℕ). ok (n, rest)) (omega arith)
