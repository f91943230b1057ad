-- ===== src/Prelude/Bits.antt =====
-- Masks on one byte as arithmetic, and the union of bit fields that do not overlap.
use Prim.Native.Nat.{
  ℕ, zero, suc, ◌+◌, ◌*◌, ◌/◌, ◌%◌, ◌^◌, ◌≤◌, ◌<◌, max, min, bit_and, bit_or, digits,
  bit_or-bitwise, bit_and-bitwise,
}
use mathlib.Core.Path.{◌≡◌, refl, ap, ◌∙◌}
use native.Mathlib.Nat.{pow-suc, mul-le-mul_right}
use native.Mathlib.Numerals.{towards_suc}
use mathlib.Core.Bool.{Bool, true, false}
use mathlib.Core.Logic.{ite}
use native.Mathlib.Decide.{ℕ_discrete}
use native.Mathlib.Omega.{arith}

module _ (f g : ℕ → ℕ) where
  agree_below : ℕ → Bool
  unfolding ℕ_discrete
  agree_below zero = true
  agree_below (suc n) = ite (ℕ_discrete (f n) (g n)) (agree_below n) false

  agree_below→eq : (n : ℕ) → agree_below n ≡ true → (i : ℕ) → i < n → f i ≡ g i
  unfolding agree_below
  agree_below→eq zero e i h = absurd (omega arith)
  agree_below→eq (suc n) e i h = ground (arith, agree_below→eq n (ground arith) i)

pub low_bits : (b : ℕ) → b < 256 → bit_and b 0x7f ≡ b % 128
unfolding agree_below
low_bits = agree_below→eq _ _ 256 refl

halve_shifted : (g k : ℕ) → (g * 2 ^ suc k / 2 ≡ g * 2 ^ k) × (g * 2 ^ suc k % 2 ≡ 0)
halve_shifted g k = (
  omega (arith, ap (λ (t : ℕ). g * t) (pow-suc 2 k)),
  omega (arith, ap (λ (t : ℕ). g * t) (pow-suc 2 k)),
)

-- `|` goes digit by digit, `n` rounds at most, and the digits of `v` lie below those of `g * 2 ^ k`.
or_rounds_disjoint :
    (n k v g : ℕ) → v ≤ n → v < 2 ^ k → digits (λ b. b) max n v (g * 2 ^ k) ≡ v + g * 2 ^ k
or_rounds_disjoint zero k zero g h fits = omega arith
or_rounds_disjoint zero k (suc v) g h fits = absurd (omega arith)
or_rounds_disjoint (suc n) k zero g h fits = omega arith
or_rounds_disjoint (suc n) zero (suc v) g h fits = absurd (omega arith)
or_rounds_disjoint (suc n) (suc k) (suc v) g h fits =
    let (halved, even) = halve_shifted g k in
    rw halved (
      omega (
        arith,
        even,
        halved,
        or_rounds_disjoint n k (suc v / 2) g (omega arith) (omega (arith, pow-suc 2 k)),
      ))

pub bit_or_disjoint : (k v g : ℕ) → v < 2 ^ k → bit_or v (g * 2 ^ k) ≡ v + g * 2 ^ k
bit_or_disjoint k v g fits =
    bit_or-bitwise v (g * 2 ^ k) ∙ or_rounds_disjoint v k v g (omega arith) fits

pub pow_seven : (s : ℕ) → 2 ^ (s + 7) ≡ 128 * 2 ^ s
pow_seven s = simp towards_suc (omega arith)

-- One more group of seven bits above `shift` bits, as a loop over a variable-length number adds it.
pub bit_or_group :
    (shift value byte : ℕ)
    → value < 2 ^ shift
    → byte < 256
    → (bit_or value (bit_and byte 0x7f * 2 ^ shift) ≡ value + byte % 128 * 2 ^ shift)
      × (value + byte % 128 * 2 ^ shift < 2 ^ (shift + 7))
bit_or_group shift value byte fits small = (
  rw (low_bits byte small) (bit_or_disjoint shift value (byte % 128) fits),
  omega (
    arith,
    pow_seven shift,
    mul-le-mul_right {m = byte % 128} {n = 127} (2 ^ shift) (omega arith),
  ),
)

-- `a & m` for the masks of one, two and three low digits.
mask_none : (n a : ℕ) → digits (λ b. zero) min n a 0 ≡ 0
mask_none zero a = refl
mask_none (suc n) zero = refl
mask_none (suc n) (suc a) = omega (arith, mask_none n (suc a / 2))

mask_one : (n a : ℕ) → a ≤ n → digits (λ b. zero) min n a 1 ≡ a % 2
mask_one zero zero h = refl
mask_one zero (suc a) h = absurd (omega arith)
mask_one (suc n) zero h = refl
mask_one (suc n) (suc a) h = omega (arith, mask_none n (suc a / 2))

mask_three : (n a : ℕ) → a ≤ n → digits (λ b. zero) min n a 3 ≡ a % 4
mask_three zero zero h = refl
mask_three zero (suc a) h = absurd (omega arith)
mask_three (suc n) zero h = refl
mask_three (suc n) (suc a) h = omega (arith, mask_one n (suc a / 2) (omega arith))

mask_seven : (n a : ℕ) → a ≤ n → digits (λ b. zero) min n a 7 ≡ a % 8
mask_seven zero zero h = refl
mask_seven zero (suc a) h = absurd (omega arith)
mask_seven (suc n) zero h = refl
mask_seven (suc n) (suc a) h = omega (arith, mask_three n (suc a / 2) (omega arith))

pub low_three : (a : ℕ) → bit_and a 0x7 ≡ a % 8
low_three a = bit_and-bitwise a 7 ∙ mask_seven a a (omega arith)
