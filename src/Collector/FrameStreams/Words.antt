-- ===== src/Collector/FrameStreams/Words.antt =====
-- The 32-bit big-endian words of the Frame Streams format, and reads of known length.
use ca_dns.Prelude.{
  ℕ, ◌+◌, ◌^◌, ◌<◌, ◌≡◌, refl, ◌≢◌, ◌++◌, arith, length, drop, length-append, length-drop,
  length-take, take-length_append, drop-length_append,
}
use ca_dns.Collector.FrameStreams.{Bytes, ok, stuck, pack, unpack, read_exactly}

pub unpack-pack : (n : ℕ) (rest : Bytes) → n < 2 ^ 32 → unpack (pack n ++ rest) ≡ n
unfolding pack unpack
unpack-pack n rest h = omega arith

pub length-pack : (n : ℕ) → length (pack n) ≡ 4
unfolding pack
length-pack n = refl

pub drop-pack : (n : ℕ) (rest : Bytes) → drop 4 (pack n ++ rest) ≡ rest
unfolding pack
drop-pack n rest = refl

pub read_exactly-append :
    (front rest : Bytes) → read_exactly (length front) (front ++ rest) ≡ ok (front, rest)
unfolding read_exactly
read_exactly-append front rest =
    ground (
      arith,
      length-append front rest,
      take-length_append front rest,
      drop-length_append front rest,
    )

pub read_exactly-pack : (n : ℕ) (rest : Bytes) → read_exactly 4 (pack n ++ rest) ≡ ok (pack n, rest)
read_exactly-pack n rest = rw (length-pack n) at (read_exactly-append (pack n) rest)

-- A read takes what it was asked for.
pub read_exactly_takes :
    (n : ℕ) (stream payload rest : Bytes)
    → read_exactly n stream ≡ ok (payload, rest)
    → (length payload ≡ n) × (length rest + n ≡ length stream)
unfolding read_exactly
read_exactly_takes n stream payload rest h =
    ground (arith, length-take n stream, length-drop n stream)

pub read_exactly-ne-stuck : (n : ℕ) (stream : Bytes) → read_exactly n stream ≢ stuck
unfolding read_exactly
read_exactly-ne-stuck n stream h = ground arith
