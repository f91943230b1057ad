-- ===== src/Collector/FrameStreams.antt =====
-- services/src/cadns/collector/framestreams.py: the Frame Streams reader.
-- Bytes are a list of numbers below 256. A position `pos` in a payload is the list of the bytes
-- from `pos` on, so `len(payload) - pos` is its length. The reader's stream is the list of the
-- bytes still to come, and its end is the end of the stream.
pub mod Words
pub mod Control
pub mod Session
pub mod Handshake
pub mod Refusals
mod Tests
use ca_dns.Prelude.{
  ℕ, zero, suc, ◌+◌, ◌*◌, ◌/◌, ◌%◌, ◌^◌, Bool, true, false, not, ◌&&◌, Option, none, some, List, [],
  ◌∷◌, ◌++◌, ltb, leb, ◌==◌, if◌then◌else◌, length, take, drop, any,
}
use ca_dns.Prelude.Text.{text_eq, join, split, codes}

abbrev pub Bytes : Type 0
Bytes = List ℕ

-- The reasons for a `FrameStreamsError`.
pub data Error : Type 0 where
  control_too_short truncated_field truncated_value : Error
  data_too_long control_too_long : ℕ → Error
  data_before_start not_offered : Error
  unexpected_content_type : Bytes → Error
  unexpected_control : ℕ → Error

-- `incomplete` is `asyncio.IncompleteReadError`. `stuck` is no outcome of the code: fuel ran out.
pub data Result {ℓ} (A : Type ℓ) : Type ℓ where
  ok : A → Result A
  err : Error → Result A
  incomplete : Result A
  stuck : Result A

infixl 5 ◌>>=◌
abbrev pub ◌>>=◌ {ℓ κ} : {A : Type ℓ} {B : Type κ} → Result A → (A → Result B) → Result B
ok a >>= f = f a
err e >>= f = err e
incomplete >>= f = incomplete
stuck >>= f = stuck

abbrev pub control_accept : ℕ
control_accept = 1

abbrev pub control_start : ℕ
control_start = 2

abbrev pub control_stop : ℕ
control_stop = 3

abbrev pub control_ready : ℕ
control_ready = 4

abbrev pub control_finish : ℕ
control_finish = 5

abbrev pub field_content_type : ℕ
field_content_type = 1

abbrev pub control_frame_max : ℕ
control_frame_max = 512

abbrev pub data_frame_max : ℕ
data_frame_max = 2 ^ 20

abbrev pub dnstap_content_type : Bytes
dnstap_content_type = codes "protobuf:dnstap.Dnstap"

abbrev newline : ℕ
newline = 10

-- `_U32.pack(n)`: 32 bits, the highest byte first.
unfoldable pub pack : ℕ → Bytes
pack n = (n / 2 ^ 24 % 256) ∷ (n / 2 ^ 16 % 256) ∷ (n / 2 ^ 8 % 256) ∷ (n % 256) ∷ []

-- `_U32.unpack_from(payload, pos)` at a position with four bytes behind it.
unfoldable pub unpack : Bytes → ℕ
unpack (a ∷ b ∷ c ∷ d ∷ _) = a * 2 ^ 24 + b * 2 ^ 16 + c * 2 ^ 8 + d
unpack _ = 0

unfoldable pub encode_fields : List Bytes → Bytes
encode_fields [] = []
encode_fields (ct ∷ cts) =
    pack field_content_type ++ (pack (length ct) ++ (ct ++ encode_fields cts))

-- What `encode_control` calls its payload.
unfoldable pub control_payload : ℕ → List Bytes → Bytes
unfolding encode_fields
control_payload control_type cts = pack control_type ++ encode_fields cts

unfoldable pub encode_control : ℕ → List Bytes → Bytes
encode_control control_type cts =
    let payload = control_payload control_type cts in pack 0 ++ (pack (length payload) ++ payload)

-- The `while` loop of `decode_control`: the bytes from `pos` on, and the content types so far.
decode_fields : ℕ → Bytes → List Bytes → Result (List Bytes)
decode_fields fuel [] content_types = ok content_types
decode_fields zero (b ∷ bs) content_types = stuck
decode_fields (suc fuel) (b ∷ bs) content_types =
    let field_type = unpack (b ∷ bs) in
    let len = unpack (drop 4 (b ∷ bs)) in
    let value = drop 8 (b ∷ bs) in
    let found =
      if field_type == field_content_type
      then content_types ++ (take len value ∷ [])
      else content_types in
    let rest = decode_fields fuel (drop len value) found in
    if ltb (length (b ∷ bs)) 8
    then err truncated_field
    else if ltb (length value) len
    then err truncated_value
    else rest

-- Each field takes eight bytes at least, so as many rounds as bytes are enough.
unfoldable pub decode_control : Bytes → Result (ℕ × List Bytes)
unfolding decode_fields
decode_control payload = if ltb (length payload) 4 then err control_too_short else do
  content_types ← decode_fields (length payload) (drop 4 payload) []
  ok (unpack payload, content_types)

-- `await reader.readexactly(n)`
unfoldable pub read_exactly : ℕ → Bytes → Result (Bytes × Bytes)
read_exactly n stream =
    if leb n (length stream) then ok (take n stream, drop n stream) else incomplete

-- `_read_frame` behind a length above 0.
read_data : ℕ → Bytes → Result (Option ℕ × Bytes × Bytes)
read_data len stream =
    if ltb data_frame_max len
    then err (data_too_long len)
    else do (payload, rest) ← read_exactly len stream; ok (none, payload, rest)

read_payload : ℕ → Bytes → Result (Option ℕ × Bytes × Bytes)
read_payload len stream = if ltb control_frame_max len then err (control_too_long len) else do
  (payload, rest) ← read_exactly len stream
  (control_type, content_types) ← decode_control payload
  ok (some control_type, join newline content_types, rest)

-- `_read_frame`: the control type and the joined content types, or no control type and the data;
-- behind them the rest of the stream.
unfoldable pub read_frame : Bytes → Result (Option ℕ × Bytes × Bytes)
unfolding read_data read_payload
read_frame stream = do
  (header, behind) ← read_exactly 4 stream
  if ltb 0 (unpack header)
      then read_data (unpack header) behind
      else do (size, after) ← read_exactly 4 behind; read_payload (unpack size) after

-- The variables of `serve_connection`, the bytes written to the peer, and the state that the
-- callback `on_frame` works on.
pub record Connection (S : Type 0) : Type 0 where
  pub frames : ℕ
  pub started : Bool
  pub written : Bytes
  pub state : S

-- How a session ends: it returns the number of frames, raises a `FrameStreamsError`, or passes on
-- an exception of `on_frame`. `out_of_fuel` is no outcome of the code.
pub data Ending : Type 0 where
  returned : ℕ → Ending
  failed : Error → Ending
  callback_raised : Ending
  out_of_fuel : Ending

-- One turn of the loop goes on, or ends the session.
pub data Turn (S : Type 0) : Type 0 where
  continue : Connection S → Turn S
  finish : Ending → Connection S → Turn S

-- `on_frame(data)` changes the state; `none` is an exception.
module _ {S : Type 0} (on_frame : Bytes → S → Option S) (content_type : Bytes) where
  -- `control is None`
  unfoldable pub on_data : Bytes → Connection S → Turn S
  on_data payload s =
      if not s.started
      then finish (failed data_before_start) s
      else elim (on_frame payload s.state) [
        | none ↦ finish callback_raised s
        | some state ↦ continue (record s { state = state; frames = s.frames + 1 })
      ]

  unfoldable pub on_ready : Bytes → Connection S → Turn S
  on_ready offered s =
      if any (text_eq content_type) (split newline offered)
      then continue
          (record s { written = s.written ++ encode_control control_accept (content_type ∷ []) })
      else finish (failed not_offered) s

  unfoldable pub on_start : Bytes → Connection S → Turn S
  on_start chosen s =
      if not (leb (length chosen) 0) && not (text_eq chosen content_type)
      then finish (failed (unexpected_content_type chosen)) s
      else continue (record s { started = true })

  unfoldable pub on_stop : Connection S → Turn S
  on_stop s =
      finish (returned s.frames)
        (record s { written = s.written ++ encode_control control_finish [] })

  unfoldable pub on_control : ℕ → Bytes → Connection S → Turn S
  unfolding on_ready on_start on_stop
  on_control control payload s =
      if control == control_ready
      then on_ready payload s
      else if control == control_start
      then on_start payload s
      else if control == control_stop
      then on_stop s
      else finish (failed (unexpected_control control)) s

  unfoldable pub turn : Option ℕ → Bytes → Connection S → Turn S
  unfolding on_data on_control
  turn none payload s = on_data payload s
  turn (some control) payload s = on_control control payload s

  -- The `while True` loop; each frame takes four bytes of the stream at least.
  unfoldable pub serve_loop : ℕ → Bytes → Connection S → Ending × Connection S
  serve_loop zero stream s = (out_of_fuel, s)
  serve_loop (suc fuel) stream s = elim (read_frame stream) [
    | ok (control, payload, rest) ↦ elim (turn control payload s) [
      | continue s' ↦ serve_loop fuel rest s'
      | finish ending s' ↦ (ending, s')
    ]
    | err e ↦ (failed e, s)
    | incomplete ↦ (returned s.frames, s)
    | stuck ↦ (out_of_fuel, s)
  ]

  unfoldable pub serve_connection : Bytes → S → Ending × Connection S
  serve_connection stream state =
      serve_loop (suc (length stream)) stream
        (record { frames = 0; started = false; written = []; state = state })
