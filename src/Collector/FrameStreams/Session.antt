-- ===== src/Collector/FrameStreams/Session.antt =====
-- `serve_connection` on any stream: it ends, and what it hands to the callback is accounted for.
use ca_dns.Prelude.{
  ℕ, zero, suc, ◌+◌, ◌≤◌, ◌<◌, ◌≡◌, refl, ◌≢◌, inl, inr, true, Option, none, some, List, [], ◌∷◌,
  ◌++◌, arith, Option-cases, length, take, drop, All, length-append, length-drop, length-take,
  All-append,
}
use mathlib.Core.Option.{some-injective}
use ca_dns.Collector.FrameStreams.{
  Bytes, Error, Result, ok, err, incomplete, stuck, data_frame_max, unpack, read_exactly,
  read_frame, Connection, Ending, returned, failed, callback_raised, out_of_fuel, Turn, continue,
  finish, on_data, on_control, turn, serve_loop, serve_connection,
}
use ca_dns.Collector.FrameStreams.Control.{decode_control-ne-stuck}

abbrev pub IsDeliverable : Bytes → Type 0
IsDeliverable payload = (0 < length payload) × (length payload ≤ data_frame_max)

read_frame-ne-stuck : (stream : Bytes) → read_frame stream ≢ stuck
unfolding read_frame read_exactly
read_frame-ne-stuck stream e = ground (
  arith,
  decode_control-ne-stuck (take (unpack (take 4 (drop 4 stream))) (drop 4 (drop 4 stream))),
)

-- A frame takes four bytes at least, and a data frame holds 1 to `data_frame_max` bytes.
read_frame_takes :
    (stream payload rest : Bytes) (control : Option ℕ)
    → read_frame stream ≡ ok (control, payload, rest)
    → (length rest < length stream) × (control ≡ none → IsDeliverable payload)
unfolding read_frame read_exactly
read_frame_takes stream payload rest control e =
    let behind = drop 4 stream in
    let len = unpack (take 4 stream) in
    let size = unpack (take 4 behind) in
    ground (
      arith,
      length-drop 4 stream,
      length-drop len behind,
      length-take len behind,
      length-drop 4 behind,
      length-drop size (drop 4 behind),
    )

module _ {S : Type 0} (on_frame : Bytes → S → Option S) (content_type : Bytes) where
  -- One round of the loop, by what it reads and what the turn answers.
  module _ (fuel : ℕ) (stream : Bytes) (s : Connection S) where
    pub serve_loop_continue :
        (control : Option ℕ) (payload rest : Bytes) (s' : Connection S)
        → read_frame stream ≡ ok (control, payload, rest)
        → turn on_frame content_type control payload s ≡ continue s'
        → serve_loop on_frame content_type (suc fuel) stream s
          ≡ serve_loop on_frame content_type fuel rest s'
    unfolding serve_loop
    serve_loop_continue control payload rest s' read t = rw (read, serve_loop) (rw t)

    pub serve_loop_finish :
        (control : Option ℕ) (payload rest : Bytes) (ending : Ending) (s' : Connection S)
        → read_frame stream ≡ ok (control, payload, rest)
        → turn on_frame content_type control payload s ≡ finish ending s'
        → serve_loop on_frame content_type (suc fuel) stream s ≡ (ending, s')
    unfolding serve_loop
    serve_loop_finish control payload rest ending s' read t = rw (read, serve_loop) (rw t)

    pub serve_loop_err :
        (e : Error)
        → read_frame stream ≡ err e
        → serve_loop on_frame content_type (suc fuel) stream s ≡ (failed e, s)
    unfolding serve_loop
    serve_loop_err e read = rw (read, serve_loop)

    serve_loop_incomplete :
        read_frame stream ≡ incomplete
        → serve_loop on_frame content_type (suc fuel) stream s ≡ (returned s.frames, s)
    unfolding serve_loop
    serve_loop_incomplete read = rw (read, serve_loop)

  -- The rule of the loop: `P` holds between two frames, and `Q` of every way to end.
  module _ (P : Connection S → Type 0) (Q : Ending → Connection S → Type 0)
      (goes_on : (control : Option ℕ) (payload : Bytes) (s s' : Connection S)
        → P s
        → (control ≡ none → IsDeliverable payload)
        → turn on_frame content_type control payload s ≡ continue s'
        → P s')
      (finishes : (control : Option ℕ) (payload : Bytes) (s s' : Connection S) (ending : Ending)
        → P s
        → turn on_frame content_type control payload s ≡ finish ending s'
        → Q ending s')
      (breaks : (e : Error) (s : Connection S) → P s → Q (failed e) s)
      (disconnects : (s : Connection S) → P s → Q (returned s.frames) s) where
    serve_loop_rule :
        (fuel : ℕ) (stream : Bytes) (s : Connection S)
        → length stream < fuel
        → P s
        → Q
            (serve_loop on_frame content_type fuel stream s).0
            (serve_loop on_frame content_type fuel stream s).1
    serve_loop_rule zero stream s h p = absurd (omega arith)
    serve_loop_rule (suc fuel) stream s h p =
        after_read (read_frame stream) refl (serve_loop_rule fuel)
      where
        after_turn :
            (control : Option ℕ) (payload rest : Bytes)
            → read_frame stream ≡ ok (control, payload, rest)
            → (t : Turn S) → turn on_frame content_type control payload s ≡ t
            → ((s' : Connection S)
                → P s'
                → Q
                    (serve_loop on_frame content_type fuel rest s').0
                    (serve_loop on_frame content_type fuel rest s').1)
            → Q
                (serve_loop on_frame content_type (suc fuel) stream s).0
                (serve_loop on_frame content_type (suc fuel) stream s).1
        after_turn control payload rest e (continue s') t ih =
            rw (serve_loop_continue fuel stream s control payload rest s' e t) (
              ih s' (
                goes_on control payload s s' p (read_frame_takes stream payload rest control e).1
                  t))
        after_turn control payload rest e (finish ending s') t ih =
            rw (serve_loop_finish fuel stream s control payload rest ending s' e t)
              (finishes control payload s s' ending p t)

        after_read :
            (r : Result (Option ℕ × Bytes × Bytes))
            → read_frame stream ≡ r
            → ((rest : Bytes) (s' : Connection S)
                → length rest < fuel
                → P s'
                → Q
                    (serve_loop on_frame content_type fuel rest s').0
                    (serve_loop on_frame content_type fuel rest s').1)
            → Q
                (serve_loop on_frame content_type (suc fuel) stream s).0
                (serve_loop on_frame content_type (suc fuel) stream s).1
        after_read (ok (control, payload, rest)) e ih =
            after_turn control payload rest e (turn on_frame content_type control payload s) refl
              (λ s' p'.
                ih rest s' (omega (arith, read_frame_takes stream payload rest control e)) p')
        after_read (err x) e ih = rw (serve_loop_err fuel stream s x e) (breaks x s p)
        after_read incomplete e ih = rw (serve_loop_incomplete fuel stream s e) (disconnects s p)
        after_read stuck e ih = absurd (read_frame-ne-stuck stream e)

-- How the loop may end: by the writer, with the number of frames, or by an error or an exception.
abbrev pub EndsWell : {S : Type 0} → Ending → Connection S → Type 0
EndsWell (returned n) s = n ≡ s.frames
EndsWell (failed e) s = Unit
EndsWell callback_raised s = Unit
EndsWell out_of_fuel s = ⊥

module _ {S : Type 0} (on_frame : Bytes → S → Option S) where
  -- The payloads that the callback takes, one after the other.
  abbrev pub feed : List Bytes → S → Option S
  feed [] state = some state
  feed (payload ∷ payloads) state = elim (on_frame payload state) [
    | none ↦ none
    | some state' ↦ feed payloads state'
  ]

  feed-append :
      (payloads : List Bytes) (payload : Bytes) (before middle after : S)
      → feed payloads before ≡ some middle
      → on_frame payload middle ≡ some after
      → feed (payloads ++ (payload ∷ [])) before ≡ some after
  feed-append [] payload before middle after h k =
      let e : before ≡ middle = some-injective before middle h in rw e (rw (k, feed))
  feed-append (p ∷ ps) payload before middle after h k = elim (Option-cases (on_frame p before)) [
    | inl e ↦ cc (rw (e, feed) at h)
    | inr (next, e) ↦ rw (e, feed) (feed-append ps payload next middle after (rw (e, feed) at h) k)
  ]

  -- `payloads` went through the callback, from `state` on, and were counted, only after START.
  pub record Handled (state : S) (s : Connection S) (payloads : List Bytes) : Type 0 where
    pub fed : feed payloads state ≡ some s.state
    pub counted : length payloads ≡ s.frames
    pub deliverable : All IsDeliverable payloads
    pub only_started : 0 < s.frames → s.started ≡ true

module _ {S : Type 0} (on_frame : Bytes → S → Option S) (content_type : Bytes) (state : S) where
  abbrev Accounted : Connection S → Type 0
  Accounted s = (payloads : List Bytes) × Handled on_frame state s payloads

  on_data_continue :
      (payload : Bytes) (s s' : Connection S)
      → on_data on_frame content_type payload s ≡ continue s'
      → (s.started ≡ true)
        × (on_frame payload s.state ≡ some s'.state)
        × (s'.frames ≡ s.frames + 1)
        × (s'.started ≡ true)
  unfolding on_data
  on_data_continue payload s s' e = ground arith

  on_control_continue :
      (control : ℕ) (payload : Bytes) (s s' : Connection S)
      → on_control on_frame content_type control payload s ≡ continue s'
      → (s'.state ≡ s.state) × (s'.frames ≡ s.frames) × (s.started ≡ true → s'.started ≡ true)
  unfolding on_control
  on_control_continue control payload s s' e = ground arith

  goes_on :
      (control : Option ℕ) (payload : Bytes) (s s' : Connection S)
      → Accounted s
      → (control ≡ none → IsDeliverable payload)
      → turn on_frame content_type control payload s ≡ continue s'
      → Accounted s'
  unfolding turn
  goes_on none payload s s' (payloads, h) fits t =
      let (was_started, taken, frames, started) = on_data_continue payload s s' t in
      (
        payloads ++ (payload ∷ []),
        record {
          fed = feed-append on_frame payloads payload state s.state s'.state h.fed taken;
          counted = omega (arith, length-append payloads (payload ∷ []), h.counted);
          deliverable =
              All-append IsDeliverable payloads (payload ∷ []) h.deliverable (fits refl, tt);
          only_started = λ _. started;
        },
      )
  goes_on (some control) payload s s' (payloads, h) fits t =
      let (state_same, frames_same, started) = on_control_continue control payload s s' t in
      (
        payloads,
        record {
          fed = rw state_same h.fed;
          counted = rw frames_same h.counted;
          deliverable = h.deliverable;
          only_started = λ some_frame. started (h.only_started (rw frames_same at some_frame));
        },
      )

  turn_finish :
      (control : Option ℕ) (payload : Bytes) (s s' : Connection S) (ending : Ending)
      → turn on_frame content_type control payload s ≡ finish ending s'
      → EndsWell ending s'
        × (s'.state ≡ s.state)
        × (s'.frames ≡ s.frames)
        × (s'.started ≡ s.started)
  unfolding turn
  turn_finish none payload s s' ending e = ground arith
  turn_finish (some control) payload s s' ending e = ground arith

  finishes :
      (control : Option ℕ) (payload : Bytes) (s s' : Connection S) (ending : Ending)
      → Accounted s
      → turn on_frame content_type control payload s ≡ finish ending s'
      → EndsWell ending s' × Accounted s'
  finishes control payload s s' ending (payloads, h) t =
      let (well, state_same, frames_same, started_same) =
        turn_finish control payload s s' ending t in
      (
        well,
        (
          payloads,
          record {
            fed = rw state_same h.fed;
            counted = rw frames_same h.counted;
            deliverable = h.deliverable;
            only_started =
                λ some_frame. rw started_same (h.only_started (rw frames_same at some_frame));
          },
        ),
      )

  -- For every stream: the session ends, without running out of fuel; what it returns is the number
  -- of data frames; and its state comes from that many payloads of 1 to `data_frame_max` bytes,
  -- given to the callback one by one, none of them before START.
  pub serve_connection_accounts :
      (stream : Bytes)
      → EndsWell
          (serve_connection on_frame content_type stream state).0
          (serve_connection on_frame content_type stream state).1
        × ((payloads : List Bytes) × Handled on_frame state
              (serve_connection on_frame content_type stream state).1
              payloads)
  unfolding serve_connection
  serve_connection_accounts stream =
      serve_loop_rule on_frame content_type Accounted (λ ending s. EndsWell ending s × Accounted s)
        goes_on finishes (λ e s p. (tt, p)) (λ s p. (refl, p)) (suc (length stream)) stream _
        (omega arith)
        (
          [],
          record {
            fed = refl;
            counted = refl;
            deliverable = tt;
            only_started = λ none_yet. absurd (omega arith);
          },
        )
