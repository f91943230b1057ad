-- ===== src/Monitor/Schedules/Progress.antt =====
-- The rounds of `Monitor.run`, one after the other.
use ca_dns.Prelude.{
  ℕ, zero, suc, ◌+◌, ◌-◌, ◌≤◌, ◌<◌, min, ◌≡◌, refl, inl, inr, Bool, true, false, ◌||◌, some, List,
  [], ◌∷◌, arith, ltb, leb, Bool-cases, Option-cases, length, filter, All,
}
use ca_dns.Monitor.Schedules.{Schedule, Runs, stopped, running, next_due, run_due, sleep_until, run}
use ca_dns.Monitor.Schedules.Rounds.{total, total-run_due, called, due_at, run_due-Advanced}
use mathlib.Core.Option.{some-injective}

-- A schedule that is due is counted.
next_due-counted :
    {World : Type 0} (now : ℕ) (ss : List (Schedule World)) (due : ℕ)
    → next_due ss ≡ some due
    → due ≤ now
    → 0 < length (filter (λ (s : Schedule World). leb s.next_run now) ss)
unfolding next_due
next_due-counted now [] due e le = absurd (ground (arith, e))
next_due-counted now (s ∷ ss) due e le = elim (Option-cases (next_due ss)) [
  | inl none_left ↦
      let same : s.next_run ≡ due = some-injective _ _ (rw none_left at e) in
      ground (arith, le, same)
  | inr (rest, found) ↦
      let same : min s.next_run rest ≡ due = some-injective _ _ (rw found at e) in
      ground (arith, le, same, next_due-counted now ss rest found)
]

next_due-cons :
    {World : Type 0} (s : Schedule World) (ss : List (Schedule World))
    → (due : ℕ) × (next_due (s ∷ ss) ≡ some due)
unfolding next_due
next_due-cons s ss = elim (Option-cases (next_due ss)) [
  | inl e ↦ rw (e, next_due) (s.next_run, refl)
  | inr (rest, e) ↦ rw (e, next_due) (min s.next_run rest, refl)
]

module _ {World : Type 0} (wall monotonic : World → ℕ × World) (is_set : World → Bool)
    (sleep : ℕ → World → World) where
  -- A round loses no schedule, so there is a next due time.
  next_due-run_due :
      (now : ℕ) (ss : List (Schedule World)) (runs : Runs) (w : World) (due : ℕ)
      → next_due ss ≡ some due
      → (due' : ℕ) × (next_due (run_due wall monotonic is_set now ss runs w).0 ≡ some due')
  unfolding run_due
  next_due-run_due now [] runs w due e = (due, e)
  next_due-run_due now (s ∷ ss) runs w due e = elim (Bool-cases (is_set w || ltb now s.next_run)) [
    | inl over ↦ rw (over, run_due) (next_due-cons _ _)
    | inr ran ↦ rw (ran, run_due) (next_due-cons _ _)
  ]

  -- A count of calls of jobs that the world keeps: nothing else lowers it.
  pub record KeepsCount (counts : World → ℕ) : Type 0 where
    pub by_wall : (w : World) → counts w ≤ counts (wall w).1
    pub by_monotonic : (w : World) → counts w ≤ counts (monotonic w).1
    pub by_sleep : (seconds : ℕ) (w : World) → counts w ≤ counts (sleep seconds w)

  -- Each call of the schedule's job is counted.
  abbrev pub IsCounted : (World → ℕ) → Schedule World → Type 0
  IsCounted counts s = (now : ℕ) (w : World) → counts w < counts (s.job now w).1

  module _ (counts : World → ℕ) (keeps : KeepsCount counts) where
    called-counts :
        (ss : List (Schedule World)) (w : World)
        → All (IsCounted counts) ss
        → counts w + length ss ≤ counts (called wall monotonic ss w)
    called-counts [] w counted = omega arith
    called-counts (s ∷ ss) w (here, rest) =
        let read = keeps.by_wall w in
        let call = here (wall w).0 (wall w).1 in
        let after = (s.job (wall w).0 (wall w).1).1 in
        let reading = keeps.by_monotonic after in
        let others = called-counts ss (monotonic after).1 rest in
        omega (arith, read, call, reading, others)

    due_at-IsCounted :
        (now : ℕ) (ss : List (Schedule World))
        → All (IsCounted counts) ss
        → All (IsCounted counts) (due_at now ss)
    due_at-IsCounted now [] counted = tt
    due_at-IsCounted now (s ∷ ss) h = ground (arith, due_at-IsCounted now ss h.1)

    run_due-IsCounted :
        (now : ℕ) (ss : List (Schedule World)) (runs : Runs) (w : World)
        → All (IsCounted counts) ss
        → All (IsCounted counts) (run_due wall monotonic is_set now ss runs w).0
    unfolding run_due
    run_due-IsCounted now [] runs w counted = tt
    run_due-IsCounted now (s ∷ ss) runs w (here, rest) =
        elim (Bool-cases (is_set w || ltb now s.next_run)) [
          | inl over ↦ rw (over, run_due) (here, run_due-IsCounted now ss runs w rest)
          | inr ran ↦ rw (ran, run_due) (here, run_due-IsCounted now ss _ _ rest)
        ]

    sleep_until-counts :
        (due : ℕ) (w : World) → counts w ≤ counts (sleep_until wall monotonic is_set sleep due w)
    unfolding sleep_until
    sleep_until-counts due w =
        let read = keeps.by_monotonic w in
        let slept = keeps.by_sleep (due - (monotonic w).0) (monotonic w).1 in
        omega (arith, read, slept)

  -- Neither reading the clock nor a sleep clears the stop event, and a sleep that it does not end
  -- takes its time by the clock.
  pub record Sleeps : Type 0 where
    pub by_reading : (w : World) → is_set w ≡ true → is_set (monotonic w).1 ≡ true
    pub by_sleeping : (seconds : ℕ) (w : World) → is_set w ≡ true → is_set (sleep seconds w) ≡ true
    pub wakes :
        (seconds : ℕ) (w : World)
        → is_set (sleep seconds (monotonic w).1) ≡ false
        → (monotonic w).0 + seconds ≤ (monotonic (sleep seconds (monotonic w).1)).0

  module _ (sleeps : Sleeps) where
    slept_unset :
        (due : ℕ) (w : World)
        → is_set (sleep_until wall monotonic is_set sleep due w) ≡ false
        → (is_set w ≡ false) × (due ≤ (monotonic (sleep_until wall monotonic is_set sleep due w)).0)
    unfolding sleep_until
    slept_unset due w h =
        let woke = sleeps.wakes (due - (monotonic w).0) w h in
        (
          elim (Bool-cases (is_set w)) [
            | inl set ↦
                let stays : is_set (sleep_until wall monotonic is_set sleep due w) ≡ true =
                  sleeps.by_sleeping _ _ (sleeps.by_reading w set) in
                absurd (ground (arith, h, stays))
            | inr unset ↦ unset
          ],
          omega (arith, woke),
        )

    run_unset :
        (rounds : ℕ) (ss ss' : List (Schedule World)) (runs runs' : Runs) (w w' : World)
        → run wall monotonic is_set sleep rounds ss runs w ≡ running ss' runs' w'
        → is_set w' ≡ false
        → is_set w ≡ false
    unfolding run
    run_unset zero ss ss' runs runs' w w' e h = cc
    run_unset (suc rounds) ss ss' runs runs' w w' e h = elim (Bool-cases (is_set w)) [
      | inl set ↦ let ended : stopped ss runs w ≡ running ss' runs' w' = rw (set, run) at e in cc
      | inr unset ↦ unset
    ]

    -- A round of `run` whose successors leave the stop event unset.
    run_round :
        (rounds : ℕ) (ss ss' : List (Schedule World)) (runs runs' : Runs) (w w' : World) (due : ℕ)
        → run wall monotonic is_set sleep (suc rounds) ss runs w ≡ running ss' runs' w'
        → is_set w' ≡ false
        → let turn = run_due wall monotonic is_set (monotonic w).0 ss runs (monotonic w).1 in
          next_due turn.0 ≡ some due
          → (run wall monotonic is_set sleep rounds turn.0 turn.1
                (sleep_until wall monotonic is_set sleep due turn.2)
              ≡ running ss' runs' w')
            × (is_set turn.2 ≡ false)
            × (due ≤ (monotonic (sleep_until wall monotonic is_set sleep due turn.2)).0)
    unfolding run
    run_round rounds ss ss' runs runs' w w' due e h found =
        let unset = run_unset (suc rounds) ss ss' runs runs' w w' e h in
        let e' = rw (unset, run, found) at e in
        let (before, woke) = slept_unset due _ (run_unset rounds _ ss' _ runs' _ w' e' h) in
        (e', before, woke)

    -- The stop event stays set when the clock is read and over a sleep, and a sleep that it does not
    -- end takes its time by the clock. Each call of a schedule's job adds to a count of the world, and
    -- neither a clock nor a sleep takes from it. Nobody stops the monitor, and some schedule is due
    -- when it begins. Then it calls a job, and counts a run, once at least in every round: the count
    -- and the sum of the runs both grow by the number of rounds or more.
    pub run_progress :
        (counts : World → ℕ)
        → KeepsCount counts
        → (rounds : ℕ) (ss ss' : List (Schedule World)) (runs runs' : Runs) (w w' : World) (due : ℕ)
        → All (IsCounted counts) ss
        → run wall monotonic is_set sleep rounds ss runs w ≡ running ss' runs' w'
        → is_set w' ≡ false
        → next_due ss ≡ some due
        → due ≤ (monotonic w).0
        → (total runs + rounds ≤ total runs') × (counts w + rounds ≤ counts w')
    unfolding run
    run_progress counts keeps zero ss ss' runs runs' w w' due counted e h found le =
        let same : runs ≡ runs' = cc in
        let same' : w ≡ w' = cc in (ground (arith, same), ground (arith, same'))
    run_progress counts keeps (suc rounds) ss ss' runs runs' w w' due counted e h found le =
        let now = (monotonic w).0 in
        let turn = run_due wall monotonic is_set now ss runs (monotonic w).1 in
        let (due', found') = next_due-run_due now ss runs (monotonic w).1 due found in
        let (rest, unset, woke) = run_round rounds ss ss' runs runs' w w' due' e h found' in
        let (grown, calls) =
          run_progress counts keeps rounds turn.0 ss' turn.1 runs' _ w' due'
            (run_due-IsCounted counts keeps now ss runs (monotonic w).1 counted) rest h found'
            woke in
        let counted_now = total-run_due wall monotonic is_set now ss runs (monotonic w).1 unset in
        let some_due = next_due-counted now ss due found le in
        let (_, _, same) =
          run_due-Advanced wall monotonic is_set now ss runs (monotonic w).1 unset in
        let calls_now : counts (monotonic w).1 + length (due_at now ss) ≤ counts turn.2 = rw same (
          called-counts counts keeps (due_at now ss) (monotonic w).1
            (due_at-IsCounted counts keeps now ss counted)) in
        let read = keeps.by_monotonic w in
        let slept = sleep_until-counts counts keeps due' turn.2 in
        (
          omega (arith, grown, counted_now, some_due),
          omega (arith, calls, calls_now, some_due, read, slept),
        )
