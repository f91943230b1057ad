-- ===== src/Monitor/Schedules/Tests.antt =====
-- Two jobs, one of which always raises, on a clock that only jobs and sleeping move.
use ca_dns.Prelude.{ℕ, ◌+◌, ◌≤◌, ◌≡◌, refl, Bool, false, List, [], ◌∷◌, arith, length}
use ca_dns.Prelude.Text.{Text, text_eq}
use ca_dns.Monitor.Schedules.{
  Ran, ended, raised, Schedule, count_run, running, next_due, run_job, run_due, sleep_until, run,
}
use ca_dns.Monitor.Schedules.Rounds.{Advanced, runs_of, due_named, total, run_due-Advanced}
use ca_dns.Monitor.Schedules.Progress.{Sleeps, KeepsCount, run_progress}

-- The clock, and whether the monitor is stopped.
abbrev World : Type 0
World = ℕ × Bool

abbrev clock : World → ℕ × World
clock w = (w.0, w)

abbrev is_stopped : World → Bool
is_stopped w = w.1

abbrev sleep_for : ℕ → World → World
sleep_for seconds w = (w.0 + seconds, w.1)

abbrev scan : Schedule World
scan = record {
  name = 1 ∷ [];
  interval_seconds = 5;
  job = λ now w. (ended, (w.0 + 1, w.1));
  next_run = 0;
}

abbrev collection : Schedule World
collection = record {
  name = 2 ∷ [];
  interval_seconds = 12;
  job = λ now w. (raised, w);
  next_run = 0;
}

abbrev schedules : List (Schedule World)
schedules = scan ∷ collection ∷ []

run_due-Advanced_example :
    let (after, runs, w) = run_due clock clock is_stopped 3 schedules [] (3, false) in
    Advanced 3 schedules after
    × ((name : Text) → runs_of name runs ≡ 0 + length (due_named 3 name schedules))
    × (w ≡ (4, false))
unfolding runs_of run_due
run_due-Advanced_example = run_due-Advanced clock clock is_stopped 3 schedules [] (3, false) refl

-- The scan runs at 3, 5 and 10, the collection at 3 and 12.
four_rounds :
    run clock clock is_stopped sleep_for 4 schedules [] (3, false)
    ≡ running
        (record scan { next_run = 15 } ∷ record collection { next_run = 24 } ∷ [])
        ((1 ∷ [], 3) ∷ (2 ∷ [], 2) ∷ [])
        (15, false)
unfolding run run_due run_job sleep_until next_due count_run text_eq
four_rounds = refl

-- The world with a count of the calls.
abbrev Counted : Type 0
Counted = ℕ × World

abbrev counted_clock : Counted → ℕ × Counted
counted_clock (n, w) = (w.0, (n, w))

abbrev count_job : (ℕ → World → Ran × World) → ℕ → Counted → Ran × Counted
count_job job now (n, w) = ((job now w).0, (n + 1, (job now w).1))

abbrev counted_scan : Schedule Counted
counted_scan = record {
  name = scan.name;
  interval_seconds = 5;
  job = count_job scan.job;
  next_run = 0;
}

abbrev counted_collection : Schedule Counted
counted_collection = record {
  name = collection.name;
  interval_seconds = 12;
  job = count_job collection.job;
  next_run = 0;
}

abbrev counted_schedules : List (Schedule Counted)
counted_schedules = counted_scan ∷ counted_collection ∷ []

abbrev counted_sleep : ℕ → Counted → Counted
counted_sleep seconds (n, w) = (n, sleep_for seconds w)

counted_sleeps : Sleeps counted_clock counted_clock (λ (n, w). w.1) counted_sleep
counted_sleeps = record {
  by_reading = λ w h. h;
  by_sleeping = λ seconds w h. h;
  wakes = λ seconds w h. omega arith;
}

keeps_count : KeepsCount counted_clock counted_clock (λ (n, w). w.1) counted_sleep (λ (n, w). n)
keeps_count = record {
  by_wall = λ w. omega arith;
  by_monotonic = λ w. omega arith;
  by_sleep = λ seconds w. omega arith;
}

counted_rounds :
    run counted_clock counted_clock
      (λ (n, w). w.1)
      counted_sleep
      4
      counted_schedules
      []
      (0, (3, false))
    ≡ running
        (record counted_scan { next_run = 15 } ∷ record counted_collection { next_run = 24 } ∷ [])
        ((1 ∷ [], 3) ∷ (2 ∷ [], 2) ∷ [])
        (5, (15, false))
unfolding run run_due run_job sleep_until next_due count_run text_eq
counted_rounds = refl

run_progress_example : (0 + 4 ≤ 5) × (0 + 4 ≤ 5)
unfolding run run_due run_job sleep_until next_due count_run text_eq total
run_progress_example =
    run_progress counted_clock counted_clock (λ (n, w). w.1) counted_sleep counted_sleeps
      (λ (n, w). n) keeps_count 4 counted_schedules _ [] _ (0, (3, false)) _ 0
      (λ now w. omega arith, (λ now w. omega arith, tt)) counted_rounds refl refl (omega arith)
