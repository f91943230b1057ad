-- ===== src/Monitor/Schedules.antt =====
-- services/src/cadns/monitor/service.py: `Schedule`, `Monitor.run` and `_run_job`. `World` is what the
-- event loop, the clocks and the jobs share; reading a clock may change it. Seconds are natural
-- numbers, the heartbeat and the log are left out.
pub mod Rounds
pub mod Progress
mod Tests
use ca_dns.Prelude.{
  ℕ, zero, suc, ◌+◌, ◌-◌, ◌*◌, ◌/◌, ◌%◌, ◌^◌, ◌≤◌, ◌<◌, min, max, bit_and, bit_or, ◌≡◌, refl, sym,
  ap, ◌∙◌, ◌≢◌, ◌↔◌, ◌⊎◌, inl, inr, Bool, true, false, not, ◌&&◌, ◌||◌, Option, none, some, List,
  [], ◌∷◌, ◌++◌, map, append-nil, append_assoc, arith, ltb, leb, ◌==◌, if◌then◌else◌, ltb→lt,
  leb→le, ==_iff, Bool-cases, Option-cases, length, take, drop, any, all, filter, All,
  length-append, length-drop, length-take, All-append, take-length_append, drop-length_append,
  length-filter_le,
}
use ca_dns.Prelude.Text.{Text, text_eq}

-- What a job does: it ends, or raises.
pub data Ran : Type 0 where
  ended raised : Ran

pub record Schedule (World : Type 0) : Type 0 where
  pub name : Text
  pub interval_seconds : ℕ
  pub job : ℕ → World → Ran × World
  pub next_run : ℕ

-- `Monitor.runs`, and `runs[name] = runs.get(name, 0) + 1`.
abbrev pub Runs : Type 0
Runs = List (Text × ℕ)

unfoldable pub count_run : Text → Runs → Runs
count_run name [] = (name, 1) ∷ []
count_run name ((key, runs) ∷ rest) =
    let rest' = count_run name rest in
    if text_eq key name then (key, runs + 1) ∷ rest else (key, runs) ∷ rest'

-- How `Monitor.run` ends after some rounds: it stopped, it goes on, or `min` had no schedule.
pub data Ending (World : Type 0) : Type 0 where
  stopped running : List (Schedule World) → Runs → World → Ending World
  value_error : Ending World

-- `min(s.next_run for s in self.schedules)`
unfoldable pub next_due : {World : Type 0} → List (Schedule World) → Option ℕ
next_due [] = none
next_due (s ∷ ss) = elim (next_due ss) [
  | none ↦ some s.next_run
  | some due ↦ some (min s.next_run due)
]

module _ {World : Type 0} (wall : World → ℕ × World) where
  -- `_run_job`, on the world: an exception of the job is only logged.
  unfoldable pub run_job : Schedule World → World → World
  run_job schedule w = let (now, w') = wall w in let (ran, w'') = schedule.job now w' in w''

  module _ (monotonic : World → ℕ × World) (is_set : World → Bool) where
    -- The loop over the schedules; `runs` is counted whether the job ends or raises.
    unfoldable pub run_due :
        ℕ → List (Schedule World) → Runs → World → List (Schedule World) × Runs × World
    unfolding run_job
    run_due now [] runs w = ([], runs, w)
    run_due now (s ∷ ss) runs w = elim (is_set w || ltb now s.next_run) [
      | true ↦ let (ss', runs', w') = run_due now ss runs w in (s ∷ ss', runs', w')
      | false ↦
          let (reading, w') = monotonic (run_job s w) in
          let (ss', runs', w'') = run_due now ss (count_run s.name runs) w' in
          (record s { next_run = max (s.next_run + s.interval_seconds) reading } ∷ ss', runs', w'')
    ]

    module _ (sleep : ℕ → World → World) where
      -- `clock.sleep(next_due - clock.monotonic(), stop)`; below 0 it does not sleep.
      unfoldable pub sleep_until : ℕ → World → World
      sleep_until due w = let (reading, w') = monotonic w in sleep (due - reading) w'

      -- `Monitor.run`, at most as many rounds as the first argument says.
      unfoldable pub run : ℕ → List (Schedule World) → Runs → World → Ending World
      unfolding run_due sleep_until next_due
      run zero schedules runs w = running schedules runs w
      run (suc rounds) schedules runs w = elim (is_set w) [
        | true ↦ stopped schedules runs w
        | false ↦
            let (now, w') = monotonic w in
            let (schedules', runs', w'') = run_due now schedules runs w' in
            elim (next_due schedules') [
              | none ↦ value_error
              | some due ↦ run rounds schedules' runs' (sleep_until due w'')
            ]
      ]
