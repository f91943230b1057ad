-- ===== src/Monitor/Schedules/Rounds.antt =====
-- One round: which jobs it runs, and when they are due next.
use ca_dns.Prelude.{
  ℕ, suc, ◌+◌, ◌≤◌, max, ◌≡◌, refl, ◌∙◌, inl, inr, Bool, true, false, ◌&&◌, ◌||◌, List, [], ◌∷◌,
  arith, ltb, leb, if◌then◌else◌, Bool-cases, length, filter,
}
use ca_dns.Prelude.Text.{Text, text_eq, text_eq_iff}
use ca_dns.Monitor.Schedules.{Schedule, Runs, count_run, run_job, run_due}

-- The number of runs of a name, 0 for a name that is no key.
unfoldable pub runs_of : Text → Runs → ℕ
runs_of name [] = 0
runs_of name ((key, runs) ∷ rest) =
    let others = runs_of name rest in if text_eq key name then runs else others

runs_of-count_run :
    (name other : Text) (runs : Runs)
    → runs_of other (count_run name runs)
      ≡ runs_of other runs + (if text_eq name other then 1 else 0)
unfolding runs_of count_run
runs_of-count_run name other [] = ground arith
runs_of-count_run name other ((key, runs) ∷ rest) = ground (
  arith,
  runs_of-count_run name other rest,
  text_eq_iff key name,
  text_eq_iff key other,
  text_eq_iff name other,
)

-- The due schedules of a name.
abbrev pub due_named : {World : Type 0} → ℕ → Text → List (Schedule World) → List (Schedule World)
due_named now name schedules = filter (λ s. leb s.next_run now && text_eq s.name name) schedules

-- What a round at `now` makes of the schedules: a due one moves on by its interval at least, another
-- one stays as it is.
unfoldable pub Advanced :
    {World : Type 0} → ℕ → List (Schedule World) → List (Schedule World) → Type 0
Advanced now [] [] = Unit
Advanced now [] (s' ∷ ss') = ⊥
Advanced now (s ∷ ss) [] = ⊥
Advanced now (s ∷ ss) (s' ∷ ss') =
    (s'.name ≡ s.name)
    × (s'.interval_seconds ≡ s.interval_seconds)
    × (leb s.next_run now ≡ true → s.next_run + s.interval_seconds ≤ s'.next_run)
    × (leb s.next_run now ≡ false → s' ≡ s)
    × Advanced now ss ss'

-- The world after calls of the jobs of some schedules, in their order: each is given the wall
-- clock's time, and the monotonic clock is read after each, whether it ended or raised.
abbrev pub called :
    {World : Type 0}
    → (World → ℕ × World)
    → (World → ℕ × World)
    → List (Schedule World)
    → World
    → World
called wall monotonic [] w = w
called wall monotonic (s ∷ ss) w =
    called wall monotonic ss (monotonic (s.job (wall w).0 (wall w).1).1).1

abbrev pub due_at : {World : Type 0} → ℕ → List (Schedule World) → List (Schedule World)
due_at now schedules = filter (λ s. leb s.next_run now) schedules

-- The sum of the counts.
unfoldable pub total : Runs → ℕ
total [] = 0
total ((key, runs) ∷ rest) = runs + total rest

total-count_run : (name : Text) (runs : Runs) → total (count_run name runs) ≡ suc (total runs)
unfolding total count_run
total-count_run name [] = refl
total-count_run name ((key, runs) ∷ rest) = ground (arith, total-count_run name rest)

module _ {World : Type 0} (wall monotonic : World → ℕ × World) (is_set : World → Bool) where
  -- The results of one schedule that is passed over, and of one whose job runs.
  run_due-passed :
      (now : ℕ) (s : Schedule World) (ss : List (Schedule World)) (runs : Runs) (w : World)
      → (is_set w || ltb now s.next_run) ≡ true
      → run_due wall monotonic is_set now (s ∷ ss) runs w ≡ (
        s ∷ (run_due wall monotonic is_set now ss runs w).0,
        (run_due wall monotonic is_set now ss runs w).1,
        (run_due wall monotonic is_set now ss runs w).2,
      )
  unfolding run_due
  run_due-passed now s ss runs w e = rw (e, run_due) refl

  run_due-ran :
      (now : ℕ) (s : Schedule World) (ss : List (Schedule World)) (runs : Runs) (w : World)
      → (is_set w || ltb now s.next_run) ≡ false
      → let after = monotonic (run_job wall s w) in
        let rest = run_due wall monotonic is_set now ss (count_run s.name runs) after.1 in
        run_due wall monotonic is_set now (s ∷ ss) runs w ≡ (
          record s { next_run = max (s.next_run + s.interval_seconds) after.0 } ∷ rest.0,
          rest.1,
          rest.2,
        )
  unfolding run_due run_job
  run_due-ran now s ss runs w e = rw (e, run_due) refl

  run_due-stopped :
      (now : ℕ) (ss : List (Schedule World)) (runs : Runs) (w : World)
      → is_set w ≡ true
      → is_set (run_due wall monotonic is_set now ss runs w).2 ≡ true
  unfolding run_due
  run_due-stopped now [] runs w h = h
  run_due-stopped now (s ∷ ss) runs w h =
      rw (run_due-passed now s ss runs w (ground (arith, h))) (run_due-stopped now ss runs w h)

  -- A round that is not stopped began unstopped.
  was_unset :
      (now : ℕ) (ss : List (Schedule World)) (runs : Runs) (w : World)
      → is_set (run_due wall monotonic is_set now ss runs w).2 ≡ false
      → is_set w ≡ false
  was_unset now ss runs w h = elim (Bool-cases (is_set w)) [
    | inl set ↦ ground (arith, h, run_due-stopped now ss runs w set)
    | inr unset ↦ unset
  ]

  -- In a round that nobody stops, the jobs that are called are those of the schedules that are due at
  -- its start, each once and in their order, whether the jobs before it ended or raised: the world
  -- afterwards is what these calls make of it, and the runs of each name grow by its due schedules.
  -- The next run of a due schedule is at least its interval after the last one was due, and every
  -- other schedule stays as it is.
  pub run_due-Advanced :
      (now : ℕ) (ss : List (Schedule World)) (runs : Runs) (w : World)
      → is_set (run_due wall monotonic is_set now ss runs w).2 ≡ false
      → Advanced now ss (run_due wall monotonic is_set now ss runs w).0
        × ((name : Text)
            → runs_of name (run_due wall monotonic is_set now ss runs w).1
              ≡ runs_of name runs + length (due_named now name ss))
        × ((run_due wall monotonic is_set now ss runs w).2
            ≡ called wall monotonic (due_at now ss) w)
  unfolding Advanced run_due run_job
  run_due-Advanced now [] runs w h = (tt, λ name. omega arith, refl)
  run_due-Advanced now (s ∷ ss) runs w h =
      let unset = was_unset now (s ∷ ss) runs w h in
      elim (Bool-cases (ltb now s.next_run)) [
        | inl later ↦
            let passed = run_due-passed now s ss runs w (ground (arith, later)) in
            let (rest, counts, calls) = run_due-Advanced now ss runs w (rw passed at h) in
            rw passed (
              (refl, refl, λ due. ground (arith, due, later), λ due. refl, rest),
              λ name. ground (arith, counts name, later),
              calls ∙ ground (arith, later),
            )
        | inr due ↦
            let ran = run_due-ran now s ss runs w (ground (arith, unset, due)) in
            let (rest, counts, calls) =
              run_due-Advanced now ss (count_run s.name runs) _ (rw ran at h) in
            rw ran (
              (refl, refl, λ due'. omega arith, λ not_due. ground (arith, due, not_due), rest),
              λ name. ground (arith, counts name, runs_of-count_run s.name name runs, due),
              calls ∙ ground (arith, due),
            )
      ]

  -- As many runs are counted as schedules are due.
  pub total-run_due :
      (now : ℕ) (ss : List (Schedule World)) (runs : Runs) (w : World)
      → is_set (run_due wall monotonic is_set now ss runs w).2 ≡ false
      → total (run_due wall monotonic is_set now ss runs w).1
        ≡ total runs + length (filter (λ (s : Schedule World). leb s.next_run now) ss)
  unfolding run_due
  total-run_due now [] runs w h = omega arith
  total-run_due now (s ∷ ss) runs w h =
      let unset = was_unset now (s ∷ ss) runs w h in
      elim (Bool-cases (ltb now s.next_run)) [
        | inl later ↦
            let passed = run_due-passed now s ss runs w (ground (arith, later)) in
            rw passed (ground (arith, later, total-run_due now ss runs w (rw passed at h)))
        | inr due ↦
            let ran = run_due-ran now s ss runs w (ground (arith, unset, due)) in
            rw ran (
              ground (
                arith,
                due,
                total-count_run s.name runs,
                total-run_due now ss (count_run s.name runs) _ (rw ran at h),
              ))
      ]
