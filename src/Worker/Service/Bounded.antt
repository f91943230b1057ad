-- ===== src/Worker/Service/Bounded.antt =====
-- How many tasks a worker has.
use ca_dns.Prelude.{
  ℕ, ◌+◌, ◌-◌, ◌≤◌, ◌<◌, ◌≡◌, refl, ap, ◌⊎◌, inl, inr, Bool, ◌∷◌, ◌++◌, arith, leb, Bool-cases,
  length, length-append,
}
use ca_dns.Prelude.Text.{Text, codes}
use ca_dns.Queue.{Job, QueuePolicy, Table, before, claim}
use ca_dns.Queue.Rows.{WellFormed}
use ca_dns.Queue.Claim.{few_claimed, claim-WellFormed}
use ca_dns.Queue.Steps as QueueSteps
use ca_dns.Worker.Store.{is_failed}
use ca_dns.Worker.Service.{
  Attempt, measured, broke, cancelled, Ending, committed, unreachable, interrupted, Service,
  process, end_task, claim_jobs,
}
use ca_dns.Worker.Service.Steps.{
  Other, Step, Run, enqueues, claims, completes, fails, releases, takes, leaves, ends, others, done,
  more, claims_of, claimed_in,
}

module _ (policy : QueuePolicy) (worker_id : Text) where
  pub Other-WellFormed : (a b : Table) → Other policy worker_id a b → WellFormed a → WellFormed b
  Other-WellFormed a b (enqueues now domains reason table) h =
      QueueSteps.Step-WellFormed policy a b (QueueSteps.enqueues now domains reason table) h
  Other-WellFormed a b (claims now busy other limit table e) h =
      QueueSteps.Step-WellFormed policy a b (QueueSteps.claims now busy other limit table) h
  Other-WellFormed a b (completes job other table e) h =
      QueueSteps.Step-WellFormed policy a b (QueueSteps.completes job other table) h
  Other-WellFormed a b (fails now job other error table e) h =
      QueueSteps.Step-WellFormed policy a b (QueueSteps.fails now job other error table) h
  Other-WellFormed a b (releases job other table e) h =
      QueueSteps.Step-WellFormed policy a b (QueueSteps.releases job other table) h

  process-WellFormed :
      (now : ℕ) (job : Job) (attempt : Attempt) (ending : Ending) (table : Table)
      → WellFormed table
      → WellFormed (process policy worker_id now job attempt ending table)
  unfolding process
  process-WellFormed now job (measured status) ending table h =
      let failed =
        QueueSteps.Step-WellFormed policy table _
          (QueueSteps.fails now job worker_id (codes "no definitive answer for A or AAAA") table)
          h in
      let completed =
        QueueSteps.Step-WellFormed policy table _ (QueueSteps.completes job worker_id table) h in
      elim (Bool-cases (is_failed status)) [ inl e ↦ rw e failed | inr e ↦ rw e completed ]
  process-WellFormed now job (broke error) committed table h =
      QueueSteps.Step-WellFormed policy table _ (QueueSteps.fails now job worker_id error table) h
  process-WellFormed now job (broke error) unreachable table h = h
  process-WellFormed now job (broke error) interrupted table h = h
  process-WellFormed now job cancelled committed table h =
      QueueSteps.Step-WellFormed policy table _ (QueueSteps.releases job worker_id table) h
  process-WellFormed now job cancelled unreachable table h = h
  process-WellFormed now job cancelled interrupted table h =
      QueueSteps.Step-WellFormed policy table _ (QueueSteps.releases job worker_id table) h

  module _ (concurrency : ℕ) where
    pub record IsSound (s : Service) : Type 0 where
      pub table_ok : WellFormed s.table
      pub bounded : length s.running ≤ concurrency

    -- The two results of `_claim`.
    pub claim_jobs-cases :
        (now : ℕ) (busy : Text → Bool) (connected : Bool) (s : Service)
        → let free = concurrency - length s.running in
          let taken = claim policy now busy worker_id free s.table in
          (claim_jobs policy worker_id concurrency now busy connected s ≡ (0, s))
          ⊎ ((length s.running < concurrency)
              × (claim_jobs policy worker_id concurrency now busy connected s
                  ≡ (length taken.0, record s { running = s.running ++ taken.0; table = taken.1 })))
    unfolding claim_jobs
    claim_jobs-cases now busy connected s = elim (Bool-cases (leb concurrency (length s.running))) [
      | inl full ↦ rw full (inl refl)
      | inr free ↦ elim (Bool-cases connected) [
        | inl there ↦ rw (free, there) (inr (ground (arith, free), refl))
        | inr gone ↦ rw (free, gone) (inl refl)
      ]
    ]

    claim_jobs-IsSound :
        (now : ℕ) (busy : Text → Bool) (connected : Bool) (s : Service)
        → IsSound s
        → let result = claim_jobs policy worker_id concurrency now busy connected s in
          IsSound result.1
          × (result.1.processed + length result.1.running
              ≡ s.processed + length s.running + result.0)
    claim_jobs-IsSound now busy connected s h =
        let free = concurrency - length s.running in
        let taken = claim policy now busy worker_id free s.table in
        elim (claim_jobs-cases now busy connected s) [
          | inl same ↦ rw same (h, omega arith)
          | inr (room, same) ↦
              let few = few_claimed policy now busy worker_id free s.table h.table_ok.distinct in
              let sum = length-append s.running taken.0 in
              rw same (
                record {
                  table_ok = claim-WellFormed policy now busy worker_id free h.table_ok;
                  bounded = omega (arith, few, sum, room);
                },
                omega (arith, sum),
              )
        ]

    pub Step-IsSound :
        (a b : Service) (step : Step policy worker_id concurrency a b)
        → IsSound a
        → IsSound b
          × (b.processed + length b.running
              ≡ a.processed + length a.running + claimed_in policy worker_id concurrency a b step)
    unfolding end_task
    Step-IsSound a b (takes now busy connected s e) h = claim_jobs-IsSound now busy connected s h
    Step-IsSound a b (leaves s) h =
        (record { table_ok = h.table_ok; bounded = h.bounded }, omega arith)
    Step-IsSound a b (ends now job before after attempt ending s e) h =
        let sum = length-append before (job ∷ after) in
        let sum' = length-append before after in
        let had : length s.running ≡ length (before ++ (job ∷ after)) = ap length e in
        let bound = h.bounded in
        (
          record {
            table_ok = process-WellFormed now job attempt ending s.table h.table_ok;
            bounded = omega (arith, sum, sum', had, bound);
          },
          omega (arith, sum, sum', had),
        )
    Step-IsSound a b (others table s other) h = (
      record { table_ok = Other-WellFormed s.table table other h.table_ok; bounded = h.bounded },
      omega arith,
    )

    -- However tasks end, connections fail and others use the queue: a worker that starts with a
    -- well-formed table and no more than `concurrency` tasks never has more, the table stays
    -- well-formed, and each job that it takes is running or counted as processed, once.
    pub Run-IsSound :
        (a b : Service) (run : Run policy worker_id concurrency a b)
        → IsSound a
        → IsSound b
          × (b.processed + length b.running
              ≡ a.processed + length a.running + claims_of policy worker_id concurrency a b run)
    unfolding claims_of
    Run-IsSound a b (done s) h = (h, omega arith)
    Run-IsSound a c (more x b y step run) h =
        let (sound, count) = Step-IsSound x b step h in
        let (sound', count') = Run-IsSound b y run sound in (sound', omega (arith, count, count'))
