-- ===== src/Worker/Service/Drained.antt =====
-- The locks of a worker over a run: each belongs to a task, or to a job that was lost.
use ca_dns.Prelude.{
  ℕ, ◌-◌, ◌≡◌, refl, sym, ◌∙◌, inl, inr, Bool, true, false, ◌||◌, some, List, [], ◌∷◌, ◌++◌, arith,
  Bool-cases, Option-cases, length, any, append-nil, append_assoc, ◌⊎◌,
}
use ca_dns.Prelude.Text.{Text, text_eq, text_eq_iff}
use ca_dns.Queue.{Job, QueuePolicy, Row, Table, before, claim, is_owner}
use ca_dns.Queue.Rows.{WellFormed, find}
use ca_dns.Queue.Entries.{find-RowIsValid}
use ca_dns.Worker.Store.{is_failed}
use ca_dns.Worker.Service.{
  Attempt, measured, broke, cancelled, Ending, committed, unreachable, interrupted, Service,
  process, end_task, claim_jobs,
}
use ca_dns.Worker.Service.Steps.{
  Other, Step, Run, enqueues, claims, completes, fails, releases, takes, leaves, ends, others, done,
  more, lost_by, lost_in, lost_of,
}
use ca_dns.Worker.Service.Bounded.{IsSound, Run-IsSound, claim_jobs-cases, Step-IsSound}
use ca_dns.Worker.Service.Held.{
  is_held, GivesAway, complete-GivesAway, fail-GivesAway, release-GivesAway, GivesAway-is_held,
  enqueue-is_held, claim-is_held,
}

abbrev pub has_task : Text → List Job → Bool
has_task domain jobs = any (λ job. text_eq job.domain domain) jobs

has_task-append :
    (domain : Text) (xs ys : List Job)
    → has_task domain (xs ++ ys) ≡ (has_task domain xs || has_task domain ys)
has_task-append domain [] ys = refl
has_task-append domain (x ∷ xs) ys = ground (arith, has_task-append domain xs ys)

module _ (policy : QueuePolicy) (worker_id : Text) where
  -- A task that ends gives its job away, or leaves the table as it is and loses the job.
  process-GivesAway :
      (now : ℕ) (job : Job) (attempt : Attempt) (ending : Ending) (table : Table)
      → WellFormed table
      → GivesAway job worker_id table (process policy worker_id now job attempt ending table)
        ⊎ ((process policy worker_id now job attempt ending table ≡ table)
            × (lost_by policy worker_id job attempt ending ≡ job ∷ []))
  unfolding process
  process-GivesAway now job (measured status) ending table h =
      elim (Bool-cases (is_failed status)) [
        | inl e ↦ rw e (inl (fail-GivesAway job worker_id table h policy now _))
        | inr e ↦ rw e (inl (complete-GivesAway job worker_id table h))
      ]
  process-GivesAway now job (broke error) committed table h =
      inl (fail-GivesAway job worker_id table h policy now error)
  process-GivesAway now job (broke error) unreachable table h = inr (refl, refl)
  process-GivesAway now job (broke error) interrupted table h = inr (refl, refl)
  process-GivesAway now job cancelled committed table h =
      inl (release-GivesAway job worker_id table h)
  process-GivesAway now job cancelled unreachable table h = inr (refl, refl)
  process-GivesAway now job cancelled interrupted table h =
      inl (release-GivesAway job worker_id table h)

  -- Nobody else takes a lock in the worker's name.
  Other-is_held :
      (a b : Table) (domain : Text)
      → Other policy worker_id a b
      → WellFormed a
      → is_held worker_id b domain ≡ true
      → is_held worker_id a domain ≡ true
  Other-is_held a b domain (enqueues now domains reason table) h held =
      sym (enqueue-is_held now domains reason table worker_id domain) ∙ held
  Other-is_held a b domain (claims now busy other limit table differs) h held =
      elim (claim-is_held policy now busy other limit table worker_id domain h held) [
        | inl before ↦ before
        | inr (same, _) ↦ absurd (ground (arith, same, differs))
      ]
  Other-is_held a b domain (completes job other table differs) h held =
      (GivesAway-is_held job other a b worker_id domain (complete-GivesAway job other table h)
        held).0
  Other-is_held a b domain (fails now job other error table differs) h held =
      (GivesAway-is_held job other a b worker_id domain
        (fail-GivesAway job other table h policy now error) held).0
  Other-is_held a b domain (releases job other table differs) h held =
      (GivesAway-is_held job other a b worker_id domain (release-GivesAway job other table h)
        held).0

  -- Every row that the worker holds is that of a task, or of a lost job.
  unfoldable pub HasTasks : List Job → Service → Type 0
  HasTasks lost s =
      (domain : Text)
      → is_held worker_id s.table domain ≡ true
      → (has_task domain s.running || has_task domain lost) ≡ true

  module _ (concurrency : ℕ) where
    claim_jobs-HasTasks :
        (now : ℕ) (busy : Text → Bool) (connected : Bool) (lost : List Job) (s : Service)
        → WellFormed s.table
        → HasTasks lost s
        → HasTasks lost (claim_jobs policy worker_id concurrency now busy connected s).1
    unfolding HasTasks
    claim_jobs-HasTasks now busy connected lost s h tasks =
        elim (claim_jobs-cases policy worker_id concurrency now busy connected s) [
          | inl same ↦ rw same tasks
          | inr (room, same) ↦ rw same (λ domain held.
              let free = concurrency - length s.running in
              let jobs = (claim policy now busy worker_id free s.table).0 in
              let sum = has_task-append domain s.running jobs in
              elim (claim-is_held policy now busy worker_id free s.table worker_id domain h held) [
                | inl before ↦ ground (arith, sum, tasks domain before)
                | inr (_, has) ↦ ground (arith, sum, has)
              ])
        ]

    ends-HasTasks :
        (now : ℕ) (job : Job) (before after lost : List Job) (attempt : Attempt) (ending : Ending)
        (s : Service)
        → s.running ≡ before ++ (job ∷ after)
        → WellFormed s.table
        → HasTasks lost s
        → HasTasks
            (lost ++ lost_by policy worker_id job attempt ending)
            (end_task policy worker_id now job (before ++ after) attempt ending s)
    unfolding end_task HasTasks
    ends-HasTasks now job before after lost attempt ending s e h tasks = λ domain held.
        let had = has_task-append domain before (job ∷ after) in
        let has = has_task-append domain before after in
        let sum = has_task-append domain lost (lost_by policy worker_id job attempt ending) in
        elim (process-GivesAway now job attempt ending s.table h) [
          | inl given ↦
              let (was, elsewhere) =
                GivesAway-is_held job worker_id s.table _ worker_id domain given held in
              ground (
                arith,
                elsewhere,
                text_eq_iff worker_id worker_id,
                text_eq_iff job.domain domain,
                text_eq_iff domain job.domain,
                had,
                has,
                sum,
                rw e at (tasks domain was),
              )
          | inr (same, kept) ↦
              let task = rw e at (tasks domain (rw same at held)) in
              rw kept (ground (arith, had, has, (rw kept at sum), task))
        ]

    Step-HasTasks :
        (a b : Service) (step : Step policy worker_id concurrency a b) (lost : List Job)
        → WellFormed a.table
        → HasTasks lost a
        → HasTasks (lost ++ lost_in policy worker_id concurrency a b step) b
    unfolding HasTasks
    Step-HasTasks a b (takes now busy connected s e) lost h tasks =
        rw (append-nil lost) (claim_jobs-HasTasks now busy connected lost s h tasks)
    Step-HasTasks a b (leaves s) lost h tasks = rw (append-nil lost) tasks
    Step-HasTasks a b (ends now job before after attempt ending s e) lost h tasks =
        ends-HasTasks now job before after lost attempt ending s e h tasks
    Step-HasTasks a b (others table s other) lost h tasks =
        rw (append-nil lost)
          (λ domain held. tasks domain (Other-is_held s.table table domain other h held))

    Run-HasTasks :
        (a b : Service) (run : Run policy worker_id concurrency a b) (lost : List Job)
        → IsSound policy worker_id concurrency a
        → HasTasks lost a
        → HasTasks (lost ++ lost_of policy worker_id concurrency a b run) b
    unfolding lost_of
    Run-HasTasks a b (done s) lost sound tasks = rw (append-nil lost) tasks
    Run-HasTasks a c (more x b y step run) lost sound tasks =
        let (sound', _) = Step-IsSound policy worker_id concurrency x b step sound in
        let later =
          Run-HasTasks b y run (lost ++ lost_in policy worker_id concurrency x b step) sound'
            (Step-HasTasks x b step lost sound.table_ok tasks) in
        rw
          (← append_assoc lost (lost_in policy worker_id concurrency x b step)
            (lost_of policy worker_id concurrency b y run))
          later

    owner-is_held :
        (table : Table) (domain : Text) (row : Row)
        → WellFormed table
        → find domain table ≡ some row
        → is_held worker_id table domain ≡ is_owner worker_id row.locked_by
    owner-is_held table domain row h found =
        let (valid, same) = find-RowIsValid table domain row h found in
        let pair = valid.lock_pair in rw found (ground (arith, pair, valid.dead_unlocked))

    not_owned :
        (table : Table)
        → WellFormed table
        → ((domain : Text) (row : Row)
            → find domain table ≡ some row
            → is_owner worker_id row.locked_by ≡ false)
        → (domain : Text) → is_held worker_id table domain ≡ false
    not_owned table h free domain = elim (Option-cases (find domain table)) [
      | inl gone ↦ rw gone refl
      | inr (row, found) ↦ owner-is_held table domain row h found ∙ free domain row found
    ]

    -- A worker starts with no task and no lock on a well-formed table. Then each row that it has locked
    -- later is that of a running task's domain, or of a job whose task ended without its statement
    -- committed: the database was not there for the failure or the release, or the task was cancelled
    -- while its failure was written. Others may use the queue in any way meanwhile, under other names.
    pub Run-locks :
        (a b : Service) (run : Run policy worker_id concurrency a b)
        → WellFormed a.table
        → a.running ≡ []
        → ((domain : Text) (row : Row)
            → find domain a.table ≡ some row
            → is_owner worker_id row.locked_by ≡ false)
        → (domain : Text) (row : Row) → find domain b.table ≡ some row
        → is_owner worker_id row.locked_by ≡ true
        → (has_task domain b.running
            || has_task domain (lost_of policy worker_id concurrency a b run))
          ≡ true
    unfolding HasTasks
    Run-locks a b run h idle free domain row found owned =
        let start : HasTasks [] a =
          λ domain held. absurd (ground (arith, held, not_owned a.table h free domain)) in
        let sound : IsSound policy worker_id concurrency a = record {
          table_ok = h;
          bounded = rw idle (omega arith);
        } in
        let (sound', _) = Run-IsSound policy worker_id concurrency a b run sound in
        Run-HasTasks a b run [] sound start domain
          (owner-is_held b.table domain row sound'.table_ok found ∙ owned)
