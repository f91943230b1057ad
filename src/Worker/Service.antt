-- ===== src/Worker/Service.antt =====
-- services/src/cadns/worker/service.py: `Worker`. Its tasks are the jobs they work on; a task that
-- ends leaves `_running` at once. Statements run at the times `now`. Tasks are cancelled by `_drain`,
-- which waits first, so that each has begun its `try`.
pub mod Steps
pub mod Bounded
pub mod Held
pub mod Drained
pub mod Waiting
mod Tests
use ca_dns.Prelude.{
  ℕ, zero, suc, ◌+◌, ◌-◌, ◌*◌, ◌/◌, ◌%◌, ◌^◌, ◌≤◌, ◌<◌, min, max, bit_and, bit_or, ◌≡◌, refl, sym,
  ap, ◌∙◌, ◌≢◌, ◌↔◌, ◌⊎◌, inl, inr, Bool, true, false, not, ◌&&◌, ◌||◌, Option, none, some, List,
  [], ◌∷◌, ◌++◌, map, append-nil, append_assoc, arith, ltb, leb, ◌==◌, if◌then◌else◌, ltb→lt,
  leb→le, ==_iff, Bool-cases, Option-cases, length, take, drop, any, all, filter, All,
  length-append, length-drop, length-take, All-append, take-length_append, drop-length_append,
  length-filter_le,
}
use ca_dns.Prelude.Text.{Text, codes}
use ca_dns.Queue.{
  Reason, miss, expired, State, pending, dead, Job, QueuePolicy, retry_delay, Row, Table, is_none,
  is_dead, new_row, upsert, upsert_all, update_where, Enqueued, is_empty, enqueue, lock_free,
  is_ready, older, chosen, has_domain, lock_row, job_of, before, lock_rows, claim, is_owner, holds,
  complete, failed_row, fail, released_row, release,
}
use ca_dns.Worker.Pipeline.{DomainStatus}
use ca_dns.Worker.Store.{is_failed}

-- How the `try` of `_process` ends: the measurement is done and its statement committed, something
-- raised, with this text, or the task was cancelled.
pub data Attempt : Type 0 where
  measured : DomainStatus → Attempt
  broke : Text → Attempt
  cancelled : Attempt

-- How the statement of an `except` branch ends: it is committed, the database is not there for it,
-- or, for the failure of a job, the task is cancelled while it is written. `_release` is shielded
-- from a cancellation.
pub data Ending : Type 0 where
  committed unreachable interrupted : Ending

-- The worker with the queue's table; `stopping` is set when `run` leaves its loop.
pub record Service : Type 0 where
  pub running : List Job
  pub processed : ℕ
  pub stopping : Bool
  pub table : Table

module _ (policy : QueuePolicy) (worker_id : Text) where
  -- The `except Exception` branch on the table: both an error of the database, which is logged, and a
  -- cancellation, which is raised, roll the statement back.
  abbrev pub write_failure : ℕ → Job → Text → Ending → Table → Table
  write_failure now job error ending table = elim ending [
    | committed ↦ (fail policy now job worker_id error table).1
    | unreachable ↦ table
    | interrupted ↦ table
  ]

  -- `_release`; a cancellation of the task that awaits it does not stop it.
  abbrev pub release_job : Job → Ending → Table → Table
  release_job job ending table = elim ending [
    | committed ↦ release job worker_id table
    | unreachable ↦ table
    | interrupted ↦ release job worker_id table
  ]

  -- `_process` on the table.
  unfoldable pub process : ℕ → Job → Attempt → Ending → Table → Table
  process now job (measured status) ending table =
      if is_failed status
      then (fail policy now job worker_id (codes "no definitive answer for A or AAAA") table).1
      else complete job worker_id table
  process now job (broke error) ending table = write_failure now job error ending table
  process now job cancelled ending table = release_job job ending table

  -- The end of a task, with `_done`: `others` are the tasks that stay.
  unfoldable pub end_task : ℕ → Job → List Job → Attempt → Ending → Service → Service
  unfolding process
  end_task now job others attempt ending s = record s {
    running = others;
    processed = s.processed + 1;
    table = process now job attempt ending s.table;
  }

  module _ (concurrency : ℕ) where
    -- `_claim`: how many jobs it took.
    unfoldable pub claim_jobs : ℕ → (Text → Bool) → Bool → Service → ℕ × Service
    claim_jobs now busy connected s =
        let free = concurrency - length s.running in
        let (jobs, table') = claim policy now busy worker_id free s.table in
        if leb concurrency (length s.running)
        then (0, s)
        else if not connected
        then (0, s)
        else (length jobs, record s { running = s.running ++ jobs; table = table' })

    -- Whether `run` claims again at once, or waits to be woken.
    unfoldable pub goes_on : ℕ × Service → Bool
    goes_on (claimed, s) = ltb 0 claimed && ltb (length s.running) concurrency
