-- ===== src/Worker/Service/Tests.antt =====
-- A worker for two tasks at a time that takes a job, works on it and stops.
use ca_dns.Prelude.{
  ℕ, ◌+◌, ◌≤◌, ◌≡◌, refl, ap, ◌⊎◌, Bool, true, false, not, ◌&&◌, ◌||◌, some, [], ◌∷◌, arith, length,
  any,
}
use ca_dns.Prelude.Text.{Text, text_eq, text_leb}
use ca_dns.Prelude.Sort.{sort_by, insert_by}
use ca_dns.Queue.{
  miss, Job, QueuePolicy, Row, new_row, update_where, lock_free, is_ready, chosen, lock_row,
  lock_rows, claim, is_owner, failed_row, fail,
}
use ca_dns.Queue.Rows.{WellFormed, find}
use ca_dns.Worker.Service.{
  broke, committed, interrupted, Service, process, end_task, claim_jobs, goes_on,
}
use ca_dns.Worker.Service.Steps.{Run, takes, leaves, ends, done, more, claims_of, lost_of}
use ca_dns.Worker.Service.Bounded.{IsSound, Run-IsSound}
use ca_dns.Worker.Service.Drained.{has_task, Run-locks}
use ca_dns.Worker.Service.Waiting.{goes_on-claim_jobs}

abbrev policy : QueuePolicy
policy = record {
  lock_timeout_seconds = 300;
  max_attempts = 5;
  retry_base_seconds = 60;
  retry_max_seconds = 3600;
  dead_cooldown_seconds = 86400;
}

abbrev worker : Text
worker = 9 ∷ []

abbrev dom_a : Text
dom_a = 1 ∷ []

abbrev row_a : Row
row_a = new_row 10 dom_a miss

abbrev job_a : Job
job_a = record { domain = dom_a; reason = miss; attempts = 1 }

abbrev nobody : Text → Bool
nobody domain = false

abbrev start : Service
start = record { running = []; processed = 0; stopping = false; table = row_a ∷ [] }

abbrev working : Service
working = record {
  running = job_a ∷ [];
  processed = 0;
  stopping = false;
  table = lock_row worker 100 row_a ∷ [];
}

claims_a : claim_jobs policy worker 2 100 nobody true start ≡ (1, working)
unfolding claim_jobs claim chosen is_ready lock_free lock_rows update_where sort_by insert_by
    text_eq text_leb
claims_a = refl

abbrev claimed : Service
claimed = (claim_jobs policy worker 2 100 nobody true start).1

abbrev stopping_now : Service
stopping_now = record claimed { stopping = true }

abbrev stopped : Service
stopped = end_task policy worker 120 job_a [] (broke (7 ∷ [])) committed stopping_now

one_task : stopping_now.running ≡ (job_a ∷ [])
one_task = ap (λ (p : ℕ × Service). p.1.running) claims_a

abbrev start_stops : Run policy worker 2 start stopped
start_stops = more start claimed stopped (takes 100 nobody true start refl) (
    more claimed stopping_now stopped (leaves claimed) (
      more stopping_now stopped stopped
        (ends 120 job_a [] [] (broke (7 ∷ [])) committed stopping_now one_task) (done stopped)))

abbrev start_works : Run policy worker 2 start claimed
start_works = more start claimed claimed (takes 100 nobody true start refl) (done claimed)

start-WellFormed : WellFormed (row_a ∷ [])
start-WellFormed = record {
  distinct = (refl, tt);
  valid = (record { lock_pair = refl; dead_unlocked = λ e. refl }, tt);
}

unlocked :
    (domain : Text) (row : Row)
    → find domain (row_a ∷ []) ≡ some row
    → is_owner worker row.locked_by ≡ false
unfolding find
unlocked domain row found = ground (arith, found)

locked_a : find dom_a claimed.table ≡ some (lock_row worker 100 row_a)
unfolding find text_eq
locked_a = ap (λ (p : ℕ × Service). find dom_a p.1.table) claims_a

Run-IsSound_example :
    IsSound policy worker 2 stopped
    × (stopped.processed + length stopped.running
        ≡ 0 + length start.running + claims_of policy worker 2 start stopped start_stops)
Run-IsSound_example =
    Run-IsSound policy worker 2 start stopped start_stops
      (record { table_ok = start-WellFormed; bounded = omega arith })

-- Cancelled while its failure was written, the task leaves its lock behind.
abbrev interrupted_worker : Service
interrupted_worker = end_task policy worker 120 job_a [] (broke (7 ∷ [])) interrupted stopping_now

abbrev start_loses : Run policy worker 2 start interrupted_worker
start_loses = more start claimed interrupted_worker (takes 100 nobody true start refl) (
    more claimed stopping_now interrupted_worker (leaves claimed) (
      more stopping_now interrupted_worker interrupted_worker
        (ends 120 job_a [] [] (broke (7 ∷ [])) interrupted stopping_now one_task)
        (done interrupted_worker)))

lock_left : find dom_a interrupted_worker.table ≡ some (lock_row worker 100 row_a)
unfolding end_task process
lock_left = locked_a

Run-locks_example :
    (has_task dom_a interrupted_worker.running
      || has_task dom_a (lost_of policy worker 2 start interrupted_worker start_loses))
    ≡ true
unfolding text_eq
Run-locks_example =
    Run-locks policy worker 2 start interrupted_worker start_loses start-WellFormed refl unlocked
      dom_a (lock_row worker 100 row_a) lock_left refl

failed_a :
    find dom_a stopped.table
    ≡ some (failed_row policy 120 (7 ∷ []) job_a (lock_row worker 100 row_a))
unfolding find text_eq fail update_where end_task process
failed_a =
    ap (λ (p : ℕ × Service). find dom_a (fail policy 120 job_a worker (7 ∷ []) p.1.table).1)
      claims_a

-- The second claim finds nothing.
waits : goes_on policy worker 2 (claim_jobs policy worker 2 101 nobody true working) ≡ false
unfolding goes_on claim_jobs claim chosen is_ready lock_free lock_rows update_where sort_by
    insert_by text_eq text_leb
waits = refl

goes_on-claim_jobs_example :
    (2 ≤ length (claim_jobs policy worker 2 101 nobody true working).1.running)
    ⊎ (any
          (λ row. is_ready policy 101 row && not (nobody row.domain))
          (claim_jobs policy worker 2 101 nobody true working).1.table
        ≡ false)
goes_on-claim_jobs_example = goes_on-claim_jobs policy worker 2 101 nobody working (refl, tt) waits
