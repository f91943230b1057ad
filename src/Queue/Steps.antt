-- ===== src/Queue/Steps.antt =====
-- The tables that a sequence of statements can lead to from the empty one.
use ca_dns.Prelude.{ℕ, refl, Bool, List}
use ca_dns.Prelude.Text.{Text}
use ca_dns.Queue.{
  Reason, Job, QueuePolicy, Row, Table, enqueue, claim, holds, complete, failed_row, fail,
  released_row, release,
}
use ca_dns.Queue.Rows.{
  Distinct-update_where, Distinct-filter, RowIsValid, WellFormed, All-update_where, All-filter,
}
use ca_dns.Queue.Claim.{claim-WellFormed}
use ca_dns.Queue.Enqueue.{enqueue-WellFormed}

-- One statement of `MeasurementQueue`, at any time and with any arguments.
pub data Step (policy : QueuePolicy) : Table → Table → Type 0 where
  enqueues :
      (now : ℕ) (domains : List Text) (reason : Reason) (table : Table)
      → Step policy table (enqueue now domains reason table).table
  claims :
      (now : ℕ) (busy : Text → Bool) (worker_id : Text) (limit : ℕ) (table : Table)
      → Step policy table (claim policy now busy worker_id limit table).1
  completes :
      (job : Job) (worker_id : Text) (table : Table)
      → Step policy table (complete job worker_id table)
  fails :
      (now : ℕ) (job : Job) (worker_id error : Text) (table : Table)
      → Step policy table (fail policy now job worker_id error table).1
  releases :
      (job : Job) (worker_id : Text) (table : Table)
      → Step policy table (release job worker_id table)

-- Several statements, one after the other.
pub data Steps (policy : QueuePolicy) : Table → Table → Type 0 where
  done : (table : Table) → Steps policy table table
  more : (a b c : Table) → Step policy a b → Steps policy b c → Steps policy a c

failed-RowIsValid :
    (policy : QueuePolicy) (now : ℕ) (error : Text) (job : Job) (row : Row)
    → RowIsValid (failed_row policy now error job row)
failed-RowIsValid policy now error job row = record { lock_pair = refl; dead_unlocked = λ e. refl }

released-RowIsValid : (row : Row) → RowIsValid (released_row row)
released-RowIsValid row = record { lock_pair = refl; dead_unlocked = λ e. refl }

pub Step-WellFormed :
    (policy : QueuePolicy) (a b : Table) → Step policy a b → WellFormed a → WellFormed b
unfolding complete fail release
Step-WellFormed policy a b (enqueues now domains reason table) h =
    enqueue-WellFormed now domains reason h
Step-WellFormed policy a b (claims now busy worker_id limit table) h =
    claim-WellFormed policy now busy worker_id limit h
Step-WellFormed policy a b (completes job worker_id table) h = record {
  distinct = Distinct-filter _ table h.distinct;
  valid = All-filter _ table h.valid;
}
Step-WellFormed policy a b (fails now job worker_id error table) h = record {
  distinct =
      Distinct-update_where (holds job worker_id) (failed_row policy now error job) (λ row. refl)
        table h.distinct;
  valid =
      All-update_where _ _ table (λ row v met. failed-RowIsValid policy now error job row) h.valid;
}
Step-WellFormed policy a b (releases job worker_id table) h = record {
  distinct =
      Distinct-update_where (holds job worker_id) released_row (λ row. refl) table h.distinct;
  valid = All-update_where _ _ table (λ row v met. released-RowIsValid row) h.valid;
}

-- Statements of the queue, however many, in any order, at any times and with any arguments, lead
-- from a well-formed table to a well-formed one: no domain has two rows, `locked_by` and `locked_at`
-- are set together, and a dead row is not locked.
pub Steps-WellFormed :
    (policy : QueuePolicy) (a b : Table) → Steps policy a b → WellFormed a → WellFormed b
Steps-WellFormed policy a b (done table) h = h
Steps-WellFormed policy a b (more a' m c step steps) h =
    Steps-WellFormed policy m c steps (Step-WellFormed policy a' m step h)
