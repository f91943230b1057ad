-- ===== src/Queue/Refine.antt =====
-- The queue's statements keep what `Spec` promises, with each table read as entries by domain.
use mathlib.Core.Path.{fun_ext}
use ca_dns.Prelude.{◌≡◌, refl, List, [], ◌∷◌}
use ca_dns.Queue.{QueuePolicy, Table, claim, failed_row, released_row}
use ca_dns.Queue.Rows.{WellFormed}
use ca_dns.Queue.Claim.{few_claimed}
use ca_dns.Queue.Holder.{find-release, find-fail}
use ca_dns.Queue.Steps.{
  Step, enqueues, claims, completes, fails, releases, Steps, done, more, Step-WellFormed,
}
use ca_dns.Queue.Spec.{
  take_by, give_up, give_back, change_at, Op, enqueue_op, claim_op, complete_op, release_op,
  fail_op, named, SpecStep, enqueued, claimed, completed, failed, released, SpecSteps, stay,
  then_on,
}
use ca_dns.Queue.Entries.{
  entries_of, failed_entry, updated_entries, completed_entries, claimed_entries, claimed_shown,
  claimed_full, enqueued_entries,
}

-- The operation that a statement stands for; a claim's with the jobs that it returns.
abbrev pub op_of : (policy : QueuePolicy) (a b : Table) → Step policy a b → Op
op_of policy a b (enqueues now domains reason table) = enqueue_op now domains reason
op_of policy a b (claims now busy worker_id limit table) =
    claim_op now busy worker_id limit (claim policy now busy worker_id limit table).0
op_of policy a b (completes job worker_id table) = complete_op job worker_id
op_of policy a b (fails now job worker_id error table) = fail_op now job worker_id
op_of policy a b (releases job worker_id table) = release_op job worker_id

unfoldable pub ops_of : (policy : QueuePolicy) (a b : Table) → Steps policy a b → List Op
ops_of policy a b (done table) = []
ops_of policy a b (more x y z step steps) = op_of policy x y step ∷ ops_of policy y z steps

Step-SpecStep :
    (policy : QueuePolicy) (a b : Table) (step : Step policy a b)
    → WellFormed a
    → SpecStep policy (op_of policy a b step) (entries_of a) (entries_of b)
Step-SpecStep policy a b (enqueues now domains reason table) h =
    rw (enqueued_entries now domains reason table) (enqueued now domains reason (entries_of table))
Step-SpecStep policy a b (claims now busy worker_id limit table) h =
    let jobs = (claim policy now busy worker_id limit table).0 in
    let after : entries_of (claim policy now busy worker_id limit table).1
        ≡ change_at (named jobs) (take_by worker_id now) (entries_of table) =
      fun_ext λ domain. (claimed_entries table h policy now busy worker_id limit domain).0 in
    rw after (
      claimed now busy worker_id limit jobs (entries_of table)
        (few_claimed policy now busy worker_id limit table h.distinct)
        (claimed_shown table h policy now busy worker_id limit)
        (λ domain. (claimed_entries table h policy now busy worker_id limit domain).1)
        (claimed_full table h policy now busy worker_id limit))
Step-SpecStep policy a b (completes job worker_id table) h =
    rw (completed_entries table h job worker_id) (completed job worker_id (entries_of table))
Step-SpecStep policy a b (fails now job worker_id error table) h =
    rw
      (updated_entries table h job worker_id (failed_row policy now error job)
        (give_up policy now job) _ (λ domain. find-fail policy now job worker_id error table domain)
        (λ r e. failed_entry policy now error job r))
      (failed now job worker_id (entries_of table))
Step-SpecStep policy a b (releases job worker_id table) h =
    rw
      (updated_entries table h job worker_id released_row give_back _
        (λ domain. find-release job worker_id table domain) (λ r e. rw e refl))
      (released job worker_id (entries_of table))

-- The queue refines its specification: whatever statements lead from a well-formed table to another,
-- the operations that they stand for, in the same order and with the same arguments, error texts
-- aside, lead from the entries of the one to the entries of the other. A claim stands for one that returned the same
-- jobs: of free entries only, each with its reason and one attempt more, and as many as it is
-- allowed or of all free entries.
pub Steps-SpecSteps :
    (policy : QueuePolicy) (a b : Table) (steps : Steps policy a b)
    → WellFormed a
    → SpecSteps policy (ops_of policy a b steps) (entries_of a) (entries_of b)
unfolding ops_of
Steps-SpecSteps policy a b (done table) h = stay (entries_of table)
Steps-SpecSteps policy a b (more x y z step steps) h =
    then_on _ _ _ _ _ (Step-SpecStep policy x y step h)
      (Steps-SpecSteps policy y z steps (Step-WellFormed policy x y step h))
