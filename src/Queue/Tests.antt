-- ===== src/Queue/Tests.antt =====
-- A small queue, and the theorems at it.
use ca_dns.Prelude.{
  ◌+◌, ◌≤◌, ◌≡◌, refl, ◌≢◌, ◌↔◌, inl, Bool, true, false, ◌&&◌, none, some, [], ◌∷◌, arith,
  if◌then◌else◌, length, any,
}
use ca_dns.Prelude.Text.{Text, text_eq, text_leb}
use ca_dns.Prelude.Sort.{insert_by, sort_by, In}
use ca_dns.Queue.{
  miss, expired, Job, QueuePolicy, Row, Table, new_row, update_where, enqueue, lock_free, is_ready,
  chosen, lock_row, lock_rows, claim, complete, fail, release,
}
use ca_dns.Queue.Rows.{find, Distinct, RowIsValid, WellFormed, upserted}
use ca_dns.Queue.Claim.{claim_sound, claim_order}
use ca_dns.Queue.Enqueue.{enqueue_rows}
use ca_dns.Queue.Spec.{SpecSteps}
use ca_dns.Queue.Entries.{entries_of}
use ca_dns.Queue.Refine.{ops_of, Steps-SpecSteps}
use ca_dns.Queue.Steps.{claims, completes, Steps, done, more, Steps-WellFormed}
use ca_dns.Queue.Locks.{live_lock, claim-claim}

abbrev policy : QueuePolicy
policy = record {
  lock_timeout_seconds = 300;
  max_attempts = 5;
  retry_base_seconds = 60;
  retry_max_seconds = 3600;
  dead_cooldown_seconds = 86400;
}

abbrev dom_a : Text
dom_a = 1 ∷ []

abbrev dom_b : Text
dom_b = 2 ∷ []

abbrev dom_c : Text
dom_c = 3 ∷ []

abbrev alice : Text
alice = 1 ∷ []

abbrev bob : Text
bob = 2 ∷ []

abbrev row_a : Row
row_a = new_row 10 dom_a miss

abbrev row_b : Row
row_b = new_row 20 dom_b expired

-- Locked by alice since 90.
abbrev row_c : Row
row_c = record (new_row 5 dom_c miss) { attempts = 5; locked_by = some alice; locked_at = some 90 }

abbrev table : Table
table = row_b ∷ row_c ∷ row_a ∷ []

abbrev nobody : Text → Bool
nobody domain = false

abbrev job_a : Job
job_a = record { domain = dom_a; reason = miss; attempts = 1 }

abbrev job_b : Job
job_b = record { domain = dom_b; reason = expired; attempts = 1 }

abbrev job_c : Job
job_c = record { domain = dom_c; reason = miss; attempts = 5 }

abbrev job_c1 : Job
job_c1 = record { domain = dom_c; reason = miss; attempts = 1 }

distinct : Distinct table
unfolding text_eq
distinct = (refl, (refl, (refl, tt)))

free-RowIsValid : (row : Row) → row.locked_by ≡ none → row.locked_at ≡ none → RowIsValid row
free-RowIsValid row by at = record { lock_pair = rw (by, at) refl; dead_unlocked = λ e. by }

table-WellFormed : WellFormed table
table-WellFormed = record {
  distinct = distinct;
  valid = (
    free-RowIsValid row_b refl refl,
    (record { lock_pair = refl; dead_unlocked = λ e. cc }, (free-RowIsValid row_a refl refl, tt)),
  );
}

-- The oldest ready row is taken, the locked one is passed over.
claims_a : (claim policy 100 nobody bob 1 table).0 ≡ (job_a ∷ [])
unfolding claim chosen is_ready lock_free lock_rows update_where sort_by insert_by text_eq text_leb
claims_a = refl

claim_sound_example :
    (row : Row) × (find dom_a table ≡ some row)
    × (is_ready policy 100 row ≡ true)
    × (nobody dom_a ≡ false)
    × (job_a ≡ record { domain = row.domain; reason = row.reason; attempts = row.attempts + 1 })
    × (find dom_a (claim policy 100 nobody bob 1 table).1 ≡ some (lock_row bob 100 row))
claim_sound_example =
    claim_sound policy 100 nobody bob 1 table distinct job_a (rw claims_a (inl refl))

unclaimed_b : any (λ job. text_eq job.domain dom_b) (claim policy 100 nobody bob 1 table).0 ≡ false
unfolding text_eq
unclaimed_b = rw claims_a refl

find_a : find dom_a table ≡ some row_a
unfolding find text_eq
find_a = refl

find_c : find dom_c table ≡ some row_c
unfolding find text_eq
find_c = refl

b_ready : is_ready policy 100 row_b ≡ true
unfolding is_ready lock_free
b_ready = refl

claim_order_example :
    (length (claim policy 100 nobody bob 1 table).0 ≡ 1)
    × ((job : Job) (row : Row)
        → In job (claim policy 100 nobody bob 1 table).0
        → find job.domain table ≡ some row
        → row.enqueued_at ≤ 20)
claim_order_example =
    claim_order policy 100 nobody bob 1 table distinct row_b (inl refl) b_ready refl unclaimed_b

claimed_b : In job_b (claim policy 400 nobody bob 2 (claim policy 100 nobody bob 1 table).1).0
unfolding claim chosen is_ready lock_free lock_rows update_where sort_by insert_by text_eq text_leb
claimed_b = inl refl

claim-claim_example : dom_a ≢ dom_b
claim-claim_example =
    claim-claim policy 100 400 nobody nobody bob bob 1 2 table job_a job_b distinct (omega arith)
      (rw claims_a (inl refl)) claimed_b

live_lock_example :
    (find dom_c (claim policy 390 nobody bob 9 table).1 ≡ some row_c)
    × (find dom_c (enqueue 390 (dom_c ∷ []) expired table).table ≡ some row_c)
    × (find dom_c (complete job_c bob table) ≡ some row_c)
    × (find dom_c (fail policy 390 job_c bob (3 ∷ []) table).1 ≡ some row_c)
    × (find dom_c (release job_c bob table) ≡ some row_c)
live_lock_example =
    live_lock policy 390 table row_c alice bob 90 nobody 9 (dom_c ∷ []) expired job_c (3 ∷ [])
      table-WellFormed find_c refl refl (omega arith) (λ e. cc)

enqueue_rows_example :
    (find dom_c (enqueue 100 (dom_c ∷ dom_a ∷ []) expired []).table ≡ (
      if any (text_eq dom_c) (dom_c ∷ dom_a ∷ [])
      then some (upserted 100 expired dom_c (find dom_c [])).1
      else find dom_c []))
    × (any (text_eq dom_c) (enqueue 100 (dom_c ∷ dom_a ∷ []) expired []).queued ≡ (
        any (text_eq dom_c) (dom_c ∷ dom_a ∷ []) && (upserted 100 expired dom_c (find dom_c [])).0))
    × (((enqueue 100 (dom_c ∷ dom_a ∷ []) expired []).notified ≡ false)
        ↔ ((enqueue 100 (dom_c ∷ dom_a ∷ []) expired []).queued ≡ []))
enqueue_rows_example = enqueue_rows 100 (dom_c ∷ dom_a ∷ []) expired [] dom_c

abbrev after_claim : Table
after_claim = (claim policy 100 nobody bob 1 table).1

claimed_and_completed : Steps policy table (complete job_a bob after_claim)
claimed_and_completed =
    more table after_claim (complete job_a bob after_claim) (claims 100 nobody bob 1 table) (
      more after_claim (complete job_a bob after_claim) (complete job_a bob after_claim)
        (completes job_a bob after_claim) (done (complete job_a bob after_claim)))

Steps-WellFormed_example : WellFormed (complete job_a bob after_claim)
Steps-WellFormed_example =
    Steps-WellFormed policy table (complete job_a bob after_claim) claimed_and_completed
      table-WellFormed

Steps-SpecSteps_example :
    SpecSteps policy
      (ops_of policy table (complete job_a bob after_claim) claimed_and_completed)
      (entries_of table)
      (entries_of (complete job_a bob after_claim))
Steps-SpecSteps_example =
    Steps-SpecSteps policy table (complete job_a bob after_claim) claimed_and_completed
      table-WellFormed
