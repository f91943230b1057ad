-- ===== src/Queue.antt =====
-- services/src/cadns/queue/pg.py: the measurement queue on `cadns.measurement_queue`
-- (db/migrations/0001_init.sql). The table is the list of its rows; a statement runs at one time
-- `now`, in seconds. SQL leaves the order of rows with equal keys open; here it is the table's.
pub mod Rows
pub mod Members
pub mod Enqueue
pub mod Chosen
pub mod Claim
pub mod Holder
pub mod Locks
pub mod Retry
pub mod Steps
pub mod Spec
pub mod Entries
pub mod Refine
mod Tests
use ca_dns.Prelude.{
  ℕ, zero, suc, ◌+◌, ◌-◌, ◌*◌, ◌^◌, min, Bool, true, false, not, ◌&&◌, ◌||◌, Option, none, some,
  List, [], ◌∷◌, ltb, leb, if◌then◌else◌, take, map, filter, any,
}
use ca_dns.Prelude.Text.{Text, text_eq, text_leb}
use ca_dns.Prelude.Sort.{sort_by, sorted_set}

pub data Reason : Type 0 where
  miss expired : Reason

pub data State : Type 0 where
  pending dead : State

pub record Job : Type 0 where
  pub domain : Text
  pub reason : Reason
  pub attempts : ℕ

pub record QueuePolicy : Type 0 where
  pub lock_timeout_seconds : ℕ
  pub max_attempts : ℕ
  pub retry_base_seconds : ℕ
  pub retry_max_seconds : ℕ
  pub dead_cooldown_seconds : ℕ

-- `attempts - 1` on ℕ is `max(0, attempts - 1)`.
unfoldable pub retry_delay : QueuePolicy → ℕ → ℕ
retry_delay policy attempts =
    min policy.retry_max_seconds (policy.retry_base_seconds * 2 ^ (attempts - 1))

-- A row of the table.
pub record Row : Type 0 where
  pub domain : Text
  pub reason : Reason
  pub state : State
  pub enqueued_at : ℕ
  pub attempts : ℕ
  pub next_attempt_at : ℕ
  pub locked_by : Option Text
  pub locked_at : Option ℕ
  pub last_error : Option Text

abbrev pub Table : Type 0
Table = List Row

abbrev pub is_none {ℓ} : {A : Type ℓ} → Option A → Bool
is_none none = true
is_none (some a) = false

abbrev pub is_dead : State → Bool
is_dead pending = false
is_dead dead = true

-- A row as INSERT fills it by the column defaults; the update of a dead row writes the same.
abbrev pub new_row : ℕ → Text → Reason → Row
new_row now domain reason = record {
  domain = domain;
  reason = reason;
  state = pending;
  enqueued_at = now;
  attempts = 0;
  next_attempt_at = now;
  locked_by = none;
  locked_at = none;
  last_error = none;
}

-- INSERT of one domain ON CONFLICT DO UPDATE: whether a row is returned, and the table.
unfoldable pub upsert : ℕ → Reason → Text → Table → Bool × Table
upsert now reason domain [] = (true, new_row now domain reason ∷ [])
upsert now reason domain (row ∷ rows) =
    let (queued, rows') = upsert now reason domain rows in
    if text_eq row.domain domain
    then (if is_dead row.state && leb row.next_attempt_at now
        then (true, new_row now row.domain reason ∷ rows)
        else (false, row ∷ rows))
    else (queued, row ∷ rows')

unfoldable pub upsert_all : ℕ → Reason → List Text → Table → List Text × Table
unfolding upsert
upsert_all now reason [] table = ([], table)
upsert_all now reason (domain ∷ domains) table =
    let (queued, table') = upsert now reason domain table in
    let (others, table'') = upsert_all now reason domains table' in
    (if queued then domain ∷ others else others, table'')

-- UPDATE: the change, on the rows that meet the test.
unfoldable pub update_where : (Row → Bool) → (Row → Row) → Table → Table
update_where test change [] = []
update_where test change (row ∷ rows) =
    (if test row then change row else row) ∷ update_where test change rows

-- What `enqueue` returns, whether it sends the notification, and the table it leaves.
pub record Enqueued : Type 0 where
  pub queued : List Text
  pub notified : Bool
  pub table : Table

abbrev pub is_empty {ℓ} : {A : Type ℓ} → List A → Bool
is_empty [] = true
is_empty (x ∷ xs) = false

unfoldable pub enqueue : ℕ → List Text → Reason → Table → Enqueued
unfolding upsert_all
enqueue now domains reason table =
    let (queued, table') = upsert_all now reason (sorted_set domains) table in
    record { queued = queued; notified = not (is_empty queued); table = table' }

-- `locked_at IS NULL OR locked_at < now() - lock_timeout`
unfoldable pub lock_free : QueuePolicy → ℕ → Option ℕ → Bool
lock_free policy now none = true
lock_free policy now (some locked_at) = ltb (locked_at + policy.lock_timeout_seconds) now

-- The condition of the SELECT in `claim`.
unfoldable pub is_ready : QueuePolicy → ℕ → Row → Bool
unfolding lock_free
is_ready policy now row =
    not (is_dead row.state) && leb row.next_attempt_at now && lock_free policy now row.locked_at

abbrev pub older : Row → Row → Bool
older a b = leb a.enqueued_at b.enqueued_at

-- The rows that the SELECT returns. `busy` are the domains whose rows other transactions have
-- locked when it runs: SKIP LOCKED passes over them.
unfoldable pub chosen : QueuePolicy → ℕ → (Text → Bool) → ℕ → Table → List Row
unfolding is_ready
chosen policy now busy limit table =
    take limit
      (sort_by older (filter (λ row. is_ready policy now row && not (busy row.domain)) table))

abbrev pub has_domain : Text → List Row → Bool
has_domain domain rows = any (λ row. text_eq row.domain domain) rows

-- The UPDATE of `claim` on one row.
abbrev pub lock_row : Text → ℕ → Row → Row
lock_row worker_id now row = record row {
  attempts = row.attempts + 1;
  locked_by = some worker_id;
  locked_at = some now;
}

abbrev pub job_of : Row → Job
job_of row = record { domain = row.domain; reason = row.reason; attempts = row.attempts }

abbrev pub before : Job → Job → Bool
before a b = text_leb a.domain b.domain

-- The UPDATE: the rows whose domain the SELECT returned.
unfoldable pub lock_rows : Text → ℕ → List Row → Table → Table
unfolding update_where
lock_rows worker_id now ready table =
    update_where (λ row. has_domain row.domain ready) (lock_row worker_id now) table

-- The jobs that the UPDATE returns, sorted by domain, and the table.
unfoldable pub claim : QueuePolicy → ℕ → (Text → Bool) → Text → ℕ → Table → List Job × Table
claim policy now busy worker_id limit table =
    let ready = chosen policy now busy limit table in
    let table' = lock_rows worker_id now ready table in
    if leb limit 0
    then ([], table)
    else (sort_by before (map job_of (filter (λ row. has_domain row.domain ready) table')), table')

abbrev pub is_owner : Text → Option Text → Bool
is_owner worker_id none = false
is_owner worker_id (some owner) = text_eq owner worker_id

-- `domain = %s AND locked_by = %s`
abbrev pub holds : Job → Text → Row → Bool
holds job worker_id row = text_eq row.domain job.domain && is_owner worker_id row.locked_by

unfoldable pub complete : Job → Text → Table → Table
complete job worker_id table = filter (λ row. not (holds job worker_id row)) table

abbrev pub failed_row : QueuePolicy → ℕ → Text → Job → Row → Row
failed_row policy now error job row =
    let exhausted = leb policy.max_attempts job.attempts in
    let delay =
      if exhausted then policy.dead_cooldown_seconds else retry_delay policy job.attempts in
    record row {
      state = if exhausted then dead else pending;
      next_attempt_at = now + delay;
      last_error = some (take 1000 error);
      locked_by = none;
      locked_at = none;
    }

-- The new state as `fail` returns it, and the table.
unfoldable pub fail : QueuePolicy → ℕ → Job → Text → Text → Table → State × Table
unfolding update_where
fail policy now job worker_id error table = (
  if leb policy.max_attempts job.attempts then dead else pending,
  update_where (holds job worker_id) (failed_row policy now error job) table,
)

-- `greatest(0, attempts - 1)` is `attempts - 1` on ℕ.
abbrev pub released_row : Row → Row
released_row row = record row { locked_by = none; locked_at = none; attempts = row.attempts - 1 }

unfoldable pub release : Job → Text → Table → Table
unfolding update_where
release job worker_id table = update_where (holds job worker_id) released_row table
