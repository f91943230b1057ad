-- ===== src/Queue/Retry.antt =====
-- The schedule of retries: the delay of a failed job, and when its row can be claimed again.
use native.Mathlib.Nat.{pow-succ'}
use ca_dns.Prelude.{
  ℕ, suc, ◌+◌, ◌-◌, ◌*◌, ◌^◌, ◌≤◌, ◌<◌, min, ◌≡◌, refl, ◌⊎◌, true, false, some, [], ◌∷◌, arith, leb,
  any,
}
use ca_dns.Prelude.Text.{Text, text_eq, text_eq_refl}
use ca_dns.Queue.{
  Reason, pending, dead, Job, QueuePolicy, retry_delay, Row, Table, enqueue, lock_free, is_ready,
  failed_row, fail,
}
use ca_dns.Queue.Rows.{find, Distinct}
use ca_dns.Queue.Enqueue.{enqueue_rows}
use ca_dns.Queue.Holder.{holder_row}

capped_growth :
    (cap x y : ℕ)
    → y ≡ 2 * x
    → (min cap x ≤ cap)
      × (min cap x ≤ min cap y)
      × (min cap y ≤ 2 * min cap x)
      × ((min cap y ≡ cap) ⊎ (min cap y ≡ 2 * min cap x))
capped_growth cap x y h = ground (arith, h)

doubles : (base n : ℕ) → base * 2 ^ (n + 2 - 1) ≡ 2 * (base * 2 ^ (n + 1 - 1))
doubles base n =
    let up : n + 2 - 1 ≡ suc n = omega arith in
    let same : n + 1 - 1 ≡ n = omega arith in rw (up, same, pow-succ' 2 n) (omega arith)

-- The delay doubles with each attempt until the cap: it is never above `retry_max_seconds`, never
-- decreases from one attempt to the next and never more than doubles, and below the cap it is
-- exactly twice the delay before.
pub retry_delay_growth :
    (policy : QueuePolicy) (n : ℕ)
    → (retry_delay policy (n + 1) ≤ policy.retry_max_seconds)
      × (retry_delay policy (n + 1) ≤ retry_delay policy (n + 2))
      × (retry_delay policy (n + 2) ≤ 2 * retry_delay policy (n + 1))
      × ((retry_delay policy (n + 2) ≡ policy.retry_max_seconds)
          ⊎ (retry_delay policy (n + 2) ≡ 2 * retry_delay policy (n + 1)))
unfolding retry_delay
retry_delay_growth policy n =
    capped_growth policy.retry_max_seconds (policy.retry_base_seconds * 2 ^ (n + 1 - 1))
      (policy.retry_base_seconds * 2 ^ (n + 2 - 1)) (doubles policy.retry_base_seconds n)

module _ (policy : QueuePolicy) (now later : ℕ) (job : Job) (worker_id error : Text) (table : Table)
    (row : Row) (distinct : Distinct table) (found : find job.domain table ≡ some row)
    (owner : row.locked_by ≡ some worker_id) where
  -- When a worker that holds its job's row reports a failure at `now` with attempts left, `fail`
  -- returns `pending`, the row keeps its attempts, and it can be claimed exactly from `retry_delay`
  -- after `now` on.
  pub fail_retries :
      job.attempts < policy.max_attempts
      → (new : Row) × (find job.domain (fail policy now job worker_id error table).1 ≡ some new)
        × ((fail policy now job worker_id error table).0 ≡ pending)
        × (new.attempts ≡ row.attempts)
        × (is_ready policy later new ≡ leb (now + retry_delay policy job.attempts) later)
  unfolding is_ready lock_free
  fail_retries left =
      let held = holder_row policy now job worker_id error table row distinct found owner in
      let more : leb policy.max_attempts job.attempts ≡ false = ground (arith, left) in
      (
        failed_row policy now error job row,
        held.1,
        rw (held.2, more) refl,
        refl,
        rw more (ground arith),
      )

  -- When it reports one at `now` with no attempts left, `fail` returns `dead`, `claim` never takes
  -- the row, and an `enqueue` of its domain renews it exactly from the end of the cooldown on.
  pub fail_buries :
      (reason : Reason)
      → policy.max_attempts ≤ job.attempts
      → (new : Row) × (find job.domain (fail policy now job worker_id error table).1 ≡ some new)
        × ((fail policy now job worker_id error table).0 ≡ dead)
        × (is_ready policy later new ≡ false)
        × (any
              (text_eq job.domain)
              (enqueue later
                (job.domain ∷ [])
                reason
                (fail policy now job worker_id error table).1).queued
            ≡ leb (now + policy.dead_cooldown_seconds) later)
  unfolding is_ready
  fail_buries reason spent =
      let held = holder_row policy now job worker_id error table row distinct found owner in
      let over : leb policy.max_attempts job.attempts ≡ true = ground (arith, spent) in
      let (_, queued, _) =
        enqueue_rows later (job.domain ∷ []) reason (fail policy now job worker_id error table).1
          job.domain in
      (
        failed_row policy now error job row,
        held.1,
        rw (held.2, over) refl,
        rw over refl,
        rw (queued, held.1, text_eq_refl job.domain, over) (ground arith),
      )
