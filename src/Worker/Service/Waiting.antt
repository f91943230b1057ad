-- ===== src/Worker/Service/Waiting.antt =====
-- When the loop of `run` waits.
use ca_dns.Prelude.{
  ℕ, ◌-◌, ◌≤◌, ◌≡◌, ◌⊎◌, inl, inr, Bool, true, false, not, ◌&&◌, ◌++◌, arith, leb, Bool-cases,
  length, any,
}
use ca_dns.Prelude.Text.{Text}
use ca_dns.Queue.{QueuePolicy, is_ready, claim}
use ca_dns.Queue.Rows.{Distinct}
use ca_dns.Queue.Claim.{claim_nothing}
use ca_dns.Worker.Service.{Service, claim_jobs, goes_on}

module _ (policy : QueuePolicy) (worker_id : Text) (concurrency : ℕ) where
  -- With the database there, the loop waits only when the worker has all the tasks it may have, or
  -- when no row of the queue is ready that no other transaction holds: it does not sleep while it
  -- could work.
  pub goes_on-claim_jobs :
      (now : ℕ) (busy : Text → Bool) (s : Service)
      → Distinct s.table
      → goes_on policy worker_id concurrency
          (claim_jobs policy worker_id concurrency now busy true s)
        ≡ false
      → (concurrency ≤ length (claim_jobs policy worker_id concurrency now busy true s).1.running)
        ⊎ (any
              (λ row. is_ready policy now row && not (busy row.domain))
              (claim_jobs policy worker_id concurrency now busy true s).1.table
            ≡ false)
  unfolding claim_jobs goes_on
  goes_on-claim_jobs now busy s distinct waits =
      let free = concurrency - length s.running in
      let taken = claim policy now busy worker_id free s.table in
      elim (Bool-cases (leb concurrency (length s.running))) [
        | inl full ↦ rw full (inl (ground (arith, full)))
        | inr room ↦ elim (Bool-cases (leb concurrency (length (s.running ++ taken.0)))) [
          | inl full' ↦ rw room (inl (ground (arith, full')))
          | inr room' ↦
              let empty : length taken.0 ≡ 0 = ground (arith, (rw room at waits), room') in
              let (none_ready, same) =
                claim_nothing policy now busy worker_id free s.table distinct empty
                  (ground (arith, room)) in
              rw (room, same) (inr none_ready)
        ]
      ]
