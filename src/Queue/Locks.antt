-- ===== src/Queue/Locks.antt =====
-- A lock that has not timed out keeps every other worker off the row.
use mathlib.Core.Option
use ca_dns.Prelude.{
  ℕ, ◌+◌, ◌-◌, ◌≤◌, ◌≡◌, refl, sym, ◌∙◌, ◌≢◌, inl, inr, Bool, true, false, none, some, List, [],
  ◌∷◌, arith, Bool-cases, any,
}
use ca_dns.Prelude.Text.{Text, text_eq, text_eq_iff}
use ca_dns.Prelude.Sort.{In}
use ca_dns.Prelude.Sorted.{All-In}
use ca_dns.Queue.{
  Reason, State, pending, dead, Job, QueuePolicy, Row, Table, enqueue, lock_free, is_ready,
  lock_row, claim, complete, fail, release,
}
use ca_dns.Queue.Rows.{find, Distinct, RowIsValid, WellFormed}
use ca_dns.Queue.Members.{find→In}
use ca_dns.Queue.Claim.{Distinct-claim, claim_sound, claim_rest}
use ca_dns.Queue.Enqueue.{enqueue_rows}
use ca_dns.Queue.Holder.{not_held, holder_row}

busy_lock :
    (policy : QueuePolicy) (now : ℕ) (row : Row) (locked_at : ℕ)
    → row.locked_at ≡ some locked_at
    → now ≤ locked_at + policy.lock_timeout_seconds
    → is_ready policy now row ≡ false
unfolding is_ready lock_free
busy_lock policy now row locked_at e live = rw e (ground (arith, live))

any_job :
    (domain : Text) (jobs : List Job)
    → any (λ job. text_eq job.domain domain) jobs ≡ true
    → (job : Job) × In job jobs × (job.domain ≡ domain)
any_job domain [] h = cc
any_job domain (j ∷ js) h = elim (Bool-cases (text_eq j.domain domain)) [
  | inl e ↦ (j, inl refl, (text_eq_iff j.domain domain).0 e)
  | inr e ↦ let (job, there, same) = any_job domain js (rw e at h) in (job, inr there, same)
]

not_ready_unclaimed :
    (policy : QueuePolicy) (now : ℕ) (busy : Text → Bool) (worker_id : Text) (limit : ℕ)
    (table : Table) (domain : Text) (row : Row)
    → Distinct table
    → find domain table ≡ some row
    → is_ready policy now row ≡ false
    → any (λ job. text_eq job.domain domain) (claim policy now busy worker_id limit table).0 ≡ false
not_ready_unclaimed policy now busy worker_id limit table domain row d found idle =
    elim (Bool-cases
      (any (λ job. text_eq job.domain domain) (claim policy now busy worker_id limit table).0)) [
        | inl has ↦
            let (job, there, e) = any_job domain _ has in
            let (row', found', fits, _, _, _) =
              claim_sound policy now busy worker_id limit table d job there in
            let same : row' ≡ row = Option.some-injective _ _ (sym found' ∙ rw e found) in
            absurd (ground (arith, fits, same, idle))
        | inr unmet ↦ unmet
      ]

locked_alive :
    (row : Row) (owner : Text) → RowIsValid row → row.locked_by ≡ some owner → row.state ≡ pending
locked_alive row owner valid by = alive row.state refl
  where
    alive : (s : State) → row.state ≡ s → row.state ≡ pending
    alive pending e = e
    alive dead e = absurd (ground (arith, by, valid.dead_unlocked e))

enqueue_locked :
    (now : ℕ) (domains : List Text) (reason : Reason) (table : Table) (row : Row)
    → find row.domain table ≡ some row
    → row.state ≡ pending
    → find row.domain (enqueue now domains reason table).table ≡ some row
enqueue_locked now domains reason table row found alive =
    let (after, _, _) = enqueue_rows now domains reason table row.domain in
    rw (after, found, alive) (ground arith)

-- In a well-formed table, a row whose lock has not timed out is left as it is by every other worker:
-- by its `claim`, and by its `complete`, `fail` and `release` of any job; and by any `enqueue`.
pub live_lock :
    (policy : QueuePolicy) (now : ℕ) (table : Table) (row : Row) (owner worker_id : Text)
    (locked_at : ℕ) (busy : Text → Bool) (limit : ℕ) (domains : List Text) (reason : Reason)
    (job : Job) (error : Text)
    → WellFormed table
    → find row.domain table ≡ some row
    → row.locked_by ≡ some owner
    → row.locked_at ≡ some locked_at
    → now ≤ locked_at + policy.lock_timeout_seconds
    → owner ≢ worker_id
    → (find row.domain (claim policy now busy worker_id limit table).1 ≡ some row)
      × (find row.domain (enqueue now domains reason table).table ≡ some row)
      × (find row.domain (complete job worker_id table) ≡ some row)
      × (find row.domain (fail policy now job worker_id error table).1 ≡ some row)
      × (find row.domain (release job worker_id table) ≡ some row)
live_lock policy now table row owner worker_id locked_at busy limit domains reason job error h found
      by at live other =
    let (there, _) = find→In row.domain table row found in
    let valid : RowIsValid row = All-In RowIsValid table row h.valid there in
    let kept =
      not_held policy now job worker_id error table row.domain row h.distinct found
        (ground (arith, by, other, text_eq_iff owner worker_id)) in
    (
      rw
          (claim_rest policy now busy worker_id limit table h.distinct row.domain (
            not_ready_unclaimed policy now busy worker_id limit table row.domain row h.distinct
              found (busy_lock policy now row locked_at at live)))
          found,
      enqueue_locked now domains reason table row found (locked_alive row owner valid by),
      kept.0,
      kept.1,
      kept.2,
    )

-- Two `claim`s of which the second is not later than the lock timeout after the first give no domain
-- to both, when nothing else happens between them.
pub claim-claim :
    (policy : QueuePolicy) (now now' : ℕ) (busy busy' : Text → Bool) (worker_id worker_id' : Text)
    (limit limit' : ℕ) (table : Table) (job job' : Job)
    → Distinct table
    → now' ≤ now + policy.lock_timeout_seconds
    → In job (claim policy now busy worker_id limit table).0
    → In job'
        (claim policy now' busy' worker_id' limit'
          (claim policy now busy worker_id limit table).1).0
    → job.domain ≢ job'.domain
claim-claim policy now now' busy busy' worker_id worker_id' limit limit' table job job' d soon h
      h' =
    λ same.
      let (row, _, _, _, _, after) = claim_sound policy now busy worker_id limit table d job h in
      let distinct' = Distinct-claim policy now busy worker_id limit table d in
      let (row', found', fits, _, _, _) =
        claim_sound policy now' busy' worker_id' limit' _ distinct' job' h' in
      let locked : row' ≡ lock_row worker_id now row =
        Option.some-injective _ _ (sym found' ∙ rw (sym same) after) in
      ground (arith, fits, busy_lock policy now' row' now (rw locked refl) soon)

-- A job that is released right after it was claimed leaves its row as it was, but unlocked.
pub release-claim :
    (policy : QueuePolicy) (now : ℕ) (busy : Text → Bool) (worker_id : Text) (limit : ℕ)
    (table : Table) (job : Job) (row : Row)
    → Distinct table
    → In job (claim policy now busy worker_id limit table).0
    → find job.domain table ≡ some row
    → find job.domain (release job worker_id (claim policy now busy worker_id limit table).1)
      ≡ some (record row { locked_by = none; locked_at = none })
release-claim policy now busy worker_id limit table job row d h found =
    let (row', found', _, _, e, after) =
      claim_sound policy now busy worker_id limit table d job h in
    let same : row' ≡ row = Option.some-injective _ _ (sym found' ∙ found) in
    let held =
      holder_row policy now job worker_id [] _ (lock_row worker_id now row')
        (Distinct-claim policy now busy worker_id limit table d) after refl in
    let back : row.attempts + 1 - 1 ≡ row.attempts = omega arith in rw (held.3, same, back) refl
