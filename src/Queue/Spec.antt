-- ===== src/Queue/Spec.antt =====
-- What the queue promises, one domain at a time: no tables, no order, no error texts. A domain's job
-- is absent, waiting, taken by a worker or buried, and each operation moves it between these.
use ca_dns.Prelude.{
  ℕ, ◌+◌, ◌-◌, ◌≤◌, ◌≡◌, Bool, true, false, not, ◌&&◌, List, [], ◌∷◌, ltb, leb, if◌then◌else◌,
  length, any,
}
use ca_dns.Prelude.Sort.{In}
use ca_dns.Prelude.Text.{Text, text_eq}
use ca_dns.Queue.{Reason, Job, QueuePolicy, retry_delay}

pub data Entry : Type 0 where
  absent : Entry
  waiting : (reason : Reason) (attempts next_attempt_at : ℕ) → Entry
  taken :
      (worker_id : Text) (locked_at : ℕ) (reason : Reason) (attempts next_attempt_at : ℕ) → Entry
  buried : (next_attempt_at : ℕ) → Entry

-- A new entry, or one whose cooldown is over.
abbrev pub revive : ℕ → Reason → Entry → Entry
revive now reason absent = waiting reason 0 now
revive now reason (waiting r n t) = waiting r n t
revive now reason (taken w l r n t) = taken w l r n t
revive now reason (buried t) = if leb t now then waiting reason 0 now else buried t

-- Due, and not taken by anybody whose time is not over.
abbrev pub may_take : QueuePolicy → ℕ → Entry → Bool
may_take policy now absent = false
may_take policy now (waiting r n t) = leb t now
may_take policy now (taken w l r n t) = leb t now && ltb (l + policy.lock_timeout_seconds) now
may_take policy now (buried t) = false

abbrev pub take_by : Text → ℕ → Entry → Entry
take_by worker_id now absent = absent
take_by worker_id now (waiting r n t) = taken worker_id now r (n + 1) t
take_by worker_id now (taken w l r n t) = taken worker_id now r (n + 1) t
take_by worker_id now (buried t) = buried t

-- A change that only the worker who has the job makes.
abbrev pub if_taken : Text → (Reason → ℕ → ℕ → Entry) → Entry → Entry
if_taken worker_id change absent = absent
if_taken worker_id change (waiting r n t) = waiting r n t
if_taken worker_id change (taken w l r n t) =
    if text_eq w worker_id then change r n t else taken w l r n t
if_taken worker_id change (buried t) = buried t

abbrev pub conclude : Reason → ℕ → ℕ → Entry
conclude reason attempts next_attempt_at = absent

abbrev pub give_up : QueuePolicy → ℕ → Job → Reason → ℕ → ℕ → Entry
give_up policy now job reason attempts next_attempt_at =
    if leb policy.max_attempts job.attempts
    then buried (now + policy.dead_cooldown_seconds)
    else waiting reason attempts (now + retry_delay policy job.attempts)

abbrev pub give_back : Reason → ℕ → ℕ → Entry
give_back reason attempts next_attempt_at = waiting reason (attempts - 1) next_attempt_at

-- The entries by domain, and a change of those of some domains.
abbrev pub Entries : Type 0
Entries = Text → Entry

abbrev pub change_at : (Text → Bool) → (Entry → Entry) → Entries → Entries
change_at names change entries =
    λ domain. if names domain then change (entries domain) else entries domain

-- What is asked of the queue, and by whom.
pub data Op : Type 0 where
  enqueue_op : (now : ℕ) (domains : List Text) (reason : Reason) → Op
  claim_op : (now : ℕ) (busy : Text → Bool) (worker_id : Text) (limit : ℕ) (jobs : List Job) → Op
  complete_op release_op : (job : Job) (worker_id : Text) → Op
  fail_op : (now : ℕ) (job : Job) (worker_id : Text) → Op

abbrev pub named : List Job → Text → Bool
named jobs domain = any (λ job. text_eq job.domain domain) jobs

-- Whether a claim may take an entry: it is ready, and no other transaction has it.
abbrev pub is_free : QueuePolicy → ℕ → (Text → Bool) → Entries → Text → Bool
is_free policy now busy entries domain = may_take policy now (entries domain) && not (busy domain)

-- A job has its entry's reason and counts one attempt more.
abbrev pub Shows : Job → Entry → Type 0
Shows job absent = ⊥
Shows job (waiting r n t) = (job.reason ≡ r) × (job.attempts ≡ n + 1)
Shows job (taken w l r n t) = (job.reason ≡ r) × (job.attempts ≡ n + 1)
Shows job (buried t) = ⊥

-- One operation. Of the entries that may be taken a claim gives some as jobs, as many as it is
-- allowed or all; which ones is left open.
pub data SpecStep (policy : QueuePolicy) : Op → Entries → Entries → Type 0 where
  enqueued :
      (now : ℕ) (domains : List Text) (reason : Reason) (entries : Entries)
      → SpecStep policy
          (enqueue_op now domains reason)
          entries
          (change_at (λ domain. any (text_eq domain) domains) (revive now reason) entries)
  claimed :
      (now : ℕ) (busy : Text → Bool) (worker_id : Text) (limit : ℕ) (jobs : List Job)
      (entries : Entries)
      → length jobs ≤ limit
      → ((job : Job) → In job jobs → Shows job (entries job.domain))
      → ((domain : Text) → named jobs domain ≡ true → is_free policy now busy entries domain ≡ true)
      → ((domain : Text)
          → named jobs domain ≡ false
          → is_free policy now busy entries domain ≡ true
          → length jobs ≡ limit)
      → SpecStep policy
          (claim_op now busy worker_id limit jobs)
          entries
          (change_at (named jobs) (take_by worker_id now) entries)
  completed :
      (job : Job) (worker_id : Text) (entries : Entries)
      → SpecStep policy
          (complete_op job worker_id)
          entries
          (change_at (λ domain. text_eq domain job.domain) (if_taken worker_id conclude) entries)
  failed :
      (now : ℕ) (job : Job) (worker_id : Text) (entries : Entries)
      → SpecStep policy (fail_op now job worker_id) entries (
          change_at
            (λ domain. text_eq domain job.domain)
            (if_taken worker_id (give_up policy now job))
            entries)
  released :
      (job : Job) (worker_id : Text) (entries : Entries)
      → SpecStep policy
          (release_op job worker_id)
          entries
          (change_at (λ domain. text_eq domain job.domain) (if_taken worker_id give_back) entries)

-- The operations of a list, one after the other.
pub data SpecSteps (policy : QueuePolicy) : List Op → Entries → Entries → Type 0 where
  stay : (entries : Entries) → SpecSteps policy [] entries entries
  then_on :
      (op : Op) (ops : List Op) (a b c : Entries)
      → SpecStep policy op a b
      → SpecSteps policy ops b c
      → SpecSteps policy (op ∷ ops) a c
