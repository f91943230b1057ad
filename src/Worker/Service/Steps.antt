-- ===== src/Worker/Service/Steps.antt =====
-- The runs of a worker, among the statements of others on the queue.
use ca_dns.Prelude.{ℕ, ◌+◌, ◌≡◌, Bool, true, false, List, [], ◌∷◌, ◌++◌}
use ca_dns.Prelude.Text.{Text, text_eq}
use ca_dns.Queue.{Reason, Job, QueuePolicy, Table, enqueue, before, claim, complete, fail, release}
use ca_dns.Worker.Service.{
  Attempt, measured, broke, cancelled, Ending, committed, unreachable, interrupted, Service,
  end_task, claim_jobs,
}

module _ (policy : QueuePolicy) (worker_id : Text) where
  -- A statement of anybody else on the queue.
  pub data Other : Table → Table → Type 0 where
    enqueues :
        (now : ℕ) (domains : List Text) (reason : Reason) (table : Table)
        → Other table (enqueue now domains reason table).table
    claims :
        (now : ℕ) (busy : Text → Bool) (other : Text) (limit : ℕ) (table : Table)
        → text_eq other worker_id ≡ false
        → Other table (claim policy now busy other limit table).1
    completes :
        (job : Job) (other : Text) (table : Table)
        → text_eq other worker_id ≡ false
        → Other table (complete job other table)
    fails :
        (now : ℕ) (job : Job) (other error : Text) (table : Table)
        → text_eq other worker_id ≡ false
        → Other table (fail policy now job other error table).1
    releases :
        (job : Job) (other : Text) (table : Table)
        → text_eq other worker_id ≡ false
        → Other table (release job other table)

  -- The jobs whose task ended without giving them away, as its statement was not committed.
  abbrev pub lost_by : Job → Attempt → Ending → List Job
  lost_by job (measured status) ending = []
  lost_by job (broke error) ending = elim ending [
    | committed ↦ []
    | unreachable ↦ job ∷ []
    | interrupted ↦ job ∷ []
  ]
  lost_by job cancelled ending = elim ending [
    | committed ↦ []
    | unreachable ↦ job ∷ []
    | interrupted ↦ []
  ]

  module _ (concurrency : ℕ) where
    -- The loop claims until it leaves for `_drain`; a task ends at any time.
    pub data Step : Service → Service → Type 0 where
      takes :
          (now : ℕ) (busy : Text → Bool) (connected : Bool) (s : Service)
          → s.stopping ≡ false
          → Step s (claim_jobs policy worker_id concurrency now busy connected s).1
      leaves : (s : Service) → Step s (record s { stopping = true })
      ends :
          (now : ℕ) (job : Job) (before after : List Job) (attempt : Attempt) (ending : Ending)
          (s : Service)
          → s.running ≡ before ++ (job ∷ after)
          → Step s (end_task policy worker_id now job (before ++ after) attempt ending s)
      others :
          (table : Table) (s : Service) → Other s.table table → Step s (record s { table = table })

    pub data Run : Service → Service → Type 0 where
      done : (s : Service) → Run s s
      more : (a b c : Service) → Step a b → Run b c → Run a c

    -- The number of jobs that a run takes.
    abbrev pub claimed_in : (a b : Service) → Step a b → ℕ
    claimed_in a b (takes now busy connected s e) =
        (claim_jobs policy worker_id concurrency now busy connected s).0
    claimed_in a b (leaves s) = 0
    claimed_in a b (ends now job before after attempt ending s e) = 0
    claimed_in a b (others table s e) = 0

    unfoldable pub claims_of : (a b : Service) → Run a b → ℕ
    claims_of a b (done s) = 0
    claims_of a c (more x b y step run) = claimed_in x b step + claims_of b y run

    abbrev pub lost_in : (a b : Service) → Step a b → List Job
    lost_in a b (takes now busy connected s e) = []
    lost_in a b (leaves s) = []
    lost_in a b (ends now job before after attempt ending s e) = lost_by job attempt ending
    lost_in a b (others table s e) = []

    unfoldable pub lost_of : (a b : Service) → Run a b → List Job
    lost_of a b (done s) = []
    lost_of a c (more x b y step run) = lost_in x b step ++ lost_of b y run
