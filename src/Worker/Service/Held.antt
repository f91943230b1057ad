-- ===== src/Worker/Service/Held.antt =====
-- Which rows of the queue a worker holds: by the entries of `Queue.Spec`.
use ca_dns.Prelude.{
  ℕ, ◌≡◌, refl, ap, ◌∙◌, ◌⊎◌, inl, inr, Bool, true, false, List, arith, if◌then◌else◌, any,
}
use ca_dns.Prelude.Text.{Text, text_eq, text_eq_iff}
use ca_dns.Queue.{
  Reason, Job, QueuePolicy, Table, enqueue, claim, complete, failed_row, fail, released_row,
  release,
}
use ca_dns.Queue.Rows.{WellFormed}
use ca_dns.Queue.Spec.{
  Entry, absent, waiting, taken, buried, revive, take_by, if_taken, conclude, give_up, give_back,
  Entries, change_at,
}
use ca_dns.Queue.Entries.{
  entries_of, enqueued_entries, claimed_entries, updated_entries, completed_entries, failed_entry,
}
use ca_dns.Queue.Holder.{find-fail, find-release}

abbrev pub held_by : Text → Entry → Bool
held_by worker_id absent = false
held_by worker_id (waiting r n t) = false
held_by worker_id (taken w l r n t) = text_eq w worker_id
held_by worker_id (buried t) = false

abbrev pub is_held : Text → Table → Text → Bool
is_held worker_id table domain = held_by worker_id (entries_of table domain)

-- A statement by which a worker gives its job away, to nobody.
abbrev pub GivesAway : Job → Text → Table → Table → Type 0
GivesAway job worker_id a b =
    (to : Reason → ℕ → ℕ → Entry) × ((holder : Text) (reason : Reason) (n t : ℕ)
      → held_by holder (to reason n t) ≡ false)
    × (entries_of b
        ≡ change_at (λ domain. text_eq domain job.domain) (if_taken worker_id to) (entries_of a))

module _ (job : Job) (worker_id : Text) (table : Table) (h : WellFormed table) where
  pub complete-GivesAway : GivesAway job worker_id table (complete job worker_id table)
  complete-GivesAway =
      (conclude, λ holder reason n t. refl, completed_entries table h job worker_id)

  pub fail-GivesAway :
      (policy : QueuePolicy) (now : ℕ) (error : Text)
      → GivesAway job worker_id table (fail policy now job worker_id error table).1
  fail-GivesAway policy now error = (
    give_up policy now job,
    λ holder reason n t. ground arith,
    updated_entries table h job worker_id (failed_row policy now error job) (give_up policy now job)
        _ (λ domain. find-fail policy now job worker_id error table domain)
        (λ r e. failed_entry policy now error job r),
  )

  pub release-GivesAway : GivesAway job worker_id table (release job worker_id table)
  release-GivesAway = (
    give_back,
    λ holder reason n t. refl,
    updated_entries table h job worker_id released_row give_back _
        (λ domain. find-release job worker_id table domain) (λ r e. rw e refl),
  )

-- Afterwards the worker does not hold the job's row, and anybody holds no more rows than before.
pub GivesAway-is_held :
    (job : Job) (worker_id : Text) (a b : Table) (holder domain : Text)
    → GivesAway job worker_id a b
    → is_held holder b domain ≡ true
    → (is_held holder a domain ≡ true)
      × (text_eq holder worker_id ≡ true → text_eq domain job.domain ≡ false)
GivesAway-is_held job worker_id a b holder domain (to, untaken, e) held =
    let at_domain : entries_of b domain ≡ (
        if text_eq domain job.domain
        then if_taken worker_id to (entries_of a domain)
        else entries_of a domain) =
      ap (λ (entries : Entries). entries domain) e in
    after (entries_of a domain) (rw at_domain at held)
  where
    after :
        (entry : Entry)
        → held_by holder (if text_eq domain job.domain then if_taken worker_id to entry else entry)
          ≡ true
        → (held_by holder entry ≡ true)
          × (text_eq holder worker_id ≡ true → text_eq domain job.domain ≡ false)
    after absent k = ground (arith, k)
    after (waiting r n t) k = ground (arith, k)
    after (taken w l r n t) k = ground (
      arith,
      untaken holder r n t,
      k,
      text_eq_iff w worker_id,
      text_eq_iff holder worker_id,
      text_eq_iff w holder,
    )
    after (buried t) k = ground (arith, k)

pub enqueue-is_held :
    (now : ℕ) (domains : List Text) (reason : Reason) (table : Table) (holder domain : Text)
    → is_held holder (enqueue now domains reason table).table domain ≡ is_held holder table domain
enqueue-is_held now domains reason table holder domain =
    ap (λ (entries : Entries). held_by holder (entries domain))
      (enqueued_entries now domains reason table)
    ∙ after (entries_of table domain)
  where
    after :
        (entry : Entry)
        → held_by holder (if any (text_eq domain) domains then revive now reason entry else entry)
          ≡ held_by holder entry
    after absent = ground arith
    after (waiting r n t) = ground arith
    after (taken w l r n t) = ground arith
    after (buried t) = ground arith

-- A row is held as before, or by the worker who claims it.
pub claim-is_held :
    (policy : QueuePolicy) (now : ℕ) (busy : Text → Bool) (worker_id : Text) (limit : ℕ)
    (table : Table) (holder domain : Text)
    → WellFormed table
    → is_held holder (claim policy now busy worker_id limit table).1 domain ≡ true
    → (is_held holder table domain ≡ true)
      ⊎ ((text_eq worker_id holder ≡ true)
          × (any (λ job. text_eq job.domain domain) (claim policy now busy worker_id limit table).0
              ≡ true))
claim-is_held policy now busy worker_id limit table holder domain h held =
    after _ (entries_of table domain)
      (rw (claimed_entries table h policy now busy worker_id limit domain).0 at held)
  where
    after :
        (named : Bool) (entry : Entry)
        → held_by holder (if named then take_by worker_id now entry else entry) ≡ true
        → (held_by holder entry ≡ true) ⊎ ((text_eq worker_id holder ≡ true) × (named ≡ true))
    after false entry k = inl k
    after true absent k = ground (arith, k)
    after true (waiting r n t) k = inr (k, refl)
    after true (taken w l r n t) k = inr (k, refl)
    after true (buried t) k = ground (arith, k)
