-- ===== src/Queue/Entries.antt =====
-- Each table of the queue as entries by domain, and what the statements make of them.
use mathlib.Core.Option
use mathlib.Core.Path.{fun_ext}
use ca_dns.Prelude.{
  ◌+◌, ℕ, ◌≡◌, refl, inl, inr, Bool, true, false, Option, none, some, List, length, arith,
  if◌then◌else◌, Bool-cases, Option-cases, any,
}
use ca_dns.Prelude.Text.{Text, text_eq, text_eq_iff}
use ca_dns.Prelude.Any.{any→In}
use ca_dns.Prelude.Sort.{In}
use ca_dns.Prelude.Sorted.{All-In}
use ca_dns.Queue.{
  Reason, pending, dead, Job, QueuePolicy, Row, Table, enqueue, lock_free, is_ready, lock_row,
  claim, holds, complete, failed_row,
}
use ca_dns.Queue.Rows.{find, on_row, RowIsValid, WellFormed, upserted}
use ca_dns.Queue.Members.{find→In}
use ca_dns.Queue.Enqueue.{enqueue_rows}
use ca_dns.Queue.Claim.{claim_sound, claim_rest, claim_order}
use ca_dns.Queue.Holder.{find-complete}
use ca_dns.Queue.Spec.{
  Entry, absent, waiting, taken, buried, revive, may_take, take_by, if_taken, conclude, give_up,
  Entries, change_at, named, is_free, Shows,
}

-- The entry of a row; the table's constraint sets `locked_by` and `locked_at` together.
abbrev pub pending_entry : Option Text → Option ℕ → Row → Entry
pending_entry (some worker_id) (some locked_at) row =
    taken worker_id locked_at row.reason row.attempts row.next_attempt_at
pending_entry none locked_at row = waiting row.reason row.attempts row.next_attempt_at
pending_entry (some worker_id) none row = waiting row.reason row.attempts row.next_attempt_at

abbrev pub entry_of : Option Row → Entry
entry_of none = absent
entry_of (some row) = elim row.state [
  | pending ↦ pending_entry row.locked_by row.locked_at row
  | dead ↦ buried row.next_attempt_at
]

abbrev pub entries_of : Table → Entries
entries_of table = λ domain. entry_of (find domain table)

upserted_entry :
    (now : ℕ) (reason : Reason) (domain : Text) (row : Option Row)
    → entry_of (some (upserted now reason domain row).1) ≡ revive now reason (entry_of row)
upserted_entry now reason domain none = refl
upserted_entry now reason domain (some row) = ground arith

locked_entry :
    (now : ℕ) (worker_id : Text) (row : Row)
    → row.state ≡ pending
    → entry_of (some (lock_row worker_id now row)) ≡ take_by worker_id now (entry_of (some row))
locked_entry now worker_id row e = ground (arith, e)

ready_entry :
    (policy : QueuePolicy) (now : ℕ) (row : Row)
    → RowIsValid row
    → is_ready policy now row ≡ true
    → (row.state ≡ pending) × (may_take policy now (entry_of (some row)) ≡ true)
unfolding is_ready lock_free
ready_entry policy now row valid ready =
    let pair = valid.lock_pair in (ground (arith, ready), ground (arith, ready, pair))

shown_entry :
    (job : Job) (row : Row)
    → row.state ≡ pending
    → job ≡ record { domain = row.domain; reason = row.reason; attempts = row.attempts + 1 }
    → Shows job (entry_of (some row))
shown_entry job row e same = rw (same, e) (on row.locked_by row.locked_at)
  where
    on :
        (by : Option Text) (at : Option ℕ)
        → Shows
            (record { domain = row.domain; reason = row.reason; attempts = row.attempts + 1 })
            (pending_entry by at row)
    on none at = (refl, refl)
    on (some w) none = (refl, refl)
    on (some w) (some l) = (refl, refl)

free_row :
    (policy : QueuePolicy) (now : ℕ) (row : Row)
    → RowIsValid row
    → may_take policy now (entry_of (some row)) ≡ true
    → is_ready policy now row ≡ true
unfolding is_ready lock_free
free_row policy now row valid may = let pair = valid.lock_pair in ground (arith, may, pair)

-- A change of the row of a job by the worker who holds it.
held_entry :
    (job : Job) (worker_id domain : Text) (change : Row → Row) (to : Reason → ℕ → ℕ → Entry)
    (row : Row)
    → RowIsValid row
    → row.domain ≡ domain
    → ((r : Row)
        → r.state ≡ pending
        → entry_of (some (change r)) ≡ to r.reason r.attempts r.next_attempt_at)
    → entry_of (some (on_row (holds job worker_id) change row)) ≡ (
        if text_eq domain job.domain
        then if_taken worker_id to (entry_of (some row))
        else entry_of (some row))
held_entry job worker_id domain change to row valid same e =
    let changed = e row in
    let pair = valid.lock_pair in ground (arith, changed, pair, valid.dead_unlocked, same)

pub failed_entry :
    (policy : QueuePolicy) (now : ℕ) (error : Text) (job : Job) (row : Row)
    → entry_of (some (failed_row policy now error job row))
      ≡ give_up policy now job row.reason row.attempts row.next_attempt_at
failed_entry policy now error job row = ground arith

pub find-RowIsValid :
    (table : Table) (domain : Text) (row : Row)
    → WellFormed table
    → find domain table ≡ some row
    → RowIsValid row × (row.domain ≡ domain)
find-RowIsValid table domain row h found =
    let (there, same) = find→In domain table row found in
    (All-In RowIsValid table row h.valid there, same)

module _ (table : Table) (h : WellFormed table) where
  -- An UPDATE of the rows that a worker holds for a job.
  pub updated_entries :
      (job : Job) (worker_id : Text) (change : Row → Row) (to : Reason → ℕ → ℕ → Entry)
      (after : Table)
      → ((domain : Text)
          → find domain after
            ≡ Option.map (on_row (holds job worker_id) change) (find domain table))
      → ((r : Row)
          → r.state ≡ pending
          → entry_of (some (change r)) ≡ to r.reason r.attempts r.next_attempt_at)
      → entries_of after
        ≡ change_at (λ domain. text_eq domain job.domain) (if_taken worker_id to) (entries_of table)
  updated_entries job worker_id change to after finds changed = fun_ext λ domain.
      elim (Option-cases (find domain table)) [
        | inl gone ↦ rw (finds domain, gone) (ground arith)
        | inr (row, found) ↦
            let (valid, same) = find-RowIsValid table domain row h found in
            rw (finds domain, found)
              (held_entry job worker_id domain change to row valid same changed)
      ]

  pub completed_entries :
      (job : Job) (worker_id : Text)
      → entries_of (complete job worker_id table)
        ≡ change_at
            (λ domain. text_eq domain job.domain)
            (if_taken worker_id conclude)
            (entries_of table)
  completed_entries job worker_id = fun_ext λ domain. elim (Option-cases (find domain table)) [
    | inl gone ↦ rw (find-complete job worker_id table domain h.distinct, gone) (ground arith)
    | inr (row, found) ↦
        let (valid, same) = find-RowIsValid table domain row h found in
        let pair = valid.lock_pair in
        rw (find-complete job worker_id table domain h.distinct, found)
          (ground (arith, pair, valid.dead_unlocked, same))
  ]

  pub claimed_entries :
      (policy : QueuePolicy) (now : ℕ) (busy : Text → Bool) (worker_id : Text) (limit : ℕ)
      (domain : Text)
      → let claimed = claim policy now busy worker_id limit table in
        (entries_of claimed.1 domain
          ≡ change_at (named claimed.0) (take_by worker_id now) (entries_of table) domain)
        × (named claimed.0 domain ≡ true → is_free policy now busy (entries_of table) domain ≡ true)
  claimed_entries policy now busy worker_id limit domain =
      let claimed = claim policy now busy worker_id limit table in
      elim (Bool-cases (named claimed.0 domain)) [
        | inl has ↦
            let (job, listed, at) =
              any→In (λ (job : Job). text_eq job.domain domain) claimed.0 has in
            let same : job.domain ≡ domain = (text_eq_iff job.domain domain).0 at in
            let (row, found, ready, free, e, locked) =
              claim_sound policy now busy worker_id limit table h.distinct job listed in
            let found' : find domain table ≡ some row = rw same at found in
            let locked' : find domain claimed.1 ≡ some (lock_row worker_id now row) =
              rw same at locked in
            let free' : busy domain ≡ false = rw same at free in
            let (valid, _) = find-RowIsValid table domain row h found' in
            let (pending_row, may) = ready_entry policy now row valid ready in
            (
              rw (locked', found', has) (locked_entry now worker_id row pending_row),
              λ has'. rw found' (ground (arith, may, free')),
            )
        | inr has_not ↦
            let same = claim_rest policy now busy worker_id limit table h.distinct domain has_not in
            (rw (same, has_not) refl, λ has. absurd (ground (arith, has, has_not)))
      ]

  pub claimed_shown :
      (policy : QueuePolicy) (now : ℕ) (busy : Text → Bool) (worker_id : Text) (limit : ℕ)
      (job : Job)
      → In job (claim policy now busy worker_id limit table).0
      → Shows job (entries_of table job.domain)
  claimed_shown policy now busy worker_id limit job listed =
      let (row, found, ready, free, e, locked) =
        claim_sound policy now busy worker_id limit table h.distinct job listed in
      let (valid, _) = find-RowIsValid table job.domain row h found in
      let (pending_row, may) = ready_entry policy now row valid ready in
      rw found (shown_entry job row pending_row e)

  -- A claim that leaves an entry it may take has as many jobs as it is allowed.
  pub claimed_full :
      (policy : QueuePolicy) (now : ℕ) (busy : Text → Bool) (worker_id : Text) (limit : ℕ)
      (domain : Text)
      → let jobs = (claim policy now busy worker_id limit table).0 in
        named jobs domain ≡ false
        → is_free policy now busy (entries_of table) domain ≡ true
        → length jobs ≡ limit
  claimed_full policy now busy worker_id limit domain has_not free =
      elim (Option-cases (find domain table)) [
        | inl gone ↦ absurd (ground (arith, (rw gone at free)))
        | inr (row, found) ↦
            let (there, same) = find→In domain table row found in
            let (valid, _) = find-RowIsValid table domain row h found in
            let free' = rw found at free in
            (claim_order policy now busy worker_id limit table h.distinct row there
              (free_row policy now row valid (ground (arith, free')))
              (rw same (ground (arith, free'))) (rw same has_not)).0
      ]

pub enqueued_entries :
    (now : ℕ) (domains : List Text) (reason : Reason) (table : Table)
    → entries_of (enqueue now domains reason table).table
      ≡ change_at (λ domain. any (text_eq domain) domains) (revive now reason) (entries_of table)
enqueued_entries now domains reason table = fun_ext λ domain.
    let (row, _, _) = enqueue_rows now domains reason table domain in
    elim (Bool-cases (any (text_eq domain) domains)) [
      | inl listed ↦ rw (row, listed) (upserted_entry now reason domain (find domain table))
      | inr unlisted ↦ rw (row, unlisted) refl
    ]
