-- ===== src/Queue/Holder.antt =====
-- `complete`, `fail` and `release`: they touch the row of their job, and only its owner does.
use mathlib.Core.Option
use ca_dns.Prelude.{
  ℕ, ◌≡◌, refl, sym, ◌∙◌, ◌≢◌, inl, inr, true, false, not, none, some, arith, Bool-cases,
  Option-cases,
}
use ca_dns.Prelude.Text.{Text, text_eq, text_eq_refl, text_eq_iff}
use ca_dns.Queue.{
  Job, QueuePolicy, Row, Table, is_owner, holds, complete, failed_row, fail, released_row, release,
}
use ca_dns.Queue.Rows.{find, Distinct, on_row, find-update_where, keep_if, find-filter}
use ca_dns.Queue.Members.{find→In}

module _ (job : Job) (worker_id : Text) (table : Table) where
  pub find-complete :
      (e : Text)
      → Distinct table
      → find e (complete job worker_id table)
        ≡ keep_if (λ row. not (holds job worker_id row)) (find e table)
  unfolding complete
  find-complete e d = find-filter (λ row. not (holds job worker_id row)) e table d

  pub find-release :
      (e : Text)
      → find e (release job worker_id table)
        ≡ Option.map (on_row (holds job worker_id) released_row) (find e table)
  unfolding release
  find-release e = find-update_where (holds job worker_id) released_row (λ row. refl) e table

module _ (policy : QueuePolicy) (now : ℕ) (job : Job) (worker_id : Text) (error : Text)
    (table : Table) where
  pub find-fail :
      (e : Text)
      → find e (fail policy now job worker_id error table).1
        ≡ Option.map (on_row (holds job worker_id) (failed_row policy now error job)) (find e table)
  unfolding fail
  find-fail e =
      find-update_where (holds job worker_id) (failed_row policy now error job) (λ row. refl) e
        table

  pub not_held :
      (e : Text) (row : Row)
      → Distinct table
      → find e table ≡ some row
      → holds job worker_id row ≡ false
      → (find e (complete job worker_id table) ≡ some row)
        × (find e (fail policy now job worker_id error table).1 ≡ some row)
        × (find e (release job worker_id table) ≡ some row)
  not_held e row d found h = (
    rw (find-complete job worker_id table e d, found, h) refl,
    rw (find-fail e, found, h) refl,
    rw (find-release job worker_id table e, found, h) refl,
  )

  not_there :
      (e : Text)
      → Distinct table
      → find e table ≡ none
      → (find e (complete job worker_id table) ≡ none)
        × (find e (fail policy now job worker_id error table).1 ≡ none)
        × (find e (release job worker_id table) ≡ none)
  not_there e d absent = (
    rw (find-complete job worker_id table e d, absent) refl,
    rw (find-fail e, absent) refl,
    rw (find-release job worker_id table e, absent) refl,
  )

  -- When a worker holds the lock on its job's row, `complete` removes the row, `fail` writes the
  -- failure to it and returns its new state, and `release` unlocks it and takes back one attempt.
  pub holder_row :
      (row : Row)
      → Distinct table
      → find job.domain table ≡ some row
      → row.locked_by ≡ some worker_id
      → (find job.domain (complete job worker_id table) ≡ none)
        × (find job.domain (fail policy now job worker_id error table).1
            ≡ some (failed_row policy now error job row))
        × ((fail policy now job worker_id error table).0
            ≡ (failed_row policy now error job row).state)
        × (find job.domain (release job worker_id table) ≡ some (released_row row))
  unfolding fail
  holder_row row d found owner =
      let (there, e) = find→In job.domain table row found in
      let held : holds job worker_id row ≡ true =
        ground (arith, e, owner, text_eq_refl job.domain, text_eq_refl worker_id) in
      (
        rw (find-complete job worker_id table job.domain d, found, held) refl,
        rw (find-fail job.domain, found, held) refl,
        refl,
        rw (find-release job worker_id table job.domain, found, held) refl,
      )

  -- A worker whose job's row is gone, or is locked by nobody or by someone else, changes the row of
  -- no domain by `complete`, `fail` or `release`.
  pub lost_lock :
      (e : Text)
      → Distinct table
      → ((row : Row) → find job.domain table ≡ some row → is_owner worker_id row.locked_by ≡ false)
      → (find e (complete job worker_id table) ≡ find e table)
        × (find e (fail policy now job worker_id error table).1 ≡ find e table)
        × (find e (release job worker_id table) ≡ find e table)
  lost_lock e d lost = elim (Option-cases (find e table)) [
    | inl absent ↦ rw absent (not_there e d absent)
    | inr (row, found) ↦
        let (there, same) = find→In e table row found in
        rw found (
          not_held e row d found (elim (Bool-cases (text_eq row.domain job.domain)) [
            | inl at_job ↦
                let at : e ≡ job.domain = sym same ∙ (text_eq_iff row.domain job.domain).0 at_job in
                ground (arith, lost row (rw (sym at) found))
            | inr elsewhere ↦ ground (arith, elsewhere)
          ]))
  ]

  -- No other domain's row changes, whoever holds the lock.
  pub other_rows :
      (e : Text)
      → Distinct table
      → e ≢ job.domain
      → (find e (complete job worker_id table) ≡ find e table)
        × (find e (fail policy now job worker_id error table).1 ≡ find e table)
        × (find e (release job worker_id table) ≡ find e table)
  other_rows e d other = elim (Option-cases (find e table)) [
    | inl absent ↦ rw absent (not_there e d absent)
    | inr (row, found) ↦
        let (there, same) = find→In e table row found in
        rw found (
          not_held e row d found (elim (Bool-cases (text_eq row.domain job.domain)) [
            | inl at_job ↦ absurd (other (sym same ∙ (text_eq_iff row.domain job.domain).0 at_job))
            | inr elsewhere ↦ ground (arith, elsewhere)
          ]))
  ]
