-- ===== src/Queue/Claim.antt =====
-- `claim`: ready rows only, the oldest first, as many as the limit allows, and no other row changed.
use mathlib.Core.Option
use ca_dns.Prelude.{
  ℕ, zero, suc, ◌+◌, ◌≤◌, ◌<◌, ◌≡◌, refl, sym, ap, ◌∙◌, inl, inr, Bool, true, false, some, List, [],
  ◌∷◌, map, arith, leb, Bool-cases, Option-cases, length, any, All,
}
use ca_dns.Prelude.Text.{Text, text_eq, text_eq_refl}
use ca_dns.Prelude.Sort.{sort_by, In}
use ca_dns.Prelude.Sorted.{
  In-filter, filter-In, All-In, In-map, map-In, In-sort_by, sort_by-In, length-sort_by,
}
use ca_dns.Queue.{
  pending, Job, QueuePolicy, Row, Table, update_where, is_ready, chosen, has_domain, lock_row,
  job_of, before, lock_rows, claim,
}
use ca_dns.Queue.Rows.{
  find, Distinct, KeepsDomain, on_row, Distinct-update_where, find-update_where, RowIsValid,
  WellFormed,
}
use ca_dns.Queue.Members.{In→has_domain, find→In, In→find, with_domains}
use ca_dns.Queue.Chosen.{
  candidate, chosen→candidate, has_domain→chosen, length-chosen-le, length-jobs, left_over,
  choice_full, none_chosen,
}

In-update_where :
    (test : Row → Bool) (change : Row → Row) (rows : Table) (row : Row)
    → In row (update_where test change rows)
    → (old : Row) × In old rows × (row ≡ on_row test change old)
unfolding update_where
In-update_where test change [] row h = absurd h
In-update_where test change (r ∷ rs) row (inl e) = (r, inl refl, e)
In-update_where test change (r ∷ rs) row (inr h) =
    let (old, there, e) = In-update_where test change rs row h in (old, inr there, e)

update_where-In :
    (test : Row → Bool) (change : Row → Row) (rows : Table) (old : Row)
    → In old rows
    → In (on_row test change old) (update_where test change rows)
unfolding update_where
update_where-In test change (r ∷ rs) old (inl e) = inl (ap (on_row test change) e)
update_where-In test change (r ∷ rs) old (inr h) = inr (update_where-In test change rs old h)
update_where-In test change [] old h = absurd h

length-filter_update :
    (ready : List Row) (test : Row → Bool) (change : Row → Row) (rows : Table)
    → KeepsDomain change
    → length (with_domains ready (update_where test change rows)) ≡ length (with_domains ready rows)
unfolding update_where
length-filter_update ready test change [] keeps = refl
length-filter_update ready test change (r ∷ rs) keeps =
    ground (arith, keeps r, length-filter_update ready test change rs keeps)

length-map : (rows : List Row) → length (map job_of rows) ≡ length rows
length-map [] = refl
length-map (r ∷ rs) = ap suc (length-map rs)

claim_none : (rows table : Table) → with_domains [] rows ≡ []
claim_none [] table = refl
claim_none (r ∷ rs) table = claim_none rs table

lock_none : (worker_id : Text) (now : ℕ) (table : Table) → lock_rows worker_id now [] table ≡ table
unfolding lock_rows update_where
lock_none worker_id now [] = refl
lock_none worker_id now (r ∷ rs) = ap (◌∷◌ r) (lock_none worker_id now rs)

length-zero : (rows : List Row) → length rows ≡ 0 → rows ≡ []
length-zero [] h = refl
length-zero (r ∷ rs) h = absurd (ground (arith, h))

any-In :
    (domain : Text) (jobs : List Job) (job : Job)
    → In job jobs
    → job.domain ≡ domain
    → any (λ j. text_eq j.domain domain) jobs ≡ true
any-In domain (j ∷ js) job (inl same) e = ground (arith, same, e, text_eq_refl domain)
any-In domain (j ∷ js) job (inr there) e = ground (arith, any-In domain js job there e)
any-In domain [] job h e = absurd h

locked-RowIsValid :
    (worker_id : Text) (now : ℕ) (row : Row)
    → row.state ≡ pending
    → RowIsValid (lock_row worker_id now row)
locked-RowIsValid worker_id now row e = record {
  lock_pair = refl;
  dead_unlocked = λ gone. ground (arith, e, gone);
}

-- A limit of 0 chooses no row, so the early return is what the rest would do.
claim_as :
    (policy : QueuePolicy) (now : ℕ) (busy : Text → Bool) (worker_id : Text) (limit : ℕ)
    (table : Table)
    → claim policy now busy worker_id limit table ≡ (
      sort_by before (
          map job_of (
            with_domains
              (chosen policy now busy limit table)
              (lock_rows worker_id now (chosen policy now busy limit table) table))),
      lock_rows worker_id now (chosen policy now busy limit table) table,
    )
unfolding claim chosen sort_by
claim_as policy now busy worker_id zero table =
    rw (lock_none worker_id now table, claim_none table table) refl
claim_as policy now busy worker_id (suc n) table =
    let positive : leb (suc n) 0 ≡ false = ground arith in rw positive refl

module _ (policy : QueuePolicy) (now : ℕ) (busy : Text → Bool) (worker_id : Text) (limit : ℕ)
    (table : Table) (distinct : Distinct table) where
  abbrev ready : List Row
  ready = chosen policy now busy limit table

  ready_pending : (row : Row) → In row ready → row.state ≡ pending
  unfolding is_ready
  ready_pending row h =
      let (_, fits) = chosen→candidate policy now busy limit table distinct row h in
      ground (arith, fits)

  -- The rows behind the jobs.
  job→row :
      (job : Job)
      → In job (claim policy now busy worker_id limit table).0
      → (row : Row) × In row table × In row ready × (job ≡ job_of (lock_row worker_id now row))
  unfolding lock_rows
  job→row job h =
      let listed =
        In-sort_by before _ job (rw (claim_as policy now busy worker_id limit table) at h) in
      let (new, there, e) = In-map job_of _ job listed in
      let (kept, has) = In-filter (λ row. has_domain row.domain ready) _ new there in
      let (old, was, e') =
        In-update_where (λ row. has_domain row.domain ready) (lock_row worker_id now) table new
          kept in
      let met : has_domain old.domain ready ≡ true = ground (arith, e', has) in
      (
        old,
        was,
        has_domain→chosen policy now busy limit table distinct old was met,
        rw (e, e', met) refl,
      )

  row→job :
      (row : Row)
      → In row table
      → has_domain row.domain ready ≡ true
      → In (job_of (lock_row worker_id now row)) (claim policy now busy worker_id limit table).0
  unfolding lock_rows
  row→job row there h =
      let kept : In (lock_row worker_id now row) (lock_rows worker_id now ready table) = rw h at (
        update_where-In (λ row. has_domain row.domain ready) (lock_row worker_id now) table row
          there) in
      rw (claim_as policy now busy worker_id limit table) (
        sort_by-In before _ _
          (map-In job_of _ _ (filter-In (λ row. has_domain row.domain ready) _ _ kept h)))

  unclaimed :
      (row : Row)
      → In row table
      → any (λ job. text_eq job.domain row.domain) (claim policy now busy worker_id limit table).0
        ≡ false
      → has_domain row.domain ready ≡ false
  unclaimed row there none_has = elim (Bool-cases (has_domain row.domain ready)) [
    | inl h ↦ absurd (ground (arith, none_has, any-In row.domain _ _ (row→job row there h) refl))
    | inr h ↦ h
  ]

  pub Distinct-claim : Distinct (claim policy now busy worker_id limit table).1
  unfolding lock_rows
  Distinct-claim = rw (claim_as policy now busy worker_id limit table) (
      Distinct-update_where (λ row. has_domain row.domain ready) (lock_row worker_id now)
        (λ row. refl) table distinct)

  -- Every job that `claim` returns stands for a ready row, one that no other transaction holds: the
  -- job has that row's domain and reason and counts one attempt more, and the table that `claim`
  -- leaves has the row locked by the worker at `now`, with that count.
  pub claim_sound :
      (job : Job)
      → In job (claim policy now busy worker_id limit table).0
      → (row : Row) × (find job.domain table ≡ some row)
        × (is_ready policy now row ≡ true)
        × (busy job.domain ≡ false)
        × (job ≡ record { domain = row.domain; reason = row.reason; attempts = row.attempts + 1 })
        × (find job.domain (claim policy now busy worker_id limit table).1
            ≡ some (lock_row worker_id now row))
  unfolding lock_rows
  claim_sound job h =
      let (row, there, picked, e) = job→row job h in
      let (_, fits) = chosen→candidate policy now busy limit table distinct row picked in
      let found : find job.domain table ≡ some row = rw e (In→find table row distinct there) in
      (
        row,
        found,
        ground (arith, fits),
        ground (arith, fits, e),
        e,
        rw
            (
              claim_as policy now busy worker_id limit table,
              find-update_where (λ row. has_domain row.domain ready) (lock_row worker_id now)
                  (λ row. refl) job.domain table,
              found,
              In→has_domain ready row picked,
            )
            refl,
      )

  -- The row of a domain that no job of `claim` has is as before, and a domain without a row gets
  -- none.
  pub claim_rest :
      (domain : Text)
      → any (λ job. text_eq job.domain domain) (claim policy now busy worker_id limit table).0
        ≡ false
      → find domain (claim policy now busy worker_id limit table).1 ≡ find domain table
  unfolding lock_rows
  claim_rest domain h =
      rw
        (
          claim_as policy now busy worker_id limit table,
          find-update_where (λ row. has_domain row.domain ready) (lock_row worker_id now)
              (λ row. refl) domain table,
        )
        (elim (Option-cases (find domain table)) [
          | inl absent ↦ rw absent refl
          | inr (row, found) ↦
              let (there, e) = find→In domain table row found in
              let left = unclaimed row there (rw e h) in rw (found, left) refl
        ])

  length-claim : length (claim policy now busy worker_id limit table).0 ≡ length ready
  unfolding lock_rows
  length-claim =
      let jobs : length (claim policy now busy worker_id limit table).0
          ≡ length (with_domains ready (lock_rows worker_id now ready table)) =
        rw (claim_as policy now busy worker_id limit table) (
          length-sort_by before
            (map job_of (with_domains ready (lock_rows worker_id now ready table)))
          ∙ length-map _) in
      let same =
        length-filter_update ready (λ row. has_domain row.domain ready) (lock_row worker_id now)
          table (λ row. refl) in
      jobs ∙ same ∙ length-jobs policy now busy limit table distinct

  -- `claim` returns at most `limit` jobs.
  pub few_claimed : length (claim policy now busy worker_id limit table).0 ≤ limit
  few_claimed = rw length-claim (length-chosen-le policy now busy limit table distinct)

  -- When `claim` returns no job, though the limit allows it, there is no ready row that no other
  -- transaction holds, and the table is as before.
  pub claim_nothing :
      length (claim policy now busy worker_id limit table).0 ≡ 0
      → 0 < limit
      → (any (candidate policy now busy limit table distinct) table ≡ false)
        × ((claim policy now busy worker_id limit table).1 ≡ table)
  claim_nothing empty positive =
      let none_ready : length ready ≡ 0 = sym length-claim ∙ empty in
      let no_row : ready ≡ [] = length-zero ready none_ready in
      (
        none_chosen policy now busy limit table distinct none_ready positive,
        rw (claim_as policy now busy worker_id limit table, no_row) (lock_none worker_id now table),
      )

  -- When a ready row that no other transaction holds has no job among those that `claim` returns,
  -- these are `limit` jobs, and each that stands for a row of the table stands for one enqueued no
  -- later than that one.
  pub claim_order :
      (other : Row)
      → In other table
      → is_ready policy now other ≡ true
      → busy other.domain ≡ false
      → any (λ job. text_eq job.domain other.domain) (claim policy now busy worker_id limit table).0
        ≡ false
      → (length (claim policy now busy worker_id limit table).0 ≡ limit)
        × ((job : Job) (row : Row)
            → In job (claim policy now busy worker_id limit table).0
            → find job.domain table ≡ some row
            → row.enqueued_at ≤ other.enqueued_at)
  claim_order other there fits free none_has =
      let left = unclaimed other there none_has in
      (
        length-claim
            ∙ choice_full policy now busy limit table distinct other there
                (ground (arith, fits, free)) left,
        λ job row h found.
            let (row', there', picked, e) = job→row job h in
            let same : row' ≡ row =
              Option.some-injective _ _
                (sym (In→find table row' distinct there') ∙ rw e at found) in
            (left_over policy now busy limit table distinct row other (rw same at picked) there
              (ground (arith, fits, free)) left).0,
      )

In-All : (rows : Table) → ((row : Row) → In row rows → RowIsValid row) → All RowIsValid rows
In-All [] h = tt
In-All (r ∷ rs) h = (h r (inl refl), In-All rs (λ row there. h row (inr there)))

module _ (policy : QueuePolicy) (now : ℕ) (busy : Text → Bool) (worker_id : Text) (limit : ℕ) where
  on_row-RowIsValid :
      (table : Table) (row : Row)
      → WellFormed table
      → In row table
      → RowIsValid (
          on_row
            (λ r. has_domain r.domain (chosen policy now busy limit table))
            (lock_row worker_id now)
            row)
  on_row-RowIsValid table row h there =
      elim (Bool-cases (has_domain row.domain (chosen policy now busy limit table))) [
        | inl has ↦
            let picked = has_domain→chosen policy now busy limit table h.distinct row there has in
            rw has (
              locked-RowIsValid worker_id now row
                (ready_pending policy now busy worker_id limit table h.distinct row picked))
        | inr has ↦ rw has (All-In RowIsValid table row h.valid there)
      ]

  pub claim-WellFormed :
      {table : Table}
      → WellFormed table
      → WellFormed (claim policy now busy worker_id limit table).1
  unfolding lock_rows
  claim-WellFormed {table} h =
      let test : Row → Bool = λ row. has_domain row.domain (chosen policy now busy limit table) in
      rw (claim_as policy now busy worker_id limit table) (record {
        distinct =
            Distinct-update_where test (lock_row worker_id now) (λ row. refl) table h.distinct;
        valid = In-All _ (λ row there.
            let (old, was, e) = In-update_where test (lock_row worker_id now) table row there in
            rw e (on_row-RowIsValid table old h was));
      })
