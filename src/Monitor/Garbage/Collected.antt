-- ===== src/Monitor/Garbage/Collected.antt =====
-- What garbage collection deletes and keeps.
use mathlib.Core.Option.{some-injective}
use ca_dns.Prelude.{
  ℕ, ◌<◌, ◌≡◌, refl, sym, ap, ◌∙◌, inl, inr, true, not, some, arith, ◌==◌, if◌then◌else◌,
  Bool-cases, any,
}
use ca_dns.Prelude.Text.{Text, text_eq, text_eq_iff}
use ca_dns.Prelude.Sort.{In}
use ca_dns.Prelude.Any.{any→In, In→any}
use ca_dns.Prelude.Sorted.{In-filter, filter-In}
use ca_dns.Worker.Store.{Endpoint, StoredRecord}
use ca_dns.Monitor.Signals.{latest_point}
use ca_dns.Monitor.Garbage.{
  RetentionPolicy, GcResult, is_inactive, has_name, is_abandoned, is_referred, is_orphaned,
  is_old_signal, cascade, Tables, collect_signals, collect_garbage,
}
use ca_dns.Monitor.Garbage.Batches.{kept, matching, delete_in_batches-all}
use ca_dns.Monitor.Garbage.Latest.{is_old_signal-stable, latest-kept}

module _ {Float : Type 0} where
  -- The rows that garbage collection keeps.
  unfoldable pub kept_tables : ℕ → RetentionPolicy → Tables Float → Tables Float
  kept_tables now policy db =
      let domains = kept (is_inactive now policy) db.domains in
      let records = cascade domains db.records in
      record {
        domains = domains;
        records = records;
        queue = kept (is_abandoned now policy domains) db.queue;
        endpoints = kept (is_orphaned now policy records) db.endpoints;
        signals =
            if policy.carbon_history_days == 0
            then db.signals
            else kept (is_old_signal now policy db.signals) db.signals;
      }

  unfoldable pub gone : ℕ → RetentionPolicy → Tables Float → GcResult
  gone now policy db =
      let domains = kept (is_inactive now policy) db.domains in
      let records = cascade domains db.records in
      record {
        domains = matching (is_inactive now policy) db.domains;
        endpoints = matching (is_orphaned now policy records) db.endpoints;
        signals =
            if policy.carbon_history_days == 0
            then 0
            else matching (is_old_signal now policy db.signals) db.signals;
        dead_jobs = matching (is_abandoned now policy domains) db.queue;
      }

  -- With a positive batch size `collect_garbage` ends, leaves exactly the rows that the four
  -- conditions spare, each read once at the start or after the deletions before it, and returns how
  -- many rows of each table went.
  pub collect_garbage-all :
      (now : ℕ) (policy : RetentionPolicy) (db : Tables Float)
      → 0 < policy.batch_size
      → collect_garbage now policy db ≡ some (gone now policy db, kept_tables now policy db)
  unfolding collect_garbage collect_signals kept_tables gone
  collect_garbage-all now policy db positive =
      let domains = kept (is_inactive now policy) db.domains in
      let records = cascade domains db.records in
      rw
        (
          delete_in_batches-all (λ rows. is_inactive now policy) policy.batch_size positive
              (λ rows. refl) db.domains,
          delete_in_batches-all (λ rows. is_abandoned now policy domains) policy.batch_size positive
              (λ rows. refl) db.queue,
          delete_in_batches-all (λ rows. is_orphaned {Float = Float} now policy records)
              policy.batch_size positive (λ rows. refl) db.endpoints,
        )
        (elim (Bool-cases (policy.carbon_history_days == 0)) [
          | inl off ↦ rw off refl
          | inr on ↦
              rw
                (
                  on,
                  delete_in_batches-all (is_old_signal {Float = Float} now policy) policy.batch_size
                      positive (is_old_signal-stable now policy policy.batch_size) db.signals,
                )
                refl
        ])

  -- Every record stands for a domain that has a row, and for an address that has one.
  pub record IsLinked (db : Tables Float) : Type 0 where
    pub domain_known : (r : StoredRecord) → In r db.records → has_name r.domain db.domains ≡ true
    pub address_known :
        (r : StoredRecord)
        → In r db.records
        → any (λ (e : Endpoint Float). text_eq e.address r.address) db.endpoints ≡ true

  kept_tables-IsLinked :
      (now : ℕ) (policy : RetentionPolicy) (db : Tables Float)
      → IsLinked db
      → IsLinked (kept_tables now policy db)
  unfolding kept_tables
  kept_tables-IsLinked now policy db h =
      let domains = kept (is_inactive now policy) db.domains in
      let records = cascade domains db.records in
      record {
        domain_known = λ r there.
            (In-filter (λ (r : StoredRecord). has_name r.domain domains) db.records r there).1;
        address_known = λ r there.
            let (was, _) =
              In-filter (λ (r : StoredRecord). has_name r.domain domains) db.records r there in
            let (e, found, same) =
              any→In (λ (e : Endpoint Float). text_eq e.address r.address) db.endpoints
                (h.address_known r was) in
            let referred : is_referred e.address records ≡ true =
              In→any (λ (x : StoredRecord). text_eq x.address e.address) records r there
                ((text_eq_iff r.address e.address).1
                  (sym ((text_eq_iff e.address r.address).0 same))) in
            In→any (λ (e : Endpoint Float). text_eq e.address r.address) _ e
              (filter-In (λ e. not (is_orphaned now policy records e)) db.endpoints e found
                (ground (arith, referred)))
              same;
      }

  -- `collect_garbage` keeps the tables linked: when every record's domain and address have rows
  -- before, the records that are left have theirs after it.
  pub collect_garbage-IsLinked :
      (now : ℕ) (policy : RetentionPolicy) (db db' : Tables Float) (result : GcResult)
      → collect_garbage now policy db ≡ some (result, db')
      → 0 < policy.batch_size
      → IsLinked db
      → IsLinked db'
  collect_garbage-IsLinked now policy db db' result e positive h =
      let same : kept_tables now policy db ≡ db' =
        ap (λ (p : GcResult × Tables Float). p.1)
          (some-injective _ _ (sym (collect_garbage-all now policy db positive) ∙ e)) in
      rw same at (kept_tables-IsLinked now policy db h)

  -- `collect_garbage` keeps every region's latest point, however old it is.
  pub collect_garbage-latest :
      (now : ℕ) (policy : RetentionPolicy) (db db' : Tables Float) (result : GcResult) (code : Text)
      → collect_garbage now policy db ≡ some (result, db')
      → 0 < policy.batch_size
      → latest_point code db'.signals ≡ latest_point code db.signals
  unfolding kept_tables
  collect_garbage-latest now policy db db' result code e positive =
      let same : kept_tables now policy db ≡ db' =
        ap (λ (p : GcResult × Tables Float). p.1)
          (some-injective _ _ (sym (collect_garbage-all now policy db positive) ∙ e)) in
      rw (← same) (elim (Bool-cases (policy.carbon_history_days == 0)) [
        | inl off ↦ rw off refl
        | inr on ↦ rw on (latest-kept now policy db.signals code)
      ])
