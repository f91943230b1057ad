-- ===== src/Monitor/Garbage.antt =====
-- services/src/cadns/monitor/tasks.py, garbage collection: `_delete_in_batches` and
-- `collect_garbage`. The rows that a batch takes, which SQL leaves open, are the first that match.
-- Days are 86400 seconds, and cutoffs are compared without subtraction.
pub mod Batches
pub mod Collected
pub mod Latest
use ca_dns.Prelude.{
  ℕ, zero, suc, ◌+◌, ◌-◌, ◌*◌, ◌/◌, ◌%◌, ◌^◌, ◌≤◌, ◌<◌, min, max, bit_and, bit_or, ◌≡◌, refl, sym,
  ap, ◌∙◌, ◌≢◌, ◌↔◌, ◌⊎◌, inl, inr, Bool, true, false, not, ◌&&◌, ◌||◌, Option, none, some, List,
  [], ◌∷◌, ◌++◌, map, append-nil, append_assoc, arith, ltb, leb, ◌==◌, if◌then◌else◌, ltb→lt,
  leb→le, ==_iff, Bool-cases, Option-cases, length, take, drop, any, all, filter, All,
  length-append, length-drop, length-take, All-append, take-length_append, drop-length_append,
  length-filter_le,
}
use ca_dns.Prelude.Text.{
  Text, codes, text_eq, text_eq_refl, text_eq_iff, text_leb, text_leb_total, join, split, Without,
  split-join, split_parts, join-split,
}
use ca_dns.Queue.{
  Reason, miss, expired, State, pending, dead, Job, QueuePolicy, retry_delay, Row, Table, is_none,
  is_dead, new_row, upsert, upsert_all, update_where, Enqueued, is_empty, enqueue, lock_free,
  is_ready, older, chosen, has_domain, lock_row, job_of, before, lock_rows, claim, is_owner, holds,
  complete, failed_row, fail, released_row, release,
}
use ca_dns.Worker.Store.{
  Endpoint, DomainRow, StoredRecord, Store, put_domain, after, is_failed, stored_record, is_located,
  put_endpoint, bare_endpoint, add_endpoint, put_located, add_unlocated, store_measurement,
}
use ca_dns.Monitor.Freshness.{
  FreshnessPolicy, DomainTimes, records_of, latest_expiry, first_expiry, served_until, is_active,
  passed, may_remeasure, sooner, expiring_rows, expiring_domains, scan_expiring,
}
use ca_dns.Monitor.Signals.{
  slot_start, SignalRow, active_names, active_addresses, lacks_point, CarbonRefresh, later,
  latest_point, save_signal, served_regions, regions_due, refresh_region, refresh_regions,
  refresh_carbon,
}

pub record RetentionPolicy : Type 0 where
  pub domain_days : ℕ
  pub endpoint_days : ℕ
  pub carbon_history_days : ℕ
  pub batch_size : ℕ

pub record GcResult : Type 0 where
  pub domains : ℕ
  pub endpoints : ℕ
  pub signals : ℕ
  pub dead_jobs : ℕ

module _ {A : Type 0} where
  -- DELETE of at most `limit` rows that match: how many, and the rows that stay.
  unfoldable pub delete_batch : (A → Bool) → ℕ → List A → ℕ × List A
  delete_batch old zero rows = (0, rows)
  delete_batch old (suc limit) [] = (0, [])
  delete_batch old (suc limit) (row ∷ rows) =
      let (gone, rest) = delete_batch old limit rows in
      let (gone', rest') = delete_batch old (suc limit) rows in
      elim (old row) [ true ↦ (suc gone, rest) | false ↦ (gone', row ∷ rest') ]

  -- The loop of `_delete_in_batches`, on fuel; the condition may look at the table. `none` is a loop
  -- that does not end.
  unfoldable pub batches_loop : (List A → A → Bool) → ℕ → ℕ → ℕ → List A → Option (ℕ × List A)
  unfolding delete_batch
  batches_loop old limit zero total rows = none
  batches_loop old limit (suc rounds) total rows =
      let (deleted, rows') = delete_batch (old rows) limit rows in
      elim (ltb deleted limit) [
        | true ↦ some (total + deleted, rows')
        | false ↦ batches_loop old limit rounds (total + deleted) rows'
      ]

  -- As many rounds as there are rows, and one more.
  unfoldable pub delete_in_batches : (List A → A → Bool) → ℕ → List A → Option (ℕ × List A)
  unfolding batches_loop
  delete_in_batches old limit rows = batches_loop old limit (suc (length rows)) 0 rows

-- Days before `now`: `t < now - days`.
abbrev pub before_days : ℕ → ℕ → ℕ → Bool
before_days now days t = ltb (t + days * 86400) now

abbrev pub coalesce : Option ℕ → ℕ → ℕ
coalesce none default = default
coalesce (some t) default = t

-- The four conditions.
abbrev pub is_inactive : ℕ → RetentionPolicy → DomainTimes → Bool
is_inactive now policy d =
    before_days now policy.domain_days (coalesce d.last_queried_at d.first_seen_at)

abbrev pub has_name : Text → List DomainTimes → Bool
has_name name domains = any (λ (d : DomainTimes). text_eq d.name name) domains

abbrev pub is_abandoned : ℕ → RetentionPolicy → List DomainTimes → Row → Bool
is_abandoned now policy domains q =
    is_dead q.state
    && before_days now policy.domain_days q.enqueued_at
    && not (has_name q.domain domains)

abbrev pub is_referred : Text → List StoredRecord → Bool
is_referred address records = any (λ (r : StoredRecord). text_eq r.address address) records

-- `coalesce(geo_updated_at, '-infinity') < cutoff`
abbrev pub is_stale : ℕ → RetentionPolicy → Option ℕ → Bool
is_stale now policy none = true
is_stale now policy (some updated) = before_days now policy.endpoint_days updated

module _ {Float : Type 0} where
  abbrev pub is_orphaned : ℕ → RetentionPolicy → List StoredRecord → Endpoint Float → Bool
  is_orphaned now policy records e =
      is_stale now policy e.geo_updated_at && not (is_referred e.address records)

  abbrev pub is_superseded : List (SignalRow Float) → SignalRow Float → Bool
  is_superseded signals s = elim (latest_point s.region_code signals) [
    | none ↦ false
    | some latest ↦ ltb s.point_time latest
  ]

  abbrev pub is_old_signal : ℕ → RetentionPolicy → List (SignalRow Float) → SignalRow Float → Bool
  is_old_signal now policy signals s =
      before_days now policy.carbon_history_days s.point_time && is_superseded signals s

-- ON DELETE CASCADE of the records' `domain_id`.
abbrev pub cascade : List DomainTimes → List StoredRecord → List StoredRecord
cascade domains records = filter (λ (r : StoredRecord). has_name r.domain domains) records

infixl 5 ◌>>=◌
abbrev pub ◌>>=◌ {ℓ κ} : {A : Type ℓ} {B : Type κ} → Option A → (A → Option B) → Option B
none >>= f = none
some a >>= f = f a

-- The tables that garbage collection touches.
pub record Tables (Float : Type 0) : Type 0 where
  pub domains : List DomainTimes
  pub records : List StoredRecord
  pub queue : Table
  pub endpoints : List (Endpoint Float)
  pub signals : List (SignalRow Float)

module _ {Float : Type 0} where
  -- The deletion of signals, which a history of 0 days turns off.
  unfoldable pub collect_signals :
      ℕ → RetentionPolicy → List (SignalRow Float) → Option (ℕ × List (SignalRow Float))
  collect_signals now policy signals =
      if policy.carbon_history_days == 0
      then some (0, signals)
      else delete_in_batches (is_old_signal now policy) policy.batch_size signals

  unfoldable pub collect_garbage :
      ℕ → RetentionPolicy → Tables Float → Option (GcResult × Tables Float)
  collect_garbage now policy db = do
    let limit = policy.batch_size
    (domains_gone, domains) ← delete_in_batches (λ rows. is_inactive now policy) limit db.domains
    (jobs_gone, queue) ← delete_in_batches (λ rows. is_abandoned now policy domains) limit db.queue
    let records = cascade domains db.records
    (endpoints_gone, endpoints) ←
        delete_in_batches (λ rows. is_orphaned now policy records) limit db.endpoints
    (signals_gone, signals) ← collect_signals now policy db.signals
    some (
      record {
        domains = domains_gone;
        endpoints = endpoints_gone;
        signals = signals_gone;
        dead_jobs = jobs_gone;
      },
      record {
        domains = domains;
        records = records;
        queue = queue;
        endpoints = endpoints;
        signals = signals;
      },
    )
