-- ===== src/Monitor/Jobs.antt =====
-- services/src/cadns/cli.py, `run_monitor`: the policies from the settings, the carbon job with its
-- back-off for regions without data, and which jobs are scheduled how often.
pub mod Backoff
use ca_dns.Prelude.{
  ℕ, zero, suc, ◌+◌, ◌-◌, ◌*◌, ◌/◌, ◌%◌, ◌^◌, ◌≤◌, ◌<◌, min, max, bit_and, bit_or, ◌≡◌, refl, sym,
  ap, ◌∙◌, ◌≢◌, ◌↔◌, ◌⊎◌, inl, inr, Bool, true, false, not, ◌&&◌, ◌||◌, Option, none, some, List,
  [], ◌∷◌, ◌++◌, map, append-nil, append_assoc, arith, ltb, leb, ◌==◌, if◌then◌else◌, ltb→lt,
  leb→le, ==_iff, Bool-cases, Option-cases, length, take, drop, any, all, filter, All,
  length-append, length-drop, length-take, All-append, take-length_append, drop-length_append,
  length-filter_le,
}
use ca_dns.Prelude.Text.{Text, text_eq, codes}
use ca_dns.Carbon.Calls.{Got, Signal}
use ca_dns.Worker.Store.{Endpoint, StoredRecord}
use ca_dns.Monitor.Freshness.{FreshnessPolicy, DomainTimes}
use ca_dns.Monitor.Signals.{SignalRow, CarbonRefresh, refresh_carbon}
use ca_dns.Monitor.Garbage.{RetentionPolicy}

-- The settings of the monitor (config.py).
pub record MonitorSettings : Type 0 where
  pub monitor_scan_seconds : ℕ
  pub monitor_lead_seconds : ℕ
  pub monitor_activity_window_seconds : ℕ
  pub monitor_min_remeasure_seconds : ℕ
  pub monitor_carbon_check_seconds : ℕ
  pub carbon_period_seconds : ℕ
  pub carbon_unavailable_backoff_seconds : ℕ
  pub monitor_gc_seconds : ℕ
  pub gc_domain_retention_days : ℕ
  pub gc_endpoint_retention_days : ℕ
  pub gc_carbon_history_days : ℕ
  pub metrics_refresh_seconds : ℕ

abbrev pub freshness : MonitorSettings → FreshnessPolicy
freshness settings = record {
  activity_window_seconds = settings.monitor_activity_window_seconds;
  lead_seconds = settings.monitor_lead_seconds;
  min_remeasure_seconds = settings.monitor_min_remeasure_seconds;
}

-- `batch_size` keeps its default.
abbrev pub retention : MonitorSettings → RetentionPolicy
retention settings = record {
  domain_days = settings.gc_domain_retention_days;
  endpoint_days = settings.gc_endpoint_retention_days;
  carbon_history_days = settings.gc_carbon_history_days;
  batch_size = 1000;
}

-- Names and intervals of the schedules; the carbon job needs a client.
abbrev pub intervals : MonitorSettings → Bool → List (Text × ℕ)
intervals settings has_client =
    (codes "expiry-scan", settings.monitor_scan_seconds)
      ∷ (codes "metrics", settings.metrics_refresh_seconds)
      ∷ (if has_client
          then (codes "carbon-refresh", settings.monitor_carbon_check_seconds) ∷ []
          else [])
    ++ ((codes "gc", settings.monitor_gc_seconds) ∷ [])

-- `unavailable_until`, by region.
abbrev pub Unavailable : Type 0
Unavailable = List (Text × ℕ)

unfoldable pub set_until : Text → ℕ → Unavailable → Unavailable
set_until region until [] = (region, until) ∷ []
set_until region until ((r, t) ∷ rest) =
    let rest' = set_until region until rest in
    if text_eq r region then (r, until) ∷ rest else (r, t) ∷ rest'

unfoldable pub set_all : List Text → ℕ → Unavailable → Unavailable
unfolding set_until
set_all [] until unavailable_until = unavailable_until
set_all (region ∷ regions) until unavailable_until =
    set_all regions until (set_until region until unavailable_until)

-- The regions to skip.
unfoldable pub skipped : ℕ → Unavailable → List Text
skipped loop_time unavailable_until =
    map (λ (entry : Text × ℕ). entry.0)
      (filter (λ (entry : Text × ℕ). ltb loop_time entry.1) unavailable_until)

module _ {Float State : Type 0} (current_moer : Text → State → Got (Signal Float) × State)
    (settings : MonitorSettings) where
  -- The job, at a time of the event loop and one of the wall clock: the refresh and the dictionary.
  unfoldable pub carbon_job :
      ℕ
      → ℕ
      → Unavailable
      → List DomainTimes
      → List StoredRecord
      → List (Endpoint Float)
      → List (SignalRow Float)
      → State
      → CarbonRefresh Float State × Unavailable
  unfolding refresh_carbon skipped set_all
  carbon_job loop_time now unavailable_until domains records endpoints signals client =
      let result =
        refresh_carbon current_moer now (skipped loop_time unavailable_until)
          settings.monitor_activity_window_seconds settings.carbon_period_seconds domains records
          endpoints signals client in
      (
        result,
        set_all result.unavailable (loop_time + settings.carbon_unavailable_backoff_seconds)
            unavailable_until,
      )
