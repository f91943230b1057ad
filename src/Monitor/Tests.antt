-- ===== src/Monitor/Tests.antt =====
-- A few rows of every table, and the theorems at them.
use ca_dns.Prelude.{
  ℕ, suc, ◌≡◌, refl, ◌↔◌, inl, inr, true, false, Option, none, some, [], ◌∷◌, ◌/◌, arith, any,
}
use ca_dns.Prelude.Text.{Text, codes, text_eq, text_leb}
use ca_dns.Prelude.Sort.{insert_by, sort_by, insert_text, sorted_set, In}
use ca_dns.Worker.Store.{Endpoint, StoredRecord}
use ca_dns.Carbon.{
  Response, Server, Client, answered, wait, login, settle, request, round, get_loop, get,
}
use ca_dns.Collector.Dnstap.{lower}
use ca_dns.Carbon.Calls.{Got, empty, Signal, Point, to_g_per_kwh, current_moer}
use ca_dns.Monitor.Freshness.{
  FreshnessPolicy, DomainTimes, latest_expiry, first_expiry, served_until, may_remeasure,
  expiring_rows, expiring_domains,
}
use ca_dns.Monitor.Freshness.Listed.{Expiring, expiring_domains_iff}
use ca_dns.Monitor.Signals.{
  slot_start, SignalRow, latest_point, regions_due, CarbonRefresh, refresh_carbon, refresh_regions,
  refresh_region, served_regions,
}
use ca_dns.Monitor.Signals.Due.{refresh_carbon_settles}
use ca_dns.Monitor.Jobs.{MonitorSettings, Unavailable, skipped, carbon_job}
use ca_dns.Monitor.Jobs.Backoff.{is_skipped, mentions, carbon_job-mentions}
use ca_dns.Monitor.Garbage.{RetentionPolicy, Tables, collect_garbage}
use ca_dns.Monitor.Garbage.Collected.{
  kept_tables, gone, IsLinked, collect_garbage-all, collect_garbage-IsLinked,
  collect_garbage-latest,
}

abbrev dom_a : Text
dom_a = 1 ∷ []

abbrev dom_b : Text
dom_b = 2 ∷ []

abbrev type_a : Text
type_a = 7 ∷ []

abbrev address_a : Text
address_a = 11 ∷ []

abbrev region_a : Text
region_a = 21 ∷ []

abbrev fresh : FreshnessPolicy
fresh = record { activity_window_seconds = 3600; lead_seconds = 15; min_remeasure_seconds = 10 }

-- Asked for at 90, measured at 40.
abbrev domain_a : DomainTimes
domain_a = record {
  name = dom_a;
  first_seen_at = 0;
  last_queried_at = some 90;
  retry_after = none;
  measured_at = some 40;
}

-- Never asked for.
abbrev domain_b : DomainTimes
domain_b = record {
  name = dom_b;
  first_seen_at = 0;
  last_queried_at = none;
  retry_after = none;
  measured_at = none;
}

abbrev record_a : StoredRecord
record_a = record {
  domain = dom_a;
  rtype = type_a;
  address = address_a;
  resolver = 31 ∷ [];
  ttl = 60;
  resolved_at = 40;
  expires_at = 100;
}

abbrev endpoint_a : Endpoint ℕ
endpoint_a = record {
  address = address_a;
  lat = some 1;
  lon = some 2;
  city = none;
  country = none;
  asn = none;
  is_anycast = false;
  region_code = some region_a;
  geo_source = none;
  geo_updated_at = some 40;
}

abbrev old_signal : SignalRow ℕ
old_signal = record { region_code = region_a; point_time = 10; moer_g_per_kwh = 5; fetched_at = 11 }

abbrev new_signal : SignalRow ℕ
new_signal = record { region_code = region_a; point_time = 40; moer_g_per_kwh = 6; fetched_at = 41 }

lists_a : expiring_domains 95 fresh (record_a ∷ []) (domain_b ∷ domain_a ∷ []) ≡ (dom_a ∷ [])
unfolding expiring_domains expiring_rows served_until first_expiry latest_expiry may_remeasure
    sort_by insert_by sorted_set insert_text text_eq text_leb
lists_a = refl

expiring_domains_iff_example :
    (any (text_eq dom_a) (expiring_domains 95 fresh (record_a ∷ []) (domain_b ∷ domain_a ∷ []))
      ≡ true)
    ↔ Expiring 95 fresh (record_a ∷ []) (domain_b ∷ domain_a ∷ []) dom_a
expiring_domains_iff_example =
    expiring_domains_iff 95 fresh (record_a ∷ []) (domain_b ∷ domain_a ∷ []) dom_a

-- A server whose every forecast has the point of 900.
abbrev ok_response : Response
ok_response = record { status_code = 200; retry_after = none; token = 7 ∷ [] }

abbrev forecasts : Text → Server
forecasts code = record {
  login_reply = λ n. answered ok_response;
  reply = λ n token. answered ok_response;
  takes = λ n. 1;
  late = λ n. 0;
}

abbrev read_point : Response → Option (Point ℕ)
read_point response = some (record { point_time = 900; value = 3; units = codes "lbs_co2_per_mwh" })

abbrev halved : ℕ → ℕ
halved x = x / 2

abbrev client : Client
client = record { token = none; token_expires = 0; next = 0; now = 0; sent = [] }

abbrev moer_900 : Text → Client → Got (Signal ℕ) × Client
moer_900 code c = current_moer halved read_point (forecasts code) code 100 c

abbrev refreshed : CarbonRefresh ℕ Client
refreshed =
    refresh_carbon moer_900 1000 [] 3600 300 (domain_a ∷ []) (record_a ∷ []) (endpoint_a ∷ [])
      (old_signal ∷ []) client

stores_a : In (region_a, 900) refreshed.stored
unfolding refresh_carbon refresh_regions refresh_region regions_due slot_start latest_point
    served_regions sorted_set insert_text text_eq text_leb current_moer get get_loop round request
    settle login wait to_g_per_kwh lower
stores_a = inl refl

refresh_carbon_settles_example :
    any (text_eq region_a) (
      regions_due 1100 3600 300 (domain_a ∷ []) (record_a ∷ []) (endpoint_a ∷ []) refreshed.signals)
    ≡ false
unfolding slot_start
refresh_carbon_settles_example =
    refresh_carbon_settles halved read_point forecasts 100 1000 [] 3600 300 (domain_a ∷ [])
      (record_a ∷ []) (endpoint_a ∷ []) (old_signal ∷ []) client region_a 900 1100 3600
      (domain_a ∷ []) (record_a ∷ []) (endpoint_a ∷ []) stores_a (omega arith)

abbrev retention : RetentionPolicy
retention = record { domain_days = 7; endpoint_days = 30; carbon_history_days = 30; batch_size = 1 }

abbrev tables : Tables ℕ
tables = record {
  domains = domain_a ∷ domain_b ∷ [];
  records = record_a ∷ [];
  queue = [];
  endpoints = endpoint_a ∷ [];
  signals = old_signal ∷ new_signal ∷ [];
}

tables-IsLinked : IsLinked tables
unfolding text_eq
tables-IsLinked = record {
  domain_known = λ r there. elim there [ inl e ↦ rw e refl | inr none_left ↦ absurd none_left ];
  address_known = λ r there. elim there [ inl e ↦ rw e refl | inr none_left ↦ absurd none_left ];
}

-- After 8 days the domain that nobody asks for is gone.
eight_days :
    kept_tables 691200 retention tables
    ≡ record tables { domains = []; records = []; endpoints = endpoint_a ∷ [] }
unfolding kept_tables
eight_days = refl

collect_garbage-all_example :
    collect_garbage 691200 retention tables
    ≡ some (gone 691200 retention tables, kept_tables 691200 retention tables)
collect_garbage-all_example = collect_garbage-all 691200 retention tables (omega arith)

collect_garbage-IsLinked_example : IsLinked (kept_tables 604860 retention tables)
collect_garbage-IsLinked_example =
    collect_garbage-IsLinked 604860 retention tables (kept_tables 604860 retention tables)
      (gone 604860 retention tables) (collect_garbage-all 604860 retention tables (omega arith))
      (omega arith) tables-IsLinked

collect_garbage-latest_example :
    latest_point region_a (kept_tables 3000000 retention tables).signals
    ≡ latest_point region_a tables.signals
collect_garbage-latest_example =
    collect_garbage-latest 3000000 retention tables (kept_tables 3000000 retention tables)
      (gone 3000000 retention tables) region_a
      (collect_garbage-all 3000000 retention tables (omega arith)) (omega arith)

abbrev settings : MonitorSettings
settings = record {
  monitor_scan_seconds = 5;
  monitor_lead_seconds = 15;
  monitor_activity_window_seconds = 3600;
  monitor_min_remeasure_seconds = 10;
  monitor_carbon_check_seconds = 60;
  carbon_period_seconds = 300;
  carbon_unavailable_backoff_seconds = 3600;
  monitor_gc_seconds = 3600;
  gc_domain_retention_days = 7;
  gc_endpoint_retention_days = 30;
  gc_carbon_history_days = 30;
  metrics_refresh_seconds = 15;
}

-- A client without data for any region.
abbrev no_data : Text → ℕ → Got (Signal ℕ) × ℕ
no_data code calls = (empty, suc calls)

abbrev first_job : CarbonRefresh ℕ ℕ × Unavailable
first_job =
    carbon_job no_data settings 50 1000 [] (domain_a ∷ []) (record_a ∷ []) (endpoint_a ∷ []) [] 0

unavailable_a : any (text_eq region_a) first_job.0.unavailable ≡ true
unfolding carbon_job refresh_carbon refresh_regions refresh_region regions_due slot_start
    latest_point served_regions sorted_set insert_text text_eq text_leb skipped
unavailable_a = refl

abbrev second_job : CarbonRefresh ℕ ℕ × Unavailable
second_job =
    carbon_job no_data settings 110 1060 first_job.1 (domain_a ∷ []) (record_a ∷ [])
      (endpoint_a ∷ []) [] 1

carbon_job-mentions_example :
    (mentions no_data region_a second_job.0 ≡ false) × (is_skipped region_a 110 second_job.1 ≡ true)
carbon_job-mentions_example =
    carbon_job-mentions no_data settings 50 1000 [] (domain_a ∷ []) (record_a ∷ [])
      (endpoint_a ∷ []) [] 0 region_a 110 1060 (domain_a ∷ []) (record_a ∷ []) (endpoint_a ∷ []) []
      1 unavailable_a (omega arith) (omega arith)
