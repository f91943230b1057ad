-- ===== src/Worker/Measure/Tests.antt =====
-- A domain with one address, measured into empty tables.
use mathlib.Core.Option.{some-injective}
use ca_dns.Prelude.{ℕ, ◌+◌, ◌≡◌, refl, true, false, Option, none, some, List, [], ◌∷◌, length}
use ca_dns.Prelude.Text.{Text, text_eq, text_leb}
use ca_dns.Prelude.Sort.{sorted_set, insert_text}
use ca_dns.Collector.Dnstap.{lower}
use ca_dns.Prelude.Int.{ℤ, pos}
use ca_dns.Carbon.Calls.{got}
use ca_dns.Geo.{Location}
use ca_dns.Resolvers.{Answer, noerror}
use ca_dns.Worker.Pipeline.{classify, records_of, all_addresses}
use ca_dns.Worker.Store.{
  store_measurement, write_measurement, has_repeats, put_domain, put_located, put_endpoint,
  add_unlocated, add_endpoint,
}
use ca_dns.Worker.Endpoints.{located_endpoints, fresh_endpoints, locate_endpoint}
use ca_dns.Monitor.Signals.{save_signal}
use ca_dns.Worker.Assign.{
  assign_regions, lookup_regions, ask_regions, save_regions, region_codes, fetch_signals,
  save_signals, refresh_signals,
}
use ca_dns.Worker.Regions.{
  save_region, put_region, put_location, cached_regions, key_set, insert_key, wanted_keys,
  regions_needing_signal, region_at,
}
use ca_dns.Worker.Measure.{
  normalize_domain, MeasureSettings, WattTime, Database, Measured, measured, measure, locate_all,
}
use ca_dns.Worker.Measure.Intact.{Honest, IsIntact, measure-IsIntact}

abbrev settings : MeasureSettings
settings = record {
  classifying = record {
    failed_retry_seconds = 30;
    negative_min_seconds = 60;
    negative_max_seconds = 900;
  };
  geo_max_age_days = 30;
  region_negative_days = 30;
  carbon_max_age_seconds = 300;
}

abbrev to_e2 : ℕ → ℤ
to_e2 x = pos x

-- Every place is in region 21, whose signal is that of 900; the client counts its calls.
abbrev watttime : WattTime ℕ ℕ
watttime = record {
  region_for = λ key calls. (got (record { code = 21 ∷ []; name = none }), calls + 1);
  current_moer = λ code calls.
      (got (record { region = code; point_time = 900; moer_g_per_kwh = 3 }), calls + 1);
}

watttime-Honest : (w : WattTime ℕ ℕ) → some watttime ≡ some w → Honest w.current_moer
watttime-Honest w e =
    let same : watttime ≡ w = some-injective _ _ e in rw (← same) (λ code client signal e'. cc)

abbrev empty_tables : Database ℕ
empty_tables = record {
  store = record { domains = []; endpoints = []; records = []; min_record_ttl = 60 };
  caches = record { regions = []; locations = []; signals = [] };
}

empty_tables-IsIntact : IsIntact empty_tables
empty_tables-IsIntact = record {
  records = refl;
  endpoints = refl;
  locations = refl;
  signals = refl;
}

abbrev locate : Text → Option (Location ℕ)
locate address = some (record {
  source = 5 ∷ [];
  lat = some 4800;
  lon = some 200;
  city = none;
  country = none;
  asn = none;
  is_anycast = false;
  anycast_known = true;
})

abbrev answers : Text → List Answer
answers name =
    record {
      resolver = 9 ∷ [];
      rtype = 65 ∷ [];
      status = noerror;
      addresses = (4 ∷ []) ∷ [];
      ttl = some 20;
      negative_ttl = none;
    }
    ∷ []

-- What `measure` gives, or nothing.
abbrev or_nothing : Option (Measured ℕ ℕ) → Measured ℕ ℕ
or_nothing none = record {
  domain = [];
  outcome = classify [] settings.classifying;
  endpoints = [];
  database = empty_tables;
  client = 0;
}
or_nothing (some m) = m

abbrev result : Measured ℕ ℕ
result = or_nothing (
    measured to_e2 settings (some locate) (some watttime) 100 (1 ∷ [])
      (classify (answers (1 ∷ [])) settings.classifying) empty_tables 0)

measures :
    measure to_e2 settings
      (some locate)
      (some watttime)
      100
      (λ text. text)
      some
      answers
      (1 ∷ [])
      empty_tables
      0
    ≡ some result
unfolding measure normalize_domain lower measured locate_all assign_regions lookup_regions
    ask_regions save_regions save_region put_region put_location cached_regions key_set insert_key
    wanted_keys region_codes regions_needing_signal fetch_signals save_signals save_signal
    refresh_signals located_endpoints fresh_endpoints locate_endpoint store_measurement
    write_measurement has_repeats put_domain put_located put_endpoint add_unlocated add_endpoint
    classify records_of all_addresses region_at sorted_set insert_text text_eq text_leb
measures = refl

-- One look-up of a region, one of its signal; the record, its endpoint, the region and the signal
-- are stored.
stores :
    (result.client ≡ 2)
    × (length result.database.store.records ≡ 1)
    × (length result.database.store.endpoints ≡ 1)
    × (length result.database.caches.regions ≡ 1)
    × (length result.database.caches.signals ≡ 1)
unfolding measured locate_all assign_regions lookup_regions ask_regions save_regions save_region
    put_region put_location cached_regions key_set insert_key wanted_keys region_codes
    regions_needing_signal fetch_signals save_signals save_signal refresh_signals located_endpoints
    fresh_endpoints locate_endpoint store_measurement write_measurement has_repeats put_domain
    put_located put_endpoint add_unlocated add_endpoint classify records_of all_addresses region_at
    sorted_set insert_text text_eq text_leb
stores = (refl, refl, refl, refl, refl)

measure-IsIntact_example : IsIntact result.database
measure-IsIntact_example =
    measure-IsIntact to_e2 settings (some locate) (some watttime) 100 watttime-Honest (λ text. text)
      some answers (1 ∷ []) empty_tables 0 result measures empty_tables-IsIntact
