-- ===== src/Worker/Measure.antt =====
-- services/src/cadns/worker/pipeline.py: `Pipeline.measure`, from the domain to the tables.
-- Parameters are `strip`, dnspython's reading of a name with the text it prints (without the final
-- dot), the resolvers' answers, and the geolocator and the WattTime client, each of which may be
-- missing.
pub mod Known
pub mod Assigned
pub mod Covered
pub mod Referred
pub mod Intact
mod Tests
use mathlib.Core.Option
use ca_dns.Prelude.{
  ℕ, zero, suc, ◌+◌, ◌-◌, ◌*◌, ◌/◌, ◌%◌, ◌^◌, ◌≤◌, ◌<◌, min, max, bit_and, bit_or, ◌≡◌, refl, sym,
  ap, ◌∙◌, ◌≢◌, ◌↔◌, ◌⊎◌, inl, inr, Bool, true, false, not, ◌&&◌, ◌||◌, Option, none, some, List,
  [], ◌∷◌, ◌++◌, map, append-nil, append_assoc, arith, ltb, leb, ◌==◌, if◌then◌else◌, ltb→lt,
  leb→le, ==_iff, Bool-cases, Option-cases, length, take, drop, any, all, filter, All,
  length-append, length-drop, length-take, All-append, take-length_append, drop-length_append,
  length-filter_le,
}
use ca_dns.Prelude.Text.{Text, text_eq, codes}
use ca_dns.Collector.Dnstap.{lower}
use ca_dns.Prelude.Int.{ℤ}
use ca_dns.Carbon.Calls.{Region, Signal, Got}
use ca_dns.Geo.{Location}
use ca_dns.Resolvers.{Answer}
use ca_dns.Worker.Pipeline.{
  Settings, DomainStatus, resolved, no_domain, no_data, failed, Outcome, Record, or_zero, record_of,
  records_of, records, all_addresses, addresses, has_addresses, is_nxdomain, answered_for,
  unanswered, negative_ttls, least_or, backoff_of, classify,
}
use ca_dns.Worker.Store.{Endpoint, Store, store_measurement}
use ca_dns.Worker.Endpoints.{located_endpoints}
use ca_dns.Worker.Regions.{Key, Caches}
use ca_dns.Worker.Assign.{assign_regions, refresh_signals}

-- `none` is the ValueError.
unfoldable pub normalize_domain : (Text → Text) → (Text → Option Text) → Text → Option Text
normalize_domain strip name_text domain = elim (name_text (strip domain)) [
  | none ↦ none
  | some name ↦
      let text = lower name in
      if any (text_eq text) ([] ∷ codes "." ∷ codes "@" ∷ []) then none else some text
]

-- The settings that `measure` reads.
pub record MeasureSettings : Type 0 where
  pub classifying : Settings
  pub geo_max_age_days : ℕ
  pub region_negative_days : ℕ
  pub carbon_max_age_seconds : ℕ

-- The WattTime client.
pub record WattTime (Float Client : Type 0) : Type 0 where
  pub region_for : Key → Client → Got Region × Client
  pub current_moer : Text → Client → Got (Signal Float) × Client

-- The database, as far as `measure` reads and writes it.
pub record Database (Float : Type 0) : Type 0 where
  pub store : Store Float
  pub caches : Caches Float

-- `Measurement`, with the database and the client that `measure` leaves.
pub record Measured (Float Client : Type 0) : Type 0 where
  pub domain : Text
  pub outcome : Outcome
  pub endpoints : List (Endpoint Float)
  pub database : Database Float
  pub client : Client

abbrev pub is_resolved : DomainStatus → Bool
is_resolved resolved = true
is_resolved no_domain = false
is_resolved no_data = false
is_resolved failed = false

module _ {Float Client : Type 0} (to_e2 : Float → ℤ) (settings : MeasureSettings)
    (geolocator : Option (Text → Option (Location Float)))
    (watttime : Option (WattTime Float Client)) (now : ℕ) where
  abbrev pub asking : Option (Key → Client → Got Region × Client)
  asking = Option.map (λ (w : WattTime Float Client). w.region_for) watttime

  abbrev pub fetching : Option (Text → Client → Got (Signal Float) × Client)
  fetching = Option.map (λ (w : WattTime Float Client). w.current_moer) watttime

  -- `_endpoints` and `_refresh_signals`, for a resolved domain.
  unfoldable pub locate_all :
      List Text → Database Float → Client → List (Endpoint Float) × Caches Float × Client
  unfolding assign_regions refresh_signals located_endpoints
  locate_all addresses db client =
      let located =
        located_endpoints geolocator now settings.geo_max_age_days addresses db.store.endpoints in
      let (endpoints, caches, client') =
        assign_regions to_e2 asking now settings.region_negative_days located db.caches client in
      let (caches', client'') =
        refresh_signals fetching now settings.carbon_max_age_seconds endpoints caches client' in
      (endpoints, caches', client'')

  -- `measure` on a canonical name; `none` is the error of `store_measurement`.
  unfoldable pub measured :
      Text → Outcome → Database Float → Client → Option (Measured Float Client)
  unfolding locate_all store_measurement
  measured name outcome db client =
      let (endpoints, caches, client') =
        if is_resolved outcome.status
        then locate_all (addresses outcome) db client
        else ([], db.caches, client) in
      Option.map
        (λ (store : Store Float). record {
          domain = name;
          outcome = outcome;
          endpoints = endpoints;
          database = record { store = store; caches = caches };
          client = client';
        })
        (store_measurement now name outcome.status outcome.retry_after_seconds endpoints
          (records outcome) db.store)

  -- `none` is the ValueError of `normalize_domain`, or the error of `store_measurement`.
  unfoldable pub measure :
      (Text → Text)
      → (Text → Option Text)
      → (Text → List Answer)
      → Text
      → Database Float
      → Client
      → Option (Measured Float Client)
  unfolding measured classify normalize_domain
  measure strip name_text resolve domain db client =
      elim (normalize_domain strip name_text domain) [
        | none ↦ none
        | some name ↦ measured name (classify (resolve name) settings.classifying) db client
      ]
