-- ===== src/Worker/Measure/Intact.antt =====
-- The foreign keys of db/migrations/0001_init.sql, over a measurement.
use ca_dns.Prelude.{
  ap, if◌then◌else◌, not, ◌&&◌, ℕ, ◌≡◌, refl, ◌∙◌, inl, inr, true, false, Option, none, some, List,
  [], arith, Bool-cases, any,
}
use ca_dns.Prelude.Text.{Text}
use ca_dns.Prelude.Sort.{sorted_set, In}
use ca_dns.Prelude.Sets.{In-sorted_set}
use ca_dns.Prelude.Sorted.{In-filter}
use ca_dns.Prelude.Int.{ℤ}
use ca_dns.Carbon.Calls.{Signal, Got, got}
use ca_dns.Geo.{Location}
use ca_dns.Resolvers.{Answer}
use ca_dns.Worker.Pipeline.{
  Outcome, Settings, records, all_addresses, addresses, has_addresses, unanswered, classify,
}
use ca_dns.Worker.Pipeline.Outcomes.{types_of, fails, resolves, lacks}
use ca_dns.Worker.Store.{has_repeats, write_measurement, store_measurement, Endpoint, is_failed}
use ca_dns.Worker.Store.Stored.{has_address}
use ca_dns.Worker.Endpoints.{located_endpoints}
use ca_dns.Monitor.Signals.{SignalRow}
use ca_dns.Worker.Regions.{Caches, regions_needing_signal}
use ca_dns.Worker.Assign.{assign_regions, region_codes, fetch_signals, refresh_signals}
use ca_dns.Worker.Measure.{
  normalize_domain, MeasureSettings, WattTime, Database, Measured, is_resolved, asking, fetching,
  locate_all, measured, measure,
}
use ca_dns.Worker.Measure.Referred.{
  records_known, no_records, write_measurement-records_known, all-records_of,
}
use ca_dns.Worker.Measure.Covered.{
  write_measurement-endpoints_known, has_address-located, has_address-assign_regions,
}
use mathlib.Core.Option
use mathlib.Core.Option.{some-injective}
use ca_dns.Worker.Measure.Known.{locations_known, Grows-is_known, all-all, Kept}
use ca_dns.Worker.Measure.Assigned.{
  endpoints_known, signals_known, assign_regions-Kept, located_endpoints-known, region_codes-known,
  fetch_signals-known, save_signals-known,
}

-- A client answers for the region that it is asked for.
abbrev pub Honest : {Float Client : Type 0} → (Text → Client → Got (Signal Float) × Client) → Type 0
Honest {Float} {Client} current_moer =
    (code : Text) (client : Client) (signal : Signal Float)
    → (current_moer code client).0 ≡ got signal
    → signal.region ≡ code

current_moer-Honest :
    {Float Client : Type 0} (watttime : Option (WattTime Float Client))
    (f : Text → Client → Got (Signal Float) × Client)
    → ((w : WattTime Float Client) → watttime ≡ some w → Honest w.current_moer)
    → Option.map (λ (w : WattTime Float Client). w.current_moer) watttime ≡ some f
    → Honest f
current_moer-Honest none f honest e = absurd (ground (arith, e))
current_moer-Honest (some w) f honest e =
    let same : w.current_moer ≡ f = some-injective _ _ e in rw same at (honest w refl)

module _ {Float : Type 0} where
  -- Each reference to a row of another table has its row.
  pub record IsIntact (db : Database Float) : Type 0 where
    pub records : records_known db.store.endpoints db.store.records ≡ true
    pub endpoints : endpoints_known db.caches.regions db.store.endpoints ≡ true
    pub locations : locations_known db.caches.regions db.caches.locations ≡ true
    pub signals : signals_known db.caches.regions db.caches.signals ≡ true

  refresh_signals-known :
      {Client : Type 0} (current : Option (Text → Client → Got (Signal Float) × Client))
      (now max_age : ℕ) (es : List (Endpoint Float)) (caches : Caches Float) (client : Client)
      → ((f : Text → Client → Got (Signal Float) × Client) → current ≡ some f → Honest f)
      → endpoints_known caches.regions es ≡ true
      → signals_known caches.regions caches.signals ≡ true
      → let caches' = (refresh_signals current now max_age es caches client).0 in
        (caches'.regions ≡ caches.regions)
        × (caches'.locations ≡ caches.locations)
        × (signals_known caches.regions caches'.signals ≡ true)
  unfolding refresh_signals regions_needing_signal
  refresh_signals-known none now max_age es caches client honest h ok = (refl, refl, ok)
  refresh_signals-known (some current) now max_age es caches client honest h ok =
      let stale = regions_needing_signal now (region_codes es) max_age caches.signals in
      let wanted = λ (code : Text) (there : In code stale).
        region_codes-known caches.regions es code h (
          (In-sorted_set code (region_codes es)).0
            (In-filter _ (sorted_set (region_codes es)) code there).0) in
      (
        refl,
        refl,
        save_signals-known now (fetch_signals current stale client).0 caches.regions caches.signals
            (fetch_signals-known current (honest current refl) caches.regions stale client wanted)
            ok,
      )

  module _ {Client : Type 0} (to_e2 : Float → ℤ) (settings : MeasureSettings)
      (geolocator : Option (Text → Option (Location Float)))
      (watttime : Option (WattTime Float Client)) (now : ℕ)
      (honest : (w : WattTime Float Client) → watttime ≡ some w → Honest w.current_moer) where
    locate_all-known :
        (wanted : List Text) (db : Database Float) (client : Client)
        → IsIntact db
        → let result = locate_all to_e2 settings geolocator watttime now wanted db client in
          Kept db.caches (record result.1 { signals = db.caches.signals })
          × (signals_known result.1.regions result.1.signals ≡ true)
          × (endpoints_known result.1.regions result.0 ≡ true)
          × ((a : Text) → In a wanted → has_address a result.0 ≡ true)
    unfolding locate_all
    locate_all-known wanted db client intact =
        let ask = asking to_e2 settings geolocator watttime now in
        let fetch = fetching to_e2 settings geolocator watttime now in
        let located =
          located_endpoints geolocator now settings.geo_max_age_days wanted db.store.endpoints in
        let known =
          located_endpoints-known geolocator now settings.geo_max_age_days wanted db.store.endpoints
            db.caches.regions intact.endpoints in
        let (kept, assigned_known) =
          assign_regions-Kept to_e2 ask now settings.region_negative_days located db.caches client
            intact.locations known in
        let (es, caches, client') =
          assign_regions to_e2 ask now settings.region_negative_days located db.caches client in
        let signals_ok : signals_known caches.regions caches.signals ≡ true = rw kept.signals (
          all-all _ _ db.caches.signals (λ (s : SignalRow Float). kept.grows s.region_code)
            intact.signals) in
        let (regions_same, locations_same, signals_ok') =
          refresh_signals-known fetch now settings.carbon_max_age_seconds es caches client'
            (λ f e. current_moer-Honest watttime f honest e) assigned_known signals_ok in
        (
          record {
            grows = rw regions_same kept.grows;
            locations = rw (regions_same, locations_same) kept.locations;
            signals = refl;
          },
          rw regions_same signals_ok',
          rw regions_same assigned_known,
          λ a there.
              has_address-assign_regions to_e2 ask now settings.region_negative_days located
                db.caches client a
              ∙ has_address-located geolocator now settings.geo_max_age_days wanted
                  db.store.endpoints a there,
        )

    -- The database after the measurement, if the transaction is committed.
    abbrev written : Text → Outcome → Database Float → Client → Database Float
    written name outcome db client =
        let (endpoints, caches, client') =
          if is_resolved outcome.status
          then locate_all to_e2 settings geolocator watttime now (addresses outcome) db client
          else ([], db.caches, client) in
        record {
          store =
              write_measurement now name outcome.status outcome.retry_after_seconds endpoints
                (records outcome) db.store;
          caches = caches;
        }

    written-IsIntact :
        (name : Text) (outcome : Outcome) (db : Database Float) (client : Client)
        → (is_resolved outcome.status ≡ false
            → is_failed outcome.status ≡ false
            → records outcome ≡ [])
        → IsIntact db
        → IsIntact (written name outcome db client)
    written-IsIntact name outcome db client bare intact =
        elim (Bool-cases (is_resolved outcome.status)) [
          | inl found ↦
              let (es, caches, client') =
                locate_all to_e2 settings geolocator watttime now (addresses outcome) db client in
              let (kept, signals_ok, es_known, has) =
                locate_all-known (addresses outcome) db client intact in
              let stored_known =
                all-all _ _ db.store.endpoints
                  (λ (e : Endpoint Float). Grows-is_known _ _ e.region_code kept.grows)
                  intact.endpoints in
              let covered =
                all-records_of es outcome.answers
                  (λ a there. has a ((In-sorted_set a (all_addresses outcome.answers)).1 there)) in
              rw found (record {
                records =
                    write_measurement-records_known now name outcome.status
                      outcome.retry_after_seconds es (records outcome) db.store (λ e. covered)
                      intact.records;
                endpoints =
                    write_measurement-endpoints_known caches.regions now name outcome.status
                      outcome.retry_after_seconds es (records outcome) db.store es_known
                      stored_known;
                locations = kept.locations;
                signals = signals_ok;
              })
          | inr lost ↦ rw lost (record {
            records =
                write_measurement-records_known now name outcome.status outcome.retry_after_seconds
                  [] (records outcome) db.store (λ e. rw (bare lost e) refl) intact.records;
            endpoints =
                write_measurement-endpoints_known db.caches.regions now name outcome.status
                  outcome.retry_after_seconds [] (records outcome) db.store refl intact.endpoints;
            locations = intact.locations;
            signals = intact.signals;
          })
        ]

    measured-written :
        (name : Text) (outcome : Outcome) (db : Database Float) (client : Client)
        (result : Measured Float Client)
        → measured to_e2 settings geolocator watttime now name outcome db client ≡ some result
        → written name outcome db client ≡ result.database
    unfolding measured store_measurement
    measured-written name outcome db client result e =
        elim (Bool-cases (not (is_failed outcome.status) && has_repeats (records outcome))) [
          | inl refused ↦ absurd (ground (arith, (rw refused at e)))
          | inr accepted ↦
              ap (λ (m : Measured Float Client). m.database) (some-injective _ _ (rw accepted at e))
        ]

    classify-bare :
        (answers : List Answer) (classifying : Settings)
        → is_resolved (classify answers classifying).status ≡ false
        → is_failed (classify answers classifying).status ≡ false
        → records (classify answers classifying) ≡ []
    classify-bare answers classifying unresolved unfailed =
        elim (Bool-cases (unanswered answers (types_of answers))) [
          | inl e ↦ absurd (ground (arith, (rw (fails answers classifying e) at unfailed)))
          | inr e ↦ elim (Bool-cases (any has_addresses answers)) [
            | inl k ↦ absurd (ground (arith, (rw (resolves answers classifying e k) at unresolved)))
            | inr k ↦ rw (lacks answers classifying e k) (no_records answers k)
          ]
        ]

    -- A measurement that raises nothing breaks no reference between the tables, whatever the resolvers, the geolocator and
    -- WattTime answer or fail to: when each record's address and each region that an endpoint, a
    -- location or a signal names has its row before, it has one after. The WattTime client gives
    -- signals only for the region that it is asked for.
    pub measure-IsIntact :
        (strip : Text → Text) (name_text : Text → Option Text) (resolve : Text → List Answer)
        (domain : Text) (db : Database Float) (client : Client) (result : Measured Float Client)
        → measure to_e2 settings geolocator watttime now strip name_text resolve domain db client
          ≡ some result
        → IsIntact db
        → IsIntact result.database
    unfolding measure
    measure-IsIntact strip name_text resolve domain db client result e intact =
        after (normalize_domain strip name_text domain) refl
      where
        after :
            (name : Option Text)
            → normalize_domain strip name_text domain ≡ name
            → IsIntact result.database
        after none e' = absurd (ground (arith, (rw (e', measure) at e)))
        after (some name) e' =
            let outcome = classify (resolve name) settings.classifying in
            rw (← measured-written name outcome db client result (rw (e', measure) at e)) (
              written-IsIntact name outcome db client
                (classify-bare (resolve name) settings.classifying) intact)
