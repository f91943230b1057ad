-- ===== src/Worker/Measure/Assigned.antt =====
-- The regions of endpoints, and of the signals fetched for them.
use ca_dns.Prelude.{
  ℕ, ◌≡◌, refl, inl, inr, Bool, true, not, ◌&&◌, Option, none, some, List, [], ◌∷◌, ◌++◌, map,
  arith, Option-cases, any, all, filter,
}
use ca_dns.Prelude.Text.{Text, codes, text_eq}
use ca_dns.Prelude.Sort.{sorted_set, In}
use ca_dns.Prelude.Int.{ℤ}
use ca_dns.Carbon.Calls.{Region, Signal, Got, got, empty, watttime_error, region_for}
use ca_dns.Geo.{Location, locate}
use ca_dns.Worker.Store.{Endpoint}
use ca_dns.Worker.Endpoints.{is_fresh, fresh_endpoints, locate_endpoint, located_endpoints}
use ca_dns.Monitor.Signals.{SignalRow, later, save_signal}
use ca_dns.Worker.Regions.{
  Key, same_key, key_set, GridRegion, RegionMap, cached_regions, region_at, Caches, wanted_key,
  wanted_keys, set_region,
}
use ca_dns.Worker.Assign.{
  ask_regions, lookup_regions, assign_regions, region_codes, fetch_signals, save_signals,
}
use ca_dns.Worker.Measure.Known.{
  has_region, is_known, locations_known, map_known, Grows-is_known, all-all, all-filter,
  cached-map_known, region_at-is_known, Kept, save_regions-Kept,
}

module _ {Float : Type 0} where
  abbrev pub endpoints_known : List GridRegion → List (Endpoint Float) → Bool
  endpoints_known regions es = all (λ (e : Endpoint Float). is_known regions e.region_code) es

  abbrev pub signals_known : List GridRegion → List (SignalRow Float) → Bool
  signals_known regions rows = all (λ (s : SignalRow Float). has_region s.region_code regions) rows

  set_region-is_known :
      (to_e2 : Float → ℤ) (map' : RegionMap) (regions : List GridRegion) (e : Endpoint Float)
      → map_known regions map' ≡ true
      → is_known regions e.region_code ≡ true
      → is_known regions (set_region to_e2 map' e).region_code ≡ true
  set_region-is_known to_e2 map' regions e ok h = elim (Option-cases (wanted_key to_e2 e)) [
    | inl unwanted ↦
        let same : set_region to_e2 map' e ≡ e = rw (set_region, unwanted) refl in rw same h
    | inr (key, wanted) ↦ elim (Option-cases (region_at key map')) [
      | inl missing ↦
          let same : set_region to_e2 map' e ≡ e = rw (set_region, wanted, missing) refl in
          rw same h
      | inr (region, found) ↦
          let set : set_region to_e2 map' e ≡ record e { region_code = region } =
            rw (set_region, wanted, found) refl in
          rw set (region_at-is_known regions key map' region ok found)
    ]
  ]

  map-set_region-known :
      (to_e2 : Float → ℤ) (map' : RegionMap) (regions : List GridRegion)
      (es : List (Endpoint Float))
      → map_known regions map' ≡ true
      → endpoints_known regions es ≡ true
      → endpoints_known regions (map (set_region to_e2 map') es) ≡ true
  map-set_region-known to_e2 map' regions [] ok h = h
  map-set_region-known to_e2 map' regions (e ∷ es) ok h =
      let first : is_known regions (set_region to_e2 map' e).region_code ≡ true =
        set_region-is_known to_e2 map' regions e ok (ground (arith, h)) in
      ground (arith, first, map-set_region-known to_e2 map' regions es ok, h)

  lookup_regions-Kept :
      {Client : Type 0} (to_e2 : Float → ℤ)
      (region_for : Option (Key → Client → Got Region × Client)) (now days : ℕ)
      (es : List (Endpoint Float)) (caches : Caches Float) (client : Client)
      → locations_known caches.regions caches.locations ≡ true
      → let result = lookup_regions to_e2 region_for now days es caches client in
        Kept caches result.1 × (map_known result.1.regions result.0 ≡ true)
  unfolding lookup_regions
  lookup_regions-Kept to_e2 none now days es caches client ok = (
    record { grows = λ code h. h; locations = ok; signals = refl },
    cached-map_known caches.regions now _ days caches.locations ok,
  )
  lookup_regions-Kept to_e2 (some ask) now days es caches client ok =
      let keys = key_set (wanted_keys to_e2 es) in
      let cached = cached_regions now keys days caches.locations in
      let unknown =
        filter (λ key. not (any (λ (entry : Key × Option Text). same_key entry.0 key) cached))
          keys in
      save_regions-Kept now (ask_regions ask unknown client).0 cached caches ok
        (cached-map_known caches.regions now keys days caches.locations ok)

  -- `_assign_regions` gives endpoints only regions that have rows, and keeps the caches so.
  pub assign_regions-Kept :
      {Client : Type 0} (to_e2 : Float → ℤ)
      (region_for : Option (Key → Client → Got Region × Client)) (now days : ℕ)
      (es : List (Endpoint Float)) (caches : Caches Float) (client : Client)
      → locations_known caches.regions caches.locations ≡ true
      → endpoints_known caches.regions es ≡ true
      → let result = assign_regions to_e2 region_for now days es caches client in
        Kept caches result.1 × (endpoints_known result.1.regions result.0 ≡ true)
  unfolding assign_regions
  assign_regions-Kept to_e2 region_for now days es caches client ok h =
      let (kept, map_ok) = lookup_regions-Kept to_e2 region_for now days es caches client ok in
      (
        kept,
        map-set_region-known to_e2 _ _ es map_ok
            (all-all _ _ es (λ e. Grows-is_known _ _ e.region_code kept.grows) h),
      )

  all-map_locate :
      (geolocator : Option (Text → Option (Location Float))) (now : ℕ) (regions : List GridRegion)
      (missing : List Text)
      → endpoints_known regions (map (locate_endpoint geolocator now) missing) ≡ true
  unfolding locate_endpoint
  all-map_locate none now regions [] = refl
  all-map_locate (some locate) now regions [] = refl
  all-map_locate none now regions (a ∷ as') = all-map_locate none now regions as'
  all-map_locate (some locate) now regions (a ∷ as') = elim (Option-cases (locate a)) [
    | inl e ↦ rw (e, locate_endpoint) (all-map_locate (some locate) now regions as')
    | inr (location, e) ↦ rw (e, locate_endpoint) (all-map_locate (some locate) now regions as')
  ]

  all-append :
      (p : Endpoint Float → Bool) (xs ys : List (Endpoint Float))
      → all p xs ≡ true
      → all p ys ≡ true
      → all p (xs ++ ys) ≡ true
  all-append p [] ys h h' = h'
  all-append p (x ∷ xs) ys h h' = ground (arith, h, all-append p xs ys (ground (arith, h)) h')

  -- Stored endpoints keep their regions, located ones have none yet.
  pub located_endpoints-known :
      (geolocator : Option (Text → Option (Location Float))) (now days : ℕ) (addresses : List Text)
      (rows : List (Endpoint Float)) (regions : List GridRegion)
      → endpoints_known regions rows ≡ true
      → endpoints_known regions (located_endpoints geolocator now days addresses rows) ≡ true
  unfolding located_endpoints fresh_endpoints
  located_endpoints-known geolocator now days addresses rows regions h =
      let known = λ (e : Endpoint Float). is_known regions e.region_code in
      let fresh = fresh_endpoints now days addresses rows in
      let missing =
        filter (λ address. not (any (λ (e : Endpoint Float). text_eq e.address address) fresh))
          (sorted_set addresses) in
      all-append known fresh (map (locate_endpoint geolocator now) missing)
        (all-filter known
          (λ e. any (text_eq e.address) addresses && is_fresh now days e.geo_updated_at) rows h)
        (all-map_locate geolocator now regions missing)

  pub region_codes-known :
      (regions : List GridRegion) (es : List (Endpoint Float)) (code : Text)
      → endpoints_known regions es ≡ true
      → In code (region_codes es)
      → has_region code regions ≡ true
  unfolding region_codes
  region_codes-known regions [] code h there = absurd there
  region_codes-known regions (e ∷ es) code h there =
      after e.region_code refl (region_codes-known regions es code (ground (arith, h)))
    where
      after :
          (o : Option Text)
          → e.region_code ≡ o
          → (In code (region_codes es) → has_region code regions ≡ true)
          → has_region code regions ≡ true
      after none e' rest = rest (rw (e', region_codes) at there)
      after (some []) e' rest = rest (rw (e', region_codes) at there)
      after (some (c ∷ cs)) e' rest = elim (rw (e', region_codes) at there) [
        | inl same ↦ rw same (ground (arith, h, e'))
        | inr later ↦ rest later
      ]

  module _ {Client : Type 0} (current_moer : Text → Client → Got (Signal Float) × Client)
      (honest : (code : Text) (client : Client) (signal : Signal Float)
        → (current_moer code client).0 ≡ got signal
        → signal.region ≡ code) where
    pub fetch_signals-known :
        (regions : List GridRegion) (codes : List Text) (client : Client)
        → ((code : Text) → In code codes → has_region code regions ≡ true)
        → all
            (λ (s : Signal Float). has_region s.region regions)
            (fetch_signals current_moer codes client).0
          ≡ true
    unfolding fetch_signals
    fetch_signals-known regions [] client h = refl
    fetch_signals-known regions (code ∷ codes) client h = after (current_moer code client).0 refl (
        fetch_signals-known regions codes (current_moer code client).1 (λ c there. h c (inr there)))
      where
        after :
            (result : Got (Signal Float))
            → (current_moer code client).0 ≡ result
            → all
                (λ (s : Signal Float). has_region s.region regions)
                (fetch_signals current_moer codes (current_moer code client).1).0
              ≡ true
            → all
                (λ (s : Signal Float). has_region s.region regions)
                (fetch_signals current_moer (code ∷ codes) client).0
              ≡ true
        after (got signal) e rest =
            let same = honest code client signal e in
            let first : has_region signal.region regions ≡ true = rw same (h code (inl refl)) in
            rw (e, fetch_signals) (ground (arith, first, rest))
        after empty e rest = rw (e, fetch_signals) rest
        after watttime_error e rest = rw (e, fetch_signals) rest

  save_signal-known :
      (now : ℕ) (signal : Signal Float) (regions : List GridRegion) (rows : List (SignalRow Float))
      → has_region signal.region regions ≡ true
      → signals_known regions rows ≡ true
      → signals_known regions (save_signal now signal rows) ≡ true
  unfolding save_signal
  save_signal-known now signal regions [] h ok = ground (arith, h)
  save_signal-known now signal regions (s ∷ ss) h ok =
      ground (arith, h, ok, save_signal-known now signal regions ss h)

  pub save_signals-known :
      (now : ℕ) (signals : List (Signal Float)) (regions : List GridRegion)
      (rows : List (SignalRow Float))
      → all (λ (s : Signal Float). has_region s.region regions) signals ≡ true
      → signals_known regions rows ≡ true
      → signals_known regions (save_signals now signals rows) ≡ true
  unfolding save_signals
  save_signals-known now [] regions rows h ok = ok
  save_signals-known now (signal ∷ signals) regions rows h ok =
      save_signals-known now signals regions (save_signal now signal rows) (ground (arith, h))
        (save_signal-known now signal regions rows (ground (arith, h)) ok)
