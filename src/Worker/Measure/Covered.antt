-- ===== src/Worker/Measure/Covered.antt =====
-- The endpoints that a measurement finds and stores.
use ca_dns.Prelude.{
  ℕ, ◌≡◌, refl, ap, inl, inr, Bool, true, not, ◌||◌, Option, none, some, List, [], ◌∷◌, ◌++◌, map,
  arith, Bool-cases, Option-cases, any, filter,
}
use ca_dns.Prelude.Text.{Text, text_eq, text_eq_refl}
use ca_dns.Prelude.Sort.{sorted_set, In}
use ca_dns.Prelude.Sets.{In-sorted_set}
use ca_dns.Prelude.Sorted.{filter-In}
use ca_dns.Prelude.Int.{ℤ}
use ca_dns.Carbon.Calls.{Region, Got}
use ca_dns.Geo.{Location}
use ca_dns.Worker.Pipeline.{DomainStatus, Record, records}
use ca_dns.Worker.Store.{
  Endpoint, Store, is_failed, is_located, put_endpoint, add_endpoint, put_located, add_unlocated,
  write_measurement,
}
use ca_dns.Worker.Store.Stored.{has_address}
use ca_dns.Worker.Endpoints.{fresh_endpoints, locate_endpoint, located_endpoints}
use ca_dns.Worker.Regions.{Key, GridRegion, RegionMap, region_at, Caches, wanted_key, set_region}
use ca_dns.Worker.Assign.{assign_regions}
use ca_dns.Worker.Measure.Known.{is_known, all-filter}
use ca_dns.Worker.Measure.Assigned.{endpoints_known}

module _ {Float : Type 0} where
  put_endpoint-known :
      (regions : List GridRegion) (e : Endpoint Float) (rows : List (Endpoint Float))
      → is_known regions e.region_code ≡ true
      → endpoints_known regions rows ≡ true
      → endpoints_known regions (put_endpoint e rows) ≡ true
  unfolding put_endpoint
  put_endpoint-known regions e [] h ok = ground (arith, h)
  put_endpoint-known regions e (x ∷ xs) h ok =
      ground (arith, h, ok, put_endpoint-known regions e xs h)

  add_endpoint-known :
      (regions : List GridRegion) (address : Text) (rows : List (Endpoint Float))
      → endpoints_known regions rows ≡ true
      → endpoints_known regions (add_endpoint address rows) ≡ true
  unfolding add_endpoint
  add_endpoint-known regions address [] ok = refl
  add_endpoint-known regions address (x ∷ xs) ok =
      ground (arith, ok, add_endpoint-known regions address xs)

  put_located-known :
      (regions : List GridRegion) (es rows : List (Endpoint Float))
      → endpoints_known regions es ≡ true
      → endpoints_known regions rows ≡ true
      → endpoints_known regions (put_located es rows) ≡ true
  unfolding put_located
  put_located-known regions [] rows h ok = ok
  put_located-known regions (e ∷ es) rows h ok =
      put_located-known regions es (put_endpoint e rows) (ground (arith, h))
        (put_endpoint-known regions e rows (ground (arith, h)) ok)

  add_unlocated-known :
      (regions : List GridRegion) (es rows : List (Endpoint Float))
      → endpoints_known regions rows ≡ true
      → endpoints_known regions (add_unlocated es rows) ≡ true
  unfolding add_unlocated
  add_unlocated-known regions [] rows ok = ok
  add_unlocated-known regions (e ∷ es) rows ok =
      add_unlocated-known regions es (add_endpoint e.address rows)
        (add_endpoint-known regions e.address rows ok)

  pub write_measurement-endpoints_known :
      (regions : List GridRegion) (now : ℕ) (domain : Text) (status : DomainStatus)
      (retry_after_seconds : Option ℕ) (es : List (Endpoint Float)) (records : List Record)
      (store : Store Float)
      → endpoints_known regions es ≡ true
      → endpoints_known regions store.endpoints ≡ true
      → endpoints_known regions
          (write_measurement now domain status retry_after_seconds es records store).endpoints
        ≡ true
  unfolding write_measurement
  write_measurement-endpoints_known regions now domain status retry es records store h ok =
      elim (Bool-cases (is_failed status)) [
        | inl kept ↦ rw kept ok
        | inr stored ↦ rw stored (
            add_unlocated-known regions (filter (λ e. not (is_located e)) es)
              (put_located (filter is_located es) store.endpoints)
              (put_located-known regions (filter is_located es) store.endpoints
                (all-filter (λ (e : Endpoint Float). is_known regions e.region_code) is_located es
                  h)
                ok))
      ]

  locate_endpoint-address :
      (geolocator : Option (Text → Option (Location Float))) (now : ℕ) (address : Text)
      → (locate_endpoint geolocator now address).address ≡ address
  unfolding locate_endpoint
  locate_endpoint-address none now address = refl
  locate_endpoint-address (some locate) now address = elim (Option-cases (locate address)) [
    | inl e ↦ rw (e, locate_endpoint) refl
    | inr (location, e) ↦ rw (e, locate_endpoint) refl
  ]

  has_address-map_locate :
      (geolocator : Option (Text → Option (Location Float))) (now : ℕ) (a : Text)
      (missing : List Text)
      → In a missing
      → has_address a (map (locate_endpoint geolocator now) missing) ≡ true
  has_address-map_locate geolocator now a [] there = absurd there
  has_address-map_locate geolocator now a (x ∷ xs) (inl same) =
      ground (arith, same, locate_endpoint-address geolocator now x, text_eq_refl a)
  has_address-map_locate geolocator now a (x ∷ xs) (inr there) =
      ground (arith, has_address-map_locate geolocator now a xs there)

  has_address-append :
      (a : Text) (xs ys : List (Endpoint Float))
      → has_address a (xs ++ ys) ≡ (has_address a xs || has_address a ys)
  has_address-append a [] ys = refl
  has_address-append a (x ∷ xs) ys = ground (arith, has_address-append a xs ys)

  -- Each address that was asked for is located.
  pub has_address-located :
      (geolocator : Option (Text → Option (Location Float))) (now days : ℕ) (wanted : List Text)
      (rows : List (Endpoint Float)) (a : Text)
      → In a wanted
      → has_address a (located_endpoints geolocator now days wanted rows) ≡ true
  unfolding located_endpoints
  has_address-located geolocator now days wanted rows a there =
      let fresh = fresh_endpoints now days wanted rows in
      let is_missing : Text → Bool =
        λ address. not (any (λ (e : Endpoint Float). text_eq e.address address) fresh) in
      let missing = filter is_missing (sorted_set wanted) in
      rw (has_address-append a fresh (map (locate_endpoint geolocator now) missing))
        (elim (Bool-cases (has_address a fresh)) [
          | inl found ↦ ground (arith, found)
          | inr gone ↦
              let listed =
                filter-In is_missing (sorted_set wanted) a ((In-sorted_set a wanted).1 there)
                  (ap not gone) in
              ground (arith, gone, has_address-map_locate geolocator now a missing listed)
        ])

  set_region-address :
      (to_e2 : Float → ℤ) (map' : RegionMap) (e : Endpoint Float)
      → (set_region to_e2 map' e).address ≡ e.address
  set_region-address to_e2 map' e = elim (Option-cases (wanted_key to_e2 e)) [
    | inl unwanted ↦ rw (set_region, unwanted) refl
    | inr (key, wanted) ↦ elim (Option-cases (region_at key map')) [
      | inl missing ↦ rw (set_region, wanted, missing) refl
      | inr (region, found) ↦ rw (set_region, wanted, found) refl
    ]
  ]

  has_address-set_region :
      (to_e2 : Float → ℤ) (map' : RegionMap) (a : Text) (es : List (Endpoint Float))
      → has_address a (map (set_region to_e2 map') es) ≡ has_address a es
  has_address-set_region to_e2 map' a [] = refl
  has_address-set_region to_e2 map' a (e ∷ es) =
      let same = set_region-address to_e2 map' e in
      rw (same, has_address-set_region to_e2 map' a es) refl

  pub has_address-assign_regions :
      {Client : Type 0} (to_e2 : Float → ℤ)
      (region_for : Option (Key → Client → Got Region × Client)) (now days : ℕ)
      (es : List (Endpoint Float)) (caches : Caches Float) (client : Client) (a : Text)
      → has_address a (assign_regions to_e2 region_for now days es caches client).0
        ≡ has_address a es
  unfolding assign_regions
  has_address-assign_regions to_e2 region_for now days es caches client a =
      has_address-set_region to_e2 _ a es
