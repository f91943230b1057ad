-- ===== src/Worker/Endpoints.antt =====
-- `_locate` and `_endpoints` of services/src/cadns/worker/pipeline.py, without the regions, and
-- `fresh_endpoints` of worker/store.py. The geolocator's `locate` is a parameter.
use ca_dns.Prelude.{
  ℕ, ◌+◌, ◌*◌, Bool, false, not, ◌&&◌, Option, none, some, List, ◌++◌, map, ltb, any, filter,
}
use ca_dns.Prelude.Text.{Text, text_eq}
use ca_dns.Prelude.Sort.{sorted_set}
use ca_dns.Geo.{Location}
use ca_dns.Worker.Store.{Endpoint, bare_endpoint}

-- `geo_updated_at > now() - make_interval(days => max_age_days)`
abbrev pub is_fresh : ℕ → ℕ → Option ℕ → Bool
is_fresh now max_age_days none = false
is_fresh now max_age_days (some updated) = ltb now (updated + max_age_days * 86400)

module _ {Float : Type 0} where
  unfoldable pub fresh_endpoints : ℕ → ℕ → List Text → List (Endpoint Float) → List (Endpoint Float)
  fresh_endpoints now max_age_days addresses rows =
      filter
        (λ (e : Endpoint Float).
          any (text_eq e.address) addresses && is_fresh now max_age_days e.geo_updated_at)
        rows

  -- `geolocator` is `none` where the pipeline has none.
  unfoldable pub locate_endpoint :
      Option (Text → Option (Location Float)) → ℕ → Text → Endpoint Float
  locate_endpoint none now address = bare_endpoint address
  locate_endpoint (some locate) now address = elim (locate address) [
    | none ↦ bare_endpoint address
    | some location ↦ record {
      address = address;
      lat = location.lat;
      lon = location.lon;
      city = location.city;
      country = location.country;
      asn = location.asn;
      is_anycast = location.is_anycast;
      region_code = none;
      geo_source = some location.source;
      geo_updated_at = some now;
    }
  ]

  -- The endpoints that are fresh, then those that are looked up, in the order of their addresses.
  unfoldable pub located_endpoints :
      Option (Text → Option (Location Float))
      → ℕ
      → ℕ
      → List Text
      → List (Endpoint Float)
      → List (Endpoint Float)
  unfolding fresh_endpoints locate_endpoint
  located_endpoints geolocator now max_age_days addresses rows =
      let fresh = fresh_endpoints now max_age_days addresses rows in
      let missing =
        filter (λ address. not (any (λ (e : Endpoint Float). text_eq e.address address) fresh))
          (sorted_set addresses) in
      fresh ++ map (locate_endpoint geolocator now) missing
