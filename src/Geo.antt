-- ===== src/Geo.antt =====
-- services/src/cadns/geo/ipinfo.py: `Geolocator` and the fallback of `ApiSource`. The sources' answers,
-- `ipaddress` and the HTTP client are parameters; `Float` is the type of coordinates.
pub mod Located
mod Tests
use ca_dns.Prelude.{
  ℕ, zero, suc, ◌+◌, ◌-◌, ◌*◌, ◌/◌, ◌%◌, ◌^◌, ◌≤◌, ◌<◌, min, max, bit_and, bit_or, ◌≡◌, refl, sym,
  ap, ◌∙◌, ◌≢◌, ◌↔◌, ◌⊎◌, inl, inr, Bool, true, false, not, ◌&&◌, ◌||◌, Option, none, some, List,
  [], ◌∷◌, ◌++◌, map, append-nil, append_assoc, arith, ltb, leb, ◌==◌, if◌then◌else◌, ltb→lt,
  leb→le, ==_iff, Bool-cases, Option-cases, length, take, drop, any, all, filter, All,
  length-append, length-drop, length-take, All-append, take-length_append, drop-length_append,
  length-filter_le,
}
use ca_dns.Prelude.Text.{Text}

pub record Location (Float : Type 0) : Type 0 where
  pub source : Text
  pub lat : Option Float
  pub lon : Option Float
  pub city : Option Text
  pub country : Option Text
  pub asn : Option ℕ
  pub is_anycast : Bool
  pub anycast_known : Bool

abbrev pub is_some {ℓ} : {A : Type ℓ} → Option A → Bool
is_some none = false
is_some (some a) = true

-- What `lookup` of a source gives; `lookup_error` is a `GeoLookupError`.
pub data Found (Float : Type 0) : Type 0 where
  at : Location Float → Found Float
  nowhere lookup_error : Found Float

pub record Source (Float : Type 0) : Type 0 where
  pub provides_anycast : Bool
  pub find : Text → Found Float

-- The parts of an HTTP response that `ApiSource.lookup` reads: `location` is what
-- `location_from_record` makes of the body.
pub record Response (Float : Type 0) : Type 0 where
  pub status_code : ℕ
  pub bogon : Bool
  pub location : Location Float

module _ {Float : Type 0} where
  abbrev pub has_coordinates : Location Float → Bool
  has_coordinates location = is_some location.lat && is_some location.lon

  -- `ApiSource.lookup` after its requests.
  abbrev pub read_response : Response Float → Found Float
  read_response response =
      if response.status_code == 404
      then nowhere
      else if not (response.status_code == 200)
      then lookup_error
      else if response.bogon
      then nowhere
      else at response.location

  -- `ApiSource.lookup`: what it gives, and `_legacy` after it. `get` is a request to the endpoint
  -- that its argument names, `none` for an `HTTPError`.
  unfoldable pub api_lookup : (Bool → Option (Response Float)) → Bool → Found Float × Bool
  api_lookup get legacy = elim (get legacy) [
    | none ↦ (lookup_error, legacy)
    | some response ↦
        if response.status_code == 403 && not legacy
        then (elim (get true) [ none ↦ lookup_error | some second ↦ read_response second ], true)
        else (read_response response, legacy)
  ]

  -- `_lookup`
  unfoldable pub lookup : Source Float → Text → Option (Location Float)
  lookup source address = elim (source.find address) [
    | at location ↦ some location
    | nowhere ↦ none
    | lookup_error ↦ none
  ]

  abbrev pub enriched : Location Float → Location Float → Location Float
  enriched location extra = record location {
    is_anycast = extra.is_anycast;
    anycast_known = true;
    asn = if is_some location.asn then location.asn else extra.asn;
  }

  -- The loop of `_with_anycast`, over the sources from the n-th on. Sources are told apart by their
  -- place in the list.
  unfoldable pub ask_anycast : Location Float → Text → ℕ → ℕ → List (Source Float) → Location Float
  unfolding lookup
  ask_anycast location address used n [] = location
  ask_anycast location address used n (source ∷ sources) =
      let rest = ask_anycast location address used (n + 1) sources in
      if n == used || not source.provides_anycast then rest else elim (lookup source address) [
        | none ↦ rest
        | some extra ↦ if extra.anycast_known then enriched location extra else rest
      ]

  unfoldable pub with_anycast :
      Bool → List (Source Float) → Location Float → Text → ℕ → Location Float
  unfolding ask_anycast
  with_anycast anycast_lookup sources location address used =
      if location.anycast_known || not anycast_lookup
      then location
      else ask_anycast location address used 0 sources

  abbrev pub or_location : Option (Location Float) → Location Float → Option (Location Float)
  or_location none location = some location
  or_location (some partial) location = some partial

  -- The loop of `locate`, over the sources from the n-th on, with the partial result so far.
  unfoldable pub locate_from :
      Bool
      → List (Source Float)
      → Text
      → ℕ
      → Option (Location Float)
      → List (Source Float)
      → Option (Location Float)
  unfolding with_anycast lookup
  locate_from anycast_lookup all_sources address n partial [] = partial
  locate_from anycast_lookup all_sources address n partial (source ∷ sources) =
      let next : Option (Location Float) → Option (Location Float) =
        λ found. locate_from anycast_lookup all_sources address (n + 1) found sources in
      elim (lookup source address) [
        | none ↦ next partial
        | some location ↦
            if has_coordinates location
            then some (with_anycast anycast_lookup all_sources location address n)
            else next (or_location partial location)
      ]

  -- `is_global` is `ipaddress.ip_address(address).is_global`.
  unfoldable pub locate :
      (Text → Bool) → Bool → List (Source Float) → Text → Option (Location Float)
  unfolding locate_from
  locate is_global anycast_lookup sources address =
      if is_global address then locate_from anycast_lookup sources address 0 none sources else none
