-- ===== src/Geo/Located.antt =====
-- When `Geolocator.locate` finds coordinates.
use ca_dns.Prelude.{
  ℕ, ◌+◌, ◌≡◌, refl, ◌∙◌, inl, inr, Bool, false, ◌&&◌, Option, none, some, List, [], ◌∷◌, arith,
  Bool-cases, Option-cases, any,
}
use ca_dns.Prelude.Text.{Text}
use ca_dns.Geo.{
  Location, Source, has_coordinates, lookup, ask_anycast, with_anycast, or_location, locate_from,
  locate,
}

module _ {Float : Type 0} where
  -- A result with coordinates.
  abbrev pub is_located : Option (Location Float) → Bool
  is_located none = false
  is_located (some location) = has_coordinates location

  ask_anycast-coordinates :
      (location : Location Float) (address : Text) (used n : ℕ) (sources : List (Source Float))
      → has_coordinates (ask_anycast location address used n sources) ≡ has_coordinates location
  unfolding ask_anycast
  ask_anycast-coordinates location address used n [] = refl
  ask_anycast-coordinates location address used n (source ∷ sources) =
      ground (arith, ask_anycast-coordinates location address used (n + 1) sources)

  with_anycast-coordinates :
      (anycast_lookup : Bool) (sources : List (Source Float)) (location : Location Float)
      (address : Text) (used : ℕ)
      → has_coordinates (with_anycast anycast_lookup sources location address used)
        ≡ has_coordinates location
  unfolding with_anycast
  with_anycast-coordinates anycast_lookup sources location address used =
      ground (arith, ask_anycast-coordinates location address used 0 sources)

  or_location-coordinates :
      (partial : Option (Location Float)) (location : Location Float)
      → is_located partial ≡ false
      → has_coordinates location ≡ false
      → is_located (or_location partial location) ≡ false
  or_location-coordinates none location h k = k
  or_location-coordinates (some p) location h k = h

  locate_from-coordinates :
      (anycast_lookup : Bool) (all_sources : List (Source Float)) (address : Text) (n : ℕ)
      (partial : Option (Location Float)) (sources : List (Source Float))
      → is_located partial ≡ false
      → is_located (locate_from anycast_lookup all_sources address n partial sources)
        ≡ any (λ source. is_located (lookup source address)) sources
  unfolding locate_from
  locate_from-coordinates anycast_lookup all_sources address n partial [] h = h
  locate_from-coordinates anycast_lookup all_sources address n partial (source ∷ sources) h =
      elim (Option-cases (lookup source address)) [
        | inl e ↦
            rw (e, locate_from)
              (locate_from-coordinates anycast_lookup all_sources address (n + 1) partial sources h)
        | inr (location, e) ↦ elim (Bool-cases (has_coordinates location)) [
          | inl k ↦
              rw (e, locate_from, k)
                (with_anycast-coordinates anycast_lookup all_sources location address n ∙ k)
          | inr k ↦
              rw (e, locate_from, k)
                (locate_from-coordinates anycast_lookup all_sources address (n + 1)
                  (or_location partial location) sources
                  (or_location-coordinates partial location h k))
        ]
      ]

  -- `locate` gives a location with coordinates exactly when the address is global and some source
  -- gives one: neither a source that fails, nor a partial result, nor the question for anycast hides
  -- it.
  pub locate_coordinates :
      (is_global : Text → Bool) (anycast_lookup : Bool) (sources : List (Source Float))
      (address : Text)
      → is_located (locate is_global anycast_lookup sources address)
        ≡ (is_global address && any (λ source. is_located (lookup source address)) sources)
  unfolding locate
  locate_coordinates is_global anycast_lookup sources address =
      elim (Bool-cases (is_global address)) [
        | inl e ↦ rw e (locate_from-coordinates anycast_lookup sources address 0 none sources refl)
        | inr e ↦ rw e refl
      ]
