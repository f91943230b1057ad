-- ===== src/Geo/Tests.antt =====
-- Two sources, and the theorem at them.
use ca_dns.Prelude.{ℕ, ◌≡◌, true, false, ◌&&◌, none, some, [], ◌∷◌, any}
use ca_dns.Geo.{Location, at, lookup_error, Source, lookup, locate}
use ca_dns.Geo.Located.{is_located, locate_coordinates}

abbrev paris : Location ℕ
paris = record {
  source = 1 ∷ [];
  lat = some 48;
  lon = some 2;
  city = none;
  country = none;
  asn = none;
  is_anycast = false;
  anycast_known = false;
}

abbrev database : Source ℕ
database = record { provides_anycast = false; find = λ address. at paris }

abbrev down : Source ℕ
down = record { provides_anycast = true; find = λ address. lookup_error }

locate_coordinates_example :
    is_located (locate (λ address. true) true (down ∷ database ∷ []) (4 ∷ []))
    ≡ (true && any (λ source. is_located (lookup source (4 ∷ []))) (down ∷ database ∷ []))
locate_coordinates_example =
    locate_coordinates (λ address. true) true (down ∷ database ∷ []) (4 ∷ [])
