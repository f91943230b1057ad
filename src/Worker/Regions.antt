-- ===== src/Worker/Regions.antt =====
-- services/src/cadns/worker/store.py, the caches of regions and signals: `location_key`,
-- `cached_regions`, `save_region`, `regions_needing_signal`; and which endpoints `_assign_regions` of
-- worker/pipeline.py wants and sets. The rows of cadns.location_regions are those of the provider.
use ca_dns.Prelude.{
  ℕ, ◌+◌, ◌*◌, Bool, true, not, ◌&&◌, ◌||◌, Option, none, some, List, [], ◌∷◌, map, ltb,
  if◌then◌else◌, any, filter,
}
use ca_dns.Prelude.Text.{Text, text_eq}
use ca_dns.Prelude.Sort.{sorted_set}
use ca_dns.Prelude.Int.{ℤ, int_eq, int_leb}
use ca_dns.Carbon.Calls.{Region}
use ca_dns.Worker.Store.{Endpoint}
use ca_dns.Monitor.Signals.{SignalRow}

-- A rounded location, in hundredths of a degree.
abbrev pub Key : Type 0
Key = ℤ × ℤ

abbrev pub same_key : Key → Key → Bool
same_key a b = int_eq a.0 b.0 && int_eq a.1 b.1

abbrev pub key_leb : Key → Key → Bool
key_leb a b = int_leb a.0 b.0 && not (int_eq a.0 b.0) || int_eq a.0 b.0 && int_leb a.1 b.1

-- The set of keys, in order.
unfoldable pub insert_key : Key → List Key → List Key
insert_key k [] = k ∷ []
insert_key k (x ∷ xs) =
    let rest = insert_key k xs in
    if same_key k x then x ∷ xs else if key_leb k x then k ∷ x ∷ xs else x ∷ rest

unfoldable pub key_set : List Key → List Key
unfolding insert_key
key_set [] = []
key_set (k ∷ ks) = insert_key k (key_set ks)

-- A row of cadns.grid_regions.
pub record GridRegion : Type 0 where
  pub code : Text
  pub name : Option Text

-- A row of cadns.location_regions.
pub record LocationRow : Type 0 where
  pub key : Key
  pub region_code : Option Text
  pub looked_up_at : ℕ

-- `region_code IS NOT NULL OR looked_up_at > now() - make_interval(days => …)`
abbrev pub is_current : ℕ → ℕ → LocationRow → Bool
is_current now negative_days row = elim row.region_code [
  | some code ↦ true
  | none ↦ ltb now (row.looked_up_at + negative_days * 86400)
]

-- A dictionary from keys to regions; `None` is a region that is known to be missing.
abbrev pub RegionMap : Type 0
RegionMap = List (Key × Option Text)

unfoldable pub cached_regions : ℕ → List Key → ℕ → List LocationRow → RegionMap
cached_regions now keys negative_days rows =
    map (λ (row : LocationRow). (row.key, row.region_code))
      (filter
        (λ (row : LocationRow). any (same_key row.key) keys && is_current now negative_days row)
        rows)

unfoldable pub region_at : Key → RegionMap → Option (Option Text)
region_at key [] = none
region_at key ((k, region) ∷ rest) = if same_key k key then some region else region_at key rest

abbrev pub coalesce_name : Option Text → Option Text → Option Text
coalesce_name (some name) old = some name
coalesce_name none old = old

-- INSERT of a region ON CONFLICT (code) DO UPDATE.
unfoldable pub put_region : Region → List GridRegion → List GridRegion
put_region region [] = record { code = region.code; name = region.name } ∷ []
put_region region (r ∷ rs) =
    let rest = put_region region rs in
    if text_eq r.code region.code
    then record r { name = coalesce_name region.name r.name } ∷ rs
    else r ∷ rest

abbrev pub code_of : Option Region → Option Text
code_of none = none
code_of (some region) = some region.code

-- INSERT of a location ON CONFLICT DO UPDATE.
unfoldable pub put_location : ℕ → Key → Option Region → List LocationRow → List LocationRow
put_location now key region [] =
    record { key = key; region_code = code_of region; looked_up_at = now } ∷ []
put_location now key region (row ∷ rows) =
    let rest = put_location now key region rows in
    if same_key row.key key
    then record row { region_code = code_of region; looked_up_at = now } ∷ rows
    else row ∷ rest

-- The tables of the two caches.
pub record Caches (Float : Type 0) : Type 0 where
  pub regions : List GridRegion
  pub locations : List LocationRow
  pub signals : List (SignalRow Float)

module _ {Float : Type 0} where
  unfoldable pub save_region : ℕ → Key → Option Region → Caches Float → Caches Float
  unfolding put_region put_location
  save_region now key none caches = record caches {
    locations = put_location now key none caches.locations;
  }
  save_region now key (some region) caches = record caches {
    regions = put_region region caches.regions;
    locations = put_location now key (some region) caches.locations;
  }

  -- The codes without a signal that was fetched within the time.
  unfoldable pub regions_needing_signal : ℕ → List Text → ℕ → List (SignalRow Float) → List Text
  regions_needing_signal now wanted max_age_seconds signals =
      filter
        (λ code. not (
          any
            (λ (s : SignalRow Float).
              text_eq s.region_code code && ltb now (s.fetched_at + max_age_seconds))
            signals))
        (sorted_set wanted)

  -- `location_key`; `to_e2 x` is `round(x * 100)`. The columns lat and lon are set together. `none`
  -- is an endpoint that is not wanted.
  abbrev pub wanted_key : (Float → ℤ) → Endpoint Float → Option Key
  wanted_key to_e2 e = elim e.lat [
    | none ↦ none
    | some lat ↦ elim e.lon [
      | none ↦ none
      | some lon ↦ if e.is_anycast then none else some (to_e2 lat, to_e2 lon)
    ]
  ]

  unfoldable pub wanted_keys : (Float → ℤ) → List (Endpoint Float) → List Key
  wanted_keys to_e2 [] = []
  wanted_keys to_e2 (e ∷ es) =
      let rest = wanted_keys to_e2 es in
      elim (wanted_key to_e2 e) [ none ↦ rest | some key ↦ key ∷ rest ]

  -- `e.region_code = regions.get(location_key(e.lat, e.lon), e.region_code)`
  abbrev pub set_region : (Float → ℤ) → RegionMap → Endpoint Float → Endpoint Float
  set_region to_e2 regions e = elim (wanted_key to_e2 e) [
    | none ↦ e
    | some key ↦ elim (region_at key regions) [
      | none ↦ e
      | some region ↦ record e { region_code = region }
    ]
  ]
