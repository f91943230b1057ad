-- ===== src/Worker/Measure/Known.antt =====
-- The regions that the caches, endpoints and signals refer to have rows.
use ca_dns.Prelude.{
  ℕ, ◌≡◌, refl, ◌∙◌, inl, inr, Bool, true, ◌||◌, Option, none, some, List, [], ◌∷◌, arith,
  Bool-cases, any, all, filter,
}
use ca_dns.Prelude.Text.{Text, text_eq, text_eq_iff, text_eq_refl}
use ca_dns.Carbon.Calls.{Region}
use ca_dns.Worker.Regions.{
  Key, same_key, GridRegion, LocationRow, RegionMap, cached_regions, region_at, put_region, code_of,
  put_location, Caches, save_region,
}
use ca_dns.Worker.Assign.{save_regions}

abbrev pub has_region : Text → List GridRegion → Bool
has_region code regions = any (λ (r : GridRegion). text_eq r.code code) regions

-- NULL, or the code of a row.
abbrev pub is_known : List GridRegion → Option Text → Bool
is_known regions none = true
is_known regions (some code) = has_region code regions

abbrev pub locations_known : List GridRegion → List LocationRow → Bool
locations_known regions rows = all (λ (row : LocationRow). is_known regions row.region_code) rows

abbrev pub map_known : List GridRegion → RegionMap → Bool
map_known regions map' = all (λ (entry : Key × Option Text). is_known regions entry.1) map'

abbrev pub Grows : List GridRegion → List GridRegion → Type 0
Grows old new = (code : Text) → has_region code old ≡ true → has_region code new ≡ true

pub Grows-is_known :
    (old new : List GridRegion) (o : Option Text)
    → Grows old new
    → is_known old o ≡ true
    → is_known new o ≡ true
Grows-is_known old new none grows h = h
Grows-is_known old new (some code) grows h = grows code h

module _ {A : Type 0} (p q : A → Bool) where
  pub all-all :
      (xs : List A) → ((x : A) → p x ≡ true → q x ≡ true) → all p xs ≡ true → all q xs ≡ true
  all-all [] f h = h
  all-all (x ∷ xs) f h =
      let first = f x (ground (arith, h)) in ground (arith, all-all xs f, h, first)

  pub all-filter : (xs : List A) → all p xs ≡ true → all p (filter q xs) ≡ true
  all-filter [] h = h
  all-filter (x ∷ xs) h = ground (arith, all-filter xs, h)

has_region-put_region :
    (region : Region) (code : Text) (regions : List GridRegion)
    → has_region code (put_region region regions)
      ≡ (text_eq region.code code || has_region code regions)
unfolding put_region
has_region-put_region region code [] = ground arith
has_region-put_region region code (r ∷ rs) =
    ground (arith, has_region-put_region region code rs, text_eq_iff r.code region.code)

locations_known-put_location :
    (regions : List GridRegion) (now : ℕ) (key : Key) (region : Option Region)
    (rows : List LocationRow)
    → is_known regions (code_of region) ≡ true
    → locations_known regions rows ≡ true
    → locations_known regions (put_location now key region rows) ≡ true
unfolding put_location
locations_known-put_location regions now key region [] h ok = ground (arith, h)
locations_known-put_location regions now key region (row ∷ rows) h ok =
    ground (arith, h, ok, locations_known-put_location regions now key region rows h)

pub cached-map_known :
    (regions : List GridRegion) (now : ℕ) (keys : List Key) (days : ℕ) (rows : List LocationRow)
    → locations_known regions rows ≡ true
    → map_known regions (cached_regions now keys days rows) ≡ true
unfolding cached_regions
cached-map_known regions now keys days [] h = h
cached-map_known regions now keys days (row ∷ rows) h =
    ground (arith, h, cached-map_known regions now keys days rows)

pub region_at-is_known :
    (regions : List GridRegion) (key : Key) (map' : RegionMap) (region : Option Text)
    → map_known regions map' ≡ true
    → region_at key map' ≡ some region
    → is_known regions region ≡ true
unfolding region_at
region_at-is_known regions key [] region h e = ground (arith, e)
region_at-is_known regions key ((k, r) ∷ rest) region h e = elim (Bool-cases (same_key k key)) [
  | inl here ↦
      let found : some r ≡ some region = rw (here, region_at) at e in ground (arith, h, found)
  | inr elsewhere ↦
      region_at-is_known regions key rest region (ground (arith, h))
        (rw (elsewhere, region_at) at e)
]

module _ {Float : Type 0} where
  -- What the look-ups keep of the caches' tables, and reach.
  pub record Kept (old new : Caches Float) : Type 0 where
    pub grows : Grows old.regions new.regions
    pub locations : locations_known new.regions new.locations ≡ true
    pub signals : new.signals ≡ old.signals

  save_region-Kept :
      (now : ℕ) (key : Key) (region : Option Region) (caches : Caches Float)
      → locations_known caches.regions caches.locations ≡ true
      → Kept caches (save_region now key region caches)
        × (is_known (save_region now key region caches).regions (code_of region) ≡ true)
  unfolding save_region
  save_region-Kept now key none caches ok = (
    record {
      grows = λ code h. h;
      locations = locations_known-put_location caches.regions now key none caches.locations refl ok;
      signals = refl;
    },
    refl,
  )
  save_region-Kept now key (some region) caches ok =
      let grows : Grows caches.regions (put_region region caches.regions) =
        λ code h. ground (arith, h, has_region-put_region region code caches.regions) in
      let known : has_region region.code (put_region region caches.regions) ≡ true = ground (
        arith,
        has_region-put_region region region.code caches.regions,
        text_eq_refl region.code,
      ) in
      (
        record {
          grows = grows;
          locations =
              locations_known-put_location (put_region region caches.regions) now key (some region)
                caches.locations known
                (all-all _ _ caches.locations (λ row. Grows-is_known _ _ row.region_code grows) ok);
          signals = refl;
        },
        known,
      )

  pub save_regions-Kept :
      (now : ℕ) (answers : List (Key × Option (Option Region))) (map' : RegionMap)
      (caches : Caches Float)
      → locations_known caches.regions caches.locations ≡ true
      → map_known caches.regions map' ≡ true
      → Kept caches (save_regions now answers map' caches).1
        × (map_known
              (save_regions now answers map' caches).1.regions
              (save_regions now answers map' caches).0
            ≡ true)
  unfolding save_regions
  save_regions-Kept now [] map' caches ok h =
      (record { grows = λ code known. known; locations = ok; signals = refl }, h)
  save_regions-Kept now ((key, none) ∷ answers) map' caches ok h =
      save_regions-Kept now answers map' caches ok h
  save_regions-Kept now ((key, some region) ∷ answers) map' caches ok h =
      let (kept, known) = save_region-Kept now key region caches ok in
      let h' : map_known (save_region now key region caches).regions ((key, code_of region) ∷ map')
          ≡ true =
        ground
          (arith, known, all-all _ _ map' (λ entry. Grows-is_known _ _ entry.1 kept.grows) h) in
      let (kept', done) = save_regions-Kept now answers _ _ kept.locations h' in
      (
        record {
          grows = λ code was. kept'.grows code (kept.grows code was);
          locations = kept'.locations;
          signals = kept'.signals ∙ kept.signals;
        },
        done,
      )
