-- ===== src/Worker/Store/Tests.antt =====
-- A small store, and the theorems at it.
use ca_dns.Prelude.{ℕ, true, false, not, ◌||◌, map, All, ◌≡◌, refl, none, some, List, [], ◌∷◌}
use ca_dns.Prelude.Text.{text_eq}
use ca_dns.Worker.Pipeline.{resolved, Record}
use ca_dns.Worker.Store.{
  Endpoint, StoredRecord, Store, bare_endpoint, has_repeats, store_measurement,
}
use ca_dns.Worker.Store.Stored.{
  records_for, received, Lasts, tables_after, find_endpoint, store_measurement_records,
  store_measurement_keeps,
}

abbrev here : Endpoint ℕ
here = record (bare_endpoint (4 ∷ [])) { lat = some 48; lon = some 2; geo_updated_at = some 50 }

abbrev elsewhere : Endpoint ℕ
elsewhere = bare_endpoint (5 ∷ [])

abbrev old_record : StoredRecord
old_record = record {
  domain = 1 ∷ [];
  rtype = 65 ∷ [];
  address = 4 ∷ [];
  resolver = 9 ∷ [];
  ttl = 20;
  resolved_at = 50;
  expires_at = 110;
}

abbrev store : Store ℕ
store = record {
  domains = [];
  endpoints = here ∷ [];
  records = old_record ∷ record old_record { domain = 2 ∷ [] } ∷ [];
  min_record_ttl = 60;
}

abbrev new_record : Record
new_record = record { rtype = 65 ∷ []; address = 5 ∷ []; resolver = 9 ∷ []; ttl = 30 }

abbrev new_endpoints : List (Endpoint ℕ)
new_endpoints = elsewhere ∷ bare_endpoint (4 ∷ []) ∷ []

abbrev stored : Store ℕ
stored =
    tables_after 100 (1 ∷ []) resolved none new_endpoints (new_record ∷ []) store
      (store_measurement 100 (1 ∷ []) resolved none new_endpoints (new_record ∷ []) store)

store_measurement_records_example :
    ((false || has_repeats (new_record ∷ []) || not true) ≡ true
      → records_for (1 ∷ []) stored.records ≡ old_record ∷ [])
    × ((false || has_repeats (new_record ∷ []) || not true) ≡ false
        → (map received (records_for (1 ∷ []) stored.records) ≡ new_record ∷ [])
          × All (Lasts 100 60) (records_for (1 ∷ []) stored.records))
unfolding text_eq
store_measurement_records_example =
    store_measurement_records 100 (1 ∷ []) resolved none new_endpoints (new_record ∷ []) store
      (1 ∷ [])

-- A resolver that is listed twice gives each record twice.
refuses_repeats :
    store_measurement 100 (1 ∷ []) resolved none new_endpoints (new_record ∷ new_record ∷ []) store
    ≡ none
unfolding store_measurement has_repeats text_eq
refuses_repeats = refl

found_before : find_endpoint (4 ∷ []) store.endpoints ≡ some here
unfolding find_endpoint text_eq
found_before = refl

store_measurement_keeps_example : find_endpoint (4 ∷ []) stored.endpoints ≡ some here
store_measurement_keeps_example =
    store_measurement_keeps 100 (1 ∷ []) resolved none new_endpoints (new_record ∷ []) store
      (4 ∷ []) here refl found_before
