-- ===== src/Worker/Store/Stored.antt =====
-- What `store_measurement` leaves in the tables.
use ca_dns.Prelude.{
  ℕ, ◌+◌, ◌≤◌, ◌⊎◌, All, ap, ◌≡◌, refl, ◌∙◌, inl, inr, Bool, true, false, not, ◌&&◌, ◌||◌, Option,
  none, some, List, [], ◌∷◌, ◌++◌, map, append-nil, arith, if◌then◌else◌, Bool-cases, any, filter,
}
use ca_dns.Prelude.Text.{Text, text_eq, text_eq_iff}
use ca_dns.Worker.Pipeline.{DomainStatus, Record}
use ca_dns.Worker.Store.{
  Endpoint, StoredRecord, Store, is_failed, stored_record, is_located, put_endpoint, add_endpoint,
  put_located, add_unlocated, has_repeats, write_measurement, store_measurement,
}

-- The records of a domain.
abbrev pub records_for : Text → List StoredRecord → List StoredRecord
records_for domain rows = filter (λ (r : StoredRecord). text_eq r.domain domain) rows

records_for-append :
    (e : Text) (xs ys : List StoredRecord)
    → records_for e (xs ++ ys) ≡ records_for e xs ++ records_for e ys
records_for-append e [] ys = refl
records_for-append e (x ∷ xs) ys = ground (arith, records_for-append e xs ys)

records_for_others :
    (domain e : Text) (rows : List StoredRecord)
    → records_for e (filter (λ (r : StoredRecord). not (text_eq r.domain domain)) rows)
      ≡ (if text_eq domain e then [] else records_for e rows)
records_for_others domain e [] = ground arith
records_for_others domain e (x ∷ xs) = ground (
  arith,
  records_for_others domain e xs,
  text_eq_iff x.domain domain,
  text_eq_iff x.domain e,
  text_eq_iff domain e,
)

records_for_new :
    (now min_ttl : ℕ) (domain e : Text) (records : List Record)
    → records_for e (map (stored_record now min_ttl domain) records)
      ≡ (if text_eq domain e then map (stored_record now min_ttl domain) records else [])
records_for_new now min_ttl domain e [] = ground arith
records_for_new now min_ttl domain e (r ∷ rs) =
    ground (arith, records_for_new now min_ttl domain e rs)

-- A row as a resolver gave it.
abbrev pub received : StoredRecord → Record
received row = record {
  rtype = row.rtype;
  address = row.address;
  resolver = row.resolver;
  ttl = row.ttl;
}

-- How long a row of a measurement at `now` is served.
abbrev pub Lasts : ℕ → ℕ → StoredRecord → Type 0
Lasts now min_ttl row =
    (row.resolved_at ≡ now)
    × (now + row.ttl ≤ row.expires_at)
    × (now + min_ttl ≤ row.expires_at)
    × ((row.expires_at ≡ now + row.ttl) ⊎ (row.expires_at ≡ now + min_ttl))

map-received :
    (now min_ttl : ℕ) (domain : Text) (records : List Record)
    → map received (map (stored_record now min_ttl domain) records) ≡ records
map-received now min_ttl domain [] = refl
map-received now min_ttl domain (r ∷ rs) = ap (◌∷◌ r) (map-received now min_ttl domain rs)

All-Lasts :
    (now min_ttl : ℕ) (domain : Text) (records : List Record)
    → All (Lasts now min_ttl) (map (stored_record now min_ttl domain) records)
All-Lasts now min_ttl domain [] = tt
All-Lasts now min_ttl domain (r ∷ rs) =
    ((refl, omega arith, omega arith, ground arith), All-Lasts now min_ttl domain rs)

module _ {Float : Type 0} where
  -- Whether an address has a row, and its row.
  abbrev pub has_address : Text → List (Endpoint Float) → Bool
  has_address address rows = any (λ (x : Endpoint Float). text_eq x.address address) rows

  unfoldable pub find_endpoint : Text → List (Endpoint Float) → Option (Endpoint Float)
  find_endpoint address [] = none
  find_endpoint address (x ∷ xs) =
      if text_eq x.address address then some x else find_endpoint address xs

  has_address-put_endpoint :
      (a : Text) (e : Endpoint Float) (rows : List (Endpoint Float))
      → has_address a (put_endpoint e rows) ≡ (text_eq e.address a || has_address a rows)
  unfolding put_endpoint
  has_address-put_endpoint a e [] = refl
  has_address-put_endpoint a e (x ∷ xs) =
      ground (arith, has_address-put_endpoint a e xs, text_eq_iff x.address e.address)

  has_address-add_endpoint :
      (a b : Text) (rows : List (Endpoint Float))
      → has_address a (add_endpoint b rows) ≡ (text_eq b a || has_address a rows)
  unfolding add_endpoint
  has_address-add_endpoint a b [] = refl
  has_address-add_endpoint a b (x ∷ xs) =
      ground (arith, has_address-add_endpoint a b xs, text_eq_iff x.address b)

  has_address-put_located :
      (a : Text) (es rows : List (Endpoint Float))
      → has_address a (put_located es rows) ≡ (has_address a es || has_address a rows)
  unfolding put_located
  has_address-put_located a [] rows = refl
  has_address-put_located a (e ∷ es) rows =
      ground (
        arith,
        has_address-put_located a es (put_endpoint e rows),
        has_address-put_endpoint a e rows,
      )

  has_address-add_unlocated :
      (a : Text) (es rows : List (Endpoint Float))
      → has_address a (add_unlocated es rows) ≡ (has_address a es || has_address a rows)
  unfolding add_unlocated
  has_address-add_unlocated a [] rows = refl
  has_address-add_unlocated a (e ∷ es) rows = ground (
    arith,
    has_address-add_unlocated a es (add_endpoint e.address rows),
    has_address-add_endpoint a e.address rows,
  )

  has_address-parts :
      (a : Text) (es : List (Endpoint Float))
      → (has_address a (filter (λ e. not (is_located e)) es)
          || has_address a (filter is_located es))
        ≡ has_address a es
  has_address-parts a [] = refl
  has_address-parts a (e ∷ es) = ground (arith, has_address-parts a es)

  find-put_endpoint :
      (a : Text) (e : Endpoint Float) (rows : List (Endpoint Float))
      → text_eq e.address a ≡ false
      → find_endpoint a (put_endpoint e rows) ≡ find_endpoint a rows
  unfolding put_endpoint find_endpoint
  find-put_endpoint a e [] h = ground (arith, h)
  find-put_endpoint a e (x ∷ xs) h =
      ground (arith, h, find-put_endpoint a e xs h, text_eq_iff x.address e.address)

  find-put_located :
      (a : Text) (es rows : List (Endpoint Float))
      → has_address a es ≡ false
      → find_endpoint a (put_located es rows) ≡ find_endpoint a rows
  unfolding put_located
  find-put_located a [] rows h = refl
  find-put_located a (e ∷ es) rows h =
      ground (arith, h, find-put_located a es (put_endpoint e rows), find-put_endpoint a e rows)

  find-add_endpoint :
      (a b : Text) (rows : List (Endpoint Float)) (x : Endpoint Float)
      → find_endpoint a rows ≡ some x
      → find_endpoint a (add_endpoint b rows) ≡ some x
  unfolding add_endpoint find_endpoint
  find-add_endpoint a b [] x h = cc
  find-add_endpoint a b (y ∷ ys) x h = ground (arith, h, find-add_endpoint a b ys x)

  find-add_unlocated :
      (a : Text) (es rows : List (Endpoint Float)) (x : Endpoint Float)
      → find_endpoint a rows ≡ some x
      → find_endpoint a (add_unlocated es rows) ≡ some x
  unfolding add_unlocated
  find-add_unlocated a [] rows x h = h
  find-add_unlocated a (e ∷ es) rows x h =
      find-add_unlocated a es (add_endpoint e.address rows) x
        (find-add_endpoint a e.address rows x h)

module _ {Float : Type 0} (now : ℕ) (domain : Text) (status : DomainStatus)
    (retry_after_seconds : Option ℕ) (endpoints : List (Endpoint Float)) (records : List Record)
    (store : Store Float) where
  records_for-write_measurement :
      (e : Text)
      → records_for e
          (write_measurement now domain status retry_after_seconds endpoints records store).records
        ≡ (if is_failed status || not (text_eq domain e)
            then records_for e store.records
            else map (stored_record now store.min_record_ttl domain) records)
  unfolding write_measurement
  records_for-write_measurement e = elim (Bool-cases (is_failed status)) [
    | inl kept ↦ rw kept refl
    | inr replaced ↦
        rw
          (
            replaced,
            records_for-append e,
            records_for_others domain e store.records,
            records_for_new now store.min_record_ttl domain e records,
          )
          (elim (Bool-cases (text_eq domain e)) [
            | inl same ↦ rw same refl
            | inr apart ↦ rw apart (append-nil {A = StoredRecord} (records_for e store.records))
          ])
  ]

  -- A measurement that has not failed gives each of its endpoints' addresses a row; no other address
  -- gets one, and none loses its own. A failed one changes the addresses with a row not at all.
  pub write_measurement_endpoints :
      (a : Text)
      → has_address a
          (write_measurement now domain status retry_after_seconds endpoints records
            store).endpoints
        ≡ (not (is_failed status) && has_address a endpoints || has_address a store.endpoints)
  unfolding write_measurement
  write_measurement_endpoints a = elim (Bool-cases (is_failed status)) [
    | inl kept ↦ rw kept refl
    | inr stored ↦ rw stored (
        ground (
          arith,
          has_address-add_unlocated a (filter (λ e. not (is_located e)) endpoints)
              (put_located (filter is_located endpoints) store.endpoints),
          has_address-put_located a (filter is_located endpoints) store.endpoints,
          has_address-parts a endpoints,
        ))
  ]

  write_measurement_keeps :
      (a : Text) (x : Endpoint Float)
      → has_address a (filter is_located endpoints) ≡ false
      → find_endpoint a store.endpoints ≡ some x
      → find_endpoint a
          (write_measurement now domain status retry_after_seconds endpoints records
            store).endpoints
        ≡ some x
  unfolding write_measurement
  write_measurement_keeps a x h found = elim (Bool-cases (is_failed status)) [
    | inl kept ↦ rw kept found
    | inr stored ↦ rw stored (
        find-add_unlocated a (filter (λ e. not (is_located e)) endpoints) _ x
          (find-put_located a (filter is_located endpoints) store.endpoints h ∙ found))
  ]

  -- What the transaction leaves: the new tables, or the old ones after an error.
  abbrev pub tables_after : Option (Store Float) → Store Float
  tables_after none = store
  tables_after (some after) = after

  -- A measurement that has failed, or whose records repeat one's type, address and resolver, so that
  -- the transaction is rolled back, keeps the records of every domain. Any other keeps those of every
  -- other domain, and replaces those of its domain by the new ones, in their order and with their TTLs
  -- as received. These are resolved at `now` and expire at the first time that is neither before
  -- their TTL nor before `min_record_ttl` is over.
  pub store_measurement_records :
      (e : Text)
      → let old = records_for e store.records in
        let new =
          records_for e
            (tables_after (
              store_measurement now domain status retry_after_seconds endpoints records
                store)).records in
        ((is_failed status || has_repeats records || not (text_eq domain e)) ≡ true → new ≡ old)
        × ((is_failed status || has_repeats records || not (text_eq domain e)) ≡ false
            → (map received new ≡ records) × All (Lasts now store.min_record_ttl) new)
  unfolding store_measurement
  store_measurement_records e = elim (Bool-cases (not (is_failed status) && has_repeats records)) [
    | inl refused ↦ rw refused (λ kept. refl, λ replaced. ground (arith, refused, replaced))
    | inr accepted ↦ rw accepted (
      (λ kept.
          let same : (is_failed status || not (text_eq domain e)) ≡ true =
            ground (arith, accepted, kept) in
          rw (records_for-write_measurement e, same) refl),
      (λ replaced.
          let changed : (is_failed status || not (text_eq domain e)) ≡ false =
            ground (arith, accepted, replaced) in
          rw (records_for-write_measurement e, changed)
            (
              map-received now store.min_record_ttl domain records,
              All-Lasts now store.min_record_ttl domain records,
            )),
    )
  ]

  -- The row of an address stays as it is when no endpoint of the measurement with that address was
  -- geolocated, whether the transaction is committed or rolled back: what was known of the address is
  -- not lost.
  pub store_measurement_keeps :
      (a : Text) (x : Endpoint Float)
      → has_address a (filter is_located endpoints) ≡ false
      → find_endpoint a store.endpoints ≡ some x
      → find_endpoint a
          (tables_after (
            store_measurement now domain status retry_after_seconds endpoints records
              store)).endpoints
        ≡ some x
  unfolding store_measurement
  store_measurement_keeps a x h found =
      elim (Bool-cases (not (is_failed status) && has_repeats records)) [
        | inl refused ↦ rw refused found
        | inr accepted ↦ rw accepted (write_measurement_keeps a x h found)
      ]
