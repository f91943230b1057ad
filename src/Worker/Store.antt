-- ===== src/Worker/Store.antt =====
-- services/src/cadns/worker/store.py: `store_measurement`, on the rows of cadns.domains,
-- cadns.endpoints and cadns.rrset_records (db/migrations). A domain's name stands for its id, and
-- `Float` for the type of coordinates. The transaction runs at one time `now`, in seconds. Of the
-- constraints that can fail, it has the primary key of the records; the checks on names, types and
-- families of addresses are taken to be met.
pub mod Stored
mod Tests
use ca_dns.Prelude.{
  ℕ, zero, suc, ◌+◌, ◌-◌, ◌*◌, ◌/◌, ◌%◌, ◌^◌, ◌≤◌, ◌<◌, min, max, bit_and, bit_or, ◌≡◌, refl, sym,
  ap, ◌∙◌, ◌≢◌, ◌↔◌, ◌⊎◌, inl, inr, Bool, true, false, not, ◌&&◌, ◌||◌, Option, none, some, List,
  [], ◌∷◌, ◌++◌, map, append-nil, append_assoc, arith, ltb, leb, ◌==◌, if◌then◌else◌, ltb→lt,
  leb→le, ==_iff, Bool-cases, Option-cases, length, take, drop, any, all, filter, All,
  length-append, length-drop, length-take, All-append, take-length_append, drop-length_append,
  length-filter_le,
}
use ca_dns.Prelude.Text.{Text, text_eq}
use ca_dns.Worker.Pipeline.{DomainStatus, resolved, no_domain, no_data, failed, Record}

pub record Endpoint (Float : Type 0) : Type 0 where
  pub address : Text
  pub lat : Option Float
  pub lon : Option Float
  pub city : Option Text
  pub country : Option Text
  pub asn : Option ℕ
  pub is_anycast : Bool
  pub region_code : Option Text
  pub geo_source : Option Text
  pub geo_updated_at : Option ℕ

pub record DomainRow : Type 0 where
  pub name : Text
  pub status : DomainStatus
  pub measured_at : ℕ
  pub retry_after : Option ℕ

pub record StoredRecord : Type 0 where
  pub domain : Text
  pub rtype : Text
  pub address : Text
  pub resolver : Text
  pub ttl : ℕ
  pub resolved_at : ℕ
  pub expires_at : ℕ

pub record Store (Float : Type 0) : Type 0 where
  pub domains : List DomainRow
  pub endpoints : List (Endpoint Float)
  pub records : List StoredRecord
  pub min_record_ttl : ℕ

-- INSERT of the domain ON CONFLICT DO UPDATE: the new values are all that is read here of the row.
unfoldable pub put_domain : DomainRow → List DomainRow → List DomainRow
put_domain row [] = row ∷ []
put_domain row (d ∷ ds) =
    let rest = put_domain row ds in if text_eq d.name row.name then row ∷ ds else d ∷ rest

-- `now() + make_interval(secs => …)`, NULL for no interval.
abbrev pub after : ℕ → Option ℕ → Option ℕ
after now none = none
after now (some seconds) = some (now + seconds)

abbrev pub is_failed : DomainStatus → Bool
is_failed status = elim status [
  | resolved ↦ false
  | no_domain ↦ false
  | no_data ↦ false
  | failed ↦ true
]

abbrev pub stored_record : ℕ → ℕ → Text → Record → StoredRecord
stored_record now min_ttl domain r = record {
  domain = domain;
  rtype = r.rtype;
  address = r.address;
  resolver = r.resolver;
  ttl = r.ttl;
  resolved_at = now;
  expires_at = now + max r.ttl min_ttl;
}

-- The primary key of cadns.rrset_records, within one domain.
abbrev pub same_key : Record → Record → Bool
same_key a b =
    text_eq a.rtype b.rtype && text_eq a.address b.address && text_eq a.resolver b.resolver

unfoldable pub has_repeats : List Record → Bool
has_repeats [] = false
has_repeats (r ∷ rs) = let others = has_repeats rs in any (same_key r) rs || others

module _ {Float : Type 0} where
  abbrev pub is_located : Endpoint Float → Bool
  is_located e = elim e.geo_updated_at [ none ↦ false | some at ↦ true ]

  -- ON CONFLICT (address) DO UPDATE of every other column.
  unfoldable pub put_endpoint : Endpoint Float → List (Endpoint Float) → List (Endpoint Float)
  put_endpoint e [] = e ∷ []
  put_endpoint e (x ∷ xs) =
      let rest = put_endpoint e xs in if text_eq x.address e.address then e ∷ xs else x ∷ rest

  -- A row of the column defaults.
  abbrev pub bare_endpoint : Text → Endpoint Float
  bare_endpoint address = record {
    address = address;
    lat = none;
    lon = none;
    city = none;
    country = none;
    asn = none;
    is_anycast = false;
    region_code = none;
    geo_source = none;
    geo_updated_at = none;
  }

  -- ON CONFLICT DO NOTHING.
  unfoldable pub add_endpoint : Text → List (Endpoint Float) → List (Endpoint Float)
  add_endpoint address [] = bare_endpoint address ∷ []
  add_endpoint address (x ∷ xs) =
      let rest = add_endpoint address xs in if text_eq x.address address then x ∷ xs else x ∷ rest

  unfoldable pub put_located : List (Endpoint Float) → List (Endpoint Float) → List (Endpoint Float)
  unfolding put_endpoint
  put_located [] rows = rows
  put_located (e ∷ es) rows = put_located es (put_endpoint e rows)

  unfoldable pub add_unlocated :
      List (Endpoint Float) → List (Endpoint Float) → List (Endpoint Float)
  unfolding add_endpoint
  add_unlocated [] rows = rows
  add_unlocated (e ∷ es) rows = add_unlocated es (add_endpoint e.address rows)

  -- The statements of `store_measurement`, when they meet the constraints of the tables.
  unfoldable pub write_measurement :
      ℕ
      → Text
      → DomainStatus
      → Option ℕ
      → List (Endpoint Float)
      → List Record
      → Store Float
      → Store Float
  unfolding put_domain put_located add_unlocated
  write_measurement now domain status retry_after_seconds endpoints records store =
      let row : DomainRow = record {
        name = domain;
        status = status;
        measured_at = now;
        retry_after = after now retry_after_seconds;
      } in
      let domains = put_domain row store.domains in
      let located = put_located (filter is_located endpoints) store.endpoints in
      let known = add_unlocated (filter (λ e. not (is_located e)) endpoints) located in
      let others = filter (λ (r : StoredRecord). not (text_eq r.domain domain)) store.records in
      if is_failed status then record store { domains = domains } else record store {
        domains = domains;
        endpoints = known;
        records = others ++ map (stored_record now store.min_record_ttl domain) records;
      }

  -- The transaction; `none` is the error of the primary key of cadns.rrset_records, after which the
  -- tables are as before.
  unfoldable pub store_measurement :
      ℕ
      → Text
      → DomainStatus
      → Option ℕ
      → List (Endpoint Float)
      → List Record
      → Store Float
      → Option (Store Float)
  unfolding write_measurement has_repeats
  store_measurement now domain status retry_after_seconds endpoints records store =
      if not (is_failed status) && has_repeats records
      then none
      else some (write_measurement now domain status retry_after_seconds endpoints records store)
