-- ===== src/Monitor/Freshness/Listed.antt =====
-- Which domains the expiry scan lists and queues.
use mathlib.Core.Option.{some-injective}
use native.Mathlib.Decide.{dec_le}
use ca_dns.Prelude.{
  ℕ, ◌+◌, ◌≤◌, ◌<◌, min, ◌≡◌, refl, sym, ◌∙◌, ◌↔◌, inl, inr, true, ◌&&◌, some, List, [], ◌∷◌, map,
  arith, ltb, if◌then◌else◌, Bool-cases, Option-cases, any,
}
use ca_dns.Prelude.Text.{Text, text_eq, text_eq_iff}
use ca_dns.Prelude.Sort.{sorted_set, In}
use ca_dns.Prelude.Sorted.{In-map, map-In, In-sort_by, sort_by-In}
use ca_dns.Prelude.Sets.{In-listed, In-sorted_set}
use ca_dns.Queue.{Table, expired}
use ca_dns.Queue.Rows.{upserted, find}
use ca_dns.Queue.Enqueue.{enqueue_rows}
use ca_dns.Worker.Store.{StoredRecord}
use ca_dns.Monitor.Freshness.{
  FreshnessPolicy, DomainTimes, records_of, latest_expiry, first_expiry, served_until,
  may_remeasure, sooner, expiring_rows, expiring_domains, scan_expiring,
}

-- Every record of the type expires before `limit`.
abbrev pub Expires : ℕ → Text → List StoredRecord → Type 0
Expires limit rtype records =
    (r : StoredRecord) → In r records → r.rtype ≡ rtype → r.expires_at < limit

-- Some type has records, and all of them expire before `limit`.
abbrev pub SomeExpires : ℕ → List StoredRecord → Type 0
SomeExpires limit records = (r : StoredRecord) × In r records × Expires limit r.rtype records

-- The name is that of an active domain that may be measured again, some type of whose records
-- expires altogether before the lead time is over.
abbrev pub Expiring : ℕ → FreshnessPolicy → List StoredRecord → List DomainTimes → Text → Type 0
Expiring now policy records domains name =
    (d : DomainTimes) × In d domains
    × (d.name ≡ name)
    × (may_remeasure now policy d ≡ true)
    × SomeExpires (now + policy.lead_seconds) (records_of name records)

latest_expiry-le :
    (rtype : Text) (records : List StoredRecord) (r : StoredRecord)
    → In r records
    → r.rtype ≡ rtype
    → r.expires_at ≤ latest_expiry rtype records
unfolding latest_expiry
latest_expiry-le rtype [] r there e = absurd there
latest_expiry-le rtype (x ∷ xs) r (inl same) e = ground (arith, same, e, text_eq_iff x.rtype rtype)
latest_expiry-le rtype (x ∷ xs) r (inr there) e =
    ground (arith, latest_expiry-le rtype xs r there e)

latest_expiry_lt :
    (rtype : Text) (records : List StoredRecord) (limit : ℕ)
    → 0 < limit
    → Expires limit rtype records
    → latest_expiry rtype records < limit
unfolding latest_expiry
latest_expiry_lt rtype [] limit pos h = pos
latest_expiry_lt rtype (x ∷ xs) limit pos h = ground (
  arith,
  latest_expiry_lt rtype xs limit pos (λ r there e. h r (inr there) e),
  h x (inl refl),
  text_eq_iff x.rtype rtype,
)

-- The first expiry is that of some listed type, and none is sooner.
first_expiry-le :
    (records : List StoredRecord) (rtypes : List Text) (rtype : Text)
    → In rtype rtypes
    → (until : ℕ) × (first_expiry records rtypes ≡ some until)
      × (until ≤ latest_expiry rtype records)
unfolding first_expiry
first_expiry-le records [] rtype there = absurd there
first_expiry-le records (t ∷ ts) rtype (inl same) = elim (Option-cases (first_expiry records ts)) [
  | inl e ↦ rw (same, e, first_expiry) (latest_expiry t records, refl, omega arith)
  | inr (rest, e) ↦
      rw (same, e, first_expiry) (min (latest_expiry t records) rest, refl, omega arith)
]
first_expiry-le records (t ∷ ts) rtype (inr there) =
    let (rest, e, le) = first_expiry-le records ts rtype there in
    rw (e, first_expiry) (min (latest_expiry t records) rest, refl, omega (arith, le))

first_expiry_attained :
    (records : List StoredRecord) (rtypes : List Text) (until : ℕ)
    → first_expiry records rtypes ≡ some until
    → (rtype : Text) × In rtype rtypes × (until ≡ latest_expiry rtype records)
unfolding first_expiry
first_expiry_attained records [] until h = cc
first_expiry_attained records (t ∷ ts) until h = elim (Option-cases (first_expiry records ts)) [
  | inl e ↦ (t, inl refl, sym (some-injective _ _ (rw (e, first_expiry) at h)))
  | inr (rest, e) ↦
      let (rtype, there, same) = first_expiry_attained records ts rest e in
      let least : min (latest_expiry t records) rest ≡ until =
        some-injective _ _ (rw (e, first_expiry) at h) in
      elim (dec_le (latest_expiry t records) rest) [
        | yes le ↦ (t, inl refl, omega (arith, least, le))
        | no gt ↦ (rtype, inr there, omega (arith, least, gt, same))
      ]
]

abbrev types_of : List StoredRecord → List Text
types_of records = map (λ (r : StoredRecord). r.rtype) records

SomeExpires-served :
    (domain : Text) (records : List StoredRecord) (limit : ℕ)
    → SomeExpires limit (records_of domain records)
    → (until : ℕ) × (served_until domain records ≡ some until) × (until < limit)
unfolding served_until
SomeExpires-served domain records limit (r, there, all_expire) =
    let own = records_of domain records in
    let listed =
      (In-sorted_set r.rtype (types_of own)).1
        (map-In (λ (r : StoredRecord). r.rtype) own r there) in
    let (until, e, le) = first_expiry-le own (sorted_set (types_of own)) r.rtype listed in
    let pos : r.expires_at < limit = all_expire r there refl in
    (
      until,
      e,
      omega (arith, le, latest_expiry_lt r.rtype own limit (omega (arith, pos)) all_expire),
    )

served-SomeExpires :
    (domain : Text) (records : List StoredRecord) (limit until : ℕ)
    → served_until domain records ≡ some until
    → until < limit
    → SomeExpires limit (records_of domain records)
unfolding served_until
served-SomeExpires domain records limit until h lt =
    let own = records_of domain records in
    let (rtype, there, same) = first_expiry_attained own (sorted_set (types_of own)) until h in
    let (r, mine, e) =
      In-map (λ (r : StoredRecord). r.rtype) own rtype
        ((In-sorted_set rtype (types_of own)).0 there) in
    (
      r,
      mine,
      λ x listed kind. omega (arith, lt, same, latest_expiry-le rtype own x listed (kind ∙ sym e)),
    )

module _ (now : ℕ) (policy : FreshnessPolicy) (records : List StoredRecord) where
  abbrev limit : ℕ
  limit = now + policy.lead_seconds

  weaken :
      (d : DomainTimes) (ds : List DomainTimes) (name : Text)
      → Expiring now policy records ds name
      → Expiring now policy records (d ∷ ds) name
  weaken d ds name (x, there, same, may, expire) = (x, inr there, same, may, expire)

  expiring→ :
      (domains : List DomainTimes) (row : ℕ × Text)
      → In row (expiring_rows now policy records domains)
      → Expiring now policy records domains row.1
  unfolding expiring_rows
  expiring→ [] row there = absurd there
  expiring→ (d ∷ ds) row there = elim (Option-cases (served_until d.name records)) [
    | inl e ↦ weaken d ds row.1 (expiring→ ds row (rw (e, expiring_rows) at there))
    | inr (until, e) ↦ elim (Bool-cases (may_remeasure now policy d && ltb until limit)) [
      | inl k ↦ elim (rw (e, expiring_rows, k) at there) [
        | inl same ↦
            let may : may_remeasure now policy d ≡ true = ground (arith, k) in
            let lt : until < limit = ground (arith, k) in
            rw same (d, inl refl, refl, may, served-SomeExpires d.name records limit until e lt)
        | inr later ↦ weaken d ds row.1 (expiring→ ds row later)
      ]
      | inr k ↦ weaken d ds row.1 (expiring→ ds row (rw (e, expiring_rows, k) at there))
    ]
  ]

  →expiring :
      (domains : List DomainTimes) (d : DomainTimes) (until : ℕ)
      → In d domains
      → may_remeasure now policy d ≡ true
      → served_until d.name records ≡ some until
      → until < limit
      → In (until, d.name) (expiring_rows now policy records domains)
  unfolding expiring_rows
  →expiring [] d until there may served lt = absurd there
  →expiring (x ∷ xs) d until (inl same) may served lt =
      let k : (may_remeasure now policy x && ltb until limit) ≡ true =
        ground (arith, (rw same at may), lt) in
      let found : served_until x.name records ≡ some until = rw same at served in
      rw (same, found, expiring_rows, k) (inl refl)
  →expiring (x ∷ xs) d until (inr there) may served lt =
      let later = →expiring xs d until there may served lt in
      elim (Option-cases (served_until x.name records)) [
        | inl e ↦ rw (e, expiring_rows) later
        | inr (u, e) ↦ elim (Bool-cases (may_remeasure now policy x && ltb u limit)) [
          | inl k ↦ rw (e, expiring_rows, k) (inr later)
          | inr k ↦ rw (e, expiring_rows, k) later
        ]
      ]

  -- The scan lists a name exactly when it is that of an active domain that may be measured again and
  -- some type of whose records expires altogether before the lead time is over.
  pub expiring_domains_iff :
      (domains : List DomainTimes) (name : Text)
      → (any (text_eq name) (expiring_domains now policy records domains) ≡ true)
        ↔ Expiring now policy records domains name
  unfolding expiring_domains
  expiring_domains_iff domains name = (
    λ h.
        let there = (In-listed name _).0 h in
        let (row, listed, e) = In-map (λ (row : ℕ × Text). row.1) _ name there in
        rw e (expiring→ domains row (In-sort_by sooner _ row listed)),
    λ (d, there, same, may, some_expires).
        let (until, e, lt) = SomeExpires-served name records limit some_expires in
        let listed = →expiring domains d until there may (rw (sym same) at e) lt in
        (In-listed name _).1 (
          rw (← same)
            (map-In (λ (row : ℕ × Text). row.1) _ (until, d.name) (sort_by-In sooner _ _ listed))),
  )

  -- `scan_expiring` puts a domain on the queue exactly when the scan lists it and the queue has no row
  -- for it, or a dead one whose cooldown is over; every other row of the queue stays as it is.
  pub scan_expiring_rows :
      (domains : List DomainTimes) (queue : Table) (name : Text)
      → (any (text_eq name) (scan_expiring now policy records domains queue).queued ≡ (
          any (text_eq name) (expiring_domains now policy records domains)
          && (upserted now expired name (find name queue)).0))
        × (find name (scan_expiring now policy records domains queue).table ≡ (
            if any (text_eq name) (expiring_domains now policy records domains)
            then some (upserted now expired name (find name queue)).1
            else find name queue))
  unfolding scan_expiring
  scan_expiring_rows domains queue name =
      let (row, queued, _) =
        enqueue_rows now (expiring_domains now policy records domains) expired queue name in
      (queued, row)
