-- ===== src/Monitor/Signals/Due.antt =====
-- Slots, and which regions a refresh leaves alone.
use native.Mathlib.Nat.{div-add-mod, mod-lt, mul-mod_right}
use ca_dns.Prelude.{
  ℕ, ◌+◌, ◌-◌, ◌*◌, ◌/◌, ◌%◌, ◌≤◌, ◌<◌, ◌≡◌, refl, sym, ap, ◌∙◌, ◌⊎◌, inl, inr, false, Option, none,
  some, List, [], ◌∷◌, ◌++◌, arith, if◌then◌else◌, Bool-cases, Option-cases, any,
}
use ca_dns.Prelude.Text.{Text, text_eq, text_eq_refl, text_eq_iff}
use ca_dns.Prelude.Sort.{In}
use ca_dns.Prelude.Sorted.{In-filter}
use ca_dns.Prelude.Any.{any-none}
use ca_dns.Carbon.Calls.{
  Signal, Got, got, empty, watttime_error, Point, current_moer, current_moer-region,
}
use ca_dns.Carbon.{Response, Server, Client}
use ca_dns.Worker.Store.{Endpoint, StoredRecord}
use ca_dns.Monitor.Freshness.{DomainTimes}
use ca_dns.Monitor.Signals.{
  slot_start, SignalRow, lacks_point, CarbonRefresh, later, latest_point, save_signal, regions_due,
  refresh_region, refresh_regions, refresh_carbon,
}

-- The slot of `now` starts at a multiple of the period, not after `now` and less than a period before
-- it.
pub slot_start_bounds :
    (now period_seconds : ℕ)
    → 0 < period_seconds
    → (slot_start now period_seconds % period_seconds ≡ 0)
      × (slot_start now period_seconds ≤ now)
      × (now < slot_start now period_seconds + period_seconds)
unfolding slot_start
slot_start_bounds now period_seconds pos =
    let split : period_seconds * (now / period_seconds) + now % period_seconds ≡ now =
      div-add-mod now period_seconds in
    let start : now - now % period_seconds ≡ period_seconds * (now / period_seconds) =
      omega (arith, split) in
    let short : now % period_seconds < period_seconds = mod-lt now pos in
    (
      rw start (mul-mod_right period_seconds (now / period_seconds)),
      omega arith,
      omega (arith, short),
    )

In-append→ : {A : Type 0} (x : A) (xs ys : List A) → In x (xs ++ ys) → In x xs ⊎ In x ys
In-append→ x [] ys h = inr h
In-append→ x (z ∷ zs) ys (inl e) = inl (inl e)
In-append→ x (z ∷ zs) ys (inr h) = elim (In-append→ x zs ys h) [
  | inl a ↦ inl (inr a)
  | inr b ↦ inr b
]

known_since :
    (slot t : ℕ) (o : Option ℕ) → slot ≤ t → lacks_point t o ≡ false → lacks_point slot o ≡ false
known_since slot t none le h = h
known_since slot t (some u) le h = ground (arith, le, h)

later_comm : (a b : ℕ) (o : Option ℕ) → later a (later b o) ≡ later b (later a o)
later_comm a b none = ap some (omega arith)
later_comm a b (some c) = ap some (omega arith)

later_idem : (a : ℕ) (o : Option ℕ) → later a (later a o) ≡ later a o
later_idem a none = ap some (omega arith)
later_idem a (some c) = ap some (omega arith)

module _ {Float : Type 0} where
  -- A saved point counts among its region's.
  latest-save_signal :
      (now : ℕ) (signal : Signal Float) (signals : List (SignalRow Float)) (code : Text)
      → latest_point code (save_signal now signal signals) ≡ (
          if text_eq signal.region code
          then later signal.point_time (latest_point code signals)
          else latest_point code signals)
  unfolding latest_point save_signal
  latest-save_signal now signal [] code = refl
  latest-save_signal now signal (s ∷ ss) code = ground (
    arith,
    latest-save_signal now signal ss code,
    text_eq_iff s.region_code signal.region,
    text_eq_iff s.region_code code,
    text_eq_iff signal.region code,
    later_comm s.point_time signal.point_time (latest_point code ss),
    later_idem s.point_time (latest_point code ss),
  )

  save_signal-keeps :
      (now : ℕ) (signal : Signal Float) (signals : List (SignalRow Float)) (slot : ℕ) (code : Text)
      → lacks_point slot (latest_point code signals) ≡ false
      → lacks_point slot (latest_point code (save_signal now signal signals)) ≡ false
  save_signal-keeps now signal signals slot code h =
      rw (latest-save_signal now signal signals code)
        (elim (Option-cases (latest_point code signals)) [
          | inl e ↦ absurd (ground (arith, h, e))
          | inr (latest, e) ↦ rw e (ground (arith, (rw e at h)))
        ])

  save_signal-adds :
      (now : ℕ) (signal : Signal Float) (signals : List (SignalRow Float)) (code : Text)
      → signal.region ≡ code
      → lacks_point signal.point_time (latest_point code (save_signal now signal signals)) ≡ false
  save_signal-adds now signal signals code e =
      rw (latest-save_signal now signal signals code, e, text_eq_refl code)
        (elim (Option-cases (latest_point code signals)) [
          | inl e ↦ rw e (ground arith)
          | inr (latest, e) ↦ rw e (ground arith)
        ])

module _ {Float State : Type 0} (current_moer : Text → State → Got (Signal Float) × State) (now : ℕ)
    (skip : List Text)
    (honest : (code : Text) (client : State) (signal : Signal Float)
      → (current_moer code client).0 ≡ got signal
      → signal.region ≡ code) where
  -- What is reported as stored is in the table.
  abbrev Recorded : CarbonRefresh Float State → Type 0
  Recorded r =
      (code : Text) (t : ℕ)
      → In (code, t) r.stored
      → lacks_point t (latest_point code r.signals) ≡ false

  refresh_region-Recorded :
      (code : Text) (r : CarbonRefresh Float State)
      → Recorded r
      → Recorded (refresh_region current_moer now skip code r)
  unfolding refresh_region
  refresh_region-Recorded code r h = elim (Bool-cases (any (text_eq code) skip)) [
    | inl e ↦ rw e h
    | inr e ↦ rw e (on (current_moer code r.client).0 refl)
  ]
    where
      on :
          (result : Got (Signal Float))
          → (current_moer code r.client).0 ≡ result
          → Recorded (elim result [
            | watttime_error ↦ record r { client = (current_moer code r.client).1 }
            | empty ↦ record r {
              unavailable = r.unavailable ++ (code ∷ []);
              client = (current_moer code r.client).1;
            }
            | got signal ↦ record r {
              stored = r.stored ++ ((code, signal.point_time) ∷ []);
              signals = save_signal now signal r.signals;
              client = (current_moer code r.client).1;
            }
          ])
      on watttime_error e = h
      on empty e = h
      on (got signal) e = λ c t there. elim (In-append→ (c, t) r.stored _ there) [
        | inl old ↦ save_signal-keeps now signal r.signals t c (h c t old)
        | inr (inl same) ↦
            let at : code ≡ c = ap (λ (p : Text × ℕ). p.0) (sym same) in
            let when : signal.point_time ≡ t = ap (λ (p : Text × ℕ). p.1) (sym same) in
            rw (← when)
              (save_signal-adds now signal r.signals c (honest code r.client signal e ∙ at))
        | inr (inr nothing) ↦ absurd nothing
      ]

  refresh_regions-Recorded :
      (codes : List Text) (r : CarbonRefresh Float State)
      → Recorded r
      → Recorded (refresh_regions current_moer now skip codes r)
  unfolding refresh_regions
  refresh_regions-Recorded [] r h = h
  refresh_regions-Recorded (c ∷ cs) r h =
      refresh_regions-Recorded cs (refresh_region current_moer now skip c r)
        (refresh_region-Recorded c r h)

  -- For any client that answers for the region that it is asked for.
  honest_settles :
      (window period : ℕ) (domains : List DomainTimes) (records : List StoredRecord)
      (endpoints : List (Endpoint Float)) (signals : List (SignalRow Float)) (client : State)
      (code : Text) (point_time later_now window' : ℕ) (domains' : List DomainTimes)
      (records' : List StoredRecord) (endpoints' : List (Endpoint Float))
      → In
          (code, point_time)
          (refresh_carbon current_moer now skip window period domains records endpoints signals
            client).stored
      → slot_start later_now period ≤ point_time
      → any (text_eq code) (
          regions_due later_now window' period domains' records' endpoints'
            (refresh_carbon current_moer now skip window period domains records endpoints signals
              client).signals)
        ≡ false
  unfolding refresh_carbon regions_due
  honest_settles window period domains records endpoints signals client code point_time later_now
        window' domains' records' endpoints' there current =
      let due = regions_due now window period domains records endpoints signals in
      let start : CarbonRefresh Float State = record {
        stored = [];
        unavailable = [];
        signals = signals;
        client = client;
      } in
      let known =
        refresh_regions-Recorded due start (λ c t nothing. absurd nothing) code point_time there in
      any-none (text_eq code) _ (λ other listed.
        let (_, lacks) =
          In-filter
            (λ c.
              lacks_point (slot_start later_now period)
                (latest_point c (refresh_regions current_moer now skip due start).signals))
            _ other listed in
        elim (Bool-cases (text_eq code other)) [
          | inl same ↦ absurd (
              ground (
                arith,
                lacks,
                known_since (slot_start later_now period) point_time
                    (latest_point code (refresh_regions current_moer now skip due start).signals)
                    current known,
                (text_eq_iff code other).0 same,
              ))
          | inr apart ↦ apart
        ])

-- A region whose point a refresh by the WattTime client has stored, whatever the servers reply, is
-- not due again, at whatever time, activity and endpoints, as long as the slot does not start after
-- that point.
pub refresh_carbon_settles :
    {Float : Type 0} (from_pounds : Float → Float) (read : Response → Option (Point Float))
    (server : Text → Server) (interval now : ℕ) (skip : List Text) (window period : ℕ)
    (domains : List DomainTimes) (records : List StoredRecord) (endpoints : List (Endpoint Float))
    (signals : List (SignalRow Float)) (client : Client) (code : Text)
    (point_time later_now window' : ℕ) (domains' : List DomainTimes) (records' : List StoredRecord)
    (endpoints' : List (Endpoint Float))
    → let moer =
        λ (code : Text) (c : Client). current_moer from_pounds read (server code) code interval c in
      let refreshed =
        refresh_carbon moer now skip window period domains records endpoints signals client in
      In (code, point_time) refreshed.stored
      → slot_start later_now period ≤ point_time
      → any
          (text_eq code)
          (regions_due later_now window' period domains' records' endpoints' refreshed.signals)
        ≡ false
refresh_carbon_settles from_pounds read server interval now skip window period domains records
      endpoints signals client code point_time later_now window' domains' records' endpoints' =
    honest_settles (λ code c. current_moer from_pounds read (server code) code interval c) now skip
      (λ code c signal. current_moer-region from_pounds read (server code) code interval c signal)
      window period domains records endpoints signals client code point_time later_now window'
      domains' records' endpoints'
