-- ===== src/Monitor/Signals.antt =====
-- services/src/cadns/monitor/tasks.py, the carbon refresh: `slot_start`, `regions_due` and
-- `refresh_carbon`, with `save_signal` of worker/store.py. `Float` is the type of MOER values.
pub mod Due
use ca_dns.Prelude.{
  ℕ, zero, suc, ◌+◌, ◌-◌, ◌*◌, ◌/◌, ◌%◌, ◌^◌, ◌≤◌, ◌<◌, min, max, bit_and, bit_or, ◌≡◌, refl, sym,
  ap, ◌∙◌, ◌≢◌, ◌↔◌, ◌⊎◌, inl, inr, Bool, true, false, not, ◌&&◌, ◌||◌, Option, none, some, List,
  [], ◌∷◌, ◌++◌, map, append-nil, append_assoc, arith, ltb, leb, ◌==◌, if◌then◌else◌, ltb→lt,
  leb→le, ==_iff, Bool-cases, Option-cases, length, take, drop, any, all, filter, All,
  length-append, length-drop, length-take, All-append, take-length_append, drop-length_append,
  length-filter_le,
}
use ca_dns.Prelude.Text.{Text, text_eq}
use ca_dns.Prelude.Sort.{sorted_set}
use ca_dns.Carbon.Calls.{Got, got, empty, watttime_error, Signal}
use ca_dns.Worker.Store.{StoredRecord, Endpoint}
use ca_dns.Monitor.Freshness.{DomainTimes, is_active}

-- `now - now % period`
unfoldable pub slot_start : ℕ → ℕ → ℕ
slot_start now period_seconds = now - now % period_seconds

-- A row of cadns.carbon_signals.
pub record SignalRow (Float : Type 0) : Type 0 where
  pub region_code : Text
  pub point_time : ℕ
  pub moer_g_per_kwh : Float
  pub fetched_at : ℕ

-- The addresses that the records of active domains have.
abbrev pub active_names : ℕ → ℕ → List DomainTimes → List Text
active_names now window_seconds domains =
    map (λ (d : DomainTimes). d.name)
      (filter (λ (d : DomainTimes). is_active now window_seconds d.last_queried_at) domains)

abbrev pub active_addresses : ℕ → ℕ → List DomainTimes → List StoredRecord → List Text
active_addresses now window_seconds domains records =
    map (λ (r : StoredRecord). r.address)
      (filter
        (λ (r : StoredRecord). any (text_eq r.domain) (active_names now window_seconds domains))
        records)

-- `latest IS NULL OR latest < slot`
abbrev pub lacks_point : ℕ → Option ℕ → Bool
lacks_point slot none = true
lacks_point slot (some latest) = ltb latest slot

-- `CarbonRefresh`, with the table that the refresh leaves and the state of the WattTime client.
pub record CarbonRefresh (Float State : Type 0) : Type 0 where
  pub stored : List (Text × ℕ)
  pub unavailable : List Text
  pub signals : List (SignalRow Float)
  pub client : State

-- `max` with a value that may be NULL.
abbrev pub later : ℕ → Option ℕ → Option ℕ
later t none = some t
later t (some other) = some (max t other)

module _ {Float : Type 0} where
  -- `max(point_time)` of a region, NULL without rows.
  unfoldable pub latest_point : Text → List (SignalRow Float) → Option ℕ
  latest_point code [] = none
  latest_point code (s ∷ ss) =
      let rest = latest_point code ss in
      if text_eq s.region_code code then later s.point_time rest else rest

  -- INSERT of a signal ON CONFLICT (region_code, point_time) DO UPDATE.
  unfoldable pub save_signal : ℕ → Signal Float → List (SignalRow Float) → List (SignalRow Float)
  save_signal now signal [] =
      record {
        region_code = signal.region;
        point_time = signal.point_time;
        moer_g_per_kwh = signal.moer_g_per_kwh;
        fetched_at = now;
      }
      ∷ []
  save_signal now signal (s ∷ ss) =
      let rest = save_signal now signal ss in
      if text_eq s.region_code signal.region && s.point_time == signal.point_time
      then record s { moer_g_per_kwh = signal.moer_g_per_kwh; fetched_at = now } ∷ ss
      else s ∷ rest

  -- The region of an endpoint that is not anycast, for one of the addresses.
  unfoldable pub served_regions : List Text → List (Endpoint Float) → List Text
  served_regions addresses [] = []
  served_regions addresses (e ∷ es) =
      let rest = served_regions addresses es in
      elim e.region_code [
        | none ↦ rest
        | some code ↦
            if not e.is_anycast && any (text_eq e.address) addresses then code ∷ rest else rest
      ]

  unfoldable pub regions_due :
      ℕ
      → ℕ
      → ℕ
      → List DomainTimes
      → List StoredRecord
      → List (Endpoint Float)
      → List (SignalRow Float)
      → List Text
  unfolding served_regions slot_start latest_point
  regions_due now window_seconds period_seconds domains records endpoints signals =
      let addresses = active_addresses now window_seconds domains records in
      filter (λ code. lacks_point (slot_start now period_seconds) (latest_point code signals))
        (sorted_set (served_regions addresses endpoints))

  module _ {State : Type 0} (current_moer : Text → State → Got (Signal Float) × State) (now : ℕ)
      (skip : List Text) where
    -- One round of the loop of `refresh_carbon`, for a region.
    unfoldable pub refresh_region : Text → CarbonRefresh Float State → CarbonRefresh Float State
    unfolding save_signal
    refresh_region code r =
        let (result, client) = current_moer code r.client in
        if any (text_eq code) skip then r else elim result [
          | watttime_error ↦ record r { client = client }
          | empty ↦ record r { unavailable = r.unavailable ++ (code ∷ []); client = client }
          | got signal ↦ record r {
            stored = r.stored ++ ((code, signal.point_time) ∷ []);
            signals = save_signal now signal r.signals;
            client = client;
          }
        ]

    unfoldable pub refresh_regions :
        List Text → CarbonRefresh Float State → CarbonRefresh Float State
    unfolding refresh_region
    refresh_regions [] r = r
    refresh_regions (code ∷ codes) r = refresh_regions codes (refresh_region code r)

    -- Times of the database's clock (`fetched_at`) are taken to be `now`.
    unfoldable pub refresh_carbon :
        ℕ
        → ℕ
        → List DomainTimes
        → List StoredRecord
        → List (Endpoint Float)
        → List (SignalRow Float)
        → State
        → CarbonRefresh Float State
    unfolding refresh_regions regions_due
    refresh_carbon window_seconds period_seconds domains records endpoints signals client =
        refresh_regions
          (regions_due now window_seconds period_seconds domains records endpoints signals)
          (record { stored = []; unavailable = []; signals = signals; client = client })
