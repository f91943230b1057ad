-- ===== src/Worker/Assign.antt =====
-- services/src/cadns/worker/pipeline.py: `_assign_regions`, `_region` and `_refresh_signals`. The
-- WattTime client is a function on its state `Client`; its calls are made in order.
use ca_dns.Prelude.{ℕ, not, Option, none, some, List, [], ◌∷◌, map, any, filter}
use ca_dns.Prelude.Text.{Text}
use ca_dns.Prelude.Int.{ℤ}
use ca_dns.Carbon.Calls.{Region, Signal, Got, got, empty, watttime_error}
use ca_dns.Worker.Store.{Endpoint}
use ca_dns.Monitor.Signals.{SignalRow, save_signal}
use ca_dns.Worker.Regions.{
  Key, same_key, key_set, RegionMap, cached_regions, code_of, Caches, save_region,
  regions_needing_signal, wanted_keys, set_region,
}

-- The answers of the client about keys, in their order. `none` is an error, `some none` no region.
abbrev pub answer_of : Got Region → Option (Option Region)
answer_of (got region) = some (some region)
answer_of empty = some none
answer_of watttime_error = none

module _ {Client : Type 0} (region_for : Key → Client → Got Region × Client) where
  unfoldable pub ask_regions : List Key → Client → List (Key × Option (Option Region)) × Client
  ask_regions [] client = ([], client)
  ask_regions (key ∷ keys) client =
      let (answer, client') = region_for key client in
      let (answers, client'') = ask_regions keys client' in
      ((key, answer_of answer) ∷ answers, client'')

module _ {Float : Type 0} where
  -- The loop over the answers: each one that is no error is saved and put into the dictionary.
  unfoldable pub save_regions :
      ℕ → List (Key × Option (Option Region)) → RegionMap → Caches Float → RegionMap × Caches Float
  unfolding save_region
  save_regions now [] regions caches = (regions, caches)
  save_regions now ((key, none) ∷ answers) regions caches = save_regions now answers regions caches
  save_regions now ((key, some region) ∷ answers) regions caches =
      save_regions now answers ((key, code_of region) ∷ regions) (save_region now key region caches)

  module _ {Client : Type 0} (to_e2 : Float → ℤ)
      (region_for : Option (Key → Client → Got Region × Client)) where
    -- The dictionary that `_assign_regions` fills; `region_for` is `none` without a client.
    unfoldable pub lookup_regions :
        ℕ → ℕ → List (Endpoint Float) → Caches Float → Client → RegionMap × Caches Float × Client
    unfolding ask_regions save_regions cached_regions key_set wanted_keys
    lookup_regions now negative_days endpoints caches client =
        let keys = key_set (wanted_keys to_e2 endpoints) in
        let cached = cached_regions now keys negative_days caches.locations in
        elim region_for [
          | none ↦ (cached, caches, client)
          | some ask ↦
              let unknown =
                filter
                  (λ key. not (any (λ (entry : Key × Option Text). same_key entry.0 key) cached))
                  keys in
              let (answers, client') = ask_regions ask unknown client in
              let (regions, caches') = save_regions now answers cached caches in
              (regions, caches', client')
        ]

    unfoldable pub assign_regions :
        ℕ
        → ℕ
        → List (Endpoint Float)
        → Caches Float
        → Client
        → List (Endpoint Float) × Caches Float × Client
    unfolding lookup_regions
    assign_regions now negative_days endpoints caches client =
        let (regions, caches', client') =
          lookup_regions now negative_days endpoints caches client in
        (map (set_region to_e2 regions) endpoints, caches', client')

  -- `{e.region_code for e in endpoints if e.region_code}`
  unfoldable pub region_codes : List (Endpoint Float) → List Text
  region_codes [] = []
  region_codes (e ∷ es) =
      let rest = region_codes es in
      elim e.region_code [ none ↦ rest | some [] ↦ rest | some (c ∷ cs) ↦ (c ∷ cs) ∷ rest ]

  module _ {Client : Type 0} (current_moer : Text → Client → Got (Signal Float) × Client) where
    unfoldable pub fetch_signals : List Text → Client → List (Signal Float) × Client
    fetch_signals [] client = ([], client)
    fetch_signals (code ∷ codes) client =
        let (result, client') = current_moer code client in
        let (signals, client'') = fetch_signals codes client' in
        elim result [
          | got signal ↦ (signal ∷ signals, client'')
          | empty ↦ (signals, client'')
          | watttime_error ↦ (signals, client'')
        ]

  unfoldable pub save_signals :
      ℕ → List (Signal Float) → List (SignalRow Float) → List (SignalRow Float)
  unfolding save_signal
  save_signals now [] rows = rows
  save_signals now (signal ∷ signals) rows = save_signals now signals (save_signal now signal rows)

  -- `_refresh_signals`; `current_moer` is `none` without a client.
  unfoldable pub refresh_signals :
      {Client : Type 0}
      → Option (Text → Client → Got (Signal Float) × Client)
      → ℕ
      → ℕ
      → List (Endpoint Float)
      → Caches Float
      → Client
      → Caches Float × Client
  unfolding region_codes regions_needing_signal fetch_signals save_signals
  refresh_signals none now max_age_seconds endpoints caches client = (caches, client)
  refresh_signals (some current_moer) now max_age_seconds endpoints caches client =
      let stale =
        regions_needing_signal now (region_codes endpoints) max_age_seconds caches.signals in
      let (signals, client') = fetch_signals current_moer stale client in
      (record caches { signals = save_signals now signals caches.signals }, client')
