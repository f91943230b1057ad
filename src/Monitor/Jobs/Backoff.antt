-- ===== src/Monitor/Jobs/Backoff.antt =====
-- A region without data is left alone for a while.
use ca_dns.Prelude.{
  ℕ, ◌+◌, ◌≤◌, ◌<◌, ◌≡◌, refl, ◌∙◌, inl, inr, Bool, true, false, ◌||◌, List, [], ◌∷◌, ◌++◌, arith,
  Bool-cases, any,
}
use ca_dns.Prelude.Text.{Text, text_eq, text_eq_iff}
use ca_dns.Carbon.Calls.{Got, got, empty, watttime_error, Signal}
use ca_dns.Worker.Store.{Endpoint, StoredRecord}
use ca_dns.Monitor.Freshness.{DomainTimes}
use ca_dns.Monitor.Signals.{
  SignalRow, CarbonRefresh, refresh_region, refresh_regions, refresh_carbon, save_signal,
  regions_due,
}
use ca_dns.Monitor.Jobs.{MonitorSettings, Unavailable, set_until, set_all, skipped, carbon_job}

abbrev pub is_skipped : Text → ℕ → Unavailable → Bool
is_skipped region loop_time entries = any (text_eq region) (skipped loop_time entries)

-- A region that is set is skipped before its time; others keep their times.
is_skipped-set_until :
    (region : Text) (until : ℕ) (other : Text) (t : ℕ) (entries : Unavailable)
    → t < until
    → text_eq other region ≡ true
    → is_skipped other t (set_until region until entries) ≡ true
unfolding skipped set_until
is_skipped-set_until region until other t [] lt same = ground (arith, lt, same)
is_skipped-set_until region until other t ((r, u) ∷ rest) lt same = ground (
  arith,
  lt,
  same,
  is_skipped-set_until region until other t rest lt same,
  text_eq_iff r region,
  text_eq_iff other region,
  text_eq_iff other r,
)

still_skipped :
    (region : Text) (until : ℕ) (other : Text) (t : ℕ) (entries : Unavailable)
    → t < until
    → is_skipped other t entries ≡ true
    → is_skipped other t (set_until region until entries) ≡ true
unfolding skipped set_until
still_skipped region until other t [] lt h = ground (arith, h)
still_skipped region until other t ((r, u) ∷ rest) lt h =
    ground (arith, lt, h, still_skipped region until other t rest lt)

all_still_skipped :
    (regions : List Text) (until : ℕ) (other : Text) (t : ℕ) (entries : Unavailable)
    → t < until
    → is_skipped other t entries ≡ true
    → is_skipped other t (set_all regions until entries) ≡ true
unfolding set_all
all_still_skipped [] until other t entries lt h = h
all_still_skipped (r ∷ rs) until other t entries lt h =
    all_still_skipped rs until other t (set_until r until entries) lt
      (still_skipped r until other t entries lt h)

set_all-is_skipped :
    (regions : List Text) (until : ℕ) (other : Text) (t : ℕ) (entries : Unavailable)
    → t < until
    → any (text_eq other) regions ≡ true
    → is_skipped other t (set_all regions until entries) ≡ true
unfolding set_all
set_all-is_skipped [] until other t entries lt h = ground (arith, h)
set_all-is_skipped (r ∷ rs) until other t entries lt h = elim (Bool-cases (text_eq other r)) [
  | inl here ↦
      all_still_skipped rs until other t (set_until r until entries) lt
        (is_skipped-set_until r until other t entries lt here)
  | inr elsewhere ↦
      set_all-is_skipped rs until other t (set_until r until entries) lt
        (ground (arith, h, elsewhere))
]

any-snoc :
    {A : Type 0} (p : A → Bool) (xs : List A) (x : A) → any p (xs ++ (x ∷ [])) ≡ (any p xs || p x)
any-snoc p [] x = ground arith
any-snoc p (y ∷ ys) x = ground (arith, any-snoc p ys x)

module _ {Float State : Type 0} (current_moer : Text → State → Got (Signal Float) × State) where
  -- A region is mentioned by a refresh.
  abbrev pub mentions : Text → CarbonRefresh Float State → Bool
  mentions region r =
      any (λ (entry : Text × ℕ). text_eq region entry.0) r.stored
      || any (text_eq region) r.unavailable

  refresh_region-mentions :
      (now : ℕ) (skip : List Text) (code region : Text) (r : CarbonRefresh Float State)
      → any (text_eq region) skip ≡ true
      → mentions region (refresh_region current_moer now skip code r) ≡ mentions region r
  unfolding refresh_region
  refresh_region-mentions now skip code region r h = elim (Bool-cases (any (text_eq code) skip)) [
    | inl over ↦ rw over refl
    | inr asked ↦ rw asked (on (current_moer code r.client).0 (elsewhere asked))
  ]
    where
      elsewhere : any (text_eq code) skip ≡ false → text_eq region code ≡ false
      elsewhere asked = elim (Bool-cases (text_eq region code)) [
        | inr differs ↦ differs
        | inl same ↦
            let e : region ≡ code = (text_eq_iff region code).0 same in
            absurd (ground (arith, asked, (rw e at h)))
      ]

      on :
          (result : Got (Signal Float))
          → text_eq region code ≡ false
          → mentions region (elim result [
            | watttime_error ↦ record r { client = (current_moer code r.client).1 }
            | empty ↦ record r {
              unavailable = r.unavailable ++ (code ∷ []);
              client = (current_moer code r.client).1;
            }
            | got signal ↦ record r {
              stored = r.stored ++ ((code, signal.point_time) ∷ []);
              signals = save_signal now signal r.signals;
              client = (current_moer code r.client).1;
            }
          ])
            ≡ mentions region r
      on watttime_error differs = refl
      on empty differs = ground (arith, differs, any-snoc (text_eq region) r.unavailable code)
      on (got signal) differs = ground (
        arith,
        differs,
        any-snoc (λ (entry : Text × ℕ). text_eq region entry.0) r.stored (code, signal.point_time),
      )

  refresh_regions-mentions :
      (now : ℕ) (skip : List Text) (codes : List Text) (region : Text)
      (r : CarbonRefresh Float State)
      → any (text_eq region) skip ≡ true
      → mentions region (refresh_regions current_moer now skip codes r) ≡ mentions region r
  unfolding refresh_regions
  refresh_regions-mentions now skip [] region r h = refl
  refresh_regions-mentions now skip (c ∷ cs) region r h =
      refresh_regions-mentions now skip cs region (refresh_region current_moer now skip c r) h
      ∙ refresh_region-mentions now skip c region r h

  refresh_carbon-mentions :
      (now : ℕ) (skip : List Text) (window period : ℕ) (domains : List DomainTimes)
      (records : List StoredRecord) (endpoints : List (Endpoint Float))
      (signals : List (SignalRow Float)) (client : State) (region : Text)
      → any (text_eq region) skip ≡ true
      → mentions region (
          refresh_carbon current_moer now skip window period domains records endpoints signals
            client)
        ≡ false
  unfolding refresh_carbon
  refresh_carbon-mentions now skip window period domains records endpoints signals client region h =
      refresh_regions-mentions now skip
        (regions_due now window period domains records endpoints signals) region
        (record { stored = []; unavailable = []; signals = signals; client = client }) h

  -- A region that the carbon job finds unavailable is neither stored nor found unavailable again by
  -- the next run, whatever the tables and the clock say then, until the back-off is over; and it is
  -- still to be skipped after that run.
  pub carbon_job-mentions :
      (settings : MonitorSettings) (loop_time now : ℕ) (entries : Unavailable)
      (domains : List DomainTimes) (records : List StoredRecord) (endpoints : List (Endpoint Float))
      (signals : List (SignalRow Float)) (client : State) (region : Text) (loop_time' now' : ℕ)
      (domains' : List DomainTimes) (records' : List StoredRecord)
      (endpoints' : List (Endpoint Float)) (signals' : List (SignalRow Float)) (client' : State)
      → let first =
          carbon_job current_moer settings loop_time now entries domains records endpoints signals
            client in
        any (text_eq region) first.0.unavailable ≡ true
        → loop_time ≤ loop_time'
        → loop_time' < loop_time + settings.carbon_unavailable_backoff_seconds
        → let first =
            carbon_job current_moer settings loop_time now entries domains records endpoints signals
              client in
          let second =
            carbon_job current_moer settings loop_time' now' first.1 domains' records' endpoints'
              signals' client' in
          (mentions region second.0 ≡ false) × (is_skipped region loop_time' second.1 ≡ true)
  unfolding carbon_job
  carbon_job-mentions settings loop_time now entries domains records endpoints signals client region
        loop_time' now' domains' records' endpoints' signals' client' found later soon =
      let first =
        carbon_job current_moer settings loop_time now entries domains records endpoints signals
          client in
      let second =
        carbon_job current_moer settings loop_time' now' first.1 domains' records' endpoints'
          signals' client' in
      let skip =
        set_all-is_skipped first.0.unavailable
          (loop_time + settings.carbon_unavailable_backoff_seconds) region loop_time' entries soon
          found in
      (
        refresh_carbon-mentions now' (skipped loop_time' first.1)
            settings.monitor_activity_window_seconds settings.carbon_period_seconds domains'
            records' endpoints' signals' client' region skip,
        all_still_skipped second.0.unavailable
            (loop_time' + settings.carbon_unavailable_backoff_seconds) region loop_time' first.1
            (omega (arith, later, soon)) skip,
      )
