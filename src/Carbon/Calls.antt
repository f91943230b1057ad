-- ===== src/Carbon/Calls.antt =====
-- `region_for` and `current_moer` of services/src/cadns/carbon/watttime.py. What their bodies say is a
-- parameter, as are the multiplication of floats and the factor for pounds per MWh.
use ca_dns.Prelude.{
  ℕ, ◌≡◌, inl, inr, Bool-cases, arith, ◌||◌, Option, none, some, [], ◌∷◌, ◌==◌, if◌then◌else◌, any,
}
use ca_dns.Prelude.Text.{Text, text_eq, codes}
use ca_dns.Collector.Dnstap.{lower}
use ca_dns.Carbon.{Response, Server, Client, get}

pub record Region : Type 0 where
  pub code : Text
  pub name : Option Text

pub record Signal (Float : Type 0) : Type 0 where
  pub region : Text
  pub point_time : ℕ
  pub moer_g_per_kwh : Float

-- The first point of a forecast and its units.
pub record Point (Float : Type 0) : Type 0 where
  pub point_time : ℕ
  pub value : Float
  pub units : Text

-- A result, `None`, or a `WattTimeError`.
pub data Got (A : Type 0) : Type 0 where
  got : A → Got A
  empty watttime_error : Got A

unfoldable pub to_g_per_kwh : {Float : Type 0} → (Float → Float) → Float → Text → Option Float
to_g_per_kwh from_pounds value units =
    let name = lower units in
    if text_eq name (codes "lbs_co2_per_mwh") || text_eq name (codes "lbs_co2e_per_mwh")
    then some (from_pounds value)
    else if any (text_eq name) (
        codes "g_co2_per_kwh"
        ∷ codes "g_co2e_per_kwh"
        ∷ codes "kg_co2_per_mwh"
        ∷ codes "kg_co2e_per_mwh"
        ∷ [])
    then some value
    else none

abbrev pub region_of : (Response → Region) → Option Response → Got Region
region_of read none = watttime_error
region_of read (some response) =
    if response.status_code == 400 || response.status_code == 404
    then empty
    else if response.status_code == 200
    then got (read response)
    else watttime_error

-- `server` answers the requests for this path and location.
unfoldable pub region_for : (Response → Region) → Server → ℕ → Client → Got Region × Client
region_for read server interval c =
    let (response, c') = get server interval c in (region_of read response, c')

abbrev pub signal_at :
    {Float : Type 0} → (Float → Float) → Text → Option (Point Float) → Got (Signal Float)
signal_at from_pounds region none = empty
signal_at from_pounds region (some point) =
    elim (to_g_per_kwh from_pounds point.value point.units) [
      | none ↦ watttime_error
      | some value ↦
          got (record { region = region; point_time = point.point_time; moer_g_per_kwh = value })
    ]

abbrev pub signal_of :
    {Float : Type 0}
    → (Float → Float)
    → (Response → Option (Point Float))
    → Text
    → Option Response
    → Got (Signal Float)
signal_of from_pounds read region none = watttime_error
signal_of from_pounds read region (some response) =
    if response.status_code == 403
    then empty
    else if response.status_code == 200
    then signal_at from_pounds region (read response)
    else watttime_error

unfoldable pub current_moer :
    {Float : Type 0}
    → (Float → Float)
    → (Response → Option (Point Float))
    → Server
    → Text
    → ℕ
    → Client
    → Got (Signal Float) × Client
current_moer from_pounds read server region interval c =
    let (response, c') = get server interval c in (signal_of from_pounds read region response, c')

-- A signal has the region that was asked for.
pub current_moer-region :
    {Float : Type 0} (from_pounds : Float → Float) (read : Response → Option (Point Float))
    (server : Server) (region : Text) (interval : ℕ) (c : Client) (signal : Signal Float)
    → (current_moer from_pounds read server region interval c).0 ≡ got signal
    → signal.region ≡ region
unfolding current_moer
current_moer-region {Float} from_pounds read server region interval c signal h =
    on (get server interval c).0 h
  where
    of_value :
        (point_time : ℕ) (value : Option Float)
        → (elim value as (λ v. Got (Signal Float)) [
          | none ↦ watttime_error
          | some value ↦
              got (record { region = region; point_time = point_time; moer_g_per_kwh = value })
        ])
          ≡ got signal
        → signal.region ≡ region
    of_value t none e = cc
    of_value t (some value) e = cc

    at_point :
        (point : Option (Point Float))
        → signal_at from_pounds region point ≡ got signal
        → signal.region ≡ region
    at_point none e = cc
    at_point (some point) e =
        of_value point.point_time (to_g_per_kwh from_pounds point.value point.units) e

    on :
        (response : Option Response)
        → signal_of from_pounds read region response ≡ got signal
        → signal.region ≡ region
    on none e = cc
    on (some response) e = elim (Bool-cases (response.status_code == 403)) [
      | inl refused ↦ absurd (ground (arith, refused, e))
      | inr allowed ↦ elim (Bool-cases (response.status_code == 200)) [
        | inl found ↦ at_point (read response) (ground (arith, allowed, found, e))
        | inr other ↦ absurd (ground (arith, allowed, other, e))
      ]
    ]
