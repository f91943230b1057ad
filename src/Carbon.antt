-- ===== src/Carbon.antt =====
-- services/src/cadns/carbon/watttime.py: the rate limiter, the login and the retries of
-- `WattTimeClient`. Times are nanoseconds of the monotonic clock. What the server does is a parameter:
-- its replies to the n-th request, how long each takes, and how late the request leaves. One call runs
-- at a time.
pub mod Spacing
pub mod Calls
mod Tests
use ca_dns.Prelude.{
  ℕ, zero, suc, ◌+◌, ◌-◌, ◌*◌, ◌/◌, ◌%◌, ◌^◌, ◌≤◌, ◌<◌, min, max, bit_and, bit_or, ◌≡◌, refl, sym,
  ap, ◌∙◌, ◌≢◌, ◌↔◌, ◌⊎◌, inl, inr, Bool, true, false, not, ◌&&◌, ◌||◌, Option, none, some, List,
  [], ◌∷◌, ◌++◌, map, append-nil, append_assoc, arith, ltb, leb, ◌==◌, if◌then◌else◌, ltb→lt,
  leb→le, ==_iff, Bool-cases, Option-cases, length, take, drop, any, all, filter, All,
  length-append, length-drop, length-take, All-append, take-length_append, drop-length_append,
  length-filter_le,
}
use ca_dns.Prelude.Text.{Text}

abbrev pub second : ℕ
second = 1000000000

abbrev pub token_lifetime_seconds : ℕ
token_lifetime_seconds = 25 * 60

abbrev pub max_retries : ℕ
max_retries = 3

-- A response: its status, the `Retry-After` header where it is a number (below 0 it counts as 0), in
-- nanoseconds, and the token that the body of a login has.
pub record Response : Type 0 where
  pub status_code : ℕ
  pub retry_after : Option ℕ
  pub token : Text

-- `no_reply` is an `HTTPError`.
pub data Reply : Type 0 where
  answered : Response → Reply
  no_reply : Reply

-- The server, asked for the n-th time: its reply, how long that takes with the pause after it (so
-- also what a sleep after a 429 lasts beyond its delay), and how much later the request leaves than
-- the limiter planned, as `asyncio.sleep` may overshoot.
pub record Server : Type 0 where
  pub login_reply : ℕ → Reply
  pub reply : ℕ → Text → Reply
  pub takes : ℕ → ℕ
  pub late : ℕ → ℕ

-- The client, the clock, and the times of the requests sent so far, the latest first.
pub record Client : Type 0 where
  pub token : Option Text
  pub token_expires : ℕ
  pub next : ℕ
  pub now : ℕ
  pub sent : List ℕ

-- `RateLimiter.wait`, up to the request: the next one is planned from this one's planned time, not
-- from the time when it leaves.
unfoldable pub wait : Server → ℕ → Client → Client
wait server interval c =
    let planned = max c.now c.next in
    record c { now = planned + server.late (length c.sent); next = planned + interval }

-- A request is sent and its reply, or the lack of one, comes in.
abbrev pub send : Server → Client → Client
send server c = record c { now = c.now + server.takes (length c.sent); sent = c.now ∷ c.sent }

abbrev pub has_token : Client → Option Text
has_token c = if ltb c.now c.token_expires then c.token else none

abbrev pub logged_in : Response → Client → Option Text × Client
logged_in response c = elim (response.status_code == 200) [
  | true ↦ (
    some response.token,
    record c {
      token = some response.token;
      token_expires = c.now + token_lifetime_seconds * second;
    },
  )
  | false ↦ (none, c)
]

-- `none` is a `WattTimeError`.
unfoldable pub login : Server → ℕ → Client → Option Text × Client
unfolding wait
login server interval c = elim (has_token c) [
  | some token ↦ (some token, c)
  | none ↦ elim (server.login_reply (length c.sent)) [
    | no_reply ↦ (none, send server (wait server interval c))
    | answered response ↦ logged_in response (send server (wait server interval c))
  ]
]

abbrev pub retry_after_of : Response → ℕ → ℕ
retry_after_of response default = elim response.retry_after [
  | none ↦ default
  | some delay ↦ min (60 * second) delay
]

-- How a round of the loop of `_get` ends: with what is returned (`none` is a `WattTimeError`), or by
-- `continue`.
pub data Round : Type 0 where
  finished : Option Response → Client → Round
  again : Response → Bool → Client → Round

-- The rest of a round, from the response on.
unfoldable pub settle : Response → ℕ → Bool → Client → Round
settle response attempt relogged c =
    if response.status_code == 401 && not relogged
    then again response true (record c { token = none })
    else if response.status_code == 429 && ltb attempt max_retries
    then again response relogged
        (record c { now = c.now + retry_after_of response (2 ^ attempt * second) })
    else finished (some response) c

unfoldable pub request : Server → ℕ → Text → ℕ → Bool → Client → Round
unfolding settle wait
request server interval token attempt relogged c = elim (server.reply (length c.sent) token) [
  | no_reply ↦ finished none (send server (wait server interval c))
  | answered response ↦ settle response attempt relogged (send server (wait server interval c))
]

unfoldable pub round : Server → ℕ → ℕ → Bool → Client → Round
unfolding request login
round server interval attempt relogged c =
    let (logged, c') = login server interval c in
    elim logged [
      | none ↦ finished none c'
      | some token ↦ request server interval token attempt relogged c'
    ]

-- The loop of `_get`, on the rounds that are left.
unfoldable pub get_loop :
    Server → ℕ → ℕ → ℕ → Bool → Option Response → Client → Option Response × Client
unfolding round
get_loop server interval zero attempt relogged last c = (last, c)
get_loop server interval (suc rounds) attempt relogged last c =
    elim (round server interval attempt relogged c) [
      | finished result c' ↦ (result, c')
      | again response relogged' c' ↦
          get_loop server interval rounds (attempt + 1) relogged' (some response) c'
    ]

-- `_get`: the response, or an error, and the client after it.
unfoldable pub get : Server → ℕ → Client → Option Response × Client
unfolding get_loop
get server interval c = get_loop server interval (max_retries + 1) 0 false none c
