-- ===== src/Carbon/Tests.antt =====
-- A server that refuses every request at once, and the theorem at it.
use ca_dns.Prelude.{◌+◌, ◌≤◌, ◌≡◌, refl, none, some, ◌==◌, if◌then◌else◌, [], ◌∷◌, length}
use ca_dns.Carbon.{
  Response, answered, Server, Client, wait, login, settle, request, round, get_loop, get,
}
use ca_dns.Carbon.Spacing.{Spaced, get_spacing}

abbrev granted : Response
granted = record { status_code = 200; retry_after = none; token = 7 ∷ [] }

abbrev too_many : Response
too_many = record { status_code = 429; retry_after = some 5; token = [] }

abbrev busy_server : Server
busy_server = record {
  login_reply = λ n. answered granted;
  reply = λ n token. answered too_many;
  takes = λ n. 1;
  late = λ n. if n == 1 then 30 else 0;
}

abbrev fresh : Client
fresh = record { token = none; token_expires = 0; next = 0; now = 1000; sent = [] }

-- A login and four requests, planned 100 apart; the first one leaves 30 late.
five_requests : (get busy_server 100 fresh).1.sent ≡ 1400 ∷ 1300 ∷ 1200 ∷ 1130 ∷ 1000 ∷ []
unfolding get get_loop round request settle login wait
five_requests = refl

get_spacing_example :
    Spaced busy_server 100 (get busy_server 100 fresh).1.sent
    × (length (get busy_server 100 fresh).1.sent ≤ 0 + 8)
get_spacing_example = get_spacing busy_server 100 fresh (record { spaced = tt; passed = tt })
