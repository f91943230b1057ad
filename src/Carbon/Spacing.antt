-- ===== src/Carbon/Spacing.antt =====
-- How often and how close together the client sends requests.
use ca_dns.Prelude.{
  ℕ, zero, suc, ◌+◌, ◌*◌, ◌≤◌, max, ◌≡◌, refl, inl, inr, Bool, true, false, not, ◌&&◌, Option, none,
  some, List, [], ◌∷◌, arith, ltb, ◌==◌, Bool-cases, Option-cases, length,
}
use ca_dns.Prelude.Text.{Text}
use ca_dns.Carbon.{
  max_retries, Response, Reply, answered, no_reply, Server, Client, wait, send, has_token,
  logged_in, login, Round, finished, again, settle, request, round, get_loop, get,
}

-- The requests so far, the latest first: the n-th last of them, which left `late` after its planned
-- time, stands n intervals before `bound`, or `late` less.
abbrev pub Ahead : Server → ℕ → ℕ → ℕ → List ℕ → Type 0
Ahead server interval n bound [] = Unit
Ahead server interval n bound (t ∷ ts) =
    (t + n * interval ≤ bound + server.late (length ts)) × Ahead server interval (suc n) bound ts

-- Each request stands ahead of the later ones.
abbrev pub Spaced : Server → ℕ → List ℕ → Type 0
Spaced server interval [] = Unit
Spaced server interval (t ∷ ts) = Ahead server interval 1 t ts × Spaced server interval ts

-- The requests are spaced, and the limiter lets the next one through no sooner than it may.
pub record IsSpaced (server : Server) (interval : ℕ) (c : Client) : Type 0 where
  pub spaced : Spaced server interval c.sent
  pub passed : Ahead server interval 1 c.next c.sent

Ahead-later :
    (server : Server) (interval n a b : ℕ) (sent : List ℕ)
    → a ≤ b
    → Ahead server interval n a sent
    → Ahead server interval n b sent
Ahead-later server interval n a b [] h p = tt
Ahead-later server interval n a b (t ∷ ts) h (here, rest) =
    (omega (arith, h, here), Ahead-later server interval (suc n) a b ts h rest)

-- A further interval makes room for a further request.
Ahead-suc :
    (server : Server) (interval n a : ℕ) (sent : List ℕ)
    → Ahead server interval n a sent
    → Ahead server interval (suc n) (a + interval) sent
Ahead-suc server interval n a [] p = tt
Ahead-suc server interval n a (t ∷ ts) (here, rest) =
    (omega (arith, here), Ahead-suc server interval (suc n) a ts rest)

-- A wait and a request after it keep the spacing, and are one request.
send-wait :
    (server : Server) (interval : ℕ) (c : Client)
    → IsSpaced server interval c
    → IsSpaced server interval (send server (wait server interval c))
unfolding wait
send-wait server interval c h =
    let planned = max c.now c.next in
    let passed : Ahead server interval 1 planned c.sent =
      Ahead-later server interval 1 c.next planned c.sent (omega arith) h.passed in
    record {
      spaced = (
        Ahead-later server interval 1 planned (planned + server.late (length c.sent)) c.sent
            (omega arith) passed,
        h.spaced,
      );
      passed = (omega arith, Ahead-suc server interval 1 planned c.sent passed);
    }

-- What a call may do: keep the spacing, and send at most `n` requests more.
abbrev Sends : Server → ℕ → ℕ → Client → Client → Type 0
Sends server interval n c c' =
    (IsSpaced server interval c → IsSpaced server interval c')
    × (length c'.sent ≤ length c.sent + n)

login-Sends :
    (server : Server) (interval : ℕ) (c : Client)
    → Sends server interval 1 c (login server interval c).1
unfolding login wait
login-Sends server interval c = after (has_token c) refl
  where
    logged :
        (response : Response) (d : Client)
        → (IsSpaced server interval d → IsSpaced server interval (logged_in response d).1)
          × (length (logged_in response d).1.sent ≡ length d.sent)
    logged response d = on (response.status_code == 200) refl
      where
        on :
            (b : Bool)
            → (response.status_code == 200) ≡ b
            → (IsSpaced server interval d → IsSpaced server interval (logged_in response d).1)
              × (length (logged_in response d).1.sent ≡ length d.sent)
        on true e = rw (e, logged_in) (λ h. record { spaced = h.spaced; passed = h.passed }, refl)
        on false e = rw (e, logged_in) (λ h. h, refl)

    sent_for :
        (reply : Reply)
        → server.login_reply (length c.sent) ≡ reply
        → has_token c ≡ none
        → Sends server interval 1 c (login server interval c).1
    sent_for no_reply e n = rw (n, e, login) (send-wait server interval c, omega arith)
    sent_for (answered response) e n =
        let (keeps, size) = logged response (send server (wait server interval c)) in
        rw (n, e, login) (λ h. keeps (send-wait server interval c h), omega (arith, size))

    after :
        (o : Option Text) → has_token c ≡ o → Sends server interval 1 c (login server interval c).1
    after (some token) e = rw (e, login) (λ h. h, omega arith)
    after none e = sent_for (server.login_reply (length c.sent)) refl e

abbrev client_of : Round → Client
client_of (finished result c) = c
client_of (again response relogged c) = c

settle-Sends :
    (server : Server) (interval : ℕ) (response : Response) (attempt : ℕ) (relogged : Bool)
    (c : Client)
    → Sends server interval 0 c (client_of (settle response attempt relogged c))
unfolding settle
settle-Sends server interval response attempt relogged c =
    elim (Bool-cases (response.status_code == 401 && not relogged)) [
      | inl e ↦ rw e (λ h. record { spaced = h.spaced; passed = h.passed }, omega arith)
      | inr e ↦ elim (Bool-cases (response.status_code == 429 && ltb attempt max_retries)) [
        | inl f ↦ rw (e, f) (λ h. record { spaced = h.spaced; passed = h.passed }, omega arith)
        | inr f ↦ rw (e, f) (λ h. h, omega arith)
      ]
    ]

request-Sends :
    (server : Server) (interval : ℕ) (token : Text) (attempt : ℕ) (relogged : Bool) (c : Client)
    → Sends server interval 1 c (client_of (request server interval token attempt relogged c))
unfolding request wait
request-Sends server interval token attempt relogged c =
    on (server.reply (length c.sent) token) refl
  where
    on :
        (reply : Reply)
        → server.reply (length c.sent) token ≡ reply
        → Sends server interval 1 c (client_of (request server interval token attempt relogged c))
    on no_reply e = rw (e, request) (send-wait server interval c, omega arith)
    on (answered response) e =
        let (keeps, size) =
          settle-Sends server interval response attempt relogged
            (send server (wait server interval c)) in
        rw (e, request) (λ h. keeps (send-wait server interval c h), omega (arith, size))

round-Sends :
    (server : Server) (interval attempt : ℕ) (relogged : Bool) (c : Client)
    → Sends server interval 2 c (client_of (round server interval attempt relogged c))
unfolding round
round-Sends server interval attempt relogged c =
    let (keeps, size) = login-Sends server interval c in
    elim (Option-cases (login server interval c).0) [
      | inl e ↦ rw (e, round) (keeps, omega (arith, size))
      | inr (token, e) ↦
          let (keeps', size') =
            request-Sends server interval token attempt relogged (login server interval c).1 in
          rw (e, round) (λ h. keeps' (keeps h), omega (arith, size, size'))
    ]

get_loop-Sends :
    (server : Server) (interval rounds attempt : ℕ) (relogged : Bool) (last : Option Response)
    (c : Client)
    → Sends server interval
        (2 * rounds)
        c
        (get_loop server interval rounds attempt relogged last c).1
unfolding get_loop
get_loop-Sends server interval zero attempt relogged last c = (λ h. h, omega arith)
get_loop-Sends server interval (suc rounds) attempt relogged last c =
    on (round server interval attempt relogged c) refl
      (round-Sends server interval attempt relogged c)
      (λ response relogged' d.
        get_loop-Sends server interval rounds (attempt + 1) relogged' (some response) d)
  where
    on :
        (r : Round)
        → round server interval attempt relogged c ≡ r
        → Sends server interval 2 c (client_of (round server interval attempt relogged c))
        → ((response : Response) (relogged' : Bool) (d : Client)
            → Sends server interval
                (2 * rounds)
                d
                (get_loop server interval rounds (attempt + 1) relogged' (some response) d).1)
        → Sends server interval
            (2 * suc rounds)
            c
            (get_loop server interval (suc rounds) attempt relogged last c).1
    on (finished result d) e (keeps, size) rest =
        rw (e, get_loop) (rw e at keeps, omega (arith, (rw e at size)))
    on (again response relogged' d) e (keeps, size) rest =
        let (keeps', size') = rest response relogged' d in
        rw (e, get_loop) (λ h. keeps' ((rw e at keeps) h), omega (arith, (rw e at size), size'))

-- From a client whose requests are spaced, whatever the server replies and however late requests
-- leave, `_get` sends at most 8 requests, logins included, and all requests are spaced: one of them
-- and the n-th after it are at least n intervals apart, less what the former was late. Lateness does
-- not add up.
pub get_spacing :
    (server : Server) (interval : ℕ) (c : Client)
    → IsSpaced server interval c
    → Spaced server interval (get server interval c).1.sent
      × (length (get server interval c).1.sent ≤ length c.sent + 8)
unfolding get
get_spacing server interval c h =
    let (keeps, size) = get_loop-Sends server interval 4 0 false none c in ((keeps h).spaced, size)
