-- ===== src/Collector/Batches.antt =====
-- services/src/cadns/collector/service.py: the batch of events, and its writing to the database.
-- Rows of `cadns.domains` (db/migrations/0001_init.sql) are the columns that the statements name;
-- dictionaries are lists of entries in the order of insertion. Times are nanoseconds, as in
-- `Dnstap`, those of the queue's rows too, which `enqueue` only stores and compares.
pub mod Counts
pub mod Misses
mod Tests
use ca_dns.Prelude.{
  ℕ, zero, suc, ◌+◌, ◌-◌, ◌*◌, ◌/◌, ◌%◌, ◌^◌, ◌≤◌, ◌<◌, min, max, bit_and, bit_or, ◌≡◌, refl, sym,
  ap, ◌∙◌, ◌≢◌, ◌↔◌, ◌⊎◌, inl, inr, Bool, true, false, not, ◌&&◌, ◌||◌, Option, none, some, List,
  [], ◌∷◌, ◌++◌, map, append-nil, append_assoc, arith, ltb, leb, ◌==◌, if◌then◌else◌, ltb→lt,
  leb→le, ==_iff, Bool-cases, Option-cases, length, take, drop, any, all, filter, All,
  length-append, length-drop, length-take, All-append, take-length_append, drop-length_append,
  length-filter_le,
}
use ca_dns.Prelude.Text.{Text, text_eq, text_leb}
use ca_dns.Prelude.Sort.{sorted_set, sort_by}
use ca_dns.Collector.Dnstap.{
  dot, lower, Message, classify, Kind, hit, miss, Event, ClientResponse, Bytes, Result, ok,
  protobuf, type_error, stuck, decode_client_response,
}
use ca_dns.Queue.{is_empty, is_none, Table, Enqueued, enqueue, miss as missed}

-- A dictionary with names for keys.
abbrev pub Dict : Type 0 → Type 0
Dict A = List (Text × A)

unfoldable pub lookup : {A : Type 0} → Text → Dict A → Option A
lookup name [] = none
lookup name ((key, value) ∷ entries) = if text_eq key name then some value else lookup name entries

unfoldable pub assign : {A : Type 0} → Text → A → Dict A → Dict A
assign name value [] = (name, value) ∷ []
assign name value ((key, old) ∷ entries) =
    let rest = assign name value entries in
    if text_eq key name then (key, value) ∷ entries else (key, old) ∷ rest

abbrev pub get_or {ℓ} : {A : Type ℓ} → Option A → A → A
get_or none default = default
get_or (some value) default = value

pub record Batch : Type 0 where
  pub hits : Dict (ℕ × ℕ)
  pub misses : Dict ℕ

abbrev pub empty_batch : Batch
empty_batch = record { hits = []; misses = [] }

-- `__len__`
abbrev pub size : Batch → ℕ
size batch = length batch.hits + length batch.misses

unfoldable pub add : Kind → Text → ℕ → Batch → Batch
unfolding assign lookup
add hit name when batch =
    let (count, last) = get_or (lookup name batch.hits) (0, 0) in
    record batch { hits = assign name (count + 1, max last when) batch.hits }
add miss name when batch = record batch {
  misses = assign name (max (get_or (lookup name batch.misses) 0) when) batch.misses;
}

-- The columns of a domain's row that the collector reads or writes.
pub record Domain : Type 0 where
  pub name : Text
  pub last_queried_at : Option ℕ
  pub hit_count : ℕ
  pub retry_after : Option ℕ
  pub measured_at : Option ℕ

pub record Database : Type 0 where
  pub domains : List Domain
  pub queue : Table

-- `greatest`, which passes over NULL.
abbrev pub greatest : Option ℕ → ℕ → Option ℕ
greatest none when = some when
greatest (some last) when = some (max last when)

abbrev pub record_hits : Dict (ℕ × ℕ) → Domain → Domain
record_hits hits domain = elim (lookup domain.name hits) [
  | none ↦ domain
  | some (count, last) ↦ record domain {
    last_queried_at = greatest domain.last_queried_at last;
    hit_count = domain.hit_count + count;
  }
]

-- The first statement of `write_batch`.
abbrev pub write_hits : Dict (ℕ × ℕ) → Database → Database
write_hits hits db = record db { domains = map (record_hits hits) db.domains }

-- The constraint on `name`: not empty, and what `normalize_name` makes of it.
unfoldable pub ends_in_dot : Text → Bool
ends_in_dot [] = false
ends_in_dot (c ∷ []) = c == dot
ends_in_dot (c ∷ d ∷ cs) = ends_in_dot (d ∷ cs)

abbrev pub name_allowed : Text → Bool
name_allowed name = not (text_eq name []) && not (ends_in_dot name) && text_eq (lower name) name

unfoldable pub find_domain : Text → List Domain → Option Domain
find_domain name [] = none
find_domain name (d ∷ ds) = if text_eq d.name name then some d else find_domain name ds

abbrev pub new_domain : Text → ℕ → Domain
new_domain name when = record {
  name = name;
  last_queried_at = some when;
  hit_count = 0;
  retry_after = none;
  measured_at = none;
}

-- INSERT of one miss ON CONFLICT DO UPDATE.
unfoldable pub upsert_domain : Text → ℕ → List Domain → List Domain
upsert_domain name when [] = new_domain name when ∷ []
upsert_domain name when (d ∷ ds) =
    let rest = upsert_domain name when ds in
    if text_eq d.name name
    then record d { last_queried_at = greatest d.last_queried_at when } ∷ ds
    else d ∷ rest

unfoldable pub upsert_domains : Dict ℕ → List Domain → List Domain
unfolding upsert_domain
upsert_domains [] domains = domains
upsert_domains ((name, when) ∷ misses) domains =
    upsert_domains misses (upsert_domain name when domains)

abbrev pub not_later : Option ℕ → ℕ → Bool
not_later none now = true
not_later (some retry_after) now = leb retry_after now

abbrev pub earlier : Option ℕ → ℕ → Bool
earlier none when = true
earlier (some measured_at) when = ltb measured_at when

-- The SELECT's condition, on the row of a miss.
unfoldable pub is_due : ℕ → ℕ → Option Domain → Bool
is_due now when none = false
is_due now when (some domain) = not_later domain.retry_after now && earlier domain.measured_at when

unfoldable pub due_names : ℕ → List Domain → Dict ℕ → List Text
unfolding is_due find_domain
due_names now domains [] = []
due_names now domains ((name, when) ∷ misses) =
    let rest = due_names now domains misses in
    if is_due now when (find_domain name domains) then name ∷ rest else rest

abbrev pub by_name {ℓ} : {A : Type ℓ} → Text × A → Text × A → Bool
by_name a b = text_leb a.0 b.0

-- The domains that `write_batch` queues, `none` where the database refuses the batch, and the
-- database after it. Statements commit by themselves (`autocommit`); those on the misses are one
-- transaction.
unfoldable pub write_batch : ℕ → Batch → Database → Option (List Text) × Database
unfolding upsert_domains due_names
write_batch now batch db =
    let db' = write_hits batch.hits db in
    let misses = sort_by by_name batch.misses in
    let domains = upsert_domains misses db'.domains in
    let queued = enqueue now (due_names now domains misses) missed db'.queue in
    if is_empty batch.misses
    then (some [], db')
    else if all (λ entry. name_allowed entry.0) misses
    then (some queued.queued, record { domains = domains; queue = queued.table })
    else (none, db')

-- The state of the collector that its handlers share: the batch, the event that wakes the flush
-- early, and whether the database connection is open.
pub record Collector : Type 0 where
  pub batch : Batch
  pub full : Bool
  pub connected : Bool

-- `type_error` is the exception that `on_frame` lets through.
unfoldable pub on_frame :
    (Bytes → Option Message) → List Text → ℕ → ℕ → Bytes → Collector → Result Collector
unfolding add
on_frame from_wire ignore_suffixes max_batch now frame collector =
    elim (decode_client_response frame) [
      | protobuf ↦ ok collector
      | type_error ↦ type_error
      | stuck ↦ stuck
      | ok none ↦ ok collector
      | ok (some response) ↦ elim (classify from_wire response ignore_suffixes now) [
        | none ↦ ok collector
        | some event ↦
            let batch = add event.kind event.name event.time collector.batch in
            ok (record collector {
              batch = batch;
              full = collector.full || leb max_batch (size batch);
            })
      ]
    ]

-- `reachable` says whether connecting to the database succeeds.
unfoldable pub flush : ℕ → Bool → Collector → Database → Collector × Database
unfolding write_batch
flush now reachable collector db =
    let batch = collector.batch in
    let (queued, db') = write_batch now batch db in
    let emptied : Bool → Collector =
      λ connected. record { batch = empty_batch; full = false; connected = connected } in
    if size batch == 0
    then (emptied collector.connected, db)
    else if collector.connected || reachable
    then (emptied (not (is_none queued)), db')
    else (emptied false, db)
