-- ===== src/Monitor/Freshness.antt =====
-- services/src/cadns/monitor/tasks.py, the expiry scan: `expiring_domains` and `scan_expiring`, on the
-- rows of cadns.domains and cadns.rrset_records and on the queue.
pub mod Listed
use ca_dns.Prelude.{
  ℕ, zero, suc, ◌+◌, ◌-◌, ◌*◌, ◌/◌, ◌%◌, ◌^◌, ◌≤◌, ◌<◌, min, max, bit_and, bit_or, ◌≡◌, refl, sym,
  ap, ◌∙◌, ◌≢◌, ◌↔◌, ◌⊎◌, inl, inr, Bool, true, false, not, ◌&&◌, ◌||◌, Option, none, some, List,
  [], ◌∷◌, ◌++◌, map, append-nil, append_assoc, arith, ltb, leb, ◌==◌, if◌then◌else◌, ltb→lt,
  leb→le, ==_iff, Bool-cases, Option-cases, length, take, drop, any, all, filter, All,
  length-append, length-drop, length-take, All-append, take-length_append, drop-length_append,
  length-filter_le,
}
use ca_dns.Prelude.Text.{Text, text_eq, text_leb}
use ca_dns.Prelude.Sort.{sorted_set, sort_by}
use ca_dns.Queue.{Table, Enqueued, enqueue, expired}
use ca_dns.Worker.Store.{StoredRecord}

pub record FreshnessPolicy : Type 0 where
  pub activity_window_seconds : ℕ
  pub lead_seconds : ℕ
  pub min_remeasure_seconds : ℕ

-- The columns of a domain's row that the monitor reads.
pub record DomainTimes : Type 0 where
  pub name : Text
  pub first_seen_at : ℕ
  pub last_queried_at : Option ℕ
  pub retry_after : Option ℕ
  pub measured_at : Option ℕ

-- The records of a domain (the join on `domain_id`), and the latest expiry among those of a type.
abbrev pub records_of : Text → List StoredRecord → List StoredRecord
records_of domain records = filter (λ (r : StoredRecord). text_eq r.domain domain) records

unfoldable pub latest_expiry : Text → List StoredRecord → ℕ
latest_expiry rtype [] = 0
latest_expiry rtype (r ∷ rs) =
    let rest = latest_expiry rtype rs in
    if text_eq r.rtype rtype then max r.expires_at rest else rest

-- `min(per_type.expires_at)`, NULL without records.
unfoldable pub first_expiry : List StoredRecord → List Text → Option ℕ
unfolding latest_expiry
first_expiry records [] = none
first_expiry records (rtype ∷ rtypes) = elim (first_expiry records rtypes) [
  | none ↦ some (latest_expiry rtype records)
  | some rest ↦ some (min (latest_expiry rtype records) rest)
]

unfoldable pub served_until : Text → List StoredRecord → Option ℕ
unfolding first_expiry
served_until domain records =
    let own = records_of domain records in
    first_expiry own (sorted_set (map (λ (r : StoredRecord). r.rtype) own))

-- `last_queried_at > now - window`, which NULL is not.
abbrev pub is_active : ℕ → ℕ → Option ℕ → Bool
is_active now window none = false
is_active now window (some queried) = ltb now (queried + window)

-- `t IS NULL OR t + seconds <= now`
abbrev pub passed : ℕ → ℕ → Option ℕ → Bool
passed now seconds none = true
passed now seconds (some t) = leb (t + seconds) now

-- The condition of the SELECT without the one on `served_until`.
unfoldable pub may_remeasure : ℕ → FreshnessPolicy → DomainTimes → Bool
may_remeasure now policy d =
    is_active now policy.activity_window_seconds d.last_queried_at
    && passed now 0 d.retry_after
    && passed now policy.min_remeasure_seconds d.measured_at

abbrev pub sooner : ℕ × Text → ℕ × Text → Bool
sooner a b = ltb a.0 b.0 || a.0 == b.0 && text_leb a.1 b.1

-- The rows selected, with `served_until`.
unfoldable pub expiring_rows :
    ℕ → FreshnessPolicy → List StoredRecord → List DomainTimes → List (ℕ × Text)
unfolding may_remeasure served_until
expiring_rows now policy records [] = []
expiring_rows now policy records (d ∷ ds) =
    let rest = expiring_rows now policy records ds in
    elim (served_until d.name records) [
      | none ↦ rest
      | some until ↦
          if may_remeasure now policy d && ltb until (now + policy.lead_seconds)
          then (until, d.name) ∷ rest
          else rest
    ]

unfoldable pub expiring_domains :
    ℕ → FreshnessPolicy → List StoredRecord → List DomainTimes → List Text
unfolding expiring_rows
expiring_domains now policy records domains =
    map (λ (row : ℕ × Text). row.1) (sort_by sooner (expiring_rows now policy records domains))

-- `scan_expiring`, where `now` is also the time of the statement on the queue.
unfoldable pub scan_expiring :
    ℕ → FreshnessPolicy → List StoredRecord → List DomainTimes → Table → Enqueued
unfolding expiring_domains enqueue
scan_expiring now policy records domains queue =
    enqueue now (expiring_domains now policy records domains) expired queue
