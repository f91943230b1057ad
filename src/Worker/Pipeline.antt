-- ===== src/Worker/Pipeline.antt =====
-- services/src/cadns/worker/pipeline.py: the outcome of one measurement.
pub mod Outcomes
pub mod Waits
mod Tests
use ca_dns.Prelude.{
  ℕ, zero, suc, ◌+◌, ◌-◌, ◌*◌, ◌/◌, ◌%◌, ◌^◌, ◌≤◌, ◌<◌, min, max, bit_and, bit_or, ◌≡◌, refl, sym,
  ap, ◌∙◌, ◌≢◌, ◌↔◌, ◌⊎◌, inl, inr, Bool, true, false, not, ◌&&◌, ◌||◌, Option, none, some, List,
  [], ◌∷◌, ◌++◌, map, append-nil, append_assoc, arith, ltb, leb, ◌==◌, if◌then◌else◌, ltb→lt,
  leb→le, ==_iff, Bool-cases, Option-cases, length, take, drop, any, all, filter, All,
  length-append, length-drop, length-take, All-append, take-length_append, drop-length_append,
  length-filter_le,
}
use ca_dns.Prelude.Text.{Text, text_eq, codes}
use ca_dns.Prelude.Sort.{sorted_set}
use ca_dns.Resolvers.{
  Answer, definitive, least, noerror, nxdomain, servfail, refused, timeout, error,
}

-- The settings (config.py) that `classify` reads.
pub record Settings : Type 0 where
  pub failed_retry_seconds : ℕ
  pub negative_min_seconds : ℕ
  pub negative_max_seconds : ℕ

pub data DomainStatus : Type 0 where
  resolved no_domain no_data failed : DomainStatus

pub record Outcome : Type 0 where
  pub status : DomainStatus
  pub answers : List Answer
  pub retry_after_seconds : Option ℕ

-- `Record` of worker/store.py.
pub record Record : Type 0 where
  pub rtype : Text
  pub address : Text
  pub resolver : Text
  pub ttl : ℕ

abbrev pub or_zero : Option ℕ → ℕ
or_zero none = 0
or_zero (some n) = n

abbrev pub record_of : Answer → Text → Record
record_of answer address = record {
  rtype = answer.rtype;
  address = address;
  resolver = answer.resolver;
  ttl = or_zero answer.ttl;
}

unfoldable pub records_of : List Answer → List Record
records_of [] = []
records_of (a ∷ answers) = map (record_of a) a.addresses ++ records_of answers

abbrev pub records : Outcome → List Record
records outcome = records_of outcome.answers

unfoldable pub all_addresses : List Answer → List Text
all_addresses [] = []
all_addresses (a ∷ answers) = a.addresses ++ all_addresses answers

-- The set of addresses, as its members in order.
abbrev pub addresses : Outcome → List Text
addresses outcome = sorted_set (all_addresses outcome.answers)

abbrev pub has_addresses : Answer → Bool
has_addresses answer = elim answer.addresses [ [] ↦ false | address ∷ rest ↦ true ]

abbrev pub is_nxdomain : Answer → Bool
is_nxdomain answer = elim answer.status [
  | noerror ↦ false
  | nxdomain ↦ true
  | servfail ↦ false
  | refused ↦ false
  | timeout ↦ false
  | error ↦ false
]

-- `any(a.definitive for a in answers if a.rtype == rtype)`
abbrev pub answered_for : List Answer → Text → Bool
answered_for answers rtype = any definitive (filter (λ a. text_eq a.rtype rtype) answers)

-- The first loop of `classify`: whether it returns. The set's order does not show.
abbrev pub unanswered : List Answer → List Text → Bool
unanswered answers types = any (λ rtype. not (answered_for answers rtype)) types

unfoldable pub negative_ttls : List Answer → List ℕ
negative_ttls [] = []
negative_ttls (a ∷ answers) = elim a.negative_ttl [
  | none ↦ negative_ttls answers
  | some ttl ↦ ttl ∷ negative_ttls answers
]

abbrev pub least_or : ℕ → List ℕ → ℕ
least_or default [] = default
least_or default (x ∷ xs) = least x xs

-- The seconds until a domain without addresses may be asked for again.
unfoldable pub backoff_of : List Answer → Settings → ℕ
unfolding negative_ttls
backoff_of answers settings =
    let backoff = least_or settings.negative_min_seconds (negative_ttls answers) in
    max settings.negative_min_seconds (min settings.negative_max_seconds backoff)

unfoldable pub classify : List Answer → Settings → Outcome
unfolding backoff_of
classify answers settings =
    if unanswered answers (sorted_set (map (λ (a : Answer). a.rtype) answers))
    then record {
      status = failed;
      answers = answers;
      retry_after_seconds = some settings.failed_retry_seconds;
    }
    else if any has_addresses answers
    then record { status = resolved; answers = answers; retry_after_seconds = none }
    else record {
      status = if any is_nxdomain answers then no_domain else no_data;
      answers = answers;
      retry_after_seconds = some (backoff_of answers settings);
    }
