-- ===== src/Config.antt =====
-- services/src/cadns/config.py: the validators and the settings that are computed from others.
-- `strip` is `str.strip`, and `strip_dots` its use with ".".
pub mod Parts
mod Tests
use ca_dns.Prelude.{
  ℕ, zero, suc, ◌+◌, ◌-◌, ◌*◌, ◌/◌, ◌%◌, ◌^◌, ◌≤◌, ◌<◌, min, max, bit_and, bit_or, ◌≡◌, refl, sym,
  ap, ◌∙◌, ◌≢◌, ◌↔◌, ◌⊎◌, inl, inr, Bool, true, false, not, ◌&&◌, ◌||◌, Option, none, some, List,
  [], ◌∷◌, ◌++◌, map, append-nil, append_assoc, arith, ltb, leb, ◌==◌, if◌then◌else◌, ltb→lt,
  leb→le, ==_iff, Bool-cases, Option-cases, length, take, drop, any, all, filter, All,
  length-append, length-drop, length-take, All-append, take-length_append, drop-length_append,
  length-filter_le,
}
use ca_dns.Prelude.Text.{Text, split, join}
use ca_dns.Prelude.Sort.{sorted_set}
use ca_dns.Collector.Dnstap.{lower}
use ca_dns.Queue.{QueuePolicy}

abbrev pub comma : ℕ
comma = 44

abbrev pub non_empty : Text → Bool
non_empty [] = false
non_empty (c ∷ cs) = true

-- `_empty_secret_is_none` and `_empty_is_none`, on a value that is set.
abbrev pub empty_is_none : Text → Option Text
empty_is_none [] = none
empty_is_none (c ∷ cs) = some (c ∷ cs)

module _ (strip : Text → Text) where
  -- `[part.strip() for part in value.split(",") if part.strip()]`
  unfoldable pub stripped_parts : Text → List Text
  stripped_parts value = filter non_empty (map strip (split comma value))

  -- `_valid_resolvers`; `none` is a ValueError, of its own or of `ipaddress.ip_address`.
  unfoldable pub valid_resolvers : (Text → Bool) → Text → Option Text
  unfolding stripped_parts
  valid_resolvers is_address value = elim (stripped_parts value) [
    | [] ↦ none
    | address ∷ addresses ↦
        if all is_address (address ∷ addresses)
        then some (join comma (address ∷ addresses))
        else none
  ]

  -- `ignore_suffixes`, as the set's members in order.
  unfoldable pub ignore_suffixes : (Text → Text) → Text → List Text
  ignore_suffixes strip_dots collector_ignore_suffixes = sorted_set (
      map lower (
        filter non_empty
          (map (λ part. strip_dots (strip part)) (split comma collector_ignore_suffixes))))

-- `Settings.resolvers`
unfoldable pub resolvers : Text → List Text
resolvers upstream_resolvers = split comma upstream_resolvers

-- The settings of the queue, and `queue_policy`.
pub record QueueSettings : Type 0 where
  pub queue_lock_timeout_seconds : ℕ
  pub queue_max_attempts : ℕ
  pub queue_retry_base_seconds : ℕ
  pub queue_retry_max_seconds : ℕ
  pub queue_dead_cooldown_seconds : ℕ

abbrev pub queue_policy : QueueSettings → QueuePolicy
queue_policy settings = record {
  lock_timeout_seconds = settings.queue_lock_timeout_seconds;
  max_attempts = settings.queue_max_attempts;
  retry_base_seconds = settings.queue_retry_base_seconds;
  retry_max_seconds = settings.queue_retry_max_seconds;
  dead_cooldown_seconds = settings.queue_dead_cooldown_seconds;
}
