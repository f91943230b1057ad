-- ===== src/Queue/Enqueue.antt =====
-- `enqueue`: one row per domain, and a dead row only once its cooldown has passed.
use ca_dns.Prelude.{
  ℕ, ◌≡◌, refl, ◌↔◌, false, not, ◌&&◌, Option, none, some, List, [], ◌∷◌, arith, if◌then◌else◌, any,
}
use ca_dns.Prelude.Text.{Text, text_eq, text_eq_iff, text_eq_refl}
use ca_dns.Prelude.Sort.{sorted_set, any-sorted_set}
use ca_dns.Queue.{Reason, Row, Table, upsert, upsert_all, is_empty, enqueue}
use ca_dns.Queue.Rows.{find, WellFormed, upserted, upsert-found, find-upsert, upsert-WellFormed}

module _ (now : ℕ) (reason : Reason) where
  -- A second INSERT at the same time finds the row in order.
  upserted_again :
      (reason' : Reason) (domain : Text) (row : Option Row)
      → upserted now reason' domain (some (upserted now reason domain row).1)
        ≡ (false, (upserted now reason domain row).1)
  upserted_again reason' domain none = refl
  upserted_again reason' domain (some row) = ground arith

  find-upsert_all :
      (e : Text) (domains : List Text) (table : Table)
      → find e (upsert_all now reason domains table).1 ≡ (
          if any (text_eq e) domains
          then some (upserted now reason e (find e table)).1
          else find e table)
  unfolding upsert_all
  find-upsert_all e [] table = refl
  find-upsert_all e (d ∷ ds) table = ground (
    arith,
    find-upsert_all e ds (upsert now reason d table).1,
    find-upsert now reason d e table,
    upserted_again reason e (find e table),
    text_eq_iff d e,
    text_eq_iff e d,
  )

  queued-upsert_all :
      (e : Text) (domains : List Text) (table : Table)
      → any (text_eq e) (upsert_all now reason domains table).0
        ≡ (any (text_eq e) domains && (upserted now reason e (find e table)).0)
  unfolding upsert_all
  queued-upsert_all e [] table = refl
  queued-upsert_all e (d ∷ ds) table = ground (
    arith,
    queued-upsert_all e ds (upsert now reason d table).1,
    find-upsert now reason d e table,
    upsert-found now reason d table,
    upserted_again reason e (find e table),
    text_eq_iff d e,
    text_eq_iff e d,
  )

  upsert_all-WellFormed :
      (domains : List Text) {table : Table}
      → WellFormed table
      → WellFormed (upsert_all now reason domains table).1
  unfolding upsert_all
  upsert_all-WellFormed [] h = h
  upsert_all-WellFormed (d ∷ ds) h = upsert_all-WellFormed ds (upsert-WellFormed now reason d h)

pub enqueue-WellFormed :
    (now : ℕ) (domains : List Text) (reason : Reason) {table : Table}
    → WellFormed table
    → WellFormed (enqueue now domains reason table).table
unfolding enqueue
enqueue-WellFormed now domains reason h = upsert_all-WellFormed now reason (sorted_set domains) h

none_notified : (queued : List Text) → (not (is_empty queued) ≡ false) ↔ (queued ≡ [])
none_notified [] = (λ h. refl, λ h. refl)
none_notified (x ∷ xs) = (λ h. cc, λ h. cc)

nothing_listed : (xs : List Text) → ((e : Text) → any (text_eq e) xs ≡ false) → xs ≡ []
nothing_listed [] h = refl
nothing_listed (x ∷ xs) h = ground (arith, h x, text_eq_refl x)

-- For every domain `e`: among `domains`, its row after `enqueue` is a new pending row if it had none
-- or had a dead one whose `next_attempt_at` has come, and its old row otherwise; any other domain
-- keeps its row or its absence. The domains returned are exactly those that got a new row, and the
-- notification is sent exactly when there are any.
pub enqueue_rows :
    (now : ℕ) (domains : List Text) (reason : Reason) (table : Table) (e : Text)
    → (find e (enqueue now domains reason table).table ≡ (
        if any (text_eq e) domains
        then some (upserted now reason e (find e table)).1
        else find e table))
      × (any (text_eq e) (enqueue now domains reason table).queued
          ≡ (any (text_eq e) domains && (upserted now reason e (find e table)).0))
      × (((enqueue now domains reason table).notified ≡ false)
          ↔ ((enqueue now domains reason table).queued ≡ []))
unfolding enqueue
enqueue_rows now domains reason table e = (
  rw (find-upsert_all now reason e (sorted_set domains) table, any-sorted_set e domains),
  rw (queued-upsert_all now reason e (sorted_set domains) table, any-sorted_set e domains),
  none_notified (upsert_all now reason (sorted_set domains) table).0,
)

again_none :
    (now : ℕ) (domains : List Text) (reason reason' : Reason) (table : Table) (e : Text)
    → (any (text_eq e) (enqueue now domains reason' (enqueue now domains reason table).table).queued
        ≡ false)
      × (find e (enqueue now domains reason' (enqueue now domains reason table).table).table
          ≡ find e (enqueue now domains reason table).table)
again_none now domains reason reason' table e =
    let (row, _, _) = enqueue_rows now domains reason table e in
    let (row', queued', _) =
      enqueue_rows now domains reason' (enqueue now domains reason table).table e in
    let again = upserted_again now reason reason' e (find e table) in
    ground (arith, row, row', queued', again)

-- Enqueueing the same domains again at the same time, for any reason, returns nothing, sends no
-- notification and leaves the row of every domain as it is.
pub enqueue-enqueue :
    (now : ℕ) (domains : List Text) (reason reason' : Reason) (table : Table) (e : Text)
    → ((enqueue now domains reason' (enqueue now domains reason table).table).queued ≡ [])
      × ((enqueue now domains reason' (enqueue now domains reason table).table).notified ≡ false)
      × (find e (enqueue now domains reason' (enqueue now domains reason table).table).table
          ≡ find e (enqueue now domains reason table).table)
enqueue-enqueue now domains reason reason' table e =
    let nothing = nothing_listed _ (λ d. (again_none now domains reason reason' table d).0) in
    (
      nothing,
      (enqueue_rows now domains reason' (enqueue now domains reason table).table e).2.1 nothing,
      (again_none now domains reason reason' table e).1,
    )
