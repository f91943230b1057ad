-- ===== src/Collector/Batches/Misses.antt =====
-- Which misses a batch puts on the queue.
use mathlib.Core.Option.{some-injective}
use ca_dns.Prelude.{
  ℕ, ◌≡◌, refl, sym, ◌∙◌, inl, inr, Bool, true, false, ◌&&◌, ◌||◌, Option, none, some, List, [],
  ◌∷◌, map, arith, Bool-cases, Option-cases, any, all,
}
use ca_dns.Prelude.Text.{Text, text_eq, text_eq_iff, text_eq_refl}
use ca_dns.Prelude.Sort.{sort_by}
use ca_dns.Prelude.Sorted.{In-sort_by, sort_by-In}
use ca_dns.Prelude.Any.{any→In, In→any}
use ca_dns.Queue.{enqueue, is_empty, miss as missed}
use ca_dns.Queue.Rows.{find, upserted}
use ca_dns.Queue.Enqueue.{enqueue_rows}
use ca_dns.Collector.Batches.{
  Dict, lookup, Batch, Domain, Database, record_hits, name_allowed, find_domain, upsert_domain,
  upsert_domains, not_later, earlier, is_due, due_names, by_name, write_batch,
}

-- A domain without a row, or one that may be measured again and was not since the miss.
abbrev pub wants : ℕ → ℕ → Option Domain → Bool
wants now when none = true
wants now when (some d) = not_later d.retry_after now && earlier d.measured_at when

abbrev has_row : Option Domain → Bool
has_row none = false
has_row (some d) = true

is_due-wants :
    (now when : ℕ) (row : Option Domain) → is_due now when row ≡ (has_row row && wants now when row)
unfolding is_due
is_due-wants now when none = refl
is_due-wants now when (some d) = refl

record_hits_keeps :
    (hits : Dict (ℕ × ℕ)) (d : Domain)
    → ((record_hits hits d).name ≡ d.name)
      × ((record_hits hits d).retry_after ≡ d.retry_after)
      × ((record_hits hits d).measured_at ≡ d.measured_at)
record_hits_keeps hits d = elim (Option-cases (lookup d.name hits)) [
  | inl found ↦ rw (record_hits, found) (refl, refl, refl)
  | inr (hit, found) ↦ rw (record_hits, found) (refl, refl, refl)
]

wants-record_hits :
    (now when : ℕ) (hits : Dict (ℕ × ℕ)) (e : Text) (ds : List Domain)
    → wants now when (find_domain e (map (record_hits hits) ds)) ≡ wants now when (find_domain e ds)
unfolding find_domain
wants-record_hits now when hits e [] = refl
wants-record_hits now when hits e (d ∷ ds) =
    let (name, retry, measured) = record_hits_keeps hits d in
    let rest = wants-record_hits now when hits e ds in
    rw name (elim (Bool-cases (text_eq d.name e)) [
      | inl here ↦ rw (here, retry, measured) refl
      | inr elsewhere ↦ rw elsewhere rest
    ])

wants-upsert_domain :
    (now when : ℕ) (name : Text) (time : ℕ) (e : Text) (ds : List Domain)
    → wants now when (find_domain e (upsert_domain name time ds))
      ≡ wants now when (find_domain e ds)
unfolding find_domain upsert_domain
wants-upsert_domain now when name time e [] = ground arith
wants-upsert_domain now when name time e (d ∷ ds) =
    ground (arith, wants-upsert_domain now when name time e ds, text_eq_iff d.name name)

wants-upsert_domains :
    (now when : ℕ) (e : Text) (misses : Dict ℕ) (ds : List Domain)
    → wants now when (find_domain e (upsert_domains misses ds)) ≡ wants now when (find_domain e ds)
unfolding upsert_domains
wants-upsert_domains now when e [] ds = refl
wants-upsert_domains now when e ((name, time) ∷ misses) ds =
    wants-upsert_domains now when e misses (upsert_domain name time ds)
    ∙ wants-upsert_domain now when name time e ds

has_row-upsert_domain :
    (name : Text) (time : ℕ) (e : Text) (ds : List Domain)
    → has_row (find_domain e (upsert_domain name time ds))
      ≡ (text_eq name e || has_row (find_domain e ds))
unfolding find_domain upsert_domain
has_row-upsert_domain name time e [] = ground arith
has_row-upsert_domain name time e (d ∷ ds) =
    ground (arith, has_row-upsert_domain name time e ds, text_eq_iff d.name name)

has_row-upsert_domains :
    (e : Text) (misses : Dict ℕ) (ds : List Domain)
    → has_row (find_domain e (upsert_domains misses ds))
      ≡ (any (λ (entry : Text × ℕ). text_eq entry.0 e) misses || has_row (find_domain e ds))
unfolding upsert_domains
has_row-upsert_domains e [] ds = refl
has_row-upsert_domains e ((name, time) ∷ misses) ds = ground (
  arith,
  has_row-upsert_domains e misses (upsert_domain name time ds),
  has_row-upsert_domain name time e ds,
)

any-due_names :
    (now : ℕ) (ds : List Domain) (e : Text) (misses : Dict ℕ)
    → any (text_eq e) (due_names now ds misses)
      ≡ any
          (λ (entry : Text × ℕ). text_eq e entry.0 && is_due now entry.1 (find_domain e ds))
          misses
unfolding due_names
any-due_names now ds e [] = refl
any-due_names now ds e ((name, when) ∷ misses) = elim (Bool-cases (text_eq e name)) [
  | inl same ↦
      let at : e ≡ name = (text_eq_iff e name).0 same in
      rw (← at) (ground (arith, any-due_names now ds e misses, text_eq_refl e))
  | inr differs ↦ ground (arith, differs, any-due_names now ds e misses)
]

-- Whether some miss of the name wants a measurement.
abbrev pub wanted : ℕ → Text → Option Domain → Dict ℕ → Bool
wanted now e row misses =
    any (λ (entry : Text × ℕ). text_eq e entry.0 && wants now entry.1 row) misses

any-is_due :
    (now : ℕ) (e : Text) (row before : Option Domain) (misses : Dict ℕ)
    → ((when : ℕ) → wants now when row ≡ wants now when before)
    → (any (λ (entry : Text × ℕ). text_eq entry.0 e) misses ≡ true → has_row row ≡ true)
    → any (λ (entry : Text × ℕ). text_eq e entry.0 && is_due now entry.1 row) misses
      ≡ wanted now e before misses
any-is_due now e row before [] same has = refl
any-is_due now e row before ((name, when) ∷ misses) same has =
    let rest = any-is_due now e row before misses same (λ h. has (ground (arith, h))) in
    elim (Bool-cases (text_eq e name)) [
      | inl here ↦
          let back : text_eq name e ≡ true =
            (text_eq_iff name e).1 (sym ((text_eq_iff e name).0 here)) in
          let there : has_row row ≡ true = has (ground (arith, back)) in
          ground (arith, here, there, rest, same when, is_due-wants now when row)
      | inr differs ↦ ground (arith, differs, rest)
    ]

any-sort_by :
    (p : Text × ℕ → Bool) (misses : Dict ℕ) → any p (sort_by by_name misses) ≡ any p misses
any-sort_by p misses = elim (Bool-cases (any p misses)) [
  | inl met ↦
      let (x, there, h) = any→In p misses met in
      In→any p _ x (sort_by-In by_name misses x there) h ∙ sym met
  | inr unmet ↦ elim (Bool-cases (any p (sort_by by_name misses))) [
    | inl met ↦
        let (x, there, h) = any→In p _ met in
        met ∙ sym (In→any p misses x (In-sort_by by_name misses x there) h)
    | inr unmet' ↦ unmet' ∙ sym unmet
  ]
]

none_of_empty :
    (p : Text × ℕ → Bool) (misses : Dict ℕ) → is_empty misses ≡ true → any p misses ≡ false
none_of_empty p [] h = refl
none_of_empty p (x ∷ xs) h = ground (arith, h)

-- The names that the SELECT returns, from the domains before the batch.
due-wanted :
    (now : ℕ) (hits : Dict (ℕ × ℕ)) (misses : Dict ℕ) (ds : List Domain) (e : Text)
    → any (text_eq e) (
        due_names now
          (upsert_domains (sort_by by_name misses) (map (record_hits hits) ds))
          (sort_by by_name misses))
      ≡ wanted now e (find_domain e ds) misses
due-wanted now hits misses ds e =
    let sorted = sort_by by_name misses in
    let touched = map (record_hits hits) ds in
    let row = find_domain e (upsert_domains sorted touched) in
    let same : (when : ℕ) → wants now when row ≡ wants now when (find_domain e ds) = λ when.
      wants-upsert_domains now when e sorted touched ∙ wants-record_hits now when hits e ds in
    let has : any (λ (entry : Text × ℕ). text_eq entry.0 e) sorted ≡ true → has_row row ≡ true =
      λ h. ground (arith, h, has_row-upsert_domains e sorted touched) in
    any-due_names now (upsert_domains sorted touched) e sorted
    ∙ any-is_due now e row (find_domain e ds) sorted same has
    ∙ any-sort_by (λ (entry : Text × ℕ). text_eq e entry.0 && wants now entry.1 (find_domain e ds))
        misses

-- When the constraint on names accepts a batch, a name is queued exactly when one of its misses wants
-- a measurement of the domain as it was before the batch, hits included, and the queue has no row for
-- it, or a dead one whose cooldown is over; and a batch without misses queues nothing.
pub write_batch-misses :
    (now : ℕ) (batch : Batch) (db : Database) (queued : List Text) (e : Text)
    → (write_batch now batch db).0 ≡ some queued
    → any (text_eq e) queued ≡ (
        wanted now e (find_domain e db.domains) batch.misses
        && (upserted now missed e (find e db.queue)).0)
unfolding write_batch
write_batch-misses now batch db queued e accepted =
    let sorted = sort_by by_name batch.misses in
    let due =
      due_names now (upsert_domains sorted (map (record_hits batch.hits) db.domains)) sorted in
    elim (Bool-cases (is_empty batch.misses)) [
      | inl none_missed ↦
          let same : [] ≡ queued = some-injective _ _ (rw none_missed at accepted) in
          let unwanted : wanted now e (find_domain e db.domains) batch.misses ≡ false =
            none_of_empty _ batch.misses none_missed in
          rw (← same, unwanted) refl
      | inr missed_some ↦
          elim (Bool-cases (all (λ (entry : Text × ℕ). name_allowed entry.0) sorted)) [
            | inr refused ↦
                let failed : none ≡ some queued = rw (missed_some, refused) at accepted in
                absurd (ground (arith, failed))
            | inl allowed ↦
                let same : (enqueue now due missed db.queue).queued ≡ queued =
                  some-injective _ _ (rw (missed_some, allowed) at accepted) in
                let (_, listed, _) = enqueue_rows now due missed db.queue e in
                rw (← same, ← due-wanted now batch.hits batch.misses db.domains e) listed
          ]
    ]
