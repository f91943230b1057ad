-- ===== src/Collector/Batches/Counts.antt =====
-- A batch counts the events of each name.
use ca_dns.Prelude.{
  ℕ, suc, ◌+◌, max, ◌≡◌, refl, ◌∙◌, inl, inr, Bool, true, false, not, ◌&&◌, Option, none, some,
  List, [], ◌∷◌, arith, if◌then◌else◌, Bool-cases, length,
}
use ca_dns.Prelude.Text.{Text, text_eq, text_eq_iff, text_eq_refl}
use ca_dns.Collector.Dnstap.{Kind, hit, miss, Event}
use ca_dns.Collector.Batches.{Dict, lookup, assign, get_or, Batch, empty_batch, add}

lookup-assign :
    {A : Type 0} (name key : Text) (value : A) (d : Dict A)
    → lookup name (assign key value d) ≡ (if text_eq key name then some value else lookup name d)
unfolding lookup assign
lookup-assign name key value [] = refl
lookup-assign name key value ((k, v) ∷ d) = ground (
  arith,
  lookup-assign name key value d,
  text_eq_iff k key,
  text_eq_iff k name,
  text_eq_iff key name,
)

-- Events as they come in, one after the other.
unfoldable pub add_all : List Event → Batch → Batch
add_all [] batch = batch
add_all (event ∷ events) batch = add_all events (add event.kind event.name event.time batch)

abbrev pub is_hit : Kind → Bool
is_hit hit = true
is_hit miss = false

-- The times of a name's hits, and of its misses.
abbrev pub hit_times : Text → List Event → List ℕ
hit_times name [] = []
hit_times name (e ∷ es) =
    if is_hit e.kind && text_eq e.name name then e.time ∷ hit_times name es else hit_times name es

abbrev pub miss_times : Text → List Event → List ℕ
miss_times name [] = []
miss_times name (e ∷ es) =
    if not (is_hit e.kind) && text_eq e.name name
    then e.time ∷ miss_times name es
    else miss_times name es

abbrev pub latest : List ℕ → ℕ
latest [] = 0
latest (t ∷ ts) = max t (latest ts)

-- How often and when last, where at all.
abbrev pub tally : List ℕ → Option (ℕ × ℕ)
tally [] = none
tally (t ∷ ts) = some (length (t ∷ ts), latest (t ∷ ts))

abbrev pub last_time : List ℕ → Option ℕ
last_time [] = none
last_time (t ∷ ts) = some (latest (t ∷ ts))

abbrev tally_on : Option (ℕ × ℕ) → List ℕ → Option (ℕ × ℕ)
tally_on o [] = o
tally_on o (t ∷ ts) = tally_on (some ((get_or o (0, 0)).0 + 1, max (get_or o (0, 0)).1 t)) ts

abbrev last_on : Option ℕ → List ℕ → Option ℕ
last_on o [] = o
last_on o (t ∷ ts) = last_on (some (max (get_or o 0) t)) ts

tally_on-some :
    (c l : ℕ) (ts : List ℕ) → tally_on (some (c, l)) ts ≡ some (c + length ts, max l (latest ts))
tally_on-some c l [] =
    let count : c + 0 ≡ c = omega arith in
    let last : max l 0 ≡ l = omega arith in rw (count, last) refl
tally_on-some c l (t ∷ ts) =
    let count : c + 1 + length ts ≡ c + suc (length ts) = omega arith in
    let last : max (max l t) (latest ts) ≡ max l (max t (latest ts)) = omega arith in
    tally_on-some (c + 1) (max l t) ts ∙ rw (count, last) refl

last_on-some : (l : ℕ) (ts : List ℕ) → last_on (some l) ts ≡ some (max l (latest ts))
last_on-some l [] = let last : max l 0 ≡ l = omega arith in rw last refl
last_on-some l (t ∷ ts) =
    let last : max (max l t) (latest ts) ≡ max l (max t (latest ts)) = omega arith in
    last_on-some (max l t) ts ∙ rw last refl

-- One event shows in the entries of its own name.
add-hits :
    (kind : Kind) (key : Text) (when : ℕ) (batch : Batch) (name : Text)
    → lookup name (add kind key when batch).hits ≡ (
        if is_hit kind && text_eq key name
        then some (
          (get_or (lookup name batch.hits) (0, 0)).0 + 1,
          max (get_or (lookup name batch.hits) (0, 0)).1 when,
        )
        else lookup name batch.hits)
unfolding add
add-hits miss key when batch name = refl
add-hits hit key when batch name =
    lookup-assign name key _ batch.hits ∙ elim (Bool-cases (text_eq key name)) [
      | inl same ↦ rw ((text_eq_iff key name).0 same, text_eq_refl name) refl
      | inr apart ↦ rw apart refl
    ]

add-misses :
    (kind : Kind) (key : Text) (when : ℕ) (batch : Batch) (name : Text)
    → lookup name (add kind key when batch).misses ≡ (
        if not (is_hit kind) && text_eq key name
        then some (max (get_or (lookup name batch.misses) 0) when)
        else lookup name batch.misses)
unfolding add
add-misses hit key when batch name = refl
add-misses miss key when batch name =
    lookup-assign name key _ batch.misses ∙ elim (Bool-cases (text_eq key name)) [
      | inl same ↦ rw ((text_eq_iff key name).0 same, text_eq_refl name) refl
      | inr apart ↦ rw apart refl
    ]

hits_on :
    (name : Text) (events : List Event) (batch : Batch)
    → lookup name (add_all events batch).hits
      ≡ tally_on (lookup name batch.hits) (hit_times name events)
unfolding add_all
hits_on name [] batch = refl
hits_on name (e ∷ es) batch =
    hits_on name es (add e.kind e.name e.time batch)
    ∙ elim (Bool-cases (is_hit e.kind && text_eq e.name name)) [
      | inl own ↦ rw (add-hits e.kind e.name e.time batch name, own) refl
      | inr apart ↦ rw (add-hits e.kind e.name e.time batch name, apart) refl
    ]

misses_on :
    (name : Text) (events : List Event) (batch : Batch)
    → lookup name (add_all events batch).misses
      ≡ last_on (lookup name batch.misses) (miss_times name events)
unfolding add_all
misses_on name [] batch = refl
misses_on name (e ∷ es) batch =
    misses_on name es (add e.kind e.name e.time batch)
    ∙ elim (Bool-cases (not (is_hit e.kind) && text_eq e.name name)) [
      | inl own ↦ rw (add-misses e.kind e.name e.time batch name, own) refl
      | inr apart ↦ rw (add-misses e.kind e.name e.time batch name, apart) refl
    ]

tally_on-none : (ts : List ℕ) → tally_on none ts ≡ tally ts
tally_on-none [] = refl
tally_on-none (t ∷ ts) =
    let count : 0 + 1 + length ts ≡ suc (length ts) = omega arith in
    let last : max (max 0 t) (latest ts) ≡ max t (latest ts) = omega arith in
    tally_on-some (0 + 1) (max 0 t) ts ∙ rw (count, last) refl

last_on-none : (ts : List ℕ) → last_on none ts ≡ last_time ts
last_on-none [] = refl
last_on-none (t ∷ ts) =
    let last : max (max 0 t) (latest ts) ≡ max t (latest ts) = omega arith in
    last_on-some (max 0 t) ts ∙ rw last refl

-- After any events from an empty batch on, the batch has for each name the number of its hits and the
-- time of its latest hit, and the time of its latest miss; a name without hits, or without misses,
-- has no entry among them.
pub add_all_counts :
    (events : List Event) (name : Text)
    → (lookup name (add_all events empty_batch).hits ≡ tally (hit_times name events))
      × (lookup name (add_all events empty_batch).misses ≡ last_time (miss_times name events))
unfolding lookup
add_all_counts events name = (
  hits_on name events empty_batch ∙ tally_on-none (hit_times name events),
  misses_on name events empty_batch ∙ last_on-none (miss_times name events),
)
