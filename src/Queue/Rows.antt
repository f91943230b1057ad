-- ===== src/Queue/Rows.antt =====
-- The rows of the queue by their domain, which is the table's primary key.
use mathlib.Core.Option
use ca_dns.Prelude.{
  ℕ, ◌≡◌, refl, inl, inr, Bool, true, false, ◌&&◌, ◌||◌, Option, none, some, [], ◌∷◌, arith, leb,
  if◌then◌else◌, Bool-cases, filter, All,
}
use ca_dns.Prelude.Text.{Text, text_eq, text_eq_iff}
use ca_dns.Queue.{
  Reason, dead, Row, Table, is_none, is_dead, new_row, upsert, update_where, has_domain,
}

-- The row of a domain.
unfoldable pub find : Text → Table → Option Row
find domain [] = none
find domain (row ∷ rows) = if text_eq row.domain domain then some row else find domain rows

-- No two rows have one domain.
abbrev pub Distinct : Table → Type 0
Distinct [] = Unit
Distinct (row ∷ rows) = (has_domain row.domain rows ≡ false) × Distinct rows

-- A change of rows that keeps the primary key.
abbrev pub KeepsDomain : (Row → Row) → Type 0
KeepsDomain change = (row : Row) → (change row).domain ≡ row.domain

abbrev pub on_row : (Row → Bool) → (Row → Row) → Row → Row
on_row test change row = if test row then change row else row

module _ (test : Row → Bool) (change : Row → Row) (keeps : KeepsDomain change) where
  pub has_domain-update_where :
      (domain : Text) (rows : Table)
      → has_domain domain (update_where test change rows) ≡ has_domain domain rows
  unfolding update_where
  has_domain-update_where domain [] = refl
  has_domain-update_where domain (row ∷ rows) =
      ground (arith, keeps row, has_domain-update_where domain rows)

  pub Distinct-update_where :
      (rows : Table) → Distinct rows → Distinct (update_where test change rows)
  unfolding update_where
  Distinct-update_where [] h = tt
  Distinct-update_where (row ∷ rows) h = (
    ground (arith, keeps row, has_domain-update_where row.domain rows),
    Distinct-update_where rows h.1,
  )

  -- An update shows in the row of a domain as the change of that row alone.
  pub find-update_where :
      (domain : Text) (rows : Table)
      → find domain (update_where test change rows)
        ≡ Option.map (on_row test change) (find domain rows)
  unfolding find update_where
  find-update_where domain [] = refl
  find-update_where domain (row ∷ rows) = ground (arith, keeps row, find-update_where domain rows)

abbrev pub keep_if : (Row → Bool) → Option Row → Option Row
keep_if p none = none
keep_if p (some row) = if p row then some row else none

pub find_absent :
    (domain : Text) (rows : Table) → has_domain domain rows ≡ false → find domain rows ≡ none
unfolding find
find_absent domain [] h = refl
find_absent domain (row ∷ rows) h = ground (arith, find_absent domain rows)

module _ (p : Row → Bool) where
  pub has_domain-filter :
      (domain : Text) (rows : Table)
      → has_domain domain rows ≡ false
      → has_domain domain (filter p rows) ≡ false
  has_domain-filter domain [] h = refl
  has_domain-filter domain (row ∷ rows) h = ground (arith, has_domain-filter domain rows)

  pub Distinct-filter : (rows : Table) → Distinct rows → Distinct (filter p rows)
  Distinct-filter [] h = tt
  Distinct-filter (row ∷ rows) h =
      ground (arith, has_domain-filter row.domain rows h.0, Distinct-filter rows h.1)

  pub find-filter :
      (domain : Text) (rows : Table)
      → Distinct rows
      → find domain (filter p rows) ≡ keep_if p (find domain rows)
  unfolding find
  find-filter domain [] h = refl
  find-filter domain (row ∷ rows) h =
      ground
        (arith, find-filter domain rows h.1, text_eq_iff row.domain domain, find_absent domain rows)

-- A row that meets its table's constraint, and is not locked when dead.
pub record RowIsValid (row : Row) : Type 0 where
  pub lock_pair : is_none row.locked_by ≡ is_none row.locked_at
  pub dead_unlocked : row.state ≡ dead → row.locked_by ≡ none

pub record WellFormed (table : Table) : Type 0 where
  pub distinct : Distinct table
  pub valid : All RowIsValid table

pub All-update_where :
    (test : Row → Bool) (change : Row → Row) (rows : Table)
    → ((row : Row) → RowIsValid row → test row ≡ true → RowIsValid (change row))
    → All RowIsValid rows
    → All RowIsValid (update_where test change rows)
unfolding update_where
All-update_where test change [] keeps h = tt
All-update_where test change (row ∷ rows) keeps h = (
  elim (Bool-cases (test row)) [ inl met ↦ rw met (keeps row h.0 met) | inr unmet ↦ rw unmet h.0 ],
  All-update_where test change rows keeps h.1,
)

pub All-filter :
    (p : Row → Bool) (rows : Table) → All RowIsValid rows → All RowIsValid (filter p rows)
All-filter p [] h = tt
All-filter p (row ∷ rows) h = ground (arith, All-filter p rows h.1)

-- What an INSERT ON CONFLICT of a domain leaves in its row, and whether it returns it.
abbrev pub upserted : ℕ → Reason → Text → Option Row → Bool × Row
upserted now reason domain none = (true, new_row now domain reason)
upserted now reason domain (some row) =
    if is_dead row.state && leb row.next_attempt_at now
    then (true, new_row now row.domain reason)
    else (false, row)

new_row-RowIsValid :
    (now : ℕ) (domain : Text) (reason : Reason) → RowIsValid (new_row now domain reason)
new_row-RowIsValid now domain reason = record { lock_pair = refl; dead_unlocked = λ e. refl }

module _ (now : ℕ) (reason : Reason) (domain : Text) where
  pub upsert-found :
      (rows : Table)
      → (upsert now reason domain rows).0 ≡ (upserted now reason domain (find domain rows)).0
  unfolding upsert find
  upsert-found [] = refl
  upsert-found (row ∷ rows) = ground (arith, upsert-found rows)

  pub find-upsert :
      (other : Text) (rows : Table)
      → find other (upsert now reason domain rows).1 ≡ (
          if text_eq domain other
          then some (upserted now reason domain (find domain rows)).1
          else find other rows)
  unfolding upsert find
  find-upsert other [] = ground arith
  find-upsert other (row ∷ rows) = ground (
    arith,
    find-upsert other rows,
    text_eq_iff row.domain domain,
    text_eq_iff row.domain other,
    text_eq_iff domain other,
  )

  has_domain-upsert :
      (other : Text) (rows : Table)
      → has_domain other (upsert now reason domain rows).1
        ≡ (has_domain other rows || text_eq domain other)
  unfolding upsert
  has_domain-upsert other [] = ground arith
  has_domain-upsert other (row ∷ rows) = ground (
    arith,
    has_domain-upsert other rows,
    text_eq_iff row.domain domain,
    text_eq_iff row.domain other,
    text_eq_iff domain other,
  )

  upsert-Distinct : (rows : Table) → Distinct rows → Distinct (upsert now reason domain rows).1
  unfolding upsert
  upsert-Distinct [] h = (refl, tt)
  upsert-Distinct (row ∷ rows) h = ground (
    arith,
    upsert-Distinct rows h.1,
    has_domain-upsert row.domain rows,
    text_eq_iff row.domain domain,
    text_eq_iff domain row.domain,
  )

  upsert-valid :
      (rows : Table) → All RowIsValid rows → All RowIsValid (upsert now reason domain rows).1
  unfolding upsert
  upsert-valid [] h = (record { lock_pair = refl; dead_unlocked = λ e. refl }, tt)
  upsert-valid (row ∷ rows) h =
      ground (arith, upsert-valid rows h.1, new_row-RowIsValid now row.domain reason)

  pub upsert-WellFormed :
      {rows : Table} → WellFormed rows → WellFormed (upsert now reason domain rows).1
  upsert-WellFormed {rows} h = record {
    distinct = upsert-Distinct rows h.distinct;
    valid = upsert-valid rows h.valid;
  }
