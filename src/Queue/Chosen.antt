-- ===== src/Queue/Chosen.antt =====
-- The SELECT of `claim`: candidates only, no domain twice, the oldest first.
use ca_dns.Prelude.{
  ℕ, zero, suc, ◌≤◌, ◌<◌, ◌≡◌, refl, ◌≢◌, inl, inr, Bool, true, false, not, ◌&&◌, ◌||◌, List, [],
  ◌∷◌, arith, leb→le, Bool-cases, length, take, any, filter, length-take,
}
use ca_dns.Prelude.Text.{Text, text_eq, text_eq_iff}
use ca_dns.Prelude.Any.{any→In}
use ca_dns.Prelude.Sort.{insert_by, sort_by, In}
use ca_dns.Prelude.Sorted.{
  In-take, In-take_or_drop, length-take_of_left, In-filter, filter-In, In-sort_by, sort_by-In,
  Sorted, take_before_drop, sort_by-Sorted,
}
use ca_dns.Queue.{QueuePolicy, Row, Table, is_ready, older, chosen, has_domain}
use ca_dns.Queue.Rows.{Distinct, Distinct-filter}
use ca_dns.Queue.Members.{
  In→has_domain, has_domain→In, Distinct-In, with_domains, length-with_domains,
}

module _ (leq : Row → Row → Bool) where
  has_domain-insert_by :
      (d : Text) (x : Row) (ys : List Row)
      → has_domain d (insert_by leq x ys) ≡ (text_eq x.domain d || has_domain d ys)
  unfolding insert_by
  has_domain-insert_by d x [] = refl
  has_domain-insert_by d x (y ∷ ys) = ground (arith, has_domain-insert_by d x ys)

  Distinct-insert_by :
      (x : Row) (ys : List Row)
      → has_domain x.domain ys ≡ false
      → Distinct ys
      → Distinct (insert_by leq x ys)
  unfolding insert_by
  Distinct-insert_by x [] h d = (refl, tt)
  Distinct-insert_by x (y ∷ ys) h d = ground (
    arith,
    h,
    d,
    Distinct-insert_by x ys,
    has_domain-insert_by y.domain x ys,
    text_eq_iff x.domain y.domain,
    text_eq_iff y.domain x.domain,
  )

  has_domain-sort_by : (d : Text) (xs : List Row) → has_domain d (sort_by leq xs) ≡ has_domain d xs
  unfolding sort_by
  has_domain-sort_by d [] = refl
  has_domain-sort_by d (x ∷ xs) =
      ground (arith, has_domain-insert_by d x (sort_by leq xs), has_domain-sort_by d xs)

  Distinct-sort_by : (xs : List Row) → Distinct xs → Distinct (sort_by leq xs)
  unfolding sort_by
  Distinct-sort_by [] d = tt
  Distinct-sort_by (x ∷ xs) d =
      Distinct-insert_by x (sort_by leq xs) (rw (has_domain-sort_by x.domain xs) d.0)
        (Distinct-sort_by xs d.1)

has_domain-take :
    (n : ℕ) (d : Text) (xs : List Row) → has_domain d xs ≡ false → has_domain d (take n xs) ≡ false
has_domain-take zero d xs h = refl
has_domain-take (suc n) d [] h = refl
has_domain-take (suc n) d (x ∷ xs) h = ground (arith, has_domain-take n d xs)

Distinct-take : (n : ℕ) (xs : List Row) → Distinct xs → Distinct (take n xs)
Distinct-take zero xs d = tt
Distinct-take (suc n) [] d = tt
Distinct-take (suc n) (x ∷ xs) d = (has_domain-take n x.domain xs d.0, Distinct-take n xs d.1)

length-In : (rows : List Row) (row : Row) → In row rows → length rows ≢ 0
length-In [] row h e = h
length-In (r ∷ rs) row h e = ground (arith, e)

module _ (policy : QueuePolicy) (now : ℕ) (busy : Text → Bool) (limit : ℕ) (table : Table)
    (distinct : Distinct table) where
  abbrev pub candidate : Row → Bool
  candidate row = is_ready policy now row && not (busy row.domain)

  pub chosen-Distinct : Distinct (chosen policy now busy limit table)
  unfolding chosen
  chosen-Distinct =
      Distinct-take limit _ (Distinct-sort_by older _ (Distinct-filter candidate table distinct))

  pub chosen→candidate :
      (row : Row)
      → In row (chosen policy now busy limit table)
      → In row table × (candidate row ≡ true)
  unfolding chosen
  chosen→candidate row h =
      In-filter candidate table row (In-sort_by older _ row (In-take limit _ row h))

  -- A row of the table whose domain was chosen is the chosen row.
  pub has_domain→chosen :
      (row : Row)
      → In row table
      → has_domain row.domain (chosen policy now busy limit table) ≡ true
      → In row (chosen policy now busy limit table)
  has_domain→chosen row there h =
      let (r, found, e) = has_domain→In row.domain (chosen policy now busy limit table) h in
      let same : r ≡ row = Distinct-In table r row distinct (chosen→candidate r found).0 there e in
      rw same at found

  pub length-chosen-le : length (chosen policy now busy limit table) ≤ limit
  unfolding chosen
  length-chosen-le = omega (arith, length-take limit (sort_by older (filter candidate table)))

  pub length-jobs :
      length (with_domains (chosen policy now busy limit table) table)
      ≡ length (chosen policy now busy limit table)
  length-jobs =
      length-with_domains (chosen policy now busy limit table) table chosen-Distinct distinct
        (λ row h. In→has_domain table row (chosen→candidate row h).0)

  -- A candidate is left only when the choice is full.
  pub choice_full :
      (other : Row)
      → In other table
      → candidate other ≡ true
      → has_domain other.domain (chosen policy now busy limit table) ≡ false
      → length (chosen policy now busy limit table) ≡ limit
  unfolding chosen
  choice_full other there fits unchosen =
      let found =
        sort_by-In older (filter candidate table) other
          (filter-In candidate table other there fits) in
      elim (In-take_or_drop limit _ other found) [
        | inl taken ↦ absurd (ground (arith, In→has_domain _ other taken, unchosen))
        | inr left ↦ length-take_of_left limit _ other left
      ]

  -- A candidate that is not chosen comes behind those that are, and the choice is full.
  pub left_over :
      (row other : Row)
      → In row (chosen policy now busy limit table)
      → In other table
      → candidate other ≡ true
      → has_domain other.domain (chosen policy now busy limit table) ≡ false
      → (row.enqueued_at ≤ other.enqueued_at)
        × (length (chosen policy now busy limit table) ≡ limit)
  unfolding chosen
  left_over row other h there fits unchosen =
      let sorted : Sorted older (sort_by older (filter candidate table)) =
        sort_by-Sorted older (λ a b e. ground (arith, e)) (λ a b c e e'. ground (arith, e, e'))
          (filter candidate table) in
      let found =
        sort_by-In older (filter candidate table) other
          (filter-In candidate table other there fits) in
      elim (In-take_or_drop limit _ other found) [
        | inl taken ↦ absurd (ground (arith, In→has_domain _ other taken, unchosen))
        | inr left ↦ (
          leb→le _ _ (take_before_drop older limit _ row other sorted h left),
          length-take_of_left limit _ other left,
        )
      ]

  -- When nothing is chosen, though the limit allows it, there is no candidate.
  pub none_chosen :
      length (chosen policy now busy limit table) ≡ 0 → 0 < limit → any candidate table ≡ false
  unfolding chosen
  none_chosen empty positive = elim (Bool-cases (any candidate table)) [
    | inl some_candidate ↦
        let (row, there, fits) = any→In candidate table some_candidate in
        let found =
          sort_by-In older (filter candidate table) row
            (filter-In candidate table row there fits) in
        elim (In-take_or_drop limit _ row found) [
          | inl taken ↦ absurd (length-In _ row taken empty)
          | inr left ↦
              absurd (ground (arith, length-take_of_left limit _ row left, empty, positive))
        ]
    | inr none_left ↦ none_left
  ]
