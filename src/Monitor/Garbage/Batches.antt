-- ===== src/Monitor/Garbage/Batches.antt =====
-- Deleting in batches deletes what one statement without a limit would.
use ca_dns.Prelude.{
  ℕ, zero, suc, ◌+◌, ◌<◌, ◌≡◌, refl, ◌∙◌, inl, inr, Bool, not, some, List, [], ◌∷◌, arith, ltb,
  ltb→lt, Bool-cases, length, filter,
}
use ca_dns.Monitor.Garbage.{delete_batch, batches_loop, delete_in_batches}

module _ {A : Type 0} where
  abbrev pub kept : (A → Bool) → List A → List A
  kept old rows = filter (λ row. not (old row)) rows

  abbrev pub matching : (A → Bool) → List A → ℕ
  matching old rows = length (filter old rows)

  delete_batch-counts :
      (old : A → Bool) (limit : ℕ) (rows : List A)
      → ((delete_batch old limit rows).0 + matching old (delete_batch old limit rows).1
          ≡ matching old rows)
        × ((delete_batch old limit rows).0 + length (delete_batch old limit rows).1 ≡ length rows)
  unfolding delete_batch
  delete_batch-counts old zero rows = (omega arith, omega arith)
  delete_batch-counts old (suc limit) [] = (omega arith, omega arith)
  delete_batch-counts old (suc limit) (row ∷ rows) =
      ground (arith, delete_batch-counts old limit rows, delete_batch-counts old (suc limit) rows)

  -- What does not match stays, and a batch below its limit leaves nothing that matches.
  pub delete_batch-kept :
      (old : A → Bool) (limit : ℕ) (rows : List A)
      → kept old (delete_batch old limit rows).1 ≡ kept old rows
  unfolding delete_batch
  delete_batch-kept old zero rows = refl
  delete_batch-kept old (suc limit) [] = refl
  delete_batch-kept old (suc limit) (row ∷ rows) =
      ground (arith, delete_batch-kept old limit rows, delete_batch-kept old (suc limit) rows)

  delete_batch_short :
      (old : A → Bool) (limit : ℕ) (rows : List A)
      → (delete_batch old limit rows).0 < limit
      → (delete_batch old limit rows).1 ≡ kept old rows
  unfolding delete_batch
  delete_batch_short old zero rows h = absurd (omega (arith, h))
  delete_batch_short old (suc limit) [] h = refl
  delete_batch_short old (suc limit) (row ∷ rows) h =
      ground (arith, h, delete_batch_short old limit rows, delete_batch_short old (suc limit) rows)

  matching-kept : (old : A → Bool) (rows : List A) → matching old (kept old rows) ≡ 0
  matching-kept old [] = refl
  matching-kept old (row ∷ rows) = ground (arith, matching-kept old rows)

module _ {A : Type 0} (old : List A → A → Bool) (limit : ℕ) (positive : 0 < limit)
    (stable : (rows : List A) → old (delete_batch (old rows) limit rows).1 ≡ old rows) where
  batches_loop-all :
      (fuel total : ℕ) (rows : List A)
      → length rows < fuel
      → batches_loop old limit fuel total rows
        ≡ some (total + matching (old rows) rows, kept (old rows) rows)
  unfolding batches_loop
  batches_loop-all zero total rows h = absurd (omega (arith, h))
  batches_loop-all (suc fuel) total rows h =
      let (matched, size) = delete_batch-counts (old rows) limit rows in
      elim (Bool-cases (ltb (delete_batch (old rows) limit rows).0 limit)) [
        | inl short ↦
            let rest = delete_batch_short (old rows) limit rows (ltb→lt _ _ short) in
            let none_left = matching-kept (old rows) rows in
            let all_gone : (delete_batch (old rows) limit rows).0 ≡ matching (old rows) rows =
              ground (arith, matched, rest, none_left) in
            rw (short, batches_loop, rest, all_gone) refl
        | inr full ↦
            let next =
              batches_loop-all fuel (total + (delete_batch (old rows) limit rows).0)
                (delete_batch (old rows) limit rows).1 (ground (arith, h, size, positive, full)) in
            let sum : total
                  + (delete_batch (old rows) limit rows).0
                  + matching (old rows) (delete_batch (old rows) limit rows).1
                ≡ total + matching (old rows) rows =
              omega (arith, matched) in
            rw (full, batches_loop)
              (next ∙ rw (stable rows, delete_batch-kept (old rows) limit rows, sum) refl)
      ]

  -- With a positive limit, and a condition that the deletion of a batch does not change for what is
  -- left, the loop ends: it deletes exactly the rows that match, and returns their number.
  pub delete_in_batches-all :
      (rows : List A)
      → delete_in_batches old limit rows ≡ some (matching (old rows) rows, kept (old rows) rows)
  unfolding delete_in_batches
  delete_in_batches-all rows =
      let from_zero : 0 + matching (old rows) rows ≡ matching (old rows) rows = omega arith in
      rw from_zero at (batches_loop-all (suc (length rows)) 0 rows (omega arith))
