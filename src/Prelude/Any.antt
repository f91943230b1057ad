-- ===== src/Prelude/Any.antt =====
-- Boolean tests over a list, as membership.
use ca_dns.Prelude.{◌≡◌, refl, inl, inr, Bool, true, false, List, [], ◌∷◌, arith, Bool-cases, any}
use ca_dns.Prelude.Sort.{In}

module _ {A : Type 0} (p : A → Bool) where
  pub any→In : (xs : List A) → any p xs ≡ true → (x : A) × In x xs × (p x ≡ true)
  any→In [] h = cc
  any→In (x ∷ xs) h = elim (Bool-cases (p x)) [
    | inl met ↦ (x, inl refl, met)
    | inr unmet ↦ let (y, there, met) = any→In xs (rw unmet at h) in (y, inr there, met)
  ]

  pub In→any : (xs : List A) (x : A) → In x xs → p x ≡ true → any p xs ≡ true
  In→any [] x h met = absurd h
  In→any (y ∷ ys) x (inl e) met = ground (arith, e, met)
  In→any (y ∷ ys) x (inr h) met = ground (arith, In→any ys x h met)

  pub none_met : (xs : List A) (x : A) → any p xs ≡ false → In x xs → p x ≡ false
  none_met xs x h there = elim (Bool-cases (p x)) [
    | inl met ↦ absurd (ground (arith, h, In→any xs x there met))
    | inr unmet ↦ unmet
  ]

  pub any-none : (xs : List A) → ((x : A) → In x xs → p x ≡ false) → any p xs ≡ false
  any-none xs h = elim (Bool-cases (any p xs)) [
    | inl found ↦ let (x, there, met) = any→In xs found in absurd (ground (arith, met, h x there))
    | inr nothing ↦ nothing
  ]
