-- ===== src/Prelude/Sort.antt =====
-- Python's `sorted` with a key, stable, and `sorted(set(...))` of texts.
use ca_dns.Prelude.{◌≡◌, refl, ◌⊎◌, Bool, ◌||◌, List, [], ◌∷◌, arith, if◌then◌else◌, any}
use ca_dns.Prelude.Text.{Text, text_eq, text_leb, text_eq_iff}

module _ {ℓ} {A : Type ℓ} (leq : A → A → Bool) where
  unfoldable pub insert_by : A → List A → List A
  insert_by x [] = x ∷ []
  insert_by x (y ∷ ys) = let later = insert_by x ys in if leq x y then x ∷ y ∷ ys else y ∷ later

  unfoldable pub sort_by : List A → List A
  unfolding insert_by
  sort_by [] = []
  sort_by (x ∷ xs) = insert_by x (sort_by xs)

-- `sorted(set(xs))`
unfoldable pub insert_text : Text → List Text → List Text
insert_text x [] = x ∷ []
insert_text x (y ∷ ys) =
    let later = insert_text x ys in
    if text_eq x y then y ∷ ys else if text_leb x y then x ∷ y ∷ ys else y ∷ later

unfoldable pub sorted_set : List Text → List Text
unfolding insert_text
sorted_set [] = []
sorted_set (x ∷ xs) = insert_text x (sorted_set xs)

-- `x` stands in the list.
abbrev pub In : {A : Type 0} → A → List A → Type 0
In x [] = ⊥
In x (y ∷ ys) = (x ≡ y) ⊎ In x ys

any-insert_text :
    (e x : Text) (ys : List Text)
    → any (text_eq e) (insert_text x ys) ≡ (text_eq e x || any (text_eq e) ys)
unfolding insert_text
any-insert_text e x [] = ground arith
any-insert_text e x (y ∷ ys) = ground (arith, any-insert_text e x ys, text_eq_iff x y)

-- The sorted set holds what the list holds.
pub any-sorted_set :
    (e : Text) (xs : List Text) → any (text_eq e) (sorted_set xs) ≡ any (text_eq e) xs
unfolding sorted_set
any-sorted_set e [] = refl
any-sorted_set e (x ∷ xs) = ground (arith, any-insert_text e x (sorted_set xs), any-sorted_set e xs)
