-- ===== src/Prelude/Sorted.antt =====
-- What sorting keeps, and the order of what a prefix of a sorted list takes and leaves.
use ca_dns.Prelude.{
  ℕ, zero, suc, ◌≡◌, refl, ap, ◌∙◌, ◌⊎◌, inl, inr, Bool, true, false, List, [], ◌∷◌, map, arith,
  Bool-cases, length, take, drop, filter, All,
}
use ca_dns.Prelude.Sort.{insert_by, sort_by, In}

module _ {A : Type 0} where
  pub In-take : (n : ℕ) (xs : List A) (x : A) → In x (take n xs) → In x xs
  In-take zero xs x h = absurd h
  In-take (suc n) [] x h = h
  In-take (suc n) (y ∷ ys) x (inl e) = inl e
  In-take (suc n) (y ∷ ys) x (inr h) = inr (In-take n ys x h)

  pub In-drop : (n : ℕ) (xs : List A) (x : A) → In x (drop n xs) → In x xs
  In-drop zero xs x h = h
  In-drop (suc n) [] x h = h
  In-drop (suc n) (y ∷ ys) x h = inr (In-drop n ys x h)

  pub In-take_or_drop :
      (n : ℕ) (xs : List A) (x : A) → In x xs → In x (take n xs) ⊎ In x (drop n xs)
  In-take_or_drop zero xs x h = inr h
  In-take_or_drop (suc n) [] x h = absurd h
  In-take_or_drop (suc n) (y ∷ ys) x (inl e) = inl (inl e)
  In-take_or_drop (suc n) (y ∷ ys) x (inr h) = elim (In-take_or_drop n ys x h) [
    | inl t ↦ inl (inr t)
    | inr d ↦ inr d
  ]

  -- Something is left only when the prefix is full.
  pub length-take_of_left :
      (n : ℕ) (xs : List A) (x : A) → In x (drop n xs) → length (take n xs) ≡ n
  length-take_of_left zero xs x h = refl
  length-take_of_left (suc n) [] x h = absurd h
  length-take_of_left (suc n) (y ∷ ys) x h = ap suc (length-take_of_left n ys x h)

  pub In-filter : (p : A → Bool) (xs : List A) (x : A) → In x (filter p xs) → In x xs × (p x ≡ true)
  In-filter p [] x h = absurd h
  In-filter p (y ∷ ys) x h = after (p y) refl (In-filter p ys x)
    where
      after :
          (b : Bool)
          → p y ≡ b
          → (In x (filter p ys) → In x ys × (p x ≡ true))
          → In x (y ∷ ys) × (p x ≡ true)
      after true e ih = elim (rw (e, filter) at h) [
        | inl same ↦ (inl same, rw same e)
        | inr later ↦ (inr (ih later).0, (ih later).1)
      ]
      after false e ih = let found = ih (rw (e, filter) at h) in (inr found.0, found.1)

  pub filter-In : (p : A → Bool) (xs : List A) (x : A) → In x xs → p x ≡ true → In x (filter p xs)
  filter-In p [] x h t = absurd h
  filter-In p (y ∷ ys) x (inl same) t = rw ((rw same at t), filter) (inl same)
  filter-In p (y ∷ ys) x (inr later) t = elim (Bool-cases (p y)) [
    | inl e ↦ rw (e, filter) (inr (filter-In p ys x later t))
    | inr e ↦ rw (e, filter) (filter-In p ys x later t)
  ]

  pub All-In {κ} : (P : A → Type κ) (xs : List A) (x : A) → All P xs → In x xs → P x
  All-In P (y ∷ ys) x h (inl same) = rw same h.0
  All-In P (y ∷ ys) x h (inr later) = All-In P ys x h.1 later
  All-In P [] x h none_there = absurd none_there

module _ {A B : Type 0} (f : A → B) where
  pub In-map : (xs : List A) (b : B) → In b (map f xs) → (a : A) × In a xs × (b ≡ f a)
  In-map [] b h = absurd h
  In-map (x ∷ xs) b (inl e) = (x, inl refl, e)
  In-map (x ∷ xs) b (inr h) = let (a, found, e) = In-map xs b h in (a, inr found, e)

  pub map-In : (xs : List A) (a : A) → In a xs → In (f a) (map f xs)
  map-In [] a h = absurd h
  map-In (x ∷ xs) a (inl e) = inl (ap f e)
  map-In (x ∷ xs) a (inr h) = inr (map-In xs a h)

module _ {A : Type 0} (leq : A → A → Bool) where
  In-insert_by : (x : A) (ys : List A) (z : A) → In z (insert_by leq x ys) → (z ≡ x) ⊎ In z ys
  unfolding insert_by
  In-insert_by x [] z (inl e) = inl e
  In-insert_by x [] z (inr h) = absurd h
  In-insert_by x (y ∷ ys) z h = elim (Bool-cases (leq x y)) [
    | inl first ↦ rw (first, insert_by) at h
    | inr later ↦ elim (rw (later, insert_by) at h) [
      | inl same ↦ inr (inl same)
      | inr behind ↦ elim (In-insert_by x ys z behind) [
        | inl e ↦ inl e
        | inr there ↦ inr (inr there)
      ]
    ]
  ]

  insert_by-In : (x : A) (ys : List A) (z : A) → (z ≡ x) ⊎ In z ys → In z (insert_by leq x ys)
  unfolding insert_by
  insert_by-In x [] z (inl e) = inl e
  insert_by-In x [] z (inr h) = absurd h
  insert_by-In x (y ∷ ys) z h = elim (Bool-cases (leq x y)) [
    | inl first ↦ rw (first, insert_by) h
    | inr later ↦
        rw (later, insert_by)
          (elim h [
            | inl e ↦ inr (insert_by-In x ys z (inl e))
            | inr (inl e) ↦ inl e
            | inr (inr there) ↦ inr (insert_by-In x ys z (inr there))
          ])
  ]

  pub In-sort_by : (xs : List A) (z : A) → In z (sort_by leq xs) → In z xs
  unfolding sort_by
  In-sort_by [] z h = h
  In-sort_by (x ∷ xs) z h = elim (In-insert_by x (sort_by leq xs) z h) [
    | inl e ↦ inl e
    | inr there ↦ inr (In-sort_by xs z there)
  ]

  pub sort_by-In : (xs : List A) (z : A) → In z xs → In z (sort_by leq xs)
  unfolding sort_by
  sort_by-In [] z h = h
  sort_by-In (x ∷ xs) z (inl e) = insert_by-In x (sort_by leq xs) z (inl e)
  sort_by-In (x ∷ xs) z (inr there) =
      insert_by-In x (sort_by leq xs) z (inr (sort_by-In xs z there))

  length-insert_by : (x : A) (ys : List A) → length (insert_by leq x ys) ≡ suc (length ys)
  unfolding insert_by
  length-insert_by x [] = refl
  length-insert_by x (y ∷ ys) = ground (arith, length-insert_by x ys)

  pub length-sort_by : (xs : List A) → length (sort_by leq xs) ≡ length xs
  unfolding sort_by
  length-sort_by [] = refl
  length-sort_by (x ∷ xs) = length-insert_by x (sort_by leq xs) ∙ ap suc (length-sort_by xs)

  abbrev pub Sorted : List A → Type 0
  Sorted [] = Unit
  Sorted (x ∷ xs) = All (λ y. leq x y ≡ true) xs × Sorted xs

  -- What a prefix takes does not come behind what it leaves.
  pub take_before_drop :
      (n : ℕ) (xs : List A) (x y : A)
      → Sorted xs
      → In x (take n xs)
      → In y (drop n xs)
      → leq x y ≡ true
  take_before_drop zero xs x y s hx hy = absurd hx
  take_before_drop (suc n) [] x y s hx hy = absurd hx
  take_before_drop (suc n) (z ∷ zs) x y s (inl e) hy =
      rw e (All-In (λ w. leq z w ≡ true) zs y s.0 (In-drop n zs y hy))
  take_before_drop (suc n) (z ∷ zs) x y s (inr hx) hy = take_before_drop n zs x y s.1 hx hy

  module _ (total : (a b : A) → leq a b ≡ false → leq b a ≡ true)
      (trans : (a b c : A) → leq a b ≡ true → leq b c ≡ true → leq a c ≡ true) where
    All-trans :
        (x y : A) (zs : List A)
        → leq x y ≡ true
        → All (λ z. leq y z ≡ true) zs
        → All (λ z. leq x z ≡ true) zs
    All-trans x y [] h k = tt
    All-trans x y (z ∷ zs) h k = (trans x y z h k.0, All-trans x y zs h k.1)

    All-insert_by :
        (w x : A) (ys : List A)
        → leq w x ≡ true
        → All (λ z. leq w z ≡ true) ys
        → All (λ z. leq w z ≡ true) (insert_by leq x ys)
    unfolding insert_by
    All-insert_by w x [] h k = (h, tt)
    All-insert_by w x (y ∷ ys) h k = ground (arith, h, k, All-insert_by w x ys h k.1)

    insert_by-Sorted : (x : A) (ys : List A) → Sorted ys → Sorted (insert_by leq x ys)
    unfolding insert_by
    insert_by-Sorted x [] s = (tt, tt)
    insert_by-Sorted x (y ∷ ys) s = elim (Bool-cases (leq x y)) [
      | inl first ↦ rw first ((first, All-trans x y ys first s.0), s)
      | inr later ↦ rw later (All-insert_by y x ys (total x y later) s.0, insert_by-Sorted x ys s.1)
    ]

    pub sort_by-Sorted : (xs : List A) → Sorted (sort_by leq xs)
    unfolding sort_by
    sort_by-Sorted [] = tt
    sort_by-Sorted (x ∷ xs) = insert_by-Sorted x (sort_by leq xs) (sort_by-Sorted xs)
