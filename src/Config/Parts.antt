-- ===== src/Config/Parts.antt =====
-- The list of resolvers, from what is configured to what the pool gets.
use mathlib.Core.Option.{some-injective}
use ca_dns.Prelude.{
  ℕ, ◌≡◌, refl, sym, ap, ◌∙◌, ◌≢◌, inl, inr, Bool, true, false, some, List, [], ◌∷◌, map, arith,
  ◌==◌, Bool-cases, all, filter, All,
}
use ca_dns.Prelude.Text.{Text, split, join, Without, split-join, add_front}
use ca_dns.Config.{comma, non_empty, stripped_parts, valid_resolvers, resolvers}

add_front-Without :
    (sep x : ℕ) (parts : List Text)
    → (x == sep) ≡ false
    → All (Without sep) parts
    → All (Without sep) (add_front x parts)
unfolding add_front
add_front-Without sep x [] h k = (ground (arith, h), tt)
add_front-Without sep x (p ∷ ps) h k = let first = k.0 in (ground (arith, h, first), k.1)

split-Without : (sep : ℕ) (text : Text) → All (Without sep) (split sep text)
unfolding split
split-Without sep [] = (refl, tt)
split-Without sep (x ∷ xs) = elim (Bool-cases (x == sep)) [
  | inl at ↦ rw (at, split) (refl, split-Without sep xs)
  | inr off ↦ rw (off, split) (add_front-Without sep x (split sep xs) off (split-Without sep xs))
]

module _ (strip : Text → Text)
    (without : (sep : ℕ) (text : Text) → Without sep text → Without sep (strip text))
    (stripped : (text : Text) → strip (strip text) ≡ strip text) where
  filter-Without :
      (texts : List Text)
      → All (Without comma) texts
      → All (Without comma) (filter non_empty (map strip texts))
  filter-Without [] h = tt
  filter-Without (t ∷ ts) h = after (strip t) (without comma t h.0) (filter-Without ts h.1)
    where
      after :
          (part : Text)
          → Without comma part
          → All (Without comma) (filter non_empty (map strip ts))
          → All (Without comma) (filter non_empty (part ∷ map strip ts))
      after [] h k = k
      after (c ∷ cs) h k = (h, k)

  parts_again :
      (texts : List Text)
      → filter non_empty (map strip (filter non_empty (map strip texts)))
        ≡ filter non_empty (map strip texts)
  parts_again [] = refl
  parts_again (t ∷ ts) = after (strip t) (stripped t) (parts_again ts)
    where
      after :
          (part : Text)
          → strip part ≡ part
          → filter non_empty (map strip (filter non_empty (map strip ts)))
            ≡ filter non_empty (map strip ts)
          → filter non_empty (map strip (filter non_empty (part ∷ map strip ts)))
            ≡ filter non_empty (part ∷ map strip ts)
      after [] e k = k
      after (c ∷ cs) e k = rw (e, k) refl

  -- When the resolvers that are configured are valid, the pool gets at least one, each is an address,
  -- and they are the stripped parts that are not empty; what is stored is valid again and stays as it
  -- is. Stripping brings in no character and, done twice, does no more than once.
  pub resolvers-valid_resolvers :
      (is_address : Text → Bool) (value stored : Text)
      → valid_resolvers strip is_address value ≡ some stored
      → (resolvers stored ≡ stripped_parts strip value)
        × (resolvers stored ≢ [])
        × (all is_address (resolvers stored) ≡ true)
        × (valid_resolvers strip is_address stored ≡ some stored)
  unfolding valid_resolvers resolvers stripped_parts
  resolvers-valid_resolvers is_address value stored e = after (stripped_parts strip value) refl
    where
      after :
          (parts : List Text)
          → stripped_parts strip value ≡ parts
          → (resolvers stored ≡ stripped_parts strip value)
            × (resolvers stored ≢ [])
            × (all is_address (resolvers stored) ≡ true)
            × (valid_resolvers strip is_address stored ≡ some stored)
      after [] found = absurd (ground (arith, (rw (found, valid_resolvers) at e)))
      after (p ∷ ps) found = elim (Bool-cases (all is_address (p ∷ ps))) [
        | inr invalid ↦ absurd (ground (arith, (rw (found, invalid, valid_resolvers) at e)))
        | inl valid ↦
            let same : join comma (p ∷ ps) ≡ stored =
              some-injective _ _ (rw (found, valid, valid_resolvers) at e) in
            let commas : All (Without comma) (p ∷ ps) =
              rw found at (filter-Without (split comma value) (split-Without comma value)) in
            let again : resolvers stored ≡ p ∷ ps = rw (← same) (split-join comma p ps commas) in
            let parts : stripped_parts strip stored ≡ p ∷ ps =
              ap (λ xs. filter non_empty (map strip xs)) (again ∙ sym found)
              ∙ parts_again (split comma value)
              ∙ found in
            (
              again ∙ sym found,
              rw again (λ h. cc),
              rw again valid,
              rw (parts, valid_resolvers, valid) (ap some same),
            )
      ]
