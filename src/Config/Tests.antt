-- ===== src/Config/Tests.antt =====
-- Two resolvers, with a space and an empty part, as they are configured.
use ca_dns.Prelude.{
  ℕ, ◌≡◌, refl, ◌≢◌, Bool, true, not, ◌&&◌, some, [], ◌∷◌, arith, leb, ◌==◌, all, filter,
}
use ca_dns.Prelude.Text.{Text, split, join, Without, add_front}
use ca_dns.Config.{stripped_parts, valid_resolvers, resolvers}
use ca_dns.Config.Parts.{resolvers-valid_resolvers}

-- The stripping of spaces is that of all of them here, which is enough for addresses.
abbrev without_spaces : Text → Text
without_spaces text = filter (λ c. not (c == 32)) text

without_spaces-Without :
    (sep : ℕ) (text : Text) → Without sep text → Without sep (without_spaces text)
without_spaces-Without sep [] h = h
without_spaces-Without sep (c ∷ cs) h = ground (arith, h, without_spaces-Without sep cs)

again : (text : Text) → without_spaces (without_spaces text) ≡ without_spaces text
again [] = refl
again (c ∷ cs) = ground (arith, again cs)

abbrev digits : Text → Bool
digits text = all (λ c. leb 48 c && leb c 57) text

-- "1, ,2" is stored as "1,2".
stores :
    valid_resolvers without_spaces digits (49 ∷ 44 ∷ 32 ∷ 44 ∷ 50 ∷ []) ≡ some (49 ∷ 44 ∷ 50 ∷ [])
unfolding valid_resolvers stripped_parts split add_front join
stores = refl

resolvers-valid_resolvers_example :
    (resolvers (49 ∷ 44 ∷ 50 ∷ []) ≡ stripped_parts without_spaces (49 ∷ 44 ∷ 32 ∷ 44 ∷ 50 ∷ []))
    × (resolvers (49 ∷ 44 ∷ 50 ∷ []) ≢ [])
    × (all digits (resolvers (49 ∷ 44 ∷ 50 ∷ [])) ≡ true)
    × (valid_resolvers without_spaces digits (49 ∷ 44 ∷ 50 ∷ []) ≡ some (49 ∷ 44 ∷ 50 ∷ []))
resolvers-valid_resolvers_example =
    resolvers-valid_resolvers without_spaces without_spaces-Without again digits
      (49 ∷ 44 ∷ 32 ∷ 44 ∷ 50 ∷ []) (49 ∷ 44 ∷ 50 ∷ []) stores
