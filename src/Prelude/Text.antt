-- ===== src/Prelude/Text.antt =====
-- Text as the list of its code points: equality, Python's order of strings, `split` and `join`.
use Prim.Native.Nat.{ℕ}
use Prim.Native.Char.{code}
use Prim.Native.String.{String}
use mathlib.Core.Path.{◌≡◌, refl, ap, ◌∙◌}
use mathlib.Core.Logic.{◌↔◌, inl, inr}
use mathlib.Core.Bool.{Bool, true, false, ◌&&◌, ◌||◌}
use mathlib.Core.List.{List, [], ◌∷◌, ◌++◌}
use native.Mathlib.Omega.{arith}
use ca_dns.Prelude.Tests.{◌==◌, ltb, if◌then◌else◌, Bool-cases}
use ca_dns.Prelude.Lists.{any, All}

abbrev pub Text : Type 0
Text = List ℕ

abbrev pub codes : String → Text
codes String.[] = []
codes (String.◌∷◌ c s) = code c ∷ codes s

unfoldable pub text_eq : Text → Text → Bool
text_eq [] [] = true
text_eq [] (y ∷ ys) = false
text_eq (x ∷ xs) [] = false
text_eq (x ∷ xs) (y ∷ ys) = x == y && text_eq xs ys

pub text_eq_refl : (xs : Text) → text_eq xs xs ≡ true
unfolding text_eq
text_eq_refl [] = refl
text_eq_refl (x ∷ xs) = ground (arith, text_eq_refl xs)

text_eq→eq : (xs ys : Text) → text_eq xs ys ≡ true → xs ≡ ys
unfolding text_eq
text_eq→eq [] [] h = refl
text_eq→eq [] (y ∷ ys) h = cc
text_eq→eq (x ∷ xs) [] h = cc
text_eq→eq (x ∷ xs) (y ∷ ys) h = ground (arith, text_eq→eq xs ys)

pub text_eq_iff : (xs ys : Text) → (text_eq xs ys ≡ true) ↔ (xs ≡ ys)
text_eq_iff xs ys = (text_eq→eq xs ys, λ e. rw e (text_eq_refl ys))

-- `a <= b` of Python strings: by code points, a prefix first.
unfoldable pub text_leb : Text → Text → Bool
text_leb [] ys = true
text_leb (x ∷ xs) [] = false
text_leb (x ∷ xs) (y ∷ ys) = ltb x y || x == y && text_leb xs ys

pub text_leb_total : (xs ys : Text) → text_leb xs ys ≡ false → text_leb ys xs ≡ true
unfolding text_leb
text_leb_total [] ys h = cc
text_leb_total (x ∷ xs) [] h = refl
text_leb_total (x ∷ xs) (y ∷ ys) h = ground (arith, text_leb_total xs ys)

-- `sep.join(parts)`
unfoldable pub join : ℕ → List Text → Text
join sep [] = []
join sep (p ∷ []) = p
join sep (p ∷ q ∷ ps) = p ++ (sep ∷ join sep (q ∷ ps))

unfoldable pub add_front : ℕ → List Text → List Text
add_front x [] = (x ∷ []) ∷ []
add_front x (p ∷ ps) = (x ∷ p) ∷ ps

-- `text.split(sep)`
unfoldable pub split : ℕ → Text → List Text
unfolding add_front
split sep [] = [] ∷ []
split sep (x ∷ xs) = let parts = split sep xs in if x == sep then [] ∷ parts else add_front x parts

-- `sep not in text`
abbrev pub Without : ℕ → Text → Type 0
Without sep text = any (λ x. x == sep) text ≡ false

split_last : (sep : ℕ) (p : Text) → Without sep p → split sep p ≡ p ∷ []
unfolding split
split_last sep [] h = refl
split_last sep (x ∷ p) h = ground (arith, split_last sep p)

split_first :
    (sep : ℕ) (p rest : Text) → Without sep p → split sep (p ++ (sep ∷ rest)) ≡ p ∷ split sep rest
unfolding split
split_first sep [] rest h = ground arith
split_first sep (x ∷ p) rest h = ground (arith, split_first sep p rest)

-- Parts without the separator are what a split of their join gives back.
pub split-join :
    (sep : ℕ) (p : Text) (ps : List Text)
    → All (Without sep) (p ∷ ps)
    → split sep (join sep (p ∷ ps)) ≡ p ∷ ps
unfolding join
split-join sep p [] h = split_last sep p h.0
split-join sep p (q ∷ ps) h =
    rw (split_first sep p (join sep (q ∷ ps)) h.0) (ap (◌∷◌ p) (split-join sep q ps h.1))

-- A split has one part at least.
pub split_parts :
    (sep : ℕ) (text : Text) → (p : Text) × (ps : List Text) × (split sep text ≡ p ∷ ps)
unfolding split
split_parts sep [] = ([], [], refl)
split_parts sep (x ∷ xs) =
    let (p, ps, e) = split_parts sep xs in
    elim (Bool-cases (x == sep)) [
      | inl at ↦ ([], split sep xs, rw at)
      | inr off ↦ (x ∷ p, ps, rw (off, e))
    ]

join_empty :
    (sep : ℕ) (p : Text) (ps : List Text) → join sep ([] ∷ p ∷ ps) ≡ sep ∷ join sep (p ∷ ps)
unfolding join
join_empty sep p ps = refl

join_front :
    (sep x : ℕ) (p : Text) (ps : List Text) → join sep ((x ∷ p) ∷ ps) ≡ x ∷ join sep (p ∷ ps)
unfolding join
join_front sep x p [] = refl
join_front sep x p (q ∷ qs) = refl

pub join-split : (sep : ℕ) (text : Text) → join sep (split sep text) ≡ text
unfolding split
join-split sep [] = unfold join in refl
join-split sep (x ∷ xs) =
    let (p, ps, e) = split_parts sep xs in
    let ih : join sep (p ∷ ps) ≡ xs = rw e at (join-split sep xs) in
    elim (Bool-cases (x == sep)) [
      | inl at ↦ rw (at, e) (join_empty sep p ps ∙ ground (arith, ih))
      | inr off ↦ rw (off, e) (join_front sep x p ps ∙ ap (◌∷◌ x) ih)
    ]
