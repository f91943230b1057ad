-- ===== src/Collector/Dnstap/Ignored.antt =====
-- `is_ignored`: single labels, the listed suffixes, and the names under them.
use ca_dns.Prelude.{
  ◌≡◌, refl, ap, ◌↔◌, ◌⊎◌, inl, inr, Bool, true, false, ◌&&◌, ◌||◌, List, [], ◌∷◌, ◌++◌, arith,
  ◌==◌, if◌then◌else◌, Bool-cases, any,
}
use ca_dns.Prelude.Text.{Text, text_eq, join, split, Without, split_parts, join-split}
use ca_dns.Collector.Dnstap.{tails, dot, is_ignored}

-- `text in suffixes`
abbrev pub listed : Text → List Text → Bool
listed text suffixes = any (text_eq text) suffixes

-- Some suffix of `name` that begins behind a dot is listed.
abbrev listed_behind_dot : Text → List Text → Bool
listed_behind_dot [] suffixes = false
listed_behind_dot (c ∷ cs) suffixes =
    c == dot && listed cs suffixes || listed_behind_dot cs suffixes

abbrev rest_labels : List Text → List Text
rest_labels [] = []
rest_labels (label ∷ labels) = labels

-- The tails of the labels are the suffixes behind the dots, but for the first, the name itself.
tails_behind_dot :
    (name : Text) (suffixes : List Text)
    → any
        (λ labels. any (text_eq (join dot labels)) suffixes)
        (tails (rest_labels (split dot name)))
      ≡ listed_behind_dot name suffixes
unfolding split tails
tails_behind_dot [] suffixes = unfold tails in refl
tails_behind_dot (c ∷ cs) suffixes =
    let (p, ps, e) = split_parts dot cs in
    let whole : join dot (p ∷ ps) ≡ cs = rw e at (join-split dot cs) in
    let ih = rw e at (tails_behind_dot cs suffixes) in ground (arith, e, whole, ih)

behind→part :
    (name : Text) (suffixes : List Text)
    → listed_behind_dot name suffixes ≡ true
    → (p s : Text) × (listed s suffixes ≡ true) × (name ≡ p ++ (dot ∷ s))
behind→part [] suffixes h = cc
behind→part (c ∷ cs) suffixes h = elim (Bool-cases (c == dot && listed cs suffixes)) [
  | inl here ↦ ([], cs, ground (arith, here), ground (arith, here))
  | inr later ↦
      let (p, s, found, e) = behind→part cs suffixes (rw later at h) in
      (c ∷ p, s, found, ap (◌∷◌ c) e)
]

part→behind :
    (p s : Text) (suffixes : List Text)
    → listed s suffixes ≡ true
    → listed_behind_dot (p ++ (dot ∷ s)) suffixes ≡ true
part→behind [] s suffixes h = rw h
part→behind (c ∷ p) s suffixes h = ground (arith, part→behind p s suffixes h)

is_ignored_lem :
    (name : Text) (suffixes : List Text)
    → is_ignored name suffixes ≡ (
        if any (λ c. c == dot) name
        then listed name suffixes || listed_behind_dot name suffixes
        else true)
unfolding is_ignored
is_ignored_lem name suffixes =
    let (p, ps, e) = split_parts dot name in
    let whole : join dot (p ∷ ps) ≡ name = rw e at (join-split dot name) in
    let behind = rw e at (tails_behind_dot name suffixes) in ground (arith, e, whole, behind)

-- `name` is `s`, or a name under it.
abbrev pub IsUnder : Text → Text → Type 0
IsUnder s name = (name ≡ s) ⊎ ((p : Text) × (name ≡ p ++ (dot ∷ s)))

ignored→reason :
    (name : Text) (suffixes : List Text)
    → is_ignored name suffixes ≡ true
    → (Without dot name) ⊎ ((s : Text) × (listed s suffixes ≡ true) × IsUnder s name)
ignored→reason name suffixes h = elim (Bool-cases (any (λ c. c == dot) name)) [
  | inr single ↦ inl single
  | inl dotted ↦ elim (Bool-cases (listed name suffixes)) [
    | inl found ↦ inr (name, found, inl refl)
    | inr unlisted ↦
        let (p, s, found, e) =
          behind→part name suffixes
            (ground (arith, is_ignored_lem name suffixes, dotted, unlisted)) in
        inr (s, found, inr (p, e))
  ]
]

reason→ignored :
    (name : Text) (suffixes : List Text)
    → (Without dot name) ⊎ ((s : Text) × (listed s suffixes ≡ true) × IsUnder s name)
    → is_ignored name suffixes ≡ true
reason→ignored name suffixes (inl single) = rw (is_ignored_lem, single)
reason→ignored name suffixes (inr (s, found, inl e)) =
    ground (arith, is_ignored_lem name suffixes, rw (← e) at found)
reason→ignored name suffixes (inr (s, found, inr (p, e))) =
    ground (arith, is_ignored_lem name suffixes, rw (← e) at (part→behind p s suffixes found))

-- A name is ignored exactly when it has no dot, or it is one of the suffixes or a name under one.
pub is_ignored_iff :
    (name : Text) (suffixes : List Text)
    → (is_ignored name suffixes ≡ true)
      ↔ ((Without dot name) ⊎ ((s : Text) × (listed s suffixes ≡ true) × IsUnder s name))
is_ignored_iff name suffixes = (ignored→reason name suffixes, reason→ignored name suffixes)
