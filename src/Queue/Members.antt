-- ===== src/Queue/Members.antt =====
-- Rows of the queue as members of a list, and as what a domain finds.
use mathlib.Core.Option.{some-injective}
use ca_dns.Prelude.{
  ◌+◌, ◌≡◌, refl, sym, ap, ◌∙◌, inl, inr, true, false, some, List, [], ◌∷◌, arith, Bool-cases,
  length, filter,
}
use ca_dns.Prelude.Text.{Text, text_eq, text_eq_iff, text_eq_refl}
use ca_dns.Prelude.Sort.{In}
use ca_dns.Queue.{Row, Table, has_domain}
use ca_dns.Queue.Rows.{find, Distinct}

pub In→has_domain : (rows : List Row) (row : Row) → In row rows → has_domain row.domain rows ≡ true
In→has_domain [] row h = absurd h
In→has_domain (r ∷ rs) row (inl e) = ground (arith, e, text_eq_refl row.domain)
In→has_domain (r ∷ rs) row (inr h) = ground (arith, In→has_domain rs row h)

pub has_domain→In :
    (domain : Text) (rows : List Row)
    → has_domain domain rows ≡ true
    → (row : Row) × In row rows × (row.domain ≡ domain)
has_domain→In domain [] h = cc
has_domain→In domain (r ∷ rs) h = elim (Bool-cases (text_eq r.domain domain)) [
  | inl e ↦ (r, inl refl, (text_eq_iff r.domain domain).0 e)
  | inr e ↦ let (row, found, d) = has_domain→In domain rs (rw e at h) in (row, inr found, d)
]

-- The primary key tells rows apart.
pub Distinct-In :
    (rows : Table) (a b : Row) → Distinct rows → In a rows → In b rows → a.domain ≡ b.domain → a ≡ b
Distinct-In [] a b d ha hb e = absurd ha
Distinct-In (r ∷ rs) a b d (inl x) (inl y) e = x ∙ sym y
Distinct-In (r ∷ rs) a b d (inl x) (inr hb) e = ground (arith, d.0, x, e, In→has_domain rs b hb)
Distinct-In (r ∷ rs) a b d (inr ha) (inl y) e = ground (arith, d.0, y, e, In→has_domain rs a ha)
Distinct-In (r ∷ rs) a b d (inr ha) (inr hb) e = Distinct-In rs a b d.1 ha hb e

pub find→In :
    (domain : Text) (rows : Table) (row : Row)
    → find domain rows ≡ some row
    → In row rows × (row.domain ≡ domain)
unfolding find
find→In domain [] row h = cc
find→In domain (r ∷ rs) row h = elim (Bool-cases (text_eq r.domain domain)) [
  | inl e ↦
      let same : r ≡ row = some-injective r row (rw (e, find) at h) in
      (inl (sym same), ap (λ (x : Row). x.domain) (sym same) ∙ (text_eq_iff r.domain domain).0 e)
  | inr e ↦ let (there, d) = find→In domain rs row (rw (e, find) at h) in (inr there, d)
]

pub In→find :
    (rows : Table) (row : Row) → Distinct rows → In row rows → find row.domain rows ≡ some row
unfolding find
In→find [] row d h = absurd h
In→find (r ∷ rs) row d (inl e) = ground (arith, e, text_eq_refl row.domain)
In→find (r ∷ rs) row d (inr h) =
    ground
      (arith, d.0, In→has_domain rs row h, In→find rs row d.1 h, text_eq_iff r.domain row.domain)

-- How many rows of the table have one of the domains.
abbrev pub with_domains : List Row → Table → Table
with_domains rows table = filter (λ row. has_domain row.domain rows) table

no_row :
    (domain : Text) (table : Table)
    → has_domain domain table ≡ false
    → length (filter (λ row. text_eq domain row.domain) table) ≡ 0
no_row domain [] h = refl
no_row domain (r ∷ rs) h =
    ground (arith, no_row domain rs, text_eq_iff domain r.domain, text_eq_iff r.domain domain)

one_row :
    (domain : Text) (table : Table)
    → Distinct table
    → has_domain domain table ≡ true
    → length (filter (λ row. text_eq domain row.domain) table) ≡ 1
one_row domain [] d h = cc
one_row domain (r ∷ rs) d h = ground (
  arith,
  d.0,
  one_row domain rs d.1,
  no_row domain rs,
  text_eq_iff domain r.domain,
  text_eq_iff r.domain domain,
)

nothing_kept : (table : Table) → length (with_domains [] table) ≡ 0
nothing_kept [] = refl
nothing_kept (r ∷ rs) = nothing_kept rs

length-with_domains_cons :
    (x : Row) (xs : List Row) (table : Table)
    → has_domain x.domain xs ≡ false
    → length (with_domains (x ∷ xs) table)
      ≡ length (filter (λ row. text_eq x.domain row.domain) table) + length (with_domains xs table)
length-with_domains_cons x xs [] h = refl
length-with_domains_cons x xs (r ∷ rs) h =
    ground (arith, length-with_domains_cons x xs rs h, text_eq_iff x.domain r.domain)

-- Distinct rows of the table are as many as the rows that their domains find there.
pub length-with_domains :
    (xs : List Row) (table : Table)
    → Distinct xs
    → Distinct table
    → ((row : Row) → In row xs → has_domain row.domain table ≡ true)
    → length (with_domains xs table) ≡ length xs
length-with_domains [] table dx dt there = nothing_kept table
length-with_domains (x ∷ xs) table dx dt there = omega (
  arith,
  length-with_domains_cons x xs table dx.0,
  one_row x.domain table dt (there x (inl refl)),
  length-with_domains xs table dx.1 dt (λ row h. there row (inr h)),
)
