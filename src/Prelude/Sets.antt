-- ===== src/Prelude/Sets.antt =====
-- Members of a sorted set, and membership by the Boolean test.
use ca_dns.Prelude.{◌≡◌, sym, ◌∙◌, ◌↔◌, true, List, any}
use ca_dns.Prelude.Text.{Text, text_eq, text_eq_iff, text_eq_refl}
use ca_dns.Prelude.Sort.{sorted_set, any-sorted_set, In}
use ca_dns.Prelude.Any.{any→In, In→any}

pub In-listed : (x : Text) (xs : List Text) → (any (text_eq x) xs ≡ true) ↔ In x xs
In-listed x xs = (
  λ h. let (y, there, same) = any→In (text_eq x) xs h in rw ((text_eq_iff x y).0 same) there,
  λ there. In→any (text_eq x) xs x there (text_eq_refl x),
)

pub In-sorted_set : (x : Text) (xs : List Text) → In x (sorted_set xs) ↔ In x xs
In-sorted_set x xs = (
  λ there. (In-listed x xs).0 (sym (any-sorted_set x xs) ∙ (In-listed x (sorted_set xs)).1 there),
  λ there. (In-listed x (sorted_set xs)).0 (any-sorted_set x xs ∙ (In-listed x xs).1 there),
)
