-- ===== src/Worker/Pipeline/Outcomes.antt =====
-- What `classify` makes of the answers.
use ca_dns.Prelude.{
  ◌≡◌, refl, sym, ◌∙◌, ◌≢◌, ◌↔◌, inl, inr, Bool, true, false, not, none, some, List, [], ◌∷◌, map,
  arith, if◌then◌else◌, Bool-cases, any,
}
use ca_dns.Prelude.Text.{Text, text_eq, text_eq_iff, text_eq_refl}
use ca_dns.Prelude.Sort.{sorted_set, any-sorted_set, In}
use ca_dns.Prelude.Any.{any→In, In→any, none_met}
use ca_dns.Prelude.Sorted.{In-filter, filter-In, In-map, map-In}
use ca_dns.Resolvers.{Answer, definitive}
use ca_dns.Worker.Pipeline.{
  Settings, DomainStatus, resolved, no_domain, no_data, failed, has_addresses, is_nxdomain,
  answered_for, unanswered, backoff_of, classify,
}

-- Some answer for the type is definitive.
abbrev pub Answered : List Answer → Text → Type 0
Answered answers rtype = (a : Answer) × In a answers × (a.rtype ≡ rtype) × (definitive a ≡ true)

Answered-answered_for :
    (answers : List Answer) (rtype : Text)
    → answered_for answers rtype ≡ true
    → Answered answers rtype
Answered-answered_for answers rtype h =
    let (a, there, met) = any→In definitive _ h in
    let (listed, same) = In-filter (λ (b : Answer). text_eq b.rtype rtype) answers a there in
    (a, listed, (text_eq_iff a.rtype rtype).0 same, met)

Answered→answered_for :
    (answers : List Answer) (rtype : Text)
    → Answered answers rtype
    → answered_for answers rtype ≡ true
Answered→answered_for answers rtype (a, listed, same, met) =
    In→any definitive _ a
      (filter-In (λ (b : Answer). text_eq b.rtype rtype) answers a listed
        ((text_eq_iff a.rtype rtype).1 same))
      met

abbrev pub types_of : List Answer → List Text
types_of answers = sorted_set (map (λ (a : Answer). a.rtype) answers)

-- Membership in the set of types.
type_listed : (answers : List Answer) (a : Answer) → In a answers → In a.rtype (types_of answers)
type_listed answers a there =
    let listed = map-In (λ (b : Answer). b.rtype) answers a there in
    let seen =
      any-sorted_set a.rtype (map (λ (b : Answer). b.rtype) answers)
      ∙ In→any (text_eq a.rtype) _ a.rtype listed (text_eq_refl a.rtype) in
    let (t, found, same) = any→In (text_eq a.rtype) _ seen in
    rw ((text_eq_iff a.rtype t).0 same) found

listed_type :
    (answers : List Answer) (rtype : Text)
    → In rtype (types_of answers)
    → (a : Answer) × In a answers × (a.rtype ≡ rtype)
listed_type answers rtype there =
    let seen =
      sym (any-sorted_set rtype (map (λ (b : Answer). b.rtype) answers))
      ∙ In→any (text_eq rtype) _ rtype there (text_eq_refl rtype) in
    let (t, found, same) = any→In (text_eq rtype) _ seen in
    let (a, listed, e) = In-map (λ (b : Answer). b.rtype) answers t found in
    (a, listed, sym ((text_eq_iff rtype t).0 same ∙ e))

pub unanswered→ :
    (answers : List Answer)
    → unanswered answers (types_of answers) ≡ false
    → (a : Answer) → In a answers
    → Answered answers a.rtype
unanswered→ answers h a there = Answered-answered_for answers a.rtype (
    ground (
      arith,
      none_met (λ rtype. not (answered_for answers rtype)) _ a.rtype h
          (type_listed answers a there),
    ))

-- The three ways through `classify`.
pub fails :
    (answers : List Answer) (settings : Settings)
    → unanswered answers (types_of answers) ≡ true
    → classify answers settings ≡ record {
      status = failed;
      answers = answers;
      retry_after_seconds = some settings.failed_retry_seconds;
    }
unfolding classify
fails answers settings h = rw h refl

pub resolves :
    (answers : List Answer) (settings : Settings)
    → unanswered answers (types_of answers) ≡ false
    → any has_addresses answers ≡ true
    → classify answers settings
      ≡ record { status = resolved; answers = answers; retry_after_seconds = none }
unfolding classify
resolves answers settings h k = rw (h, k) refl

pub lacks :
    (answers : List Answer) (settings : Settings)
    → unanswered answers (types_of answers) ≡ false
    → any has_addresses answers ≡ false
    → classify answers settings ≡ record {
      status = if any is_nxdomain answers then no_domain else no_data;
      answers = answers;
      retry_after_seconds = some (backoff_of answers settings);
    }
unfolding classify
lacks answers settings h k = rw (h, k) refl

abbrev pub lacking_status : Bool → DomainStatus
lacking_status b = if b then no_domain else no_data

pub lacking-ne-failed : (b : Bool) → lacking_status b ≢ failed
lacking-ne-failed true e = cc
lacking-ne-failed false e = cc

pub lacking-ne-resolved : (b : Bool) → lacking_status b ≢ resolved
lacking-ne-resolved true e = cc
lacking-ne-resolved false e = cc

with_address : (a : Answer) → (has_addresses a ≡ true) ↔ (a.addresses ≢ [])
with_address a = after a.addresses refl
  where
    after : (list : List Text) → a.addresses ≡ list → (has_addresses a ≡ true) ↔ (a.addresses ≢ [])
    after [] e = (λ h. absurd (ground (arith, e, h)), λ h. absurd (h e))
    after (x ∷ xs) e = (λ h k. absurd (ground (arith, e, k)), λ h. rw e refl)

-- The outcome is `failed` exactly when some answer is of a type for which no answer is definitive.
pub classify_failed :
    (answers : List Answer) (settings : Settings)
    → ((classify answers settings).status ≡ failed)
      ↔ ((a : Answer) × In a answers × ¬ Answered answers a.rtype)
classify_failed answers settings = (
  λ h. elim (Bool-cases (unanswered answers (types_of answers))) [
    | inl e ↦
        let (rtype, there, met) =
          any→In (λ rtype. not (answered_for answers rtype)) (types_of answers) e in
        let (a, listed, same) = listed_type answers rtype there in
        (
          a,
          listed,
          λ answered. ground (arith, met, same, Answered→answered_for answers a.rtype answered),
        )
    | inr e ↦ elim (Bool-cases (any has_addresses answers)) [
      | inl k ↦ absurd (ground (arith, h, resolves answers settings e k))
      | inr k ↦
          absurd
            (lacking-ne-failed (any is_nxdomain answers) (rw (lacks answers settings e k) at h))
    ]
  ],
  λ (a, listed, lacking). elim (Bool-cases (unanswered answers (types_of answers))) [
    | inl e ↦ rw (fails answers settings e) refl
    | inr e ↦ absurd (lacking (unanswered→ answers e a listed))
  ],
)

-- The outcome is `resolved` exactly when every type among the answers has a definitive one and some
-- answer has an address.
pub classify_resolved :
    (answers : List Answer) (settings : Settings)
    → ((classify answers settings).status ≡ resolved) ↔ (
        ((a : Answer) → In a answers → Answered answers a.rtype)
        × ((a : Answer) × In a answers × (a.addresses ≢ [])))
classify_resolved answers settings = (
  λ h. elim (Bool-cases (unanswered answers (types_of answers))) [
    | inl e ↦ absurd (ground (arith, h, fails answers settings e))
    | inr e ↦ elim (Bool-cases (any has_addresses answers)) [
      | inl k ↦
          let (a, listed, met) = any→In has_addresses answers k in
          (unanswered→ answers e, (a, listed, (with_address a).0 met))
      | inr k ↦
          absurd
            (lacking-ne-resolved (any is_nxdomain answers) (rw (lacks answers settings e k) at h))
    ]
  ],
  λ (complete, (a, listed, has)). elim (Bool-cases (unanswered answers (types_of answers))) [
    | inl e ↦
        let (rtype, there, met) =
          any→In (λ rtype. not (answered_for answers rtype)) (types_of answers) e in
        let (b, listed', same) = listed_type answers rtype there in
        absurd
          (ground (arith, met, same, Answered→answered_for answers b.rtype (complete b listed')))
    | inr e ↦
        rw
          (resolves answers settings e
            (In→any has_addresses answers a listed ((with_address a).1 has)))
          refl
  ],
)
