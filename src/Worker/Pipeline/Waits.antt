-- ===== src/Worker/Pipeline/Waits.antt =====
-- How long a domain waits, which types an outcome speaks for, and the addresses of its records.
use mathlib.Core.Option
use ca_dns.Prelude.{
  ℕ, ◌≤◌, min, max, ◌≡◌, refl, sym, ap, ◌∙◌, ◌≢◌, ◌⊎◌, inl, inr, Bool, false, ◌||◌, none, some,
  List, [], ◌∷◌, ◌++◌, map, arith, Bool-cases, Option-cases, any,
}
use ca_dns.Prelude.Text.{Text, text_eq, codes}
use ca_dns.Prelude.Sort.{any-sorted_set, In}
use ca_dns.Prelude.Sorted.{In-map, map-In}
use ca_dns.Resolvers.{Answer, least, Reply, resolve}
use ca_dns.Resolvers.Pool.{asked_of, resolve-asked}
use ca_dns.Worker.Pipeline.{
  record_of, Settings, resolved, failed, Outcome, Record, records_of, records, all_addresses,
  addresses, has_addresses, is_nxdomain, unanswered, negative_ttls, least_or, backoff_of, classify,
}
use ca_dns.Worker.Pipeline.Outcomes.{
  Answered, types_of, unanswered→, fails, resolves, lacks, lacking-ne-failed, lacking-ne-resolved,
}

least_le : (x : ℕ) (ttls : List ℕ) → least x ttls ≤ x
least_le x [] = omega arith
least_le x (y ∷ ys) = omega (arith, least_le (min x y) ys)

least_mono : (x y : ℕ) (ttls : List ℕ) → x ≤ y → least x ttls ≤ least y ttls
least_mono x y [] h = h
least_mono x y (z ∷ zs) h = least_mono (min x z) (min y z) zs (omega (arith, h))

least_le_In : (x t : ℕ) (ttls : List ℕ) → In t ttls → least x ttls ≤ t
least_le_In x t [] h = absurd h
least_le_In x t (y ∷ ys) (inl e) = omega (arith, e, least_le (min x y) ys)
least_le_In x t (y ∷ ys) (inr h) = least_le_In (min x y) t ys h

least_or_le : (d t : ℕ) (ttls : List ℕ) → In t ttls → least_or d ttls ≤ t
least_or_le d t [] h = absurd h
least_or_le d t (x ∷ xs) (inl e) = omega (arith, e, least_le x xs)
least_or_le d t (x ∷ xs) (inr h) = least_le_In x t xs h

In-negative_ttls :
    (answers : List Answer) (a : Answer) (t : ℕ)
    → In a answers
    → a.negative_ttl ≡ some t
    → In t (negative_ttls answers)
unfolding negative_ttls
In-negative_ttls [] a t there e = absurd there
In-negative_ttls (b ∷ bs) a t (inl same) e =
    let at : b.negative_ttl ≡ some t = rw (sym same) e in rw (at, negative_ttls) (inl refl)
In-negative_ttls (b ∷ bs) a t (inr there) e = elim (Option-cases b.negative_ttl) [
  | inl no_ttl ↦ rw (no_ttl, negative_ttls) (In-negative_ttls bs a t there e)
  | inr (u, has) ↦ rw (has, negative_ttls) (inr (In-negative_ttls bs a t there e))
]

-- A resolved domain has no waiting time, a failed one waits `failed_retry_seconds`, and any other
-- waits between `negative_min_seconds` and `negative_max_seconds`, where a maximum below the minimum
-- counts as the minimum.
pub classify_waits :
    (answers : List Answer) (settings : Settings)
    → (((classify answers settings).status ≡ resolved)
        × ((classify answers settings).retry_after_seconds ≡ none))
      ⊎ ((((classify answers settings).status ≡ failed)
            × ((classify answers settings).retry_after_seconds
                ≡ some settings.failed_retry_seconds))
          ⊎ ((wait : ℕ) × ((classify answers settings).status ≢ resolved)
              × ((classify answers settings).status ≢ failed)
              × ((classify answers settings).retry_after_seconds ≡ some wait)
              × (settings.negative_min_seconds ≤ wait)
              × (wait ≤ max settings.negative_min_seconds settings.negative_max_seconds)))
unfolding backoff_of
classify_waits answers settings = elim (Bool-cases (unanswered answers (types_of answers))) [
  | inl e ↦ inr (inl (rw (fails answers settings e) refl, rw (fails answers settings e) refl))
  | inr e ↦ elim (Bool-cases (any has_addresses answers)) [
    | inl k ↦ inl (rw (resolves answers settings e k) refl, rw (resolves answers settings e k) refl)
    | inr k ↦ inr (
        inr (
          backoff_of answers settings,
          rw (lacks answers settings e k) (lacking-ne-resolved (any is_nxdomain answers)),
          rw (lacks answers settings e k) (lacking-ne-failed (any is_nxdomain answers)),
          rw (lacks answers settings e k) refl,
          omega arith,
          omega arith,
        ))
  ]
]

-- A domain that is neither resolved nor failed waits no longer than the negative TTL of any answer,
-- or than `negative_min_seconds` where that is longer.
pub classify_honours :
    (answers : List Answer) (settings : Settings) (a : Answer) (ttl wait : ℕ)
    → (classify answers settings).status ≢ failed
    → (classify answers settings).retry_after_seconds ≡ some wait
    → In a answers
    → a.negative_ttl ≡ some ttl
    → wait ≤ max settings.negative_min_seconds ttl
unfolding backoff_of
classify_honours answers settings a ttl wait alive waits there has =
    elim (Bool-cases (unanswered answers (types_of answers))) [
      | inl e ↦ absurd (alive (rw (fails answers settings e) refl))
      | inr e ↦ elim (Bool-cases (any has_addresses answers)) [
        | inl k ↦ absurd (ground (arith, waits, resolves answers settings e k))
        | inr k ↦
            let same : backoff_of answers settings ≡ wait =
              Option.some-injective _ _ (rw (lacks answers settings e k) at waits) in
            omega (
              arith,
              sym same,
              least_or_le settings.negative_min_seconds ttl (negative_ttls answers)
                  (In-negative_ttls answers a ttl there has),
            )
      ]
    ]

In-append_left : {A : Type 0} (x : A) (xs ys : List A) → In x xs → In x (xs ++ ys)
In-append_left x [] ys h = absurd h
In-append_left x (z ∷ zs) ys (inl e) = inl e
In-append_left x (z ∷ zs) ys (inr h) = inr (In-append_left x zs ys h)

In-append_right : {A : Type 0} (x : A) (xs ys : List A) → In x ys → In x (xs ++ ys)
In-append_right x [] ys h = h
In-append_right x (z ∷ zs) ys h = inr (In-append_right x zs ys h)

asked-Answered :
    (answers : List Answer) (rtype resolver : Text)
    → unanswered answers (types_of answers) ≡ false
    → In (rtype, resolver) (map asked_of answers)
    → Answered answers rtype
asked-Answered answers rtype resolver complete there =
    let (a, listed, e) = In-map asked_of answers (rtype, resolver) there in
    rw (ap (λ (p : Text × Text). p.0) e) (unanswered→ answers complete a listed)

-- When some resolver was asked and the outcome is not `failed`, some answer for A and some answer for
-- AAAA is definitive: no outcome stands on one address type alone.
pub classify-resolve :
    {Name : Type 0} (from_text : Text → Name) (query : Text → Text → Text → ℕ → Reply Name)
    (timeout_seconds : ℕ) (resolvers : List Text) (resolver qname : Text) (answers : List Answer)
    (settings : Settings)
    → In resolver resolvers
    → resolve from_text query timeout_seconds resolvers qname ≡ some answers
    → (classify answers settings).status ≢ failed
    → Answered answers (codes "A") × Answered answers (codes "AAAA")
classify-resolve {Name} from_text query timeout_seconds resolvers resolver qname answers settings
      there resolved_as alive =
    elim (resolve-asked from_text query timeout_seconds resolvers qname) [
      | inl (nothing, raises) ↦ absurd (ground (arith, nothing, resolved_as))
      | inr (answers', e, ofs) ↦
          let same : answers' ≡ answers = Option.some-injective _ _ (sym e ∙ resolved_as) in
          let all_asked : map asked_of answers
              ≡ map (λ resolver. (codes "A", resolver)) resolvers
                ++ map (λ resolver. (codes "AAAA", resolver)) resolvers =
            rw same at ofs in
          elim (Bool-cases (unanswered answers (types_of answers))) [
            | inl failing ↦ absurd (alive (rw (fails answers settings failing) refl))
            | inr complete ↦ (
              asked-Answered answers (codes "A") resolver complete (
                  rw all_asked (
                    In-append_left _ _ _
                      (map-In (λ resolver. (codes "A", resolver)) resolvers resolver there))),
              asked-Answered answers (codes "AAAA") resolver complete (
                  rw all_asked (
                    In-append_right _ (map (λ resolver. (codes "A", resolver)) resolvers) _
                      (map-In (λ resolver. (codes "AAAA", resolver)) resolvers resolver there))),
            )
          ]
    ]

any-append :
    {A : Type 0} (p : A → Bool) (xs ys : List A) → any p (xs ++ ys) ≡ (any p xs || any p ys)
any-append p [] ys = refl
any-append p (x ∷ xs) ys = ground (arith, any-append p xs ys)

any-map :
    {A B : Type 0} (p : B → Bool) (f : A → B) (xs : List A)
    → any p (map f xs) ≡ any (λ x. p (f x)) xs
any-map p f [] = refl
any-map p f (x ∷ xs) = ground (arith, any-map p f xs)

any-records_of :
    (answers : List Answer) (address : Text)
    → any (text_eq address) (all_addresses answers)
      ≡ any (λ r. text_eq address r.address) (records_of answers)
unfolding all_addresses records_of
any-records_of [] address = refl
any-records_of (a ∷ answers) address =
    rw
      (
        any-append (text_eq address) a.addresses (all_addresses answers),
        any-append (λ (r : Record). text_eq address r.address) (map (record_of a) a.addresses)
            (records_of answers),
        any-map (λ (r : Record). text_eq address r.address) (record_of a) a.addresses,
        any-records_of answers address,
      )
      refl

-- The addresses of an outcome, which are located, are exactly those of its records, which are stored.
pub records_addresses :
    (outcome : Outcome) (address : Text)
    → any (text_eq address) (addresses outcome)
      ≡ any (λ r. text_eq address r.address) (records outcome)
records_addresses outcome address =
    any-sorted_set address (all_addresses outcome.answers) ∙ any-records_of outcome.answers address
