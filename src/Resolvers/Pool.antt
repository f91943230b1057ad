-- ===== src/Resolvers/Pool.antt =====
-- `ResolverPool.resolve`: one answer to each question, in the order of the questions.
use ca_dns.Prelude.{ℕ, ◌≡◌, refl, ◌⊎◌, inl, inr, none, some, List, [], ◌∷◌, ◌++◌, map, append-nil}
use ca_dns.Prelude.Text.{Text, codes}
use ca_dns.Resolvers.{
  rtypes, timeout, error, Answer, without_data, questions, parse_response, Reply, answered,
  timed_out, failed, raised, ask, ask_all, resolve,
}
use ca_dns.Resolvers.Chain.{parse_response-definitive}

abbrev pub asked_of : Answer → Text × Text
asked_of answer = (answer.rtype, answer.resolver)

module _ {Name : Type 0} (from_text : Text → Name) (query : Text → Text → Text → ℕ → Reply Name)
    (timeout_seconds : ℕ) where
  -- What a question comes to.
  abbrev Raises : Text → Type 0
  Raises qname =
      (rtype : Text) × (resolver : Text) × (query qname rtype resolver timeout_seconds ≡ raised)

  ask-cases :
      (qname rtype resolver : Text)
      → ((ask from_text query timeout_seconds qname rtype resolver ≡ none) × Raises qname)
        ⊎ ((answer : Answer) × (ask from_text query timeout_seconds qname rtype resolver
              ≡ some answer)
            × (asked_of answer ≡ (rtype, resolver)))
  unfolding ask
  ask-cases qname rtype resolver = after (query qname rtype resolver timeout_seconds) refl
    where
      after :
          (reply : Reply Name)
          → query qname rtype resolver timeout_seconds ≡ reply
          → ((ask from_text query timeout_seconds qname rtype resolver ≡ none) × Raises qname)
            ⊎ ((answer : Answer) × (ask from_text query timeout_seconds qname rtype resolver
                  ≡ some answer)
                × (asked_of answer ≡ (rtype, resolver)))
      after (answered response) e =
          let (_, at, of) = parse_response-definitive from_text response qname rtype resolver in
          inr (
            parse_response from_text response qname rtype resolver,
            rw (e, ask) refl,
            rw (at, of) refl,
          )
      after timed_out e = inr (without_data rtype resolver timeout none, rw (e, ask) refl, refl)
      after failed e = inr (without_data rtype resolver error none, rw (e, ask) refl, refl)
      after raised e = inl (rw (e, ask) refl, (rtype, resolver, e))

  ask_all-cases :
      (qname : Text) (pairs : List (Text × Text))
      → ((ask_all from_text query timeout_seconds qname pairs ≡ none) × Raises qname)
        ⊎ ((answers : List Answer) × (ask_all from_text query timeout_seconds qname pairs
              ≡ some answers)
            × (map asked_of answers ≡ pairs))
  unfolding ask_all
  ask_all-cases qname [] = inr ([], refl, refl)
  ask_all-cases qname ((rtype, resolver) ∷ pairs) = elim (ask-cases qname rtype resolver) [
    | inl (e, raises) ↦ inl (rw (e, ask_all) refl, raises)
    | inr (answer, e, of) ↦ elim (ask_all-cases qname pairs) [
      | inl (e', raises) ↦ inl (rw (e, e', ask_all) refl, raises)
      | inr (answers, e', ofs) ↦ inr (answer ∷ answers, rw (e, e', ask_all) refl, rw (of, ofs) refl)
    ]
  ]

  -- `resolve` raises an exception only when a query raises one that `_ask` does not catch; otherwise
  -- it gives an answer to every pair of a type and a resolver: first A for each resolver in turn, then
  -- AAAA for each.
  pub resolve-asked :
      (resolvers : List Text) (qname : Text)
      → ((resolve from_text query timeout_seconds resolvers qname ≡ none)
          × ((rtype : Text) × (resolver : Text) × (query qname rtype resolver timeout_seconds
                ≡ raised)))
        ⊎ ((answers : List Answer) × (resolve from_text query timeout_seconds resolvers qname
              ≡ some answers)
            × (map asked_of answers
                ≡ map (λ resolver. (codes "A", resolver)) resolvers
                  ++ map (λ resolver. (codes "AAAA", resolver)) resolvers))
  unfolding resolve
  resolve-asked resolvers qname = elim (ask_all-cases qname (questions rtypes resolvers)) [
    | inl raises ↦ inl raises
    | inr (answers, e, ofs) ↦ inr (
      answers,
      e,
      rw (append-nil {A = Text × Text} (map (λ resolver. (codes "AAAA", resolver)) resolvers)) at
          ofs,
    )
  ]
