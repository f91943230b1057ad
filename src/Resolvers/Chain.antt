-- ===== src/Resolvers/Chain.antt =====
-- CNAME chains: what `parse_response` finds by following them.
use ca_dns.Prelude.{
  ℕ, zero, suc, ◌≤◌, ◌<◌, min, ◌≡◌, refl, ◌⊎◌, inl, inr, ◌||◌, none, some, List, [], ◌∷◌, ◌++◌,
  arith, ◌==◌, Option-cases,
}
use ca_dns.Prelude.Text.{Text}
use ca_dns.Prelude.Sort.{sorted_set}
use ca_dns.Resolvers.{
  noerror, definitive, Addresses, Cname, Response, first_soa, least, least_of, without_data, chase,
  parse_response,
}

module _ {Name : Type 0} (response : Response Name) (rtype : Text) where
  -- The addresses that `hops` CNAMEs lead to from a name, and the least TTL on the way.
  pub data Leads : Name → ℕ → List Text → ℕ → Type 0 where
    here :
        (name : Name) (rrset : Addresses)
        → response.get_addresses rtype name ≡ some rrset
        → Leads name 0 rrset.addresses rrset.ttl
    hop :
        (name : Name) (cname : Cname Name) (hops : ℕ) (addresses : List Text) (ttl : ℕ)
        → response.get_addresses rtype name ≡ none
        → response.get_cname name ≡ some cname
        → Leads cname.target hops addresses ttl
        → Leads name (suc hops) addresses (min cname.ttl ttl)

  least_append : (x : ℕ) (ttls : List ℕ) (t : ℕ) → least x (ttls ++ (t ∷ [])) ≡ min (least x ttls) t
  least_append x [] t = refl
  least_append x (y ∷ ys) t = least_append (min x y) ys t

  -- `least_of`, with `t` counted among the TTLs.
  abbrev capped : List ℕ → ℕ → ℕ
  capped [] t = t
  capped (x ∷ xs) t = min (least x xs) t

  least_of_append : (ttls : List ℕ) (t : ℕ) → least_of (ttls ++ (t ∷ [])) ≡ capped ttls t
  least_of_append [] t = refl
  least_of_append (x ∷ xs) t = least_append x xs t

  capped_append : (ttls : List ℕ) (t u : ℕ) → capped (ttls ++ (t ∷ [])) u ≡ capped ttls (min t u)
  capped_append [] t u = refl
  capped_append (x ∷ xs) t u = rw (least_append x xs t) (omega arith)

  chase_found :
      (name : Name) (hops : ℕ) (addresses : List Text) (ttl rounds : ℕ) (ttls : List ℕ)
      → Leads name hops addresses ttl
      → hops < rounds
      → chase response rtype rounds name ttls ≡ some (sorted_set addresses, capped ttls ttl)
  unfolding chase
  chase_found name hops addresses ttl zero ttls leads fits = absurd (omega (arith, fits))
  chase_found name hops addresses ttl (suc rounds) ttls (here n rrset found) fits =
      rw (found, chase, least_of_append ttls rrset.ttl) refl
  chase_found name hops addresses ttl (suc rounds) ttls (hop n cname h ends t missing found rest)
        fits =
      rw
        (
          missing,
          found,
          chase,
          chase_found cname.target h ends t rounds (ttls ++ (cname.ttl ∷ [])) rest
              (omega (arith, fits)),
          capped_append ttls cname.ttl t,
        )
        refl

  chase-Leads :
      (rounds : ℕ) (name : Name) (ttls : List ℕ)
      → (chase response rtype rounds name ttls ≡ none)
        ⊎ ((hops : ℕ) × (addresses : List Text) × (ttl : ℕ) × Leads name hops addresses ttl
            × (hops < rounds))
  unfolding chase
  chase-Leads zero name ttls = inl refl
  chase-Leads (suc rounds) name ttls = elim (Option-cases (response.get_addresses rtype name)) [
    | inr (rrset, found) ↦ inr (0, rrset.addresses, rrset.ttl, here name rrset found, omega arith)
    | inl missing ↦ elim (Option-cases (response.get_cname name)) [
      | inl end ↦ inl (rw (missing, end, chase) refl)
      | inr (cname, found) ↦ elim (chase-Leads rounds cname.target (ttls ++ (cname.ttl ∷ []))) [
        | inl nothing ↦ inl (rw (missing, found, chase, nothing) refl)
        | inr (hops, addresses, ttl, rest, fits) ↦ inr (
          suc hops,
          addresses,
          min cname.ttl ttl,
          hop name cname hops addresses ttl missing found rest,
          omega (arith, fits),
        )
      ]
    ]
  ]

module _ {Name : Type 0} (from_text : Text → Name) (response : Response Name)
    (qname rtype resolver : Text) where
  -- A message without an error, in which at most 16 CNAMEs lead from the name asked for to an
  -- address RRset, gives that RRset's addresses, sorted and each once, with the least TTL on the way.
  pub parse_response-chain :
      (hops : ℕ) (addresses : List Text) (ttl : ℕ)
      → response.rcode ≡ 0
      → Leads response rtype (from_text qname) hops addresses ttl
      → hops ≤ 16
      → parse_response from_text response qname rtype resolver ≡ record {
        resolver = resolver;
        rtype = rtype;
        status = noerror;
        addresses = sorted_set addresses;
        ttl = some ttl;
        negative_ttl = none;
      }
  unfolding parse_response
  parse_response-chain hops addresses ttl code leads fits =
      rw
        (
          code,
          chase_found response rtype (from_text qname) hops addresses ttl 17 [] leads
              (omega (arith, fits)),
        )
        refl

  -- A message without an error in which no 16 CNAMEs or fewer lead to an address RRset, one whose
  -- CNAMEs run in a circle among them, gives no addresses, with the negative TTL of its SOA.
  pub parse_response-nodata :
      ((hops : ℕ) (addresses : List Text) (ttl : ℕ)
        → Leads response rtype (from_text qname) hops addresses ttl
        → 16 < hops)
      → response.rcode ≡ 0
      → parse_response from_text response qname rtype resolver
        ≡ without_data rtype resolver noerror (first_soa response.authority)
  unfolding parse_response
  parse_response-nodata unled code = elim (chase-Leads response rtype 17 (from_text qname) []) [
    | inl nothing ↦ rw (code, nothing) refl
    | inr (hops, addresses, ttl, leads, fits) ↦
        absurd (omega (arith, fits, unled hops addresses ttl leads))
  ]

  -- The answer is definitive exactly when the response code is NOERROR or NXDOMAIN; it carries the
  -- resolver and the type that were asked.
  pub parse_response-definitive :
      (definitive (parse_response from_text response qname rtype resolver)
        ≡ (response.rcode == 0 || response.rcode == 3))
      × ((parse_response from_text response qname rtype resolver).resolver ≡ resolver)
      × ((parse_response from_text response qname rtype resolver).rtype ≡ rtype)
  unfolding parse_response
  parse_response-definitive = elim (Option-cases (chase response rtype 17 (from_text qname) [])) [
    | inl e ↦ rw e (ground arith)
    | inr (got, e) ↦ rw e (ground arith)
  ]
