-- ===== src/Resolvers/Tests.antt =====
-- Messages and pools on concrete inputs, and the theorems at them.
use ca_dns.Prelude.{ℕ, ◌≡◌, refl, none, some, List, [], ◌∷◌, arith, if◌then◌else◌}
use ca_dns.Prelude.Text.{Text, text_eq, codes}
use ca_dns.Prelude.Sort.{sorted_set}
use ca_dns.Resolvers.{
  noerror, Addresses, Cname, soa, other, Response, first_soa, parse_response, Reply, answered,
  timed_out,
}
use ca_dns.Resolvers.Chain.{Leads, here, hop, parse_response-chain}

abbrev start : Text
start = 1 ∷ []

abbrev target : Text
target = 2 ∷ []

abbrev same_text : Text → Text
same_text name = name

abbrev address_rrset : Addresses
address_rrset = record { addresses = (5 ∷ []) ∷ (4 ∷ []) ∷ (5 ∷ []) ∷ []; ttl = 300 }

abbrev alias : Cname Text
alias = record { target = target; ttl = 60 }

-- `start` is an alias of `target`, which has addresses.
abbrev chained : Response Text
chained = record {
  rcode = 0;
  get_addresses = λ rtype name. if text_eq name target then some address_rrset else none;
  get_cname = λ name. if text_eq name start then some alias else none;
  authority = [];
}

-- `start` is an alias of itself.
abbrev circle : Response Text
circle = record {
  rcode = 0;
  get_addresses = λ rtype name. none;
  get_cname = λ name. some (record { target = start; ttl = 60 });
  authority = other ∷ soa 900 30 ∷ [];
}

chained-Leads : Leads chained (codes "A") start 1 address_rrset.addresses 60
unfolding text_eq
chained-Leads =
    hop start alias 0 address_rrset.addresses 300 refl refl (here target address_rrset refl)

circle_unled :
    (name : Text) (hops : ℕ) (addresses : List Text) (ttl : ℕ)
    → ¬ Leads circle (codes "A") name hops addresses ttl
circle_unled name hops addresses ttl (here n rrset found) = cc
circle_unled name hops addresses ttl (hop n cname h ends t missing found rest) =
    circle_unled cname.target h ends t rest

parse_response-chain_example :
    parse_response same_text chained start (codes "A") (9 ∷ []) ≡ record {
      resolver = 9 ∷ [];
      rtype = codes "A";
      status = noerror;
      addresses = sorted_set address_rrset.addresses;
      ttl = some 60;
      negative_ttl = none;
    }
parse_response-chain_example =
    parse_response-chain same_text chained start (codes "A") (9 ∷ []) 1 address_rrset.addresses 60
      refl chained-Leads (omega arith)

circle_negative_ttl : first_soa circle.authority ≡ some 30
unfolding first_soa
circle_negative_ttl = refl

-- The first resolver answers, the second does not.
abbrev ask_both : Text → Text → Text → ℕ → Reply Text
ask_both qname rtype resolver timeout_seconds =
    if text_eq resolver (9 ∷ []) then answered chained else timed_out
