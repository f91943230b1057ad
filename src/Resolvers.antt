-- ===== src/Resolvers.antt =====
-- services/src/cadns/resolvers/pool.py: the answers of every resolver to A and AAAA queries.
-- dnspython stands for itself: a message is what `parse_response` asks of it, and `query` with
-- `make_query` is a function of the question, the resolver and the timeout.
pub mod Chain
pub mod Pool
mod Tests
use ca_dns.Prelude.{
  ℕ, zero, suc, ◌+◌, ◌-◌, ◌*◌, ◌/◌, ◌%◌, ◌^◌, ◌≤◌, ◌<◌, min, max, bit_and, bit_or, ◌≡◌, refl, sym,
  ap, ◌∙◌, ◌≢◌, ◌↔◌, ◌⊎◌, inl, inr, Bool, true, false, not, ◌&&◌, ◌||◌, Option, none, some, List,
  [], ◌∷◌, ◌++◌, map, append-nil, append_assoc, arith, ltb, leb, ◌==◌, if◌then◌else◌, ltb→lt,
  leb→le, ==_iff, Bool-cases, Option-cases, length, take, drop, any, all, filter, All,
  length-append, length-drop, length-take, All-append, take-length_append, drop-length_append,
  length-filter_le,
}
use ca_dns.Prelude.Text.{Text, text_eq, codes}
use ca_dns.Prelude.Sort.{sorted_set}

abbrev pub rtypes : List Text
rtypes = codes "A" ∷ codes "AAAA" ∷ []

abbrev pub max_cname_hops : ℕ
max_cname_hops = 16

pub data Status : Type 0 where
  noerror nxdomain servfail refused timeout error : Status

pub record Answer : Type 0 where
  pub resolver : Text
  pub rtype : Text
  pub status : Status
  pub addresses : List Text
  pub ttl : Option ℕ
  pub negative_ttl : Option ℕ

abbrev pub definitive : Answer → Bool
definitive answer = elim answer.status [
  | noerror ↦ true
  | nxdomain ↦ true
  | servfail ↦ false
  | refused ↦ false
  | timeout ↦ false
  | error ↦ false
]

-- An address RRset, a CNAME RRset with the target of its first record, and an RRset of the authority
-- section, of which only the SOA counts: its `minimum` is the first record's.
pub record Addresses : Type 0 where
  pub addresses : List Text
  pub ttl : ℕ

pub record Cname (Name : Type 0) : Type 0 where
  pub target : Name
  pub ttl : ℕ

pub data Authority : Type 0 where
  soa : (ttl : ℕ) (minimum : ℕ) → Authority
  other : Authority

-- `get_rrset` of the answer section, for the wanted type and for CNAME, in class IN.
pub record Response (Name : Type 0) : Type 0 where
  pub rcode : ℕ
  pub get_addresses : Text → Name → Option Addresses
  pub get_cname : Name → Option (Cname Name)
  pub authority : List Authority

abbrev pub noerror_code : ℕ
noerror_code = 0

abbrev pub servfail_code : ℕ
servfail_code = 2

abbrev pub nxdomain_code : ℕ
nxdomain_code = 3

abbrev pub refused_code : ℕ
refused_code = 5

unfoldable pub first_soa : List Authority → Option ℕ
first_soa [] = none
first_soa (soa ttl minimum ∷ rrsets) = some (min ttl minimum)
first_soa (other ∷ rrsets) = first_soa rrsets

-- Python's `min` of the list that starts with `x`.
abbrev pub least : ℕ → List ℕ → ℕ
least x [] = x
least x (y ∷ ys) = least (min x y) ys

abbrev pub least_of : List ℕ → ℕ
least_of [] = 0
least_of (x ∷ xs) = least x xs

abbrev pub status_of : ℕ → Status
status_of rcode =
    if rcode == servfail_code then servfail else if rcode == refused_code then refused else error

abbrev pub without_data : Text → Text → Status → Option ℕ → Answer
without_data rtype resolver status negative_ttl = record {
  resolver = resolver;
  rtype = rtype;
  status = status;
  addresses = [];
  ttl = none;
  negative_ttl = negative_ttl;
}

-- `[(rtype, resolver) for rtype in rtypes for resolver in resolvers]`
abbrev pub questions : List Text → List Text → List (Text × Text)
questions [] resolvers = []
questions (rtype ∷ rest) resolvers =
    map (λ resolver. (rtype, resolver)) resolvers ++ questions rest resolvers

module _ {Name : Type 0} where
  abbrev pub negative_ttl_of : Response Name → Option ℕ
  negative_ttl_of response = first_soa response.authority

  -- The loop of `parse_response`, on the rounds that are left and the TTLs so far.
  unfoldable pub chase : Response Name → Text → ℕ → Name → List ℕ → Option (List Text × ℕ)
  chase response rtype zero name ttls = none
  chase response rtype (suc rounds) name ttls = elim (response.get_addresses rtype name) [
    | some rrset ↦ some (sorted_set rrset.addresses, least_of (ttls ++ (rrset.ttl ∷ [])))
    | none ↦ elim (response.get_cname name) [
      | none ↦ none
      | some cname ↦ chase response rtype rounds cname.target (ttls ++ (cname.ttl ∷ []))
    ]
  ]

  abbrev pub found_answer : Response Name → Text → Text → Option (List Text × ℕ) → Answer
  found_answer response rtype resolver none = record {
    resolver = resolver;
    rtype = rtype;
    status = noerror;
    addresses = [];
    ttl = none;
    negative_ttl = negative_ttl_of response;
  }
  found_answer response rtype resolver (some (addresses, ttl)) = record {
    resolver = resolver;
    rtype = rtype;
    status = noerror;
    addresses = addresses;
    ttl = some ttl;
    negative_ttl = none;
  }

  -- `from_text` is `dns.name.from_text`.
  unfoldable pub parse_response : (Text → Name) → Response Name → Text → Text → Text → Answer
  unfolding chase
  parse_response from_text response qname rtype resolver =
      if response.rcode == nxdomain_code
      then without_data rtype resolver nxdomain (negative_ttl_of response)
      else if not (response.rcode == noerror_code)
      then without_data rtype resolver (status_of response.rcode) none
      else found_answer response rtype resolver
          (chase response rtype (max_cname_hops + 1) (from_text qname) [])

-- What comes of sending the query for a name and type to a resolver: a message, a timeout, another
-- error of the network or of dnspython, or an exception that `_ask` does not catch.
pub data Reply (Name : Type 0) : Type 0 where
  answered : Response Name → Reply Name
  timed_out failed raised : Reply Name

module _ {Name : Type 0} (from_text : Text → Name) (query : Text → Text → Text → ℕ → Reply Name)
    (timeout_seconds : ℕ) where
  -- `none` is an exception.
  unfoldable pub ask : Text → Text → Text → Option Answer
  unfolding parse_response
  ask qname rtype resolver = elim (query qname rtype resolver timeout_seconds) [
    | answered response ↦ some (parse_response from_text response qname rtype resolver)
    | timed_out ↦ some (without_data rtype resolver timeout none)
    | failed ↦ some (without_data rtype resolver error none)
    | raised ↦ none
  ]

  -- `gather` of the questions: their answers in this order, or an exception if one raises.
  unfoldable pub ask_all : Text → List (Text × Text) → Option (List Answer)
  unfolding ask
  ask_all qname [] = some []
  ask_all qname ((rtype, resolver) ∷ pairs) =
      let rest = ask_all qname pairs in
      elim (ask qname rtype resolver) [
        | none ↦ none
        | some answer ↦ elim rest [ none ↦ none | some answers ↦ some (answer ∷ answers) ]
      ]

  unfoldable pub resolve : List Text → Text → Option (List Answer)
  unfolding ask_all
  resolve resolvers qname = ask_all qname (questions rtypes resolvers)
