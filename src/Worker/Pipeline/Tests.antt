-- ===== src/Worker/Pipeline/Tests.antt =====
-- Answers of two resolvers, and the theorems at them.
use ca_dns.Prelude.{ℕ, ◌≡◌, refl, ◌≢◌, ◌↔◌, inl, none, some, List, [], ◌∷◌}
use ca_dns.Prelude.Text.{text_leb, Text, text_eq, codes}
use ca_dns.Prelude.Sort.{sorted_set, insert_text, In}
use ca_dns.Resolvers.{
  noerror, nxdomain, Answer, soa, Response, first_soa, without_data, parse_response, Reply,
  answered, ask, ask_all, resolve,
}
use ca_dns.Worker.Pipeline.{
  Settings, backoff_of, negative_ttls, resolved, no_domain, failed as failed_status, classify,
}
use ca_dns.Worker.Pipeline.Outcomes.{Answered, classify_failed, classify_resolved}
use ca_dns.Worker.Pipeline.Waits.{classify-resolve}

abbrev settings : Settings
settings = record {
  failed_retry_seconds = 300;
  negative_min_seconds = 60;
  negative_max_seconds = 900;
}

abbrev type_a : Text
type_a = codes "A"

abbrev type_aaaa : Text
type_aaaa = codes "AAAA"

abbrev with_a : Answer
with_a = record {
  resolver = 9 ∷ [];
  rtype = type_a;
  status = noerror;
  addresses = (4 ∷ []) ∷ [];
  ttl = some 60;
  negative_ttl = none;
}

abbrev no_aaaa : Answer
no_aaaa = without_data type_aaaa (9 ∷ []) noerror (some 30)

abbrev no_a : Answer
no_a = without_data type_a (9 ∷ []) nxdomain (some 120)

classify_failed_example :
    ((classify (with_a ∷ no_aaaa ∷ []) settings).status ≡ failed_status)
    ↔ ((a : Answer) × In a (with_a ∷ no_aaaa ∷ []) × ¬ Answered (with_a ∷ no_aaaa ∷ []) a.rtype)
classify_failed_example = classify_failed (with_a ∷ no_aaaa ∷ []) settings

classify_resolved_example : ((classify (with_a ∷ no_aaaa ∷ []) settings).status ≡ resolved) ↔ (
    ((a : Answer) → In a (with_a ∷ no_aaaa ∷ []) → Answered (with_a ∷ no_aaaa ∷ []) a.rtype)
    × ((a : Answer) × In a (with_a ∷ no_aaaa ∷ []) × (a.addresses ≢ [])))
classify_resolved_example = classify_resolved (with_a ∷ no_aaaa ∷ []) settings

negative :
    classify (no_a ∷ no_aaaa ∷ []) settings
    ≡ record { status = no_domain; answers = no_a ∷ no_aaaa ∷ []; retry_after_seconds = some 60 }
unfolding classify sorted_set insert_text text_eq text_leb backoff_of negative_ttls
negative = refl

abbrev silent : Response Text
silent = record {
  rcode = 3;
  get_addresses = λ rtype name. none;
  get_cname = λ name. none;
  authority = soa 900 120 ∷ [];
}

abbrev ask_silent : Text → Text → Text → ℕ → Reply Text
ask_silent qname rtype resolver timeout_seconds = answered silent

abbrev silent_answers : List Answer
silent_answers =
    without_data type_a (9 ∷ []) nxdomain (some 120)
    ∷ without_data type_aaaa (9 ∷ []) nxdomain (some 120)
    ∷ []

silent_resolve : resolve (λ name. name) ask_silent 3 ((9 ∷ []) ∷ []) (1 ∷ []) ≡ some silent_answers
unfolding resolve ask_all ask parse_response first_soa
silent_resolve = refl

silent_classified : (classify silent_answers settings).status ≡ no_domain
unfolding classify sorted_set insert_text text_eq text_leb backoff_of negative_ttls
silent_classified = refl

classify-resolve_example : Answered silent_answers type_a × Answered silent_answers type_aaaa
classify-resolve_example =
    classify-resolve (λ name. name) ask_silent 3 ((9 ∷ []) ∷ []) (9 ∷ []) (1 ∷ []) silent_answers
      settings (inl refl) silent_resolve (rw silent_classified (λ e. cc))
