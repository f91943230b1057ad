-- ===== src/Collector/Dnstap/Events.antt =====
-- `classify`: exactly which responses become events, and which events.
use ca_dns.Prelude.{
  ℕ, ◌≡◌, refl, ◌↔◌, ◌⊎◌, inl, inr, true, false, Option, some, List, [], ◌∷◌, arith, Option-cases,
}
use ca_dns.Prelude.Text.{Text}
use ca_dns.Collector.Dnstap.{
  Bytes, ClientResponse, is_ignored, Question, Message, hit, miss, Event, lower, event_time,
  classify_question, classify,
}

-- Why a response is an event: one question, for an address, in a query; its name is not ignored; and
-- the answer is authoritative (a hit), or recursive with NOERROR or NXDOMAIN (a miss). The time is
-- the response's, or `now` where that is missing or 0.
pub record Explains (response : ClientResponse) (suffixes : List Text) (now : ℕ) (m : Message)
    (q : Question) (e : Event) : Type 0 where
  pub one_question : m.question ≡ q ∷ []
  pub query : m.opcode ≡ 0
  pub internet : q.rdclass ≡ 1
  pub address : (q.rdtype ≡ 1) ⊎ (q.rdtype ≡ 28)
  pub name : e.name ≡ lower q.name
  pub known : is_ignored e.name suffixes ≡ false
  pub time : e.time ≡ event_time response.response_time now
  pub answer :
      ((e.kind ≡ hit) × (m.authoritative ≡ true))
      ⊎ ((e.kind ≡ miss) × (m.authoritative ≡ false) × ((m.rcode ≡ 0) ⊎ (m.rcode ≡ 3)))

module _ (response : ClientResponse) (suffixes : List Text) (now : ℕ) (m : Message)
    (e : Event) where
  question→reason :
      (questions : List Question)
      → m.question ≡ questions
      → classify_question response m questions suffixes now ≡ some e
      → (q : Question) × Explains response suffixes now m q e
  unfolding classify_question
  question→reason [] asked h = cc
  question→reason (q ∷ []) asked h = (
    q,
    record {
      one_question = asked;
      query = ground arith;
      internet = ground arith;
      address = ground arith;
      name = ground arith;
      known = ground arith;
      time = ground arith;
      answer = ground arith;
    },
  )
  question→reason (q ∷ r ∷ qs) asked h = cc

  reason→question :
      (q : Question)
      → Explains response suffixes now m q e
      → classify_question response m m.question suffixes now ≡ some e
  unfolding classify_question
  reason→question q x =
      rw x.one_question (ground (arith, x.answer, x.address, x.known, rw x.name at x.known))

-- A response becomes an event exactly when its wire bytes hold a message that explains the event.
pub classify_iff :
    (from_wire : Bytes → Option Message) (response : ClientResponse) (suffixes : List Text)
    (now : ℕ) (e : Event)
    → (classify from_wire response suffixes now ≡ some e) ↔ (
        (m : Message) × (q : Question) × (from_wire response.wire ≡ some m)
        × Explains response suffixes now m q e)
unfolding classify
classify_iff from_wire response suffixes now e = (
  (λ h. elim (Option-cases (from_wire response.wire)) [
    | inl unread ↦ absurd (ground (arith, unread))
    | inr (m, read) ↦
        let (q, x) =
          question→reason response suffixes now m e m.question refl (ground (arith, read)) in
        (m, q, read, x)
  ]),
  (λ (m, q, read, x). rw (read, classify) (reason→question response suffixes now m e q x)),
)
