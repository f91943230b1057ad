-- ===== src/Worker/Measure/Referred.antt =====
-- The addresses that stored records refer to.
use ca_dns.Prelude.{
  ℕ, ◌≡◌, refl, inl, inr, Bool, true, false, not, ◌||◌, Option, List, [], ◌∷◌, ◌++◌, map, arith,
  Bool-cases, any, all, filter,
}
use ca_dns.Prelude.Text.{Text, text_eq}
use ca_dns.Prelude.Sort.{In}
use ca_dns.Resolvers.{Answer}
use ca_dns.Worker.Pipeline.{
  DomainStatus, Record, record_of, records_of, all_addresses, has_addresses,
}
use ca_dns.Worker.Store.{
  Endpoint, StoredRecord, Store, is_failed, stored_record, is_located, put_located, add_unlocated,
  write_measurement,
}
use ca_dns.Worker.Store.Stored.{has_address, write_measurement_endpoints}
use ca_dns.Worker.Measure.Known.{all-all, all-filter}

In-left : (a : Text) (xs ys : List Text) → In a xs → In a (xs ++ ys)
In-left a [] ys there = absurd there
In-left a (x ∷ xs) ys (inl same) = inl same
In-left a (x ∷ xs) ys (inr there) = inr (In-left a xs ys there)

In-right : (a : Text) (xs ys : List Text) → In a ys → In a (xs ++ ys)
In-right a [] ys there = there
In-right a (x ∷ xs) ys there = inr (In-right a xs ys there)

pub no_records :
    (answers : List Answer) → any has_addresses answers ≡ false → records_of answers ≡ []
unfolding records_of
no_records [] h = refl
no_records (answer ∷ answers) h =
    after answer.addresses refl (no_records answers (ground (arith, h)))
  where
    after :
        (as' : List Text)
        → answer.addresses ≡ as'
        → records_of answers ≡ []
        → records_of (answer ∷ answers) ≡ []
    after [] e rest = rw (records_of, e) rest
    after (a ∷ as') e rest = absurd (ground (arith, h, e))

module _ {Float : Type 0} where
  abbrev pub records_known : List (Endpoint Float) → List StoredRecord → Bool
  records_known endpoints rows = all (λ (r : StoredRecord). has_address r.address endpoints) rows

  records_known_mono :
      (old new : List (Endpoint Float)) (rows : List StoredRecord)
      → ((a : Text) → has_address a old ≡ true → has_address a new ≡ true)
      → records_known old rows ≡ true
      → records_known new rows ≡ true
  records_known_mono old new rows grows h =
      all-all (λ (r : StoredRecord). has_address r.address old)
        (λ (r : StoredRecord). has_address r.address new) rows (λ r. grows r.address) h

  new_records_known :
      (now min_ttl : ℕ) (domain : Text) (new : List (Endpoint Float)) (rs : List Record)
      → all (λ (r : Record). has_address r.address new) rs ≡ true
      → records_known new (map (stored_record now min_ttl domain) rs) ≡ true
  new_records_known now min_ttl domain new [] h = h
  new_records_known now min_ttl domain new (r ∷ rs) h =
      ground (arith, h, new_records_known now min_ttl domain new rs)

  records_known-append :
      (new : List (Endpoint Float)) (xs ys : List StoredRecord)
      → records_known new xs ≡ true
      → records_known new ys ≡ true
      → records_known new (xs ++ ys) ≡ true
  records_known-append new [] ys h h' = h'
  records_known-append new (x ∷ xs) ys h h' =
      ground (arith, h, records_known-append new xs ys (ground (arith, h)) h')

  -- A measurement whose records have endpoints keeps every record's address stored.
  pub write_measurement-records_known :
      (now : ℕ) (domain : Text) (status : DomainStatus) (retry : Option ℕ)
      (es : List (Endpoint Float)) (rs : List Record) (store : Store Float)
      → (is_failed status ≡ false → all (λ (r : Record). has_address r.address es) rs ≡ true)
      → records_known store.endpoints store.records ≡ true
      → let store' = write_measurement now domain status retry es rs store in
        records_known store'.endpoints store'.records ≡ true
  unfolding write_measurement
  write_measurement-records_known now domain status retry es rs store h ok =
      elim (Bool-cases (is_failed status)) [
        | inl kept ↦ rw kept ok
        | inr stored ↦
            let known =
              add_unlocated (filter (λ (e : Endpoint Float). not (is_located e)) es)
                (put_located (filter is_located es) store.endpoints) in
            let has : (a : Text)
                → has_address a known ≡ (has_address a es || has_address a store.endpoints) =
              λ a.
                rw (stored, write_measurement) at
                  (write_measurement_endpoints now domain status retry es rs store a) in
            let grows : (a : Text)
                → has_address a store.endpoints ≡ true
                → has_address a known ≡ true =
              λ a was. ground (arith, was, has a) in
            let finds : (a : Text) → has_address a es ≡ true → has_address a known ≡ true =
              λ a is_new. ground (arith, is_new, has a) in
            let others = λ (r : StoredRecord). not (text_eq r.domain domain) in
            rw stored (
              records_known-append known (filter others store.records) _
                (records_known_mono store.endpoints known (filter others store.records) grows (
                  all-filter (λ (r : StoredRecord). has_address r.address store.endpoints) others
                    store.records ok))
                (new_records_known now store.min_record_ttl domain known rs (
                  all-all (λ (r : Record). has_address r.address es)
                    (λ (r : Record). has_address r.address known) rs (λ r. finds r.address)
                    (h stored))))
      ]

  records_of_answer :
      (answer : Answer) (es : List (Endpoint Float)) (as' : List Text) (rest : List Record)
      → ((a : Text) → In a as' → has_address a es ≡ true)
      → all (λ (r : Record). has_address r.address es) rest ≡ true
      → all (λ (r : Record). has_address r.address es) (map (record_of answer) as' ++ rest) ≡ true
  records_of_answer answer es [] rest h ok = ok
  records_of_answer answer es (a ∷ as') rest h ok =
      let first = h a (inl refl) in
      ground (arith, first, records_of_answer answer es as' rest (λ b there. h b (inr there)) ok)

  pub all-records_of :
      (es : List (Endpoint Float)) (answers : List Answer)
      → ((a : Text) → In a (all_addresses answers) → has_address a es ≡ true)
      → all (λ (r : Record). has_address r.address es) (records_of answers) ≡ true
  unfolding records_of all_addresses
  all-records_of es [] h = refl
  all-records_of es (answer ∷ answers) h =
      records_of_answer answer es answer.addresses (records_of answers)
        (λ a there. h a (In-left a answer.addresses (all_addresses answers) there))
        (all-records_of es answers
          (λ a there. h a (In-right a answer.addresses (all_addresses answers) there)))
