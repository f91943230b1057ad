-- ===== src/Collector/Batches/Tests.antt =====
-- A small batch, and the theorem at it.
use ca_dns.Prelude.{◌≡◌, refl, ap, ◌&&◌, Option, none, some, List, [], ◌∷◌, any}
use ca_dns.Prelude.Text.{Text, text_eq, text_leb}
use ca_dns.Prelude.Sort.{sorted_set, sort_by, insert_by, insert_text}
use ca_dns.Collector.Dnstap.{hit, miss, Event, lower, to_lower}
use ca_dns.Queue.{enqueue, upsert, upsert_all, new_row, miss as missed}
use ca_dns.Collector.Batches.{
  lookup, Batch, empty_batch, Database, ends_in_dot, find_domain, new_domain, upsert_domain,
  upsert_domains, is_due, due_names, write_batch,
}
use ca_dns.Queue.Rows.{find, upserted}
use ca_dns.Collector.Batches.Misses.{wanted, write_batch-misses}
use ca_dns.Collector.Batches.Counts.{add_all, add_all_counts}

abbrev name_b : Text
name_b = 98 ∷ []

abbrev name_a : Text
name_a = 97 ∷ []

abbrev events : List Event
events =
    record { kind = hit; name = name_b; time = 7 }
    ∷ record { kind = miss; name = name_a; time = 8 }
    ∷ record { kind = hit; name = name_b; time = 5 }
    ∷ []

add_all_counts_example :
    (lookup name_b (add_all events empty_batch).hits ≡ some (2, 7))
    × (lookup name_b (add_all events empty_batch).misses ≡ none)
unfolding text_eq
add_all_counts_example = add_all_counts events name_b

abbrev first_seen : Batch
first_seen = record { hits = []; misses = (name_a, 8) ∷ [] }

abbrev nothing_yet : Database
nothing_yet = record { domains = []; queue = [] }

-- A name seen first is stored and queued.
stored_and_queued : write_batch 9 first_seen nothing_yet ≡ (
  some (name_a ∷ []),
  record { domains = new_domain name_a 8 ∷ []; queue = new_row 9 name_a missed ∷ [] },
)
unfolding write_batch sort_by insert_by upsert_domains upsert_domain due_names is_due find_domain
    ends_in_dot lower to_lower text_eq enqueue sorted_set insert_text text_leb upsert_all upsert
stored_and_queued = refl

-- The root name is no allowed name of a domain: a batch with it among its misses is refused whole.
abbrev with_root : Batch
with_root = record { hits = []; misses = (name_a, 8) ∷ (46 ∷ [], 8) ∷ [] }

refused_whole : write_batch 9 with_root nothing_yet ≡ (none, nothing_yet)
unfolding write_batch sort_by insert_by upsert_domains upsert_domain due_names is_due find_domain
    ends_in_dot lower to_lower text_eq enqueue sorted_set insert_text text_leb upsert_all upsert
refused_whole = refl

write_batch-misses_example : any (text_eq name_a) (name_a ∷ []) ≡ (
    wanted 9 name_a (find_domain name_a []) ((name_a, 8) ∷ [])
    && (upserted 9 missed name_a (find name_a [])).0)
write_batch-misses_example =
    write_batch-misses 9 first_seen nothing_yet (name_a ∷ []) name_a
      (ap (λ (p : Option (List Text) × Database). p.0) stored_and_queued)
