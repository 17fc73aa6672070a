-- ===== src/Audit/Stored.antt =====
-- What a run of the audit trail leaves on the disk, and what its own verification says to it.
use fapilog.Prelude.{
  ℕ, suc, ◌+◌, ◌≤◌, ◌<◌, ◌≡◌, ◌≢◌, refl, sym, ap, ◌∙◌, ◌↔◌, Bool, true, false, Option, none, some,
  List, [], ◌∷◌, ◌++◌, length, Text, codes, arith, All, append_assoc, append-nil, Bool-cases, inl,
  inr, subst, if◌then◌else◌,
}
use fapilog.Audit.Event.{AuditEvent, model_dump}
use fapilog.Audit.Trail.{
  Codec, Directory, AuditTrail, numbered, checksum_of, compute_checksum, payload, write_to_file,
  log_file, Outcome, unserializable, write_failed, written, store_event, should_alert,
  check_compliance_alerts, process, drain_events,
}

-- an event with its number, the hash before it and its checksum
abbrev pub linked : ℕ → Option Text → AuditEvent → AuditEvent
linked n last e = record e { sequence_number = some (n + 1); previous_hash = last }

abbrev pub hash_of : Codec → ℕ → Option Text → AuditEvent → Text
hash_of c n last e = compute_checksum c (model_dump (linked n last e))

abbrev pub seal : Codec → ℕ → Option Text → AuditEvent → AuditEvent
seal c n last e = record e {
  sequence_number = some (n + 1);
  previous_hash = last;
  checksum = some (hash_of c n last e);
}

payload-seal :
    (c : Codec) (t : AuditTrail) (e : AuditEvent)
    → payload c t e ≡ model_dump (seal c t.seq_counter t.last_hash e)
unfolding payload model_dump checksum_of numbered fapilog.Prelude.Value.put
payload-seal c t e = refl

pub seal-checksum :
    (c : Codec) (n : ℕ) (last : Option Text) (e : AuditEvent)
    → compute_checksum c (model_dump (seal c n last e)) ≡ hash_of c n last e
unfolding compute_checksum model_dump fapilog.Prelude.Value.delete
seal-checksum c n last e = refl

-- the last hash after an outcome
abbrev pub next_hash : Codec → Outcome → ℕ → Option Text → AuditEvent → Option Text
next_hash c unserializable n last e = last
next_hash c _ n last e = some (hash_of c n last e)

abbrev pub next_directory : Codec → Outcome → ℕ → Option Text → AuditEvent → Directory → Directory
next_directory c written n last e d =
    write_to_file (log_file c e) (c.canonical_json (model_dump (seal c n last e))) d
next_directory c _ n last e d = d

-- the directory after the events `es`, from the number and the hash of the event before them
abbrev pub stored :
    Codec → (ℕ → Outcome) → ℕ → Option Text → List AuditEvent → Directory → Directory
stored c disk n last [] d = d
stored c disk n last (e ∷ es) d =
    stored c disk (n + 1) (next_hash c (disk (n + 1)) n last e) es
      (next_directory c (disk (n + 1)) n last e d)

abbrev pub keep : Outcome → AuditEvent → List AuditEvent → List AuditEvent
keep written w rest = w ∷ rest
keep _ w rest = rest

-- the events that reach the disk, as they stand there
abbrev pub written_events :
    Codec → (ℕ → Outcome) → ℕ → Option Text → List AuditEvent → List AuditEvent
written_events c disk n last [] = []
written_events c disk n last (e ∷ es) =
    keep (disk (n + 1)) (seal c n last e)
      (written_events c disk (n + 1) (next_hash c (disk (n + 1)) n last e) es)

abbrev pub Agrees :
    Codec → Outcome → AuditTrail → Directory → AuditEvent → AuditTrail × Directory → Type 0
Agrees c o t d e r =
    (r.0.seq_counter ≡ t.seq_counter + 1)
    × (r.0.last_hash ≡ next_hash c o t.seq_counter t.last_hash e)
    × (r.1 ≡ next_directory c o t.seq_counter t.last_hash e d)
    × (r.0.event_queue ≡ t.event_queue)
    × (r.0.policy ≡ t.policy)
    × (r.0.event_count ≡ t.event_count)

store_event-Agrees :
    (c : Codec) (o : Outcome) (t : AuditTrail) (d : Directory) (e : AuditEvent)
    → Agrees c o t d e (store_event c o t d e)
unfolding store_event checksum_of numbered
store_event-Agrees c unserializable t d e = (refl, refl, refl, refl, refl, refl)
store_event-Agrees c write_failed t d e = (refl, refl, refl, refl, refl, refl)
store_event-Agrees c written t d e = (
  refl,
  refl,
  ap (λ p. write_to_file (log_file c e) (c.canonical_json p) d) (payload-seal c t e),
  refl,
  refl,
  refl,
)

alerts-Agrees :
    (c : Codec) (o : Outcome) (t : AuditTrail) (d : Directory) (e : AuditEvent)
    (r : AuditTrail × Directory)
    → Agrees c o t d e r
    → Agrees c o t d e (check_compliance_alerts r.0 e, r.1)
unfolding check_compliance_alerts
alerts-Agrees c o t d e r h = elim (Bool-cases (should_alert r.0.policy e)) [
  | inl f ↦ rw f h
  | inr f ↦ rw f h
]

pub process-Agrees :
    (c : Codec) (disk : ℕ → Outcome) (t : AuditTrail) (d : Directory) (e : AuditEvent)
    → Agrees c (disk (t.seq_counter + 1)) t d e (process c disk t d e)
unfolding process
process-Agrees c disk t d e =
    alerts-Agrees c (disk (t.seq_counter + 1)) t d e
      (store_event c (disk (t.seq_counter + 1)) t d e)
      (store_event-Agrees c (disk (t.seq_counter + 1)) t d e)

-- what a trail and a directory lead to once `es` are stored
abbrev pub leads_to : Codec → (ℕ → Outcome) → List AuditEvent → AuditTrail × Directory → Directory
leads_to c disk es r = stored c disk r.0.seq_counter r.0.last_hash es r.1

pub process-leads_to :
    (c : Codec) (disk : ℕ → Outcome) (t : AuditTrail) (d : Directory) (e : AuditEvent)
    (es : List AuditEvent)
    → leads_to c disk es (process c disk t d e) ≡ leads_to c disk (e ∷ es) (t, d)
process-leads_to c disk t d e es =
    let (s, l, q, k, p, m) = process-Agrees c disk t d e in rw (s, l, q) refl

pub drain_events-leads_to :
    (c : Codec) (disk : ℕ → Outcome) (es : List AuditEvent) (t : AuditTrail) (d : Directory)
    → (drain_events c disk es t d).1 ≡ leads_to c disk es (t, d)
unfolding drain_events
drain_events-leads_to c disk [] t d = refl
drain_events-leads_to c disk (e ∷ es) t d =
    let r = process c disk t d e in
    drain_events-leads_to c disk es r.0 r.1 ∙ process-leads_to c disk t d e es
