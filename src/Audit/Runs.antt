-- ===== src/Audit/Runs.antt =====
-- Runs of the audit trail: calls of `log_event` with turns of the processing task between them, in
-- any order, and the drain of `stop` at the end.
use fapilog.Prelude.{
  ℕ, ◌+◌, length, length-append, arith, ◌≡◌, refl, sym, ap, ◌∙◌, true, List, [], ◌∷◌, ◌++◌,
  append_assoc, append-nil, subst, if◌then◌else◌,
}
use fapilog.Audit.Event.{AuditEvent}
use fapilog.Audit.Trail.{
  Codec, Directory, AuditTrail, log_event, accept, Outcome, drain, drain_events, CompliancePolicy,
  init, process, process_first, process_events,
}
use fapilog.Audit.Stored.{leads_to, drain_events-leads_to, process-leads_to, process-Agrees}

pub data Action : Type 0 where
  log : AuditEvent → Action
  turn : Action

abbrev pub act : Codec → (ℕ → Outcome) → Action → AuditTrail × Directory → AuditTrail × Directory
act c disk (log e) r = (log_event r.0 e, r.1)
act c disk turn r = process_events c disk r.0 r.1

abbrev pub run :
    Codec → (ℕ → Outcome) → List Action → AuditTrail × Directory → AuditTrail × Directory
run c disk [] r = r
run c disk (a ∷ acts) r = run c disk acts (act c disk a r)

-- the run and the drain after it
abbrev pub run_and_stop :
    Codec → (ℕ → Outcome) → List Action → AuditTrail × Directory → AuditTrail × Directory
run_and_stop c disk acts r = let s = run c disk acts r in drain c disk s.0 s.1

abbrev pub logged : List Action → List AuditEvent
logged [] = []
logged (log e ∷ acts) = e ∷ logged acts
logged (turn ∷ acts) = logged acts

abbrev Continues :
    Codec
    → (ℕ → Outcome)
    → List AuditEvent
    → AuditTrail × Directory
    → AuditTrail × Directory
    → Type 0
Continues c disk new r s =
    ((es : List AuditEvent)
      → leads_to c disk (s.0.event_queue ++ es) s
        ≡ leads_to c disk (r.0.event_queue ++ (new ++ es)) r)
    × (s.0.policy.enabled ≡ true)

log_event-Continues :
    (c : Codec) (disk : ℕ → Outcome) (e : AuditEvent) (t : AuditTrail) (d : Directory)
    → t.policy.enabled ≡ true
    → Continues c disk (e ∷ []) (t, d) (log_event t e, d)
unfolding log_event accept
log_event-Continues c disk e t d h =
    subst (λ b. Continues c disk (e ∷ []) (t, d) (if b then accept t e else t, d)) (sym h)
      (λ es. ap (λ q. leads_to c disk q (t, d)) (append_assoc t.event_queue (e ∷ []) es), h)

process_first-Continues :
    (c : Codec) (disk : ℕ → Outcome) (q : List AuditEvent) (t : AuditTrail) (d : Directory)
    → t.policy.enabled ≡ true
    → t.event_queue ≡ q
    → Continues c disk [] (t, d) (process_first c disk q t d)
unfolding process_first
process_first-Continues c disk [] t d h k = (λ es. refl, h)
process_first-Continues c disk (e ∷ q) t d h k =
    let t' = record t { event_queue = q } in
    let (s, l, p, m, o, i) = process-Agrees c disk t' d e in
    (
      λ es.
          ap (λ u. leads_to c disk (u ++ es) (process c disk t' d e)) m
          ∙ (process-leads_to c disk t' d e (q ++ es)
              ∙ ap (λ u. leads_to c disk (u ++ es) (t, d)) (sym k)),
      rw o h,
    )

act-Continues :
    (c : Codec) (disk : ℕ → Outcome) (a : Action) (t : AuditTrail) (d : Directory)
    → t.policy.enabled ≡ true
    → Continues c disk (logged (a ∷ [])) (t, d) (act c disk a (t, d))
unfolding process_events
act-Continues c disk (log e) t d h = log_event-Continues c disk e t d h
act-Continues c disk turn t d h = process_first-Continues c disk t.event_queue t d h refl

logged-cons : (a : Action) (acts : List Action) → logged (a ∷ acts) ≡ logged (a ∷ []) ++ logged acts
logged-cons (log e) acts = refl
logged-cons turn acts = refl

run-leads_to :
    (c : Codec) (disk : ℕ → Outcome) (acts : List Action) (t : AuditTrail) (d : Directory)
    → t.policy.enabled ≡ true
    → let s = run c disk acts (t, d) in
      leads_to c disk s.0.event_queue s ≡ leads_to c disk (t.event_queue ++ logged acts) (t, d)
run-leads_to c disk [] t d h = ap (λ q. leads_to c disk q (t, d)) (sym (append-nil t.event_queue))
run-leads_to c disk (a ∷ acts) t d h =
    let s = act c disk a (t, d) in
    let (f, g) = act-Continues c disk a t d h in
    run-leads_to c disk acts s.0 s.1 g
    ∙ (f (logged acts)
        ∙ ap (λ l. leads_to c disk (t.event_queue ++ l) (t, d)) (sym (logged-cons a acts)))

-- However calls and turns interleave, the disk ends up as if the queued events and then the logged
-- ones had been stored one after the other.
pub run_and_stop-leads_to :
    (c : Codec) (disk : ℕ → Outcome) (acts : List Action) (t : AuditTrail) (d : Directory)
    → t.policy.enabled ≡ true
    → (run_and_stop c disk acts (t, d)).1 ≡ leads_to c disk (t.event_queue ++ logged acts) (t, d)
unfolding drain
run_and_stop-leads_to c disk acts t d h =
    let s = run c disk acts (t, d) in
    drain_events-leads_to c disk s.0.event_queue s.0 s.1 ∙ run-leads_to c disk acts t d h

-- every event that was accepted has a number or waits in the queue
abbrev IsCounted : AuditTrail → ℕ → Type 0
IsCounted t n =
    (t.event_count ≡ n) × (t.seq_counter + length t.event_queue ≡ n) × (t.policy.enabled ≡ true)

log_event-IsCounted :
    (e : AuditEvent) (t : AuditTrail) (n : ℕ) → IsCounted t n → IsCounted (log_event t e) (n + 1)
unfolding log_event accept
log_event-IsCounted e t n (a, b, h) =
    subst (λ x. IsCounted (if x then accept t e else t) (n + 1)) (sym h)
      (omega (arith, a), omega (arith, b, length-append t.event_queue (e ∷ [])), h)

process_first-IsCounted :
    (c : Codec) (disk : ℕ → Outcome) (q : List AuditEvent) (t : AuditTrail) (d : Directory) (n : ℕ)
    → t.event_queue ≡ q
    → IsCounted t n
    → IsCounted (process_first c disk q t d).0 n
unfolding process_first
process_first-IsCounted c disk [] t d n k h = h
process_first-IsCounted c disk (e ∷ q) t d n k (a, b, h) =
    let (s, l, p, m, o, i) = process-Agrees c disk (record t { event_queue = q }) d e in
    (i ∙ a, omega (arith, s, ap length m, ap length k, b), ap (λ x. x.enabled) o ∙ h)

run-IsCounted :
    (c : Codec) (disk : ℕ → Outcome) (acts : List Action) (t : AuditTrail) (d : Directory) (n : ℕ)
    → IsCounted t n
    → IsCounted (run c disk acts (t, d)).0 (n + length (logged acts))
unfolding process_events
run-IsCounted c disk [] t d n h = subst (IsCounted t) (omega arith) h
run-IsCounted c disk (log e ∷ acts) t d n h =
    subst (IsCounted (run c disk acts (log_event t e, d)).0) (omega arith)
      (run-IsCounted c disk acts (log_event t e) d (n + 1) (log_event-IsCounted e t n h))
run-IsCounted c disk (turn ∷ acts) t d n h =
    let r = process_first c disk t.event_queue t d in
    run-IsCounted c disk acts r.0 r.1 n (process_first-IsCounted c disk t.event_queue t d n refl h)

drain_events_counts :
    (c : Codec) (disk : ℕ → Outcome) (q : List AuditEvent) (t : AuditTrail) (d : Directory)
    → let s = (drain_events c disk q t d).0 in
      (s.event_queue ≡ [])
      × (s.event_count ≡ t.event_count)
      × (s.seq_counter ≡ t.seq_counter + length q)
unfolding drain_events
drain_events_counts c disk [] t d = (refl, refl, omega arith)
drain_events_counts c disk (e ∷ q) t d =
    let r = process c disk t d e in
    let (s, l, p, m, o, i) = process-Agrees c disk t d e in
    let (x, y, z) = drain_events_counts c disk q r.0 r.1 in (x, y ∙ i, omega (arith, z, s))

-- After any interleaving of calls and turns of a new, enabled audit trail and the drain of stop,
-- whatever the disk answers, the queue is empty, and the events counted and the numbers given are
-- the events logged.
pub run_and_stop_counts :
    (c : Codec) (disk : ℕ → Outcome) (acts : List Action) (p : CompliancePolicy) (d : Directory)
    → p.enabled ≡ true
    → let s = (run_and_stop c disk acts (init p, d)).0 in
      (s.event_queue ≡ [])
      × (s.event_count ≡ length (logged acts))
      × (s.seq_counter ≡ length (logged acts))
unfolding drain init
run_and_stop_counts c disk acts p d h =
    let s = run c disk acts (init p, d) in
    let (a, b, e) = run-IsCounted c disk acts (init p) d 0 (refl, refl, h) in
    let (x, y, z) = drain_events_counts c disk s.0.event_queue s.0 s.1 in
    (x, y ∙ omega (arith, a), omega (arith, z, b))
