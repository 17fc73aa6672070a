-- ===== src/Worker/Tests.antt =====
-- Runs of the worker: a batch that is flushed, one that fails, and passes of the loop.
use fapilog.Prelude.{
  ◌+◌, ◌≡◌, refl, ◌↔◌, ◌⊎◌, inl, inr, ap, sym, ◌∙◌, true, false, some, none, List, [], ◌∷◌, ◌++◌,
  codes, All, Any, arith,
}
use mathlib.Core.Option.{none-ne-some, some-injective}
use fapilog.Prelude.Value.{null, str, dict, Fields, field, end, get}
use fapilog.Filters.Chain.{filter_in_order}
use fapilog.Enrichers.{enrich_parallel}
use fapilog.Redactors.{redact_in_order}
use fapilog.Worker.{
  Pipeline, closed_mode, passed, fails, apply_filters, apply_enrichers, apply_redactors, is_unsafe,
  prepare,
}
use fapilog.Worker.Flush.{
  Sent, as_entry, flush_batch, prepare_all, write_concurrent, write_one_event,
}
use fapilog.Worker.Flush.Accounts.{filtered_out, flush_batch-accounted}
use fapilog.Worker.Flush.Delivered.{IsSound, flush_batch-IsSound}
use fapilog.Worker.Flush.Failure.{IsPoison, is_unsafe-none, flush_batch-fails}
use fapilog.Worker.Flush.Redaction.{apply_redactors_lem}
use fapilog.Worker.Loop.{ring, dual, start, Loop, Setup, returns, turn}
use fapilog.Worker.Loop.Waiting.{waiting}
use fapilog.Worker.Loop.Conserves.{Conserved, turn-contents}
use fapilog.Worker.Loop.Settled.{Settles, starts, outside, Reachable-Settles}
use fapilog.Worker.Loop.Stops.{turn-returns}

-- one redactor raises, the other empties the event
abbrev pipeline : Pipeline
pipeline = record {
  filters = [];
  enrichers = [];
  copy = λ event. some event;
  redactors = (λ event. none) ∷ (λ event. some (dict end)) ∷ [];
  fail_mode = closed_mode;
  processors = [];
  serialize_in_flush = false;
  envelope = λ event. none;
  mapping = λ event. none;
  strict_mode = none;
  sink_write = λ event. true;
  sink_write_serialized = none;
}

abbrev event : Fields
event = field (codes "message") (str (codes "hello")) end

abbrev poison : Fields
poison = field (codes "data") null end

abbrev nothing_sent : Sent
nothing_sent = record { processed = 0; dropped_count = 0; delivered = [] }

abbrev one_sent : Sent
one_sent = record { processed = 1; dropped_count = 0; delivered = as_entry end ∷ [] }

one_flushed : flush_batch pipeline nothing_sent (event ∷ []) ≡ some one_sent
unfolding flush_batch prepare_all prepare apply_filters filter_in_order apply_enrichers
    enrich_parallel apply_redactors is_unsafe get redact_in_order write_concurrent write_one_event
one_flushed = refl

flush_batch-accounted_example :
    (1 + 0 + filtered_out pipeline (event ∷ []) ≡ 0 + 0 + 1) × (1 + 0 ≡ 0 + 1)
flush_batch-accounted_example =
    flush_batch-accounted pipeline nothing_sent one_sent (event ∷ []) one_flushed

flush_batch-IsSound_example :
    (new : List _) × (as_entry end ∷ [] ≡ [] ++ new) × All (IsSound pipeline (event ∷ [])) new
flush_batch-IsSound_example =
    flush_batch-IsSound pipeline nothing_sent one_sent (event ∷ []) one_flushed

flush_batch-fails_example :
    (flush_batch pipeline nothing_sent (event ∷ poison ∷ []) ≡ none)
    ↔ Any (IsPoison pipeline) (event ∷ poison ∷ [])
flush_batch-fails_example = flush_batch-fails pipeline nothing_sent (event ∷ poison ∷ [])

apply_redactors_lem_example :
    ((is_unsafe event ≡ none) × (apply_redactors pipeline event ≡ fails))
    ⊎ (((is_unsafe event ≡ some true) × (apply_redactors pipeline event ≡ passed event))
        ⊎ ((result : Fields) × (is_unsafe event ≡ some false)
            × (redact_in_order pipeline.copy pipeline.redactors event ≡ some result)
            × (apply_redactors pipeline event ≡ passed result)))
apply_redactors_lem_example = apply_redactors_lem pipeline event

abbrev setup : Setup
setup = record { pipeline = pipeline; batch_timeout = 5; advise = λ n. n }

abbrev worker : Loop
worker = record {
  queue = ring (record { capacity = 4; dq = [] });
  batch = event ∷ [];
  next_flush_deadline = some 9;
  current_batch_max = 3;
  flush_event = false;
  flush_done_event = false;
  drained_event = false;
  sent = nothing_sent;
  flushed = [];
}

-- a DualQueue with an event in either part
abbrev busy : Loop
busy = record worker {
  queue = dual (record {
    main = record { capacity = 4; dq = event ∷ [] };
    protected = record { capacity = 2; dq = end ∷ [] };
    protected_levels = [];
    main_drops = 0;
    protected_drops = 0;
    shedding = false;
  });
}

turn-contents_example : Conserved setup busy (turn setup false 6 busy)
turn-contents_example = turn-contents setup false 6 busy

-- a worker that has been started, whose queue is filled and who is asked to flush
abbrev asked : Loop
unfolding start
asked = record (start busy.queue 3) { flush_event = true }

Reachable-Settles_example : Settles setup 6 (turn setup false 6 asked)
unfolding start
Reachable-Settles_example =
    Reachable-Settles setup false 4 6 asked
      (outside busy.queue true false (starts (ring (record { capacity = 4; dq = event ∷ [] })) 3 4))
      (omega arith)

sound_event : IsPoison pipeline event → ⊥
unfolding IsPoison is_unsafe apply_filters filter_in_order apply_enrichers enrich_parallel get
sound_event (kept, e, bad) = none-ne-some false (
    sym ((is_unsafe-none _).1 bad)
    ∙ ap (λ k. is_unsafe (apply_enrichers pipeline k)) (sym (some-injective event kept e)))

sound_end : IsPoison pipeline end → ⊥
unfolding IsPoison is_unsafe apply_filters filter_in_order apply_enrichers enrich_parallel get
sound_end (kept, e, bad) = none-ne-some false (
    sym ((is_unsafe-none _).1 bad)
    ∙ ap (λ k. is_unsafe (apply_enrichers pipeline k)) (sym (some-injective end kept e)))

turn-returns_example :
    (w' : Loop) × (turn setup true 6 busy ≡ returns w')
    × (w'.flushed ≡ [] ++ ((event ∷ []) ++ end ∷ event ∷ []))
    × (w'.batch ≡ [])
    × (waiting w'.queue ≡ [])
    × (w'.drained_event ≡ true)
turn-returns_example = turn-returns setup 6 busy λ any. elim any [
  | inl p ↦ sound_event p
  | inr (inl p) ↦ sound_end p
  | inr (inr (inl p)) ↦ sound_event p
  | inr (inr (inr p)) ↦ absurd p
]
