-- ===== src/Filters/FirstOccurrence/Tests.antt =====
-- Runs of FirstOccurrenceFilter.
use fapilog.Prelude.{ℕ, ◌≡◌, true, false, not, ◌||◌, [], ◌∷◌, codes, leb, if◌then◌else◌, arith}
use fapilog.Prelude.Value.{end}
use fapilog.Filters.Chain.{keep, drop}
use fapilog.Filters.FirstOccurrence.{FirstOccurrence, start, filter_key}
use fapilog.Filters.FirstOccurrence.Window.{seen_within}
use fapilog.Filters.FirstOccurrence.History.{Occurrence, first_occurrences, run, run-answer}

abbrev seen_once : FirstOccurrence
seen_once = record {
  key_fields = codes "message" ∷ [];
  window = 10;
  max_keys = 2;
  subsequent_rate = 0;
  seen = (codes "up", 5) ∷ [];
}

abbrev at : ℕ → Occurrence
at now = record { key = codes "up"; event = end; now = now; sampled = true }

run-answer_example :
    (filter_key (run (start seen_once) (at 3 ∷ at 12 ∷ at 14 ∷ [])) (codes "up") end 22 true).1 ≡ (
      if not (seen_within 10 22 (codes "up") (first_occurrences 10 [] (at 3 ∷ at 12 ∷ at 14 ∷ [])))
        || (if leb 0 0 then false else true)
      then keep end
      else drop)
unfolding seen_within
run-answer_example =
    run-answer seen_once (at 3 ∷ at 12 ∷ at 14 ∷ []) (at 22)
      (omega arith, (omega arith, (omega arith, omega arith))) (omega arith)
