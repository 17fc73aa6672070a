-- ===== src/Routing/Lost.antt =====
-- Serialized views for a sink whose `write_serialized` raises AttributeError.
use fapilog.Prelude.{
  ℕ, ◌≡◌, refl, sym, ap, ◌∙◌, true, some, List, [], ◌∷◌, ◌++◌, map, Text, text_eq_refl,
  if◌then◌else◌, append_assoc, append-nil, subst,
}
use fapilog.Prelude.Dict.{lookup, lookup-insert}
use fapilog.Breaker.{
  Breaker, CircuitState, closed, should_allow, allow_in, record_success, recovered,
}
use fapilog.Routing.{
  raises_attribute_error, done, SinkEntry, Fate, lost, Writer, attempt, recorded, noted, answer_of,
  answer_serialized, serialized, write_one, one_noted, Answer,
}

-- the views with the times of their writes
abbrev pub write_views : Writer → Text → List (ℕ × Text) → Writer
write_views w name [] = w
write_views w name ((now, v) ∷ views) = write_views (write_one w now name (serialized v)) name views

-- a sink without serialized writes behind a closed breaker that has reported `emitted`
abbrev pub IsMute : Writer → Text → List CircuitState → Type 0
IsMute w name emitted =
    (e : SinkEntry) × (b : Breaker) × (lookup name w.sink_entries ≡ some e)
    × (e.breaker ≡ some b)
    × (b.state ≡ closed)
    × (b.emitted ≡ emitted)
    × ((v : Text) → e.write_serialized v ≡ raises_attribute_error)

allow_in-closed : (b : Breaker) (now : ℕ) → b.state ≡ closed → should_allow b now ≡ (b, true)
unfolding should_allow allow_in
allow_in-closed b now h = ap (allow_in b now) h

success-closed :
    (b : Breaker) → b.state ≡ closed → record_success b ≡ record b { failure_count = 0 }
unfolding record_success recovered
success-closed b h = ap (λ s. record (recovered b s) { failure_count = 0 }) h

attempt_mute :
    (e : SinkEntry) (b : Breaker) (now : ℕ) (v : Text) (answer : Answer × Fate)
    → b.state ≡ closed
    → answer ≡ (done, lost)
    → attempt e now answer (some b)
      ≡ (record e { breaker = some (record b { failure_count = 0 }) }, lost)
unfolding attempt recorded
attempt_mute e b now v answer h k = rw (allow_in-closed b now h, k, success-closed b h) refl

write_one-IsMute :
    (w : Writer) (name : Text) (emitted : List CircuitState) (now : ℕ) (v : Text)
    → IsMute w name emitted
    → let w' = write_one w now name (serialized v) in
      IsMute w' name emitted × (w'.fates ≡ w.fates ++ (name, lost) ∷ [])
unfolding write_one one_noted noted answer_of answer_serialized
write_one-IsMute w name emitted now v (e, b, l, k, h, m, f) =
    let b' = record b { failure_count = 0 } in
    let e' = record e { breaker = some b' } in
    let step : write_one w now name (serialized v) ≡ noted w name (e', lost) =
      ap (one_noted w now name (serialized v)) l
      ∙ ap (noted w name) (
          ap (attempt e now (answer_of e (serialized v))) k
          ∙ attempt_mute e b now v (answer_of e (serialized v)) h (ap answer_serialized (f v))) in
    subst (λ w'. IsMute w' name emitted × (w'.fates ≡ w.fates ++ (name, lost) ∷ [])) (sym step)
      (
        (
          e',
          b',
          lookup-insert name name e' w.sink_entries
              ∙ ap (λ x. if x then some e' else lookup name w.sink_entries) (text_eq_refl name),
          refl,
          h,
          m,
          f,
        ),
        refl,
      )

-- Every serialized view written to a sink whose write_serialized raises AttributeError, behind a
-- closed breaker, is lost, and the breaker stays closed and reports nothing, however many there are.
pub write_views-lost :
    (w : Writer) (name : Text) (emitted : List CircuitState) (views : List (ℕ × Text))
    → IsMute w name emitted
    → let w' = write_views w name views in
      IsMute w' name emitted × (w'.fates ≡ w.fates ++ map (λ v. (name, lost)) views)
write_views-lost w name emitted [] h = (h, sym (append-nil w.fates))
write_views-lost w name emitted ((now, v) ∷ views) h =
    let w' = write_one w now name (serialized v) in
    let (i, a) = write_one-IsMute w name emitted now v h in
    let (j, b) = write_views-lost w' name emitted views i in
    (
      j,
      b
          ∙ (ap (λ l. l ++ map (λ v. (name, lost)) views) a
              ∙ append_assoc w.fates ((name, lost) ∷ []) (map (λ v. (name, lost)) views)),
    )
