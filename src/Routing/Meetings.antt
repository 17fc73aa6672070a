-- ===== src/Routing/Meetings.antt =====
-- One sink by itself: what becomes of an event that it is handed, with its breaker.
use fapilog.Prelude.{
  ℕ, zero, suc, ap₂, false, ◌≡◌, refl, ap, Bool, true, Option, none, some, List, [], ◌∷◌, Text,
  text_eq, if◌then◌else◌, Bool-cases, inl, inr,
}
use fapilog.Prelude.Dict.{lookup}
use fapilog.Breaker.{Breaker, should_allow, record_failure, record_success}
use fapilog.Routing.{
  Answer, done, returned_false, raises, raises_attribute_error, SinkEntry, Fate, refused, lost,
  delivered, fell_back, recorded, answer_serialized, Writer, attempt, answer_of, answer_plain,
  Payload, plain, serialized,
}

abbrev pub answers : SinkEntry → Payload → Answer
answers e (plain x) = e.write x
answers e (serialized v) = e.write_serialized v

-- what an answer means for the event, and whether it counts as a success of the sink
abbrev pub verdict : Payload → Answer → Fate × Bool
verdict p done = (delivered, true)
verdict (serialized v) raises_attribute_error = (lost, true)
verdict _ _ = (fell_back, false)

abbrev pub after_verdict : Breaker → ℕ → Bool → Breaker
after_verdict b now success = if success then record_success b else record_failure b now

-- one event at one sink: the sink afterwards and the event's fate
abbrev pub meet_through : SinkEntry → ℕ → Payload → Option Breaker → SinkEntry × Fate
meet_through e now p none = (e, (verdict p (answers e p)).0)
meet_through e now p (some b) =
    let (asked, allowed) = should_allow b now in
    let (fate, success) = verdict p (answers e p) in
    if allowed
    then (record e { breaker = some (after_verdict asked now success) }, fate)
    else (record e { breaker = some asked }, refused)

abbrev pub meet : SinkEntry → ℕ → Payload → SinkEntry × Fate
meet e now p = meet_through e now p e.breaker

-- one sink by itself that is handed the event so many times
abbrev pub meetings : SinkEntry → ℕ → Payload → ℕ → SinkEntry × List Fate
meetings e now p zero = (e, [])
meetings e now p (suc n) =
    let (e', fate) = meet e now p in let (e'', fates) = meetings e' now p n in (e'', fate ∷ fates)

-- how often a name stands in a list, and the fates noted under it
abbrev pub count : Text → List Text → ℕ
count j [] = 0
count j (name ∷ names) = let rest = count j names in if text_eq name j then suc rest else rest

abbrev pub fates_at : Text → List (Text × Fate) → List Fate
fates_at j [] = []
fates_at j ((name, fate) ∷ fates) =
    let rest = fates_at j fates in if text_eq name j then fate ∷ rest else rest

answer_of-verdict :
    (e : SinkEntry) (p : Payload)
    → ((answer_of e p).1 ≡ (verdict p (answers e p)).0)
      × ((b : Breaker) (now : ℕ)
          → recorded b now (answer_of e p).0 ≡ after_verdict b now (verdict p (answers e p)).1)
unfolding answer_of answer_plain answer_serialized recorded
answer_of-verdict e (plain x) = plain_by (e.write x)
  where
    plain_by :
        (a : Answer)
        → ((answer_plain a).1 ≡ (verdict (plain x) a).0)
          × ((b : Breaker) (now : ℕ)
              → recorded b now (answer_plain a).0 ≡ after_verdict b now (verdict (plain x) a).1)
    plain_by done = (refl, λ b now. refl)
    plain_by returned_false = (refl, λ b now. refl)
    plain_by raises = (refl, λ b now. refl)
    plain_by raises_attribute_error = (refl, λ b now. refl)
answer_of-verdict e (serialized v) = serialized_by (e.write_serialized v)
  where
    serialized_by :
        (a : Answer)
        → ((answer_serialized a).1 ≡ (verdict (serialized v) a).0)
          × ((b : Breaker) (now : ℕ)
              → recorded b now (answer_serialized a).0
                ≡ after_verdict b now (verdict (serialized v) a).1)
    serialized_by done = (refl, λ b now. refl)
    serialized_by returned_false = (refl, λ b now. refl)
    serialized_by raises = (refl, λ b now. refl)
    serialized_by raises_attribute_error = (refl, λ b now. refl)

pub attempt-meet :
    (e : SinkEntry) (now : ℕ) (p : Payload) (o : Option Breaker)
    → attempt e now (answer_of e p) o ≡ meet_through e now p o
unfolding attempt
attempt-meet e now p none = ap (λ f. (e, f)) (answer_of-verdict e p).0
attempt-meet e now p (some b) = elim (Bool-cases (should_allow b now).1) [
  | inl a ↦ rw a (
      ap₂ (λ x f. (record e { breaker = some x }, f))
        ((answer_of-verdict e p).1 (should_allow b now).0 now) (answer_of-verdict e p).0)
  | inr a ↦ rw a refl
]

-- each sink of `w` is, after writes that noted `new`, where its own meetings lead
abbrev pub Apart : Writer → ℕ → Payload → List Text → Writer → List (Text × Fate) → Type 0
Apart w now p names w' new =
    (j : Text) (e : SinkEntry)
    → lookup j w.sink_entries ≡ some e
    → (lookup j w'.sink_entries ≡ some (meetings e now p (count j names)).0)
      × (fates_at j new ≡ (meetings e now p (count j names)).1)
