-- ===== src/Worker/Flush/Delivered.antt =====
-- Where the deliveries of `_flush_batch` come from.
use fapilog.Prelude.{
  ◌≡◌, refl, ◌⊎◌, inl, inr, ap, ◌∙◌, sym, ℕ, Bool, true, false, Option, none, some, List, [], ◌∷◌,
  ◌++◌, append-nil, map, Text, All, Any, Bool-cases, if◌then◌else◌,
}
use mathlib.Core.Option.{some-injective, none-ne-some}
use fapilog.Prelude.Value.{Fields}
use fapilog.Worker.{
  Pipeline, Prepared, filtered, dropped, raises, ready, prepare, after_filters, serialized, view_of,
  Redacted, passed, refused, fails, apply_filters, apply_enrichers, apply_redactors, try_serialize,
  apply_processors,
}
use fapilog.Worker.Flush.{
  Sent, Delivery, as_view, as_entry, flush_batch, prepare_all, then_rest, write_concurrent,
  write_one_event, write_entry, written_view, write_view, successes, counted, after_prepared,
}

-- `r` is what the stages up to redaction make of the entry
pub IsRedacted : Pipeline → Fields → Fields → Type 0
IsRedacted p r entry =
    (kept : Fields) × (apply_filters p entry ≡ some kept)
    × (apply_redactors p (apply_enrichers p kept) ≡ passed r)

-- the processed view of a serialization of `r`
pub IsViewOf : Pipeline → Fields → Text → Type 0
IsViewOf p r view =
    (raw : Text) × ((try_serialize p r).0 ≡ some raw) × (view ≡ apply_processors p raw)

-- the delivery is a redacted entry of the batch, or its processed view
pub IsSound : Pipeline → List Fields → Delivery → Type 0
IsSound p batch d =
    (r : Fields) × Any (IsRedacted p r) batch
    × ((d ≡ as_entry r) ⊎ ((view : Text) × IsViewOf p r view × (d ≡ as_view view)))

-- a task is a redacted entry of the batch, with its processed view if it has one
abbrev IsTask : Pipeline → List Fields → Fields × Option Text → Type 0
IsTask p batch (r, none) = Any (IsRedacted p r) batch
IsTask p batch (r, some view) = Any (IsRedacted p r) batch × IsViewOf p r view

abbrev AreTasks : Pipeline → List Fields → Option (List (Fields × Option Text) × ℕ) → Type 0
AreTasks p batch none = Unit
AreTasks p batch (some (tasks, n)) = All (IsTask p batch) tasks

abbrev FromEntry : Pipeline → Fields → Prepared → Type 0
FromEntry p entry (ready r none) = IsRedacted p r entry
FromEntry p entry (ready r (some view)) = IsRedacted p r entry × IsViewOf p r view
FromEntry p entry _ = Unit

view_of-FromEntry :
    (p : Pipeline) (entry r : Fields) (view : Option Text × Bool)
    → IsRedacted p r entry
    → try_serialize p r ≡ view
    → FromEntry p entry (view_of p r view)
unfolding view_of IsViewOf
view_of-FromEntry p entry r (none, true) red e = tt
view_of-FromEntry p entry r (some v, true) red e = tt
view_of-FromEntry p entry r (none, false) red e = red
view_of-FromEntry p entry r (some v, false) red e = (red, (v, ap (λ x. x.0) e, refl))

pick-FromEntry :
    (p : Pipeline) (entry r : Fields) (a b : Bool)
    → IsRedacted p r entry
    → FromEntry p entry
        (if a then (if b then view_of p r (try_serialize p r) else ready r none) else ready r none)
pick-FromEntry p entry r false b red = red
pick-FromEntry p entry r true false red = red
pick-FromEntry p entry r true true red = view_of-FromEntry p entry r _ red refl

serialized-FromEntry :
    (p : Pipeline) (entry kept : Fields) (redacted : Redacted)
    → apply_filters p entry ≡ some kept
    → apply_redactors p (apply_enrichers p kept) ≡ redacted
    → FromEntry p entry (serialized p redacted)
unfolding serialized IsRedacted
serialized-FromEntry p entry kept fails e f = tt
serialized-FromEntry p entry kept refused e f = tt
serialized-FromEntry p entry kept (passed r) e f = pick-FromEntry p entry r _ _ (kept, e, f)

after_filters-FromEntry :
    (p : Pipeline) (entry : Fields) (o : Option Fields)
    → apply_filters p entry ≡ o
    → FromEntry p entry (after_filters p o)
unfolding after_filters
after_filters-FromEntry p entry none e = tt
after_filters-FromEntry p entry (some kept) e = serialized-FromEntry p entry kept _ e refl

weaken-IsTask :
    (p : Pipeline) (entry : Fields) (batch : List Fields) (task : Fields × Option Text)
    → IsTask p batch task
    → IsTask p (entry ∷ batch) task
weaken-IsTask p entry batch (r, none) t = inr t
weaken-IsTask p entry batch (r, some view) (t, v) = (inr t, v)

weaken :
    (p : Pipeline) (entry : Fields) (batch : List Fields) (tasks : List (Fields × Option Text))
    → All (IsTask p batch) tasks
    → All (IsTask p (entry ∷ batch)) tasks
weaken p entry batch [] a = tt
weaken p entry batch (task ∷ tasks) (t, a) =
    (weaken-IsTask p entry batch task t, weaken p entry batch tasks a)

then_rest-AreTasks :
    (p : Pipeline) (entry : Fields) (batch : List Fields) (first : Prepared)
    → FromEntry p entry first
    → (rest : Option (List (Fields × Option Text) × ℕ)) → AreTasks p batch rest
    → AreTasks p (entry ∷ batch) (then_rest first rest)
unfolding then_rest
then_rest-AreTasks p entry batch first f none a = tt
then_rest-AreTasks p entry batch filtered f (some (tasks, n)) a = weaken p entry batch tasks a
then_rest-AreTasks p entry batch dropped f (some (tasks, n)) a = weaken p entry batch tasks a
then_rest-AreTasks p entry batch raises f (some (tasks, n)) a = tt
then_rest-AreTasks p entry batch (ready r none) f (some (tasks, n)) a =
    (inl f, weaken p entry batch tasks a)
then_rest-AreTasks p entry batch (ready r (some view)) f (some (tasks, n)) a =
    ((inl f.0, f.1), weaken p entry batch tasks a)

prepare_all-AreTasks : (p : Pipeline) (batch : List Fields) → AreTasks p batch (prepare_all p batch)
unfolding prepare_all prepare
prepare_all-AreTasks p [] = tt
prepare_all-AreTasks p (entry ∷ batch) =
    then_rest-AreTasks p entry batch (prepare p entry) (after_filters-FromEntry p entry _ refl)
      (prepare_all p batch) (prepare_all-AreTasks p batch)

IsWritten : Pipeline → List Fields → Option Delivery → Type 0
unfolding IsSound
IsWritten p batch none = Unit
IsWritten p batch (some d) = IsSound p batch d

write_entry-IsWritten :
    (p : Pipeline) (batch : List Fields) (r : Fields)
    → Any (IsRedacted p r) batch
    → IsWritten p batch (write_entry p r)
unfolding write_entry IsWritten
write_entry-IsWritten p batch r a = elim (Bool-cases (p.sink_write r)) [
  | inl e ↦ rw e (r, a, inl refl)
  | inr e ↦ rw e tt
]

written_view-IsWritten :
    (p : Pipeline) (batch : List Fields) (r : Fields) (view : Text) (success : Bool)
    → Any (IsRedacted p r) batch
    → IsViewOf p r view
    → IsWritten p batch (written_view view (write_entry p r) success)
unfolding written_view IsWritten
written_view-IsWritten p batch r view true a v = (r, a, inr (view, v, refl))
written_view-IsWritten p batch r view false a v = write_entry-IsWritten p batch r a

write_view-IsWritten :
    (p : Pipeline) (batch : List Fields) (r : Fields) (view : Text) (write : Option (Text → Bool))
    → Any (IsRedacted p r) batch
    → IsViewOf p r view
    → IsWritten p batch (write_view p r view write)
unfolding write_view
write_view-IsWritten p batch r view none a v = write_entry-IsWritten p batch r a
write_view-IsWritten p batch r view (some write) a v =
    written_view-IsWritten p batch r view (write view) a v

write_one_event-IsWritten :
    (p : Pipeline) (batch : List Fields) (task : Fields × Option Text)
    → IsTask p batch task
    → IsWritten p batch (write_one_event p task)
unfolding write_one_event
write_one_event-IsWritten p batch (r, none) a = write_entry-IsWritten p batch r a
write_one_event-IsWritten p batch (r, some view) (a, v) =
    write_view-IsWritten p batch r view p.sink_write_serialized a v

successes-All :
    (p : Pipeline) (batch : List Fields) (tasks : List (Fields × Option Text))
    → All (IsTask p batch) tasks
    → All (IsSound p batch) (successes (map (write_one_event p) tasks))
unfolding IsWritten
successes-All p batch [] a = tt
successes-All p batch (task ∷ tasks) (t, a) =
    add_success (write_one_event p task) (write_one_event-IsWritten p batch task t)
      (successes-All p batch tasks a)
  where
    add_success :
        (result : Option Delivery)
        → IsWritten p batch result
        → All (IsSound p batch) (successes (map (write_one_event p) tasks))
        → All (IsSound p batch) (successes (result ∷ map (write_one_event p) tasks))
    add_success none w rest = rest
    add_success (some d) w rest = (w, rest)

-- What a flush adds to the deliveries is sound, each of them: it is an event of the batch that the
-- filters kept, as the enrichers and the redaction stage pass it on (which passes an event with the
-- unsafe mark, or one whose redactors raise, without masking it), or the processed view of such an
-- event.
pub flush_batch-IsSound :
    (p : Pipeline) (s s' : Sent) (batch : List Fields)
    → flush_batch p s batch ≡ some s'
    → (new : List Delivery) × (s'.delivered ≡ s.delivered ++ new) × All (IsSound p batch) new
unfolding flush_batch after_prepared counted write_concurrent
flush_batch-IsSound p s s' [] e =
    ([], ap (λ x. x.delivered) (sym (some-injective _ _ e)) ∙ sym (append-nil s.delivered), tt)
flush_batch-IsSound p s s' (entry ∷ batch) e =
    prepared_sound (prepare_all p (entry ∷ batch)) (prepare_all-AreTasks p (entry ∷ batch)) e
  where
    prepared_sound :
        (prepared : Option (List (Fields × Option Text) × ℕ))
        → AreTasks p (entry ∷ batch) prepared
        → after_prepared p s prepared ≡ some s'
        → (new : List Delivery) × (s'.delivered ≡ s.delivered ++ new)
          × All (IsSound p (entry ∷ batch)) new
    prepared_sound none a e = absurd (none-ne-some s' e)
    prepared_sound (some (tasks, n)) a e = (
      successes (map (write_one_event p) tasks),
      ap (λ x. x.delivered) (sym (some-injective _ _ e)),
      successes-All p (entry ∷ batch) tasks a,
    )
