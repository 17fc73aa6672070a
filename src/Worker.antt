-- ===== src/Worker.antt =====
-- core/worker.py, LoggerWorker: what happens to a batch of events between the queue and the sink.
-- A plugin is a function of the event, `none` where it raises. Metrics and diagnostics only observe.
pub mod Flush
pub mod Loop
mod Tests
use fapilog.Prelude.{
  ℕ, ◌+◌, ◌-◌, Bool, true, false, Option, none, some, List, [], ◌∷◌, ◌++◌, length, map, Text, codes,
  if◌then◌else◌,
}
use fapilog.Prelude.Value.{Value, null, bool, num, str, list, dict, Fields, get}
use fapilog.Filters.Chain.{Filter, filter_in_order}
use fapilog.Enrichers.{Enricher, enrich_parallel}
use fapilog.Redactors.{Redactor, redact_in_order}

pub data FailMode : Type 0 where
  open_mode closed_mode warn_mode : FailMode

-- The plugins and settings of a worker. `copy` is the round trip through orjson, `envelope` and
-- `mapping` are the two serializers, `strict_mode` is the provider of the strict flag; the sink
-- answers whether a write succeeds.
pub record Pipeline : Type 0 where
  pub filters : List Filter
  pub enrichers : List Enricher
  pub copy : Fields → Option Fields
  pub redactors : List Redactor
  pub fail_mode : FailMode
  pub processors : List (Text → Option Text)
  pub serialize_in_flush : Bool
  pub envelope : Fields → Option Text
  pub mapping : Fields → Option Text
  pub strict_mode : Option Bool
  pub sink_write : Fields → Bool
  pub sink_write_serialized : Option (Text → Bool)

unfoldable pub apply_filters : Pipeline → Fields → Option Fields
apply_filters p entry = filter_in_order p.filters entry

or_else : Fields → Option Fields → Fields
or_else entry none = entry
or_else entry (some result) = result

-- an exception leaves the entry as it was
unfoldable pub apply_enrichers : Pipeline → Fields → Fields
unfolding or_else
apply_enrichers p entry = or_else entry (enrich_parallel p.enrichers entry)

is_true : Option Value → Bool
is_true (some (bool true)) = true
is_true _ = false

abbrev pub data_key : Text
data_key = codes "data"

abbrev pub unsafe_key : Text
unsafe_key = codes "_fapilog_unsafe"

unsafe_in : Option Value → Option Bool
unfolding is_true
unsafe_in none = some false
unsafe_in (some (dict d)) = some (is_true (get unsafe_key d))
unsafe_in (some _) = none

-- `entry.get("data", {}).get("_fapilog_unsafe") is True`, an AttributeError (`none`) where the
-- data are no dict
unfoldable pub is_unsafe : Fields → Option Bool
unfolding unsafe_in
is_unsafe entry = unsafe_in (get data_key entry)

pub data Redacted : Type 0 where
  passed : Fields → Redacted
  refused fails : Redacted

-- what the three fail modes do, if `redact_in_order` raises
by_mode : FailMode → Fields → Option Fields → Redacted
by_mode mode entry (some result) = passed result
by_mode closed_mode entry none = refused
by_mode open_mode entry none = passed entry
by_mode warn_mode entry none = passed entry

redact_unless : Pipeline → Fields → Option Bool → Redacted
unfolding by_mode
redact_unless p entry none = fails
redact_unless p entry (some true) = passed entry
redact_unless p entry (some false) =
    by_mode p.fail_mode entry (redact_in_order p.copy p.redactors entry)

unfoldable pub apply_redactors : Pipeline → Fields → Redacted
unfolding redact_unless
apply_redactors p entry = redact_unless p entry (is_unsafe entry)

-- A processor that raises puts the view back to the one that serialization gave.
process_all : Text → Text → List (Text → Option Text) → Text
process_all base current [] = current
process_all base current (f ∷ processors) = elim (f current) [
  | none ↦ process_all base base processors
  | some next ↦ process_all base next processors
]

unfoldable pub apply_processors : Pipeline → Text → Text
unfolding process_all
apply_processors p view = process_all view view p.processors

-- (view, drop the entry)
unfoldable pub try_serialize : Pipeline → Fields → Option Text × Bool
try_serialize p entry = elim (p.envelope entry) [
  | some view ↦ (some view, false)
  | none ↦ elim p.strict_mode [ some true ↦ (none, true) | _ ↦ (p.mapping entry, false) ]
]

-- What the first phase makes of an entry: it is filtered out, dropped, an exception that nothing
-- contains, or ready to be written.
pub data Prepared : Type 0 where
  filtered dropped raises : Prepared
  ready : Fields → Option Text → Prepared

view_of : Pipeline → Fields → Option Text × Bool → Prepared
view_of p entry (_, true) = dropped
view_of p entry (none, false) = ready entry none
view_of p entry (some view, false) = ready entry (some (apply_processors p view))

is_some {ℓ} : {A : Type ℓ} → Option A → Bool
is_some none = false
is_some (some _) = true

serialized : Pipeline → Redacted → Prepared
unfolding view_of is_some
serialized p fails = raises
serialized p refused = dropped
serialized p (passed entry) =
    if p.serialize_in_flush
    then (if is_some p.sink_write_serialized
        then view_of p entry (try_serialize p entry)
        else ready entry none)
    else ready entry none

after_filters : Pipeline → Option Fields → Prepared
unfolding serialized
after_filters p none = filtered
after_filters p (some kept) = serialized p (apply_redactors p (apply_enrichers p kept))

unfoldable pub prepare : Pipeline → Fields → Prepared
unfolding after_filters
prepare p entry = after_filters p (apply_filters p entry)
