-- ===== src/Audit/Verify.antt =====
-- fapilog_audit/audit.py: AuditTrail.verify_chain and verify_chain_from_storage. An exception of the
-- file system while reading is left out.
use fapilog.Prelude.{
  ℕ, suc, ◌+◌, Bool, true, false, Option, none, some, List, [], ◌∷◌, ◌++◌, Text, text_eq, ◌==◌,
  if◌then◌else◌, ◌||◌, ◌&&◌, leb,
}
use mathlib.Core.List.{reverse}
use fapilog.Audit.Event.{AuditEvent, model_dump}
use fapilog.Audit.Trail.{Codec, Directory, compute_checksum}

pub data Reason : Type 0 where
  sequence_mismatch previous_hash_mismatch checksum_mismatch invalid_event_payload : Reason

pub record AuditChainVerificationResult : Type 0 where
  pub valid : Bool
  pub events_checked : ℕ
  pub first_invalid_sequence : Option ℕ
  pub error_message : Option Reason

unfoldable pub number_eq : Option ℕ → Option ℕ → Bool
number_eq none none = true
number_eq (some a) (some b) = a == b
number_eq _ _ = false

unfoldable pub hash_eq : Option Text → Option Text → Bool
hash_eq none none = true
hash_eq (some s) (some t) = text_eq s t
hash_eq _ _ = false

unfoldable pub refused : ℕ → ℕ → Reason → AuditChainVerificationResult
refused checked expected reason = record {
  valid = false;
  events_checked = checked;
  first_invalid_sequence = some expected;
  error_message = some reason;
}

-- the loop of `verify_chain` from its three variables
unfoldable pub verify_from :
    Codec → Option Text → ℕ → ℕ → List AuditEvent → AuditChainVerificationResult
unfolding refused number_eq hash_eq
verify_from c last_hash expected_seq checked [] = record {
  valid = true;
  events_checked = checked;
  first_invalid_sequence = none;
  error_message = none;
}
verify_from c last_hash expected_seq checked (e ∷ events) =
    let rest = verify_from c e.checksum (expected_seq + 1) (checked + 1) events in
    if number_eq e.sequence_number (some expected_seq)
    then if hash_eq e.previous_hash last_hash
      then if hash_eq e.checksum (some (compute_checksum c (model_dump e)))
        then rest
        else refused (checked + 1) expected_seq checksum_mismatch
      else refused (checked + 1) expected_seq previous_hash_mismatch
    else refused (checked + 1) expected_seq sequence_mismatch

unfoldable pub verify_chain : Codec → List AuditEvent → AuditChainVerificationResult
unfolding verify_from
verify_chain c events = verify_from c none 1 0 events

abbrev is_space : ℕ → Bool
is_space c = (leb 9 c && leb c 13) || ((leb 28 c && leb c 32) || (c == 133 || c == 160))

abbrev lstrip : Text → Text
lstrip [] = []
lstrip (c ∷ s) = let rest = lstrip s in if is_space c then rest else c ∷ s

unfoldable pub strip : Text → Text
strip s = reverse (lstrip (reverse (lstrip s)))

-- the events of the lines, or the number of those before the first line that is none
pub data Loaded : Type 0 where
  loaded : List AuditEvent → Loaded
  invalid_after : ℕ → Loaded

unfoldable pub then_event : Option AuditEvent → Loaded → Loaded
then_event none rest = invalid_after 0
then_event (some e) (loaded events) = loaded (e ∷ events)
then_event (some e) (invalid_after n) = invalid_after (suc n)

unfoldable pub read_line : Codec → Text → Loaded → Loaded
unfolding then_event
read_line c [] rest = rest
read_line c (x ∷ line) rest = then_event (c.validate (x ∷ line)) rest

unfoldable pub read_lines : Codec → List Text → Loaded
unfolding read_line strip
read_lines c [] = loaded []
read_lines c (line ∷ lines) = read_line c (strip line) (read_lines c lines)

-- the lines of the files, in the order of their names
unfoldable pub all_lines : Directory → List Text
all_lines [] = []
all_lines ((path, lines) ∷ d) = lines ++ all_lines d

-- `e.sequence_number or 0`
abbrev pub sort_key : Option ℕ → ℕ
sort_key none = 0
sort_key (some n) = n

unfoldable pub insert_event : AuditEvent → List AuditEvent → List AuditEvent
insert_event e [] = e ∷ []
insert_event e (f ∷ events) =
    let rest = insert_event e events in
    if leb (sort_key e.sequence_number) (sort_key f.sequence_number)
    then e ∷ f ∷ events
    else f ∷ rest

-- `events.sort(key=...)`, which keeps the order of equal keys
unfoldable pub sort : List AuditEvent → List AuditEvent
unfolding insert_event
sort [] = []
sort (e ∷ events) = insert_event e (sort events)

unfoldable pub verify_loaded : Codec → Loaded → AuditChainVerificationResult
unfolding verify_chain sort refused
verify_loaded c (loaded events) = verify_chain c (sort events)
verify_loaded c (invalid_after n) = refused n (n + 1) invalid_event_payload

unfoldable pub verify_chain_from_storage : Codec → Directory → AuditChainVerificationResult
unfolding verify_loaded read_lines all_lines
verify_chain_from_storage c d = verify_loaded c (read_lines c (all_lines d))
