-- ===== src/Audit/Trail.antt =====
-- fapilog_audit/audit.py: AuditTrail up to the files. The canonical JSON of a payload, SHA-256 in hex,
-- pydantic's reader of a line and the date of a time stamp are parameters. The directory is kept in
-- the order of its file names, in which sorted(glob(..)) lists it. The lock makes numbering and
-- hashing of an event one step.
use fapilog.Prelude.{
  ℕ, ◌+◌, Bool, true, false, ◌&&◌, ◌||◌, Option, none, some, List, [], ◌∷◌, ◌++◌, Text, codes,
  text_eq, ltb, if◌then◌else◌,
}
use fapilog.Prelude.Value.{str, num, Fields, put, delete}
use fapilog.Audit.Event.{
  AuditEvent, AuditEventType, error_occurred, authentication_failed, authorization_failed,
  security_violation, ComplianceLevel, gdpr, hipaa, AuditLogLevel, error, critical, security,
  warning, info, model_dump, text_or_null,
}

pub record Codec : Type 0 where
  pub canonical_json : Fields → Text
  pub sha256 : Text → Text
  pub validate : Text → Option AuditEvent
  pub date : Text → Text

pub record CompliancePolicy : Type 0 where
  pub level : ComplianceLevel
  pub enabled : Bool
  pub real_time_alerts : Bool
  pub alert_on_critical_errors : Bool
  pub alert_on_security_events : Bool

abbrev pub Directory : Type 0
Directory = List (Text × List Text)

pub record AuditTrail : Type 0 where
  pub policy : CompliancePolicy
  pub event_queue : List AuditEvent
  pub event_count : ℕ
  pub error_count : ℕ
  pub security_event_count : ℕ
  pub seq_counter : ℕ
  pub last_hash : Option Text
  pub alerts : List AuditEvent

unfoldable pub init : CompliancePolicy → AuditTrail
init policy = record {
  policy = policy;
  event_queue = [];
  event_count = 0;
  error_count = 0;
  security_event_count = 0;
  seq_counter = 0;
  last_hash = none;
  alerts = [];
}

unfoldable pub is_error : AuditEventType → AuditLogLevel → Bool
is_error error_occurred level = true
is_error _ error = true
is_error _ critical = true
is_error _ _ = false

unfoldable pub is_security : AuditEventType → Bool
is_security authentication_failed = true
is_security authorization_failed = true
is_security security_violation = true
is_security _ = false

-- the queue and the statistics with one event more
unfoldable pub accept : AuditTrail → AuditEvent → AuditTrail
accept t e = record t {
  event_queue = t.event_queue ++ e ∷ [];
  event_count = t.event_count + 1;
  error_count = (if is_error e.event_type e.log_level then t.error_count + 1 else t.error_count);
  security_event_count =
      (if is_security e.event_type then t.security_event_count + 1 else t.security_event_count);
}

-- `log_event` from the event that it has built on
unfoldable pub log_event : AuditTrail → AuditEvent → AuditTrail
log_event t e = if t.policy.enabled then accept t e else t

unfoldable pub compute_checksum : Codec → Fields → Text
compute_checksum c payload = c.sha256 (c.canonical_json (delete (codes "checksum") payload))

-- the event with its number and the hash of the one before
unfoldable pub numbered : AuditTrail → AuditEvent → AuditEvent
numbered t e = record e { sequence_number = some (t.seq_counter + 1); previous_hash = t.last_hash }

unfoldable pub checksum_of : Codec → AuditTrail → AuditEvent → Text
checksum_of c t e = compute_checksum c (model_dump (numbered t e))

-- the fields that are written
unfoldable pub payload : Codec → AuditTrail → AuditEvent → Fields
payload c t e = put (codes "sequence_number") (num (t.seq_counter + 1)) (
    put (codes "previous_hash") (text_or_null t.last_hash)
      (put (codes "checksum") (str (checksum_of c t e)) (model_dump (numbered t e))))

abbrev pub before : Text → Text → Bool
before [] [] = false
before [] (b ∷ t) = true
before (a ∷ s) [] = false
before (a ∷ s) (b ∷ t) =
    let rest = before s t in if ltb a b then true else if ltb b a then false else rest

-- `open(path, "a")` and one line more
unfoldable pub write_to_file : Text → Text → Directory → Directory
write_to_file path line [] = (path, line ∷ []) ∷ []
write_to_file path line ((p, lines) ∷ d) =
    if text_eq p path
    then (p, lines ++ line ∷ []) ∷ d
    else if before path p
    then (path, line ∷ []) ∷ (p, lines) ∷ d
    else (p, lines) ∷ write_to_file path line d

unfoldable pub log_file : Codec → AuditEvent → Text
log_file c e = codes "audit_" ++ c.date e.timestamp ++ codes ".jsonl"

-- What becomes of one event: pydantic cannot dump its metadata, the disk refuses the line, or the
-- line is written. The two failures are swallowed. The code writes the line after it has left the
-- lock; here the numbering and the write are one step.
pub data Outcome : Type 0 where
  unserializable write_failed written : Outcome

unfoldable pub store_event :
    Codec → Outcome → AuditTrail → Directory → AuditEvent → AuditTrail × Directory
store_event c unserializable t d e = (record t { seq_counter = t.seq_counter + 1 }, d)
store_event c write_failed t d e =
    (record t { seq_counter = t.seq_counter + 1; last_hash = some (checksum_of c t e) }, d)
store_event c written t d e = (
  record t { seq_counter = t.seq_counter + 1; last_hash = some (checksum_of c t e) },
  write_to_file (log_file c e) (c.canonical_json (payload c t e)) d,
)

abbrev is_critical : AuditLogLevel → Bool
is_critical critical = true
is_critical _ = false

abbrev is_security_level : AuditLogLevel → Bool
is_security_level security = true
is_security_level _ = false

abbrev leaks : ComplianceLevel → AuditEvent → Bool
leaks gdpr e = e.contains_pii
leaks hipaa e = e.contains_phi
leaks _ e = false

unfoldable pub should_alert : CompliancePolicy → AuditEvent → Bool
should_alert p e =
    p.real_time_alerts
    && ((p.alert_on_critical_errors && is_critical e.log_level)
        || ((p.alert_on_security_events && is_security_level e.log_level) || leaks p.level e))

unfoldable pub check_compliance_alerts : AuditTrail → AuditEvent → AuditTrail
check_compliance_alerts t e =
    if should_alert t.policy e then record t { alerts = t.alerts ++ e ∷ [] } else t

-- the work on one event that has left the queue; `disk` answers by the number of the event
unfoldable pub process :
    Codec → (ℕ → Outcome) → AuditTrail → Directory → AuditEvent → AuditTrail × Directory
unfolding store_event check_compliance_alerts
process c disk t d e =
    let (t', d') = store_event c (disk (t.seq_counter + 1)) t d e in
    (check_compliance_alerts t' e, d')

unfoldable pub drain_events :
    Codec → (ℕ → Outcome) → List AuditEvent → AuditTrail → Directory → AuditTrail × Directory
drain_events c disk [] t d = (record t { event_queue = [] }, d)
drain_events c disk (e ∷ q) t d = let r = process c disk t d e in drain_events c disk q r.0 r.1

unfoldable pub drain : Codec → (ℕ → Outcome) → AuditTrail → Directory → AuditTrail × Directory
unfolding drain_events
drain c disk t d = drain_events c disk t.event_queue t d

unfoldable pub process_first :
    Codec → (ℕ → Outcome) → List AuditEvent → AuditTrail → Directory → AuditTrail × Directory
process_first c disk [] t d = (t, d)
process_first c disk (e ∷ q) t d = process c disk (record t { event_queue = q }) d e

-- one turn of `_process_events`
unfoldable pub process_events :
    Codec → (ℕ → Outcome) → AuditTrail → Directory → AuditTrail × Directory
unfolding process_first
process_events c disk t d = process_first c disk t.event_queue t d

pub data ErrorSeverity : Type 0 where
  critical_error high medium low info_error : ErrorSeverity

unfoldable pub error_severity_to_log_level : ErrorSeverity → AuditLogLevel
error_severity_to_log_level critical_error = critical
error_severity_to_log_level high = error
error_severity_to_log_level medium = warning
error_severity_to_log_level low = info
error_severity_to_log_level info_error = info
