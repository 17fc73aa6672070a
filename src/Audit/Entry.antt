-- ===== src/Audit/Entry.antt =====
-- fapilog_audit/audit.py: the event that `log_event` builds from its arguments, and the calls that
-- end in it. Time, identifier, host name and process are arguments; an error is its dumped context
-- with the category, the severity, its message and the identifiers of its context.
use fapilog.Prelude.{
  ℕ, Bool, false, Option, none, some, List, [], ◌++◌, Text, codes, lower, text_eq, if◌then◌else◌,
}
use fapilog.Prelude.Value.{Value, null, str, Fields, end, field}
use fapilog.Audit.Event.{
  AuditEvent, AuditEventType, AuditLogLevel, error_occurred, data_access, data_modification,
  data_deletion, data_export, info, security, text_or_null,
}
use fapilog.Audit.Trail.{
  AuditTrail, log_event, ErrorSeverity, critical_error, high, medium, low, info_error,
  error_severity_to_log_level,
}

pub record ErrorInfo : Type 0 where
  pub message : Text
  pub context : Value
  pub category : Text
  pub severity : ErrorSeverity
  pub user_id : Option Text
  pub session_id : Option Text
  pub request_id : Option Text

-- the arguments of `log_event`
pub record Call : Type 0 where
  pub event_type : AuditEventType
  pub message : Text
  pub log_level : AuditLogLevel
  pub component : Option Text
  pub operation : Option Text
  pub error : Option ErrorInfo
  pub user_id : Option Text
  pub session_id : Option Text
  pub request_id : Option Text
  pub contains_pii : Bool
  pub contains_phi : Bool
  pub data_classification : Option Text
  pub regulatory_tags : List Text
  pub metadata : Fields

-- the arguments that a call leaves out
unfoldable pub plain_call : AuditEventType → Text → Call
plain_call event_type message = record {
  event_type = event_type;
  message = message;
  log_level = info;
  component = none;
  operation = none;
  error = none;
  user_id = none;
  session_id = none;
  request_id = none;
  contains_pii = false;
  contains_phi = false;
  data_classification = none;
  regulatory_tags = [];
  metadata = end;
}

-- what the event takes from outside; `host` is none where looking it up raises
pub record Surroundings : Type 0 where
  pub event_id : Text
  pub now : Text
  pub host : Option (Text × ℕ)

abbrev severity_value : ErrorSeverity → Text
severity_value critical_error = codes "critical"
severity_value high = codes "high"
severity_value medium = codes "medium"
severity_value low = codes "low"
severity_value info_error = codes "info"

unfoldable pub with_error : Option ErrorInfo → AuditEvent → AuditEvent
with_error none e = e
with_error (some x) e = record e {
  error_context = x.context;
  error_category = some x.category;
  error_severity = some (severity_value x.severity);
}

unfoldable pub with_host : Option (Text × ℕ) → AuditEvent → AuditEvent
with_host none e = e
with_host (some (name, pid)) e = record e { hostname = some name; process_id = some pid }

unfoldable pub build_event : AuditTrail → Surroundings → Call → AuditEvent
unfolding with_error with_host
build_event t s c = with_host s.host (
    with_error c.error (record {
      event_id = s.event_id;
      timestamp = s.now;
      event_type = c.event_type;
      log_level = c.log_level;
      sequence_number = none;
      previous_hash = none;
      message = c.message;
      component = c.component;
      operation = c.operation;
      user_id = c.user_id;
      session_id = c.session_id;
      request_id = c.request_id;
      client_ip = none;
      user_agent = none;
      container_id = none;
      plugin_name = none;
      hostname = none;
      process_id = none;
      error_context = null;
      error_category = none;
      error_severity = none;
      data_classification = c.data_classification;
      contains_pii = c.contains_pii;
      contains_phi = c.contains_phi;
      compliance_level = t.policy.level;
      regulatory_tags = c.regulatory_tags;
      retention_category = none;
      metadata = c.metadata;
      checksum = none;
      signature = none;
    }))

-- the whole of `log_event`, with the identifier that it returns
unfoldable pub log_call : AuditTrail → Surroundings → Call → AuditTrail × Text
unfolding build_event log_event
log_call t s c = (log_event t (build_event t s c), if t.policy.enabled then s.event_id else [])

unfoldable pub log_error :
    AuditTrail → Surroundings → ErrorInfo → Option Text → Option Text → Fields → AuditTrail × Text
unfolding log_call plain_call error_severity_to_log_level
log_error t s x operation component metadata =
    log_call t s (record (plain_call error_occurred (codes "Error occurred: " ++ x.message)) {
      log_level = error_severity_to_log_level x.severity;
      operation = operation;
      component = component;
      error = some x;
      user_id = x.user_id;
      session_id = x.session_id;
      request_id = x.request_id;
      metadata = metadata;
    })

-- `log_event` has no parameters for the address and the agent, so both land in the metadata
unfoldable pub security_call :
    AuditEventType → Text → Option Text → Option Text → Option Text → Fields → Call
unfolding plain_call
security_call event_type message user_id client_ip user_agent metadata =
    record (plain_call event_type message) {
      log_level = security;
      user_id = user_id;
      metadata =
          field (codes "client_ip") (text_or_null client_ip)
            (field (codes "user_agent") (text_or_null user_agent) metadata);
    }

unfoldable pub log_security_event :
    AuditTrail
    → Surroundings
    → AuditEventType
    → Text
    → Option Text
    → Option Text
    → Option Text
    → Fields
    → AuditTrail × Text
unfolding log_call security_call
log_security_event t s event_type message user_id client_ip user_agent metadata =
    log_call t s (security_call event_type message user_id client_ip user_agent metadata)

unfoldable pub access_type : Text → AuditEventType
access_type operation =
    let o = lower operation in
    if text_eq o (codes "read")
    then data_access
    else if text_eq o (codes "write")
    then data_modification
    else if text_eq o (codes "update")
    then data_modification
    else if text_eq o (codes "delete")
    then data_deletion
    else if text_eq o (codes "export")
    then data_export
    else data_access

unfoldable pub log_data_access :
    AuditTrail
    → Surroundings
    → Text
    → Text
    → Option Text
    → Option Text
    → Bool
    → Bool
    → Fields
    → AuditTrail × Text
unfolding log_call plain_call access_type
log_data_access t s resource operation user_id classification pii phi metadata =
    log_call t s
      (record (plain_call (access_type operation)
        (codes "Data " ++ operation ++ codes " on resource: " ++ resource)) {
          user_id = user_id;
          operation = some operation;
          data_classification = classification;
          contains_pii = pii;
          contains_phi = phi;
          metadata = field (codes "resource") (str resource) metadata;
        })
