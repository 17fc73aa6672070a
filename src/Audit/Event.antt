-- ===== src/Audit/Event.antt =====
-- fapilog_audit/audit.py: AuditEvent with its enumerations, and its dump to JSON fields. Time stamps
-- are texts in ISO form, the error context is its dumped value, and fields that the class does not
-- declare are none.
use fapilog.Prelude.{ℕ, Bool, Option, none, some, List, [], ◌∷◌, Text, codes}
use fapilog.Prelude.Value.{
  Value, null, bool, num, str, list, dict, Items, nil, cons, Fields, end, field,
}

pub data AuditEventType : Type 0 where
  error_occurred error_recovered error_escalated : AuditEventType
  authentication_failed authorization_failed security_violation : AuditEventType
  system_startup system_shutdown component_failure component_recovery : AuditEventType
  data_access data_modification data_deletion data_export : AuditEventType
  config_changed plugin_loaded plugin_unloaded : AuditEventType
  compliance_check audit_log_access retention_policy_applied : AuditEventType

abbrev type_value : AuditEventType → Text
type_value error_occurred = codes "error_occurred"
type_value error_recovered = codes "error_recovered"
type_value error_escalated = codes "error_escalated"
type_value authentication_failed = codes "authentication_failed"
type_value authorization_failed = codes "authorization_failed"
type_value security_violation = codes "security_violation"
type_value system_startup = codes "system_startup"
type_value system_shutdown = codes "system_shutdown"
type_value component_failure = codes "component_failure"
type_value component_recovery = codes "component_recovery"
type_value data_access = codes "data_access"
type_value data_modification = codes "data_modification"
type_value data_deletion = codes "data_deletion"
type_value data_export = codes "data_export"
type_value config_changed = codes "config_changed"
type_value plugin_loaded = codes "plugin_loaded"
type_value plugin_unloaded = codes "plugin_unloaded"
type_value compliance_check = codes "compliance_check"
type_value audit_log_access = codes "audit_log_access"
type_value retention_policy_applied = codes "retention_policy_applied"

pub data ComplianceLevel : Type 0 where
  no_level basic sox hipaa gdpr pci_dss soc2 iso27001 : ComplianceLevel

abbrev compliance_value : ComplianceLevel → Text
compliance_value no_level = codes "none"
compliance_value basic = codes "basic"
compliance_value sox = codes "sox"
compliance_value hipaa = codes "hipaa"
compliance_value gdpr = codes "gdpr"
compliance_value pci_dss = codes "pci_dss"
compliance_value soc2 = codes "soc2"
compliance_value iso27001 = codes "iso27001"

pub data AuditLogLevel : Type 0 where
  debug info warning error critical security : AuditLogLevel

abbrev level_value : AuditLogLevel → Text
level_value debug = codes "debug"
level_value info = codes "info"
level_value warning = codes "warning"
level_value error = codes "error"
level_value critical = codes "critical"
level_value security = codes "security"

pub record AuditEvent : Type 0 where
  pub event_id : Text
  pub timestamp : Text
  pub event_type : AuditEventType
  pub log_level : AuditLogLevel
  pub sequence_number : Option ℕ
  pub previous_hash : Option Text
  pub message : Text
  pub component : Option Text
  pub operation : Option Text
  pub user_id : Option Text
  pub session_id : Option Text
  pub request_id : Option Text
  pub client_ip : Option Text
  pub user_agent : Option Text
  pub container_id : Option Text
  pub plugin_name : Option Text
  pub hostname : Option Text
  pub process_id : Option ℕ
  pub error_context : Value
  pub error_category : Option Text
  pub error_severity : Option Text
  pub data_classification : Option Text
  pub contains_pii : Bool
  pub contains_phi : Bool
  pub compliance_level : ComplianceLevel
  pub regulatory_tags : List Text
  pub retention_category : Option Text
  pub metadata : Fields
  pub checksum : Option Text
  pub signature : Option Text

abbrev pub text_or_null : Option Text → Value
text_or_null none = null
text_or_null (some t) = str t

abbrev pub number_or_null : Option ℕ → Value
number_or_null none = null
number_or_null (some n) = num n

abbrev texts : List Text → Items
texts [] = nil
texts (t ∷ ts) = cons (str t) (texts ts)

-- a dict of the fields in this order
abbrev fields_of : List (Text × Value) → Fields
fields_of [] = end
fields_of ((k, v) ∷ d) = field k v (fields_of d)

-- `event.model_dump(mode="json", exclude_none=False)`
unfoldable pub model_dump : AuditEvent → Fields
model_dump e = fields_of (
    (codes "event_id", str e.event_id)
    ∷ (codes "timestamp", str e.timestamp)
    ∷ (codes "event_type", str (type_value e.event_type))
    ∷ (codes "log_level", str (level_value e.log_level))
    ∷ (codes "sequence_number", number_or_null e.sequence_number)
    ∷ (codes "previous_hash", text_or_null e.previous_hash)
    ∷ (codes "message", str e.message)
    ∷ (codes "component", text_or_null e.component)
    ∷ (codes "operation", text_or_null e.operation)
    ∷ (codes "user_id", text_or_null e.user_id)
    ∷ (codes "session_id", text_or_null e.session_id)
    ∷ (codes "request_id", text_or_null e.request_id)
    ∷ (codes "client_ip", text_or_null e.client_ip)
    ∷ (codes "user_agent", text_or_null e.user_agent)
    ∷ (codes "container_id", text_or_null e.container_id)
    ∷ (codes "plugin_name", text_or_null e.plugin_name)
    ∷ (codes "hostname", text_or_null e.hostname)
    ∷ (codes "process_id", number_or_null e.process_id)
    ∷ (codes "error_context", e.error_context)
    ∷ (codes "error_category", text_or_null e.error_category)
    ∷ (codes "error_severity", text_or_null e.error_severity)
    ∷ (codes "data_classification", text_or_null e.data_classification)
    ∷ (codes "contains_pii", bool e.contains_pii)
    ∷ (codes "contains_phi", bool e.contains_phi)
    ∷ (codes "compliance_level", str (compliance_value e.compliance_level))
    ∷ (codes "regulatory_tags", list (texts e.regulatory_tags))
    ∷ (codes "retention_category", text_or_null e.retention_category)
    ∷ (codes "metadata", dict e.metadata)
    ∷ (codes "checksum", text_or_null e.checksum)
    ∷ (codes "signature", text_or_null e.signature)
    ∷ [])
