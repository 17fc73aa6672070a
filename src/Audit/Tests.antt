-- ===== src/Audit/Tests.antt =====
-- The audit trail at concrete events.
use fapilog.Prelude.{
  ℕ, ◌≡◌, refl, ◌↔◌, true, false, Option, none, some, List, [], ◌∷◌, ◌++◌, Text, codes, text_eq,
  ◌==◌, if◌then◌else◌,
}
use fapilog.Prelude.Value.{Value, null, str, Fields, end, get}
use fapilog.Audit.Event.{
  AuditEvent, model_dump, data_access, security_violation, info, critical, basic, gdpr,
}
use fapilog.Audit.Trail.{
  Codec, CompliancePolicy, Outcome, unserializable, written, init, compute_checksum, write_to_file,
  should_alert, log_event, is_error, is_security, AuditTrail,
}
use fapilog.Audit.Verify.{strip, verify_chain, verify_chain_from_storage}
use fapilog.Audit.Chain.{IsChain, verify_chain_iff}
use fapilog.Audit.Reading.{IsReadable}
use fapilog.Audit.Stored.{seal, hash_of}
use fapilog.Audit.Runs.{Action, log, turn, run_and_stop, logged, run_and_stop_counts}
use fapilog.Audit.Gaps.{lost_events_show, run_verifies, HasNoGap}
use fapilog.Audit.Restart.{restart_breaks}

abbrev event : Text → AuditEvent
event message = record {
  event_id = [];
  timestamp = codes "2025-01-01T00:00:00Z";
  event_type = data_access;
  log_level = info;
  sequence_number = none;
  previous_hash = none;
  message = message;
  component = none;
  operation = none;
  user_id = none;
  session_id = none;
  request_id = none;
  client_ip = none;
  user_agent = none;
  container_id = none;
  plugin_name = none;
  hostname = none;
  process_id = none;
  error_context = null;
  error_category = none;
  error_severity = none;
  data_classification = none;
  contains_pii = false;
  contains_phi = false;
  compliance_level = basic;
  regulatory_tags = [];
  retention_category = none;
  metadata = end;
  checksum = none;
  signature = none;
}

abbrev policy : CompliancePolicy
policy = record {
  level = gdpr;
  enabled = true;
  real_time_alerts = true;
  alert_on_critical_errors = true;
  alert_on_security_events = true;
}

abbrev text_of : Option Value → Text
text_of (some (str t)) = t
text_of _ = []

-- a JSON of the message alone
abbrev brief : Fields → Text
unfolding get
brief d = codes "{" ++ text_of (get (codes "message") d) ++ codes "}"

abbrev blind : Codec
blind = record { canonical_json = brief; sha256 = λ t. t; validate = λ line. none; date = λ t. t }

abbrev one : AuditEvent
one = event (codes "one")

abbrev two : AuditEvent
two = event (codes "two")

abbrev three : AuditEvent
three = event (codes "three")

abbrev sealed_one : AuditEvent
sealed_one = seal blind 0 none one

abbrev sealed_two : AuditEvent
sealed_two = seal blind 1 (some (hash_of blind 0 none one)) two

abbrev sealed_three : AuditEvent
sealed_three = seal blind 1 none three

abbrev sealed_again : AuditEvent
sealed_again = seal blind 0 none (event (codes "again"))

abbrev known : Text → List AuditEvent → Option AuditEvent
known line [] = none
known line (w ∷ ws) =
    let rest = known line ws in if text_eq (brief (model_dump w)) line then some w else rest

abbrev codec : Codec
codec = record blind {
  validate = λ line. known line (sealed_one ∷ sealed_two ∷ sealed_three ∷ sealed_again ∷ []);
}

abbrev acts : List Action
acts = log one ∷ turn ∷ log two ∷ []

abbrev acts_lost : List Action
acts_lost = log one ∷ turn ∷ log three ∷ []

abbrev acts_again : List Action
acts_again = log (event (codes "again")) ∷ []

IsReadable-sealed_one : IsReadable codec sealed_one
unfolding strip model_dump brief
IsReadable-sealed_one = (refl, λ h. cc, refl)

IsReadable-sealed_two : IsReadable codec sealed_two
unfolding strip model_dump brief
IsReadable-sealed_two = (refl, λ h. cc, refl)

IsReadable-sealed_three : IsReadable codec sealed_three
unfolding strip model_dump brief
IsReadable-sealed_three = (refl, λ h. cc, refl)

IsReadable-sealed_again : IsReadable codec sealed_again
unfolding strip model_dump brief
IsReadable-sealed_again = (refl, λ h. cc, refl)

abbrev always : ℕ → Outcome
always n = written

abbrev not_first : ℕ → Outcome
not_first n = if n == 1 then unserializable else written

run_verifies_example :
    verify_chain_from_storage codec (run_and_stop codec always acts (init policy, [])).1 ≡ record {
      valid = true;
      events_checked = 2;
      first_invalid_sequence = none;
      error_message = none;
    }
unfolding compute_checksum
run_verifies_example =
    run_verifies codec policy always acts refl (refl, (refl, tt))
      (IsReadable-sealed_one, (IsReadable-sealed_two, tt))

run_and_stop_counts_example :
    let s = (run_and_stop codec not_first acts (init policy, [])).0 in
    (s.event_queue ≡ []) × (s.event_count ≡ 2) × (s.seq_counter ≡ 2)
run_and_stop_counts_example = run_and_stop_counts codec not_first acts policy [] refl

lost_events_show_example :
    ((verify_chain_from_storage codec
        (run_and_stop codec not_first acts_lost (init policy, [])).1).valid
      ≡ true)
    ↔ HasNoGap not_first 0 (logged acts_lost)
unfolding compute_checksum
lost_events_show_example =
    lost_events_show codec policy not_first acts_lost refl (IsReadable-sealed_three, tt)

restart_breaks_example :
    let d = (run_and_stop codec always acts (init policy, [])).1 in
    (verify_chain_from_storage codec
      (run_and_stop codec always acts_again (init policy, d)).1).valid
    ≡ false
unfolding compute_checksum
restart_breaks_example =
    restart_breaks codec policy policy always always acts acts_again refl refl (λ h. cc) (λ h. cc)
      refl refl (IsReadable-sealed_one, (IsReadable-sealed_two, tt)) (IsReadable-sealed_again, tt)

verify_chain_iff_example :
    ((verify_chain codec (sealed_one ∷ sealed_two ∷ [])).valid ≡ true)
    ↔ IsChain codec none 1 (sealed_one ∷ sealed_two ∷ [])
verify_chain_iff_example = verify_chain_iff codec (sealed_one ∷ sealed_two ∷ [])

-- an event with personal data alerts under GDPR
alerts : should_alert policy (record one { contains_pii = true }) ≡ true
unfolding should_alert
alerts = refl

counts :
    log_event (init policy) (record one { event_type = security_violation; log_level = critical })
    ≡ record (init policy) {
      event_queue = record one { event_type = security_violation; log_level = critical } ∷ [];
      event_count = 1;
      error_count = 1;
      security_event_count = 1;
    }
unfolding log_event init is_error is_security fapilog.Audit.Trail.accept
counts = refl
