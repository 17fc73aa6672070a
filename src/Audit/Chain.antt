-- ===== src/Audit/Chain.antt =====
-- What `verify_chain` accepts.
use fapilog.Prelude.{
  ℕ, ◌+◌, ◌≡◌, refl, ap, ◌↔◌, true, Option, none, some, List, [], ◌∷◌, length, Text, text_eq_iff,
  arith,
}
use fapilog.Audit.Event.{AuditEvent, model_dump}
use fapilog.Audit.Trail.{Codec, compute_checksum}
use fapilog.Audit.Verify.{verify_chain, verify_from, number_eq, hash_eq, refused}

-- numbers from `n` on, each event with the checksum of the one before and its own right
abbrev pub IsChain : Codec → Option Text → ℕ → List AuditEvent → Type 0
IsChain c last n [] = Unit
IsChain c last n (e ∷ events) =
    (e.sequence_number ≡ some n)
    × (e.previous_hash ≡ last)
    × (e.checksum ≡ some (compute_checksum c (model_dump e)))
    × IsChain c e.checksum (n + 1) events

number_eq_iff : (a b : Option ℕ) → (number_eq a b ≡ true) ↔ (a ≡ b)
unfolding number_eq
number_eq_iff none none = (λ h. refl, λ h. refl)
number_eq_iff none (some b) = (λ h. cc, λ h. cc)
number_eq_iff (some a) none = (λ h. cc, λ h. cc)
number_eq_iff (some a) (some b) = ground arith

hash_eq_iff : (a b : Option Text) → (hash_eq a b ≡ true) ↔ (a ≡ b)
unfolding hash_eq
hash_eq_iff none none = (λ h. refl, λ h. refl)
hash_eq_iff none (some b) = (λ h. cc, λ h. cc)
hash_eq_iff (some a) none = (λ h. cc, λ h. cc)
hash_eq_iff (some a) (some b) = ground (arith, text_eq_iff a b)

pub verify_from_sound :
    (c : Codec) (last : Option Text) (n checked : ℕ) (events : List AuditEvent)
    → (verify_from c last n checked events).valid ≡ true
    → IsChain c last n events
unfolding verify_from refused
verify_from_sound c last n checked [] h = tt
verify_from_sound c last n checked (e ∷ events) h = ground (
  arith,
  number_eq_iff e.sequence_number (some n),
  hash_eq_iff e.previous_hash last,
  hash_eq_iff e.checksum (some (compute_checksum c (model_dump e))),
  verify_from_sound c e.checksum (n + 1) (checked + 1) events,
)

pub verify_from_complete :
    (c : Codec) (last : Option Text) (n checked : ℕ) (events : List AuditEvent)
    → IsChain c last n events
    → verify_from c last n checked events ≡ record {
      valid = true;
      events_checked = checked + length events;
      first_invalid_sequence = none;
      error_message = none;
    }
unfolding verify_from refused
verify_from_complete c last n checked [] h = ground arith
verify_from_complete c last n checked (e ∷ events) h = ground (
  arith,
  number_eq_iff e.sequence_number (some n),
  hash_eq_iff e.previous_hash last,
  hash_eq_iff e.checksum (some (compute_checksum c (model_dump e))),
  verify_from_complete c e.checksum (n + 1) (checked + 1) events h.3,
)

-- `verify_chain` answers that a list of events is valid exactly when it is a chain: numbers from 1
-- on without a gap, each event with the checksum of the one before, and with the checksum that its
-- own fields have.
pub verify_chain_iff :
    (c : Codec) (events : List AuditEvent)
    → ((verify_chain c events).valid ≡ true) ↔ IsChain c none 1 events
unfolding verify_chain
verify_chain_iff c events = (
  verify_from_sound c none 1 0 events,
  λ h. ap (λ r. r.valid) (verify_from_complete c none 1 0 events h),
)
