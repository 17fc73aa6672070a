-- ===== src/Tamper/Verify.antt =====
-- fapilog_tamper/verify.py: Verifier with its manifests. A key store is a function from key
-- identifiers; a log file is its records in order. Expected and actual values are kept, messages not.
use fapilog.Prelude.{
  ℕ, suc, ◌+◌, ◌-◌, Bool, true, false, ◌&&◌, Option, none, some, List, [], ◌∷◌, ◌++◌, length, Text,
  text_eq, ◌==◌, if◌then◌else◌,
}
use fapilog.Prelude.Value.{Value}
use fapilog.Tamper.Record.{
  Bytes, Algorithm, hmac_sha256, ed25519, Crypto, Integrity, LogRecord, genesis_hash, canonicalize,
}

pub data VerifyError : Type 0 where
  missing_key : ℕ → Text → VerifyError
  mac_mismatch : ℕ → VerifyError
  seq_gap : ℕ → ℕ → VerifyError
  chain_break : ℕ → Text → Text → VerifyError

abbrev pub KeyStore : Type 0
KeyStore = Text → Option Bytes

-- `integrity.get(.., default)`, where a missing integrity field is the empty dict
abbrev pub seq_or : ℕ → Option Integrity → ℕ
seq_or n none = n
seq_or n (some i) = i.seq

abbrev pub chain_hash_or_empty : Option Integrity → Text
chain_hash_or_empty none = []
chain_hash_or_empty (some i) = i.chain_hash

abbrev pub prev_or_empty : Option Integrity → Text
prev_or_empty none = []
prev_or_empty (some i) = i.prev_chain_hash

abbrev pub key_id_or_empty : Option Integrity → Text
key_id_or_empty none = []
key_id_or_empty (some i) = i.key_id

-- the comparison of a MAC over a payload; none where PyNaCl is missing is false
unfoldable pub mac_matches : Crypto → Algorithm → Bytes → Bytes → Bytes → Bool
mac_matches cr hmac_sha256 key payload mac = text_eq mac (cr.hmac key payload)
mac_matches cr ed25519 key payload mac = elim cr.verify_signature [
  | none ↦ false
  | some v ↦ v key payload mac
]

unfoldable pub decoded_matches : Crypto → Algorithm → Bytes → Bytes → Option Bytes → Option Bool
unfolding mac_matches
decoded_matches cr algo key payload none = none
decoded_matches cr algo key payload (some mac) = some (mac_matches cr algo key payload mac)

-- none where the stored MAC is no base64, which raises
unfoldable pub verify_record : Crypto → LogRecord → Bytes → Algorithm → Option Bool
unfolding decoded_matches
verify_record cr r key algo = elim r.integrity [
  | none ↦ some false
  | some i ↦ decoded_matches cr algo key (canonicalize cr r.payload) (cr.b64url_decode i.mac)
]

unfoldable pub gap_error : ℕ → ℕ → List VerifyError
gap_error expected seq = if seq == expected then [] else seq_gap expected seq ∷ []

unfoldable pub break_error : ℕ → Text → Text → List VerifyError
break_error seq expected actual =
    if text_eq actual expected then [] else chain_break seq expected actual ∷ []

-- the loop of `verify_chain`, with the number expected next
unfoldable pub chain_errors : Text → ℕ → List LogRecord → List VerifyError
unfolding gap_error break_error
chain_errors prev expected [] = []
chain_errors prev expected (r ∷ records) =
    let i = r.integrity in
    gap_error expected (seq_or 0 i)
    ++ (break_error (seq_or 0 i) prev (prev_or_empty i)
        ++ chain_errors (chain_hash_or_empty i) (seq_or 0 i + 1) records)

unfoldable pub first_prev : Crypto → Option Text → Text
first_prev cr none = cr.b64url_encode genesis_hash
first_prev cr (some []) = cr.b64url_encode genesis_hash
first_prev cr (some (c ∷ t)) = c ∷ t

unfoldable pub verify_chain : Crypto → List LogRecord → Option Text → ℕ → List VerifyError
unfolding chain_errors first_prev
verify_chain cr records expected_first_prev expected_start_seq =
    chain_errors (first_prev cr expected_first_prev) expected_start_seq records

pub record Manifest : Type 0 where
  pub file : Text
  pub created_ts : Text
  pub closed_ts : Text
  pub record_count : ℕ
  pub first_seq : Option ℕ
  pub last_seq : Option ℕ
  pub first_ts : Option Value
  pub last_ts : Option Value
  pub root_chain_hash : Option Text
  pub algo : Algorithm
  pub key_id : Text
  pub continues_from : Option Text
  pub signature : Option Text

-- the bytes that a signature covers, of a manifest without its signature
pub record Signing : Type 0 where
  pub crypto : Crypto
  pub manifest_bytes : Manifest → Bytes

unfoldable pub canonical_manifest_payload : Signing → Manifest → Bytes
canonical_manifest_payload g m = g.manifest_bytes (record m { signature = none })

-- the errors of the records, and the number of valid ones; none where a MAC is no base64
unfoldable pub add_verdict :
    LogRecord → Option Bool → Option (List VerifyError × ℕ) → Option (List VerifyError × ℕ)
add_verdict r none rest = none
add_verdict r (some b) none = none
add_verdict r (some true) (some (errors, valid)) = some (errors, suc valid)
add_verdict r (some false) (some (errors, valid)) =
    some (mac_mismatch (seq_or 0 r.integrity) ∷ errors, valid)

unfoldable pub add_missing :
    LogRecord → Option (List VerifyError × ℕ) → Option (List VerifyError × ℕ)
add_missing r none = none
add_missing r (some (errors, valid)) =
    some (missing_key (seq_or 0 r.integrity) (key_id_or_empty r.integrity) ∷ errors, valid)

-- `integrity.get("algo", "HMAC-SHA256")`
unfoldable pub algo_of : Option Integrity → Algorithm
algo_of none = hmac_sha256
algo_of (some i) = i.algo

unfoldable pub check_with :
    Crypto
    → LogRecord
    → Option Bytes
    → Option (List VerifyError × ℕ)
    → Option (List VerifyError × ℕ)
unfolding add_verdict add_missing verify_record algo_of
check_with cr r none rest = add_missing r rest
check_with cr r (some []) rest = add_missing r rest
check_with cr r (some (k ∷ key)) rest =
    add_verdict r (verify_record cr r (k ∷ key) (algo_of r.integrity)) rest

unfoldable pub check_records : Crypto → KeyStore → List LogRecord → Option (List VerifyError × ℕ)
unfolding check_with
check_records cr keys [] = some ([], 0)
check_records cr keys (r ∷ records) =
    check_with cr r (keys (key_id_or_empty r.integrity)) (check_records cr keys records)

unfoldable pub last_hash : List LogRecord → Option Text
last_hash [] = none
last_hash (r ∷ []) = elim r.integrity [ none ↦ none | some i ↦ some i.chain_hash ]
last_hash (r ∷ s ∷ records) = last_hash (s ∷ records)

unfoldable pub root_eq : Option Text → Option Text → Bool
root_eq none none = true
root_eq (some s) (some t) = text_eq s t
root_eq _ _ = false

-- `self._keys.get_key(key_id) if key_id else None`
unfoldable pub key_for : KeyStore → Text → Option Bytes
key_for keys [] = none
key_for keys (c ∷ t) = keys (c ∷ t)

-- `_verify_manifest_signature` under a key that is not empty
unfoldable pub signed_with : Signing → Manifest → Text → Option Bytes → Option Bool
unfolding decoded_matches canonical_manifest_payload
signed_with g m sig none = some false
signed_with g m sig (some []) = some false
signed_with g m sig (some (k ∷ key)) =
    decoded_matches g.crypto m.algo (k ∷ key) (canonical_manifest_payload g m)
      (g.crypto.b64url_decode sig)

-- none where the signature is no base64
unfoldable pub signature_valid : Signing → KeyStore → Manifest → Option Text → Option Bool
unfolding signed_with key_for
signature_valid g keys m none = some false
signature_valid g keys m (some []) = some false
signature_valid g keys m (some (c ∷ s)) = signed_with g m (c ∷ s) (key_for keys m.key_id)

unfoldable pub manifest_verdict : Bool → Option Bool → Option (Bool × Bool)
manifest_verdict valid none = none
manifest_verdict valid (some signed) = some (valid, signed)

unfoldable pub verify_manifest :
    Signing → KeyStore → Manifest → List LogRecord → Option (Bool × Bool)
unfolding signature_valid root_eq last_hash manifest_verdict
verify_manifest g keys m records =
    manifest_verdict
      (root_eq m.root_chain_hash (last_hash records) && (m.record_count == length records))
      (signature_valid g keys m m.signature)

pub record VerifyReport : Type 0 where
  pub valid : Bool
  pub records_checked : ℕ
  pub records_valid : ℕ
  pub records_invalid : ℕ
  pub chain_valid : Bool
  pub manifest_valid : Option Bool
  pub manifest_signature_valid : Option Bool
  pub errors : List VerifyError

abbrev pub is_empty : {A : Type 0} → List A → Bool
is_empty [] = true
is_empty (x ∷ xs) = false

abbrev pub not_refuted : Option Bool → Bool
not_refuted none = true
not_refuted (some b) = b

unfoldable pub start_seq : List LogRecord → ℕ
start_seq [] = 1
start_seq (r ∷ records) = seq_or 1 r.integrity

unfoldable pub report :
    ℕ → List VerifyError → ℕ → List VerifyError → Option Bool → Option Bool → VerifyReport
report n mac_errors records_valid breaks manifest_valid signature = record {
  valid = is_empty (mac_errors ++ breaks) && not_refuted manifest_valid;
  records_checked = n;
  records_valid = records_valid;
  records_invalid = n - records_valid;
  chain_valid = is_empty breaks;
  manifest_valid = manifest_valid;
  manifest_signature_valid = signature;
  errors = mac_errors ++ breaks;
}

unfoldable pub with_manifest :
    Signing
    → List LogRecord
    → Manifest
    → List VerifyError × ℕ
    → Option (Bool × Bool)
    → Option VerifyReport
unfolding report verify_chain start_seq
with_manifest g records m r none = none
with_manifest g records m r (some (ok, signed)) = some (
    report (length records) r.0 r.1
      (verify_chain g.crypto records m.continues_from (start_seq records)) (some ok) (some signed))

-- the report from the errors of the records on; a MAC that is no base64 has raised
unfoldable pub checked_report :
    Signing
    → KeyStore
    → List LogRecord
    → Option Manifest
    → Option (List VerifyError × ℕ)
    → Option VerifyReport
unfolding report verify_manifest verify_chain start_seq with_manifest
checked_report g keys records m none = none
checked_report g keys records none (some r) = some (
    report (length records) r.0 r.1 (verify_chain g.crypto records none (start_seq records)) none
      none)
checked_report g keys records (some m) (some r) =
    with_manifest g records m r (verify_manifest g keys m records)

-- `verify_file`; none where it raises
unfoldable pub verify_file :
    Signing → KeyStore → List LogRecord → Option Manifest → Option VerifyReport
unfolding checked_report check_records
verify_file g keys records manifest =
    checked_report g keys records manifest (check_records g.crypto keys records)
