-- ===== src/Tamper/Authentic.antt =====
-- Records whose MACs verify, and the ones that the enricher makes.
use fapilog.Prelude.{
  ℕ, ◌+◌, ◌≡◌, refl, sym, ap, ◌∙◌, true, false, Option, none, some, List, [], ◌∷◌, ◌++◌, length,
  Text, if◌then◌else◌, codes, text_eq_refl, subst,
}
use fapilog.Prelude.Value.{Fields, get}
use fapilog.Tamper.Record.{
  Bytes, hmac_sha256, Crypto, Integrity, ChainState, LogRecord, canonicalize,
}
use fapilog.Tamper.Enricher.{
  Provider, IntegrityEnricher, Enriched, nothing_added, integrity_added, enrich, inactive,
  integrity_of, advance, compute_mac, local_mac, state_of, timestamp_text, chain_hash_of, to_bytes,
}
use fapilog.Tamper.Verify.{
  KeyStore, verify_record, decoded_matches, mac_matches, check_records, check_with, add_verdict,
  algo_of, key_id_or_empty,
}

-- the key of a record is known and its MAC is right
abbrev pub IsAuthentic : Crypto → KeyStore → LogRecord → Type 0
IsAuthentic cr keys r =
    (k : ℕ) × (key : Bytes) × (keys (key_id_or_empty r.integrity) ≡ some (k ∷ key))
    × (verify_record cr r (k ∷ key) (algo_of r.integrity) ≡ some true)

abbrev pub AllAuthentic : Crypto → KeyStore → List LogRecord → Type 0
AllAuthentic cr keys [] = Unit
AllAuthentic cr keys (r ∷ records) = IsAuthentic cr keys r × AllAuthentic cr keys records

pub check_records-authentic :
    (cr : Crypto) (keys : KeyStore) (records : List LogRecord)
    → AllAuthentic cr keys records
    → check_records cr keys records ≡ some ([], length records)
unfolding check_records check_with add_verdict
check_records-authentic cr keys [] h = refl
check_records-authentic cr keys (r ∷ records) ((k, key, e, v), h) =
    rw (e, v, check_records-authentic cr keys records h) refl

-- an enricher that authenticates with the key `k ∷ key` of its own
abbrev pub IsReady : IntegrityEnricher → ℕ → Bytes → Type 0
IsReady e k key =
    (e.config.enabled ≡ true)
    × (e.config.algorithm ≡ hmac_sha256)
    × (e.config.use_kms_signing ≡ false)
    × (e.key ≡ some (k ∷ key))

-- the record of an event, which had no integrity field, as it is written
abbrev pub log_record : Fields → Integrity → LogRecord
log_record event i = record { payload = event; integrity = some i }

abbrev pub written_record : Fields → Enriched → List LogRecord
written_record event (integrity_added i) = log_record event i ∷ []
written_record event _ = record { payload = event; integrity = none } ∷ []

-- the records of events with the clock's readings, and the enricher after them
abbrev pub enrich_all :
    Crypto → IntegrityEnricher → List (Text × Fields) → IntegrityEnricher × List LogRecord
enrich_all cr e [] = (e, [])
enrich_all cr e ((now, event) ∷ events) =
    let r = enrich cr e now event in
    let rest = enrich_all cr r.0 events in (rest.0, written_record event r.1 ++ rest.1)

-- what one step does to the chain and writes
abbrev pub IsStep :
    Crypto → KeyStore → ℕ → Bytes → ChainState → Fields → IntegrityEnricher × Enriched → Type 0
IsStep cr keys k key s event r =
    (i : Integrity) × (r.1 ≡ integrity_added i)
    × IsReady r.0 k key
    × (keys r.0.config.key_id ≡ some (k ∷ key))
    × (i.seq ≡ s.seq + 1)
    × (i.prev_chain_hash ≡ cr.b64url_encode s.prev_chain_hash)
    × (i.chain_hash ≡ cr.b64url_encode (state_of r.0.state).prev_chain_hash)
    × ((state_of r.0.state).seq ≡ s.seq + 1)
    × IsAuthentic cr keys (log_record event i)
    × ((x : Bytes) × ((state_of r.0.state).prev_chain_hash ≡ cr.sha256 x))

ready-inactive :
    (e : IntegrityEnricher) (k : ℕ) (key : Bytes) → IsReady e k key → inactive e ≡ false
unfolding inactive
ready-inactive e k key (a, b, c, d) = rw (a, b, c, d) refl

local_mac-ready :
    (cr : Crypto) (e : IntegrityEnricher) (k : ℕ) (key payload : Bytes)
    → IsReady e k key
    → local_mac cr e e.config.algorithm payload ≡ some (cr.hmac (k ∷ key) payload)
unfolding local_mac
local_mac-ready cr e k key payload (a, b, c, d) = rw (b, d) refl

compute_mac-ready :
    (cr : Crypto) (e : IntegrityEnricher) (k : ℕ) (key payload : Bytes) (p : Option Provider)
    → IsReady e k key
    → compute_mac cr e p payload ≡ some (cr.hmac (k ∷ key) payload)
unfolding compute_mac
compute_mac-ready cr e k key payload none h = local_mac-ready cr e k key payload h
compute_mac-ready cr e k key payload (some p) h =
    subst
      (λ b.
        (if b
          then some (p.sign e.config.key_id payload)
          else local_mac cr e e.config.algorithm payload)
        ≡ some (cr.hmac (k ∷ key) payload))
      (sym h.2) (local_mac-ready cr e k key payload h)

mac_verifies :
    (cr : Crypto) (i : Integrity) (event : Fields) (key : Bytes)
    → cr.b64url_decode i.mac ≡ some (cr.hmac key (canonicalize cr event))
    → verify_record cr (log_record event i) key hmac_sha256 ≡ some true
unfolding verify_record decoded_matches mac_matches
mac_verifies cr i event key h =
    ap (decoded_matches cr hmac_sha256 key (canonicalize cr event)) h
    ∙ ap some (text_eq_refl (cr.hmac key (canonicalize cr event)))

pub enrich-IsStep :
    (cr : Crypto) (keys : KeyStore) (k : ℕ) (key : Bytes) (e : IntegrityEnricher) (now : Text)
    (event : Fields)
    → ((x : Bytes) → cr.b64url_decode (cr.b64url_encode x) ≡ some x)
    → IsReady e k key
    → keys e.config.key_id ≡ some (k ∷ key)
    → IsStep cr keys k key (state_of e.state) event (enrich cr e now event)
unfolding enrich advance state_of algo_of integrity_of chain_hash_of
enrich-IsStep cr keys k key e now event dec h a =
    let payload = canonicalize cr event in
    let mac = cr.hmac (k ∷ key) payload in
    let s = state_of e.state in
    let ts = timestamp_text cr now (get (codes "timestamp") event) in
    let step = advance cr e s ts (some mac) in
    let equation : enrich cr e now event ≡ step =
      ap
        (λ b.
          if b then (e, nothing_added) else advance cr e s ts (compute_mac cr e e.provider payload))
        (ready-inactive e k key h)
      ∙ ap (advance cr e s ts) (compute_mac-ready cr e k key payload e.provider h) in
    let i = integrity_of cr e s ts mac in
    subst (IsStep cr keys k key s event) (sym equation) (
      i,
      refl,
      h,
      a,
      refl,
      refl,
      refl,
      refl,
      (
        k,
        key,
        a,
        ap (verify_record cr (log_record event i) (k ∷ key)) h.1
            ∙ mac_verifies cr i event (k ∷ key) (dec mac),
      ),
      (s.prev_chain_hash ++ (mac ++ (to_bytes 8 (s.seq + 1) ++ ts)), refl),
    )
