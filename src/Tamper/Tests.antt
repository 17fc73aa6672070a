-- ===== src/Tamper/Tests.antt =====
-- The tamper package at concrete records, with stand-ins for the hashes and base64.
use fapilog.Prelude.{
  ℕ, zero, suc, ◌+◌, ◌≡◌, ◌≢◌, refl, ap, ◌↔◌, Bool, true, false, Option, none, some, List, [], ◌∷◌,
  ◌++◌, length, Text, codes,
}
use fapilog.Prelude.Value.{Value, str, Fields, end, field, get}
use fapilog.Tamper.Record.{
  Bytes, Algorithm, hmac_sha256, Crypto, Integrity, ChainState, LogRecord, genesis_hash,
}
use fapilog.Tamper.Enricher.{
  Config, Provider, IntegrityEnricher, init, state_of, genesis, StateFile, load, save, start,
  enrich, load_keys, load_raw, keys_of, decode_key, usable_key,
}
use fapilog.Tamper.Verify.{
  KeyStore, VerifyReport, Manifest, Signing, verify_file, verify_chain, first_prev, prev_or_empty,
}
use fapilog.Tamper.Sealed.{SealConfig, SealedSink}
use fapilog.Tamper.Links.{IsLinked}
use fapilog.Tamper.Sound.{IsValid, verify_file_iff}
use fapilog.Tamper.Verify.{start_seq}
use fapilog.Tamper.Authentic.{AllAuthentic, enrich_all}
use fapilog.Tamper.Reports.{clean_report}
use fapilog.Tamper.Relink.{relink, relinked_passes}
use fapilog.Tamper.Restart.{restarted_verifies, restarted}

abbrev text_of : Option Value → Text
text_of (some (str t)) = t
text_of _ = []

abbrev brief : Fields → Bytes
unfolding get
brief d = text_of (get (codes "message") d)

abbrev toy : Crypto
toy = record {
  sha256 = λ x. 1 ∷ x;
  hmac = λ k x. 2 ∷ (k ++ x);
  sign = λ k x. x;
  verify_signature = none;
  b64url_encode = λ x. x;
  b64url_decode = λ t. some t;
  dumps = brief;
  render = λ v. [];
}

abbrev signing : Signing
signing = record { crypto = toy; manifest_bytes = λ m. m.file }

abbrev store : KeyStore
store name = some (5 ∷ 6 ∷ [])

abbrev config : Config
config = record {
  enabled = true;
  algorithm = hmac_sha256;
  key_id = codes "main";
  use_kms_signing = false;
}

abbrev keyed : IntegrityEnricher
keyed = record {
  config = config;
  provider = none;
  key = some (5 ∷ 6 ∷ []);
  signing_key = none;
  state = none;
}

abbrev said : Text → Text × Fields
said t = (codes "now", field (codes "message") (str t) end)

abbrev events : List (Text × Fields)
events = said (codes "one") ∷ said (codes "two") ∷ []

abbrev sink : SealedSink
sink = record {
  config = record {
    algorithm = hmac_sha256;
    key_id = codes "main";
    rotate_chain = false;
    use_kms_signing = false;
    sign_manifests = true;
  };
  provider = none;
  key = some (5 ∷ 6 ∷ []);
  current_file = none;
  previous_root = none;
  kept = λ r. r ∷ [];
  has_rotate = true;
  inner = [];
  emitted = [];
}

-- a record under the key, out of any chain
abbrev loose : Text → LogRecord
loose t = record {
  payload = field (codes "message") (str t) end;
  integrity = some (record {
    seq = 9;
    mac = 2 ∷ 5 ∷ 6 ∷ t;
    algo = hmac_sha256;
    key_id = codes "main";
    chain_hash = codes "x";
    prev_chain_hash = codes "y";
  });
}

loose-authentic : AllAuthentic toy store (loose (codes "b") ∷ loose (codes "a") ∷ [])
unfolding fapilog.Tamper.Verify.verify_record fapilog.Tamper.Verify.algo_of
    fapilog.Tamper.Verify.decoded_matches fapilog.Tamper.Verify.mac_matches
    fapilog.Tamper.Record.canonicalize fapilog.Prelude.Value.delete brief
loose-authentic = ((5, 6 ∷ [], refl, refl), ((5, 6 ∷ [], refl, refl), tt))

relinked_passes_example :
    verify_file signing store
      (relink
        (toy.b64url_encode genesis_hash)
        1
        (λ n. codes "z")
        (loose (codes "b") ∷ loose (codes "a") ∷ []))
      none
    ≡ some (clean_report 2 none none)
relinked_passes_example =
    relinked_passes signing store (λ n. codes "z") (loose (codes "b") ∷ loose (codes "a") ∷ [])
      loose-authentic

verify_file_iff_example :
    IsValid (verify_file signing store (loose (codes "b") ∷ loose (codes "a") ∷ []) none) ↔ (
      AllAuthentic toy store (loose (codes "b") ∷ loose (codes "a") ∷ [])
      × IsLinked
          (toy.b64url_encode genesis_hash)
          (start_seq (loose (codes "b") ∷ loose (codes "a") ∷ []))
          (loose (codes "b") ∷ loose (codes "a") ∷ []))
verify_file_iff_example = verify_file_iff signing store (loose (codes "b") ∷ loose (codes "a") ∷ [])

abbrev zeros : ℕ → Bytes
zeros zero = []
zeros (suc n) = 0 ∷ zeros n

abbrev provider : Provider
provider = record { get_key = λ name. some (zeros 32); sign = λ name x. x }

abbrev zero_store : KeyStore
zero_store name = some (zeros 32)

abbrev first_run : IntegrityEnricher
first_run = record keyed { provider = some provider; key = some (zeros 32) }

abbrev second_run : IntegrityEnricher
second_run = record first_run { key = none }

restarted_verifies_example :
    let r = enrich_all toy first_run events in
    let r' = enrich_all toy (restarted toy r.0 second_run) events in
    verify_file signing zero_store (r.1 ++ r'.1) none
    ≡ some (clean_report (length (r.1 ++ r'.1)) none none)
unfolding enrich fapilog.Tamper.Enricher.inactive fapilog.Tamper.Enricher.advance
    fapilog.Tamper.Enricher.compute_mac fapilog.Tamper.Enricher.local_mac state_of start
    fapilog.Tamper.Enricher.stop load_keys load_raw keys_of decode_key usable_key
restarted_verifies_example =
    restarted_verifies signing zero_store 0 0 (zeros 31) (zeros 31) first_run second_run events
      events (state_of (enrich_all toy first_run events).0.state) (λ x. refl)
      ((refl, refl, refl, refl), refl) refl refl ((refl, refl, refl, refl), refl)
