-- ===== src/Tamper/Sealed.antt =====
-- fapilog_tamper/sealed_sink.py: SealedSink with its ManifestGenerator. The inner sink is any
-- sink: `inner` holds the records as they are read back from its file, `kept` says what is read back
-- of a record that it is handed (RotatingFileSink writes an envelope without the integrity fields,
-- and a sink may drop a record), and
-- `has_rotate` tells whether it has a method `rotate`, without which a rotation leaves its file as it
-- is. Manifests stand beside the file that was open when they were written. Syncing and compressing
-- files are left out.
use fapilog.Prelude.{
  ℕ, ◌+◌, Bool, ◌&&◌, Option, none, some, List, [], ◌∷◌, ◌++◌, Text, codes, ltb, if◌then◌else◌,
}
use fapilog.Prelude.Value.{Value, get}
use fapilog.Tamper.Record.{Bytes, Algorithm, hmac_sha256, ed25519, Crypto, Integrity, LogRecord}
use fapilog.Tamper.Verify.{Manifest, Signing, canonical_manifest_payload}
use fapilog.Tamper.Enricher.{Provider, decode_key}

pub record FileMetadata : Type 0 where
  pub filename : Text
  pub created_ts : Text
  pub record_count : ℕ
  pub first_seq : Option ℕ
  pub last_seq : Option ℕ
  pub first_ts : Option Value
  pub last_ts : Option Value
  pub root_chain_hash : Option Bytes
  pub continues_from : Option Text

pub record SealConfig : Type 0 where
  pub algorithm : Algorithm
  pub key_id : Text
  pub rotate_chain : Bool
  pub use_kms_signing : Bool
  pub sign_manifests : Bool

pub record SealedSink : Type 0 where
  pub config : SealConfig
  pub provider : Option Provider
  pub key : Option Bytes
  pub current_file : Option FileMetadata
  pub previous_root : Option Text
  pub kept : LogRecord → List LogRecord
  pub has_rotate : Bool
  pub inner : List LogRecord
  pub emitted : List (List LogRecord × Manifest)

unfoldable pub init :
    SealConfig → Option Provider → Option Bytes → (LogRecord → List LogRecord) → Bool → SealedSink
init config provider key kept has_rotate = record {
  config = config;
  provider = provider;
  key = key;
  current_file = none;
  previous_root = none;
  kept = kept;
  has_rotate = has_rotate;
  inner = [];
  emitted = [];
}

unfoldable pub new_file : SealedSink → Text → Text → FileMetadata
new_file s filename now = record {
  filename = filename;
  created_ts = now;
  record_count = 0;
  first_seq = none;
  last_seq = none;
  first_ts = none;
  last_ts = none;
  root_chain_hash = none;
  continues_from = (if s.config.rotate_chain then none else s.previous_root);
}

unfoldable pub encoded_root : Crypto → Option Bytes → Option Text
encoded_root cr none = none
encoded_root cr (some []) = none
encoded_root cr (some (b ∷ bs)) = some (cr.b64url_encode (b ∷ bs))

unfoldable pub signature_by : Crypto → Algorithm → Bytes → Bytes → Option Bytes
signature_by cr hmac_sha256 key payload = some (cr.hmac key payload)
signature_by cr ed25519 key payload = elim cr.verify_signature [
  | none ↦ none
  | some v ↦ some (cr.sign key payload)
]

unfoldable pub sign_manifest : Signing → Option Bytes → Manifest → Option Bytes
unfolding canonical_manifest_payload signature_by
sign_manifest g none m = none
sign_manifest g (some []) m = none
sign_manifest g (some (k ∷ key)) m =
    signature_by g.crypto m.algo (k ∷ key) (canonical_manifest_payload g m)

unfoldable pub with_signature : Crypto → Option Bytes → Manifest → Manifest
with_signature cr none m = m
with_signature cr (some []) m = m
with_signature cr (some (b ∷ bs)) m = record m { signature = some (cr.b64url_encode (b ∷ bs)) }

unfoldable pub unsigned : Crypto → SealConfig → FileMetadata → Text → Manifest
unfolding encoded_root
unsigned cr config f closed_ts = record {
  file = f.filename;
  created_ts = f.created_ts;
  closed_ts = closed_ts;
  record_count = f.record_count;
  first_seq = f.first_seq;
  last_seq = f.last_seq;
  first_ts = f.first_ts;
  last_ts = f.last_ts;
  root_chain_hash = encoded_root cr f.root_chain_hash;
  algo = config.algorithm;
  key_id = config.key_id;
  continues_from = f.continues_from;
  signature = none;
}

-- `ManifestGenerator.generate` with the key that the generator was given
unfoldable pub generate : Signing → SealConfig → Option Bytes → FileMetadata → Text → Manifest
unfolding unsigned with_signature sign_manifest
generate g config key f closed_ts =
    let m = unsigned g.crypto config f closed_ts in
    with_signature g.crypto (sign_manifest g key m) m

unfoldable pub kms_signed : Signing → SealConfig → Option Provider → Manifest → Manifest
unfolding canonical_manifest_payload
kms_signed g config none m = m
kms_signed g config (some p) m =
    if config.use_kms_signing && config.sign_manifests
    then record m {
      signature =
          some (g.crypto.b64url_encode (p.sign config.key_id (canonical_manifest_payload g m)));
    }
    else m

-- `if root_hash: self._previous_root = root_hash`
unfoldable pub next_root : Option Text → Option Text → Option Text
next_root old none = old
next_root old (some []) = old
next_root old (some (c ∷ t)) = some (c ∷ t)

unfoldable pub manifest_of : Signing → SealedSink → FileMetadata → Text → Manifest
unfolding generate kms_signed
manifest_of g s f now =
    kms_signed g s.config s.provider
      (generate g s.config (if s.config.sign_manifests then s.key else none) f now)

unfoldable pub emit_from : Signing → SealedSink → Text → Option FileMetadata → SealedSink
unfolding manifest_of next_root
emit_from g s now none = s
emit_from g s now (some f) =
    let m = manifest_of g s f now in
    record s {
      previous_root = next_root s.previous_root m.root_chain_hash;
      emitted = s.emitted ++ (s.inner, m) ∷ [];
    }

unfoldable pub emit_manifest : Signing → SealedSink → Text → SealedSink
unfolding emit_from
emit_manifest g s now = emit_from g s now s.current_file

-- the provider's key, where manifests are signed with a local key that is not there yet
unfoldable pub provided_key : Crypto → SealConfig → Option Provider → Option Bytes
unfolding decode_key
provided_key cr config none = none
provided_key cr config (some p) =
    if config.use_kms_signing
    then none
    else elim (p.get_key config.key_id) [ none ↦ none | some raw ↦ decode_key cr raw ]

unfoldable pub loaded_key : Crypto → SealedSink → Option Bytes → Option Bytes
unfolding provided_key
loaded_key cr s (some (k ∷ key)) = some (k ∷ key)
loaded_key cr s key = if s.config.sign_manifests then provided_key cr s.config s.provider else key

unfoldable pub start : Crypto → SealedSink → Text → Text → SealedSink
unfolding new_file loaded_key
start cr s filename now = record s {
  key = loaded_key cr s s.key;
  current_file = some (new_file s filename now);
}

unfoldable pub stop : Signing → SealedSink → Text → SealedSink
unfolding emit_manifest
stop g s now = elim s.current_file [
  | none ↦ s
  | some f ↦ if ltb 0 f.record_count then emit_manifest g s now else s
]

-- the root after a record with this chain hash; base64 that does not decode takes it away
unfoldable pub root_after : Crypto → Option Integrity → Option Bytes → Option Bytes
root_after cr none old = old
root_after cr (some i) old = elim i.chain_hash [ [] ↦ old | c ∷ t ↦ cr.b64url_decode (c ∷ t) ]

abbrev seq_of : Option Integrity → Option ℕ
seq_of none = none
seq_of (some i) = some i.seq

abbrev or_new : {A : Type 0} → Option ℕ → Option A → Option A → Option A
or_new none old new = new
or_new (some n) old new = old

unfoldable pub noted : Crypto → FileMetadata → LogRecord → FileMetadata
unfolding root_after
noted cr f r =
    let ts = get (codes "timestamp") r.payload in
    record f {
      first_seq = or_new f.first_seq f.first_seq (seq_of r.integrity);
      first_ts = or_new f.first_seq f.first_ts ts;
      last_seq = seq_of r.integrity;
      last_ts = ts;
      record_count = f.record_count + 1;
      root_chain_hash = root_after cr r.integrity f.root_chain_hash;
    }

unfoldable pub current_or : FileMetadata → Option FileMetadata → FileMetadata
current_or f none = f
current_or f (some g) = g

unfoldable pub write : Crypto → SealedSink → Text → Text → LogRecord → SealedSink
unfolding noted current_or new_file
write cr s filename now r = record s {
  current_file = some (noted cr (current_or (new_file s filename now) s.current_file) r);
  inner = s.inner ++ s.kept r;
}

unfoldable pub rotate : Signing → SealedSink → Text → Text → SealedSink
unfolding emit_manifest new_file
rotate g s filename now =
    let t = emit_manifest g s now in
    record t {
      inner = if t.has_rotate then [] else t.inner;
      current_file = some (new_file t filename now);
    }

-- an inner sink that takes serialized entries gets them past the metadata
unfoldable pub write_serialized : SealedSink → LogRecord → SealedSink
write_serialized s r = record s { inner = s.inner ++ r ∷ [] }
