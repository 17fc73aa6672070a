-- ===== src/Tamper/Enricher.antt =====
-- fapilog_tamper/enricher.py: IntegrityEnricher, and chain_state.py: its state on disk. The lock
-- makes numbering and hashing of an event one step; the clock's reading is an argument.
use fapilog.Prelude.{
  ℕ, zero, suc, ◌+◌, ◌/◌, ◌%◌, Bool, true, false, not, Option, none, some, List, [], ◌∷◌, ◌++◌,
  length, Text, codes, text_eq, ◌==◌, if◌then◌else◌,
}
use fapilog.Prelude.Value.{Value, str, Fields, get, truthy}
use fapilog.Tamper.Record.{
  Bytes, Algorithm, hmac_sha256, ed25519, Crypto, Integrity, ChainState, genesis_hash, canonicalize,
}

pub record Config : Type 0 where
  pub enabled : Bool
  pub algorithm : Algorithm
  pub key_id : Text
  pub use_kms_signing : Bool

-- a key provider answers keys and, for a key service, signatures
pub record Provider : Type 0 where
  pub get_key : Text → Option Bytes
  pub sign : Text → Bytes → Bytes

pub record IntegrityEnricher : Type 0 where
  pub config : Config
  pub provider : Option Provider
  pub key : Option Bytes
  pub signing_key : Option Bytes
  pub state : Option ChainState

unfoldable pub init : Config → Option Provider → IntegrityEnricher
init config provider = record {
  config = config;
  provider = provider;
  key = none;
  signing_key = none;
  state = none;
}

unfoldable pub genesis : ChainState
genesis = record { seq = 0; prev_chain_hash = genesis_hash; key_id = [] }

-- `seq.to_bytes(8, "big")`, for numbers below 2 ^ 64
unfoldable pub to_bytes : ℕ → ℕ → Bytes
to_bytes zero n = []
to_bytes (suc w) n = to_bytes w (n / 256) ++ n % 256 ∷ []

unfoldable pub timestamp_text : Crypto → Text → Option Value → Text
timestamp_text cr now none = now
timestamp_text cr now (some (str [])) = now
timestamp_text cr now (some (str (c ∷ t))) = c ∷ t
timestamp_text cr now (some v) = if truthy v then cr.render v else now

abbrev is_none : {A : Type 0} → Option A → Bool
is_none none = true
is_none (some a) = false

abbrev is_ed25519 : Algorithm → Bool
is_ed25519 ed25519 = true
is_ed25519 hmac_sha256 = false

-- the guards under which `enrich` adds nothing
unfoldable pub inactive : IntegrityEnricher → Bool
inactive e =
    if not e.config.enabled
    then true
    else if is_ed25519 e.config.algorithm
    then is_none e.signing_key
    else if e.config.use_kms_signing
    then false
    else is_none e.key

-- none where the assertion on the key fails
unfoldable pub local_mac : Crypto → IntegrityEnricher → Algorithm → Bytes → Option Bytes
local_mac cr e hmac_sha256 payload = elim e.key [ none ↦ none | some k ↦ some (cr.hmac k payload) ]
local_mac cr e ed25519 payload = elim e.signing_key [
  | none ↦ none
  | some k ↦ some (cr.sign k payload)
]

unfoldable pub compute_mac : Crypto → IntegrityEnricher → Option Provider → Bytes → Option Bytes
unfolding local_mac
compute_mac cr e none payload = local_mac cr e e.config.algorithm payload
compute_mac cr e (some p) payload =
    if e.config.use_kms_signing
    then some (p.sign e.config.key_id payload)
    else local_mac cr e e.config.algorithm payload

unfoldable pub state_of : Option ChainState → ChainState
unfolding genesis
state_of none = genesis
state_of (some s) = s

unfoldable pub chain_hash_of : Crypto → Bytes → Bytes → ℕ → Text → Bytes
unfolding to_bytes
chain_hash_of cr prev mac seq ts = cr.sha256 (prev ++ (mac ++ (to_bytes 8 seq ++ ts)))

pub data Enriched : Type 0 where
  nothing_added raised : Enriched
  integrity_added : Integrity → Enriched

-- the fields that an event gets
unfoldable pub integrity_of : Crypto → IntegrityEnricher → ChainState → Text → Bytes → Integrity
unfolding chain_hash_of
integrity_of cr e s ts mac = record {
  seq = s.seq + 1;
  mac = cr.b64url_encode mac;
  algo = e.config.algorithm;
  key_id = e.config.key_id;
  chain_hash = cr.b64url_encode (chain_hash_of cr s.prev_chain_hash mac (s.seq + 1) ts);
  prev_chain_hash = cr.b64url_encode s.prev_chain_hash;
}

-- the step under the lock
unfoldable pub advance :
    Crypto → IntegrityEnricher → ChainState → Text → Option Bytes → IntegrityEnricher × Enriched
unfolding chain_hash_of integrity_of
advance cr e s ts none = (record e { state = some s }, raised)
advance cr e s ts (some mac) = (
  record e {
    state = some (record {
      seq = s.seq + 1;
      prev_chain_hash = chain_hash_of cr s.prev_chain_hash mac (s.seq + 1) ts;
      key_id = (if text_eq s.key_id [] then e.config.key_id else s.key_id);
    });
  },
  integrity_added (integrity_of cr e s ts mac),
)

unfoldable pub enrich : Crypto → IntegrityEnricher → Text → Fields → IntegrityEnricher × Enriched
unfolding inactive advance compute_mac state_of timestamp_text
enrich cr e now event =
    if inactive e
    then (e, nothing_added)
    else advance cr e (state_of e.state) (timestamp_text cr now (get (codes "timestamp") event))
        (compute_mac cr e e.provider (canonicalize cr event))

unfoldable pub usable_key : List Bytes → Option Bytes
usable_key [] = none
usable_key (k ∷ ks) = let rest = usable_key ks in if length k == 32 then some k else rest

-- padding is added by the decoder
unfoldable pub decode_key : Crypto → Bytes → Option Bytes
unfolding usable_key
decode_key cr raw = elim (cr.b64url_decode raw) [
  | none ↦ usable_key (raw ∷ [])
  | some k ↦ usable_key (k ∷ raw ∷ [])
]

-- the key and the signing key; the latter needs PyNaCl
unfoldable pub keys_of : Crypto → Algorithm → Option Bytes → Option Bytes × Option Bytes
keys_of cr algorithm none = (none, none)
keys_of cr hmac_sha256 (some k) = (some k, none)
keys_of cr ed25519 (some k) = elim cr.verify_signature [
  | none ↦ (none, none)
  | some v ↦ (some k, some k)
]

unfoldable pub load_raw : Crypto → Config → Option Bytes → Option Bytes × Option Bytes
unfolding keys_of decode_key
load_raw cr config none = (none, none)
load_raw cr config (some raw) = keys_of cr config.algorithm (decode_key cr raw)

unfoldable pub load_keys : Crypto → Config → Option Provider → Option Bytes × Option Bytes
unfolding load_raw
load_keys cr config none = (none, none)
load_keys cr config (some p) =
    if config.use_kms_signing then (none, none) else load_raw cr config (p.get_key config.key_id)

-- what the state file holds
pub record StateFile : Type 0 where
  pub seq : ℕ
  pub prev_chain_hash : Text
  pub key_id : Text

unfoldable pub save : Crypto → ChainState → StateFile
save cr s = record {
  seq = s.seq;
  prev_chain_hash = cr.b64url_encode s.prev_chain_hash;
  key_id = s.key_id;
}

unfoldable pub decoded_state : StateFile → Option Bytes → ChainState
unfolding genesis
decoded_state f none = genesis
decoded_state f (some h) = record { seq = f.seq; prev_chain_hash = h; key_id = f.key_id }

-- a file that is missing or no JSON of this form is none
unfoldable pub load : Crypto → Option StateFile → ChainState
unfolding decoded_state
load cr none = genesis
load cr (some f) = decoded_state f (cr.b64url_decode f.prev_chain_hash)

unfoldable pub start : Crypto → IntegrityEnricher → Option StateFile → IntegrityEnricher
unfolding load_keys load
start cr e file =
    let keys = load_keys cr e.config e.provider in
    let s = load cr file in
    record e {
      key = keys.0;
      signing_key = keys.1;
      state =
          some (record s { key_id = (if text_eq s.key_id [] then e.config.key_id else s.key_id) });
    }

-- the enricher without its keys, and the state file that it leaves
unfoldable pub stop :
    Crypto → IntegrityEnricher → Option StateFile → IntegrityEnricher × Option StateFile
unfolding save
stop cr e file = (
  record e { key = none; signing_key = none },
  elim e.state [ none ↦ file | some s ↦ some (save cr s) ],
)
