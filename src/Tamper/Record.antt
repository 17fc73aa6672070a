-- ===== src/Tamper/Record.antt =====
-- fapilog_tamper/types.py and canonical.py, and what the package takes from elsewhere. Bytes are
-- lists of numbers.
use fapilog.Prelude.{ℕ, Bool, Option, List, [], ◌∷◌, Text, codes}
use fapilog.Prelude.Value.{Value, Fields, delete}

abbrev pub Bytes : Type 0
Bytes = List ℕ

pub data Algorithm : Type 0 where
  hmac_sha256 ed25519 : Algorithm

-- hashlib, hmac, PyNaCl, base64 and json. `verify_signature` is none where PyNaCl is missing,
-- `decode` is none where base64 raises, `dumps` gives the bytes of the sorted JSON of a dict, and
-- `render` is `str` of a value that is no text.
pub record Crypto : Type 0 where
  pub sha256 : Bytes → Bytes
  pub hmac : Bytes → Bytes → Bytes
  pub sign : Bytes → Bytes → Bytes
  pub verify_signature : Option (Bytes → Bytes → Bytes → Bool)
  pub b64url_encode : Bytes → Text
  pub b64url_decode : Text → Option Bytes
  pub dumps : Fields → Bytes
  pub render : Value → Text

-- `IntegrityFields`
pub record Integrity : Type 0 where
  pub seq : ℕ
  pub mac : Text
  pub algo : Algorithm
  pub key_id : Text
  pub chain_hash : Text
  pub prev_chain_hash : Text

pub record ChainState : Type 0 where
  pub seq : ℕ
  pub prev_chain_hash : Bytes
  pub key_id : Text

unfoldable pub genesis_hash : Bytes
genesis_hash =
    0 ∷ 0 ∷ 0 ∷ 0 ∷ 0 ∷ 0 ∷ 0 ∷ 0 ∷ 0 ∷ 0 ∷ 0 ∷ 0 ∷ 0 ∷ 0 ∷ 0 ∷ 0 ∷ 0 ∷ 0 ∷ 0 ∷ 0 ∷ 0 ∷ 0 ∷ 0 ∷ 0
    ∷ 0 ∷ 0 ∷ 0 ∷ 0 ∷ 0 ∷ 0 ∷ 0 ∷ 0 ∷ []

unfoldable pub canonicalize : Crypto → Fields → Bytes
canonicalize cr event = cr.dumps (delete (codes "integrity") event)

-- A line of a log file: the fields beside the integrity field, and that field where it is a dict
-- that is not empty. A line that is no JSON is read as the empty record. The integrity field has all
-- its fields, with their types; the defaults that the verifier takes for missing ones are left out.
pub record LogRecord : Type 0 where
  pub payload : Fields
  pub integrity : Option Integrity
