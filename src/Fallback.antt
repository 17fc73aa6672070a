-- ===== src/Fallback.antt =====
-- plugins/sinks/fallback.py: the redaction of what goes to stderr when a sink fails. `json.loads` of
-- a view is a parameter, none where it raises; so are the patterns that scrub raw text.
pub mod Masked
mod Tests
use fapilog.Prelude.{
  ℕ, zero, suc, Bool, true, false, Option, none, some, List, [], ◌∷◌, Text, codes, text_in, lower,
  if◌then◌else◌,
}

-- the values of an event that no serialization has gone over yet: there may be tuples
mutual
  pub data Value : Type 0 where
    null : Value
    bool : Bool → Value
    num : ℕ → Value
    str : Text → Value
    list : Items → Value
    tuple : Items → Value
    dict : Fields → Value

  pub data Items : Type 0 where
    nil : Items
    cons : Value → Items → Items

  pub data Fields : Type 0 where
    end : Fields
    field : Text → Value → Fields → Fields

abbrev sensitive_fields : List Text
sensitive_fields =
    codes "password"
    ∷ codes "passwd"
    ∷ codes "secret"
    ∷ codes "token"
    ∷ codes "api_key"
    ∷ codes "apikey"
    ∷ codes "api_secret"
    ∷ codes "apisecret"
    ∷ codes "authorization"
    ∷ codes "auth"
    ∷ codes "credential"
    ∷ codes "credentials"
    ∷ codes "private_key"
    ∷ codes "privatekey"
    ∷ codes "access_token"
    ∷ codes "refresh_token"
    ∷ []

unfoldable pub is_sensitive : Text → Bool
is_sensitive key = text_in (lower key) sensitive_fields

abbrev pub mask : Value
mask = str (codes "***")

-- the number is how many levels are left before the recursion stops
unfoldable mutual
  pub redact_fields : ℕ → Fields → Fields
  redact_fields zero d = d
  redact_fields (suc left) end = end
  redact_fields (suc left) (field k v d) =
      let inside = redact_value left v in
      field k (if is_sensitive k then mask else inside) (redact_fields (suc left) d)

  pub redact_value : ℕ → Value → Value
  redact_value left (dict d) = dict (redact_fields left d)
  redact_value left (list vs) = list (redact_items left vs)
  redact_value left (tuple vs) = tuple vs
  redact_value left null = null
  redact_value left (bool b) = bool b
  redact_value left (num n) = num n
  redact_value left (str t) = str t

  pub redact_items : ℕ → Items → Items
  redact_items zero vs = vs
  redact_items (suc left) nil = nil
  redact_items (suc left) (cons v vs) = cons (redact_value left v) (redact_items (suc left) vs)

abbrev pub max_redact_depth : ℕ
max_redact_depth = 32

unfoldable pub minimal_redact : Fields → Fields
unfolding redact_fields
minimal_redact d = redact_fields max_redact_depth d

pub data RedactMode : Type 0 where
  inherit minimal no_redaction : RedactMode

pub data Payload : Type 0 where
  plain : Fields → Payload
  serialized : Text → Payload

-- what stderr gets: the JSON of a value, or a text
pub data Written : Type 0 where
  json : Value → Written
  raw : Text → Written

unfoldable pub written_parsed : (Text → Text) → Text → Option Value → Written
unfolding minimal_redact
written_parsed scrub view none = raw (scrub view)
written_parsed scrub view (some (dict d)) = json (dict (minimal_redact d))
written_parsed scrub view (some v) = json v

unfoldable pub write_to_stderr :
    (Text → Option Value) → (Text → Text) → RedactMode → Payload → Written
unfolding minimal_redact written_parsed
write_to_stderr loads scrub minimal (plain d) = json (dict (minimal_redact d))
write_to_stderr loads scrub minimal (serialized view) = written_parsed scrub view (loads view)
write_to_stderr loads scrub _ (plain d) = json (dict d)
write_to_stderr loads scrub _ (serialized view) = raw view
