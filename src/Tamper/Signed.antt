-- ===== src/Tamper/Signed.antt =====
-- The manifest of a file: what it says of the file's records, and its signature.
use fapilog.Prelude.{
  ℕ, ◌≡◌, ◌≢◌, refl, ap, ap₂, ◌∙◌, true, false, Option, none, some, List, [], ◌∷◌, length, Text,
  text_eq_refl, text_eq, ◌==◌, if◌then◌else◌, arith, ◌&&◌,
}
use fapilog.Tamper.Record.{Bytes, hmac_sha256, Crypto, LogRecord}
use fapilog.Tamper.Enricher.{Provider}
use fapilog.Tamper.Verify.{
  KeyStore, Manifest, Signing, canonical_manifest_payload, decoded_matches, mac_matches,
  signed_with, key_for, signature_valid, manifest_verdict, verify_manifest, root_eq, last_hash,
}
use fapilog.Tamper.Sealed.{
  FileMetadata, SealConfig, SealedSink, encoded_root, signature_by, sign_manifest, with_signature,
  unsigned, generate, kms_signed, manifest_of,
}

-- what is relied on of the hashes and of base64
pub record IsCodec (cr : Crypto) : Type 0 where
  pub decodes : (x : Bytes) → cr.b64url_decode (cr.b64url_encode x) ≡ some x
  pub hashes : (x : Bytes) → cr.sha256 x ≢ []
  pub macs : (k x : Bytes) → cr.hmac k x ≢ []
  pub encodes : (x : Bytes) → x ≢ [] → cr.b64url_encode x ≢ []

-- a sink that signs with the local key `k ∷ key`, which the key store knows by the same name
pub record IsSigner (keys : KeyStore) (k : ℕ) (key : Bytes) (s : SealedSink) : Type 0 where
  pub algorithm : s.config.algorithm ≡ hmac_sha256
  pub local : s.config.use_kms_signing ≡ false
  pub signs : s.config.sign_manifests ≡ true
  pub links : s.config.rotate_chain ≡ false
  pub has_key : s.key ≡ some (k ∷ key)
  pub named : s.config.key_id ≢ []
  pub known : keys s.config.key_id ≡ some (k ∷ key)

with_signature-some :
    (cr : Crypto) (h : Bytes) (m : Manifest)
    → h ≢ []
    → with_signature cr (some h) m ≡ record m { signature = some (cr.b64url_encode h) }
unfolding with_signature
with_signature-some cr [] m n = absurd (n refl)
with_signature-some cr (b ∷ h) m n = refl

pub encoded_root-some :
    (cr : Crypto) (h : Bytes) → h ≢ [] → encoded_root cr (some h) ≡ some (cr.b64url_encode h)
unfolding encoded_root
encoded_root-some cr [] n = absurd (n refl)
encoded_root-some cr (b ∷ h) n = refl

kms_signed-local :
    (g : Signing) (config : SealConfig) (p : Option Provider) (m : Manifest)
    → config.use_kms_signing ≡ false
    → kms_signed g config p m ≡ m
unfolding kms_signed
kms_signed-local g config none m h = refl
kms_signed-local g config (some p) m h = rw h refl

-- the signature of a file's manifest
abbrev mac_of : Signing → SealConfig → Bytes → FileMetadata → Text → Bytes
mac_of g config key f now =
    g.crypto.hmac key (canonical_manifest_payload g (unsigned g.crypto config f now))

sign_manifest-hmac :
    (g : Signing) (k : ℕ) (key : Bytes) (config : SealConfig) (f : FileMetadata) (now : Text)
    → config.algorithm ≡ hmac_sha256
    → sign_manifest g (some (k ∷ key)) (unsigned g.crypto config f now)
      ≡ some (mac_of g config (k ∷ key) f now)
unfolding sign_manifest unsigned signature_by
sign_manifest-hmac g k key config f now h =
    ap
      (λ a.
        signature_by g.crypto a (k ∷ key)
          (canonical_manifest_payload g (unsigned g.crypto config f now)))
      h

-- the manifest that a signing sink makes
pub manifest_of-signed :
    (g : Signing) (keys : KeyStore) (k : ℕ) (key : Bytes) (s : SealedSink) (f : FileMetadata)
    (now : Text)
    → IsCodec g.crypto
    → IsSigner keys k key s
    → manifest_of g s f now ≡ record (unsigned g.crypto s.config f now) {
      signature = some (g.crypto.b64url_encode (mac_of g s.config (k ∷ key) f now));
    }
unfolding manifest_of generate
manifest_of-signed g keys k key s f now c i =
    let u = unsigned g.crypto s.config f now in
    kms_signed-local g s.config s.provider
      (generate g s.config (if s.config.sign_manifests then s.key else none) f now) i.local
    ∙ (ap (λ b. generate g s.config (if b then s.key else none) f now) i.signs
        ∙ (ap (λ x. generate g s.config x f now) i.has_key
            ∙ (ap (λ x. with_signature g.crypto x u)
                  (sign_manifest-hmac g k key s.config f now i.algorithm)
                ∙ with_signature-some g.crypto (mac_of g s.config (k ∷ key) f now) u
                    (c.macs (k ∷ key) (canonical_manifest_payload g u)))))

signature_valid-signed :
    (g : Signing) (keys : KeyStore) (k : ℕ) (key : Bytes) (m : Manifest) (sig : Text) (mac : Bytes)
    → sig ≢ []
    → key_for keys m.key_id ≡ some (k ∷ key)
    → m.algo ≡ hmac_sha256
    → g.crypto.b64url_decode sig ≡ some mac
    → g.crypto.hmac (k ∷ key) (canonical_manifest_payload g m) ≡ mac
    → signature_valid g keys m (some sig) ≡ some true
unfolding signature_valid signed_with decoded_matches mac_matches
signature_valid-signed g keys k key m [] mac n a b d e = absurd (n refl)
signature_valid-signed g keys k key m (c ∷ sig) mac n a b d e =
    ap (signed_with g m (c ∷ sig)) a
    ∙ (ap
          (λ x.
            decoded_matches g.crypto x (k ∷ key) (canonical_manifest_payload g m)
              (g.crypto.b64url_decode (c ∷ sig)))
          b
        ∙ (ap (decoded_matches g.crypto hmac_sha256 (k ∷ key) (canonical_manifest_payload g m)) d
            ∙ (ap (λ h. some (text_eq mac h)) e ∙ ap some (text_eq_refl mac))))

key_for-named : (keys : KeyStore) (name : Text) → name ≢ [] → key_for keys name ≡ keys name
unfolding key_for
key_for-named keys [] n = absurd (n refl)
key_for-named keys (c ∷ t) n = refl

root_eq_refl : (t : Option Text) → root_eq t t ≡ true
unfolding root_eq
root_eq_refl none = refl
root_eq_refl (some t) = text_eq_refl t

same_count : (a b : ℕ) → a ≡ b → (a == b) ≡ true
same_count a b h = ground arith

-- A manifest with the count and the last hash of the records is right, and so is its signature.
pub manifest_verifies :
    (g : Signing) (keys : KeyStore) (k : ℕ) (key : Bytes) (s : SealedSink) (f : FileMetadata)
    (now : Text) (records : List LogRecord)
    → IsCodec g.crypto
    → IsSigner keys k key s
    → f.record_count ≡ length records
    → encoded_root g.crypto f.root_chain_hash ≡ last_hash records
    → verify_manifest g keys (manifest_of g s f now) records ≡ some (true, true)
unfolding verify_manifest unsigned canonical_manifest_payload
manifest_verifies g keys k key s f now records c i n r =
    let u = unsigned g.crypto s.config f now in
    let mac = mac_of g s.config (k ∷ key) f now in
    let sig = g.crypto.b64url_encode mac in
    let m = record u { signature = some sig } in
    ap (λ x. verify_manifest g keys x records) (manifest_of-signed g keys k key s f now c i)
    ∙ ap₂ manifest_verdict
        (ap₂ ◌&&◌ (ap (λ t. root_eq t (last_hash records)) r ∙ root_eq_refl (last_hash records))
          (same_count f.record_count (length records) n))
        (signature_valid-signed g keys k key m sig mac
          (c.encodes mac (c.macs (k ∷ key) (canonical_manifest_payload g u)))
          (key_for-named keys s.config.key_id i.named ∙ i.known) i.algorithm (c.decodes mac) refl)
