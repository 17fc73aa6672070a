-- ===== src/Tamper/Rotations.antt =====
-- Events that pass the integrity enricher and the sealed sink, with rotations between them: every
-- file that is closed verifies against its manifest.
use fapilog.Prelude.{
  ℕ, ◌≡◌, ◌≢◌, refl, sym, ap, ◌∙◌, true, Option, none, some, List, [], ◌∷◌, ◌++◌, length, Text,
  subst, All,
}
use fapilog.Prelude.Value.{Fields}
use fapilog.Tamper.Record.{Bytes, Crypto, ChainState, LogRecord}
use fapilog.Tamper.Enricher.{IntegrityEnricher, Enriched, enrich, state_of}
use fapilog.Tamper.Verify.{
  KeyStore, Manifest, Signing, verify_file, first_prev, last_hash, chain_hash_or_empty,
}
use fapilog.Tamper.Sealed.{
  FileMetadata, SealedSink, rotate, emit_manifest, emit_from, next_root, noted,
}
use fapilog.Tamper.Authentic.{enrich_all, IsStep, written_record, enrich-IsStep}
use fapilog.Tamper.Written.{IsKeyed, last_link}
use fapilog.Tamper.Reports.{clean_report}
use fapilog.Tamper.Signed.{IsCodec, IsSigner}
use fapilog.Tamper.Notes.{
  AllRooted, notes-Roots, noted-Roots, last_hash-last_link, opened, write_all, IsKeeping,
}

step-AllRooted :
    (cr : Crypto) (keys : KeyStore) (k : ℕ) (key : Bytes) (s : ChainState) (event : Fields)
    (e : IntegrityEnricher) (x : Enriched) (records : List LogRecord)
    → IsCodec cr
    → IsStep cr keys k key s event (e, x)
    → AllRooted cr records
    → AllRooted cr (written_record event x ++ records)
step-AllRooted cr keys k key s event e x records c' (i, w, y, z, a, b, c, d, v, (u, p)) h =
    subst (λ x. AllRooted cr (written_record event x ++ records)) (sym w)
      (
        (
          (state_of e.state).prev_chain_hash,
          (i, refl, c, subst (λ t. t ≢ []) (sym p) (c'.hashes u)),
        ),
        h,
      )

pub enrich_all-AllRooted :
    (cr : Crypto) (keys : KeyStore) (k : ℕ) (key : Bytes) (e : IntegrityEnricher)
    (events : List (Text × Fields))
    → IsCodec cr
    → IsKeyed keys k key e
    → AllRooted cr (enrich_all cr e events).1
enrich_all-AllRooted cr keys k key e [] c h = tt
enrich_all-AllRooted cr keys k key e ((now, event) ∷ events) c (h, a) =
    let r = enrich cr e now event in
    let step = enrich-IsStep cr keys k key e now event c.decodes h a in
    step-AllRooted cr keys k key (state_of e.state) event r.0 r.1 (enrich_all cr r.0 events).1 c
      step (enrich_all-AllRooted cr keys k key r.0 events c (step.2, step.3))

-- one file: events, their records written, and a rotation
abbrev pub one_file :
    Signing
    → Text
    → Text
    → IntegrityEnricher × SealedSink
    → List (Text × Fields)
    → IntegrityEnricher × SealedSink
one_file g filename now (e, s) events =
    let r = enrich_all g.crypto e events in
    (r.0, rotate g (write_all g.crypto s filename now r.1) filename now)

abbrev pub run_files :
    Signing
    → Text
    → Text
    → IntegrityEnricher × SealedSink
    → List (List (Text × Fields))
    → IntegrityEnricher × SealedSink
run_files g filename now p [] = p
run_files g filename now p (events ∷ files) =
    run_files g filename now (one_file g filename now p events) files

-- a closed file is valid against its manifest, and the manifest against its signature
abbrev pub IsVerified : Signing → KeyStore → List LogRecord × Manifest → Type 0
IsVerified g keys (records, m) =
    verify_file g keys records (some m)
    ≡ some (clean_report (length records) (some true) (some true))

-- a sink whose new file continues where the enricher stands
abbrev pub IsContinuing : Signing → KeyStore → ℕ → Bytes → IntegrityEnricher → SealedSink → Type 0
IsContinuing g keys k key e s =
    (f : FileMetadata) × (s.current_file ≡ some f)
    × (s.inner ≡ [])
    × (f.record_count ≡ 0)
    × (f.root_chain_hash ≡ none)
    × (f.continues_from ≡ s.previous_root)
    × (first_prev g.crypto s.previous_root
        ≡ g.crypto.b64url_encode (state_of e.state).prev_chain_hash)
    × IsKeyed keys k key e
    × IsSigner keys k key s
    × IsKeeping s
    × All (IsVerified g keys) s.emitted

pub opened-IsSigner :
    (keys : KeyStore) (k : ℕ) (key : Bytes) (s : SealedSink) (f : FileMetadata)
    (records : List LogRecord)
    → IsSigner keys k key s
    → IsSigner keys k key (opened s f records)
opened-IsSigner keys k key s f records i = record {
  algorithm = i.algorithm;
  local = i.local;
  signs = i.signs;
  links = i.links;
  has_key = i.has_key;
  named = i.named;
  known = i.known;
}

pub rotate-IsSigner :
    (g : Signing) (keys : KeyStore) (k : ℕ) (key : Bytes) (s : SealedSink) (f : FileMetadata)
    (records : List LogRecord) (filename now : Text)
    → IsSigner keys k key s
    → IsSigner keys k key (rotate g (opened s f records) filename now)
unfolding rotate emit_manifest emit_from
rotate-IsSigner g keys k key s f records filename now i = record {
  algorithm = i.algorithm;
  local = i.local;
  signs = i.signs;
  links = i.links;
  has_key = i.has_key;
  named = i.named;
  known = i.known;
}

first_prev-some :
    (cr : Crypto) (old : Option Text) (t : Text)
    → t ≢ []
    → first_prev cr (next_root old (some t)) ≡ t
unfolding first_prev next_root
first_prev-some cr old [] n = absurd (n refl)
first_prev-some cr old (c ∷ t) n = refl

-- the next file names the last hash of this one, or what this one named if it is empty
pub next_root-last_link :
    (cr : Crypto) (old : Option Text) (t : Text) (f : FileMetadata) (records : List LogRecord)
    → IsCodec cr
    → AllRooted cr records
    → first_prev cr old ≡ t
    → first_prev cr (next_root old (last_hash records)) ≡ last_link t records
unfolding next_root last_hash
next_root-last_link cr old t f [] c h e = e
next_root-last_link cr old t f (r ∷ records) c (x, h) e =
    let (b, p, q, n) =
      notes-Roots cr (noted cr f r) (chain_hash_or_empty r.integrity) records c h
        (noted-Roots cr f r c x) in
    ap (λ o. first_prev cr (next_root old o)) (last_hash-last_link cr t r records (x, h))
    ∙ first_prev-some cr old (last_link t (r ∷ records))
        (subst (λ u. u ≢ []) (sym q) (c.encodes b n))
