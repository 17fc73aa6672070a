-- ===== src/Tamper/Reports.antt =====
-- What `verify_file` reports on records that are authentic and linked.
use fapilog.Prelude.{
  ℕ, ◌+◌, ◌≤◌, ◌≡◌, refl, sym, ap, ◌∙◌, Bool, true, Option, none, some, List, [], ◌∷◌, length, Text,
  subst, arith,
}
use fapilog.Prelude.Value.{Fields}
use fapilog.Tamper.Record.{Bytes, Integrity, LogRecord, genesis_hash}
use fapilog.Tamper.Enricher.{IntegrityEnricher, state_of, genesis}
use fapilog.Tamper.Verify.{
  KeyStore, VerifyError, VerifyReport, Signing, verify_file, checked_report, report, verify_chain,
  chain_errors, start_seq, first_prev, Manifest, verify_manifest, with_manifest, seq_or,
  not_refuted,
}
use fapilog.Tamper.Links.{IsLinked, chain_errors_complete}
use fapilog.Tamper.Authentic.{AllAuthentic, check_records-authentic, enrich_all}
use fapilog.Tamper.Written.{IsKeyed, enrich_all-IsSegment}

-- a report without errors on `n` records
abbrev pub clean_report : ℕ → Option Bool → Option Bool → VerifyReport
clean_report n manifest_valid signature = record {
  valid = true;
  records_checked = n;
  records_valid = n;
  records_invalid = 0;
  chain_valid = true;
  manifest_valid = manifest_valid;
  manifest_signature_valid = signature;
  errors = [];
}

start_eq : (i : Option Integrity) (n : ℕ) → 1 ≤ n → seq_or 0 i ≡ n → n ≡ seq_or 1 i
start_eq none n p h = absurd (omega (arith, p, h))
start_eq (some i) n p h = sym h

pub linked-start :
    (prev : Text) (n : ℕ) (records : List LogRecord)
    → 1 ≤ n
    → IsLinked prev n records
    → chain_errors prev (start_seq records) records ≡ []
unfolding start_seq
linked-start prev n [] p h = chain_errors_complete prev 1 [] tt
linked-start prev n (r ∷ records) p h =
    chain_errors_complete prev (seq_or 1 r.integrity) (r ∷ records)
      (subst (λ m. IsLinked prev m (r ∷ records)) (start_eq r.integrity n p h.0) h)

pub clean-report :
    (n : ℕ) (errors : List VerifyError) (manifest_valid signature : Option Bool)
    → errors ≡ []
    → not_refuted manifest_valid ≡ true
    → report n [] n errors manifest_valid signature ≡ clean_report n manifest_valid signature
unfolding report
clean-report n errors mv s h v =
    rw (h, v) (ap (λ d. record (clean_report n mv s) { records_invalid = d }) (omega arith))

-- linked, authentic records without a manifest
pub verify_file_clean :
    (g : Signing) (keys : KeyStore) (n : ℕ) (records : List LogRecord)
    → AllAuthentic g.crypto keys records
    → 1 ≤ n
    → IsLinked (g.crypto.b64url_encode genesis_hash) n records
    → verify_file g keys records none ≡ some (clean_report (length records) none none)
unfolding verify_file checked_report verify_chain first_prev
verify_file_clean g keys n records a p l =
    ap (checked_report g keys records none) (check_records-authentic g.crypto keys records a)
    ∙ ap some (
        clean-report (length records)
          (chain_errors (g.crypto.b64url_encode genesis_hash) (start_seq records) records) none none
          (linked-start (g.crypto.b64url_encode genesis_hash) n records p l) refl)

-- linked, authentic records with the manifest that fits
pub verify_file_sealed :
    (g : Signing) (keys : KeyStore) (n : ℕ) (records : List LogRecord) (m : Manifest)
    (signed : Bool)
    → AllAuthentic g.crypto keys records
    → 1 ≤ n
    → IsLinked (first_prev g.crypto m.continues_from) n records
    → verify_manifest g keys m records ≡ some (true, signed)
    → verify_file g keys records (some m)
      ≡ some (clean_report (length records) (some true) (some signed))
unfolding verify_file checked_report with_manifest verify_chain
verify_file_sealed g keys n records m signed a p l v =
    ap (checked_report g keys records (some m)) (check_records-authentic g.crypto keys records a)
    ∙ (ap (with_manifest g records m ([], length records)) v
        ∙ ap some (
            clean-report (length records)
              (chain_errors (first_prev g.crypto m.continues_from) (start_seq records) records)
              (some true) (some signed)
              (linked-start (first_prev g.crypto m.continues_from) n records p l) refl))

-- The file of any events that a keyed enricher handles from the start of its chain is verified
-- without an error, every record valid, when the key store has the enricher's key and base64
-- decodes what it encodes.
pub verify_file-enrich_all :
    (g : Signing) (keys : KeyStore) (k : ℕ) (key : Bytes) (e : IntegrityEnricher)
    (events : List (Text × Fields))
    → ((x : Bytes) → g.crypto.b64url_decode (g.crypto.b64url_encode x) ≡ some x)
    → IsKeyed keys k key e
    → state_of e.state ≡ genesis
    → let records = (enrich_all g.crypto e events).1 in
      verify_file g keys records none ≡ some (clean_report (length records) none none)
unfolding genesis
verify_file-enrich_all g keys k key e events dec h s =
    let r = enrich_all g.crypto e events in
    let (l, a, x, y, z) = enrich_all-IsSegment g.crypto keys k key e events dec h in
    verify_file_clean g keys 1 r.1 a (omega arith)
      (subst (λ s. IsLinked (g.crypto.b64url_encode s.prev_chain_hash) (s.seq + 1) r.1) s l)
