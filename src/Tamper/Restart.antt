-- ===== src/Tamper/Restart.antt =====
-- Chains over a restart of the enricher, and files that do not start at the genesis.
use fapilog.Prelude.{
  ℕ, ◌+◌, ◌≡◌, ◌≢◌, refl, sym, ap, ◌∙◌, true, false, none, some, List, [], ◌∷◌, ◌++◌, length, Text,
  subst, arith, ◌&&◌,
}
use fapilog.Prelude.Value.{Fields}
use fapilog.Tamper.Record.{Bytes, Crypto, ChainState, LogRecord, genesis_hash}
use fapilog.Tamper.Enricher.{
  IntegrityEnricher, state_of, genesis, save, load, decoded_state, start, stop,
}
use fapilog.Tamper.Verify.{
  KeyStore, VerifyError, VerifyReport, Signing, verify_file, checked_report, report, verify_chain,
  chain_errors, start_seq, first_prev, chain_hash_or_empty, prev_or_empty, is_empty,
}
use fapilog.Tamper.Links.{IsLinked, chain_errors_sound}
use fapilog.Tamper.Authentic.{AllAuthentic, enrich_all, check_records-authentic}
use fapilog.Tamper.Written.{IsKeyed, enrich_all-IsSegment, last_link}
use fapilog.Tamper.Reports.{clean_report, verify_file_clean}

-- The state that is saved is the state that is loaded, when base64 decodes what it encodes.
pub load-save :
    (cr : Crypto) (s : ChainState)
    → ((x : Bytes) → cr.b64url_decode (cr.b64url_encode x) ≡ some x)
    → load cr (some (save cr s)) ≡ s
unfolding load save decoded_state
load-save cr s dec = ap (decoded_state (save cr s)) (dec s.prev_chain_hash)

pub IsLinked-append :
    (prev : Text) (n : ℕ) (xs ys : List LogRecord)
    → IsLinked prev n xs
    → IsLinked (last_link prev xs) (n + length xs) ys
    → IsLinked prev n (xs ++ ys)
IsLinked-append prev n [] ys h k = subst (λ m. IsLinked prev m ys) (omega arith) k
IsLinked-append prev n (x ∷ xs) ys (a, b, h) k = (
  a,
  b,
  IsLinked-append (chain_hash_or_empty x.integrity) (n + 1) xs ys h
      (subst (λ m. IsLinked (last_link (chain_hash_or_empty x.integrity) xs) m ys) (omega arith) k),
)

AllAuthentic-append :
    (cr : Crypto) (keys : KeyStore) (xs ys : List LogRecord)
    → AllAuthentic cr keys xs
    → AllAuthentic cr keys ys
    → AllAuthentic cr keys (xs ++ ys)
AllAuthentic-append cr keys [] ys h k = k
AllAuthentic-append cr keys (x ∷ xs) ys (a, h) k = (a, AllAuthentic-append cr keys xs ys h k)

-- the enricher of the next process, after this one's stop
abbrev pub restarted : Crypto → IntegrityEnricher → IntegrityEnricher → IntegrityEnricher
restarted cr e next = start cr next (stop cr e none).1

restarted-state :
    (cr : Crypto) (e next : IntegrityEnricher) (s : ChainState)
    → ((x : Bytes) → cr.b64url_decode (cr.b64url_encode x) ≡ some x)
    → e.state ≡ some s
    → ((state_of (restarted cr e next).state).prev_chain_hash ≡ s.prev_chain_hash)
      × ((state_of (restarted cr e next).state).seq ≡ s.seq)
unfolding start stop state_of
restarted-state cr e next s dec h =
    let file =
      ap (λ o. load cr (elim o [ none ↦ none | some s ↦ some (save cr s) ])) h
      ∙ load-save cr s dec in
    (ap (λ s. s.prev_chain_hash) file, ap (λ s. s.seq) file)

-- The records of an enricher from the start of its chain and those of its successor after a stop and
-- a start, under any configuration whose key is found and known, form one file that is verified
-- without an error, when base64 decodes what it encodes.
pub restarted_verifies :
    (g : Signing) (keys : KeyStore) (k k' : ℕ) (key key' : Bytes) (e next : IntegrityEnricher)
    (events events' : List (Text × Fields)) (s : ChainState)
    → ((x : Bytes) → g.crypto.b64url_decode (g.crypto.b64url_encode x) ≡ some x)
    → IsKeyed keys k key e
    → state_of e.state ≡ genesis
    → (enrich_all g.crypto e events).0.state ≡ some s
    → IsKeyed keys k' key' (restarted g.crypto (enrich_all g.crypto e events).0 next)
    → let r = enrich_all g.crypto e events in
      let r' = enrich_all g.crypto (restarted g.crypto r.0 next) events' in
      verify_file g keys (r.1 ++ r'.1) none ≡ some (clean_report (length (r.1 ++ r'.1)) none none)
unfolding genesis state_of
restarted_verifies g keys k k' key key' e next events events' s dec h z t h' =
    let cr = g.crypto in
    let r = enrich_all cr e events in
    let e' = restarted cr r.0 next in
    let r' = enrich_all cr e' events' in
    let (l, a, x, y, n) = enrich_all-IsSegment cr keys k key e events dec h in
    let (l', a', x', y', n') = enrich_all-IsSegment cr keys k' key' e' events' dec h' in
    let (p, q) = restarted-state cr r.0 next s dec t in
    let prev = cr.b64url_encode (state_of e.state).prev_chain_hash in
    let hash : cr.b64url_encode (state_of e'.state).prev_chain_hash ≡ last_link prev r.1 =
      ap cr.b64url_encode (p ∙ sym (ap (λ o. (state_of o).prev_chain_hash) t)) ∙ sym y in
    let number : (state_of e'.state).seq + 1 ≡ (state_of e.state).seq + 1 + length r.1 =
      omega (arith, q, ap (λ o. (state_of o).seq) t, n) in
    let whole : IsLinked prev ((state_of e.state).seq + 1) (r.1 ++ r'.1) =
      IsLinked-append prev ((state_of e.state).seq + 1) r.1 r'.1 l (
        subst (λ m. IsLinked (last_link prev r.1) m r'.1) number
          (subst (λ u. IsLinked u ((state_of e'.state).seq + 1) r'.1) hash l')) in
    verify_file_clean g keys 1 (r.1 ++ r'.1) (AllAuthentic-append cr keys r.1 r'.1 a a')
      (omega arith)
      (subst (λ s. IsLinked (cr.b64url_encode s.prev_chain_hash) (s.seq + 1) (r.1 ++ r'.1)) z whole)

break-found : (errors : List VerifyError) → errors ≢ [] → is_empty errors ≡ false
break-found [] h = absurd (h refl)
break-found (e ∷ errors) h = refl

-- A file whose first record continues from anything but the genesis, authentic as its records are,
-- is reported as invalid when it is verified without a manifest that names that origin.
pub unanchored_fails :
    (g : Signing) (keys : KeyStore) (r : LogRecord) (records : List LogRecord)
    → AllAuthentic g.crypto keys (r ∷ records)
    → prev_or_empty r.integrity ≢ g.crypto.b64url_encode genesis_hash
    → (v : VerifyReport) × (verify_file g keys (r ∷ records) none ≡ some v)
      × (v.valid ≡ false)
      × (v.records_invalid ≡ 0)
unfolding verify_file checked_report report verify_chain first_prev
unanchored_fails g keys r records a h =
    let rs = r ∷ records in
    let breaks = chain_errors (g.crypto.b64url_encode genesis_hash) (start_seq rs) rs in
    (
      report (length rs) [] (length rs) breaks none none,
      ap (checked_report g keys rs none) (check_records-authentic g.crypto keys rs a),
      ap (λ b. b && true)
          (break-found breaks (λ e.
            h (chain_errors_sound (g.crypto.b64url_encode genesis_hash) (start_seq rs) rs e).1)),
      omega arith,
    )
