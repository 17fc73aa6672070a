-- ===== src/Tamper/Relink.antt =====
-- Records that are linked anew without any key.
use fapilog.Prelude.{
  ℕ, suc, ◌+◌, ◌≡◌, refl, sym, ap, ◌∙◌, Option, none, some, List, [], ◌∷◌, length, Text, subst,
  arith,
}
use fapilog.Prelude.Value.{Fields}
use fapilog.Tamper.Record.{Crypto, Integrity, LogRecord, genesis_hash}
use fapilog.Tamper.Verify.{
  KeyStore, Signing, verify_file, verify_record, algo_of, seq_or, prev_or_empty,
  chain_hash_or_empty,
}
use fapilog.Tamper.Links.{IsLinked}
use fapilog.Tamper.Authentic.{IsAuthentic, AllAuthentic}
use fapilog.Tamper.Reports.{clean_report, verify_file_clean}

-- the same payloads and MACs with new numbers and made-up hashes
abbrev pub relink_one : Text → ℕ → Text → Option Integrity → Option Integrity
relink_one prev n hash none = none
relink_one prev n hash (some i) =
    some (record i { seq = n; chain_hash = hash; prev_chain_hash = prev })

abbrev pub relink : Text → ℕ → (ℕ → Text) → List LogRecord → List LogRecord
relink prev n hash [] = []
relink prev n hash (r ∷ records) =
    record r { integrity = relink_one prev n (hash n) r.integrity }
    ∷ relink (hash n) (n + 1) hash records

relink_one-IsAuthentic :
    (cr : Crypto) (keys : KeyStore) (prev : Text) (n : ℕ) (hash : Text) (payload : Fields)
    (i : Option Integrity)
    → IsAuthentic cr keys (record { payload = payload; integrity = i })
    → IsAuthentic cr keys (record { payload = payload; integrity = relink_one prev n hash i })
unfolding verify_record algo_of
relink_one-IsAuthentic cr keys prev n hash payload none h = h
relink_one-IsAuthentic cr keys prev n hash payload (some i) h = h

-- a record without an integrity field is not authentic
authentic-some :
    (cr : Crypto) (keys : KeyStore) (prev : Text) (n : ℕ) (hash : Text) (payload : Fields)
    (i : Option Integrity)
    → IsAuthentic cr keys (record { payload = payload; integrity = i })
    → (seq_or 0 (relink_one prev n hash i) ≡ n)
      × (prev_or_empty (relink_one prev n hash i) ≡ prev)
      × (chain_hash_or_empty (relink_one prev n hash i) ≡ hash)
unfolding verify_record
authentic-some cr keys prev n hash payload none (k, key, e, v) = absurd cc
authentic-some cr keys prev n hash payload (some i) h = (refl, refl, refl)

relink-AllAuthentic :
    (cr : Crypto) (keys : KeyStore) (prev : Text) (n : ℕ) (hash : ℕ → Text)
    (records : List LogRecord)
    → AllAuthentic cr keys records
    → AllAuthentic cr keys (relink prev n hash records)
      × IsLinked prev n (relink prev n hash records)
relink-AllAuthentic cr keys prev n hash [] h = (tt, tt)
relink-AllAuthentic cr keys prev n hash (r ∷ records) (a, h) =
    let i = relink_one prev n (hash n) r.integrity in
    let (x, y, z) = authentic-some cr keys prev n (hash n) r.payload r.integrity a in
    let (b, l) = relink-AllAuthentic cr keys (hash n) (n + 1) hash records h in
    (
      (relink_one-IsAuthentic cr keys prev n (hash n) r.payload r.integrity a, b),
      (x, y, subst (λ t. IsLinked t (n + 1) (relink (hash n) (n + 1) hash records)) (sym z) l),
    )

length-relink :
    (prev : Text) (n : ℕ) (hash : ℕ → Text) (records : List LogRecord)
    → length (relink prev n hash records) ≡ length records
length-relink prev n hash [] = refl
length-relink prev n hash (r ∷ records) = ap suc (length-relink (hash n) (n + 1) hash records)

-- Any list of records whose MACs verify, be it a log with records left out, repeated or in another
-- order, passes `verify_file` without an error once its numbers and hashes are written anew, with
-- made-up hashes and without a key: MACs do not cover them and chain hashes are not computed again.
pub relinked_passes :
    (g : Signing) (keys : KeyStore) (hash : ℕ → Text) (records : List LogRecord)
    → AllAuthentic g.crypto keys records
    → verify_file g keys (relink (g.crypto.b64url_encode genesis_hash) 1 hash records) none
      ≡ some (clean_report (length records) none none)
relinked_passes g keys hash records h =
    let prev = g.crypto.b64url_encode genesis_hash in
    let (a, l) = relink-AllAuthentic g.crypto keys prev 1 hash records h in
    verify_file_clean g keys 1 (relink prev 1 hash records) a (omega arith) l
    ∙ ap (λ n. some (clean_report n none none)) (length-relink prev 1 hash records)
