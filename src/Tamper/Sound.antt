-- ===== src/Tamper/Sound.antt =====
-- What a valid report of `verify_file` means.
use fapilog.Prelude.{
  ℕ, ◌≡◌, ◌↔◌, ◌&&◌, refl, sym, ap, Bool, true, false, Option, none, some, List, [], ◌∷◌, ◌++◌,
  subst,
}
use fapilog.Tamper.Record.{Bytes, Crypto, LogRecord, genesis_hash}
use fapilog.Tamper.Verify.{
  KeyStore, VerifyError, VerifyReport, Signing, verify_file, checked_report, report, verify_chain,
  start_seq, first_prev, is_empty, check_records, check_with, add_verdict, add_missing,
  verify_record, algo_of, key_id_or_empty,
}
use fapilog.Tamper.Links.{IsLinked, chain_errors_sound, chain_errors_complete}
use fapilog.Tamper.Authentic.{AllAuthentic, check_records-authentic}

abbrev Checked : Type 0
Checked = Option (List VerifyError × ℕ)

-- no errors so far
abbrev IsClean : Checked → Type 0
IsClean none = ⊥
IsClean (some (errors, n)) = errors ≡ []

add_verdict-IsClean :
    (r : LogRecord) (o : Option Bool) (rest : Checked)
    → IsClean (add_verdict r o rest)
    → (o ≡ some true) × IsClean rest
unfolding add_verdict
add_verdict-IsClean r none rest h = absurd h
add_verdict-IsClean r (some b) none h = absurd h
add_verdict-IsClean r (some true) (some (errors, n)) h = (refl, h)
add_verdict-IsClean r (some false) (some (errors, n)) h = absurd cc

add_missing-IsClean : (r : LogRecord) (rest : Checked) → IsClean (add_missing r rest) → ⊥
unfolding add_missing
add_missing-IsClean r none h = h
add_missing-IsClean r (some (errors, n)) h = cc

check_with-IsClean :
    (cr : Crypto) (r : LogRecord) (o : Option Bytes) (rest : Checked)
    → IsClean (check_with cr r o rest)
    → ((k : ℕ) × (key : Bytes) × (o ≡ some (k ∷ key))
        × (verify_record cr r (k ∷ key) (algo_of r.integrity) ≡ some true))
      × IsClean rest
unfolding check_with
check_with-IsClean cr r none rest h = absurd (add_missing-IsClean r rest h)
check_with-IsClean cr r (some []) rest h = absurd (add_missing-IsClean r rest h)
check_with-IsClean cr r (some (k ∷ key)) rest h =
    let (v, c) =
      add_verdict-IsClean r (verify_record cr r (k ∷ key) (algo_of r.integrity)) rest h in
    ((k, key, refl, v), c)

check_records_sound :
    (cr : Crypto) (keys : KeyStore) (records : List LogRecord)
    → IsClean (check_records cr keys records)
    → AllAuthentic cr keys records
unfolding check_records
check_records_sound cr keys [] h = tt
check_records_sound cr keys (r ∷ records) h =
    let (a, c) =
      check_with-IsClean cr r (keys (key_id_or_empty r.integrity)) (check_records cr keys records)
        h in
    (a, check_records_sound cr keys records c)

is_empty-append : (xs ys : List VerifyError) → is_empty (xs ++ ys) ≡ true → (xs ≡ []) × (ys ≡ [])
is_empty-append [] [] h = (refl, refl)
is_empty-append [] (y ∷ ys) h = cc
is_empty-append (x ∷ xs) ys h = cc

and_true : (b : Bool) → (b && true) ≡ true → b ≡ true
and_true true h = refl
and_true false h = h

-- a report that says that the file is valid
abbrev pub IsValid : Option VerifyReport → Type 0
IsValid none = ⊥
IsValid (some v) = v.valid ≡ true

checked_report-IsValid :
    (g : Signing) (keys : KeyStore) (records : List LogRecord) (o : Checked)
    → IsValid (checked_report g keys records none o)
    → IsClean o × (verify_chain g.crypto records none (start_seq records) ≡ [])
unfolding checked_report report
checked_report-IsValid g keys records none h = absurd h
checked_report-IsValid g keys records (some (errors, n)) h =
    is_empty-append errors (verify_chain g.crypto records none (start_seq records)) (and_true _ h)

-- `verify_file` without a manifest reports a file as valid exactly when the key of each record is
-- known and its MAC is that of its fields, and the stored numbers and hashes link the records, from
-- the number of the first one and from the genesis on.
pub verify_file_iff :
    (g : Signing) (keys : KeyStore) (records : List LogRecord)
    → IsValid (verify_file g keys records none) ↔ (
        AllAuthentic g.crypto keys records
        × IsLinked (g.crypto.b64url_encode genesis_hash) (start_seq records) records)
unfolding verify_file verify_chain first_prev checked_report report
verify_file_iff g keys records = (
  λ h.
      let (c, e) = checked_report-IsValid g keys records (check_records g.crypto keys records) h in
      (
        check_records_sound g.crypto keys records c,
        chain_errors_sound (g.crypto.b64url_encode genesis_hash) (start_seq records) records e,
      ),
  λ h.
      subst (λ o. IsValid (checked_report g keys records none o))
        (sym (check_records-authentic g.crypto keys records h.0))
        (ap (λ l. is_empty ([] ++ l) && true)
          (chain_errors_complete (g.crypto.b64url_encode genesis_hash) (start_seq records) records
            h.1)),
)
