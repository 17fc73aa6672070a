-- ===== src/Tamper/Links.antt =====
-- What `verify_chain` of the tamper package accepts: the stored links, and nothing else.
use fapilog.Prelude.{
  ℕ, ◌+◌, ◌≡◌, refl, sym, ap, ◌∙◌, ◌↔◌, Option, List, [], ◌∷◌, ◌++◌, Text, text_eq_iff, arith,
}
use fapilog.Tamper.Record.{LogRecord, Crypto}
use fapilog.Tamper.Verify.{
  VerifyError, seq_or, prev_or_empty, chain_hash_or_empty, gap_error, break_error, chain_errors,
  verify_chain, first_prev,
}

-- consecutive numbers from `n` on, each record naming the stored chain hash of the one before
abbrev pub IsLinked : Text → ℕ → List LogRecord → Type 0
IsLinked prev n [] = Unit
IsLinked prev n (r ∷ records) =
    (seq_or 0 r.integrity ≡ n)
    × (prev_or_empty r.integrity ≡ prev)
    × IsLinked (chain_hash_or_empty r.integrity) (n + 1) records

gap_error-ok :
    (n seq : ℕ) (rest : List VerifyError) → gap_error n seq ++ rest ≡ [] → (seq ≡ n) × (rest ≡ [])
unfolding gap_error
gap_error-ok n seq rest h = ground arith

break_error-ok :
    (seq : ℕ) (expected actual : Text) (rest : List VerifyError)
    → break_error seq expected actual ++ rest ≡ []
    → (actual ≡ expected) × (rest ≡ [])
unfolding break_error
break_error-ok seq expected actual rest h = ground (arith, text_eq_iff actual expected)

pub chain_errors_sound :
    (prev : Text) (n : ℕ) (records : List LogRecord)
    → chain_errors prev n records ≡ []
    → IsLinked prev n records
unfolding chain_errors
chain_errors_sound prev n [] h = tt
chain_errors_sound prev n (r ∷ records) h =
    let i = r.integrity in
    let rest = chain_errors (chain_hash_or_empty i) (seq_or 0 i + 1) records in
    let breaks = break_error (seq_or 0 i) prev (prev_or_empty i) in
    let (a, h') = gap_error-ok n (seq_or 0 i) (breaks ++ rest) h in
    let (b, h'') = break_error-ok (seq_or 0 i) prev (prev_or_empty i) rest h' in
    (
      a,
      b,
      chain_errors_sound (chain_hash_or_empty i) (n + 1) records
          (ap (λ m. chain_errors (chain_hash_or_empty i) (m + 1) records) (sym a) ∙ h''),
    )

gap_error-none : (n : ℕ) → gap_error n n ≡ []
unfolding gap_error
gap_error-none n = ground arith

break_error-none : (seq : ℕ) (t : Text) → break_error seq t t ≡ []
unfolding break_error
break_error-none seq t = ground (arith, text_eq_iff t t)

pub chain_errors_complete :
    (prev : Text) (n : ℕ) (records : List LogRecord)
    → IsLinked prev n records
    → chain_errors prev n records ≡ []
unfolding chain_errors
chain_errors_complete prev n [] h = refl
chain_errors_complete prev n (r ∷ records) (a, b, h) =
    rw
      (
        a,
        b,
        gap_error-none n,
        break_error-none n prev,
        chain_errors_complete (chain_hash_or_empty r.integrity) (n + 1) records h,
      )
      refl

-- `verify_chain` finds no error exactly when the stored numbers follow each other from the expected
-- one and each record repeats the stored chain hash of the one before, the first the expected hash
-- (or the hash of the genesis); no chain hash is computed again.
pub verify_chain-IsLinked :
    (cr : Crypto) (records : List LogRecord) (prev : Option Text) (n : ℕ)
    → (verify_chain cr records prev n ≡ []) ↔ IsLinked (first_prev cr prev) n records
unfolding verify_chain
verify_chain-IsLinked cr records prev n = (
  chain_errors_sound (first_prev cr prev) n records,
  chain_errors_complete (first_prev cr prev) n records,
)
