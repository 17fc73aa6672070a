-- ===== src/Tamper/Forgotten.antt =====
-- A sealed sink over an inner sink that writes records without the integrity field, as
-- RotatingFileSink does.
use fapilog.Prelude.{
  ◌≡◌, refl, sym, ap, ◌∙◌, false, true, none, some, List, [], ◌∷◌, ◌++◌, Text, append_assoc,
  append-nil, subst,
}
use mathlib.Core.Option.{some-injective}
use fapilog.Tamper.Record.{Crypto, LogRecord}
use fapilog.Tamper.Verify.{KeyStore, Signing, verify_file, verify_record, algo_of}
use fapilog.Tamper.Sealed.{SealedSink, write}
use fapilog.Tamper.Authentic.{IsAuthentic}
use fapilog.Tamper.Notes.{write_all}
use fapilog.Tamper.Sound.{IsValid, verify_file_iff}

-- writes only add to the file
write_all-inner :
    (cr : Crypto) (s : SealedSink) (filename now : Text) (records : List LogRecord)
    → (rest : List LogRecord) × ((write_all cr s filename now records).inner ≡ s.inner ++ rest)
unfolding write
write_all-inner cr s filename now [] = ([], sym (append-nil s.inner))
write_all-inner cr s filename now (r ∷ records) =
    let (rest, e) = write_all-inner cr (write cr s filename now r) filename now records in
    (s.kept r ++ rest, e ∙ append_assoc s.inner (s.kept r) rest)

bare-unauthentic :
    (cr : Crypto) (keys : KeyStore) (r : LogRecord) → r.integrity ≡ none → IsAuthentic cr keys r → ⊥
unfolding verify_record
bare-unauthentic cr keys r e (k, key, known, v) =
    let f : verify_record cr r (k ∷ key) (algo_of r.integrity) ≡ some false = rw e refl in
    let g : false ≡ true = some-injective false true (sym f ∙ v) in cc

-- The first record that such an inner sink is handed makes its file fail the verification, whatever
-- is written after it.
pub forgotten_fails :
    (g : Signing) (keys : KeyStore) (s : SealedSink) (filename now : Text) (r bare : LogRecord)
    (records : List LogRecord)
    → s.inner ≡ []
    → s.kept r ≡ bare ∷ []
    → bare.integrity ≡ none
    → IsValid (verify_file g keys (write_all g.crypto s filename now (r ∷ records)).inner none)
    → ⊥
unfolding write
forgotten_fails g keys s filename now r bare records i k e h =
    let (rest, w) =
      write_all-inner g.crypto (write g.crypto s filename now r) filename now records in
    let file : (write_all g.crypto s filename now (r ∷ records)).inner ≡ bare ∷ rest =
      w ∙ ap (λ x. (x ++ s.kept r) ++ rest) i ∙ ap (λ x. x ++ rest) k in
    bare-unauthentic g.crypto keys bare e
      ((verify_file_iff g keys (bare ∷ rest)).0
        (subst (λ x. IsValid (verify_file g keys x none)) file h)).0.0
