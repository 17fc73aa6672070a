-- ===== src/Tamper/Closed.antt =====
-- The composition of the integrity enricher, the sealed sink and the verifier.
use fapilog.Prelude.{List, [], ◌∷◌, Text, map}
use fapilog.Prelude.Value.{Fields}
use fapilog.Tamper.Record.{Crypto, LogRecord}
use fapilog.Tamper.Enricher.{IntegrityEnricher}
use fapilog.Tamper.Sealed.{SealedSink}
use fapilog.Tamper.Authentic.{enrich_all}

-- the records of the files that the enricher fills
abbrev pub files_of :
    Crypto → IntegrityEnricher → List (List (Text × Fields)) → List (List LogRecord)
files_of cr e [] = []
files_of cr e (events ∷ files) = let r = enrich_all cr e events in r.1 ∷ files_of cr r.0 files

abbrev pub closed_files : SealedSink → List (List LogRecord)
closed_files s = map (λ p. p.0) s.emitted
