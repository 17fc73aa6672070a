-- ===== src/Tamper/Written.antt =====
-- The records that the enricher writes are authentic and linked.
use fapilog.Prelude.{
  ℕ, ◌+◌, ◌≡◌, refl, sym, ap, ◌∙◌, some, List, [], ◌∷◌, ◌++◌, length, Text, subst, arith,
}
use fapilog.Prelude.Value.{Fields}
use fapilog.Tamper.Record.{Bytes, Crypto, ChainState, LogRecord}
use fapilog.Tamper.Enricher.{IntegrityEnricher, Enriched, enrich, state_of}
use fapilog.Tamper.Verify.{KeyStore, chain_hash_or_empty}
use fapilog.Tamper.Links.{IsLinked}
use fapilog.Tamper.Authentic.{
  AllAuthentic, IsReady, enrich_all, written_record, IsStep, enrich-IsStep,
}

-- the chain hash that the next record has to name
abbrev pub last_link : Text → List LogRecord → Text
last_link prev [] = prev
last_link prev (r ∷ records) = last_link (chain_hash_or_empty r.integrity) records

-- an enricher that is ready, under a key that the store has for it
abbrev pub IsKeyed : KeyStore → ℕ → Bytes → IntegrityEnricher → Type 0
IsKeyed keys k key e = IsReady e k key × (keys e.config.key_id ≡ some (k ∷ key))

-- records that continue the chain from the state `s` to the enricher `e`
abbrev pub IsSegment :
    Crypto → KeyStore → ℕ → Bytes → ChainState → IntegrityEnricher → List LogRecord → Type 0
IsSegment cr keys k key s e records =
    IsLinked (cr.b64url_encode s.prev_chain_hash) (s.seq + 1) records
    × AllAuthentic cr keys records
    × IsKeyed keys k key e
    × (last_link (cr.b64url_encode s.prev_chain_hash) records
        ≡ cr.b64url_encode (state_of e.state).prev_chain_hash)
    × ((state_of e.state).seq ≡ s.seq + length records)

step-IsSegment :
    (cr : Crypto) (keys : KeyStore) (k : ℕ) (key : Bytes) (s : ChainState) (event : Fields)
    (e : IntegrityEnricher) (x : Enriched) (f : IntegrityEnricher) (records : List LogRecord)
    → IsStep cr keys k key s event (e, x)
    → IsSegment cr keys k key (state_of e.state) f records
    → IsSegment cr keys k key s f (written_record event x ++ records)
step-IsSegment cr keys k key s event e x f records (i, w, y, z, a, b, c, d, v, u) (l, m, n, o, p) =
    subst (λ x. IsSegment cr keys k key s f (written_record event x ++ records)) (sym w)
      (
        (
          a,
          b,
          subst (λ h. IsLinked h (s.seq + 1 + 1) records) (sym c)
              (subst
                (λ j.
                  IsLinked (cr.b64url_encode (state_of e.state).prev_chain_hash) (j + 1) records)
                d l),
        ),
        (v, m),
        n,
        ap (λ h. last_link h records) c ∙ o,
        omega (arith, p, d),
      )

-- What the enricher makes of any events, from a state with a key that the store knows: authentic
-- records, numbered and linked from that state on, to the state that it ends in.
pub enrich_all-IsSegment :
    (cr : Crypto) (keys : KeyStore) (k : ℕ) (key : Bytes) (e : IntegrityEnricher)
    (events : List (Text × Fields))
    → ((x : Bytes) → cr.b64url_decode (cr.b64url_encode x) ≡ some x)
    → IsKeyed keys k key e
    → let r = enrich_all cr e events in IsSegment cr keys k key (state_of e.state) r.0 r.1
enrich_all-IsSegment cr keys k key e [] dec h = (tt, tt, h, refl, omega arith)
enrich_all-IsSegment cr keys k key e ((now, event) ∷ events) dec (h, a) =
    let r = enrich cr e now event in
    let rest = enrich_all cr r.0 events in
    let step = enrich-IsStep cr keys k key e now event dec h a in
    step-IsSegment cr keys k key (state_of e.state) event r.0 r.1 rest.0 rest.1 step
      (enrich_all-IsSegment cr keys k key r.0 events dec (step.2, step.3))
