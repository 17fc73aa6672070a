-- ===== src/Tamper/Notes.antt =====
-- What the metadata of a file says once its records are written.
use fapilog.Prelude.{
  true, ◌+◌, ◌≡◌, ◌≢◌, refl, sym, ap, ◌∙◌, Option, none, some, List, [], ◌∷◌, ◌++◌, length, Text,
  arith, append-nil, append_assoc,
}
use fapilog.Tamper.Record.{Bytes, Crypto, Integrity, LogRecord}
use fapilog.Tamper.Verify.{last_hash, chain_hash_or_empty}
use fapilog.Tamper.Sealed.{
  FileMetadata, SealedSink, encoded_root, noted, root_after, write, current_or,
}
use fapilog.Tamper.Written.{last_link}
use fapilog.Tamper.Signed.{IsCodec, encoded_root-some}

-- a record whose chain hash encodes the hash `h`
abbrev pub HasRoot : Crypto → Bytes → LogRecord → Type 0
HasRoot cr h r =
    (i : Integrity) × (r.integrity ≡ some i) × (i.chain_hash ≡ cr.b64url_encode h) × (h ≢ [])

abbrev pub AllRooted : Crypto → List LogRecord → Type 0
AllRooted cr [] = Unit
AllRooted cr (r ∷ records) = ((h : Bytes) × HasRoot cr h r) × AllRooted cr records

-- the metadata after the records of a file
abbrev pub notes : Crypto → FileMetadata → List LogRecord → FileMetadata
notes cr f [] = f
notes cr f (r ∷ records) = notes cr (noted cr f r) records

abbrev pub write_all : Crypto → SealedSink → Text → Text → List LogRecord → SealedSink
write_all cr s filename now [] = s
write_all cr s filename now (r ∷ records) =
    write_all cr (write cr s filename now r) filename now records

-- the sink with an open file and its records
abbrev pub opened : SealedSink → FileMetadata → List LogRecord → SealedSink
opened s f records = record s { current_file = some f; inner = records }

-- an inner sink whose file gives back the records that it was handed, and that can rotate
abbrev pub IsKeeping : SealedSink → Type 0
IsKeeping s = ((r : LogRecord) → s.kept r ≡ r ∷ []) × (s.has_rotate ≡ true)

pub write_all-opened :
    (cr : Crypto) (s : SealedSink) (f : FileMetadata) (done records : List LogRecord)
    (filename now : Text)
    → ((r : LogRecord) → s.kept r ≡ r ∷ [])
    → write_all cr (opened s f done) filename now records
      ≡ opened s (notes cr f records) (done ++ records)
unfolding write current_or
write_all-opened cr s f done [] filename now keep = ap (opened s f) (sym (append-nil done))
write_all-opened cr s f done (r ∷ records) filename now keep =
    ap (λ x. write_all cr (opened s (noted cr f r) (done ++ x)) filename now records) (keep r)
    ∙ write_all-opened cr s (noted cr f r) (done ++ r ∷ []) records filename now keep
    ∙ ap (opened s (notes cr f (r ∷ records))) (append_assoc done (r ∷ []) records)

pub notes-count :
    (cr : Crypto) (f : FileMetadata) (records : List LogRecord)
    → ((notes cr f records).record_count ≡ f.record_count + length records)
      × ((notes cr f records).continues_from ≡ f.continues_from)
unfolding noted
notes-count cr f [] = (omega arith, refl)
notes-count cr f (r ∷ records) =
    let (a, b) = notes-count cr (noted cr f r) records in (omega (arith, a), b)

-- the root of the metadata encodes to `t`
abbrev pub Roots : Crypto → FileMetadata → Text → Type 0
Roots cr f t = (h : Bytes) × (f.root_chain_hash ≡ some h) × (t ≡ cr.b64url_encode h) × (h ≢ [])

root_after-decoded :
    (cr : Crypto) (i : Integrity) (t : Text) (h : Bytes) (old : Option Bytes)
    → i.chain_hash ≡ t
    → t ≢ []
    → cr.b64url_decode t ≡ some h
    → root_after cr (some i) old ≡ some h
unfolding root_after
root_after-decoded cr i [] h old e n d = absurd (n refl)
root_after-decoded cr i (c ∷ t) h old e n d =
    ap (λ x. elim x [ [] ↦ old | c ∷ t ↦ cr.b64url_decode (c ∷ t) ]) e ∙ d

pub noted-Roots :
    (cr : Crypto) (f : FileMetadata) (r : LogRecord)
    → IsCodec cr
    → (h : Bytes) × HasRoot cr h r
    → Roots cr (noted cr f r) (chain_hash_or_empty r.integrity)
unfolding noted
noted-Roots cr f r c (h, (i, e, g, n)) = (
  h,
  ap (λ x. root_after cr x f.root_chain_hash) e
      ∙ root_after-decoded cr i (cr.b64url_encode h) h f.root_chain_hash g (c.encodes h n)
          (c.decodes h),
  ap chain_hash_or_empty e ∙ g,
  n,
)

pub notes-Roots :
    (cr : Crypto) (f : FileMetadata) (t : Text) (records : List LogRecord)
    → IsCodec cr
    → AllRooted cr records
    → Roots cr f t
    → Roots cr (notes cr f records) (last_link t records)
notes-Roots cr f t [] c h r = r
notes-Roots cr f t (r ∷ records) c (x, h) q =
    notes-Roots cr (noted cr f r) (chain_hash_or_empty r.integrity) records c h
      (noted-Roots cr f r c x)

pub last_hash-last_link :
    (cr : Crypto) (t : Text) (r : LogRecord) (records : List LogRecord)
    → AllRooted cr (r ∷ records)
    → last_hash (r ∷ records) ≡ some (last_link t (r ∷ records))
unfolding last_hash
last_hash-last_link cr t r [] ((h, (i, e, x, z)), y) = rw e refl
last_hash-last_link cr t r (q ∷ records) (x, y) =
    last_hash-last_link cr (chain_hash_or_empty r.integrity) q records y

-- the root in the manifest is the last hash of the file
pub notes-root :
    (cr : Crypto) (f : FileMetadata) (records : List LogRecord)
    → IsCodec cr
    → AllRooted cr records
    → f.root_chain_hash ≡ none
    → encoded_root cr (notes cr f records).root_chain_hash ≡ last_hash records
unfolding encoded_root last_hash
notes-root cr f [] c h e = ap (encoded_root cr) e
notes-root cr f (r ∷ records) c (x, h) e =
    let (b, p, q, n) =
      notes-Roots cr (noted cr f r) (chain_hash_or_empty r.integrity) records c h
        (noted-Roots cr f r c x) in
    ap (encoded_root cr) p
    ∙ (encoded_root-some cr b n
        ∙ (ap some (sym q) ∙ sym (last_hash-last_link cr [] r records (x, h))))
