-- ===== src/Audit/Verdict.antt =====
-- The files of a run of the audit trail read back as the events that reached the disk.
use fapilog.Prelude.{
  ℕ, suc, ◌+◌, ◌≡◌, refl, sym, ap, ◌∙◌, true, Option, none, List, [], ◌∷◌, ◌++◌, Text, arith, All,
  All-map, append_assoc, append-nil, subst,
}
use fapilog.Audit.Event.{AuditEvent}
use fapilog.Audit.Trail.{
  Codec, Directory, CompliancePolicy, init, Outcome, unserializable, write_failed, written,
  log_file,
}
use fapilog.Audit.Verify.{
  verify_chain_from_storage, verify_loaded, verify_chain, read_lines, all_lines, sort,
}
use fapilog.Audit.Reading.{IsReadable, Reads, write_to_file-Reads, IsBelow}
use fapilog.Audit.Stored.{seal, next_hash, next_directory, stored, keep, written_events}
use fapilog.Audit.Runs.{Action, run_and_stop, logged, run_and_stop-leads_to}

pub keep-append :
    (o : Outcome) (w : AuditEvent) (rest : List AuditEvent) → keep o w [] ++ rest ≡ keep o w rest
keep-append unserializable w rest = refl
keep-append write_failed w rest = refl
keep-append written w rest = refl

pub keep-All :
    (P : AuditEvent → Type 0) (o : Outcome) (w : AuditEvent) (rest : List AuditEvent)
    → All P (keep o w rest)
    → All P rest
keep-All P unserializable w rest h = h
keep-All P write_failed w rest h = h
keep-All P written w rest h = h.1

-- a number that no line carries
skipped-Reads :
    (c : Codec) (d : Directory) (n : ℕ) (log : List AuditEvent)
    → Reads c d n log
    → Reads c d (n + 1) (log ++ [])
skipped-Reads c d n log (es, r, o, b) = (
  es,
  r,
  o ∙ sym (append-nil log),
  All-map (IsBelow (suc n)) (IsBelow (suc (n + 1))) es (λ x i. omega (arith, i)) b,
)

next-Reads :
    (c : Codec) (o : Outcome) (n : ℕ) (last : Option Text) (e : AuditEvent) (rest : List AuditEvent)
    (d : Directory) (log : List AuditEvent)
    → All (IsReadable c) (keep o (seal c n last e) rest)
    → Reads c d n log
    → Reads c (next_directory c o n last e d) (n + 1) (log ++ keep o (seal c n last e) [])
next-Reads c unserializable n last e rest d log h r = skipped-Reads c d n log r
next-Reads c write_failed n last e rest d log h r = skipped-Reads c d n log r
next-Reads c written n last e rest d log h r =
    write_to_file-Reads c (log_file c e) (seal c n last e) d n log h.0 (omega arith) r

pub stored-Reads :
    (c : Codec) (disk : ℕ → Outcome) (n : ℕ) (last : Option Text) (es : List AuditEvent)
    (d : Directory) (log : List AuditEvent)
    → All (IsReadable c) (written_events c disk n last es)
    → Reads c d n log
    → (m : ℕ) × Reads c (stored c disk n last es d) m (log ++ written_events c disk n last es)
stored-Reads c disk n last [] d log h r = (n, subst (Reads c d n) (sym (append-nil log)) r)
stored-Reads c disk n last (e ∷ es) d log h r =
    let o = disk (n + 1) in
    let w = seal c n last e in
    let rest = written_events c disk (n + 1) (next_hash c o n last e) es in
    let (m, s) =
      stored-Reads c disk (n + 1) (next_hash c o n last e) es (next_directory c o n last e d)
        (log ++ keep o w []) (keep-All (IsReadable c) o w rest h)
        (next-Reads c o n last e rest d log h r) in
    (
      m,
      subst (Reads c (stored c disk n last (e ∷ es) d) m)
          (append_assoc log (keep o w []) rest ∙ ap (λ l. log ++ l) (keep-append o w rest)) s,
    )

Reads-verdict :
    (c : Codec) (d : Directory) (n : ℕ) (log : List AuditEvent)
    → Reads c d n log
    → verify_chain_from_storage c d ≡ verify_chain c log
unfolding verify_chain_from_storage verify_loaded
Reads-verdict c d n log (es, r, o, b) = ap (verify_loaded c) r ∙ ap (verify_chain c) o

-- the verification of the files of a new trail is that of the events that reached the disk
pub verdict :
    (c : Codec) (p : CompliancePolicy) (disk : ℕ → Outcome) (acts : List Action)
    → p.enabled ≡ true
    → All (IsReadable c) (written_events c disk 0 none (logged acts))
    → verify_chain_from_storage c (run_and_stop c disk acts (init p, [])).1
      ≡ verify_chain c (written_events c disk 0 none (logged acts))
unfolding init all_lines read_lines sort
verdict c p disk acts h r =
    let (m, s) = stored-Reads c disk 0 none (logged acts) [] [] r ([], refl, refl, tt) in
    ap (verify_chain_from_storage c) (run_and_stop-leads_to c disk acts (init p) [] h)
    ∙ Reads-verdict c (stored c disk 0 none (logged acts) []) m
        (written_events c disk 0 none (logged acts)) s
