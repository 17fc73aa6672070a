-- ===== src/Audit/Restart.antt =====
-- A second audit trail over the directory of the first: numbers and hashes start again.
use fapilog.Prelude.{
  ℕ, ◌+◌, ◌≤◌, ◌≡◌, ◌≢◌, refl, sym, ap, ◌∙◌, inl, inr, true, false, Option, none, some, List, [],
  ◌∷◌, ◌++◌, Text, arith, All, Bool-cases, subst, leb, ◌==◌, if◌then◌else◌,
}
use fapilog.Audit.Event.{AuditEvent}
use fapilog.Audit.Trail.{
  Codec, Directory, CompliancePolicy, init, Outcome, unserializable, write_failed, written,
  log_file,
}
use fapilog.Audit.Verify.{
  verify_chain_from_storage, verify_loaded, verify_chain, read_lines, all_lines, sort, sort_key,
  verify_from, loaded,
}
use fapilog.Audit.Chain.{IsChain, verify_from_sound}
use fapilog.Audit.Reading.{IsReadable}
use fapilog.Audit.Stored.{seal, next_hash, next_directory, stored, keep, written_events}
use fapilog.Audit.Runs.{Action, run_and_stop, logged, run_and_stop-leads_to}
use fapilog.Audit.Verdict.{keep-append, keep-All}
use fapilog.Audit.Verify.{insert_event}
use fapilog.Audit.Reading.{IsWith, read_lines-into}

-- the events with the number 1
abbrev is_first : Option ℕ → ℕ
is_first none = 0
is_first (some n) = if n == 1 then 1 else 0

abbrev firsts : List AuditEvent → ℕ
firsts [] = 0
firsts (e ∷ es) = is_first e.sequence_number + firsts es

firsts-append : (es fs : List AuditEvent) → firsts (es ++ fs) ≡ firsts es + firsts fs
firsts-append [] fs = omega arith
firsts-append (e ∷ es) fs = omega (arith, firsts-append es fs)

firsts-with :
    (w : AuditEvent) (es fs : List AuditEvent)
    → IsWith w es fs
    → firsts fs ≡ is_first w.sequence_number + firsts es
firsts-with w es fs (xs, ys, g, h) =
    omega (arith, firsts-append xs ys, firsts-append xs (w ∷ ys), ap firsts g, ap firsts h)

firsts-insert_event :
    (e : AuditEvent) (es : List AuditEvent)
    → firsts (insert_event e es) ≡ is_first e.sequence_number + firsts es
unfolding insert_event
firsts-insert_event e [] = refl
firsts-insert_event e (f ∷ es) =
    elim (Bool-cases (leb (sort_key e.sequence_number) (sort_key f.sequence_number))) [
      | inl b ↦ rw b refl
      | inr b ↦ rw b (omega (arith, firsts-insert_event e es))
    ]

firsts-sort : (es : List AuditEvent) → firsts (sort es) ≡ firsts es
unfolding sort
firsts-sort [] = refl
firsts-sort (e ∷ es) = omega (arith, firsts-insert_event e (sort es), firsts-sort es)

first_at : (n : ℕ) → 2 ≤ n → is_first (some n) ≡ 0
first_at n h = ground arith

later-firsts :
    (c : Codec) (l : Option Text) (n : ℕ) (es : List AuditEvent)
    → 2 ≤ n
    → IsChain c l n es
    → firsts es ≡ 0
later-firsts c l n [] h k = refl
later-firsts c l n (e ∷ es) h k = omega (
  arith,
  ap is_first k.0,
  later-firsts c e.checksum (n + 1) es (omega (arith, h)) k.3,
  first_at n h,
)

chain-firsts : (c : Codec) (es : List AuditEvent) → IsChain c none 1 es → firsts es ≤ 1
chain-firsts c [] k = omega arith
chain-firsts c (e ∷ es) k =
    omega (arith, ap is_first k.0, later-firsts c e.checksum 2 es (omega arith) k.3)

-- the directory can be read and has `k` events with the number 1
abbrev HasFirsts : Codec → Directory → ℕ → Type 0
HasFirsts c d k =
    (es : List AuditEvent) × (read_lines c (all_lines d) ≡ loaded es) × (firsts es ≡ k)

next-HasFirsts :
    (c : Codec) (o : Outcome) (n : ℕ) (last : Option Text) (e : AuditEvent) (rest : List AuditEvent)
    (d : Directory) (k : ℕ)
    → All (IsReadable c) (keep o (seal c n last e) rest)
    → HasFirsts c d k
    → HasFirsts c (next_directory c o n last e d) (k + firsts (keep o (seal c n last e) []))
next-HasFirsts c unserializable n last e rest d k h r = subst (HasFirsts c d) (omega arith) r
next-HasFirsts c write_failed n last e rest d k h r = subst (HasFirsts c d) (omega arith) r
next-HasFirsts c written n last e rest d k h (es, r, f) =
    let w = seal c n last e in
    let (es', i, r') = read_lines-into c (log_file c e) w d es h.0 r in
    (es', r', omega (arith, firsts-with w es es' i, f))

stored-HasFirsts :
    (c : Codec) (disk : ℕ → Outcome) (n : ℕ) (last : Option Text) (es : List AuditEvent)
    (d : Directory) (k : ℕ)
    → All (IsReadable c) (written_events c disk n last es)
    → HasFirsts c d k
    → HasFirsts c (stored c disk n last es d) (k + firsts (written_events c disk n last es))
stored-HasFirsts c disk n last [] d k h r = subst (HasFirsts c d) (omega arith) r
stored-HasFirsts c disk n last (e ∷ es) d k h r =
    let o = disk (n + 1) in
    let w = seal c n last e in
    let rest = written_events c disk (n + 1) (next_hash c o n last e) es in
    subst (HasFirsts c (stored c disk n last (e ∷ es) d))
      (omega (arith, ap firsts (keep-append o w rest), firsts-append (keep o w []) rest))
      (stored-HasFirsts c disk (n + 1) (next_hash c o n last e) es (next_directory c o n last e d)
        (k + firsts (keep o w [])) (keep-All (IsReadable c) o w rest h)
        (next-HasFirsts c o n last e rest d k h r))

two_firsts_invalid :
    (c : Codec) (d : Directory) (k : ℕ)
    → 2 ≤ k
    → HasFirsts c d k
    → (verify_chain_from_storage c d).valid ≡ false
unfolding verify_chain_from_storage verify_loaded verify_chain
two_firsts_invalid c d k h (es, r, f) = elim (Bool-cases (verify_from c none 1 0 (sort es)).valid) [
  | inr v ↦ ap (λ l. (verify_loaded c l).valid) r ∙ v
  | inl v ↦ absurd (
      omega (
        arith,
        chain-firsts c (sort es) (verify_from_sound c none 1 0 (sort es) v),
        firsts-sort es,
        f,
        h,
      ))
]

some_firsts :
    (c : Codec) (disk : ℕ → Outcome) (es : List AuditEvent)
    → es ≢ []
    → disk 1 ≡ written
    → 1 ≤ firsts (written_events c disk 0 none es)
some_firsts c disk [] h f = absurd (h refl)
some_firsts c disk (e ∷ es) h f =
    let rest = λ (o : Outcome). written_events c disk 1 (next_hash c o 0 none e) es in
    subst (λ o. 1 ≤ firsts (keep o (seal c 0 none e) (rest o))) (sym f) (omega arith)

-- When a trail has run and stopped and a new trail then runs over the same directory, each with at
-- least one logged event and its first write successful, the verification of the files fails.
pub restart_breaks :
    (c : Codec) (p q : CompliancePolicy) (disk disk' : ℕ → Outcome) (acts acts' : List Action)
    → p.enabled ≡ true
    → q.enabled ≡ true
    → logged acts ≢ []
    → logged acts' ≢ []
    → disk 1 ≡ written
    → disk' 1 ≡ written
    → All (IsReadable c) (written_events c disk 0 none (logged acts))
    → All (IsReadable c) (written_events c disk' 0 none (logged acts'))
    → let d = (run_and_stop c disk acts (init p, [])).1 in
      (verify_chain_from_storage c (run_and_stop c disk' acts' (init q, d)).1).valid ≡ false
unfolding init read_lines all_lines
restart_breaks c p q disk disk' acts acts' ep eq l l' w w' r r' =
    let ws = written_events c disk 0 none (logged acts) in
    let ws' = written_events c disk' 0 none (logged acts') in
    let d = (run_and_stop c disk acts (init p, [])).1 in
    let one : HasFirsts c d (0 + firsts ws) =
      subst (λ x. HasFirsts c x (0 + firsts ws))
        (sym (run_and_stop-leads_to c disk acts (init p) [] ep))
        (stored-HasFirsts c disk 0 none (logged acts) [] 0 r ([], refl, refl)) in
    let two : HasFirsts c (run_and_stop c disk' acts' (init q, d)).1
        ((0 + firsts ws) + firsts ws') =
      subst (λ x. HasFirsts c x ((0 + firsts ws) + firsts ws'))
        (sym (run_and_stop-leads_to c disk' acts' (init q) d eq))
        (stored-HasFirsts c disk' 0 none (logged acts') d (0 + firsts ws) r' one) in
    two_firsts_invalid c (run_and_stop c disk' acts' (init q, d)).1 ((0 + firsts ws) + firsts ws')
      (omega
        (arith, some_firsts c disk (logged acts) l w, some_firsts c disk' (logged acts') l' w'))
      two
