-- ===== src/Audit/Gaps.antt =====
-- What the audit trail's verification of its own files says after a run: the round trip, and events
-- that were lost on the way to the disk.
use fapilog.Prelude.{
  ℕ, suc, ◌+◌, ◌≤◌, ◌≡◌, ◌≢◌, refl, sym, ap, ◌∙◌, ◌↔◌, ◌⊎◌, inl, inr, true, Option, none, some,
  List, [], ◌∷◌, length, Text, arith, All, subst,
}
use mathlib.Core.Option.{some-injective}
use fapilog.Audit.Event.{AuditEvent}
use fapilog.Audit.Trail.{
  Codec, CompliancePolicy, init, Outcome, unserializable, write_failed, written,
}
use fapilog.Audit.Verify.{verify_chain_from_storage, verify_chain}
use fapilog.Audit.Chain.{IsChain, verify_from_sound, verify_from_complete}
use fapilog.Audit.Reading.{IsReadable}
use fapilog.Audit.Stored.{seal, seal-checksum, hash_of, next_hash, keep, written_events}
use fapilog.Audit.Runs.{Action, run_and_stop, logged}
use fapilog.Audit.Verdict.{verdict}

-- no event from `n + 1` on reaches the disk
abbrev pub AllLost : (ℕ → Outcome) → ℕ → List AuditEvent → Type 0
AllLost disk n [] = Unit
AllLost disk n (e ∷ es) = (disk (n + 1) ≢ written) × AllLost disk (n + 1) es

-- events are lost at the end only
abbrev pub HasNoGap : (ℕ → Outcome) → ℕ → List AuditEvent → Type 0
HasNoGap disk n [] = Unit
HasNoGap disk n (e ∷ es) =
    ((disk (n + 1) ≡ written) × HasNoGap disk (n + 1) es) ⊎ AllLost disk n (e ∷ es)

is_written : (o : Outcome) → (o ≡ written) ⊎ (o ≢ written)
is_written unserializable = inr (λ h. cc)
is_written write_failed = inr (λ h. cc)
is_written written = inl refl

lost-keep :
    (o : Outcome) (w : AuditEvent) (rest : List AuditEvent) → o ≢ written → keep o w rest ≡ rest
lost-keep unserializable w rest h = refl
lost-keep write_failed w rest h = refl
lost-keep written w rest h = absurd (h refl)

late-AllLost :
    (c : Codec) (disk : ℕ → Outcome) (n m : ℕ) (last l : Option Text) (es : List AuditEvent)
    → m ≤ n
    → IsChain c l m (written_events c disk n last es)
    → AllLost disk n es
late-AllLost c disk n m last l [] h k = tt
late-AllLost c disk n m last l (e ∷ es) h k =
    let o = disk (n + 1) in
    let rest = written_events c disk (n + 1) (next_hash c o n last e) es in
    elim (is_written o) [
      | inl f ↦
          let head = subst (λ x. IsChain c l m (keep x (seal c n last e) rest)) f k in
          absurd (omega (arith, some-injective _ _ head.0, h))
      | inr f ↦ (
        f,
        late-AllLost c disk (n + 1) m (next_hash c o n last e) l es (omega (arith, h))
            (subst (IsChain c l m) (lost-keep o (seal c n last e) rest f) k),
      )
    ]

IsChain-HasNoGap :
    (c : Codec) (disk : ℕ → Outcome) (n : ℕ) (last : Option Text) (es : List AuditEvent)
    → IsChain c last (n + 1) (written_events c disk n last es)
    → HasNoGap disk n es
IsChain-HasNoGap c disk n last [] k = tt
IsChain-HasNoGap c disk n last (e ∷ es) k =
    let w = seal c n last e in
    let rest = λ (o : Outcome). written_events c disk (n + 1) (next_hash c o n last e) es in
    elim (is_written (disk (n + 1))) [
      | inl f ↦
          let k' = subst (λ o. IsChain c last (n + 1) (keep o w (rest o))) f k in
          inl (f, IsChain-HasNoGap c disk (n + 1) (some (hash_of c n last e)) es k'.3)
      | inr f ↦ inr (
        f,
        late-AllLost c disk (n + 1) (n + 1) (next_hash c (disk (n + 1)) n last e) last es
            (omega arith)
            (subst (IsChain c last (n + 1)) (lost-keep (disk (n + 1)) w (rest (disk (n + 1))) f) k),
      )
    ]

lost-written_events :
    (c : Codec) (disk : ℕ → Outcome) (n : ℕ) (last : Option Text) (es : List AuditEvent)
    → AllLost disk n es
    → written_events c disk n last es ≡ []
lost-written_events c disk n last [] h = refl
lost-written_events c disk n last (e ∷ es) h =
    let o = disk (n + 1) in
    lost-keep o (seal c n last e) (written_events c disk (n + 1) (next_hash c o n last e) es) h.0
    ∙ lost-written_events c disk (n + 1) (next_hash c o n last e) es h.1

HasNoGap-IsChain :
    (c : Codec) (disk : ℕ → Outcome) (n : ℕ) (last : Option Text) (es : List AuditEvent)
    → HasNoGap disk n es
    → IsChain c last (n + 1) (written_events c disk n last es)
HasNoGap-IsChain c disk n last [] h = tt
HasNoGap-IsChain c disk n last (e ∷ es) (inr f) =
    subst (IsChain c last (n + 1)) (sym (lost-written_events c disk n last (e ∷ es) f)) tt
HasNoGap-IsChain c disk n last (e ∷ es) (inl (f, h)) =
    let w = seal c n last e in
    let rest = λ (o : Outcome). written_events c disk (n + 1) (next_hash c o n last e) es in
    subst (λ o. IsChain c last (n + 1) (keep o w (rest o))) (sym f)
      (
        refl,
        refl,
        ap some (sym (seal-checksum c n last e)),
        HasNoGap-IsChain c disk (n + 1) (some (hash_of c n last e)) es h,
      )

-- A new audit trail over an empty directory, with any interleaving of calls and processing and the
-- drain of stop, verifies its own files as valid exactly when events were lost at the end only: one
-- event that cannot be dumped or written, followed by one that is, makes them invalid. The lines
-- that are written must come back as their events.
pub lost_events_show :
    (c : Codec) (p : CompliancePolicy) (disk : ℕ → Outcome) (acts : List Action)
    → p.enabled ≡ true
    → All (IsReadable c) (written_events c disk 0 none (logged acts))
    → ((verify_chain_from_storage c (run_and_stop c disk acts (init p, [])).1).valid ≡ true)
      ↔ HasNoGap disk 0 (logged acts)
unfolding verify_chain
lost_events_show c p disk acts h r =
    let ws = written_events c disk 0 none (logged acts) in
    let e = verdict c p disk acts h r in
    (
      λ v.
          IsChain-HasNoGap c disk 0 none (logged acts)
            (verify_from_sound c none 1 0 ws (sym (ap (λ x. x.valid) e) ∙ v)),
      λ g.
          ap (λ x. x.valid)
            (e
              ∙ verify_from_complete c none 1 0 ws
                  (HasNoGap-IsChain c disk 0 none (logged acts) g)),
    )

-- no event is lost
abbrev pub AllWritten : (ℕ → Outcome) → ℕ → List AuditEvent → Type 0
AllWritten disk n [] = Unit
AllWritten disk n (e ∷ es) = (disk (n + 1) ≡ written) × AllWritten disk (n + 1) es

AllWritten-HasNoGap :
    (disk : ℕ → Outcome) (n : ℕ) (es : List AuditEvent) → AllWritten disk n es → HasNoGap disk n es
AllWritten-HasNoGap disk n [] h = tt
AllWritten-HasNoGap disk n (e ∷ es) h = inl (h.0, AllWritten-HasNoGap disk (n + 1) es h.1)

length-written_events :
    (c : Codec) (disk : ℕ → Outcome) (n : ℕ) (last : Option Text) (es : List AuditEvent)
    → AllWritten disk n es
    → length (written_events c disk n last es) ≡ length es
length-written_events c disk n last [] h = refl
length-written_events c disk n last (e ∷ es) h =
    subst
      (λ o.
        length
          (keep o (seal c n last e) (written_events c disk (n + 1) (next_hash c o n last e) es))
        ≡ suc (length es))
      (sym h.0) (ap suc (length-written_events c disk (n + 1) (some (hash_of c n last e)) es h.1))

-- A new audit trail over an empty directory whose writes all succeed verifies its own files as valid
-- with every logged event checked, however calls and processing interleave before the drain of stop.
-- The lines that are written must come back as their events.
pub run_verifies :
    (c : Codec) (p : CompliancePolicy) (disk : ℕ → Outcome) (acts : List Action)
    → p.enabled ≡ true
    → AllWritten disk 0 (logged acts)
    → All (IsReadable c) (written_events c disk 0 none (logged acts))
    → verify_chain_from_storage c (run_and_stop c disk acts (init p, [])).1 ≡ record {
      valid = true;
      events_checked = length (logged acts);
      first_invalid_sequence = none;
      error_message = none;
    }
unfolding verify_chain
run_verifies c p disk acts h a r =
    let es = logged acts in
    verdict c p disk acts h r
    ∙ (verify_from_complete c none 1 0 (written_events c disk 0 none es)
          (HasNoGap-IsChain c disk 0 none es (AllWritten-HasNoGap disk 0 es a))
        ∙ ap
            (λ n. record {
              valid = true;
              events_checked = n;
              first_invalid_sequence = none;
              error_message = none;
            })
            (omega (arith, length-written_events c disk 0 none es a)))
