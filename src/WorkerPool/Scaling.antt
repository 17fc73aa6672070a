-- ===== src/WorkerPool/Scaling.antt =====
-- What scaling does to the number of workers and to their stop flags.
use mathlib.Core.List.{reverse, reverse-cons}
use fapilog.Prelude.{
  ℕ, zero, suc, ◌+◌, ◌-◌, ◌≤◌, ◌≡◌, refl, ◌∙◌, ap, sym, some, List, [], ◌∷◌, ◌++◌, length,
  length-append, append_assoc, append-nil, min, arith, Bool-cases, inl, inr, ltb, ◌⊎◌,
}
use fapilog.Pressure.{Level, index}
use fapilog.WorkerPool.{
  WorkerPool, current_count, clamp, target_for_level, add_workers, pop_last, retire_loop, scale_to,
}

-- The target of a pressure level lies between the initial count and the maximum, and no higher
-- level has a lower target.
pub target_for_level_lem :
    (p : WorkerPool) (low up : Level)
    → p.initial_count ≤ p.max_workers
    → (p.initial_count ≤ target_for_level p low)
      × (target_for_level p low ≤ p.max_workers)
      × (index low ≤ index up → target_for_level p low ≤ target_for_level p up)
unfolding target_for_level index
target_for_level_lem p low up h = (omega arith, omega arith, λ k. ground arith)

-- the tasks numbered from `first` on
abbrev pub fresh : ℕ → ℕ → List ℕ
fresh zero first = []
fresh (suc n) first = first ∷ fresh n (first + 1)

add_workers_lem :
    (n : ℕ) (p : WorkerPool)
    → ((add_workers n p).dynamic ≡ p.dynamic ++ fresh n p.next_task)
      × ((add_workers n p).stop_flags_set ≡ p.stop_flags_set)
      × (length (add_workers n p).dynamic ≡ length p.dynamic + n)
      × ((add_workers n p).initial_count ≡ p.initial_count)
unfolding add_workers
add_workers_lem zero p = (sym (append-nil p.dynamic), refl, omega arith, refl)
add_workers_lem (suc n) p =
    let p' : WorkerPool = record p {
      dynamic = p.dynamic ++ p.next_task ∷ [];
      next_task = p.next_task + 1;
    } in
    let rest = add_workers_lem n p' in
    (
      rest.0 ∙ append_assoc p.dynamic (p.next_task ∷ []) (fresh n (p.next_task + 1)),
      rest.1,
      omega (arith, rest.2, length-append p.dynamic (p.next_task ∷ [])),
      rest.3,
    )

pop_last-cases :
    (xs : List ℕ)
    → (xs ≡ [])
      ⊎ ((rest : List ℕ) × (x : ℕ) × (pop_last xs ≡ some (rest, x)) × (xs ≡ rest ++ x ∷ []))
unfolding pop_last
pop_last-cases [] = inl refl
pop_last-cases (x ∷ xs) = elim (pop_last-cases xs) [
  | inl e ↦ inr ([], x, rw (e, pop_last) refl, ap (◌∷◌ x) e)
  | inr (rest, y, e, f) ↦ inr (x ∷ rest, y, rw (e, pop_last) refl, ap (◌∷◌ x) f)
]

reversed_end :
    (xs retired rest : List ℕ) (x : ℕ)
    → xs ++ reverse retired ≡ rest
    → xs ++ reverse (x ∷ retired) ≡ rest ++ x ∷ []
reversed_end xs retired rest x e =
    ap (◌++◌ xs) (reverse-cons x retired)
    ∙ sym (append_assoc xs (reverse retired) (x ∷ []))
    ∙ ap (λ l. l ++ x ∷ []) e

-- Retiring takes tasks from the end, the last one first, and sets their flags in that order.
retire_loop_lem :
    (n : ℕ) (p : WorkerPool)
    → n ≤ length p.dynamic
    → (retired : List ℕ) × ((retire_loop n p).dynamic ++ reverse retired ≡ p.dynamic)
      × ((retire_loop n p).stop_flags_set ≡ p.stop_flags_set ++ retired)
      × (length (retire_loop n p).dynamic + n ≡ length p.dynamic)
      × ((retire_loop n p).initial_count ≡ p.initial_count)
unfolding retire_loop
retire_loop_lem zero p h =
    ([], append-nil p.dynamic, sym (append-nil p.stop_flags_set), omega arith, refl)
retire_loop_lem (suc n) p h = elim (pop_last-cases p.dynamic) [
  | inl e ↦ absurd (omega (arith, ap length e))
  | inr (rest, x, e, f) ↦
      let p' : WorkerPool = record p {
        dynamic = rest;
        stop_flags_set = p.stop_flags_set ++ x ∷ [];
      } in
      let sizes = ap length f ∙ length-append rest (x ∷ []) in
      let (retired, order, flags, size, count) = retire_loop_lem n p' (omega arith) in
      rw (e, retire_loop)
        (
          x ∷ retired,
          reversed_end _ retired rest x order ∙ sym f,
          flags ∙ append_assoc p.stop_flags_set (x ∷ []) retired,
          omega (arith, size, sizes),
          count,
        )
]

-- After scaling there are as many workers as were asked for, within the initial count and the
-- maximum. New tasks go to the end of the dynamic ones, and no flag is set then; retired tasks are
-- taken from the end, the newest first, and exactly their flags are set.
pub scale_to_lem :
    (p : WorkerPool) (target : ℕ)
    → p.initial_count ≤ p.max_workers
    → (current_count (scale_to p target) ≡ clamp p target)
      × ((added : List ℕ) × (retired : List ℕ) × ((scale_to p target).dynamic ++ reverse retired
            ≡ p.dynamic ++ added)
          × ((scale_to p target).stop_flags_set ≡ p.stop_flags_set ++ retired)
          × ((added ≡ []) ⊎ (retired ≡ [])))
unfolding scale_to current_count
scale_to_lem p target h = elim (Bool-cases (ltb (current_count p) (clamp p target))) [
  | inl up ↦
      let count = clamp p target - current_count p in
      let done = add_workers_lem count p in
      rw up (
        unfold current_count in ground (arith, done.2, done.3, up),
        (fresh count p.next_task, [], append-nil _ ∙ done.0, done.1 ∙ sym (append-nil _), inr refl),
      )
  | inr enough ↦ elim (Bool-cases (ltb (clamp p target) (current_count p))) [
    | inl down ↦
        let count = min (current_count p - clamp p target) (length p.dynamic) in
        let (retired, order, flags, size, kept) = retire_loop_lem count p (omega arith) in
        rw (enough, down)
          (
            unfold current_count in ground (arith, size, kept, down),
            ([], retired, order ∙ sym (append-nil _), flags, inl refl),
          )
    | inr even ↦
        rw (enough, even)
          (ground (arith, enough, even), ([], [], refl, sym (append-nil _), inl refl))
  ]
]
