-- ===== src/Queue/Dual/Order.antt =====
-- DualQueue under any sequence of operations: per class lossless, bounded and first in first out.
use fapilog.Prelude.{
  ℕ, ◌≤◌, ◌≡◌, refl, Bool, true, false, not, Option, none, some, List, [], ◌∷◌, ◌++◌, length, All,
  All-append, keep_if, keep_if-snoc, keep_if-All, keep_if-none, not-All, drained_order,
  length-append, append_assoc, append-nil, ap₂, sym, ◌∙◌, subst, Text, arith, if◌then◌else◌,
  Bool-cases, inl, inr,
}
use fapilog.Prelude.Value.{Value}
use fapilog.Queue.Level.{is_protected}
use fapilog.Queue.Ring
use fapilog.Queue.Ring.{Ring}
use fapilog.Queue.Dual.{
  Dual, init, try_enqueue, try_dequeue, activate_shedding, deactivate_shedding, dequeue_protected,
  dequeue_main, drain_into,
}
use fapilog.Queue.Dual.Drain.{drain_into_lem}

pub data Op : Type 0 where
  enqueue : Value → Op
  dequeue drain activate deactivate : Op

-- What has been offered to the queue, accepted by it and handed out so far, oldest first.
pub record History : Type 0 where
  pub queue : Dual Value
  pub accepted : List Value
  pub served : List Value
  pub refused : List Value

abbrev pub after_enqueue : History → Value → Dual Value × Bool → History
after_enqueue h item (q, true) = record h { queue = q; accepted = h.accepted ++ item ∷ [] }
after_enqueue h item (q, false) = record h { queue = q; refused = h.refused ++ item ∷ [] }

abbrev pub after_dequeue : History → Dual Value × Option Value → History
after_dequeue h (q, none) = record h { queue = q }
after_dequeue h (q, some item) = record h { queue = q; served = h.served ++ item ∷ [] }

abbrev pub after_drain : History → Dual Value × List Value → History
after_drain h (q, batch) = record h { queue = q; served = h.served ++ batch }

-- a drain appends to an empty batch
pub step : History → Op → History
step h (enqueue item) = after_enqueue h item (try_enqueue h.queue item)
step h dequeue = after_dequeue h (try_dequeue h.queue)
step h drain = after_drain h (drain_into h.queue [])
step h activate = record h { queue = activate_shedding h.queue }
step h deactivate = record h { queue = deactivate_shedding h.queue }

pub run : History → List Op → History
run h [] = h
run h (op ∷ ops) = run (step h op) ops

-- the events of the protected levels, and the others
abbrev pub shielded : List Text → List Value → List Value
shielded levels = keep_if (is_protected levels)

abbrev pub plain : List Text → List Value → List Value
plain levels = keep_if (λ v. not (is_protected levels v))

module _ (levels : List Text) (main_capacity protected_capacity : ℕ) where
  pub record Tracks (h : History) : Type 0 where
    pub levels_fixed : h.queue.protected_levels ≡ levels
    pub main_fixed : h.queue.main.capacity ≡ main_capacity
    pub protected_fixed : h.queue.protected.capacity ≡ protected_capacity
    pub main_bounded : length h.queue.main.dq ≤ main_capacity
    pub protected_bounded : length h.queue.protected.dq ≤ protected_capacity
    pub main_class : All (λ v. is_protected levels v ≡ false) h.queue.main.dq
    pub protected_class : All (λ v. is_protected levels v ≡ true) h.queue.protected.dq
    pub protected_order :
        shielded levels h.accepted ≡ shielded levels h.served ++ h.queue.protected.dq
    pub main_order : plain levels h.accepted ≡ plain levels h.served ++ h.queue.main.dq
    pub protected_drops : h.queue.protected_drops ≡ length (shielded levels h.refused)
    pub main_drops : h.queue.main_drops ≡ length (plain levels h.refused)

  enqueue_protected :
      (h : History) (item : Value)
      → is_protected levels item ≡ true
      → Tracks h
      → Tracks (step h (enqueue item))
  unfolding step try_enqueue Ring.try_enqueue
  enqueue_protected h item p t = ground (
    arith,
    keep_if-snoc (is_protected levels) h.accepted item,
    keep_if-snoc (λ v. not (is_protected levels v)) h.accepted item,
    keep_if-snoc (is_protected levels) h.refused item,
    keep_if-snoc (λ v. not (is_protected levels v)) h.refused item,
    length-append h.queue.protected.dq (item ∷ []),
    length-append (shielded levels h.refused) (item ∷ []),
    append_assoc (shielded levels h.served) h.queue.protected.dq (item ∷ []),
    All-append _ h.queue.protected.dq (item ∷ []) t.protected_class (p, tt),
    t.levels_fixed,
  )

  enqueue_main :
      (h : History) (item : Value)
      → is_protected levels item ≡ false
      → Tracks h
      → Tracks (step h (enqueue item))
  unfolding step try_enqueue Ring.try_enqueue
  enqueue_main h item p t = ground (
    arith,
    keep_if-snoc (is_protected levels) h.accepted item,
    keep_if-snoc (λ v. not (is_protected levels v)) h.accepted item,
    keep_if-snoc (is_protected levels) h.refused item,
    keep_if-snoc (λ v. not (is_protected levels v)) h.refused item,
    length-append h.queue.main.dq (item ∷ []),
    length-append (plain levels h.refused) (item ∷ []),
    append_assoc (plain levels h.served) h.queue.main.dq (item ∷ []),
    All-append _ h.queue.main.dq (item ∷ []) t.main_class (p, tt),
    t.levels_fixed,
  )

  enqueue-Tracks : (h : History) (item : Value) → Tracks h → Tracks (step h (enqueue item))
  enqueue-Tracks h item t = elim (Bool-cases (is_protected levels item)) [
    | inl p ↦ enqueue_protected h item p t
    | inr p ↦ enqueue_main h item p t
  ]

  -- the pop of the protected queue, and that of the main one behind it
  dequeue_protected-Tracks :
      (h : History) (protected : List Value)
      → h.queue.protected.dq ≡ protected
      → (Tracks (after_dequeue h (dequeue_main h.queue (Ring.try_dequeue h.queue.main))))
      → Tracks h
      → Tracks
          (after_dequeue h (dequeue_protected h.queue (Ring.pop_left h.queue.protected protected)))
  unfolding dequeue_protected Ring.pop_left
  dequeue_protected-Tracks h [] e behind t = ground (arith, behind, t)
  dequeue_protected-Tracks h (item ∷ rest) e behind t = ground (
    arith,
    keep_if-snoc (is_protected levels) h.served item,
    keep_if-snoc (λ v. not (is_protected levels v)) h.served item,
    append_assoc (shielded levels h.served) (item ∷ []) rest,
    subst (All _) e t.protected_class,
  )

  dequeue_main-Tracks :
      (h : History) (main : List Value)
      → h.queue.main.dq ≡ main
      → Tracks h
      → Tracks (after_dequeue h (dequeue_main h.queue (Ring.pop_left h.queue.main main)))
  unfolding dequeue_main Ring.pop_left
  dequeue_main-Tracks h [] e t = t
  dequeue_main-Tracks h (item ∷ rest) e t = ground (
    arith,
    keep_if-snoc (is_protected levels) h.served item,
    keep_if-snoc (λ v. not (is_protected levels v)) h.served item,
    append_assoc (plain levels h.served) (item ∷ []) rest,
    subst (All _) e t.main_class,
  )

  dequeue-Tracks : (h : History) → Tracks h → Tracks (step h dequeue)
  unfolding step try_dequeue Ring.try_dequeue
  dequeue-Tracks h t =
      dequeue_protected-Tracks h h.queue.protected.dq refl
        (dequeue_main-Tracks h h.queue.main.dq refl t) t

  drain-Tracks : (h : History) → Tracks h → Tracks (step h drain)
  unfolding step
  drain-Tracks h t =
      subst (λ r. Tracks (after_drain h r)) (sym (drain_into_lem h.queue []))
        (record {
          levels_fixed = t.levels_fixed;
          main_fixed = t.main_fixed;
          protected_fixed = t.protected_fixed;
          main_bounded = omega arith;
          protected_bounded = omega arith;
          main_class = tt;
          protected_class = tt;
          protected_order =
              drained_order (is_protected levels) h.accepted h.served h.queue.protected.dq
                h.queue.main.dq h.queue.protected.dq t.protected_order
                (ap₂ ◌++◌ (keep_if-All _ h.queue.protected.dq t.protected_class)
                    (keep_if-none _ h.queue.main.dq t.main_class)
                  ∙ append-nil h.queue.protected.dq);
          main_order =
              drained_order (λ v. not (is_protected levels v)) h.accepted h.served
                h.queue.protected.dq h.queue.main.dq h.queue.main.dq t.main_order
                (ap₂ ◌++◌
                  (keep_if-none _ h.queue.protected.dq
                    (not-All _ true h.queue.protected.dq t.protected_class))
                  (keep_if-All _ h.queue.main.dq (not-All _ false h.queue.main.dq t.main_class)));
          protected_drops = t.protected_drops;
          main_drops = t.main_drops;
        })

  step-Tracks : (h : History) (op : Op) → Tracks h → Tracks (step h op)
  unfolding step activate_shedding deactivate_shedding
  step-Tracks h (enqueue item) t = enqueue-Tracks h item t
  step-Tracks h dequeue t = dequeue-Tracks h t
  step-Tracks h drain t = drain-Tracks h t
  step-Tracks h activate t = ground (arith, t)
  step-Tracks h deactivate t = ground (arith, t)

  pub run-Tracks : (h : History) (ops : List Op) → Tracks h → Tracks (run h ops)
  unfolding run
  run-Tracks h [] t = t
  run-Tracks h (op ∷ ops) t = run-Tracks (step h op) ops (step-Tracks h op t)

abbrev pub fresh : Dual Value → History
fresh q = record { queue = q; accepted = []; served = []; refused = [] }

-- Whatever is enqueued, dequeued and drained, and whenever shedding is switched on or off, on a new
-- queue: neither part holds more than its capacity, each part
-- holds only events of its class, the events of either class come out in the order in which they
-- were accepted with none lost or made up, and the two drop counters count the refused events.
pub run-fresh-Tracks :
    (main_capacity protected_capacity : ℕ) (levels : List Text) (q : Dual Value) (ops : List Op)
    → init main_capacity protected_capacity levels ≡ some q
    → Tracks levels main_capacity protected_capacity (run (fresh q) ops)
unfolding init Ring.init
run-fresh-Tracks m p levels q ops e = run-Tracks levels m p (fresh q) ops (ground arith)

-- what a dequeue of parts that hold `protected` and `main` may hand out, and what it leaves
abbrev pub Handed : Dual Value → List Value → List Value → Dual Value × Option Value → Type 0
Handed q (first ∷ rest) main (q', item) =
    (item ≡ some first) × (q'.protected.dq ≡ rest) × (q'.main ≡ q.main)
Handed q [] [] (q', item) = (item ≡ none) × (q'.main.dq ≡ []) × (q'.protected.dq ≡ [])
Handed q [] (first ∷ rest) (q', item) =
    (item ≡ (if q.shedding then none else some first))
    × (q'.main.dq ≡ (if q.shedding then first ∷ rest else rest))
    × (q'.protected.dq ≡ [])

Handed-from :
    (q : Dual Value) (protected main : List Value)
    → q.protected.dq ≡ protected
    → q.main.dq ≡ main
    → Handed q protected main (dequeue_protected q (Ring.pop_left q.protected protected))
unfolding dequeue_protected dequeue_main Ring.try_dequeue Ring.pop_left
Handed-from q (first ∷ rest) main e f = (refl, refl, refl)
Handed-from q [] [] e f = rw (f, Ring.pop_left) (ground arith)
Handed-from q [] (first ∷ rest) e f = elim (Bool-cases q.shedding) [
  | inl s ↦ rw s (refl, f, e)
  | inr s ↦ rw s (rw (f, Ring.pop_left) (refl, refl, e))
]

-- A dequeue hands out the oldest protected event if there is one and then leaves the main queue
-- alone; otherwise it hands out the oldest main event, or none while it sheds.
pub dequeue_prefers_protected : (q : Dual Value) → Handed q q.protected.dq q.main.dq (try_dequeue q)
unfolding try_dequeue Ring.try_dequeue
dequeue_prefers_protected q = Handed-from q q.protected.dq q.main.dq refl refl
