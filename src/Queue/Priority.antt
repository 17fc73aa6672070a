-- ===== src/Queue/Priority.antt =====
-- core/concurrency.py, PriorityAwareQueue: a bounded queue in which a protected event may evict the
-- oldest unprotected one. An evicted event stays in the deque, marked by a key of the event itself,
-- and the queue shares the event objects with its callers: so the objects live on a heap, and the
-- deques hold references.
pub mod Size
pub mod Overfill
pub mod Dequeue
mod Tests
use fapilog.Prelude.{
  ℕ, ◌*◌, Bool, true, false, not, ◌&&◌, ◌||◌, Option, none, some, List, [], ◌∷◌, ◌++◌, Text, codes,
  length, ltb, leb, ◌==◌, keep_if, if◌then◌else◌,
}
use fapilog.Prelude.Int.{ℤ, pos, negsuc, pos_part, neg_part, succ_ℤ, pred_ℤ, sub_ltb}
use fapilog.Prelude.Value.{Value, null, dict, bool, Fields, put, delete, get_truthy, has}
use fapilog.Queue.Level.{is_protected}

pub record Priority : Type 0 where
  pub capacity : ℕ
  pub protected_levels : List Text
  pub heap : ℕ → Value
  pub dq : List ℕ
  pub unprotected_refs : List ℕ
  pub tombstone_count : ℤ

-- `none` is the ValueError of a capacity that is not positive
unfoldable pub init : ℕ → List Text → (ℕ → Value) → Option Priority
init capacity levels heap =
    if leb capacity 0
    then none
    else some (record {
      capacity = capacity;
      protected_levels = levels;
      heap = heap;
      dq = [];
      unprotected_refs = [];
      tombstone_count = pos 0;
    })

abbrev pub evicted_key : Text
evicted_key = codes "_evicted"

-- `len(dq) - tombstone_count < capacity`
unfoldable pub has_room : Priority → Bool
has_room q = sub_ltb (length q.dq) q.tombstone_count q.capacity

unfoldable pub is_full : Priority → Bool
unfolding has_room
is_full q = not (has_room q)

unfoldable pub mark : Value → Value
mark (dict d) = dict (put evicted_key (bool true) d)
mark v = v

abbrev pub update : (ℕ → Value) → ℕ → Value → ℕ → Value
update heap r v s = if s == r then v else heap s

evict : Priority → ℕ → List ℕ → Priority × Bool
unfolding mark
evict q item [] = (q, false)
evict q item (oldest ∷ refs) = (
  record q {
    heap = update q.heap oldest (mark (q.heap oldest));
    dq = q.dq ++ item ∷ [];
    unprotected_refs = refs;
    tombstone_count = succ_ℤ q.tombstone_count;
  },
  true,
)

unfoldable pub try_enqueue : Priority → ℕ → Priority × Bool
unfolding has_room evict
try_enqueue q item =
    let protected = is_protected q.protected_levels (q.heap item) in
    if has_room q
    then (
      record q {
        dq = q.dq ++ item ∷ [];
        unprotected_refs =
            if protected then q.unprotected_refs else q.unprotected_refs ++ item ∷ [];
      },
      true,
    )
    else if protected
    then evict q item q.unprotected_refs
    else (q, false)

-- `isinstance(item, dict) and item.get("_evicted")`
unfoldable pub is_tombstone : Value → Bool
is_tombstone (dict d) = get_truthy evicted_key d
is_tombstone v = false

unfoldable pub is_null : Value → Bool
is_null null = true
is_null v = false

-- the marker is taken off a live event
unfoldable pub unmark : Value → Value
unmark (dict d) = if has evicted_key d then dict (delete evicted_key d) else dict d
unmark v = v

-- Compaction, which only `try_dequeue` calls, on an empty deque.
unfoldable pub compact_if_needed : Priority → Priority
unfolding is_tombstone is_null
compact_if_needed q =
    if length q.dq == 0
    then q
    else if ltb (length q.dq) (pos_part q.tombstone_count * 4)
    then (let kept = keep_if (λ r. not (is_null (q.heap r) || is_tombstone (q.heap r))) q.dq in
        record q {
          dq = kept;
          unprotected_refs = keep_if (λ r. not (is_protected q.protected_levels (q.heap r))) kept;
          tombstone_count = pos 0;
        })
    else q

-- the loop of `try_dequeue`, over what is left of the deque
dequeue_from : Priority → List ℕ → Priority × Option ℕ
unfolding compact_if_needed is_tombstone is_null unmark
dequeue_from q [] = (compact_if_needed (record q { dq = [] }), none)
dequeue_from q (item ∷ rest) =
    let skip = dequeue_from q rest in
    let skip_tombstone =
      dequeue_from (record q { tombstone_count = pred_ℤ q.tombstone_count }) rest in
    if is_null (q.heap item)
    then skip
    else if is_tombstone (q.heap item)
    then skip_tombstone
    else (record q { heap = update q.heap item (unmark (q.heap item)); dq = rest }, some item)

unfoldable pub try_dequeue : Priority → Priority × Option ℕ
unfolding dequeue_from
try_dequeue q = dequeue_from q q.dq
