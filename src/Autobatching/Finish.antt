-- ===== src/Autobatching/Finish.antt =====
-- The end of a whole batch (emcache/autobatching.py): the tasks of its nodes, each with a response or a
-- timeout, in the order in which they come to it.
pub mod Pops
pub mod Keys
pub mod Ends
pub mod Shuffles
pub mod Grouped
pub mod Sent
use emcache.Prelude.{
  ℕ, ◌+◌, ◌≡◌, refl, ap, sym, subst, ◌∙◌, arith, Bool, true, false, ◌||◌, Option, List, [], ◌∷◌,
  ◌++◌, Bytes, All, length, ℤ,
}
use emcache.Client.Fetch.{has_key}
use emcache.Autobatching.{
  Future, is_done, Ops, Batch, Progress, running, continue_with, column, wake_returned,
  wake_missing, maybe_signal_termination, batch_results, batch_timeout,
}
use emcache.Autobatching.Sending.{op_keys}
use emcache.Autobatching.Finish.Pops.{waits, covered, Woken, Wakes, Woken-append}
use emcache.Autobatching.Finish.Keys.{Answers, asked, found, values, Distinct}
use emcache.Autobatching.Finish.Ends.{
  Present, Present-Woken, task_answered, task_timed_out, signalled, signalled-Woken, signalled-nil,
}

-- What a task comes to: a response with a value or none for each of its keys, in their order and with
-- columns of flags and cas numbers that nobody asked for, or a timeout.
pub data Task : Type 0 where
  answered : Answers → List (Option ℤ) → List (Option ℤ) → Task
  timed_out : List Bytes → Task

abbrev pub keys_of : Task → List Bytes
keys_of (answered a flags cas) = asked a
keys_of (timed_out keys) = keys

-- `_batch_operation`, without flags and cas numbers.
unfoldable pub batch_operation : Task → Batch → Progress
batch_operation (answered a flags cas) b =
    batch_results false false (asked a) (found a) (values a) flags cas b
batch_operation (timed_out keys) b = batch_timeout keys b

unfoldable pub run_tasks : List Task → Batch → Progress
unfolding batch_operation
run_tasks [] b = running b
run_tasks (t ∷ ts) b = continue_with (batch_operation t b) (run_tasks ts)

-- No two tasks ask for the same key, and none asks for a key twice.
abbrev pub Disjoint : List Task → Type 0
Disjoint [] = Unit
Disjoint (t ∷ ts) =
    Distinct (keys_of t)
    × All (λ u. All (λ x. has_key x (keys_of t) ≡ false) (keys_of u)) ts
    × Disjoint ts

abbrev pub number_of_keys : List Task → ℕ
number_of_keys [] = 0
number_of_keys (t ∷ ts) = length (keys_of t) + number_of_keys ts

batch_operation-Woken :
    (t : Task) (b : Batch)
    → Distinct (keys_of t)
    → Present b (keys_of t)
    → (c : Batch) × (batch_operation t b ≡ running (signalled c)) × Woken (keys_of t) b c
unfolding batch_operation
batch_operation-Woken (answered a flags cas) b d p = task_answered a flags cas b d p
batch_operation-Woken (timed_out keys) b d p = task_timed_out keys b d p

Present-others :
    (t : Task) (ts : List Task) (b c : Batch)
    → Woken (keys_of t) b c
    → All (λ u. All (λ x. has_key x (keys_of t) ≡ false) (keys_of u)) ts
    → All (λ u. Present b (keys_of u)) ts
    → All (λ u. Present c (keys_of u)) ts
Present-others t [] b c w n p = tt
Present-others t (u ∷ ts) b c w n p =
    (Present-Woken (keys_of t) b c (keys_of u) w n.0 p.0, Present-others t ts b c w n.1 p.1)

length_zero : (ops : Ops) → length ops ≡ 0 → ops ≡ []
length_zero [] h = refl
length_zero (o ∷ ops) h = ground arith

-- The batch has ended, and no future is left waiting.
abbrev pub IsFinished : Batch → Batch → Type 0
IsFinished b c =
    (c.ops ≡ [])
    × (c.finished ≡ true)
    × ((f : ℕ) → covered b f ≡ true → is_done (c.futures f) ≡ true)

last-IsFinished :
    (keys : List Bytes) (b c : Batch)
    → Woken keys b c
    → length keys ≡ length b.ops
    → IsFinished b (signalled c)
last-IsFinished keys b c w e =
    let empty : c.ops ≡ [] = length_zero c.ops (omega (arith, e, w.count)) in
    let done : (f : ℕ) → covered b f ≡ true → is_done (c.futures f) ≡ true = λ f h.
      let left : (is_done (c.futures f) || waits f []) ≡ true =
        subst (λ (ops : Ops). (is_done (c.futures f) || waits f ops) ≡ true) empty (w.still f h) in
      ground arith in
    subst (IsFinished b) (sym (signalled-nil c empty)) (empty, refl, done)

-- However many tasks a batch has, and in whatever order they get a response, which has a value for each of
-- their keys or not, or run into their timeout: if between them they ask for each of the batch's
-- operations once, and nobody asked for flags or cas numbers, then in the end no operation is left, the end
-- of the batch has been signalled, and every future that waited for one of the operations is done.
pub run_tasks-IsFinished :
    (t : Task) (ts : List Task) (b : Batch)
    → Disjoint (t ∷ ts)
    → All (λ u. Present b (keys_of u)) (t ∷ ts)
    → number_of_keys (t ∷ ts) ≡ length b.ops
    → (c : Batch) × (run_tasks (t ∷ ts) b ≡ running c) × IsFinished b c
unfolding run_tasks continue_with
run_tasks-IsFinished t [] b d p n =
    let (c, e, w) = batch_operation-Woken t b d.0 p.0 in
    (
      signalled c,
      ap (λ r. continue_with r (run_tasks [])) e,
      last-IsFinished (keys_of t) b c w (omega (arith, n)),
    )
run_tasks-IsFinished t (u ∷ ts) b d p n =
    let (c, e, w) = batch_operation-Woken t b d.0 p.0 in
    let v = signalled-Woken (keys_of t) b c w in
    let (z, q, (ends, told, done)) =
      run_tasks-IsFinished u ts (signalled c) d.2
        (Present-others t (u ∷ ts) b (signalled c) v d.1 p.1) (omega (arith, n, v.count)) in
    (
      z,
      ap (λ r. continue_with r (run_tasks (u ∷ ts))) e ∙ q,
      (ends, told, λ f h. done f (v.still f h)),
    )
