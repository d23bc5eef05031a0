-- ===== src/Autobatching/Finish/Sent.antt =====
-- From the operations that wait for the next iteration of the event loop to their end.
use emcache.Prelude.{
  ℕ, ◌≡◌, refl, ap, sym, subst, ◌∙◌, arith, ◌≤◌, true, false, List, [], ◌∷◌, ◌++◌, Bytes, bytes_eq,
  All, map, length, length-append, if_case,
}
use mathlib.Core.List.{Permᴰ, flatten}
use emcache.Client.Fetch.{has_key}
use emcache.Outcome.{returned}
use emcache.Cluster.{Cluster, pick_nodes}
use emcache.Autobatching.{Ops, Batch, running}
use emcache.Autobatching.Sending.{
  Autobatching, Batches, add_op, op_keys, start_groups, send_groups, send_batches,
}
use emcache.Autobatching.Completion.{All-returned}
use emcache.Autobatching.Finish.Keys.{Distinct}
use emcache.Autobatching.Finish.Shuffles.{
  All-Permᴰ, length-Permᴰ, Distinct-Permᴰ, Distinct-left, Distinct-right, Distinct-apart, All-left,
  All-right, flatten-Permᴰ,
}
use emcache.Autobatching.Finish.Grouped.{keys_in, keys_in-start_groups, keys_in-pick_nodes}
use emcache.Autobatching.Finish.{
  Task, keys_of, run_tasks, Disjoint, number_of_keys, IsFinished, run_tasks-IsFinished,
}

abbrev all_keys : List Task → List Bytes
all_keys ts = flatten (map keys_of ts)

All-tasks :
    (P : Bytes → Type 0) (ts : List Task) → All P (all_keys ts) → All (λ u. All P (keys_of u)) ts
unfolding flatten
All-tasks P [] h = tt
All-tasks P (t ∷ ts) h = (
  All-left P (keys_of t) (all_keys ts) h,
  All-tasks P ts (All-right P (keys_of t) (all_keys ts) h),
)

Disjoint-tasks : (ts : List Task) → Distinct (all_keys ts) → Disjoint ts
unfolding flatten
Disjoint-tasks [] d = tt
Disjoint-tasks (t ∷ ts) d = (
  Distinct-left (keys_of t) (all_keys ts) d,
  All-tasks (λ x. has_key x (keys_of t) ≡ false) ts (Distinct-apart (keys_of t) (all_keys ts) d),
  Disjoint-tasks ts (Distinct-right (keys_of t) (all_keys ts) d),
)

number_of_keys-all_keys : (ts : List Task) → number_of_keys ts ≡ length (all_keys ts)
unfolding flatten
number_of_keys-all_keys [] = refl
number_of_keys-all_keys (t ∷ ts) =
    omega (arith, number_of_keys-all_keys ts, length-append (keys_of t) (all_keys ts))

flatten-batches : (bs : Batches) → flatten (map (λ b. b.1) bs) ≡ keys_in bs
unfolding flatten
flatten-batches [] = refl
flatten-batches ((node, keys) ∷ bs) = ap (◌++◌ keys) (flatten-batches bs)

length-op_keys : (ops : Ops) → length (op_keys ops) ≡ length ops
length-op_keys [] = refl
length-op_keys ((key, fs) ∷ ops) = omega (arith, length-op_keys ops)

-- The operations of a batch, once they are sent.
abbrev pub sent : Autobatching → Batch
sent a = record { ops = a.pending_ops; futures = a.futures; finished = false }

-- When an open client's operations are sent, they are in flight as the tasks of their nodes; and in
-- whatever order these tasks get a response, which has a value for each of their keys or not, or run into
-- their timeout, in the end no operation is left, the end of the batch has been signalled, and every
-- future that waited for one of the keys is done. The cluster has nodes, a task may have at least one
-- key, the keys of the operations are distinct, and nobody asked for flags or cas numbers.
pub send_batches-IsFinished :
    (murmur : Bytes → ℕ → ℕ) (cluster : Cluster) (max_keys : ℕ) (a : Autobatching)
    (groups : List (ℕ × List Bytes)) (t : Task) (ts : List Task)
    → 1 ≤ max_keys
    → Distinct (op_keys a.pending_ops)
    → pick_nodes murmur cluster (op_keys a.pending_ops) ≡ returned groups
    → Permᴰ
        (map (λ (b : ℕ × List Bytes). b.1) (start_groups max_keys groups))
        (map keys_of (t ∷ ts))
    → ((send_batches murmur cluster max_keys false a).0.inflight_batches
        ≡ a.inflight_batches ++ (a.pending_ops, start_groups max_keys groups) ∷ [])
      × ((c : Batch) × (run_tasks (t ∷ ts) (sent a) ≡ running c) × IsFinished (sent a) c)
unfolding send_batches send_groups
send_batches-IsFinished murmur cluster max_keys a groups t ts m d picked p =
    let keys = op_keys a.pending_ops in
    let tasks_keys : Permᴰ (keys_in groups) (all_keys (t ∷ ts)) =
      subst (λ l. Permᴰ l (all_keys (t ∷ ts)))
        (flatten-batches (start_groups max_keys groups) ∙ keys_in-start_groups max_keys groups m)
        (flatten-Permᴰ p) in
    let shuffled : Permᴰ keys (all_keys (t ∷ ts)) =
      Permᴰ.trans (keys_in-pick_nodes murmur cluster keys groups picked) tasks_keys in
    (
      ap (λ r. (send_groups max_keys r a).0.inflight_batches) picked,
      run_tasks-IsFinished t ts (sent a) (Disjoint-tasks (t ∷ ts) (Distinct-Permᴰ shuffled d))
          (All-tasks (λ k. has_key k keys ≡ true) (t ∷ ts)
            (All-Permᴰ (λ k. has_key k keys ≡ true) shuffled (All-returned keys)))
          (number_of_keys-all_keys (t ∷ ts)
            ∙ sym (length-Permᴰ shuffled)
            ∙ length-op_keys a.pending_ops),
    )

All-add_op :
    (P : Bytes → Type 0) (key : Bytes) (future : ℕ) (ops : Ops)
    → P key
    → All P (op_keys ops)
    → All P (op_keys (add_op key future ops))
unfolding add_op
All-add_op P key future [] h k = (h, tt)
All-add_op P key future ((l, fs) ∷ ops) h k =
    if_case (λ (o : Ops). All P (op_keys o)) (bytes_eq key l) (λ _. k)
      (λ _. (k.0, All-add_op P key future ops h k.1))

-- Asking for a key keeps the keys of the operations distinct.
pub add_op-Distinct :
    (key : Bytes) (future : ℕ) (ops : Ops)
    → Distinct (op_keys ops)
    → Distinct (op_keys (add_op key future ops))
unfolding add_op
add_op-Distinct key future [] d = (tt, tt)
add_op-Distinct key future ((l, fs) ∷ ops) d =
    if_case (λ (o : Ops). Distinct (op_keys o)) (bytes_eq key l) (λ _. d)
      (λ e. (
        All-add_op (λ x. bytes_eq x l ≡ false) key future ops e d.0,
        add_op-Distinct key future ops d.1,
      ))
