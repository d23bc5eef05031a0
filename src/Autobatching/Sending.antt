-- ===== src/Autobatching/Sending.antt =====
-- `AutoBatching` (emcache/autobatching.py): the operations of one loop iteration, from `execute` to the
-- tasks that fetch them.
pub mod Stuck
use emcache.Prelude.{
  ℕ, zero, suc, Bool, true, false, Option, none, some, List, [], ◌∷◌, ◌++◌, Bytes, bytes_eq, length,
  if◌then◌else◌, map, take, drop,
}
use emcache.KeyValidation.{is_key_valid}
use emcache.Outcome.{Error, Result, returned, failed}
use emcache.Cluster.{Cluster, pick_nodes}
use emcache.Autobatching.{
  Exception, runtime_error, value_error, Future, exception, Ops, settle, slices,
}

-- A task: its node and the keys that it asks for.
abbrev pub Batches : Type 0
Batches = List (ℕ × List Bytes)

-- `scheduled` says whether `_next_loop_handler` is set, and `queued` whether the event loop still has
-- the callback; `inflight_batches` are the operations of each start, with their tasks.
pub record Autobatching : Type 0 where
  pub pending_ops : Ops
  pub scheduled : Bool
  pub queued : Bool
  pub futures : ℕ → Future
  pub next_future : ℕ
  pub inflight_batches : List (Ops × Batches)

-- `pending_ops[key] = [future]`, or `.append(future)` to a list that is there.
unfoldable pub add_op : Bytes → ℕ → Ops → Ops
add_op key future [] = (key, future ∷ []) ∷ []
add_op key future ((k, futures) ∷ ops) =
    if bytes_eq key k
    then (k, futures ++ future ∷ []) ∷ ops
    else (k, futures) ∷ add_op key future ops

pub data Executed : Type 0 where
  awaiting : ℕ → Autobatching → Executed
  refused : Exception → Executed

-- `call_soon`, unless a handler is set.
unfoldable pub schedule : Autobatching → Autobatching
schedule a = if a.scheduled then a else record a { scheduled = true; queued = true }

-- `execute(key)`; `closed` is the client's.
unfoldable pub execute : Bool → Autobatching → Bytes → Executed
unfolding add_op schedule
execute closed a key =
    if closed
    then refused runtime_error
    else if is_key_valid key
    then awaiting a.next_future (
        schedule (record a {
          pending_ops = add_op key a.next_future a.pending_ops;
          next_future = suc a.next_future;
        }))
    else refused value_error

unfoldable pub settle_all : Future → Ops → (ℕ → Future) → ℕ → Future
settle_all r [] futures = futures
settle_all r ((key, fs) ∷ ops) futures = settle_all r ops (settle r fs futures)

abbrev pub op_keys : Ops → List Bytes
op_keys [] = []
op_keys ((key, fs) ∷ ops) = key ∷ op_keys ops

-- The tasks of `_start`, for the groups of `pick_nodes`.
unfoldable pub start_groups : ℕ → List (ℕ × List Bytes) → Batches
unfolding slices
start_groups max_keys [] = []
start_groups max_keys ((node, keys) ∷ groups) =
    map (λ batch. (node, batch)) (slices (length keys) max_keys keys)
    ++ start_groups max_keys groups

-- `_send_batches` for an open client, once `pick_nodes` has answered: its exception leaves the method.
unfoldable pub send_groups :
    ℕ → Result (List (ℕ × List Bytes)) → Autobatching → Autobatching × Option Error
unfolding start_groups
send_groups max_keys (failed e) a = (a, some e)
send_groups max_keys (returned groups) a = (
  record a {
    inflight_batches = a.inflight_batches ++ (a.pending_ops, start_groups max_keys groups) ∷ [];
    scheduled = false;
    pending_ops = [];
  },
  none,
)

-- `_send_batches()`, with the exception that it raises.
unfoldable pub send_batches :
    (Bytes → ℕ → ℕ) → Cluster → ℕ → Bool → Autobatching → Autobatching × Option Error
unfolding settle_all
send_batches murmur cluster max_keys closed a =
    if closed
    then (
      record a {
        futures = settle_all (exception runtime_error) a.pending_ops a.futures;
        scheduled = false;
        pending_ops = [];
      },
      none,
    )
    else send_groups max_keys (pick_nodes murmur cluster (op_keys a.pending_ops)) a

-- The next iteration of the event loop, which logs an exception of a callback and goes on.
unfoldable pub next_iteration : (Bytes → ℕ → ℕ) → Cluster → ℕ → Bool → Autobatching → Autobatching
next_iteration murmur cluster max_keys closed a =
    if a.queued
    then (send_batches murmur cluster max_keys closed (record a { queued = false })).0
    else a

-- `_on_finish_batch(batch)`: `i` is the batch's place among those in flight.
unfoldable pub on_finish_batch : ℕ → Autobatching → Autobatching
on_finish_batch i a = record a {
  inflight_batches = take i a.inflight_batches ++ drop (suc i) a.inflight_batches;
}
