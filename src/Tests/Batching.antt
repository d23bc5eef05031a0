-- ===== src/Tests/Batching.antt =====
-- Batches of keys.
use mathlib.Core.List.Permᴰ
use emcache.Rendezvous.{nodes_selection, rendezvous_node}
use mathlib.Core.List.{flatten}
use emcache.Autobatching.Batches.{IsBatch, slices-split}
use emcache.Autobatching.{slices}
use emcache.Autobatching.Finish.{Task, answered, timed_out, run_tasks, IsFinished}
use emcache.Autobatching.Finish.Keys.{Distinct}
use emcache.Autobatching.Finish.Sent.{sent, send_batches-IsFinished}
use emcache.Autobatching.Sending.{start_groups, send_batches}
use emcache.Prelude.{
  ℕ, bytes_eq_differ, All, ◌≡◌, refl, arith, true, false, none, some, List, [], ◌∷◌, Bytes,
  bytes_eq, codes, pos,
}
use emcache.Autobatching.{
  running, type_error, pending, result, settle, pop, Batch, crashed, slices, batch_results,
}
use emcache.Outcome.{no_available_nodes}
use emcache.Cluster.{Cluster, pick_nodes}
use emcache.Autobatching.Sending.{Autobatching}
use emcache.Autobatching.Sending.Stuck.{Action, call, iteration, acts, send_batches-stuck}
use emcache.Tests.Values.{toy_murmur, one_node}
use emcache.Autobatching.Resolved.{Slot, found, missing, other, resolved}
use emcache.Autobatching.Found.{ops_of, asked, returned_keys, returned_values}
use emcache.Autobatching.Settled.{batch_results-settles}
use emcache.Autobatching.Columns.{batch_results-crashes}

abbrev keys : List Bytes
keys = codes "a" ∷ codes "b" ∷ codes "c" ∷ []

abbrev batch : Batch
batch = record {
  ops = (codes "a", 0 ∷ []) ∷ (codes "b", 1 ∷ []) ∷ [];
  futures = λ f. pending;
  finished = false;
}

batch_results-crashes_example :
    batch_results true false
      (codes "a" ∷ codes "b" ∷ [])
      (codes "a" ∷ codes "b" ∷ [])
      (codes "v" ∷ codes "w" ∷ [])
      (some (pos 5) ∷ some (pos 6) ∷ [])
      (none ∷ none ∷ [])
      batch
    ≡ crashed type_error (record batch {
      ops = (codes "b", 1 ∷ []) ∷ [];
      futures =
          settle
            (result (some (record { value = codes "v"; flags = some (pos 5); cas = none })))
            (0 ∷ [])
            batch.futures;
    })
unfolding pop bytes_eq
batch_results-crashes_example =
    batch_results-crashes true false (codes "a" ∷ codes "b" ∷ []) (codes "a") (codes "b") []
      (codes "v") (codes "w") [] (some (pos 5)) (some (pos 6) ∷ []) none (none ∷ []) batch (0 ∷ [])
      ((codes "b", 1 ∷ []) ∷ []) refl refl

-- "a" is found and "b" is not; another batch asks for "c".
abbrev slots : List Slot
slots =
    found (codes "a") (codes "v") (0 ∷ 1 ∷ [])
    ∷ other (codes "c") (2 ∷ [])
    ∷ missing (codes "b") (3 ∷ [])
    ∷ []

slices-split_example : (flatten (slices 3 2 keys) ≡ keys) × All (IsBatch 2) (slices 3 2 keys)
slices-split_example = slices-split 2 keys (omega arith)

batch_results-settles_example :
    batch_results false false
      (asked slots)
      (returned_keys slots)
      (returned_values slots)
      []
      []
      (record { ops = ops_of slots; futures = λ f. pending; finished = false })
    ≡ running (record {
      ops = (codes "c", 2 ∷ []) ∷ [];
      futures = λ f. resolved slots f pending;
      finished = false;
    })
unfolding bytes_eq
batch_results-settles_example =
    batch_results-settles slots [] [] (λ f. pending)
      (
        (
          bytes_eq_differ (codes "c") (codes "a") refl,
          (bytes_eq_differ (codes "b") (codes "a") refl, tt),
        ),
        ((bytes_eq_differ (codes "b") (codes "c") refl, tt), (tt, tt)),
      )

-- A cluster that has purged its last node.
abbrev empty_cluster : Cluster
empty_cluster = record one_node { rdz_nodes = some [] }

abbrev waiting : Autobatching
waiting = record {
  pending_ops = (codes "foo", 0 ∷ []) ∷ [];
  scheduled = true;
  queued = true;
  futures = λ f. pending;
  next_future = 1;
  inflight_batches = [];
}

-- Another key is asked for, and the cluster has a node again.
abbrev afterwards : List Action
afterwards = call false (codes "bar") ∷ iteration one_node false ∷ []

send_batches-stuck_example :
    let after = acts toy_murmur 32 waiting (iteration empty_cluster false ∷ afterwards) in
    (after.futures ≡ waiting.futures) × (after.inflight_batches ≡ waiting.inflight_batches)
unfolding pick_nodes
send_batches-stuck_example =
    send_batches-stuck toy_murmur 32 waiting empty_cluster no_available_nodes afterwards refl refl
      refl

-- Two tasks wait for "foo", and one for "bar"; each key travels alone.
abbrev asking : Autobatching
asking = record waiting { pending_ops = (codes "foo", 0 ∷ 1 ∷ []) ∷ (codes "bar", 2 ∷ []) ∷ [] }

abbrev groups : List (ℕ × List Bytes)
groups = (7, codes "foo" ∷ codes "bar" ∷ []) ∷ []

-- The second runs into its timeout before the response to the first comes.
abbrev late : Task
late = timed_out (codes "bar" ∷ [])

abbrev early : Task
early = answered ((codes "foo", some (codes "v")) ∷ []) (some (pos 0) ∷ []) (none ∷ [])

foo_bar-Distinct : Distinct (codes "foo" ∷ codes "bar" ∷ [])
unfolding bytes_eq
foo_bar-Distinct = ((refl, tt), (tt, tt))

send_batches-IsFinished_example :
    ((send_batches toy_murmur one_node 1 false asking).0.inflight_batches
      ≡ (asking.pending_ops, start_groups 1 groups) ∷ [])
    × ((c : Batch) × (run_tasks (late ∷ early ∷ []) (sent asking) ≡ running c)
        × IsFinished (sent asking) c)
unfolding pick_nodes nodes_selection rendezvous_node start_groups slices
send_batches-IsFinished_example =
    send_batches-IsFinished toy_murmur one_node 1 asking groups late (early ∷ []) (omega arith)
      foo_bar-Distinct refl (Permᴰ.swap refl refl)
