-- ===== src/Tests/Clusters.antt =====
-- Clusters that are discovered, closed, and told about their nodes' health.
use emcache.Prelude.{
  some, ℕ, ◌≡◌, refl, ◌≢◌, arith, Bool, true, false, if◌then◌else◌, ◌==◌, none, List, [], ◌∷◌, ◌++◌,
  Bytes, codes, pos, ℤ, All,
}
use emcache.Outcome.{Result, returned, failed, attribute_error, runtime_error, node_error, raise}
use emcache.Pool.State.{Config, Pool, result, attempting}
use emcache.Pool.Create.{fresh_pool}
use emcache.Pool.Methods.{ready, create_connection_context, release_connection}
use emcache.Pool.Events.{Event, acquire, created, failed, retry, lost, run}
use emcache.Pool.Reuse.{release-never_reused}
use emcache.Cluster.{Address, host_address, Node, Cluster, nodes, int_eq, contains}
use emcache.Cluster.Tracking.{IsBuilt, tracked_as}
use emcache.Cluster.Discover.{
  Answer, poll, timed_out, answered, autodiscover, close, has_address, address_of,
}
use emcache.Cluster.Discover.Refinement.{view, updated, autodiscover-updated}
use emcache.Cluster.Discover.Unset.{polls, brings_nothing}
use emcache.Cluster.Discover.Closing.{all_closed, none_closed, close-all, Finished}
use emcache.Node.{NodeState, System, pool_events}
use emcache.Node.Health.{InSync, pool_events-InSync}
use emcache.KeyValidation.{is_key_valid}
use emcache.Client.{Client}
use emcache.Client.Fetch.{fetch_command}
use emcache.Client.Life.Undiscovered.{create_client-undiscovered}
use emcache.Client.Life.{create_client, Command, execute, get}
use emcache.Client.Life
use emcache.Client.Life.Closed.{close-refuses}
use emcache.Protocol.MultiLine.{Columns}
use emcache.Tests.Values.{toy_murmur, node_a, node_b, one_node, client}
use mathlib.Core.List.{map}

-- A set that keeps the order of its items.
abbrev same_order : List Address → List Address
same_order l = l

abbrev configuration : List (Bytes × Bytes × ℤ)
configuration =
    (codes "b", codes "10.0.0.2", pos 11211) ∷ (codes "c", codes "10.0.0.3", pos 11211) ∷ []

autodiscover-updated_example :
    let d =
      (autodiscover toy_murmur same_order one_node (answered true (pos 3) configuration)).cluster in
    (view d ≡ updated (λ a. has_address a (map address_of configuration)) (view one_node))
    × IsBuilt toy_murmur d
    × (d.autodiscover_config_version ≡ pos 3)
unfolding int_eq
autodiscover-updated_example =
    autodiscover-updated toy_murmur same_order (λ a l. refl) one_node (pos 3)
      (codes "b", codes "10.0.0.2", pos 11211) ((codes "c", codes "10.0.0.3", pos 11211) ∷ []) refl
      refl

abbrev cluster_of : Result Cluster → Cluster
cluster_of (returned c) = c
cluster_of (failed e) = one_node

close-all_example :
    ((close one_node).result ≡ returned true)
    × (all_closed (nodes one_node ++ one_node.discovery_nodes) (close one_node).cluster.closed_nodes
        ≡ true)
    × Finished (close one_node).cluster
unfolding none_closed
close-all_example = close-all one_node refl refl

abbrev config : Config
config = record { max_connections = 2; min_connections = 1; purge_unused_connections_after = none }

abbrev busy : Pool
busy = run (fresh_pool config) (acquire 1 ∷ created 0 3 4 ∷ [])

abbrev later : List Event
later = acquire 6 ∷ created 1 3 7 ∷ lost 1 ∷ []

release-never_reused_example :
    ((d at : ℕ)
      → (create_connection_context (run (release_connection busy 0 true 5) later) at).1 ≡ ready d
      → d ≢ 0)
    × ((w : ℕ)
        → (run (release_connection busy 0 true 5) later).futures w ≡ result 0
        → busy.futures w ≡ result 0)
release-never_reused_example =
    release-never_reused busy 0 5 later (tt, ((λ e. absurd (omega (arith, e))), (tt, tt)))

abbrev state_of : Bool → NodeState
state_of b = record {
  healthy = b;
  reports = true;
  closed = false;
  connection_pool = record (fresh_pool config) {
    healthy = b;
    creating_connection = true;
    creating_connection_task = attempting none 0;
  };
}

-- The node 7 is healthy, and the others are not.
abbrev system : System
system = record {
  cluster = one_node;
  node_states = λ i. if i == 7 then state_of true else state_of false;
}

-- One node fails three times, and the other connects again.
abbrev happenings : List (Node × Event)
happenings =
    (node_a, failed)
    ∷ (node_a, retry)
    ∷ (node_b, created 4 1 2)
    ∷ (node_a, failed)
    ∷ (node_a, retry)
    ∷ (node_a, failed)
    ∷ []

pool_events-InSync_example :
    (t : System) × (pool_events toy_murmur system happenings ≡ returned t)
    × All (InSync t) (node_a ∷ node_b ∷ [])
unfolding contains tracked_as
pool_events-InSync_example =
    pool_events-InSync toy_murmur system (node_a ∷ node_b ∷ []) happenings
      ((refl, refl, refl), ((refl, refl, refl), tt))
      (refl, (refl, (refl, (refl, (refl, (refl, tt))))))

abbrev answers : ℕ → Bytes → Result Bytes
answers node request = returned (codes "STORED")

abbrev no_columns_at : ℕ → Bytes → Result Columns
no_columns_at node request = failed node_error

close-refuses_example :
    execute some toy_murmur answers no_columns_at
      (Life.close client).client
      (get (codes "foo") true)
    ≡ raise runtime_error
close-refuses_example =
    close-refuses some toy_murmur answers no_columns_at client (get (codes "foo") true)

create_client-undiscovered_example :
    (c : Client) × (create_client toy_murmur true true
        (host_address (codes "d") (pos 11211) ∷ [])
        true
        false
        true
        (λ k. poll toy_murmur same_order k timed_out)
      ≡ returned c)
    × ((answers : List Answer) (wire_many : ℕ → Bytes → Result Columns) (command key : Bytes)
        → All (λ x. brings_nothing x ≡ true) answers
        → is_key_valid key ≡ true
        → fetch_command toy_murmur wire_many
            (record c { cluster = polls toy_murmur same_order c.cluster answers })
            command
            key
          ≡ raise attribute_error)
create_client-undiscovered_example =
    create_client-undiscovered toy_murmur same_order true true
      (host_address (codes "d") (pos 11211)) [] true false refl
