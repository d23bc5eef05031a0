-- ===== src/Node.antt =====
-- emcache/node.py: a node between its connection pool and the cluster, and a cluster with the pools of
-- its nodes, as the callbacks tie them together.
pub mod Tracked
pub mod Health
pub mod Management
use mathlib.Core.List.{reverse}
use emcache.Prelude.{
  ℕ, ◌-◌, Bool, true, false, Option, none, some, List, [], ◌∷◌, Bytes, length, take, ◌==◌,
  if◌then◌else◌, ℤ,
}
use emcache.Outcome.{Result, returned, failed, attribute_error}
use emcache.Pool.State.{Pool}
use emcache.Pool.Create.{new_pool}
use emcache.Pool.Methods
use emcache.Pool.Events.{Event, step}
use emcache.Cluster.{
  Address, host_address, unix_socket_path, Node, Cluster, on_node_healthy_status_change_cb,
}

-- What a node object holds besides its identity and its address. `reports` says whether there is a
-- callback: the nodes that answer configuration requests have none.
pub record NodeState : Type 0 where
  pub healthy : Bool
  pub reports : Bool
  pub closed : Bool
  pub connection_pool : Pool

-- `Node(...)`; `none` is a `ValueError` of the pool.
unfoldable pub new_node : ℤ → ℤ → Option ℕ → Bool → Option NodeState
new_node max_connections min_connections purge reports =
    elim (new_pool max_connections min_connections purge) [
      | none ↦ none
      | some p ↦
          some (record { healthy = true; reports = reports; closed = false; connection_pool = p })
    ]

-- `close()`; `none` is a failed assertion.
unfoldable pub close : NodeState → Option NodeState
close n = if n.closed then none else elim (Methods.close n.connection_pool) [
  | none ↦ none
  | some p ↦ some (record n { closed = true; connection_pool = p })
]

-- The properties `host`, `port` and `path`.
unfoldable pub host : Address → Result Bytes
host (host_address address port) = returned address
host (unix_socket_path path) = failed attribute_error

unfoldable pub port_of : Address → Result ℤ
port_of (host_address address port) = returned port
port_of (unix_socket_path path) = failed attribute_error

unfoldable pub path_of : Address → Result Bytes
path_of (host_address address port) = failed attribute_error
path_of (unix_socket_path path) = returned path

-- A cluster, with what each of its node objects holds.
pub record System : Type 0 where
  pub cluster : Cluster
  pub node_states : ℕ → NodeState

unfoldable pub set_state : ℕ → NodeState → (ℕ → NodeState) → ℕ → NodeState
set_state i st states j = if j == i then st else states j

-- What a pool told its node since it was `p`, the first notice first.
unfoldable pub new_notices : Pool → Pool → List Bool
new_notices p q = reverse (take (length q.notices - length p.notices) q.notices)

module _ (murmur : Bytes → ℕ → ℕ) where
  -- `_on_connection_pool_healthy_status_change_cb(healthy)`, with the call of the cluster's
  -- callback. What is left after an exception is not followed.
  unfoldable pub on_connection_pool_healthy_status_change_cb : System → Node → Bool → Result System
  on_connection_pool_healthy_status_change_cb s n healthy =
      let st : NodeState = record (s.node_states n.identity) { healthy = healthy } in
      let states = set_state n.identity st s.node_states in
      if st.reports
      then elim (on_node_healthy_status_change_cb murmur s.cluster n healthy) [
        | returned c ↦ returned (record { cluster = c; node_states = states })
        | failed e ↦ failed e
      ]
      else returned (record s { node_states = states })

  unfoldable pub report_all : System → Node → List Bool → Result System
  report_all s n [] = returned s
  report_all s n (b ∷ bs) = elim (on_connection_pool_healthy_status_change_cb s n b) [
    | returned t ↦ report_all t n bs
    | failed e ↦ failed e
  ]

  -- Something happens to the pool of the node `n`. The callbacks do not read the pool, so they may run
  -- at the end.
  unfoldable pub pool_event : System → Node → Event → Result System
  unfolding report_all
  pool_event s n e =
      let st : NodeState = s.node_states n.identity in
      let q : Pool = step st.connection_pool e in
      report_all
        (record s {
          node_states = set_state n.identity (record st { connection_pool = q }) s.node_states;
        })
        n (new_notices st.connection_pool q)

  -- Things happen to the pools of several nodes, in any order.
  unfoldable pub pool_events : System → List (Node × Event) → Result System
  pool_events s [] = returned s
  pool_events s ((n, e) ∷ es) = elim (pool_event s n e) [
    | returned t ↦ pool_events t es
    | failed e' ↦ failed e'
  ]
