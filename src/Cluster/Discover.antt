-- ===== src/Cluster/Discover.antt =====
-- The life of a cluster (emcache/cluster.py): its construction in both modes, `autodiscover` and one
-- round of its monitor, the dispatcher of events, and `close`. The nodes of a configuration are those
-- of emcache/protocol.py; closing nodes waits for nothing that changes the cluster. `arrange` is the
-- order in which Python goes through a set.
pub mod Refinement
pub mod Unset
pub mod Closing
use emcache.Prelude.{
  ℕ, zero, suc, ◌+◌, ◌<◌, ◌≡◌, refl, Bool, true, false, not, ◌&&◌, ◌||◌, Option, none, some, List,
  [], ◌∷◌, ◌++◌, Bytes, bytes_eq, length, ◌==◌, if◌then◌else◌, ℤ, pos, negsuc, map,
}
use emcache.Outcome.{
  Error, runtime_error, value_error, assertion_error, command_error, node_error, Result, returned,
  failed,
}
use emcache.Cluster.{
  Address, host_address, address_eq, int_eq, Node, Cluster, nodes, build_rdz_nodes,
}

-- What the request for the configuration ends with: a timeout, another exception, or the parser's
-- findings.
pub data Answer : Type 0 where
  timed_out : Answer
  broken : Error → Answer
  answered : Bool → ℤ → List (Bytes × Bytes × ℤ) → Answer

-- A method that can change the cluster before it raises.
pub record Ran : Type 0 where
  pub cluster : Cluster
  pub result : Result Bool

-- `address in addresses`.
unfoldable pub has_address : Address → List Address → Bool
unfolding address_eq
has_address a [] = false
has_address a (b ∷ bs) = address_eq a b || has_address a bs

-- The items of a set built from a list.
unfoldable pub distinct : List Address → List Address
unfolding has_address
distinct [] = []
distinct (a ∷ bs) = let rest = distinct bs in if has_address a bs then rest else a ∷ rest

-- `addresses - others`.
unfoldable pub without : List Address → List Address → List Address
unfolding has_address
without others [] = []
without others (a ∷ bs) =
    let rest = without others bs in if has_address a others then rest else a ∷ rest

abbrev pub addresses : List Node → List Address
addresses [] = []
addresses (n ∷ ns) = n.memcached_host_address ∷ addresses ns

abbrev pub address_of : Bytes × Bytes × ℤ → Address
address_of (host, ip, port) = host_address host port

-- `Node(address, ...)` for each address, with fresh identities.
unfoldable pub make_nodes : ℕ → List Address → List Node
make_nodes i [] = []
make_nodes i (a ∷ bs) = record { identity = i; memcached_host_address = a } ∷ make_nodes (suc i) bs

-- The nodes that the configuration has, and those that it has not.
unfoldable pub kept : List Address → List Node → List Node
unfolding has_address
kept config [] = []
kept config (n ∷ ns) =
    let rest = kept config ns in
    if has_address n.memcached_host_address config then n ∷ rest else rest

unfoldable pub dropped : List Address → List Node → List Node
unfolding has_address
dropped config [] = []
dropped config (n ∷ ns) =
    let rest = dropped config ns in
    if has_address n.memcached_host_address config then rest else n ∷ rest

-- `Node.close` for each node; the assertion fails for one that is closed.
unfoldable pub is_closed : ℕ → List ℕ → Bool
is_closed i [] = false
is_closed i (j ∷ js) = i == j || is_closed i js

unfoldable pub close_nodes : List Node → Cluster → Ran
unfolding is_closed
close_nodes [] c = record { cluster = c; result = returned true }
close_nodes (n ∷ ns) c = elim (is_closed n.identity c.closed_nodes) [
  | true ↦ record { cluster = c; result = failed assertion_error }
  | false ↦ close_nodes ns (record c { closed_nodes = n.identity ∷ c.closed_nodes })
]

-- `if not self._first_autodiscovery_done.done(): ....set_result(b)`.
unfoldable pub settle_first : Bool → Cluster → Cluster
settle_first b c = record c {
  first_autodiscovery_done = elim c.first_autodiscovery_done [ none ↦ some b | some x ↦ some x ];
}

module _ (murmur : Bytes → ℕ → ℕ) (arrange : List Address → List Address) where
  -- The lists of nodes after a new configuration.
  unfoldable pub sync_nodes : Cluster → List Address → Cluster
  unfolding make_nodes kept without
  sync_nodes c config =
      let added = arrange (without (addresses (nodes c)) config) in
      record c {
        healthy_nodes = kept config (c.healthy_nodes ++ make_nodes c.next_node added);
        unhealthy_nodes = kept config c.unhealthy_nodes;
        next_node = c.next_node + length added;
      }

  -- The rest of `autodiscover` once the version is a new one and there are nodes.
  unfoldable pub apply_config : Cluster → ℤ → List Address → Ran
  unfolding sync_nodes build_rdz_nodes settle_first dropped close_nodes
  apply_config c version config =
      let built = build_rdz_nodes murmur (sync_nodes c config) in
      let settled = settle_first true (record built { autodiscover_config_version = version }) in
      close_nodes (dropped config c.unhealthy_nodes ++ dropped config c.healthy_nodes) settled

  unfoldable pub refuse : Cluster → Ran
  unfolding settle_first
  refuse c = record { cluster = settle_first false c; result = returned false }

  -- `autodiscover` for the nodes of an answer.
  unfoldable pub use_nodes : Cluster → ℤ → List (Bytes × Bytes × ℤ) → Ran
  unfolding refuse apply_config distinct
  use_nodes c version [] = refuse c
  use_nodes c version (n ∷ ns) = apply_config c version (distinct (map address_of (n ∷ ns)))

  unfoldable pub use_answer : Cluster → Answer → Ran
  unfolding refuse use_nodes int_eq
  use_answer c timed_out = refuse c
  use_answer c (broken e) = record { cluster = c; result = failed e }
  use_answer c (answered false version ns) = refuse c
  use_answer c (answered true version ns) =
      if int_eq version c.autodiscover_config_version
      then record { cluster = c; result = returned false }
      else use_nodes c version ns

  -- `autodiscover()`.
  unfoldable pub autodiscover : Cluster → Answer → Ran
  unfolding use_answer
  autodiscover c answer =
      if c.closed
      then record { cluster = c; result = failed runtime_error }
      else use_answer c answer

  -- One round of `_autodiscovery_monitor`: it goes on after every exception.
  unfoldable pub poll : Cluster → Answer → Cluster
  unfolding autodiscover
  poll c answer = (autodiscover c answer).cluster

-- One round of `_events_dispatcher`: the event is taken from the queue, whatever its hook does.
unfoldable pub dispatch : Cluster → Cluster
dispatch c = record c { events = elim c.events [ [] ↦ [] | e ∷ es ↦ es ] }

-- `frozenset(nodes)`: one of each identity.
unfoldable pub has_identity : ℕ → List Node → Bool
has_identity i [] = false
has_identity i (n ∷ ns) = i == n.identity || has_identity i ns

unfoldable pub distinct_nodes : List Node → List Node
unfolding has_identity
distinct_nodes [] = []
distinct_nodes (n ∷ ns) =
    let rest = distinct_nodes ns in if has_identity n.identity ns then rest else n ∷ rest

-- `close()`; the tasks are cancelled and awaited.
unfoldable pub close : Cluster → Ran
unfolding distinct_nodes close_nodes
close c =
    if c.closed
    then record { cluster = c; result = failed assertion_error }
    else close_nodes (distinct_nodes (nodes c ++ c.discovery_nodes))
        (record c { closed = true; events_dispatcher_task = false; autodiscovery_task = false })

-- `Cluster(...)`, for limits that the pools accept: with autodiscovery the addresses are those of the
-- configuration servers, and no list for the hashing is built.
unfoldable pub new_cluster : (Bytes → ℕ → ℕ) → List Address → Bool → Bool → Bool → Result Cluster
unfolding make_nodes build_rdz_nodes
new_cluster murmur [] purge events autodiscovery = failed value_error
new_cluster murmur (a ∷ bs) purge events autodiscovery =
    let given = make_nodes 0 (a ∷ bs) in
    let c : Cluster = record {
      healthy_nodes = if autodiscovery then [] else given;
      unhealthy_nodes = [];
      rdz_nodes = none;
      purge_unhealthy_nodes = purge;
      has_events = events;
      events = [];
      discovery_nodes = if autodiscovery then given else [];
      autodiscover_config_version = negsuc 0;
      first_autodiscovery_done = none;
      events_dispatcher_task = true;
      autodiscovery_task = autodiscovery;
      closed = false;
      closed_nodes = [];
      next_node = length (a ∷ bs);
    } in
    returned (if autodiscovery then c else build_rdz_nodes murmur c)
