-- ===== src/Cluster.antt =====
-- emcache/cluster.py: the nodes that a cluster tracks, and which of them it sends keys to. Addresses
-- are those of emcache/_address.py.
pub mod Tracking
pub mod Collision
pub mod Discover
use emcache.Prelude.{
  ℕ, ◌+◌, ◌<◌, ◌≡◌, refl, Bool, true, false, Option, none, some, List, [], ◌∷◌, ◌++◌, length, ltb,
  ◌==◌, ◌||◌, ◌&&◌, if◌then◌else◌, Bytes, bytes_eq, codes, ℤ, pos, negsuc,
}
use emcache.Protocol.Encode.{show_int}
use emcache.Outcome.{
  Error, no_available_nodes, attribute_error, assertion_error, value_error, Result, returned,
  failed,
}
use emcache.Rendezvous.{RendezvousNode, rendezvous_node, node_selection, nodes_selection}
use mathlib.Core.List.{map}

-- Host names and paths are ASCII, which is its own encoding.
pub data Address : Type 0 where
  host_address : Bytes → ℤ → Address
  unix_socket_path : Bytes → Address

-- `p == q` of two ports.
unfoldable pub int_eq : ℤ → ℤ → Bool
int_eq (pos p) (pos q) = p == q
int_eq (negsuc p) (negsuc q) = p == q
int_eq (pos p) (negsuc q) = false
int_eq (negsuc p) (pos q) = false

-- The equality of the frozen data classes.
unfoldable pub address_eq : Address → Address → Bool
unfolding int_eq
address_eq (host_address h p) (host_address k q) = bytes_eq h k && int_eq p q
address_eq (unix_socket_path a) (unix_socket_path b) = bytes_eq a b
address_eq (host_address h p) (unix_socket_path b) = false
address_eq (unix_socket_path a) (host_address k q) = false

-- A node object is told from the others by its identity.
pub record Node : Type 0 where
  pub identity : ℕ
  pub memcached_host_address : Address

-- `rdz_nodes` is `none` while the attribute is not set. `has_events` says whether hooks were given;
-- `events` are those in the queue, each with the health that it reports. `closed_nodes` are the
-- identities of the nodes that are closed, `next_node` is the identity of the next node object, and
-- the two tasks are there while they run.
pub record Cluster : Type 0 where
  pub healthy_nodes : List Node
  pub unhealthy_nodes : List Node
  pub rdz_nodes : Option (List RendezvousNode)
  pub purge_unhealthy_nodes : Bool
  pub has_events : Bool
  pub events : List (Bool × Address)
  pub discovery_nodes : List Node
  pub autodiscover_config_version : ℤ
  pub first_autodiscovery_done : Option Bool
  pub events_dispatcher_task : Bool
  pub autodiscovery_task : Bool
  pub closed : Bool
  pub closed_nodes : List ℕ
  pub next_node : ℕ

abbrev pub max_events : ℕ
max_events = 1000

-- `node in nodes`.
unfoldable pub contains : Node → List Node → Bool
contains n [] = false
contains n (m ∷ ms) = n.identity == m.identity || contains n ms

-- `nodes.remove(node)`.
unfoldable pub remove : Node → List Node → List Node
remove n [] = []
remove n (m ∷ ms) = if n.identity == m.identity then ms else m ∷ remove n ms

-- The text that a node is hashed by: host and port with nothing between them, or the path.
unfoldable pub rendezvous_id : Address → Bytes
rendezvous_id (host_address host port) = host ++ show_int port
rendezvous_id (unix_socket_path path) = path

-- The property `nodes`.
abbrev pub nodes : Cluster → List Node
nodes c = c.healthy_nodes ++ c.unhealthy_nodes

-- `node(memcached_host_address)`: the first node that matches.
unfoldable pub find_node : Address → List Node → Result Node
unfolding address_eq
find_node address [] = failed value_error
find_node address (n ∷ ns) =
    let rest = find_node address ns in
    if address_eq n.memcached_host_address address then returned n else rest

-- `asyncio.Queue.put_nowait`; a full queue drops the event with a warning.
unfoldable pub put_event : Bool → Address → Cluster → Cluster
put_event healthy address c =
    if c.has_events && ltb (length c.events) max_events
    then record c { events = c.events ++ (healthy, address) ∷ [] }
    else c

-- An empty list of nodes is checked before the selection.
unfoldable pub selected : Option ℕ → Result ℕ
selected none = failed no_available_nodes
selected (some n) = returned n

module _ (murmur : Bytes → ℕ → ℕ) where
  abbrev pub rdz_node_of : Node → RendezvousNode
  rdz_node_of n = rendezvous_node murmur (rendezvous_id n.memcached_host_address) n.identity

  -- The nodes that traffic is sent to.
  unfoldable pub traffic_nodes : Cluster → List Node
  traffic_nodes c = if c.purge_unhealthy_nodes then c.healthy_nodes else nodes c

  -- `_build_rdz_nodes()`.
  unfoldable pub build_rdz_nodes : Cluster → Cluster
  unfolding traffic_nodes
  build_rdz_nodes c = record c { rdz_nodes = some (map rdz_node_of (traffic_nodes c)) }

  -- `_on_node_healthy_status_change_cb(node, healthy)`.
  unfoldable pub on_node_healthy_status_change_cb : Cluster → Node → Bool → Result Cluster
  unfolding build_rdz_nodes put_event
  on_node_healthy_status_change_cb c n true =
      if contains n c.unhealthy_nodes
      then returned (
          put_event true n.memcached_host_address (
            build_rdz_nodes (record c {
              unhealthy_nodes = remove n c.unhealthy_nodes;
              healthy_nodes = c.healthy_nodes ++ n ∷ [];
            })))
      else failed assertion_error
  on_node_healthy_status_change_cb c n false =
      if contains n c.healthy_nodes
      then returned (
          put_event false n.memcached_host_address (
            build_rdz_nodes (record c {
              healthy_nodes = remove n c.healthy_nodes;
              unhealthy_nodes = c.unhealthy_nodes ++ n ∷ [];
            })))
      else failed assertion_error

  -- `pick_node(key)`, over the value of the attribute. Before the first discovery it is not there.
  unfoldable pub pick_from : Bytes → Option (List RendezvousNode) → Result ℕ
  pick_from key none = failed attribute_error
  pick_from key (some rdz) = selected (node_selection murmur key rdz)

  unfoldable pub pick_node : Cluster → Bytes → Result ℕ
  unfolding pick_from
  pick_node c key = pick_from key c.rdz_nodes

  -- `pick_nodes(keys)`, likewise; `nodes_selection` has a node for every key if there is one at all.
  unfoldable pub pick_groups :
      List Bytes → Option (List RendezvousNode) → Result (List (ℕ × List Bytes))
  pick_groups keys none = failed attribute_error
  pick_groups keys (some []) = failed no_available_nodes
  pick_groups keys (some (r ∷ rs)) = elim (nodes_selection murmur keys (r ∷ rs)) [
    | none ↦ failed no_available_nodes
    | some groups ↦ returned groups
  ]

  unfoldable pub pick_nodes : Cluster → List Bytes → Result (List (ℕ × List Bytes))
  unfolding pick_groups
  pick_nodes c keys = pick_groups keys c.rdz_nodes
