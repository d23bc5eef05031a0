-- ===== src/Node/Management.antt =====
-- `ClusterManagment` (emcache/cluster.py): what a program can ask about its cluster.
use emcache.Prelude.{◌≡◌, refl, ◌∙◌, arith, ◌||◌, Option, none, some, List, [], ◌∷◌, if◌then◌else◌}
use emcache.Pool.Metrics.{ConnectionPoolMetrics, metrics}
use emcache.Pool.Metrics.Percentiles.{metrics-IsReading}
use emcache.Cluster.{Address, address_eq, Node, Cluster, nodes}
use emcache.Cluster.Discover.{addresses, has_address}
use emcache.Cluster.Discover.Refinement.{at_equal}
use emcache.Node.{System}

-- The methods `nodes`, `healthy_nodes` and `unhealthy_nodes`.
abbrev pub nodes_of : Cluster → List Address
nodes_of c = addresses (nodes c)

abbrev pub healthy_nodes_of : Cluster → List Address
healthy_nodes_of c = addresses c.healthy_nodes

abbrev pub unhealthy_nodes_of : Cluster → List Address
unhealthy_nodes_of c = addresses c.unhealthy_nodes

-- `d[address] = m`.
unfoldable pub set_metrics :
    Address
    → ConnectionPoolMetrics
    → List (Address × ConnectionPoolMetrics)
    → List (Address × ConnectionPoolMetrics)
unfolding address_eq
set_metrics a m [] = (a, m) ∷ []
set_metrics a m ((b, k) ∷ rest) =
    if address_eq a b then (b, m) ∷ rest else (b, k) ∷ set_metrics a m rest

unfoldable pub add_metrics :
    Option ConnectionPoolMetrics
    → Address
    → List (Address × ConnectionPoolMetrics)
    → Option (List (Address × ConnectionPoolMetrics))
unfolding set_metrics
add_metrics none a d = none
add_metrics (some m) a d = some (set_metrics a m d)

-- The dictionary for some nodes; `none` is an exception.
unfoldable pub collect :
    System
    → List Node
    → List (Address × ConnectionPoolMetrics)
    → Option (List (Address × ConnectionPoolMetrics))
collect s [] d = some d
collect s (n ∷ ns) d =
    elim (add_metrics (metrics (s.node_states n.identity).connection_pool) n.memcached_host_address
      d) [ none ↦ none | some e ↦ collect s ns e ]

-- `connection_pool_metrics()`.
unfoldable pub connection_pool_metrics : System → Option (List (Address × ConnectionPoolMetrics))
unfolding collect
connection_pool_metrics s = collect s (nodes s.cluster) []

-- The addresses of a dictionary.
abbrev pub keys : List (Address × ConnectionPoolMetrics) → List Address
keys [] = []
keys ((a, m) ∷ d) = a ∷ keys d

keys-set_metrics :
    (x a : Address) (m : ConnectionPoolMetrics) (d : List (Address × ConnectionPoolMetrics))
    → has_address x (keys (set_metrics a m d)) ≡ (address_eq x a || has_address x (keys d))
unfolding set_metrics has_address
keys-set_metrics x a m [] = refl
keys-set_metrics x a m ((b, k) ∷ d) =
    ground (arith, keys-set_metrics x a m d, at_equal (λ y. address_eq x y) a b)

collect-cons :
    (s : System) (n : Node) (ns : List Node) (d : List (Address × ConnectionPoolMetrics))
    (m : ConnectionPoolMetrics)
    → metrics (s.node_states n.identity).connection_pool ≡ some m
    → collect s (n ∷ ns) d ≡ collect s ns (set_metrics n.memcached_host_address m d)
unfolding add_metrics collect
collect-cons s n ns d m e = rw (e, collect) refl

collect-known :
    (s : System) (ns : List Node) (d : List (Address × ConnectionPoolMetrics))
    → (e : List (Address × ConnectionPoolMetrics)) × (collect s ns d ≡ some e)
      × ((x : Address)
          → has_address x (keys e) ≡ (has_address x (keys d) || has_address x (addresses ns)))
unfolding has_address collect
collect-known s [] d = (d, refl, λ x. ground arith)
collect-known s (n ∷ ns) d =
    let (m, read, current, reading) =
      metrics-IsReading (s.node_states n.identity).connection_pool in
    let next = set_metrics n.memcached_host_address m d in
    let (e, ran, known) = collect-known s ns next in
    (
      e,
      collect-cons s n ns d m read ∙ ran,
      λ x. known x ∙ ground (arith, keys-set_metrics x n.memcached_host_address m d),
    )

-- `connection_pool_metrics` never raises, and it has the metrics of exactly the addresses that the
-- cluster tracks, healthy or not.
pub connection_pool_metrics-known :
    (s : System)
    → (d : List (Address × ConnectionPoolMetrics)) × (connection_pool_metrics s ≡ some d)
      × ((x : Address) → has_address x (keys d) ≡ has_address x (nodes_of s.cluster))
unfolding connection_pool_metrics has_address
connection_pool_metrics-known s = collect-known s (nodes s.cluster) []
