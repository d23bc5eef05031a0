-- ===== src/Tests/Values.antt =====
-- Data that the tests share.
use emcache.Prelude.{
  ◌≡◌, none, pos, negsuc, ℕ, ◌+◌, ◌%◌, refl, true, false, some, [], ◌∷◌, Bytes, codes,
}
use emcache.KeyValidation.{is_key_valid}
use emcache.KeyValidation.Decides.{IsKey, valid-IsKey}
use emcache.Cluster.{Node, Cluster, host_address, rdz_node_of, pick_node, pick_from, selected}
use emcache.Client.{Client}
use emcache.Rendezvous.{node_selection, rendezvous_node}
use emcache.Outcome.{returned}

-- A hash that is easy to compute by hand.
abbrev pub sum : Bytes → ℕ
sum [] = 0
sum (c ∷ cs) = c + sum cs

abbrev pub toy_murmur : Bytes → ℕ → ℕ
toy_murmur s i = (sum s + i) % 256

pub foo_IsKey : IsKey (codes "foo")
unfolding is_key_valid
foo_IsKey = valid-IsKey (codes "foo") refl (λ e. cc)

pub bar_IsKey : IsKey (codes "bar")
unfolding is_key_valid
bar_IsKey = valid-IsKey (codes "bar") refl (λ e. cc)

pub set_IsKey : IsKey (codes "set")
unfolding is_key_valid
set_IsKey = valid-IsKey (codes "set") refl (λ e. cc)

abbrev pub node_a : Node
node_a = record { identity = 7; memcached_host_address = host_address (codes "a") (pos 11211) }

abbrev pub node_b : Node
node_b = record { identity = 8; memcached_host_address = host_address (codes "b") (pos 11211) }

abbrev pub one_node : Cluster
one_node = record {
  healthy_nodes = node_a ∷ [];
  unhealthy_nodes = node_b ∷ [];
  rdz_nodes = some (rdz_node_of toy_murmur node_a ∷ []);
  purge_unhealthy_nodes = true;
  has_events = true;
  events = [];
  discovery_nodes = [];
  autodiscover_config_version = negsuc 0;
  first_autodiscovery_done = none;
  events_dispatcher_task = true;
  autodiscovery_task = false;
  closed = false;
  closed_nodes = [];
  next_node = 9;
}

abbrev pub client : Client
client = record { closed = false; cluster = one_node }

pub foo_picked : pick_node toy_murmur client.cluster (codes "foo") ≡ returned 7
unfolding pick_node pick_from selected node_selection rendezvous_node
foo_picked = refl
