-- ===== src/Tests/Selections.antt =====
-- Keys, hashes and nodes.
use emcache.Prelude.{ℕ, ◌≡◌, refl, ◌⊎◌, ◌↔◌, arith, true, some, List, [], ◌∷◌, Bytes, codes}
use emcache.KeyValidation.{is_key_valid}
use emcache.KeyValidation.Decides.{IsKey, is_key_valid-IsKey}
use emcache.Rendezvous.{RendezvousNode, hash_word, rendezvous_node, node_selection, nodes_selection}
use emcache.Rendezvous.Hash.{hash_word_signs}
use emcache.Rendezvous.Choice.{node_selection-insert}
use emcache.Rendezvous.Groups.{IsDict, group_of, keys_for, nodes_selection-groups}
use emcache.Outcome.{returned}
use emcache.Cluster.{Cluster, contains, pick_node, on_node_healthy_status_change_cb, rdz_node_of}
use emcache.Cluster.Tracking.{tracked_as, Moved, SameNodes, IsBuilt, status_change-keeps_nodes}
use emcache.Cluster.Collision.{first_node, second_node, pick_node-collision}
use emcache.Tests.Values.{toy_murmur, node_b, one_node}

is_key_valid-IsKey_example :
    (is_key_valid (codes "foo") ≡ true) ↔ ((codes "foo" ≡ []) ⊎ IsKey (codes "foo"))
is_key_valid-IsKey_example = is_key_valid-IsKey (codes "foo")

hash_word_signs_example : hash_word 200 1 129 3 ≡ hash_word 200 5 255 7
hash_word_signs_example =
    hash_word_signs 200 1 129 3 5 255 7 (omega arith) (omega arith) (omega arith) (omega arith)
      (omega arith) (omega arith) refl refl refl

abbrev left : RendezvousNode
left = rendezvous_node toy_murmur (codes "a11211") 1

abbrev right : RendezvousNode
right = rendezvous_node toy_murmur (codes "b11211") 2

abbrev third : RendezvousNode
third = rendezvous_node toy_murmur (codes "c11211") 3

node_selection-insert_example :
    (node_selection toy_murmur (codes "foo") (left ∷ third ∷ right ∷ []) ≡ some third.node)
    ⊎ (node_selection toy_murmur (codes "foo") (left ∷ third ∷ right ∷ [])
        ≡ node_selection toy_murmur (codes "foo") (left ∷ right ∷ []))
node_selection-insert_example =
    node_selection-insert toy_murmur (codes "foo") third (left ∷ []) (right ∷ [])

abbrev keys : List Bytes
keys = codes "foo" ∷ codes "bar" ∷ []

nodes_selection-groups_example :
    (result : List (ℕ × List Bytes)) × (nodes_selection toy_murmur keys (left ∷ right ∷ [])
      ≡ some result)
    × IsDict result
    × ((n : ℕ) → group_of n result ≡ keys_for toy_murmur (left ∷ right ∷ []) n keys)
nodes_selection-groups_example = nodes_selection-groups toy_murmur keys left (right ∷ [])

status_change-keeps_nodes_example :
    (d : Cluster) × (on_node_healthy_status_change_cb toy_murmur one_node node_b true ≡ returned d)
    × Moved toy_murmur node_b true one_node d
    × SameNodes toy_murmur one_node d
    × IsBuilt toy_murmur d
unfolding contains tracked_as
status_change-keeps_nodes_example = status_change-keeps_nodes toy_murmur one_node node_b true refl

abbrev colliding : Cluster
colliding = record one_node {
  rdz_nodes = some (
      rdz_node_of toy_murmur (first_node (codes "10.0.0.1") 1)
      ∷ rdz_node_of toy_murmur (second_node (codes "10.0.0.1") 2)
      ∷ []);
}

pick_node-collision_example : pick_node toy_murmur colliding (codes "foo") ≡ returned 1
pick_node-collision_example =
    pick_node-collision toy_murmur colliding (codes "10.0.0.1") (codes "foo") 1 2 refl
