-- ===== src/Cluster/Collision.antt =====
-- Two nodes that the rendezvous hashing cannot tell from each other.
use emcache.Prelude.{pos, ℕ, ◌≡◌, refl, subst, sym, some, [], ◌∷◌, ◌++◌, Bytes, codes}
use emcache.Outcome.{returned}
use emcache.Decimal.{show}
use emcache.Protocol.Encode.{show_int}
use emcache.Rendezvous.{rendezvous_node}
use emcache.Cluster.{
  host_address, rendezvous_id, Node, Cluster, pick_node, pick_from, selected, rdz_node_of,
}
use emcache.Rendezvous.Ties.{node_selection-tie}
use mathlib.Core.List.{map, append_assoc}

-- `host` with port 11211, and `host` with a 1 at its end and port 1211.
abbrev pub first_node : Bytes → ℕ → Node
first_node host i = record { identity = i; memcached_host_address = host_address host (pos 11211) }

abbrev pub second_node : Bytes → ℕ → Node
second_node host i = record {
  identity = i;
  memcached_host_address = host_address (host ++ codes "1") (pos 1211);
}

same_id :
    (host : Bytes)
    → rendezvous_id (host_address (host ++ codes "1") (pos 1211))
      ≡ rendezvous_id (host_address host (pos 11211))
unfolding rendezvous_id show_int show
same_id host = append_assoc host (codes "1") (codes "1211")

module _ (murmur : Bytes → ℕ → ℕ) where
  -- In a cluster of a host with port 11211 and of the host whose name has one more 1 at its end with
  -- port 1211, every key goes to the one that comes first: both are hashed by the same text.
  pub pick_node-collision :
      (c : Cluster) (host key : Bytes) (i j : ℕ)
      → c.rdz_nodes ≡ some (map (rdz_node_of murmur) (first_node host i ∷ second_node host j ∷ []))
      → pick_node murmur c key ≡ returned i
  unfolding pick_node pick_from selected
  pick_node-collision c host key i j e =
      let id = rendezvous_id (host_address host (pos 11211)) in
      subst (λ o. pick_from murmur key o ≡ returned i) (sym e)
        (subst
          (λ x.
            pick_from murmur key
              (some (rendezvous_node murmur id i ∷ rendezvous_node murmur x j ∷ []))
            ≡ returned i)
          (sym (same_id host)) (rw (node_selection-tie murmur key i j id) refl))
