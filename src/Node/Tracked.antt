-- ===== src/Node/Tracked.antt =====
-- In which list of the cluster a node is after a report of its health.
use emcache.Prelude.{
  ℕ, ◌≡◌, refl, ap, ◌∙◌, arith, Bool, true, false, not, ◌&&◌, ◌||◌, List, [], ◌∷◌, ◌++◌, ◌==◌,
  ==_refl, Bytes, if_case, if_true, length, ltb,
}
use emcache.Outcome.{returned}
use emcache.Cluster.{
  Address, Node, Cluster, contains, remove, build_rdz_nodes, put_event,
  on_node_healthy_status_change_cb, max_events,
}
use emcache.Cluster.Tracking.{tracked_as}

contains-append :
    (n : Node) (xs ys : List Node) → contains n (xs ++ ys) ≡ (contains n xs || contains n ys)
unfolding contains
contains-append n [] ys = refl
contains-append n (x ∷ xs) ys = ground (arith, contains-append n xs ys)

-- Removing another node does not matter.
contains-remove :
    (m n : Node) (ns : List Node)
    → (m.identity == n.identity) ≡ false
    → contains m (remove n ns) ≡ contains m ns
unfolding contains remove
contains-remove m n [] h = refl
contains-remove m n (x ∷ ns) h = ground (arith, contains-remove m n ns h)

-- The lists of `d` have the same nodes as those of `c`, but for the nodes of the identity `i`.
abbrev pub SameBut : ℕ → Cluster → Cluster → Type 0
SameBut i c d =
    (m : Node) (h : Bool)
    → (m.identity == i) ≡ false
    → contains m (tracked_as h d) ≡ contains m (tracked_as h c)

module _ (murmur : Bytes → ℕ → ℕ) where
  announced-tracked :
      (b h : Bool) (a : Address) (c : Cluster)
      → tracked_as h (put_event b a (build_rdz_nodes murmur c)) ≡ tracked_as h c
  unfolding put_event build_rdz_nodes tracked_as
  announced-tracked b true a c =
      if_case (λ (d : Cluster). d.healthy_nodes ≡ c.healthy_nodes)
        (c.has_events && ltb (length c.events) max_events) (λ _. refl) (λ _. refl)
  announced-tracked b false a c =
      if_case (λ (d : Cluster). d.unhealthy_nodes ≡ c.unhealthy_nodes)
        (c.has_events && ltb (length c.events) max_events) (λ _. refl) (λ _. refl)

  -- The node `n` that goes to the end of `to`, out of `from`.
  moved :
      (m n : Node) (to from : List Node)
      → (m.identity == n.identity) ≡ false
      → (contains m (to ++ n ∷ []) ≡ contains m to) × (contains m (remove n from) ≡ contains m from)
  unfolding contains
  moved m n to from h = (contains-append m to (n ∷ []) ∙ ground arith, contains-remove m n from h)

  arrived : (n : Node) (to : List Node) → contains n (to ++ n ∷ []) ≡ true
  unfolding contains
  arrived n to = contains-append n to (n ∷ []) ∙ ground (arith, ==_refl n.identity)

  -- The lists once the node has moved.
  abbrev relisted : Bool → Cluster → Node → Cluster
  relisted true c n = record c {
    unhealthy_nodes = remove n c.unhealthy_nodes;
    healthy_nodes = c.healthy_nodes ++ n ∷ [];
  }
  relisted false c n = record c {
    healthy_nodes = remove n c.healthy_nodes;
    unhealthy_nodes = c.unhealthy_nodes ++ n ∷ [];
  }

  relisted-SameBut : (b : Bool) (c : Cluster) (n : Node) → SameBut n.identity c (relisted b c n)
  unfolding tracked_as
  relisted-SameBut true c n m true h = (moved m n c.healthy_nodes c.unhealthy_nodes h).0
  relisted-SameBut true c n m false h = (moved m n c.healthy_nodes c.unhealthy_nodes h).1
  relisted-SameBut false c n m true h = (moved m n c.unhealthy_nodes c.healthy_nodes h).1
  relisted-SameBut false c n m false h = (moved m n c.unhealthy_nodes c.healthy_nodes h).0

  relisted-arrived :
      (b : Bool) (c : Cluster) (n : Node) → contains n (tracked_as b (relisted b c n)) ≡ true
  unfolding tracked_as
  relisted-arrived true c n = arrived n c.healthy_nodes
  relisted-arrived false c n = arrived n c.unhealthy_nodes

  -- The cluster that the callback leaves.
  abbrev reported : Bool → Cluster → Node → Cluster
  reported b c n = put_event b n.memcached_host_address (build_rdz_nodes murmur (relisted b c n))

  status_change-reported :
      (b : Bool) (c : Cluster) (n : Node)
      → contains n (tracked_as (not b) c) ≡ true
      → on_node_healthy_status_change_cb murmur c n b ≡ returned (reported b c n)
  unfolding on_node_healthy_status_change_cb tracked_as
  status_change-reported true c n h = if_true (contains n c.unhealthy_nodes) _ _ h
  status_change-reported false c n h = if_true (contains n c.healthy_nodes) _ _ h

  pub status_change-tracked :
      (c : Cluster) (n : Node) (b : Bool)
      → contains n (tracked_as (not b) c) ≡ true
      → (d : Cluster) × (on_node_healthy_status_change_cb murmur c n b ≡ returned d)
        × (contains n (tracked_as b d) ≡ true)
        × SameBut n.identity c d
  status_change-tracked c n b h =
      let same = λ (k : Bool). announced-tracked b k n.memcached_host_address (relisted b c n) in
      (
        reported b c n,
        status_change-reported b c n h,
        ap (contains n) (same b) ∙ relisted-arrived b c n,
        λ m k other. ap (contains m) (same k) ∙ relisted-SameBut b c n m k other,
      )
