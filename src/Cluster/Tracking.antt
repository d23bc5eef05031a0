-- ===== src/Cluster/Tracking.antt =====
-- What a change of a node's health does to the cluster.
use emcache.Prelude.{
  ℕ, not, ltb, length, ◌&&◌, ◌+◌, ◌≡◌, refl, ap, ◌∙◌, arith, Bool, true, false, some, List, [], ◌∷◌,
  ◌++◌, ◌==◌, if◌then◌else◌, Bytes, if_case,
}
use emcache.Outcome.{returned}
use emcache.Cluster.{
  Node, Cluster, contains, remove, nodes, traffic_nodes, build_rdz_nodes, put_event,
  on_node_healthy_status_change_cb, rdz_node_of, Address, max_events,
}
use mathlib.Core.List.{map}

-- How often the identity `i` stands in a list.
unfoldable pub count : ℕ → List Node → ℕ
count i [] = 0
count i (n ∷ ns) = let rest = count i ns in if i == n.identity then rest + 1 else rest

count-append : (i : ℕ) (ns ms : List Node) → count i (ns ++ ms) ≡ count i ns + count i ms
unfolding count
count-append i [] ms = omega arith
count-append i (n ∷ ns) ms = ground (arith, count-append i ns ms)

count-remove :
    (i : ℕ) (n : Node) (ns : List Node)
    → contains n ns ≡ true
    → count i (remove n ns) + count i (n ∷ []) ≡ count i ns
unfolding count contains remove
count-remove i n [] h = ground arith
count-remove i n (m ∷ ns) h = ground (arith, count-remove i n ns)

-- A node moves from the second list to the end of the first, or the other way round.
count-moved :
    (i : ℕ) (n : Node) (to from : List Node)
    → contains n from ≡ true
    → (count i ((to ++ n ∷ []) ++ remove n from) ≡ count i (to ++ from))
      × (count i (remove n from ++ (to ++ n ∷ [])) ≡ count i (from ++ to))
count-moved i n to from h =
    let e = count-remove i n from h in
    rw
      (
        count-append i (to ++ n ∷ []) (remove n from),
        count-append i to (n ∷ []),
        count-append i to from,
        count-append i (remove n from) (to ++ n ∷ []),
        count-append i to (n ∷ []),
        count-append i from to,
      )
      (omega (arith, e), omega (arith, e))

put_event-nodes : (b : Bool) (a : Address) (c : Cluster) → nodes (put_event b a c) ≡ nodes c
unfolding put_event
put_event-nodes b a c =
    if_case (λ d. nodes d ≡ nodes c) (c.has_events && ltb (length c.events) max_events) (λ _. refl)
      (λ _. refl)

-- The list that a node is to be in when it reports its new health.
unfoldable pub tracked_as : Bool → Cluster → List Node
tracked_as true c = c.healthy_nodes
tracked_as false c = c.unhealthy_nodes

tracked-put_event :
    (list b : Bool) (a : Address) (c : Cluster)
    → tracked_as list (put_event b a c) ≡ tracked_as list c
unfolding put_event tracked_as
tracked-put_event true b a c =
    if_case (λ d. tracked_as true d ≡ tracked_as true c)
      (c.has_events && ltb (length c.events) max_events) (λ _. refl) (λ _. refl)
tracked-put_event false b a c =
    if_case (λ d. tracked_as false d ≡ tracked_as false c)
      (c.has_events && ltb (length c.events) max_events) (λ _. refl) (λ _. refl)

module _ (murmur : Bytes → ℕ → ℕ) where
  tracked_after :
      (list b : Bool) (a : Address) (c : Cluster)
      → tracked_as list (put_event b a (build_rdz_nodes murmur c)) ≡ tracked_as list c
  unfolding build_rdz_nodes tracked_as
  tracked_after true b a c = tracked-put_event true b a (build_rdz_nodes murmur c)
  tracked_after false b a c = tracked-put_event false b a (build_rdz_nodes murmur c)

  -- The nodes that keys are sent to are those of the lists as they are now.
  abbrev pub IsBuilt : Cluster → Type 0
  IsBuilt c = c.rdz_nodes ≡ some (map (rdz_node_of murmur) (traffic_nodes murmur c))

  -- `d` has the nodes of `c`, each as often.
  abbrev pub SameNodes : Cluster → Cluster → Type 0
  SameNodes c d = (i : ℕ) → count i (nodes d) ≡ count i (nodes c)

  put_event-IsBuilt :
      (b : Bool) (a : Address) (c : Cluster) → IsBuilt (put_event b a (build_rdz_nodes murmur c))
  unfolding put_event build_rdz_nodes traffic_nodes
  put_event-IsBuilt b a c =
      if_case IsBuilt (c.has_events && ltb (length c.events) max_events) (λ _. refl) (λ _. refl)

  -- From `c` to `d` the node went to the end of the list for its new health, and one occurrence of its
  -- identity, and of no other, left the other list.
  abbrev pub Moved : Node → Bool → Cluster → Cluster → Type 0
  Moved n healthy c d =
      (tracked_as healthy d ≡ tracked_as healthy c ++ n ∷ [])
      × ((i : ℕ)
          → count i (tracked_as (not healthy) d) + count i (n ∷ [])
            ≡ count i (tracked_as (not healthy) c))

  announced :
      (n : Node) (healthy : Bool) (c e : Cluster) (a : Address)
      → Moved n healthy c e
      → SameNodes c e
      → (d : Cluster) × (returned (put_event healthy a (build_rdz_nodes murmur e)) ≡ returned d)
        × Moved n healthy c d
        × SameNodes c d
        × IsBuilt d
  announced n healthy c e a moved same =
      let d = put_event healthy a (build_rdz_nodes murmur e) in
      (
        d,
        refl,
        (
          tracked_after healthy healthy a e ∙ moved.0,
          λ i.
              ap (λ l. count i l + count i (n ∷ [])) (tracked_after (not healthy) healthy a e)
              ∙ moved.1 i,
        ),
        (λ i.
            rw (put_event-nodes healthy a (build_rdz_nodes murmur e))
              (unfold build_rdz_nodes in same i)),
        put_event-IsBuilt healthy a e,
      )

  -- When a node that is tracked under the other health reports its health, it leaves that list, once,
  -- and goes to the end of the list for its new health. So the cluster ends up with the same nodes as
  -- before, each as often, and the list for the hashing is built anew from them.
  pub status_change-keeps_nodes :
      (c : Cluster) (n : Node) (healthy : Bool)
      → contains n (tracked_as (not healthy) c) ≡ true
      → (d : Cluster) × (on_node_healthy_status_change_cb murmur c n healthy ≡ returned d)
        × Moved n healthy c d
        × SameNodes c d
        × IsBuilt d
  unfolding on_node_healthy_status_change_cb tracked_as
  status_change-keeps_nodes c n true h =
      let e = record c {
        unhealthy_nodes = remove n c.unhealthy_nodes;
        healthy_nodes = c.healthy_nodes ++ n ∷ [];
      } in
      rw h (
        announced n true c e n.memcached_host_address
          (refl, λ i. count-remove i n c.unhealthy_nodes h)
          (λ i. (count-moved i n c.healthy_nodes c.unhealthy_nodes h).0))
  status_change-keeps_nodes c n false h =
      let e = record c {
        healthy_nodes = remove n c.healthy_nodes;
        unhealthy_nodes = c.unhealthy_nodes ++ n ∷ [];
      } in
      rw h (
        announced n false c e n.memcached_host_address
          (refl, λ i. count-remove i n c.healthy_nodes h)
          (λ i. (count-moved i n c.unhealthy_nodes c.healthy_nodes h).1))
