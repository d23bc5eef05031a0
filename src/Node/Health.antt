-- ===== src/Node/Health.antt =====
-- The cluster, its nodes and their pools agree on which nodes are healthy.
use mathlib.Core.List.{reverse}
use emcache.Prelude.{
  ℕ, ◌-◌, ◌≡◌, refl, sym, ap, subst, ◌∙◌, arith, Bool, true, false, not, Bool-cases, inl, inr, List,
  [], ◌∷◌, ◌==◌, ==_refl, ==_iff, Bytes, All, All-imp, length, take, if_true, if_false,
}
use emcache.Outcome.{returned}
use emcache.Pool.State.{Pool}
use emcache.Pool.Events.{Event, step}
use emcache.Pool.Notices.{step-Told}
use emcache.Cluster.{Node, Cluster, contains, on_node_healthy_status_change_cb}
use emcache.Cluster.Tracking.{tracked_as}
use emcache.Node.{
  NodeState, System, set_state, new_notices, on_connection_pool_healthy_status_change_cb,
  report_all, pool_event, pool_events,
}
use emcache.Node.Tracked.{SameBut, status_change-tracked}

-- What a node object holds fits the lists of a cluster.
abbrev pub Fits : Cluster → Node → NodeState → Type 0
Fits c n st =
    (contains n (tracked_as st.connection_pool.healthy c) ≡ true)
    × (st.healthy ≡ st.connection_pool.healthy)
    × (st.reports ≡ true)

-- The node is in the cluster's list for its pool's health, and knows it.
abbrev pub InSync : System → Node → Type 0
InSync s n = Fits s.cluster n (s.node_states n.identity)

new_notices-none : (p q : Pool) → q.notices ≡ p.notices → new_notices p q ≡ []
unfolding new_notices
new_notices-none p q e =
    let k : length q.notices - length p.notices ≡ 0 = ground (arith, ap length e) in
    ap (λ x. reverse (take x q.notices)) k

new_notices-one : (p q : Pool) (b : Bool) → q.notices ≡ b ∷ p.notices → new_notices p q ≡ b ∷ []
unfolding new_notices
new_notices-one p q b e =
    let k : length q.notices - length p.notices ≡ 1 = omega (arith, ap length e) in
    ap (λ x. reverse (take x q.notices)) k ∙ ap (λ l. reverse (take 1 l)) e

set_state_at : (i : ℕ) (st : NodeState) (f : ℕ → NodeState) → set_state i st f i ≡ st
unfolding set_state
set_state_at i st f = if_true (i == i) st (f i) (==_refl i)

set_state_other :
    (i j : ℕ) (st : NodeState) (f : ℕ → NodeState) → (j == i) ≡ false → set_state i st f j ≡ f j
unfolding set_state
set_state_other i j st f h = if_false (j == i) st (f j) h

contains-at : (m n : Node) (l : List Node) → m.identity ≡ n.identity → contains m l ≡ contains n l
unfolding contains
contains-at m n [] e = refl
contains-at m n (x ∷ l) e = ground (arith, contains-at m n l e)

-- The system `t` has a fitting state for `n`, and differs from `s` in nothing else that matters.
record Updated (s t : System) (n : Node) : Type 0 where
  fits : Fits t.cluster n (t.node_states n.identity)
  lists : SameBut n.identity s.cluster t.cluster
  states : (j : ℕ) → (j == n.identity) ≡ false → t.node_states j ≡ s.node_states j

same_identity : (s : System) (n m : Node) → m.identity ≡ n.identity → InSync s n → InSync s m
same_identity s n m e g =
    subst (Fits s.cluster m) (sym (ap s.node_states e)) (contains-at m n _ e ∙ g.0, g.1, g.2)

Updated-InSync : (s t : System) (n m : Node) → Updated s t n → InSync s m → InSync t m
Updated-InSync s t n m u g = elim (Bool-cases (m.identity == n.identity)) [
  | inl e ↦ same_identity t n m ((==_iff m.identity n.identity).0 e) u.fits
  | inr e ↦ subst (Fits t.cluster m) (sym (u.states m.identity e)) (u.lists m _ e ∙ g.0, g.1, g.2)
]

not_back : (a b : Bool) → b ≡ not a → not b ≡ a
not_back a b h = ground arith

module _ (murmur : Bytes → ℕ → ℕ) where
  report_all-one :
      (s t : System) (n : Node) (b : Bool)
      → on_connection_pool_healthy_status_change_cb murmur s n b ≡ returned t
      → report_all murmur s n (b ∷ []) ≡ returned t
  unfolding report_all
  report_all-one s t n b e = rw (e, report_all) refl

  callback-returned :
      (s : System) (n : Node) (b : Bool) (d : Cluster)
      → (s.node_states n.identity).reports ≡ true
      → on_node_healthy_status_change_cb murmur s.cluster n b ≡ returned d
      → on_connection_pool_healthy_status_change_cb murmur s n b
        ≡ returned (record {
          cluster = d;
          node_states =
              set_state n.identity
                (record (s.node_states n.identity) { healthy = b })
                s.node_states;
        })
  unfolding on_connection_pool_healthy_status_change_cb
  callback-returned s n b d r e =
      if_true _ _ _ r ∙ rw (e, on_connection_pool_healthy_status_change_cb) refl

  -- The system after a change of the pool, before its notices are delivered.
  abbrev with_pool : System → Node → Pool → System
  with_pool s n q = record s {
    node_states =
        set_state n.identity (record (s.node_states n.identity) { connection_pool = q })
          s.node_states;
  }

  with_pool-Updated :
      (s : System) (n : Node) (q : Pool)
      → InSync s n
      → q.healthy ≡ (s.node_states n.identity).connection_pool.healthy
      → Updated s (with_pool s n q) n
  with_pool-Updated s n q g e = record {
    fits =
        subst (Fits s.cluster n) (sym (set_state_at n.identity _ s.node_states))
          (ap (λ h. contains n (tracked_as h s.cluster)) e ∙ g.0, g.1 ∙ sym e, g.2);
    lists = λ m h other. refl;
    states = λ j other. set_state_other n.identity j _ s.node_states other;
  }

  reported-Updated :
      (s : System) (n : Node) (q : Pool) (d : Cluster)
      → InSync s n
      → contains n (tracked_as q.healthy d) ≡ true
      → SameBut n.identity s.cluster d
      → Updated s
          (record {
            cluster = d;
            node_states =
                set_state n.identity
                  (record ((with_pool s n q).node_states n.identity) { healthy = q.healthy })
                  (with_pool s n q).node_states;
          })
          n
  reported-Updated s n q d g h same = record {
    fits =
        let st : NodeState = s.node_states n.identity in
        let states : ℕ → NodeState = (with_pool s n q).node_states in
        subst (Fits d n)
          (sym (
            set_state_at n.identity (record (states n.identity) { healthy = q.healthy }) states
            ∙ ap (λ (x : NodeState). record x { healthy = q.healthy })
                (set_state_at n.identity (record st { connection_pool = q }) s.node_states)))
          (h, refl, g.2);
    lists = same;
    states = λ j other.
        set_state_other n.identity j _ (with_pool s n q).node_states other
        ∙ set_state_other n.identity j _ s.node_states other;
  }

  pool_event-Updated :
      (s : System) (n : Node) (e : Event)
      → InSync s n
      → (t : System) × (pool_event murmur s n e ≡ returned t) × Updated s t n
  unfolding pool_event report_all
  pool_event-Updated s n e g =
      let p : Pool = (s.node_states n.identity).connection_pool in
      let q : Pool = step p e in
      elim (step-Told p e) [
        | inl (ns, same) ↦ (
          with_pool s n q,
          ap (report_all murmur (with_pool s n q) n) (new_notices-none p q ns),
          with_pool-Updated s n q g same,
        )
        | inr (ns, turned) ↦
            (let (d, run, at, same) = status_change-tracked murmur s.cluster n q.healthy (
                ap (λ h. contains n (tracked_as h s.cluster)) (not_back p.healthy q.healthy turned)
                ∙ g.0) in
              (
                _,
                ap (report_all murmur (with_pool s n q) n)
                      (new_notices-one p q q.healthy (ns ∙ ap (λ b. b ∷ p.notices) (sym turned)))
                    ∙ report_all-one (with_pool s n q) _ n q.healthy (
                        callback-returned (with_pool s n q) n q.healthy d
                          (ap (λ (x : NodeState). x.reports)
                              (set_state_at n.identity
                                (record (s.node_states n.identity) { connection_pool = q })
                                s.node_states)
                            ∙ g.2)
                          run),
                reported-Updated s n q d g at same,
              ))
      ]

  at_identity :
      (s : System) (ns : List Node) (n : Node)
      → contains n ns ≡ true
      → All (InSync s) ns
      → InSync s n
  unfolding contains
  at_identity s [] n h g = absurd (cc)
  at_identity s (m ∷ ns) n h g = elim (Bool-cases (n.identity == m.identity)) [
    | inl e ↦ same_identity s m n ((==_iff n.identity m.identity).0 e) g.0
    | inr e ↦ at_identity s ns n (ground arith) g.1
  ]

  -- For nodes that all report to the cluster: if each stands in the cluster's list for its pool's
  -- health, as the node itself has noted it, then whatever happens to their pools, in whatever order,
  -- no assertion of the callbacks fails, and in the end each stands in the list for the health that
  -- its pool has then, and has noted it.
  pub pool_events-InSync :
      (s : System) (ns : List Node) (es : List (Node × Event))
      → All (InSync s) ns
      → All (λ x. contains x.0 ns ≡ true) es
      → (t : System) × (pool_events murmur s es ≡ returned t) × All (InSync t) ns
  unfolding pool_events
  pool_events-InSync s ns [] g known = (s, refl, g)
  pool_events-InSync s ns ((n, e) ∷ es) g known =
      let (t, ran, u) = pool_event-Updated s n e (at_identity s ns n known.0 g) in
      let (r, rest, after) =
        pool_events-InSync t ns es
          (All-imp (InSync s) (InSync t) ns (λ m h. Updated-InSync s t n m u h) g) known.1 in
      (r, rw (ran, pool_events) rest, after)
