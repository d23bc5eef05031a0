-- ===== src/Client/Session/Groups.antt =====
-- The groups that `pick_nodes` makes: each key goes to the node that is chosen for it.
use emcache.Prelude.{
  ℕ, ◌≡◌, refl, ◌≢◌, ap, sym, subst, ◌∙◌, none, some, List, [], ◌∷◌, ◌++◌, Bytes, All, All-append,
  if_case, Option-cases, inl, inr, ◌==◌, ==_iff,
}
use emcache.Outcome.{no_available_nodes, returned, failed}
use emcache.Rendezvous.{RendezvousNode, node_selection, append_to, group_keys, nodes_selection}
use emcache.Cluster.{pick_groups}

module _ (murmur : Bytes → ℕ → ℕ) (P : Bytes → Type 0) where
  -- A group has a key, and each of its keys has the property and is the node's.
  abbrev pub IsGroup : List RendezvousNode → ℕ × List Bytes → Type 0
  IsGroup nodes g = (g.1 ≢ []) × All (λ k. P k × (node_selection murmur k nodes ≡ some g.0)) g.1

  not_empty : (keys : List Bytes) (key : Bytes) → keys ++ key ∷ [] ≢ []
  not_empty [] key e = cc
  not_empty (k ∷ keys) key e = cc

  append_to-IsGroup :
      (nodes : List RendezvousNode) (node : ℕ) (key : Bytes) (r : List (ℕ × List Bytes))
      → P key
      → node_selection murmur key nodes ≡ some node
      → All (IsGroup nodes) r
      → All (IsGroup nodes) (append_to murmur node key r)
  unfolding append_to
  append_to-IsGroup nodes node key [] v e h = ((λ z. cc, ((v, e), tt)), tt)
  append_to-IsGroup nodes node key ((n, keys) ∷ r) v e h =
      if_case (All (IsGroup nodes)) (n == node)
        (λ same.
          let eq : node ≡ n = sym ((==_iff n node).0 same) in
          (
            (
              not_empty keys key,
              All-append (λ k. P k × (node_selection murmur k nodes ≡ some n)) keys (key ∷ []) h.0.1
                  ((v, e ∙ ap (λ m. some m) eq), tt),
            ),
            h.1,
          ))
        (λ _. (h.0, append_to-IsGroup nodes node key r v e h.1))

  group_keys-IsGroup :
      (nodes : List RendezvousNode) (keys : List Bytes) (r s : List (ℕ × List Bytes))
      → All P keys
      → group_keys murmur nodes keys r ≡ some s
      → All (IsGroup nodes) r
      → All (IsGroup nodes) s
  unfolding group_keys
  group_keys-IsGroup nodes [] r s v e h =
      let same : r ≡ s = cc in subst (All (IsGroup nodes)) same h
  group_keys-IsGroup nodes (key ∷ keys) r s v e h =
      elim (Option-cases (node_selection murmur key nodes)) [
        | inl nowhere ↦
            let fails : group_keys murmur nodes (key ∷ keys) r ≡ none =
              rw (nowhere, group_keys) refl in
            absurd (cc)
        | inr (n, chosen) ↦
            let step : group_keys murmur nodes (key ∷ keys) r
                ≡ group_keys murmur nodes keys (append_to murmur n key r) =
              rw (chosen, group_keys) refl in
            group_keys-IsGroup nodes keys (append_to murmur n key r) s v.1 (sym step ∙ e)
              (append_to-IsGroup nodes n key r v.0 chosen h)
      ]

  only_node :
      (rdz : RendezvousNode) (keys : List Bytes)
      → All P keys
      → All (λ k. P k × (node_selection murmur k (rdz ∷ []) ≡ some rdz.node)) keys
  unfolding node_selection
  only_node rdz [] v = tt
  only_node rdz (k ∷ keys) v = ((v.0, refl), only_node rdz keys v.1)

  nodes_selection-IsGroup :
      (key : Bytes) (keys : List Bytes) (nodes : List RendezvousNode) (s : List (ℕ × List Bytes))
      → All P (key ∷ keys)
      → nodes_selection murmur (key ∷ keys) nodes ≡ some s
      → All (IsGroup nodes) s
  unfolding nodes_selection
  nodes_selection-IsGroup key keys [] s v e = group_keys-IsGroup [] (key ∷ keys) [] s v e tt
  nodes_selection-IsGroup key keys (rdz ∷ []) s v e =
      let same : (rdz.node, key ∷ keys) ∷ [] ≡ s = cc in
      subst (All (IsGroup (rdz ∷ []))) same ((λ z. cc, only_node rdz (key ∷ keys) v), tt)
  nodes_selection-IsGroup key keys (first ∷ second ∷ rest) s v e =
      group_keys-IsGroup (first ∷ second ∷ rest) (key ∷ keys) [] s v e tt

  pub pick_groups-IsGroup :
      (key : Bytes) (keys : List Bytes) (nodes : List RendezvousNode) (s : List (ℕ × List Bytes))
      → All P (key ∷ keys)
      → pick_groups murmur (key ∷ keys) (some nodes) ≡ returned s
      → All (IsGroup nodes) s
  unfolding pick_groups
  pick_groups-IsGroup key keys [] s v e = absurd (cc)
  pick_groups-IsGroup key keys (r ∷ rs) s v e =
      elim (Option-cases (nodes_selection murmur (key ∷ keys) (r ∷ rs))) [
        | inl nowhere ↦
            let fails : pick_groups murmur (key ∷ keys) (some (r ∷ rs))
                ≡ failed no_available_nodes =
              rw (nowhere, pick_groups) refl in
            absurd (cc)
        | inr (groups, chosen) ↦
            let given : pick_groups murmur (key ∷ keys) (some (r ∷ rs)) ≡ returned groups =
              rw (chosen, pick_groups) refl in
            let same : groups ≡ s = cc in
            subst (All (IsGroup (r ∷ rs))) same
              (nodes_selection-IsGroup key keys (r ∷ rs) groups v chosen)
      ]
