-- ===== src/Autobatching/Finish/Grouped.antt =====
-- The keys of the tasks that `_start` makes are those of the operations, in another order.
use emcache.Prelude.{
  ℕ, ◌≡◌, refl, ap, sym, subst, ◌∙◌, ◌≤◌, Option, none, some, List, [], ◌∷◌, ◌++◌, Bytes, map,
  length, if_case, Option-cases, inl, inr, ◌==◌,
}
use mathlib.Core.List.{Permᴰ, flatten, append_assoc}
use mathlib.Core.List.Permᴰ
use emcache.Outcome.{no_available_nodes, returned, failed}
use emcache.Rendezvous.{RendezvousNode, node_selection, append_to, group_keys, nodes_selection}
use emcache.Cluster.{Cluster, pick_nodes, pick_groups}
use emcache.Autobatching.{slices}
use emcache.Autobatching.Batches.{slices-split}
use emcache.Autobatching.Sending.{Batches, start_groups}

-- The keys of all groups, or of all tasks.
abbrev pub keys_in : List (ℕ × List Bytes) → List Bytes
keys_in [] = []
keys_in ((node, keys) ∷ groups) = keys ++ keys_in groups

keys_in-batches :
    (node : ℕ) (batches : List (List Bytes)) (rest : Batches)
    → keys_in (map (λ batch. (node, batch)) batches ++ rest) ≡ flatten batches ++ keys_in rest
unfolding flatten
keys_in-batches node [] rest = refl
keys_in-batches node (b ∷ batches) rest =
    ap (◌++◌ b) (keys_in-batches node batches rest)
    ∙ sym (append_assoc b (flatten batches) (keys_in rest))

pub keys_in-start_groups :
    (max_keys : ℕ) (groups : List (ℕ × List Bytes))
    → 1 ≤ max_keys
    → keys_in (start_groups max_keys groups) ≡ keys_in groups
unfolding start_groups
keys_in-start_groups max_keys [] h = refl
keys_in-start_groups max_keys ((node, keys) ∷ groups) h =
    keys_in-batches node (slices (length keys) max_keys keys) (start_groups max_keys groups)
    ∙ ap (λ l. l ++ keys_in (start_groups max_keys groups)) (slices-split max_keys keys h).0
    ∙ ap (◌++◌ keys) (keys_in-start_groups max_keys groups h)

module _ (murmur : Bytes → ℕ → ℕ) where
  appended :
      (node : ℕ) (key : Bytes) (r : List (ℕ × List Bytes))
      → Permᴰ (key ∷ keys_in r) (keys_in (append_to murmur node key r))
  unfolding append_to
  appended node key [] = Permᴰ.refl (key ∷ [])
  appended node key ((n, keys) ∷ rest) =
      let behind = Permᴰ.symm (Permᴰ.middle key keys (keys_in rest)) in
      if_case (λ (g : List (ℕ × List Bytes)). Permᴰ (key ∷ (keys ++ keys_in rest)) (keys_in g))
        (n == node)
        (λ _.
          subst (Permᴰ (key ∷ (keys ++ keys_in rest)))
            (sym (append_assoc keys (key ∷ []) (keys_in rest))) behind)
        (λ _. Permᴰ.trans behind (Permᴰ.append_left keys (appended node key rest)))

  grouped :
      (nodes : List RendezvousNode) (keys : List Bytes) (r s : List (ℕ × List Bytes))
      → group_keys murmur nodes keys r ≡ some s
      → Permᴰ (keys ++ keys_in r) (keys_in s)
  unfolding group_keys
  grouped nodes [] r s e =
      let same : r ≡ s = cc in
      subst (λ x. Permᴰ (keys_in r) (keys_in x)) same (Permᴰ.refl (keys_in r))
  grouped nodes (key ∷ keys) r s e = elim (Option-cases (node_selection murmur key nodes)) [
    | inl nowhere ↦
        let fails : group_keys murmur nodes (key ∷ keys) r ≡ none = rw (nowhere, group_keys) refl in
        absurd (cc)
    | inr (n, chosen) ↦
        let step : group_keys murmur nodes (key ∷ keys) r
            ≡ group_keys murmur nodes keys (append_to murmur n key r) =
          rw (chosen, group_keys) refl in
        Permᴰ.trans (Permᴰ.symm (Permᴰ.middle key keys (keys_in r))) (
          Permᴰ.trans (Permᴰ.append_left keys (appended n key r))
            (grouped nodes keys (append_to murmur n key r) s (sym step ∙ e)))
  ]

  selected_groups :
      (keys : List Bytes) (nodes : List RendezvousNode) (s : List (ℕ × List Bytes))
      → nodes_selection murmur keys nodes ≡ some s
      → Permᴰ keys (keys_in s)
  unfolding nodes_selection
  selected_groups keys [] s e =
      Permᴰ.trans (Permᴰ.symm (Permᴰ.append-nil keys)) (grouped [] keys [] s e)
  selected_groups keys (rdz ∷ []) s e =
      let same : (rdz.node, keys) ∷ [] ≡ s = cc in
      subst (λ x. Permᴰ keys (keys_in x)) same (Permᴰ.symm (Permᴰ.append-nil keys))
  selected_groups keys (first ∷ second ∷ rest) s e =
      Permᴰ.trans (Permᴰ.symm (Permᴰ.append-nil keys)) (grouped (first ∷ second ∷ rest) keys [] s e)

  picked :
      (keys : List Bytes) (o : Option (List RendezvousNode)) (s : List (ℕ × List Bytes))
      → pick_groups murmur keys o ≡ returned s
      → Permᴰ keys (keys_in s)
  unfolding pick_groups
  picked keys none s e = absurd (cc)
  picked keys (some []) s e = absurd (cc)
  picked keys (some (r ∷ rs)) s e = elim (Option-cases (nodes_selection murmur keys (r ∷ rs))) [
    | inl nowhere ↦
        let fails : pick_groups murmur keys (some (r ∷ rs)) ≡ failed no_available_nodes =
          rw (nowhere, pick_groups) refl in
        absurd (cc)
    | inr (groups, chosen) ↦
        let given : pick_groups murmur keys (some (r ∷ rs)) ≡ returned groups =
          rw (chosen, pick_groups) refl in
        let same : groups ≡ s = cc in
        subst (λ x. Permᴰ keys (keys_in x)) same (selected_groups keys (r ∷ rs) groups chosen)
  ]

  -- The keys that `pick_nodes` distributes.
  pub keys_in-pick_nodes :
      (cluster : Cluster) (keys : List Bytes) (s : List (ℕ × List Bytes))
      → pick_nodes murmur cluster keys ≡ returned s
      → Permᴰ keys (keys_in s)
  unfolding pick_nodes
  keys_in-pick_nodes cluster keys s e = picked keys cluster.rdz_nodes s e
