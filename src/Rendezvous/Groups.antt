-- ===== src/Rendezvous/Groups.antt =====
-- How `nodes_selection` spreads keys over nodes.
use emcache.Prelude.{
  ℕ, ◌≡◌, refl, arith, ap, sym, ◌∙◌, Bool, true, false, Option, none, some, List, [], ◌∷◌, ◌++◌,
  Bytes, ◌==◌, if◌then◌else◌,
}
use mathlib.Core.List.{append_assoc, append-nil}
use emcache.Rendezvous.{RendezvousNode, node_selection, append_to, group_keys, nodes_selection}
use emcache.Rendezvous.Choice.{node_selection-best}

-- The keys under a node in the result.
abbrev pub group_of : ℕ → List (ℕ × List Bytes) → List Bytes
group_of n [] = []
group_of n ((m, keys) ∷ rest) = if m == n then keys else group_of n rest

-- The nodes of the result, without duplicates.
abbrev pub Fresh : ℕ → List (ℕ × List Bytes) → Type 0
Fresh n [] = Unit
Fresh n ((m, keys) ∷ rest) = ((m == n) ≡ false) × Fresh n rest

abbrev pub IsDict : List (ℕ × List Bytes) → Type 0
IsDict [] = Unit
IsDict ((m, keys) ∷ rest) = Fresh m rest × IsDict rest

appended :
    (b : Bool) (key : Bytes) (g k : List Bytes)
    → (if b then g ++ key ∷ [] else g) ++ k ≡ g ++ (if b then key ∷ k else k)
appended true key g k = append_assoc g (key ∷ []) k
appended false key g k = refl

abbrev pub is_node : ℕ → Option ℕ → Bool
is_node n none = false
is_node n (some m) = m == n

module _ (murmur : Bytes → ℕ → ℕ) where
  -- The keys that a node is selected for, in the order of the call.
  abbrev pub keys_for : List RendezvousNode → ℕ → List Bytes → List Bytes
  keys_for nodes n [] = []
  keys_for nodes n (key ∷ keys) =
      let rest = keys_for nodes n keys in
      if is_node n (node_selection murmur key nodes) then key ∷ rest else rest

  keys_for-cons :
      (nodes : List RendezvousNode) (n m : ℕ) (key : Bytes) (keys : List Bytes)
      → node_selection murmur key nodes ≡ some m
      → keys_for nodes n (key ∷ keys)
        ≡ (if m == n then key ∷ keys_for nodes n keys else keys_for nodes n keys)
  keys_for-cons nodes n m key keys e =
      ap (λ o. if is_node n o then key ∷ keys_for nodes n keys else keys_for nodes n keys) e

  group_of-append_to :
      (n m : ℕ) (key : Bytes) (r : List (ℕ × List Bytes))
      → group_of n (append_to murmur m key r)
        ≡ (if m == n then group_of n r ++ key ∷ [] else group_of n r)
  unfolding append_to
  group_of-append_to n m key [] = ground arith
  group_of-append_to n m key ((k, keys) ∷ r) = ground (arith, group_of-append_to n m key r)

  Fresh-append_to :
      (n m : ℕ) (key : Bytes) (r : List (ℕ × List Bytes))
      → (m == n) ≡ false
      → Fresh n r
      → Fresh n (append_to murmur m key r)
  unfolding append_to
  Fresh-append_to n m key [] e f = (e, tt)
  Fresh-append_to n m key ((k, keys) ∷ r) e f = ground (arith, Fresh-append_to n m key r e f.1)

  IsDict-append_to :
      (m : ℕ) (key : Bytes) (r : List (ℕ × List Bytes))
      → IsDict r
      → IsDict (append_to murmur m key r)
  unfolding append_to
  IsDict-append_to m key [] d = (tt, tt)
  IsDict-append_to m key ((k, keys) ∷ r) d =
      ground (arith, Fresh-append_to k m key r, IsDict-append_to m key r d.1)

  module _ (first : RendezvousNode) (rest : List RendezvousNode) where
    abbrev nodes : List RendezvousNode
    nodes = first ∷ rest

    counted :
        (n : ℕ) (best : RendezvousNode) (r s : List (ℕ × List Bytes)) (keys : List Bytes)
        (key : Bytes)
        → ((k : ℕ)
            → group_of k s ≡ group_of k (append_to murmur best.node key r) ++ keys_for nodes k keys)
        → group_of n s
          ≡ group_of n r
            ++ (if best.node == n then key ∷ keys_for nodes n keys else keys_for nodes n keys)
    counted n best r s keys key h =
        h n
        ∙ ap (λ g. g ++ keys_for nodes n keys) (group_of-append_to n best.node key r)
        ∙ appended (best.node == n) key (group_of n r) (keys_for nodes n keys)

    groups :
        (keys : List Bytes) (r : List (ℕ × List Bytes))
        → IsDict r
        → (s : List (ℕ × List Bytes)) × (group_keys murmur nodes keys r ≡ some s)
          × IsDict s
          × ((n : ℕ) → group_of n s ≡ group_of n r ++ keys_for nodes n keys)
    unfolding group_keys
    groups [] r d = (r, refl, d, λ n. sym (append-nil (group_of n r)))
    groups (key ∷ keys) r d =
        let (best, e, _, _) = node_selection-best murmur key first rest in
        let (s, q, d', h) =
          groups keys (append_to murmur best.node key r) (IsDict-append_to best.node key r d) in
        (
          s,
          (rw (e, group_keys) q),
          d',
          λ n.
              counted n best r s keys key h
              ∙ ap (◌++◌ (group_of n r)) (sym (keys_for-cons nodes n best.node key keys e)),
        )

  one_node :
      (only : RendezvousNode) (n : ℕ) (keys : List Bytes)
      → keys_for (only ∷ []) n keys ≡ (if only.node == n then keys else [])
  unfolding node_selection
  one_node only n [] = ground arith
  one_node only n (key ∷ keys) = ground (arith, one_node only n keys)

  -- For at least one node, the result of `nodes_selection` has each node at most once, and under each
  -- node it has exactly the keys of the call that `node_selection` gives to the node, in their order.
  -- So no key is lost, doubled or sent to a node that does not serve it.
  pub nodes_selection-groups :
      (keys : List Bytes) (first : RendezvousNode) (rest : List RendezvousNode)
      → (result : List (ℕ × List Bytes)) × (nodes_selection murmur keys (first ∷ rest)
          ≡ some result)
        × IsDict result
        × ((n : ℕ) → group_of n result ≡ keys_for (first ∷ rest) n keys)
  unfolding nodes_selection
  nodes_selection-groups keys first [] =
      ((first.node, keys) ∷ [], refl, (tt, tt), λ n. sym (one_node first n keys))
  nodes_selection-groups keys first (second ∷ rest) = groups first (second ∷ rest) keys [] tt
