-- ===== src/Rendezvous.antt =====
-- emcache/_cython/hashing/rendezvous.pyx: which node serves a key. MurmurHash3 is third-party code,
-- so the 16 bytes that it writes are the parameter `murmur`. `char` is signed and `unsigned int` has
-- 32 bits, as with the usual compilers on x86-64.
pub mod Hash
pub mod Choice
pub mod Groups
pub mod Ties
use Prim.Native.Nat.{bit_and, bit_or}
use emcache.Prelude.{
  ℕ, zero, suc, ◌+◌, ◌-◌, ◌*◌, ◌%◌, ◌^◌, ◌≡◌, refl, Bool, true, false, Option, none, some, List, [],
  ◌∷◌, ◌++◌, Bytes, ltb, ◌==◌, if◌then◌else◌,
}

-- A `char` byte converted to `unsigned int`.
unfoldable pub extended : ℕ → ℕ
extended b = if ltb b 128 then b else 2 ^ 32 - 256 + b

abbrev mask : ℕ
mask = 0xffffffff

-- `mask << k` in 32 bits.
abbrev mask_shl : ℕ → ℕ
mask_shl k = (mask * 2 ^ k) % 2 ^ 32

-- The last expression of `_hash`: `<<` binds tighter than `&`, and `&` tighter than `|`.
unfoldable pub hash_word : ℕ → ℕ → ℕ → ℕ → ℕ
unfolding extended
hash_word out0 out1 out2 out3 =
    bit_or
      (bit_or
        (bit_or (bit_and (extended out3) (mask_shl 24)) (bit_and (extended out2) (mask_shl 16)))
        (bit_and (extended out1) (mask_shl 8)))
      (bit_and (extended out0) mask)

pub record RendezvousNode : Type 0 where
  pub rendezvous_id : Bytes
  pub hash : ℕ
  pub node : ℕ

-- The functions of the module, over MurmurHash3: `murmur data i` is the byte `out[i]`.
module _ (murmur : Bytes → ℕ → ℕ) where
  unfoldable pub hash_of : Bytes → ℕ
  hash_of bytes = hash_word (murmur bytes 0) (murmur bytes 1) (murmur bytes 2) (murmur bytes 3)

  -- `RendezvousNode(rendezvous_id, node)`; the identifier is given encoded.
  unfoldable pub rendezvous_node : Bytes → ℕ → RendezvousNode
  rendezvous_node id node = record { rendezvous_id = id; hash = hash_of id; node = node }

  abbrev pub score : Bytes → RendezvousNode → ℕ
  score key rdz = hash_of (key ++ rdz.rendezvous_id)

  -- The loop over the other nodes, with the variables `high_score` and `high_score_rdz_node`.
  unfoldable pub best_of : Bytes → ℕ → RendezvousNode → List RendezvousNode → RendezvousNode
  best_of key high best [] = best
  best_of key high best (rdz ∷ rest) =
      let n = score key rdz in
      let higher = best_of key n rdz rest in
      let tied = best_of key high rdz rest in
      let lower = best_of key high best rest in
      if ltb high n
      then higher
      else if n == high
      then (if ltb best.hash rdz.hash then tied else lower)
      else lower

  -- `node_selection(key, rendezvous_nodes)`; `none` is the `IndexError` of an empty list.
  unfoldable pub node_selection : Bytes → List RendezvousNode → Option ℕ
  node_selection key [] = none
  node_selection key (rdz ∷ []) = some rdz.node
  node_selection key (first ∷ second ∷ rest) =
      some (best_of key (score key first) first (second ∷ rest)).node

  -- `result[node].append(key)`, or `result[node] = [key]` for a new node.
  unfoldable pub append_to : ℕ → Bytes → List (ℕ × List Bytes) → List (ℕ × List Bytes)
  append_to node key [] = (node, key ∷ []) ∷ []
  append_to node key ((n, keys) ∷ rest) =
      if n == node then (n, keys ++ key ∷ []) ∷ rest else (n, keys) ∷ append_to node key rest

  -- The loop over the keys.
  unfoldable pub group_keys :
      List RendezvousNode → List Bytes → List (ℕ × List Bytes) → Option (List (ℕ × List Bytes))
  group_keys nodes [] result = some result
  group_keys nodes (key ∷ keys) result = elim (node_selection key nodes) [
    | none ↦ none
    | some node ↦ group_keys nodes keys (append_to node key result)
  ]

  -- `nodes_selection(keys, rendezvous_nodes)`; a dictionary is its items in the order of insertion.
  unfoldable pub nodes_selection : List Bytes → List RendezvousNode → Option (List (ℕ × List Bytes))
  nodes_selection keys (rdz ∷ []) = some ((rdz.node, keys) ∷ [])
  nodes_selection keys nodes = group_keys nodes keys []
