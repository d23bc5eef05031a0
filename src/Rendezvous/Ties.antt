-- ===== src/Rendezvous/Ties.antt =====
-- Nodes that are hashed by the same text.
use emcache.Prelude.{ℕ, ◌≡◌, refl, arith, false, some, [], ◌∷◌, ◌++◌, Bytes, ltb, ==_refl}
use emcache.Rendezvous.{rendezvous_node, node_selection, best_of, hash_of}

ltb_irrefl : (n : ℕ) → ltb n n ≡ false
ltb_irrefl n = ground arith

-- Of two nodes with the same text the first is selected, for every key.
pub node_selection-tie :
    (murmur : Bytes → ℕ → ℕ) (key : Bytes) (i j : ℕ) (id : Bytes)
    → node_selection murmur key (rendezvous_node murmur id i ∷ rendezvous_node murmur id j ∷ [])
      ≡ some i
unfolding node_selection best_of rendezvous_node
node_selection-tie murmur key i j id =
    let s = hash_of murmur (key ++ id) in
    rw (ltb_irrefl s, ==_refl s, ltb_irrefl (hash_of murmur id)) refl
