-- ===== src/Rendezvous/Choice.antt =====
-- Which node `node_selection` picks, and what a change of the node list does to it.
use emcache.Prelude.{
  ℕ, ◌≡◌, refl, ◌<◌, ◌⊎◌, inl, inr, arith, ap, sym, subst, ◌∙◌, Option, none, some, List, [], ◌∷◌,
  ◌++◌, Bytes, All, Among, ltb, ltb→lt, ◌==◌, if◌then◌else◌, Bool-cases,
}
use emcache.Rendezvous.{RendezvousNode, score, best_of, node_selection}

module _ (murmur : Bytes → ℕ → ℕ) where
  -- `a` ranks below `b`: by the score of the key, and by the node's own hash where scores are equal.
  abbrev pub RanksBelow : Bytes → RendezvousNode → RendezvousNode → Type 0
  RanksBelow key a b =
      (score murmur key a < score murmur key b)
      ⊎ ((score murmur key a ≡ score murmur key b) × (a.hash < b.hash))

  -- The better of two nodes, the first of equal ones.
  better : Bytes → RendezvousNode → RendezvousNode → RendezvousNode
  better key a b =
      if ltb (score murmur key a) (score murmur key b)
      then b
      else if score murmur key b == score murmur key a
      then (if ltb a.hash b.hash then b else a)
      else a

  -- The best of a list, as one fold.
  top : Bytes → RendezvousNode → List RendezvousNode → RendezvousNode
  top key a [] = a
  top key a (b ∷ rest) = top key (better key a b) rest

  best_of-better :
      (key : Bytes) (a : RendezvousNode) (rest : List RendezvousNode)
      → best_of murmur key (score murmur key a) a rest ≡ top key a rest
  unfolding best_of better top
  best_of-better key a [] = refl
  best_of-better key a (b ∷ rest) =
      ground (arith, best_of-better key a rest, best_of-better key b rest)

  -- The node that a list of nodes gives, as an entry of the list.
  pub selected : Bytes → List RendezvousNode → Option RendezvousNode
  selected key [] = none
  selected key (a ∷ rest) = some (top key a rest)

  abbrev pub node_of : Option RendezvousNode → Option ℕ
  node_of none = none
  node_of (some a) = some a.node

  pub node_selection-selected :
      (key : Bytes) (nodes : List RendezvousNode)
      → node_selection murmur key nodes ≡ node_of (selected key nodes)
  unfolding node_selection selected top
  node_selection-selected key [] = refl
  node_selection-selected key (a ∷ []) = refl
  node_selection-selected key (a ∷ b ∷ rest) =
      ap (λ (r : RendezvousNode). some r.node) (best_of-better key a (b ∷ rest))

  better-cases :
      (key : Bytes) (a b : RendezvousNode)
      → ((better key a b ≡ b) × RanksBelow key a b)
        ⊎ ((better key a b ≡ a) × (¬ RanksBelow key a b))
  unfolding better
  better-cases key a b = elim (Bool-cases (ltb (score murmur key a) (score murmur key b))) [
    | inl e ↦ rw e (inl (refl, inl (ltb→lt _ _ e)))
    | inr e ↦ rw e (ground arith)
  ]

  top_to :
      (key : Bytes) (a b c : RendezvousNode) (rest : List RendezvousNode)
      → better key a b ≡ c
      → top key a (b ∷ rest) ≡ top key c rest
  unfolding top
  top_to key a b c rest e = ap (λ r. top key r rest) e

  -- Ranks are a total order, but for nodes of equal rank.
  ranks_trans :
      (key : Bytes) (a b c : RendezvousNode)
      → ¬ RanksBelow key a b
      → ¬ RanksBelow key b c
      → ¬ RanksBelow key a c
  ranks_trans key a b c h k = grind arith

  ranks_below :
      (key : Bytes) (a b c : RendezvousNode)
      → ¬ RanksBelow key b a
      → RanksBelow key b c
      → RanksBelow key a c
  ranks_below key a b c h k = grind arith

  ranks_irrefl : (key : Bytes) (a : RendezvousNode) → ¬ RanksBelow key a a
  ranks_irrefl key a h = grind arith

  ranks_asymm : (key : Bytes) (a b : RendezvousNode) → RanksBelow key a b → ¬ RanksBelow key b a
  ranks_asymm key a b h k = grind arith

  top-best :
      (key : Bytes) (a m : RendezvousNode) (rest : List RendezvousNode)
      → ¬ RanksBelow key a m
      → ¬ RanksBelow key (top key a rest) m
  top-best key a m [] h = unfold top in h
  top-best key a m (b ∷ rest) h = elim (better-cases key a b) [
    | inl (e, below) ↦
        rw (top_to key a b b rest e)
          (top-best key b m rest (ranks_trans key b a m (ranks_asymm key a b below) h))
    | inr (e, _) ↦ rw (top_to key a b a rest e) (top-best key a m rest h)
  ]

  abbrev AllBelow : Bytes → List RendezvousNode → RendezvousNode → Type 0
  AllBelow key nodes best = All (λ m. ¬ RanksBelow key best m) nodes

  top-All :
      (key : Bytes) (a : RendezvousNode) (rest : List RendezvousNode)
      → All (λ m. ¬ RanksBelow key (top key a rest) m) rest
  top-All key a [] = tt
  top-All key a (b ∷ rest) = elim (better-cases key a b) [
    | inl (e, below) ↦
        subst (AllBelow key (b ∷ rest)) (sym (top_to key a b b rest e))
          (top-best key b b rest (ranks_irrefl key b), top-All key b rest)
    | inr (e, above) ↦
        subst (AllBelow key (b ∷ rest)) (sym (top_to key a b a rest e))
          (top-best key a b rest above, top-All key a rest)
  ]

  skip :
      {x : RendezvousNode} (a b : RendezvousNode) (rest : List RendezvousNode)
      → Among x (a ∷ rest)
      → Among x (a ∷ b ∷ rest)
  skip a b rest (inl e) = inl e
  skip a b rest (inr h) = inr (inr h)

  top-Among :
      (key : Bytes) (a : RendezvousNode) (rest : List RendezvousNode)
      → Among (top key a rest) (a ∷ rest)
  top-Among key a [] = inl (unfold top in refl)
  top-Among key a (b ∷ rest) = elim (better-cases key a b) [
    | inl (e, _) ↦
        subst (λ r. Among r (a ∷ b ∷ rest)) (sym (top_to key a b b rest e))
          (inr (top-Among key b rest))
    | inr (e, _) ↦
        subst (λ r. Among r (a ∷ b ∷ rest)) (sym (top_to key a b a rest e))
          (skip a b rest (top-Among key a rest))
  ]

  -- For a list of at least one node, the node selected for a key is one of the list, and no node of
  -- the list ranks above it: none has a higher score, and none with the same score has a higher hash
  -- of its own.
  pub node_selection-best :
      (key : Bytes) (first : RendezvousNode) (rest : List RendezvousNode)
      → (best : RendezvousNode) × (node_selection murmur key (first ∷ rest) ≡ some best.node)
        × Among best (first ∷ rest)
        × All (λ m. ¬ RanksBelow key best m) (first ∷ rest)
  unfolding top selected
  node_selection-best key first rest = (
    top key first rest,
    node_selection-selected key (first ∷ rest),
    top-Among key first rest,
    (top-best key first first rest (ranks_irrefl key first), top-All key first rest),
  )

  -- A node in front that ranks no lower than the next one wins, or changes nothing.
  top-insert :
      (key : Bytes) (x a : RendezvousNode) (rest : List RendezvousNode)
      → ¬ RanksBelow key x a
      → (top key x rest ≡ x) ⊎ (top key x rest ≡ top key a rest)
  top-insert key x a [] h = inl (unfold top in refl)
  top-insert key x a (b ∷ rest) h = elim (better-cases key x b) [
    | inl (e, below) ↦ elim (better-cases key a b) [
      | inl (e', _) ↦ inr (top_to key x b b rest e ∙ sym (top_to key a b b rest e'))
      | inr (_, above) ↦ absurd (above (ranks_below key a x b h below))
    ]
    | inr (e, above) ↦ elim (better-cases key a b) [
      | inl (e', _) ↦
          rw (top_to key x b x rest e, top_to key a b b rest e') (top-insert key x b rest above)
      | inr (e', _) ↦
          rw (top_to key x b x rest e, top_to key a b a rest e') (top-insert key x a rest h)
    ]
  ]

  top-middle :
      (key : Bytes) (a x : RendezvousNode) (before after : List RendezvousNode)
      → (top key a (before ++ x ∷ after) ≡ x)
        ⊎ (top key a (before ++ x ∷ after) ≡ top key a (before ++ after))
  top-middle key a x [] after = elim (better-cases key a x) [
    | inl (e, below) ↦
        rw (top_to key a x x after e) (top-insert key x a after (ranks_asymm key a x below))
    | inr (e, _) ↦ inr (top_to key a x a after e)
  ]
  top-middle key a x (b ∷ before) after =
      rw (top_to key a b _ (before ++ x ∷ after) refl, top_to key a b _ (before ++ after) refl)
        (top-middle key (better key a b) x before after)

  chosen :
      {c x d : RendezvousNode}
      → (c ≡ x) ⊎ (c ≡ d)
      → (node_of (some c) ≡ some x.node) ⊎ (node_of (some c) ≡ node_of (some d))
  chosen (inl e) = inl (ap (λ (r : RendezvousNode). some r.node) e)
  chosen (inr e) = inr (ap (λ (r : RendezvousNode). some r.node) e)

  selected-insert :
      (key : Bytes) (x : RendezvousNode) (before after : List RendezvousNode)
      → (node_of (selected key (before ++ x ∷ after)) ≡ some x.node)
        ⊎ (node_of (selected key (before ++ x ∷ after)) ≡ node_of (selected key (before ++ after)))
  unfolding selected
  selected-insert key x [] [] = inl (unfold top in refl)
  selected-insert key x [] (b ∷ after) = elim (better-cases key x b) [
    | inl (e, _) ↦ rw (top_to key x b b after e) (inr refl)
    | inr (e, above) ↦ rw (top_to key x b x after e) (chosen (top-insert key x b after above))
  ]
  selected-insert key x (a ∷ before) after = chosen (top-middle key a x before after)

  -- The minimal disruption of rendezvous hashing: with one more node in the list, wherever it stands,
  -- a key is served by the new node or by the node that served it before. So a node that leaves
  -- moves no key but its own.
  pub node_selection-insert :
      (key : Bytes) (x : RendezvousNode) (before after : List RendezvousNode)
      → (node_selection murmur key (before ++ x ∷ after) ≡ some x.node)
        ⊎ (node_selection murmur key (before ++ x ∷ after)
            ≡ node_selection murmur key (before ++ after))
  node_selection-insert key x before after =
      rw
        (
          node_selection-selected key (before ++ x ∷ after),
          node_selection-selected key (before ++ after),
        )
        (selected-insert key x before after)
