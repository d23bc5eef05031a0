-- ===== src/Protocol/Text.antt =====
-- Joining and splitting of byte strings: `sep.join(parts)` and `item.split(b" ")`.
use emcache.Prelude.{
  ℕ, ◌≡◌, refl, ◌≢◌, List, [], ◌∷◌, ◌++◌, arith, Bytes, All, ◌==◌, if◌then◌else◌, ap,
}

-- `b" ".join(parts)`.
unfoldable pub join : Bytes → List Bytes → Bytes
join sep [] = []
join sep (p ∷ []) = p
join sep (p ∷ q ∷ ps) = p ++ (sep ++ join sep (q ∷ ps))

-- A byte goes to the front of the first piece.
abbrev pub onto_first : ℕ → List Bytes → List Bytes
onto_first c [] = (c ∷ []) ∷ []
onto_first c (p ∷ ps) = (c ∷ p) ∷ ps

-- `s.split(bytes([sep]))`: never empty, and empty pieces are kept.
unfoldable pub split_on : ℕ → Bytes → List Bytes
split_on sep [] = [] ∷ []
split_on sep (c ∷ s) =
    let rest = split_on sep s in if c == sep then [] ∷ rest else onto_first c rest

-- The byte does not occur in the text.
abbrev pub Lacks : ℕ → Bytes → Type 0
Lacks sep = All (λ c. c ≢ sep)

pub split_on-Lacks : (sep : ℕ) (p : Bytes) → Lacks sep p → split_on sep p ≡ p ∷ []
unfolding split_on
split_on-Lacks sep [] h = refl
split_on-Lacks sep (c ∷ p) h = rw (split_on-Lacks sep p h.1) (ground arith)

pub split_on-append :
    (sep : ℕ) (p s : Bytes) → Lacks sep p → split_on sep (p ++ (sep ∷ s)) ≡ p ∷ split_on sep s
unfolding split_on
split_on-append sep [] s h = ground arith
split_on-append sep (c ∷ p) s h = rw (split_on-append sep p s h.1) (ground arith)

-- Pieces without the separator are found again.
pub split_on-join :
    (sep : ℕ) (p : Bytes) (ps : List Bytes)
    → All (Lacks sep) (p ∷ ps)
    → split_on sep (join (sep ∷ []) (p ∷ ps)) ≡ p ∷ ps
unfolding join
split_on-join sep p [] h = split_on-Lacks sep p h.0
split_on-join sep p (q ∷ ps) h =
    rw (split_on-append sep p (join (sep ∷ []) (q ∷ ps)) h.0)
      (ap (◌∷◌ p) (split_on-join sep q ps h.1))

pub Lacks-append : (sep : ℕ) (p q : Bytes) → Lacks sep p → Lacks sep q → Lacks sep (p ++ q)
Lacks-append sep [] q h k = k
Lacks-append sep (c ∷ p) q h k = (h.0, Lacks-append sep p q h.1 k)
