-- ===== src/Autobatching/Batches.antt =====
-- How the keys of one node are cut into batches.
use emcache.Prelude.{
  ℕ, zero, suc, ◌-◌, ◌≤◌, ◌≡◌, refl, ap, ◌∙◌, arith, List, [], ◌∷◌, ◌++◌, Bytes, All, length,
  take-drop, take, drop,
}
use emcache.Autobatching.{slices}
use mathlib.Core.List.{flatten}

length-drop {ℓ} : {A : Type ℓ} (n : ℕ) (l : List A) → length (drop n l) ≡ length l - n
length-drop zero l = omega arith
length-drop (suc n) [] = omega arith
length-drop (suc n) (x ∷ l) = omega (arith, length-drop n l)

length-take {ℓ} : {A : Type ℓ} (n : ℕ) (l : List A) → length (take n l) ≤ n
length-take zero l = omega arith
length-take (suc n) [] = omega arith
length-take (suc n) (x ∷ l) = omega (arith, length-take n l)

-- A batch is not empty and not larger than the limit.
abbrev pub IsBatch : ℕ → List Bytes → Type 0
IsBatch max_keys b = (1 ≤ length b) × (length b ≤ max_keys)

slices-flatten :
    (fuel n : ℕ) (keys : List Bytes)
    → length keys ≤ fuel
    → flatten (slices fuel (suc n) keys) ≡ keys
unfolding slices flatten
slices-flatten zero n [] h = refl
slices-flatten (suc fuel) n [] h = refl
slices-flatten zero n (k ∷ keys) h = ground arith
slices-flatten (suc fuel) n (k ∷ keys) h =
    let left = length-drop n keys in
    ap (λ rest. (k ∷ take n keys) ++ rest) (slices-flatten fuel n (drop n keys) (omega arith))
    ∙ ap (◌∷◌ k) (take-drop n keys)

slices-IsBatch : (fuel n : ℕ) (keys : List Bytes) → All (IsBatch (suc n)) (slices fuel (suc n) keys)
unfolding slices flatten
slices-IsBatch zero n [] = tt
slices-IsBatch (suc fuel) n [] = tt
slices-IsBatch zero n (k ∷ keys) = tt
slices-IsBatch (suc fuel) n (k ∷ keys) =
    let short = length-take n keys in
    ((omega arith, omega arith), slices-IsBatch fuel n (drop n keys))

-- For a limit of at least one key, cutting the keys of a node ends after no more rounds than there are
-- keys, with no key left over: the batches put together are the keys in their order, and each has
-- between one key and the limit.
pub slices-split :
    (max_keys : ℕ) (keys : List Bytes)
    → 1 ≤ max_keys
    → (flatten (slices (length keys) max_keys keys) ≡ keys)
      × All (IsBatch max_keys) (slices (length keys) max_keys keys)
slices-split zero keys h = ground arith
slices-split (suc n) keys h =
    (slices-flatten (length keys) n keys (omega arith), slices-IsBatch (length keys) n keys)
