-- ===== src/Pool/Metrics/Sorted.antt =====
-- `sorted`, `sum` and subscripts on the latencies (emcache/connection_pool.py, `metrics`).
use emcache.Prelude.{
  ℕ, zero, suc, ◌+◌, ◌≡◌, refl, ap, ◌∙◌, ◌≤◌, ◌<◌, arith, some, List, [], ◌∷◌, length, get_elem?,
  leb, All, All-imp, if_case,
}
use mathlib.Core.List.{Permᴰ}
use mathlib.Core.List.Permᴰ
use emcache.Pool.Metrics.{insert, sorted, sum, item}

abbrev pub IsSorted : List ℕ → Type 0
IsSorted [] = Unit
IsSorted (x ∷ xs) = All (λ y. x ≤ y) xs × IsSorted xs

insert-All {κ} : (P : ℕ → Type κ) (x : ℕ) (l : List ℕ) → P x → All P l → All P (insert x l)
unfolding insert
insert-All P x [] h k = (h, tt)
insert-All P x (y ∷ l) h k =
    if_case (All P) (leb x y) (λ _. (h, k)) (λ _. (k.0, insert-All P x l h k.1))

insert-IsSorted : (x : ℕ) (l : List ℕ) → IsSorted l → IsSorted (insert x l)
unfolding insert
insert-IsSorted x [] s = (tt, tt)
insert-IsSorted x (y ∷ l) s =
    if_case IsSorted (leb x y)
      (λ e. (((ground arith), All-imp (λ z. y ≤ z) (λ z. x ≤ z) l (λ z h. ground arith) s.0), s))
      (λ e. (insert-All (λ z. y ≤ z) x l (ground arith) s.0, insert-IsSorted x l s.1))

pub sorted-IsSorted : (l : List ℕ) → IsSorted (sorted l)
unfolding sorted
sorted-IsSorted [] = tt
sorted-IsSorted (x ∷ l) = insert-IsSorted x (sorted l) (sorted-IsSorted l)

length-insert : (x : ℕ) (l : List ℕ) → length (insert x l) ≡ suc (length l)
unfolding insert
length-insert x [] = refl
length-insert x (y ∷ l) = ground (arith, length-insert x l)

pub length-sorted : (l : List ℕ) → length (sorted l) ≡ length l
unfolding sorted
length-sorted [] = refl
length-sorted (x ∷ l) = length-insert x (sorted l) ∙ ap suc (length-sorted l)

item_at :
    (P : ℕ → Type 0) (l : List ℕ) (j : ℕ)
    → All P l
    → j < length l
    → (b : ℕ) × (item l j ≡ some b) × P b
unfolding item
item_at P [] j h k = absurd (omega arith)
item_at P (x ∷ l) zero h k = (x, refl, h.0)
item_at P (x ∷ l) (suc j) h k = item_at P l j h.1 (omega arith)

-- In a sorted list items rise with their places.
pub item_rises :
    (l : List ℕ) (i j : ℕ)
    → IsSorted l
    → i ≤ j
    → j < length l
    → (a : ℕ) × (b : ℕ) × (item l i ≡ some a) × (item l j ≡ some b) × (a ≤ b)
unfolding item
item_rises [] i j s h k = absurd (omega arith)
item_rises (x ∷ l) zero zero s h k = (x, x, refl, refl, omega arith)
item_rises (x ∷ l) zero (suc j) s h k =
    let (b, e, le) = item_at (λ y. x ≤ y) l j s.0 (omega arith) in (x, b, refl, e, le)
item_rises (x ∷ l) (suc i) zero s h k = absurd (omega arith)
item_rises (x ∷ l) (suc i) (suc j) s h k = item_rises l i j s.1 (omega arith) (omega arith)

All-insert : (P : ℕ → Type 0) (x : ℕ) (l : List ℕ) → All P (insert x l) → P x × All P l
unfolding insert
All-insert P x [] h = h
All-insert P x (y ∷ l) h =
    if_case (λ r. All P r → P x × (P y × All P l)) (leb x y) (λ _ k. k)
      (λ _ k. let (first, rest) = All-insert P x l k.1 in (first, (k.0, rest))) h

pub All-sorted : (P : ℕ → Type 0) (l : List ℕ) → All P (sorted l) → All P l
unfolding sorted
All-sorted P [] h = tt
All-sorted P (x ∷ l) h =
    let (first, rest) = All-insert P x (sorted l) h in (first, All-sorted P l rest)

sum-insert : (x : ℕ) (l : List ℕ) → sum (insert x l) ≡ x + sum l
unfolding sum insert
sum-insert x [] = refl
sum-insert x (y ∷ l) = ground (arith, sum-insert x l)

pub sum-sorted : (l : List ℕ) → sum (sorted l) ≡ sum l
unfolding sum sorted
sum-sorted [] = refl
sum-sorted (x ∷ l) = sum-insert x (sorted l) ∙ ap (◌+◌ x) (sum-sorted l)

-- `sorted` only rearranges.
insert-Permᴰ : (x : ℕ) (l : List ℕ) → Permᴰ (insert x l) (x ∷ l)
unfolding insert
insert-Permᴰ x [] = Permᴰ.refl (x ∷ [])
insert-Permᴰ x (y ∷ l) =
    if_case (λ k. Permᴰ k (x ∷ y ∷ l)) (leb x y) (λ _. Permᴰ.refl (x ∷ y ∷ l))
      (λ _. Permᴰ.trans (Permᴰ.cons refl (insert-Permᴰ x l)) (Permᴰ.swap refl refl))

pub sorted-Permᴰ : (l : List ℕ) → Permᴰ (sorted l) l
unfolding sorted
sorted-Permᴰ [] = Permᴰ.nil
sorted-Permᴰ (x ∷ l) = Permᴰ.trans (insert-Permᴰ x (sorted l)) (Permᴰ.cons refl (sorted-Permᴰ l))

pub item-get_elem? : (l : List ℕ) (i : ℕ) → item l i ≡ get_elem? l i
unfolding item
item-get_elem? [] i = refl
item-get_elem? (x ∷ l) zero = refl
item-get_elem? (x ∷ l) (suc i) = item-get_elem? l i

-- What the values add up to.
abbrev pub total : List ℕ → ℕ
total [] = 0
total (x ∷ xs) = total xs + x

pub sum-total : (l : List ℕ) → sum l ≡ total l
unfolding sum
sum-total [] = refl
sum-total (x ∷ l) = omega (arith, sum-total l)
