-- ===== src/Pool/Counted/Parts.antt =====
-- Connections that are counted, those whose last use is noted, and those that are unused: what the
-- changes of the dictionary and the deque keep.
use emcache.Prelude.{
  ℕ, zero, suc, ◌≡◌, refl, arith, Bool, true, false, ◌||◌, List, [], ◌∷◌, length, take, All, ◌==◌,
  if_case, ℤ, pos, ◌-ℤ◌, int_laws,
}
use emcache.Pool.State.{contains, remove, set_time, delete_time}

-- `c in d`.
unfoldable pub has_time : ℕ → List (ℕ × ℕ) → Bool
has_time c [] = false
has_time c ((d, t) ∷ rest) = c == d || has_time c rest

abbrev pub Tracked : List (ℕ × ℕ) → List ℕ → Type 0
Tracked times = All (λ c. has_time c times ≡ true)

abbrev pub Distinct : List ℕ → Type 0
Distinct [] = Unit
Distinct (c ∷ l) = (contains c l ≡ false) × Distinct l

-- The pool counts the connections of the dictionary, and the unused ones are distinct and among them.
pub record Counted (total : ℤ) (times : List (ℕ × ℕ)) (unused : List ℕ) : Type 0 where
  pub count : total ≡ pos (length times)
  pub tracked : Tracked times unused
  pub distinct : Distinct unused

length-delete_time :
    (c : ℕ) (d : List (ℕ × ℕ)) → has_time c d ≡ true → suc (length (delete_time c d)) ≡ length d
unfolding has_time delete_time
length-delete_time c [] h = cc
length-delete_time c ((x, t) ∷ d) h = ground (arith, length-delete_time c d)

has_time-delete_time :
    (x c : ℕ) (d : List (ℕ × ℕ))
    → (x == c) ≡ false
    → has_time x d ≡ true
    → has_time x (delete_time c d) ≡ true
unfolding has_time delete_time
has_time-delete_time x c [] n h = h
has_time-delete_time x c ((y, t) ∷ d) n h = ground (arith, has_time-delete_time x c d)

pub has_time-set_time :
    (x c t : ℕ) (d : List (ℕ × ℕ)) → has_time x d ≡ true → has_time x (set_time c t d) ≡ true
unfolding has_time set_time
has_time-set_time x c t [] h = cc
has_time-set_time x c t ((y, u) ∷ d) h = ground (arith, has_time-set_time x c t d)

pub has_time-set : (c t : ℕ) (d : List (ℕ × ℕ)) → has_time c (set_time c t d) ≡ true
unfolding has_time set_time
has_time-set c t [] = ground arith
has_time-set c t ((y, u) ∷ d) = ground (arith, has_time-set c t d)

pub length-set_time :
    (c t : ℕ) (d : List (ℕ × ℕ)) → has_time c d ≡ true → length (set_time c t d) ≡ length d
unfolding has_time set_time
length-set_time c t [] h = cc
length-set_time c t ((y, u) ∷ d) h = ground (arith, length-set_time c t d)

pub length-set_time_new :
    (c t : ℕ) (d : List (ℕ × ℕ)) → has_time c d ≡ false → length (set_time c t d) ≡ suc (length d)
unfolding has_time set_time
length-set_time_new c t [] h = refl
length-set_time_new c t ((y, u) ∷ d) h = ground (arith, length-set_time_new c t d)

Tracked-delete_time :
    (c : ℕ) (d : List (ℕ × ℕ)) (l : List ℕ)
    → contains c l ≡ false
    → Tracked d l
    → Tracked (delete_time c d) l
unfolding contains
Tracked-delete_time c d [] n h = tt
Tracked-delete_time c d (x ∷ l) n h =
    (has_time-delete_time x c d (ground arith) h.0, Tracked-delete_time c d l (ground arith) h.1)

pub Tracked-set_time :
    (c t : ℕ) (d : List (ℕ × ℕ)) (l : List ℕ) → Tracked d l → Tracked (set_time c t d) l
Tracked-set_time c t d [] h = tt
Tracked-set_time c t d (x ∷ l) h = (has_time-set_time x c t d h.0, Tracked-set_time c t d l h.1)

Tracked-remove : (c : ℕ) (d : List (ℕ × ℕ)) (l : List ℕ) → Tracked d l → Tracked d (remove c l)
unfolding remove
Tracked-remove c d [] h = tt
Tracked-remove c d (x ∷ l) h =
    if_case (Tracked d) (c == x) (λ _. h.1) (λ _. (h.0, Tracked-remove c d l h.1))

pub Tracked-take : (n : ℕ) (d : List (ℕ × ℕ)) (l : List ℕ) → Tracked d l → Tracked d (take n l)
Tracked-take zero d l h = tt
Tracked-take (suc n) d [] h = tt
Tracked-take (suc n) d (x ∷ l) h = (h.0, Tracked-take n d l h.1)

contains-remove : (x c : ℕ) (l : List ℕ) → contains x l ≡ false → contains x (remove c l) ≡ false
unfolding contains remove
contains-remove x c [] h = refl
contains-remove x c (y ∷ l) h = ground (arith, contains-remove x c l)

removed : (c : ℕ) (l : List ℕ) → Distinct l → contains c (remove c l) ≡ false
unfolding contains remove
removed c [] h = refl
removed c (y ∷ l) h = ground (arith, removed c l h.1)

Distinct-remove : (c : ℕ) (l : List ℕ) → Distinct l → Distinct (remove c l)
unfolding remove
Distinct-remove c [] h = tt
Distinct-remove c (x ∷ l) h =
    if_case Distinct (c == x) (λ _. h.1) (λ _. (contains-remove x c l h.0, Distinct-remove c l h.1))

contains-take : (x n : ℕ) (l : List ℕ) → contains x l ≡ false → contains x (take n l) ≡ false
unfolding contains
contains-take x zero l h = refl
contains-take x (suc n) [] h = refl
contains-take x (suc n) (y ∷ l) h = ground (arith, contains-take x n l)

pub Distinct-take : (n : ℕ) (l : List ℕ) → Distinct l → Distinct (take n l)
Distinct-take zero l h = tt
Distinct-take (suc n) [] h = tt
Distinct-take (suc n) (x ∷ l) h = (contains-take x n l h.0, Distinct-take n l h.1)

-- A connection that is not tracked is not unused.
pub untracked :
    (c : ℕ) (d : List (ℕ × ℕ)) (l : List ℕ)
    → has_time c d ≡ false
    → Tracked d l
    → contains c l ≡ false
unfolding contains
untracked c d [] n h = refl
untracked c d (x ∷ l) n h =
    let same : c ≡ x → has_time c d ≡ true = λ e. rw e h.0 in ground (arith, same, untracked c d l)

pub Counted-close :
    (total : ℤ) (times : List (ℕ × ℕ)) (unused : List ℕ) (c : ℕ)
    → has_time c times ≡ true
    → Counted total times unused
    → Counted (total -ℤ pos 1) (delete_time c times) (remove c unused)
Counted-close total times unused c t h = record {
  count = grind (int_laws, h.count, length-delete_time c times t);
  tracked =
      Tracked-delete_time c times (remove c unused) (removed c unused h.distinct)
        (Tracked-remove c times unused h.tracked);
  distinct = Distinct-remove c unused h.distinct;
}

has_time-more :
    (x : ℕ) (y : ℕ × ℕ) (d : List (ℕ × ℕ)) → has_time x d ≡ true → has_time x (y ∷ d) ≡ true
unfolding has_time
has_time-more x (y, t) d h = ground arith

-- Every entry of the dictionary is found in it.
abbrev pub Entries : List (ℕ × ℕ) → List (ℕ × ℕ) → Type 0
Entries d = All (λ (e : ℕ × ℕ). has_time e.0 d ≡ true)

Entries-cons : (y : ℕ × ℕ) (d l : List (ℕ × ℕ)) → Entries d l → Entries (y ∷ d) l
Entries-cons y d [] h = tt
Entries-cons y d (e ∷ l) h = (has_time-more e.0 y d h.0, Entries-cons y d l h.1)

pub Entries-all : (d : List (ℕ × ℕ)) → Entries d d
unfolding has_time
Entries-all [] = tt
Entries-all ((x, t) ∷ d) = (ground arith, Entries-cons (x, t) d d (Entries-all d))
