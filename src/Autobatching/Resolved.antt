-- ===== src/Autobatching/Resolved.antt =====
-- What becomes of one future when a batch has its response, told without the operations of the code.
use emcache.Prelude.{
  Bool, ℕ, ◌≡◌, refl, inl, inr, true, false, arith, Option, none, some, List, [], ◌∷◌, Bytes, ◌==◌,
  if◌then◌else◌, Bool-cases,
}
use emcache.Autobatching.{Future, pending, result, exception, cancelled, is_done, settle}

-- A pending operation, with its key and the futures that wait for it: the response has a value for the
-- key, or has none, or the key belongs to another batch.
pub data Slot : Type 0 where
  found : Bytes → Bytes → List ℕ → Slot
  missing other : Bytes → List ℕ → Slot

-- The future is among these.
unfoldable pub waits : ℕ → List ℕ → Bool
waits f [] = false
waits f (g ∷ gs) = let rest = waits f gs in if f == g then true else rest

-- The value of the first found key that the future waits for.
unfoldable pub value_for : ℕ → List Slot → Option Bytes
unfolding waits
value_for f [] = none
value_for f (found k v fs ∷ ss) = let rest = value_for f ss in if waits f fs then some v else rest
value_for f (missing k fs ∷ ss) = value_for f ss
value_for f (other k fs ∷ ss) = value_for f ss

-- The future waits for a key that the response has no value for.
unfoldable pub is_missed : ℕ → List Slot → Bool
unfolding waits
is_missed f [] = false
is_missed f (found k v fs ∷ ss) = is_missed f ss
is_missed f (missing k fs ∷ ss) = let rest = is_missed f ss in if waits f fs then true else rest
is_missed f (other k fs ∷ ss) = is_missed f ss

abbrev pub with_value : Option Bytes → Future
with_value none = pending
with_value (some v) = result (some (record { value = v; flags = none; cas = none }))

abbrev pub or_missed : Future → Bool → Future
or_missed pending true = result none
or_missed x _ = x

-- A pending future gets the value of its key, or `None` if its key is missing; all others stay as they
-- are.
abbrev pub resolved : List Slot → ℕ → Future → Future
resolved ss f pending = or_missed (with_value (value_for f ss)) (is_missed f ss)
resolved ss f x = x

-- The futures of the found keys get their values, unless they are done.
abbrev pub woken : List Slot → (ℕ → Future) → ℕ → Future
woken [] futures = futures
woken (found k v fs ∷ ss) futures =
    woken ss (settle (result (some (record { value = v; flags = none; cas = none }))) fs futures)
woken (missing k fs ∷ ss) futures = woken ss futures
woken (other k fs ∷ ss) futures = woken ss futures

-- The futures of the missing keys get `None`.
abbrev pub let_down : List Slot → (ℕ → Future) → ℕ → Future
let_down [] futures = futures
let_down (found k v fs ∷ ss) futures = let_down ss futures
let_down (missing k fs ∷ ss) futures = let_down ss (settle (result none) fs futures)
let_down (other k fs ∷ ss) futures = let_down ss futures

settle_done :
    (r : Future) (gs : List ℕ) (futures : ℕ → Future) (f : ℕ) (x : Future)
    → futures f ≡ x
    → is_done x ≡ true
    → settle r gs futures f ≡ x
unfolding settle
settle_done r [] futures f x e d = e
settle_done r (g ∷ gs) futures f x e d = rw (settle_done r gs futures f x e d, e, d) (ground arith)

settle_pending :
    (r : Future) (gs : List ℕ) (futures : ℕ → Future) (f : ℕ)
    → futures f ≡ pending
    → settle r gs futures f ≡ (if waits f gs then r else pending)
unfolding settle is_done waits
settle_pending r [] futures f e = e
settle_pending r (g ∷ gs) futures f e = rw (settle_pending r gs futures f e, e) (ground arith)

woken_done :
    (ss : List Slot) (futures : ℕ → Future) (f : ℕ) (x : Future)
    → futures f ≡ x
    → is_done x ≡ true
    → woken ss futures f ≡ x
woken_done [] futures f x e d = e
woken_done (found k v fs ∷ ss) futures f x e d =
    woken_done ss _ f x (settle_done (with_value (some v)) fs futures f x e d) d
woken_done (missing k fs ∷ ss) futures f x e d = woken_done ss futures f x e d
woken_done (other k fs ∷ ss) futures f x e d = woken_done ss futures f x e d

let_down_done :
    (ss : List Slot) (futures : ℕ → Future) (f : ℕ) (x : Future)
    → futures f ≡ x
    → is_done x ≡ true
    → let_down ss futures f ≡ x
let_down_done [] futures f x e d = e
let_down_done (found k v fs ∷ ss) futures f x e d = let_down_done ss futures f x e d
let_down_done (missing k fs ∷ ss) futures f x e d =
    let_down_done ss _ f x (settle_done (result none) fs futures f x e d) d
let_down_done (other k fs ∷ ss) futures f x e d = let_down_done ss futures f x e d

woken_pending :
    (ss : List Slot) (futures : ℕ → Future) (f : ℕ)
    → futures f ≡ pending
    → woken ss futures f ≡ with_value (value_for f ss)
unfolding value_for is_done
woken_pending [] futures f e = e
woken_pending (found k v fs ∷ ss) futures f e =
    let r = with_value (some v) in
    let s = settle_pending r fs futures f e in
    elim (Bool-cases (waits f fs)) [
      | inl h ↦ rw h (woken_done ss _ f r (rw h at s) refl)
      | inr h ↦ rw h (woken_pending ss _ f (rw h at s))
    ]
woken_pending (missing k fs ∷ ss) futures f e = woken_pending ss futures f e
woken_pending (other k fs ∷ ss) futures f e = woken_pending ss futures f e

let_down_pending :
    (ss : List Slot) (futures : ℕ → Future) (f : ℕ)
    → futures f ≡ pending
    → let_down ss futures f ≡ or_missed pending (is_missed f ss)
unfolding is_missed is_done
let_down_pending [] futures f e = e
let_down_pending (found k v fs ∷ ss) futures f e = let_down_pending ss futures f e
let_down_pending (missing k fs ∷ ss) futures f e =
    let s = settle_pending (result none) fs futures f e in
    elim (Bool-cases (waits f fs)) [
      | inl h ↦ rw h (let_down_done ss _ f (result none) (rw h at s) refl)
      | inr h ↦ rw h (let_down_pending ss _ f (rw h at s))
    ]
let_down_pending (other k fs ∷ ss) futures f e = let_down_pending ss futures f e

let_down_found :
    (ss : List Slot) (futures : ℕ → Future) (f : ℕ) (v : Option Bytes)
    → futures f ≡ with_value v
    → let_down ss futures f ≡ or_missed (with_value v) (is_missed f ss)
unfolding is_done
let_down_found ss futures f none e = let_down_pending ss futures f e
let_down_found ss futures f (some v) e = let_down_done ss futures f _ e refl

resolved_at :
    (ss : List Slot) (futures : ℕ → Future) (f : ℕ) (x : Future)
    → futures f ≡ x
    → let_down ss (woken ss futures) f ≡ resolved ss f x
unfolding is_done
resolved_at ss futures f pending e =
    let_down_found ss (woken ss futures) f (value_for f ss) (woken_pending ss futures f e)
resolved_at ss futures f (result i) e =
    let_down_done ss (woken ss futures) f _ (woken_done ss futures f _ e refl) refl
resolved_at ss futures f (exception x) e =
    let_down_done ss (woken ss futures) f _ (woken_done ss futures f _ e refl) refl
resolved_at ss futures f cancelled e =
    let_down_done ss (woken ss futures) f _ (woken_done ss futures f _ e refl) refl

pub let_down-woken :
    (ss : List Slot) (futures : ℕ → Future)
    → let_down ss (woken ss futures) ≡ (λ f. resolved ss f (futures f))
let_down-woken ss futures = λ i f. resolved_at ss futures f (futures f) refl i
