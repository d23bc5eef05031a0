-- ===== src/Autobatching/Finish/Pops.antt =====
-- What taking keys off the operations of a batch does, in whatever order that happens.
use emcache.Prelude.{
  ℕ, suc, ◌+◌, ◌≡◌, refl, ap, subst, arith, Bool, true, false, ◌||◌, Option, none, some, List, [],
  ◌∷◌, ◌++◌, Bytes, bytes_eq, bytes_eq→eq, length, length-append, ◌==◌, if_case,
}
use emcache.Client.Fetch.{has_key}
use emcache.Autobatching.{
  Future, is_done, settle, Ops, pop, Batch, Progress, running, pop_and_settle_found, pop_and_settle,
}
use emcache.Autobatching.Sending.{op_keys}

abbrev pub among : ℕ → List ℕ → Bool
among f [] = false
among f (g ∷ gs) = f == g || among f gs

-- Whether a future is one of those that wait for the operations.
abbrev pub waits : ℕ → Ops → Bool
waits f [] = false
waits f ((key, futures) ∷ ops) = among f futures || waits f ops

-- A future that is done or still waits for an operation of the batch.
abbrev pub covered : Batch → ℕ → Bool
covered b f = is_done (b.futures f) || waits f b.ops

is_done-settle :
    (r : Future) (gs : List ℕ) (futures : ℕ → Future) (f : ℕ)
    → is_done r ≡ true
    → (is_done (futures f) || among f gs) ≡ true
    → is_done (settle r gs futures f) ≡ true
unfolding settle
is_done-settle r [] futures f d h = ground arith
is_done-settle r (g ∷ gs) futures f d h = ground (arith, is_done-settle r gs futures f d)

record Popped (key : Bytes) (ops : Ops) (found : List ℕ) (rest : Ops) : Type 0 where
  pub one_less : suc (length rest) ≡ length ops
  pub kept :
      (x : Bytes)
      → bytes_eq x key ≡ false
      → has_key x (op_keys ops) ≡ true
      → has_key x (op_keys rest) ≡ true
  pub waiting : (f : ℕ) → waits f ops ≡ true → (among f found || waits f rest) ≡ true

-- A pop that finds its key.
abbrev Pops : Bytes → Ops → Option (List ℕ × Ops) → Type 0
Pops key ops o =
    (found : List ℕ) × (rest : Ops) × (o ≡ some (found, rest)) × Popped key ops found rest

pop-Pops : (key : Bytes) (ops : Ops) → has_key key (op_keys ops) ≡ true → Pops key ops (pop key ops)
unfolding pop has_key
pop-Pops key [] h = cc
pop-Pops key ((k, futures) ∷ ops) h =
    if_case (Pops key ((k, futures) ∷ ops)) (bytes_eq key k)
      (λ e. (
        futures,
        ops,
        refl,
        record {
          one_less = refl;
          kept = λ x n m.
              let differ : bytes_eq x k ≡ false =
                subst (λ y. bytes_eq x y ≡ false) (bytes_eq→eq key k e) n in
              ground arith;
          waiting = λ f w. w;
        },
      ))
      (λ e.
        let (found, rest, popped, p) = pop-Pops key ops (ground arith) in
        (
          found,
          (k, futures) ∷ rest,
          ap
              (λ (o : Option (List ℕ × Ops)). elim o [
                | none ↦ none
                | some (fs, others) ↦ some (fs, (k, futures) ∷ others)
              ])
              popped,
          record {
            one_less = ap suc p.one_less;
            kept = λ x n m. ground (arith, p.kept x n);
            waiting = λ f w. ground (arith, p.waiting f);
          },
        ))

-- What the batch operation does to the keys `ks`: it takes each off, and leaves no future behind.
pub record Woken (ks : List Bytes) (b c : Batch) : Type 0 where
  pub count : length c.ops + length ks ≡ length b.ops
  pub kept :
      (x : Bytes)
      → has_key x ks ≡ false
      → has_key x (op_keys b.ops) ≡ true
      → has_key x (op_keys c.ops) ≡ true
  pub still : (f : ℕ) → covered b f ≡ true → covered c f ≡ true

abbrev pub Wakes : List Bytes → Batch → Progress → Type 0
Wakes ks b p = (c : Batch) × (p ≡ running c) × Woken ks b c

pub Wakes-nil : (b : Batch) → Wakes [] b (running b)
Wakes-nil b = (b, refl, record { count = omega arith; kept = λ x n m. m; still = λ f h. h })

-- A key that the batch has is taken off, and its futures are done.
pub pop_and_settle-Wakes :
    (r : Future) (key : Bytes) (b : Batch)
    → is_done r ≡ true
    → has_key key (op_keys b.ops) ≡ true
    → Wakes (key ∷ []) b (pop_and_settle r key b)
unfolding pop_and_settle pop_and_settle_found has_key
pop_and_settle-Wakes r key b d h =
    let (found, rest, popped, p) = pop-Pops key b.ops h in
    (
      record b { ops = rest; futures = settle r found b.futures },
      ap (pop_and_settle_found r b) popped,
      record {
        count = omega (arith, p.one_less);
        kept = λ x n m. p.kept x (ground arith) m;
        still = λ f k. ground (arith, p.waiting f, is_done-settle r found b.futures f d);
      },
    )

pub has_key-append :
    (x : Bytes) (ks ls : List Bytes) → has_key x (ks ++ ls) ≡ (has_key x ks || has_key x ls)
unfolding has_key
has_key-append x [] ls = refl
has_key-append x (k ∷ ks) ls = ground (arith, has_key-append x ks ls)

pub Woken-append :
    (ks ls : List Bytes) (b c d : Batch) → Woken ks b c → Woken ls c d → Woken (ks ++ ls) b d
Woken-append ks ls b c d v w = record {
  count = omega (arith, v.count, w.count, length-append ks ls);
  kept = λ x n m.
      let split = has_key-append x ks ls in w.kept x (ground arith) (v.kept x (ground arith) m);
  still = λ f h. w.still f (v.still f h);
}
