-- ===== src/Pool/Metrics/Percentiles.antt =====
-- The percentiles of the latencies.
use emcache.Prelude.{
  ℕ, ◌-◌, ◌*◌, ◌/◌, ◌≡◌, refl, sym, ap, subst, ◌∙◌, ◌≤◌, ◌<◌, arith, Option, some, List, [], ◌∷◌,
  length, get_elem?, All,
}
use mathlib.Core.List.{Permᴰ}
use mathlib.Core.List.Permᴰ
use emcache.Pool.State.{Pool}
use emcache.Pool.Metrics.{
  Latencies, ConnectionPoolMetrics, no_latencies, metrics, sorted, sum, item, percentiles,
  read_latencies,
}
use emcache.Pool.Metrics.Sorted.{
  IsSorted, sorted-IsSorted, length-sorted, item_rises, All-sorted, sum-sorted, sorted-Permᴰ,
  item-get_elem?, total, sum-total,
}

-- `a` is at least each of the values.
abbrev pub IsUpper : ℕ → List ℕ → Type 0
IsUpper a = All (λ x. x ≤ a)

sorted_last :
    (x : ℕ) (l : List ℕ)
    → IsSorted (x ∷ l)
    → (c : ℕ) × (item (x ∷ l) (length l) ≡ some c) × IsUpper c (x ∷ l)
unfolding item
sorted_last x [] s = (x, refl, (omega arith, tt))
sorted_last x (y ∷ l) s =
    let (c, e, upper) = sorted_last y l s.1 in (c, e, (omega (arith, s.0.0, upper.0), upper))

-- The latencies `s` stand in order. Of `n` of them p50 is the one that 50 percent of `n` stand before,
-- p99 the one that 99 percent stand before, both rounded down, and the upper value the last one.
abbrev Quantiles : ℕ → List ℕ → Latencies → Type 0
Quantiles n s r =
    (r.create_connection_p50 ≡ get_elem? s (50 * n / 100))
    × (r.create_connection_p99 ≡ get_elem? s (99 * n / 100))
    × (r.create_connection_upper ≡ get_elem? s (n - 1))

-- The average is the sum over the number of the values, the percentiles are those of the values in
-- order, and they rise up to the greatest.
abbrev pub IsReading : List ℕ → Latencies → Type 0
IsReading l r =
    (r.create_connection_avg ≡ some (total l, length l))
    × ((s : List ℕ) × IsSorted s × Permᴰ s l × Quantiles (length l) s r)
    × ((a : ℕ) × (b : ℕ) × (c : ℕ) × (r.create_connection_p50 ≡ some a)
        × (r.create_connection_p99 ≡ some b)
        × (r.create_connection_upper ≡ some c)
        × (a ≤ b)
        × (b ≤ c)
        × IsUpper c l)

percentiles-sorted :
    (l : List ℕ) (a b c : ℕ)
    → item l (50 * length l / 100) ≡ some a
    → item l (99 * length l / 100) ≡ some b
    → item l (length l - 1) ≡ some c
    → percentiles l
      ≡ some (record {
        create_connection_avg = some (sum l, length l);
        create_connection_p50 = some a;
        create_connection_p99 = some b;
        create_connection_upper = some c;
      })
unfolding percentiles sum
percentiles-sorted l a b c e f g = rw (e, f, g, percentiles) refl

abbrev pub Reads : List ℕ → Latencies → Type 0
Reads [] r = r ≡ no_latencies
Reads (x ∷ l) r = IsReading (x ∷ l) r

some_injective : (a b : ℕ) → some a ≡ some b → a ≡ b
some_injective a b e = cc

read-sorted :
    (l : List ℕ)
    → IsSorted l
    → 0 < length l
    → (r : Latencies) × (percentiles l ≡ some r) × IsReading l r
read-sorted [] s h = absurd (omega arith)
read-sorted (x ∷ l) s h =
    let n = length (x ∷ l) in
    let (a, b, e, f, low) =
      item_rises (x ∷ l) (50 * n / 100) (99 * n / 100) s (omega arith) (omega arith) in
    let (b', c, f', g, high) =
      item_rises (x ∷ l) (99 * n / 100) (n - 1) s (omega arith) (omega arith) in
    let (c', g', upper) = sorted_last x l s in
    let same : b ≡ b' = cc in
    let place : n - 1 ≡ length l = omega arith in
    let top : c' ≡ c = some_injective c' c (sym g' ∙ ap (item (x ∷ l)) (sym place) ∙ g) in
    (
      _,
      percentiles-sorted (x ∷ l) a b c e f g,
      (
        ap (λ z. some (z, n)) (sum-total (x ∷ l)),
        (
          x ∷ l,
          s,
          Permᴰ.refl (x ∷ l),
          (
            sym e ∙ item-get_elem? (x ∷ l) (50 * n / 100),
            sym f ∙ item-get_elem? (x ∷ l) (99 * n / 100),
            sym g ∙ item-get_elem? (x ∷ l) (n - 1),
          ),
        ),
        (
          a,
          b,
          c,
          refl,
          refl,
          refl,
          low,
          omega (arith, same, high),
          subst (λ z. IsUpper z (x ∷ l)) top upper,
        ),
      ),
    )

abbrev mean : ℕ → ℕ → Option (ℕ × ℕ)
mean total n = some (total, n)

mean-sorted : (l : List ℕ) → mean (total (sorted l)) (length (sorted l)) ≡ mean (total l) (length l)
mean-sorted l =
    let e : total (sorted l) ≡ total l = sym (sum-total (sorted l)) ∙ sum-sorted l ∙ sum-total l in
    λ i. mean (e i) (length-sorted l i)

IsReading-sorted : (l : List ℕ) (r : Latencies) → IsReading (sorted l) r → IsReading l r
IsReading-sorted l r (avg, (s, order, perm, q), (a, b, c, e, f, g, low, high, upper)) = (
  avg ∙ mean-sorted l,
  (s, order, Permᴰ.trans perm (sorted-Permᴰ l), subst (λ n. Quantiles n s r) (length-sorted l) q),
  (a, b, c, e, f, g, low, high, All-sorted (λ x. x ≤ c) l upper),
)

observed :
    (x : ℕ) (l : List ℕ) → (r : Latencies) × (read_latencies (x ∷ l) ≡ some r) × IsReading (x ∷ l) r
unfolding read_latencies
observed x l =
    let (r, e, reading) =
      read-sorted (sorted (x ∷ l)) (sorted-IsSorted (x ∷ l))
        (subst (λ n. 0 < n) (sym (length-sorted (x ∷ l))) (omega arith)) in
    (r, e, IsReading-sorted (x ∷ l) r reading)

latencies_read : (l : List ℕ) → (r : Latencies) × (read_latencies l ≡ some r) × Reads l r
unfolding read_latencies
latencies_read [] = (no_latencies, refl, refl)
latencies_read (x ∷ l) = observed x l

metrics-read :
    (p : Pool) (r : Latencies)
    → read_latencies p.create_connection_latencies ≡ some r
    → metrics p
      ≡ some (record { cur_connections = p.total_connections; counters = p.metrics; latencies = r })
unfolding metrics
metrics-read p r e = rw (e, metrics) refl

-- `metrics` never raises. With latencies observed, the average is their sum over their number; with
-- the `n` latencies in order, p50 is the one at place `50 * n / 100`, p99 the one at place
-- `99 * n / 100` and the upper value the last one, counted from 0 and rounded down; p50, p99 and the
-- upper value rise, and no latency is above the upper one. With none observed, the four values are not
-- set. The number of connections is the current one.
pub metrics-IsReading :
    (p : Pool)
    → (m : ConnectionPoolMetrics) × (metrics p ≡ some m)
      × (m.cur_connections ≡ p.total_connections)
      × Reads p.create_connection_latencies m.latencies
metrics-IsReading p =
    let (r, e, reads) = latencies_read p.create_connection_latencies in
    (_, metrics-read p r e, refl, reads)
