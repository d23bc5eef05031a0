-- ===== src/Pool/Metrics.antt =====
-- What `ConnectionPool.metrics()` reports (emcache/connection_pool.py), and the contexts by which a
-- command takes a connection and gives it back.
pub mod Sorted
pub mod Percentiles
use emcache.Prelude.{
  ℕ, zero, suc, ◌+◌, ◌-◌, ◌*◌, ◌/◌, Bool, true, false, Option, none, some, List, [], ◌∷◌, length,
  leb, if◌then◌else◌, ℤ,
}
use emcache.Pool.State.{Future, result, Metrics, Pool}
use emcache.Pool.Methods.{Context, ready, waiting, release_connection}

-- The values that are computed at read time; the average is a sum and a number of values.
pub record Latencies : Type 0 where
  pub create_connection_avg : Option (ℕ × ℕ)
  pub create_connection_p50 : Option ℕ
  pub create_connection_p99 : Option ℕ
  pub create_connection_upper : Option ℕ

pub record ConnectionPoolMetrics : Type 0 where
  pub cur_connections : ℤ
  pub counters : Metrics
  pub latencies : Latencies

abbrev pub no_latencies : Latencies
no_latencies = record {
  create_connection_avg = none;
  create_connection_p50 = none;
  create_connection_p99 = none;
  create_connection_upper = none;
}

-- `sorted(l)`.
unfoldable pub insert : ℕ → List ℕ → List ℕ
insert x [] = x ∷ []
insert x (y ∷ ys) = if leb x y then x ∷ y ∷ ys else y ∷ insert x ys

unfoldable pub sorted : List ℕ → List ℕ
unfolding insert
sorted [] = []
sorted (x ∷ xs) = insert x (sorted xs)

unfoldable pub sum : List ℕ → ℕ
sum [] = 0
sum (x ∷ xs) = x + sum xs

-- `l[i]`; `none` is the `IndexError`.
unfoldable pub item : List ℕ → ℕ → Option ℕ
item [] i = none
item (x ∷ xs) zero = some x
item (x ∷ xs) (suc i) = item xs i

infixl 5 ◌>>=◌
abbrev ◌>>=◌ {ℓ κ} : {A : Type ℓ} {B : Type κ} → Option A → (A → Option B) → Option B
none >>= f = none
some a >>= f = f a

-- The values for the sorted latencies. At most a hundred are kept, so that the floating point
-- quotients of the source have the integer part that `/` has here.
unfoldable pub percentiles : List ℕ → Option Latencies
unfolding item sum
percentiles l = do
  p50 ← item l (50 * length l / 100)
  p99 ← item l (99 * length l / 100)
  upper ← item l (length l - 1)
  some (record {
    create_connection_avg = some (sum l, length l);
    create_connection_p50 = some p50;
    create_connection_p99 = some p99;
    create_connection_upper = some upper;
  })

unfoldable pub read_latencies : List ℕ → Option Latencies
unfolding percentiles sorted
read_latencies [] = some no_latencies
read_latencies (x ∷ xs) = percentiles (sorted (x ∷ xs))

-- `metrics()`.
unfoldable pub metrics : Pool → Option ConnectionPoolMetrics
unfolding read_latencies
metrics p = do
  latencies ← read_latencies p.create_connection_latencies
  some (record {
    cur_connections = p.total_connections;
    counters = p.metrics;
    latencies = latencies;
  })

-- `__aenter__` of the two contexts, once the future of the waiting one has its result.
unfoldable pub enter_future : Future → Option ℕ
enter_future (result c) = some c
enter_future _ = none

unfoldable pub aenter : Pool → Context → Option ℕ
unfolding enter_future
aenter p (ready c) = some c
aenter p (waiting w) = enter_future (p.futures w)

-- `__aexit__`: `exc` says whether the command ended with an exception.
unfoldable pub aexit : Pool → ℕ → Bool → ℕ → Pool
aexit p c exc now = release_connection p c exc now
