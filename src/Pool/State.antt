-- ===== src/Pool/State.antt =====
-- The state of a `ConnectionPool`, with the connections, futures and timers that it refers to, and
-- the private methods that only move connections. Connections, futures and timers are numbers; times
-- are whole numbers of one unit. A deque is a list whose head is the right end.
use emcache.Prelude.{
  ℕ, ◌+◌, Bool, true, false, ◌||◌, Option, none, some, List, [], ◌∷◌, take, ◌==◌, if◌then◌else◌, ℤ,
  pos, ◌-ℤ◌,
}

pub data Future : Type 0 where
  pending : Future
  result : ℕ → Future
  cancelled : Future

-- The background task that runs `_create_new_connection`: at `create_protocol`, or asleep before a
-- retry. The first attempt has no backoff.
pub data Task : Type 0 where
  no_task ended : Task
  attempting : Option ℕ → ℕ → Task
  sleeping : ℕ → ℕ → Task

pub record Config : Type 0 where
  pub max_connections : ℕ
  pub min_connections : ℕ
  pub purge_unused_connections_after : Option ℕ

-- The counters of `ConnectionPoolMetrics`.
pub record Metrics : Type 0 where
  pub connections_created : ℕ
  pub connections_created_with_error : ℕ
  pub connections_purged : ℕ
  pub connections_closed : ℕ
  pub operations_executed : ℕ
  pub operations_executed_with_error : ℕ
  pub operations_waited : ℕ

pub record Pool : Type 0 where
  pub config : Config
  pub open config use *
  pub closed : Bool
  pub healthy : Bool
  pub total_connections : ℤ
  pub waiters : List ℕ
  pub unused_connections : List ℕ
  pub creating_connection : Bool
  pub creating_connection_task : Task
  pub create_connection_latencies : List ℕ
  -- A dictionary: its items in the order of insertion.
  pub connections_last_time_used : List (ℕ × ℕ)
  pub purge_timer_handler : Option ℕ
  pub metrics : Metrics
  -- What the health callback was called with, the last call first.
  pub notices : List Bool
  -- Which connections are closed, what state each future has, and which timers are scheduled.
  pub closed_connections : List ℕ
  pub futures : ℕ → Future
  pub next_future : ℕ
  pub timers : List ℕ
  pub next_timer : ℕ

unfoldable pub contains : ℕ → List ℕ → Bool
contains x [] = false
contains x (y ∷ ys) = x == y || contains x ys

-- `deque.remove`; without duplicates it does not matter from which end it looks.
unfoldable pub remove : ℕ → List ℕ → List ℕ
remove x [] = []
remove x (y ∷ ys) = if x == y then ys else y ∷ remove x ys

-- `d[c] = t`: a key that is there keeps its place.
unfoldable pub set_time : ℕ → ℕ → List (ℕ × ℕ) → List (ℕ × ℕ)
set_time c t [] = (c, t) ∷ []
set_time c t ((d, u) ∷ rest) = if c == d then (d, t) ∷ rest else (d, u) ∷ set_time c t rest

-- `if c in d: del d[c]`.
unfoldable pub delete_time : ℕ → List (ℕ × ℕ) → List (ℕ × ℕ)
delete_time c [] = []
delete_time c ((d, u) ∷ rest) = if c == d then rest else (d, u) ∷ delete_time c rest

unfoldable pub is_done : Future → Bool
is_done pending = false
is_done (result c) = true
is_done cancelled = true

unfoldable pub set_future : ℕ → Future → (ℕ → Future) → ℕ → Future
set_future w f futures v = if v == w then f else futures v

-- `connection.closed()`.
abbrev pub is_closed : Pool → ℕ → Bool
is_closed p c = contains c p.closed_connections

-- `connection.close()`.
unfoldable pub close_protocol : ℕ → List ℕ → List ℕ
close_protocol c closed = if contains c closed then closed else c ∷ closed

-- `_close_connection(connection)`.
unfoldable pub close_connection : Pool → ℕ → Pool
unfolding close_protocol
close_connection p c = record p {
  closed_connections = close_protocol c p.closed_connections;
  metrics = record (p.metrics) { connections_closed = p.metrics.connections_closed + 1 };
  unused_connections = remove c p.unused_connections;
  connections_last_time_used = delete_time c p.connections_last_time_used;
  total_connections = p.total_connections -ℤ pos 1;
}

-- The first waiter from the right that is not done.
unfoldable pub next_waiter : (ℕ → Future) → List ℕ → Option ℕ
unfolding is_done
next_waiter futures [] = none
next_waiter futures (w ∷ ws) =
    let rest = next_waiter futures ws in if is_done (futures w) then rest else some w

-- The connection goes to the waiter that was found, or to the unused ones. A full deque of unused
-- connections loses its left end.
unfoldable pub hand_over : Pool → ℕ → Option ℕ → Pool
unfolding set_future
hand_over p c none = record p {
  unused_connections = take p.max_connections (c ∷ p.unused_connections);
}
hand_over p c (some w) = record p {
  futures = set_future w (result c) p.futures;
  waiters = remove w p.waiters;
}

-- `_wakeup_next_waiter_or_append_to_unused(connection)` at the time `now`.
unfoldable pub wakeup_next_waiter_or_append_to_unused : Pool → ℕ → ℕ → Pool
unfolding set_time
wakeup_next_waiter_or_append_to_unused p c now =
    hand_over
      (record p { connections_last_time_used = set_time c now p.connections_last_time_used }) c
      (next_waiter p.futures p.waiters)
