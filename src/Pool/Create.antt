-- ===== src/Pool/Create.antt =====
-- How a pool is set up and how it grows: `__init__`, `_create_new_connection` with its retries, and
-- `_maybe_new_connection` (emcache/connection_pool.py).
use emcache.Prelude.{
  ℕ, ◌+◌, ◌*◌, ◌-◌, Bool, true, false, ◌&&◌, not, Option, none, some, List, [], ◌∷◌, ◌++◌, length,
  drop, leb, if◌then◌else◌, ℤ, pos, ◌+ℤ◌, ltb_ℤ, leb_ℤ, pos_part,
}
use Prim.Native.Nat.{min}
use emcache.Pool.State.{
  pending, no_task, ended, attempting, sleeping, Config, Metrics, Pool, set_time,
  wakeup_next_waiter_or_append_to_unused,
}

-- Seconds, in the unit of the model's times.
abbrev pub create_connection_max_backoff : ℕ
create_connection_max_backoff = 60

abbrev pub declare_unhealthy_after_retries : ℕ
declare_unhealthy_after_retries = 3

abbrev pub max_latencies_observed : ℕ
max_latencies_observed = 100

-- `_maybe_new_connection()`.
unfoldable pub maybe_new_connection : Pool → Pool
maybe_new_connection p =
    if not p.creating_connection && ltb_ℤ p.total_connections (pos p.max_connections)
    then record p { creating_connection = true; creating_connection_task = attempting none 0 }
    else p

-- `_maybe_new_connection_if_current_is_lower_than_min()`, also the callback of a finished task.
unfoldable pub maybe_new_connection_if_current_is_lower_than_min : Pool → Pool
unfolding maybe_new_connection
maybe_new_connection_if_current_is_lower_than_min p =
    if ltb_ℤ p.total_connections (pos p.min_connections) then maybe_new_connection p else p

abbrev pub no_metrics : Metrics
no_metrics = record {
  connections_created = 0;
  connections_created_with_error = 0;
  connections_purged = 0;
  connections_closed = 0;
  operations_executed = 0;
  operations_executed_with_error = 0;
  operations_waited = 0;
}

-- The fields as `__init__` sets them; the purge timer is scheduled if there is a purge time.
unfoldable pub fresh_pool : Config → Pool
fresh_pool c = record {
  config = c;
  closed = false;
  healthy = true;
  total_connections = pos 0;
  waiters = [];
  unused_connections = [];
  creating_connection = false;
  creating_connection_task = no_task;
  create_connection_latencies = [];
  connections_last_time_used = [];
  purge_timer_handler = elim c.purge_unused_connections_after [ none ↦ none | some t ↦ some 0 ];
  metrics = no_metrics;
  notices = [];
  closed_connections = [];
  futures = λ w. pending;
  next_future = 0;
  timers = elim c.purge_unused_connections_after [ none ↦ [] | some t ↦ 0 ∷ [] ];
  next_timer = 1;
}

-- `ConnectionPool(...)`; `none` is one of the three `ValueError`s.
unfoldable pub new_pool : ℤ → ℤ → Option ℕ → Option Pool
unfolding fresh_pool maybe_new_connection_if_current_is_lower_than_min
new_pool max_connections min_connections purge_after =
    if ltb_ℤ max_connections (pos 1)
    then none
    else if ltb_ℤ min_connections (pos 0)
    then none
    else if ltb_ℤ max_connections min_connections
    then none
    else some (
        maybe_new_connection_if_current_is_lower_than_min (
          fresh_pool (record {
            max_connections = pos_part max_connections;
            min_connections = pos_part min_connections;
            purge_unused_connections_after = purge_after;
          })))

-- The last `n` items, `l[-n:]`.
unfoldable pub last_items : ℕ → List ℕ → List ℕ
last_items n l = drop (length l - n) l

-- The callback tells the node that the pool's health has changed.
unfoldable pub set_healthy : Bool → Pool → Pool
set_healthy b p = record p { healthy = b; notices = b ∷ p.notices }

-- `_create_new_connection` once `create_protocol` has returned the connection `c` at the time `now`,
-- after `elapsed`.
unfoldable pub connection_created : Pool → ℕ → ℕ → ℕ → Pool
unfolding last_items set_healthy wakeup_next_waiter_or_append_to_unused
connection_created p c elapsed now =
    let counted = record p {
      create_connection_latencies =
          last_items max_latencies_observed (p.create_connection_latencies ++ elapsed ∷ []);
      connections_last_time_used = set_time c now p.connections_last_time_used;
      total_connections = p.total_connections +ℤ pos 1;
    } in
    let given = wakeup_next_waiter_or_append_to_unused counted c now in
    let told = (if given.healthy then given else set_healthy true given) in
    record told {
      metrics = record (told.metrics) {
        connections_created = told.metrics.connections_created + 1;
      };
      creating_connection = false;
      creating_connection_task = ended;
    }

unfoldable pub next_backoff : Option ℕ → ℕ
next_backoff none = 1
next_backoff (some b) = min create_connection_max_backoff (b * 2)

unfoldable pub next_retries : Option ℕ → ℕ → ℕ
next_retries none n = 1
next_retries (some b) n = n + 1

-- `_create_new_connection` once `create_protocol` has raised a timeout or an `OSError`: the `finally`
-- block up to the sleep.
unfoldable pub connection_failed : Pool → Option ℕ → ℕ → Pool
unfolding next_backoff next_retries set_healthy
connection_failed p backoff retries =
    let r = next_retries backoff retries in
    let counted = record p {
      metrics = record (p.metrics) {
        connections_created_with_error = p.metrics.connections_created_with_error + 1;
      };
      creating_connection_task = sleeping (next_backoff backoff) r;
    } in
    if leb_ℤ p.total_connections (pos 0)
      && leb_ℤ (pos 0) p.total_connections
      && p.healthy
      && leb declare_unhealthy_after_retries r
    then set_healthy false counted
    else counted
