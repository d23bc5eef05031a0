-- ===== src/Pool/Methods.antt =====
-- The public methods of `ConnectionPool`, the purge, and what a waiting context does when its task is
-- cancelled (emcache/connection_pool.py).
use emcache.Prelude.{
  ℕ, zero, suc, ◌+◌, Bool, true, false, ◌||◌, Option, none, some, List, [], ◌∷◌, length, ltb,
  if◌then◌else◌, pos, leb_ℤ,
}
use emcache.Pool.State.{
  Future, pending, result, cancelled, Task, no_task, ended, attempting, sleeping, Pool, contains,
  is_closed, remove, set_time, set_future, close_connection, wakeup_next_waiter_or_append_to_unused,
}
use emcache.Pool.Create.{maybe_new_connection, maybe_new_connection_if_current_is_lower_than_min}

-- What `create_connection_context` returns: a connection, or a future to wait for.
pub data Context : Type 0 where
  ready waiting : ℕ → Context

-- `create_connection_context()` from the `create_future` call on.
unfoldable pub wait_for_connection : Pool → Pool × Context
wait_for_connection p =
    let w = p.next_future in
    let queued = record p {
      next_future = suc w;
      futures = set_future w pending p.futures;
      waiters = w ∷ p.waiters;
    } in
    let grown = maybe_new_connection queued in
    (
      record grown {
        metrics = record (grown.metrics) {
          operations_waited = grown.metrics.operations_waited + 1;
        };
      },
      waiting w,
    )

-- One round of the loop over the unused connections pops the connection `c`, with `rest` left.
unfoldable pub take_unused : Pool → ℕ → List ℕ → ℕ → (Pool → Pool × Context) → Pool × Context
take_unused p c rest now again =
    if is_closed p c then again (close_connection (record p { unused_connections = rest }) c) else (
      record p {
        unused_connections = rest;
        connections_last_time_used = set_time c now p.connections_last_time_used;
      },
      ready c,
    )

-- One round, with what the loop does after it.
unfoldable pub acquire_round : Pool → ℕ → List ℕ → (Pool → Pool × Context) → Pool × Context
unfolding wait_for_connection take_unused
acquire_round p now [] again = wait_for_connection p
acquire_round p now (c ∷ rest) again = take_unused p c rest now again

-- The loop, with the number of unused connections as fuel: every round takes one away.
unfoldable pub acquire_loop : ℕ → Pool → ℕ → Pool × Context
unfolding acquire_round
acquire_loop zero p now = wait_for_connection p
acquire_loop (suc fuel) p now =
    acquire_round p now p.unused_connections (λ q. acquire_loop fuel q now)

-- `create_connection_context()` at the time `now`.
unfoldable pub create_connection_context : Pool → ℕ → Pool × Context
unfolding acquire_loop
create_connection_context p now = acquire_loop (length p.unused_connections) p now

-- `release_connection(connection, exc=exc)`; `exc` says whether there is an exception.
unfoldable pub release_connection : Pool → ℕ → Bool → ℕ → Pool
release_connection p c exc now =
    if p.closed
    then close_connection p c
    else if exc || is_closed p c
    then (let q = maybe_new_connection_if_current_is_lower_than_min (close_connection p c) in
        record q {
          metrics = record (q.metrics) {
            operations_executed_with_error = q.metrics.operations_executed_with_error + 1;
          };
        })
    else (let q = wakeup_next_waiter_or_append_to_unused p c now in
        record q {
          metrics = record (q.metrics) { operations_executed = q.metrics.operations_executed + 1 };
        })

-- `remove_waiter(waiter)`; `none` is the `ValueError` of `deque.remove`.
unfoldable pub remove_waiter : Pool → ℕ → Option Pool
remove_waiter p w =
    if contains w p.waiters then some (record p { waiters = remove w p.waiters }) else none

-- The handler of `CancelledError` in `WaitingForAConnectionContext.__aenter__`, for what the future's
-- `result()` does. A future that is still pending would raise `InvalidStateError`.
unfoldable pub after_cancellation : Pool → ℕ → ℕ → Future → Option Pool
unfolding remove_waiter
after_cancellation p w now (result c) = some (release_connection p c false now)
after_cancellation p w now cancelled = remove_waiter p w
after_cancellation p w now pending = none

unfoldable pub waiter_cancelled : Pool → ℕ → ℕ → Option Pool
unfolding after_cancellation
waiter_cancelled p w now = after_cancellation p w now (p.futures w)

-- The loop of `_purge_unused_connections` over a copy of the dictionary.
unfoldable pub purge_loop : Pool → ℕ → ℕ → List (ℕ × ℕ) → Pool
purge_loop p after now [] = p
purge_loop p after now ((c, t) ∷ rest) =
    let continued = purge_loop p after now rest in
    if ltb now (t + after)
    then continued
    else if leb_ℤ p.total_connections (pos p.min_connections)
    then p
    else (let q = close_connection p c in
        record q {
          metrics = record (q.metrics) { connections_purged = q.metrics.connections_purged + 1 };
        })

-- The timer `t` calls `_purge_unused_connections()`: the timer is spent, and a new one is scheduled.
-- The handler that `close` cancels stays the old one.
unfoldable pub purge_after : Pool → ℕ → ℕ → Option ℕ → Pool
purge_after p t now none = p
purge_after p t now (some after) =
    let q = purge_loop p after now p.connections_last_time_used in
    record q { timers = q.next_timer ∷ remove t q.timers; next_timer = suc q.next_timer }

unfoldable pub purge_unused_connections : Pool → ℕ → ℕ → Pool
unfolding purge_after
purge_unused_connections p t now = purge_after p t now p.purge_unused_connections_after

-- The last loop of `close()`, with the number of unused connections as fuel.
unfoldable pub close_round : Pool → List ℕ → (Pool → Pool) → Pool
close_round p [] again = p
close_round p (c ∷ rest) again = again (close_connection (record p { unused_connections = rest }) c)

unfoldable pub close_unused : ℕ → Pool → Pool
unfolding close_round
close_unused zero p = p
close_unused (suc fuel) p = close_round p p.unused_connections (close_unused fuel)

-- Cancelling the task of `_create_new_connection` ends it, in an attempt and in a sleep.
unfoldable pub cancel_task : Task → Task
cancel_task no_task = no_task
cancel_task ended = ended
cancel_task (attempting b r) = ended
cancel_task (sleeping b r) = ended

-- `close()`; `none` is the failed assertion of a pool that is closed already.
unfoldable pub close : Pool → Option Pool
unfolding cancel_task
close p =
    if p.closed
    then none
    else some (
        close_unused (length p.unused_connections) (record p {
          closed = true;
          timers = (elim p.purge_timer_handler [ none ↦ p.timers | some t ↦ remove t p.timers ]);
          creating_connection_task = cancel_task p.creating_connection_task;
        }))
