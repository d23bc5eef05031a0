-- ===== src/Pool/Events.antt =====
-- What can happen to a pool, one event at a time: the program's calls of its methods, the progress of
-- the background task, timers, the peer that closes a connection, tasks that are cancelled. Between
-- two `await`s a coroutine runs without interruption, so an event is atomic. `close` is one event:
-- it only waits for the task that it has cancelled.
use emcache.Prelude.{ℕ, Bool, Option, none, some, List, [], ◌∷◌, if◌then◌else◌}
use emcache.Pool.State.{
  Future, pending, cancelled, Task, attempting, sleeping, Pool, contains, set_future,
  close_protocol,
}
use emcache.Pool.Create.{
  maybe_new_connection_if_current_is_lower_than_min, connection_created, connection_failed,
}
use emcache.Pool.Methods.{
  create_connection_context, release_connection, waiter_cancelled, purge_unused_connections, close,
}

pub data Event : Type 0 where
  -- A method of the pool, at a time.
  acquire : ℕ → Event
  release : ℕ → Bool → ℕ → Event
  shut : Event
  -- The task that waits for a future is cancelled, and later handles the cancellation.
  cancel : ℕ → Event
  leave : ℕ → ℕ → Event
  -- The background task: a connection, the time that it took, and the time; a failure; the end of a
  -- sleep; the callback of a task that has ended.
  created : ℕ → ℕ → ℕ → Event
  failed retry task_done : Event
  -- A timer, at a time.
  purge : ℕ → ℕ → Event
  -- The peer closes a connection.
  lost : ℕ → Event

abbrev pub or_same : Pool → Option Pool → Pool
or_same p none = p
or_same p (some q) = q

unfoldable pub on_created : Pool → ℕ → ℕ → ℕ → Task → Pool
on_created p c elapsed now (attempting b r) = connection_created p c elapsed now
on_created p c elapsed now _ = p

unfoldable pub on_failed : Pool → Task → Pool
on_failed p (attempting b r) = connection_failed p b r
on_failed p _ = p

unfoldable pub on_retry : Pool → Task → Pool
on_retry p (sleeping b r) = record p { creating_connection_task = attempting (some b) r }
on_retry p _ = p

unfoldable pub on_cancel : Pool → ℕ → Future → Pool
on_cancel p w pending = record p { futures = set_future w cancelled p.futures }
on_cancel p w _ = p

-- An event that is not possible in a state, or that raises, leaves the state as it is.
unfoldable pub step : Pool → Event → Pool
unfolding on_created on_failed on_retry on_cancel
step p (acquire now) = (create_connection_context p now).0
step p (release c exc now) = release_connection p c exc now
step p shut = or_same p (close p)
step p (cancel w) = on_cancel p w (p.futures w)
step p (leave w now) = or_same p (waiter_cancelled p w now)
step p (created c elapsed now) = on_created p c elapsed now p.creating_connection_task
step p failed = on_failed p p.creating_connection_task
step p retry = on_retry p p.creating_connection_task
step p task_done = maybe_new_connection_if_current_is_lower_than_min p
step p (purge t now) = if contains t p.timers then purge_unused_connections p t now else p
step p (lost c) = record p { closed_connections = close_protocol c p.closed_connections }

unfoldable pub run : Pool → List Event → Pool
run p [] = p
run p (e ∷ es) = run (step p e) es
