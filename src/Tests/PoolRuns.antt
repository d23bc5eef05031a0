-- ===== src/Tests/PoolRuns.antt =====
-- Pools at work.
use emcache.Prelude.{
  ℕ, ◌<◌, ◌≡◌, refl, arith, inl, true, false, none, some, List, [], ◌∷◌, ltb, pos, ◌+ℤ◌, ◌-ℤ◌, ◌≤ℤ◌,
  ◌^◌,
}
use Prim.Native.Nat.{min}
use emcache.Pool.State.{
  pending, attempting, sleeping, Config, Pool, contains, wakeup_next_waiter_or_append_to_unused,
  hand_over, next_waiter, set_time, delete_time, remove, close_connection,
}
use emcache.Pool.Create.{
  connection_created, fresh_pool, new_pool, maybe_new_connection_if_current_is_lower_than_min,
}
use emcache.Pool.Methods.{
  close, create_connection_context, release_connection, purge_unused_connections, purge_loop,
}
use emcache.Pool.Events.{Event, acquire, release, created, purge, step, run}
use emcache.Pool.Lifo.{rounds, run-rounds_starve}
use emcache.Pool.Counted.{IsCounted}
use emcache.Pool.Counted.Parts.{has_time}
use emcache.Pool.Counted.Runs.{AllProper, run-new_pool-IsCounted}
use emcache.Pool.Bounds.{run-new_pool-bounded}
use emcache.Pool.Fair.{step-IsFair}
use emcache.Pool.Fair.Parts.{IsFair}
use emcache.Pool.Timers.{close-purge_leaves_timer}
use emcache.Pool.Acquire.{IsServed, create_connection_context-IsServed}
use emcache.Pool.Retries.{failures, run-failures}
use emcache.Pool.Metrics.{ConnectionPoolMetrics, metrics}
use emcache.Pool.Metrics.Percentiles.{Reads, metrics-IsReading}
use emcache.Pool.Purge.{release-purge_counts_twice}

abbrev config : Config
config = record {
  max_connections = 2;
  min_connections = 1;
  purge_unused_connections_after = some 60;
}

abbrev start : Pool
start = maybe_new_connection_if_current_is_lower_than_min (fresh_pool config)

abbrev events : List Event
events = created 0 3 10 ∷ acquire 11 ∷ acquire 12 ∷ created 1 3 14 ∷ release 0 false 15 ∷ []

run-new_pool-bounded_example :
    (run start events).total_connections ≤ℤ pos (run start events).max_connections
unfolding new_pool
run-new_pool-bounded_example = run-new_pool-bounded (pos 2) (pos 1) (some 60) start events refl

-- Two tasks wait, and none of the connections is unused.
abbrev waiting : Pool
waiting = record (fresh_pool config) { waiters = 1 ∷ 0 ∷ []; next_future = 2 }

step-IsFair_example : IsFair (step waiting (release 0 false 9))
unfolding fresh_pool
step-IsFair_example = step-IsFair waiting (release 0 false 9) (inl refl)

abbrev attempting_pool : Pool
attempting_pool = record (fresh_pool config) {
  healthy = true;
  total_connections = pos 0;
  creating_connection = true;
  creating_connection_task = attempting none 0;
}

run-failures_example :
    ((run attempting_pool (failures 2)).creating_connection_task ≡ sleeping (min 60 (2 ^ 2)) 3)
    × ((run attempting_pool (failures 2)).healthy ≡ ltb 3 3)
run-failures_example = run-failures 2 attempting_pool refl refl refl

-- Both connections are in use; the first is the older one.
abbrev in_use : Pool
in_use = record (fresh_pool config) {
  total_connections = pos 2;
  connections_last_time_used = (0, 5) ∷ (1, 90) ∷ [];
}

release-purge_counts_twice_example :
    (release_connection (purge_unused_connections in_use 0 100) 0 false 101).total_connections
    ≡ in_use.total_connections -ℤ pos 1 -ℤ pos 1
unfolding fresh_pool
release-purge_counts_twice_example =
    release-purge_counts_twice in_use 0 0 5 60 100 101 ((1, 90) ∷ []) refl refl refl refl

-- Of two unused connections the one that was released last is closed.
abbrev half_closed : Pool
half_closed = record (fresh_pool config) {
  total_connections = pos 2;
  unused_connections = 1 ∷ 0 ∷ [];
  closed_connections = 1 ∷ [];
}

create_connection_context-IsServed_example : IsServed (create_connection_context half_closed 9)
create_connection_context-IsServed_example = create_connection_context-IsServed half_closed 9

close-purge_leaves_timer_example :
    (r : Pool) × (close (purge_unused_connections (fresh_pool config) 0 60) ≡ some r)
    × (r.timers ≡ 1 ∷ [])
unfolding fresh_pool
close-purge_leaves_timer_example =
    close-purge_leaves_timer (fresh_pool config) 0 60 60 refl refl refl refl (omega arith)

-- A pool with three latencies.
abbrev measured : Pool
measured = record start { create_connection_latencies = 5 ∷ 1 ∷ 3 ∷ [] }

metrics-IsReading_example :
    (m : ConnectionPoolMetrics) × (metrics measured ≡ some m)
    × (m.cur_connections ≡ measured.total_connections)
    × Reads measured.create_connection_latencies m.latencies
metrics-IsReading_example = metrics-IsReading measured

-- A connection is released, and purged when it has not been used for a minute.
abbrev purged_events : List Event
purged_events =
    created 0 3 10
    ∷ acquire 11
    ∷ acquire 12
    ∷ created 1 3 14
    ∷ release 0 false 15
    ∷ purge 0 80
    ∷ release 1 true 90
    ∷ []

purged_events-AllProper : AllProper start purged_events
unfolding run step fresh_pool maybe_new_connection_if_current_is_lower_than_min
    create_connection_context release_connection purge_unused_connections has_time contains
    connection_created wakeup_next_waiter_or_append_to_unused hand_over next_waiter set_time
    delete_time remove close_connection ◌+ℤ◌ purge_loop
purged_events-AllProper = (refl, (tt, (tt, (refl, ((refl, refl), (tt, ((refl, refl), tt)))))))

run-new_pool-IsCounted_example : IsCounted (run start purged_events)
unfolding new_pool
run-new_pool-IsCounted_example =
    run-new_pool-IsCounted (pos 2) (pos 1) (some 60) start purged_events refl
      purged_events-AllProper

-- One operation waits, and the only connection goes round twice.
abbrev crowded : Pool
crowded = record (fresh_pool config) { waiters = 0 ∷ []; next_future = 1 }

run-rounds_starve_example :
    ((run crowded (rounds ((0, 11, 12) ∷ (0, 13, 14) ∷ []))).waiters ≡ 0 ∷ [])
    × ((w : ℕ)
        → w < 1
        → (run crowded (rounds ((0, 11, 12) ∷ (0, 13, 14) ∷ []))).futures w ≡ pending)
unfolding fresh_pool contains
run-rounds_starve_example =
    run-rounds_starve crowded ((0, 11, 12) ∷ (0, 13, 14) ∷ []) refl refl (refl, (refl, tt))
