-- ===== src/Pool/Counted/Runs.antt =====
-- Through every sequence of events the pool counts the connections that it tracks, as long as only
-- connections in use are given back (emcache/connection_pool.py).
use emcache.Prelude.{
  ℕ, ◌≡◌, refl, subst, false, Option, none, some, List, [], ◌∷◌, length, if_case, ℤ, pos, pos_part,
  ltb_ℤ,
}
use emcache.Pool.State.{
  Future, pending, result, cancelled, Task, attempting, sleeping, Config, Pool, contains,
}
use emcache.Pool.Create.{fresh_pool, new_pool, connection_failed}
use emcache.Pool.Methods.{
  create_connection_context, remove_waiter, after_cancellation, waiter_cancelled,
  purge_unused_connections,
}
use emcache.Pool.Events.{
  Event, acquire, release, shut, cancel, leave, created, failed, retry, task_done, purge, lost,
  or_same, on_created, on_failed, on_retry, on_cancel, step, run,
}
use emcache.Pool.Counted.Parts.{has_time}
use emcache.Pool.Counted.{
  IsCounted, InUse, release-IsCounted, acquire_loop-IsCounted, purge_after-IsCounted,
  close-IsCounted, created-IsCounted, maybe_new_if_low-IsCounted,
}

-- A cancelled waiter that has been handed a connection gives it back.
abbrev HandedBack : Pool → Future → Type 0
HandedBack p (result c) = InUse p c
HandedBack p _ = Unit

-- Connections are given back while they are in use, and new ones are new.
abbrev pub Proper : Pool → Event → Type 0
Proper p (release c exc now) = InUse p c
Proper p (leave w now) = HandedBack p (p.futures w)
Proper p (created c elapsed now) = has_time c p.connections_last_time_used ≡ false
Proper p _ = Unit

abbrev pub AllProper : Pool → List Event → Type 0
AllProper p [] = Unit
AllProper p (e ∷ es) = Proper p e × AllProper (step p e) es

leave-IsCounted :
    (p : Pool) (w now : ℕ) (u : Future)
    → HandedBack p u
    → IsCounted p
    → IsCounted (or_same p (after_cancellation p w now u))
unfolding after_cancellation remove_waiter
leave-IsCounted p w now (result c) u h = release-IsCounted p c false now u h
leave-IsCounted p w now pending u h = h
leave-IsCounted p w now cancelled u h =
    if_case (λ o. IsCounted (or_same p o)) (contains w p.waiters) (λ _. h) (λ _. h)

on_cancel-IsCounted : (p : Pool) (w : ℕ) (u : Future) → IsCounted p → IsCounted (on_cancel p w u)
unfolding on_cancel
on_cancel-IsCounted p w pending h = h
on_cancel-IsCounted p w _ h = h

on_created-IsCounted :
    (p : Pool) (c elapsed now : ℕ) (t : Task)
    → has_time c p.connections_last_time_used ≡ false
    → IsCounted p
    → IsCounted (on_created p c elapsed now t)
unfolding on_created
on_created-IsCounted p c elapsed now (attempting b r) n h = created-IsCounted p c elapsed now n h
on_created-IsCounted p c elapsed now _ n h = h

on_failed-IsCounted : (p : Pool) (t : Task) → IsCounted p → IsCounted (on_failed p t)
unfolding on_failed connection_failed
on_failed-IsCounted p (attempting b r) h = if_case IsCounted _ (λ _. h) (λ _. h)
on_failed-IsCounted p _ h = h

on_retry-IsCounted : (p : Pool) (t : Task) → IsCounted p → IsCounted (on_retry p t)
unfolding on_retry
on_retry-IsCounted p (sleeping b r) h = h
on_retry-IsCounted p _ h = h

step-IsCounted : (p : Pool) (e : Event) → Proper p e → IsCounted p → IsCounted (step p e)
unfolding step create_connection_context waiter_cancelled purge_unused_connections
step-IsCounted p (acquire now) a h = acquire_loop-IsCounted (length p.unused_connections) p now h
step-IsCounted p (release c exc now) a h = release-IsCounted p c exc now a h
step-IsCounted p shut a h = close-IsCounted p h
step-IsCounted p (cancel w) a h = on_cancel-IsCounted p w (p.futures w) h
step-IsCounted p (leave w now) a h = leave-IsCounted p w now (p.futures w) a h
step-IsCounted p (created c elapsed now) a h = on_created-IsCounted p c elapsed now _ a h
step-IsCounted p failed a h = on_failed-IsCounted p _ h
step-IsCounted p retry a h = on_retry-IsCounted p _ h
step-IsCounted p task_done a h = maybe_new_if_low-IsCounted p h
step-IsCounted p (purge t now) a h =
    if_case IsCounted (contains t p.timers)
      (λ _. purge_after-IsCounted p t now p.purge_unused_connections_after h) (λ _. h)
step-IsCounted p (lost c) a h = h

run-IsCounted : (p : Pool) (es : List Event) → AllProper p es → IsCounted p → IsCounted (run p es)
unfolding run
run-IsCounted p [] a h = h
run-IsCounted p (e ∷ es) a h = run-IsCounted (step p e) es a.1 (step-IsCounted p e a.0 h)

abbrev Made : Option Pool → Type 0
Made none = Unit
Made (some p) = IsCounted p

new_pool-Made : (max min : ℤ) (after : Option ℕ) → Made (new_pool max min after)
unfolding new_pool fresh_pool
new_pool-Made max min after =
    let c : Config = record {
      max_connections = pos_part max;
      min_connections = pos_part min;
      purge_unused_connections_after = after;
    } in
    if_case Made (ltb_ℤ max (pos 1)) (λ _. tt)
      λ _.
        if_case Made (ltb_ℤ min (pos 0)) (λ _. tt)
          λ _.
            if_case Made (ltb_ℤ max min) (λ _. tt)
              (λ _.
                maybe_new_if_low-IsCounted (fresh_pool c)
                  (record { count = refl; tracked = tt; distinct = tt }))

-- From a new pool on, whatever happens, also purges of connections in use, lost connections, failed
-- attempts and cancelled waiters: as long as each connection that is given back is tracked and not among
-- the unused ones when that happens, the pool counts exactly the connections whose last use it notes,
-- and those that are unused are distinct and among them.
pub run-new_pool-IsCounted :
    (max_connections min_connections : ℤ) (after : Option ℕ) (p : Pool) (es : List Event)
    → new_pool max_connections min_connections after ≡ some p
    → AllProper p es
    → IsCounted (run p es)
run-new_pool-IsCounted max_connections min_connections after p es e a =
    run-IsCounted p es a (subst Made e (new_pool-Made max_connections min_connections after))
