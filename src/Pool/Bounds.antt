-- ===== src/Pool/Bounds.antt =====
-- The pool never counts more connections than `max_connections`.
pub mod Parts
use emcache.Prelude.{
  ℕ, zero, suc, ◌+◌, ◌-◌, ◌≡◌, refl, ◌≤◌, ◌<◌, arith, Bool, true, false, ◌&&◌, ◌||◌, not, Option,
  none, some, List, [], ◌∷◌, ◌++◌, length, ltb, leb, ◌==◌, if◌then◌else◌, Bool-cases, if_case, inl,
  inr, ap, subst, ◌⊎◌, ℤ, pos, negsuc, pos_part, neg_part, ◌+ℤ◌, ◌-ℤ◌, ◌≤ℤ◌, ◌<ℤ◌, ltb_ℤ, leb_ℤ,
  int_laws, +ℤ_parts, -ℤ_parts,
}
use emcache.Pool.State.{
  Future, pending, result, cancelled, Task, no_task, ended, attempting, sleeping, Config, Pool,
  set_time, contains, set_future, hand_over, close_connection,
  wakeup_next_waiter_or_append_to_unused, is_closed,
}
use emcache.Pool.Create.{
  last_items, max_latencies_observed, fresh_pool, maybe_new_connection,
  maybe_new_connection_if_current_is_lower_than_min, connection_created, connection_failed,
  new_pool,
}
use emcache.Pool.Methods.{
  Context, cancel_task, create_connection_context, release_connection, after_cancellation,
  remove_waiter, waiter_cancelled, purge_unused_connections, purge_loop, close, close_unused,
  acquire_loop, acquire_round, close_round, purge_after, wait_for_connection, take_unused,
}
use emcache.Pool.Events.{
  Event, acquire, release, shut, cancel, leave, created, failed, retry, task_done, purge, lost,
  or_same, on_created, on_failed, on_retry, on_cancel, step, run,
}
use Parts.{
  IsIdle, IsBounded, close_connection-IsBounded, hand_over-IsBounded, wakeup-IsBounded,
  maybe_new_connection-IsBounded, maybe_new_if_low-IsBounded, wait-IsBounded,
  acquire_round-IsBounded, acquire_loop-IsBounded, release-IsBounded, purge_loop-IsBounded,
  purge_after-IsBounded,
}

close_round-IsBounded :
    (p : Pool) (l : List ℕ) (again : Pool → Pool)
    → IsBounded p
    → ((q : Pool) → IsBounded q → IsBounded (again q))
    → IsBounded (close_round p l again)
unfolding close_round
close_round-IsBounded p [] again b k = b
close_round-IsBounded p (c ∷ rest) again b k =
    k _ (close_connection-IsBounded (record p { unused_connections = rest }) c b)

close_unused-IsBounded : (fuel : ℕ) (p : Pool) → IsBounded p → IsBounded (close_unused fuel p)
unfolding close_unused
close_unused-IsBounded zero p b = b
close_unused-IsBounded (suc fuel) p b =
    close_round-IsBounded p p.unused_connections _ b (close_unused-IsBounded fuel)

cancel_task-IsIdle : (t : Task) → IsIdle (cancel_task t)
unfolding cancel_task
cancel_task-IsIdle no_task = tt
cancel_task-IsIdle ended = tt
cancel_task-IsIdle (attempting b r) = tt
cancel_task-IsIdle (sleeping b r) = tt

close-IsBounded : (p : Pool) → IsBounded p → IsBounded (or_same p (close p))
unfolding close
close-IsBounded p b =
    if_case (λ o. IsBounded (or_same p o)) p.closed (λ _. b)
      (λ _.
        close_unused-IsBounded (length p.unused_connections) _
          (b.0, b.1, inr (cancel_task-IsIdle p.creating_connection_task)))

-- The bound alone.
abbrev Within : Pool → Type 0
Within p = p.total_connections ≤ℤ pos p.max_connections

hand_over-Within : (p : Pool) (c : ℕ) (o : Option ℕ) → Within p → Within (hand_over p c o)
unfolding hand_over
hand_over-Within p c none h = h
hand_over-Within p c (some w) h = h

wakeup-Within :
    (p : Pool) (c now : ℕ) → Within p → Within (wakeup_next_waiter_or_append_to_unused p c now)
unfolding wakeup_next_waiter_or_append_to_unused
wakeup-Within p c now h = hand_over-Within _ c _ h

created-IsBounded :
    (p : Pool) (c elapsed now : ℕ)
    → p.total_connections <ℤ pos p.max_connections
    → IsBounded (connection_created p c elapsed now)
unfolding connection_created
created-IsBounded p c elapsed now room =
    let given : Within (
        wakeup_next_waiter_or_append_to_unused
          (record p {
            create_connection_latencies =
                last_items max_latencies_observed (p.create_connection_latencies ++ elapsed ∷ []);
            connections_last_time_used = set_time c now p.connections_last_time_used;
            total_connections = p.total_connections +ℤ pos 1;
          })
          c now) =
      wakeup-Within _ c now (omega (arith, room, +ℤ_parts p.total_connections (pos 1))) in
    (if_case Within _ (λ _. given) (λ _. given), (λ e. cc), inr tt)

failed-IsBounded :
    (p : Pool) (b : Option ℕ) (r : ℕ)
    → IsBounded p
    → p.creating_connection ≡ true
    → IsBounded (connection_failed p b r)
unfolding connection_failed
failed-IsBounded p b r h e = if_case IsBounded _ (λ _. (h.0, h.1, inl e)) (λ _. (h.0, h.1, inl e))

-- A task at work has its flag set.
flagged : (c : Bool) (t : Task) → ¬ IsIdle t → (c ≡ true) ⊎ IsIdle t → c ≡ true
flagged c t h (inl e) = e
flagged c t h (inr k) = absurd (h k)

leave-IsBounded :
    (p : Pool) (w now : ℕ) (f : Future)
    → IsBounded p
    → IsBounded (or_same p (after_cancellation p w now f))
unfolding after_cancellation remove_waiter
leave-IsBounded p w now (result c) b = release-IsBounded p c false now b
leave-IsBounded p w now pending b = b
leave-IsBounded p w now cancelled b =
    if_case (λ o. IsBounded (or_same p o)) (contains w p.waiters) (λ _. b) (λ _. b)

on_created-IsBounded :
    (p : Pool) (c elapsed now : ℕ) (t : Task)
    → IsBounded p
    → (p.creating_connection ≡ true) ⊎ IsIdle t
    → IsBounded (on_created p c elapsed now t)
unfolding on_created
on_created-IsBounded p c elapsed now (attempting b r) h k =
    created-IsBounded p c elapsed now (h.1 (flagged _ (attempting b r) (λ q. q) k))
on_created-IsBounded p c elapsed now _ h k = h

on_failed-IsBounded :
    (p : Pool) (t : Task)
    → IsBounded p
    → (p.creating_connection ≡ true) ⊎ IsIdle t
    → IsBounded (on_failed p t)
unfolding on_failed
on_failed-IsBounded p (attempting b r) h k =
    failed-IsBounded p b r h (flagged _ (attempting b r) (λ q. q) k)
on_failed-IsBounded p _ h k = h

on_retry-IsBounded :
    (p : Pool) (t : Task)
    → IsBounded p
    → (p.creating_connection ≡ true) ⊎ IsIdle t
    → IsBounded (on_retry p t)
unfolding on_retry
on_retry-IsBounded p (sleeping b r) h k = (h.0, h.1, inl (flagged _ (sleeping b r) (λ q. q) k))
on_retry-IsBounded p _ h k = h

on_cancel-IsBounded : (p : Pool) (w : ℕ) (f : Future) → IsBounded p → IsBounded (on_cancel p w f)
unfolding on_cancel
on_cancel-IsBounded p w pending h = h
on_cancel-IsBounded p w _ h = h

-- Every event keeps the bound: the pool counts at most `max_connections` connections, and while one
-- is being created there is room for it.
pub step-IsBounded : (p : Pool) (e : Event) → IsBounded p → IsBounded (step p e)
unfolding step create_connection_context waiter_cancelled purge_unused_connections
step-IsBounded p (acquire now) b = acquire_loop-IsBounded _ p now b
step-IsBounded p (release c exc now) b = release-IsBounded p c exc now b
step-IsBounded p shut b = close-IsBounded p b
step-IsBounded p (cancel w) b = on_cancel-IsBounded p w (p.futures w) b
step-IsBounded p (leave w now) b = leave-IsBounded p w now (p.futures w) b
step-IsBounded p (created c elapsed now) b = on_created-IsBounded p c elapsed now _ b b.2
step-IsBounded p failed b = on_failed-IsBounded p _ b b.2
step-IsBounded p retry b = on_retry-IsBounded p _ b b.2
step-IsBounded p task_done b = maybe_new_if_low-IsBounded p b
step-IsBounded p (purge t now) b =
    if_case IsBounded (contains t p.timers)
      (λ _. purge_after-IsBounded p t now p.purge_unused_connections_after b) (λ _. b)
step-IsBounded p (lost c) b = b

run-IsBounded : (p : Pool) (es : List Event) → IsBounded p → IsBounded (run p es)
unfolding run
run-IsBounded p [] b = b
run-IsBounded p (e ∷ es) b = run-IsBounded (step p e) es (step-IsBounded p e b)

fresh_pool-IsBounded : (c : Config) → IsBounded (fresh_pool c)
unfolding fresh_pool
fresh_pool-IsBounded c = (omega arith, (λ e. cc), inr tt)

-- What a pool that was made satisfies.
abbrev Made : Option Pool → Type 0
Made none = Unit
Made (some p) = IsBounded p

new_pool-Made : (max min : ℤ) (after : Option ℕ) → Made (new_pool max min after)
unfolding new_pool
new_pool-Made max min after =
    let c : Config = record {
      max_connections = pos_part max;
      min_connections = pos_part min;
      purge_unused_connections_after = after;
    } in
    if_case Made (ltb_ℤ max (pos 1)) (λ _. tt)
      λ _.
        if_case Made (ltb_ℤ min (pos 0)) (λ _. tt)
          λ _.
            if_case Made (ltb_ℤ max min) (λ _. tt)
              (λ _. maybe_new_if_low-IsBounded (fresh_pool c) (fresh_pool-IsBounded c))

new_pool-IsBounded :
    (max_connections min_connections : ℤ) (after : Option ℕ) (p : Pool)
    → new_pool max_connections min_connections after ≡ some p
    → IsBounded p
new_pool-IsBounded max min after p e = subst Made e (new_pool-Made max min after)

-- Whatever happens to a new pool, it never counts more connections than `max_connections`.
pub run-new_pool-bounded :
    (max_connections min_connections : ℤ) (after : Option ℕ) (p : Pool) (es : List Event)
    → new_pool max_connections min_connections after ≡ some p
    → (run p es).total_connections ≤ℤ pos (run p es).max_connections
run-new_pool-bounded max_connections min_connections after p es e =
    (run-IsBounded p es (new_pool-IsBounded max_connections min_connections after p e)).0
