-- ===== src/Pool/Fair.antt =====
-- Nobody waits for a connection while one is unused.
pub mod Parts
use emcache.Prelude.{
  ℕ, zero, suc, ◌+◌, ◌-◌, ◌≡◌, refl, ◌≤◌, ◌<◌, ◌⊎◌, arith, Bool, true, false, ◌&&◌, ◌||◌, not,
  Option, none, some, List, [], ◌∷◌, ◌++◌, length, take, All, ltb, leb, ◌==◌, ==_iff, ==_refl,
  if◌then◌else◌, Bool-cases, if_case, inl, inr, ap, sym, ◌∙◌, pos, ◌+ℤ◌, leb_ℤ, ltb_ℤ,
}
use emcache.Pool.State.{
  Future, pending, result, cancelled, Task, no_task, ended, attempting, sleeping, Pool, is_done,
  next_waiter, contains, remove, set_time, set_future, hand_over, close_connection,
  wakeup_next_waiter_or_append_to_unused, is_closed,
}
use emcache.Pool.Create.{
  last_items, max_latencies_observed, maybe_new_connection,
  maybe_new_connection_if_current_is_lower_than_min, connection_created, connection_failed,
  fresh_pool,
}
use emcache.Pool.Methods.{
  Context, create_connection_context, release_connection, waiter_cancelled, after_cancellation,
  remove_waiter, purge_unused_connections, purge_loop, close, close_unused, acquire_loop,
  acquire_round, close_round, purge_after, wait_for_connection, take_unused, cancel_task,
}
use emcache.Pool.Events.{
  Event, acquire, release, shut, cancel, leave, created, failed, retry, task_done, purge, lost,
  or_same, on_created, on_failed, on_retry, on_cancel, step, run,
}
use Parts.{
  AllDone, IsFair, remove-nil, close_connection-IsFair, next_waiter-AllDone, AllDone-next_waiter,
  hand_over-IsFair, wakeup-IsFair, maybe_new_connection-IsFair, maybe_new_if_low-IsFair,
  wait-IsFair, Popped, pop-IsFair, length-remove-le, close-length, length_zero,
  acquire_round-IsFair, acquire_loop-IsFair,
}

AllDone-set_future :
    (futures : ℕ → Future) (w : ℕ) (f : Future) (l : List ℕ)
    → is_done f ≡ true
    → AllDone futures l
    → AllDone (set_future w f futures) l
unfolding set_future
AllDone-set_future futures w f [] e d = tt
AllDone-set_future futures w f (v ∷ l) e d = (
  if_case (λ x. is_done x ≡ true) (v == w) (λ _. e) (λ _. d.0),
  AllDone-set_future futures w f l e d.1,
)

AllDone-remove :
    (futures : ℕ → Future) (w : ℕ) (l : List ℕ) → AllDone futures l → AllDone futures (remove w l)
unfolding remove
AllDone-remove futures w [] d = tt
AllDone-remove futures w (v ∷ l) d =
    if_case (AllDone futures) (w == v) (λ _. d.1) (λ _. (d.0, AllDone-remove futures w l d.1))

release-IsFair :
    (p : Pool) (c : ℕ) (exc : Bool) (now : ℕ) → IsFair p → IsFair (release_connection p c exc now)
unfolding release_connection
release-IsFair p c exc now f =
    if_case IsFair p.closed (λ _. close_connection-IsFair p c f)
      λ _.
        if_case IsFair (exc || is_closed p c)
          (λ _. maybe_new_if_low-IsFair (close_connection p c) (close_connection-IsFair p c f))
          (λ _. wakeup-IsFair p c now f)

purge_loop-IsFair :
    (p : Pool) (after now : ℕ) (l : List (ℕ × ℕ)) → IsFair p → IsFair (purge_loop p after now l)
unfolding purge_loop
purge_loop-IsFair p after now [] f = f
purge_loop-IsFair p after now ((c, t) ∷ rest) f =
    if_case IsFair (ltb now (t + after)) (λ _. purge_loop-IsFair p after now rest f)
      λ _.
        if_case IsFair (leb_ℤ p.total_connections (pos p.min_connections)) (λ _. f)
          (λ _. close_connection-IsFair p c f)

purge_after-IsFair :
    (p : Pool) (t now : ℕ) (o : Option ℕ) → IsFair p → IsFair (purge_after p t now o)
unfolding purge_after
purge_after-IsFair p t now none f = f
purge_after-IsFair p t now (some after) f =
    purge_loop-IsFair p after now p.connections_last_time_used f

close_round-IsFair :
    (p : Pool) (l : List ℕ) (again : Pool → Pool)
    → p.unused_connections ≡ l
    → IsFair p
    → ((q : Pool) → IsFair q → IsFair (again q))
    → IsFair (close_round p l again)
unfolding close_round
close_round-IsFair p [] again e f k = f
close_round-IsFair p (c ∷ rest) again e f k =
    k (close_connection (record p { unused_connections = rest }) c)
      (close_connection-IsFair (record p { unused_connections = rest }) c (pop-IsFair p c rest e f))

close_unused-IsFair : (fuel : ℕ) (p : Pool) → IsFair p → IsFair (close_unused fuel p)
unfolding close_unused
close_unused-IsFair zero p f = f
close_unused-IsFair (suc fuel) p f =
    close_round-IsFair p p.unused_connections (close_unused fuel) refl f (close_unused-IsFair fuel)

close-IsFair : (p : Pool) → IsFair p → IsFair (or_same p (close p))
unfolding close
close-IsFair p f =
    if_case (λ o. IsFair (or_same p o)) p.closed (λ _. f)
      (λ _.
        close_unused-IsFair (length p.unused_connections)
          (record p {
            closed = true;
            timers = (elim p.purge_timer_handler [ none ↦ p.timers | some t ↦ remove t p.timers ]);
            creating_connection_task = cancel_task p.creating_connection_task;
          })
          f)

created-IsFair :
    (p : Pool) (c elapsed now : ℕ) → IsFair p → IsFair (connection_created p c elapsed now)
unfolding connection_created
created-IsFair p c elapsed now f =
    let counted : Pool = record p {
      create_connection_latencies =
          last_items max_latencies_observed (p.create_connection_latencies ++ elapsed ∷ []);
      connections_last_time_used = set_time c now p.connections_last_time_used;
      total_connections = p.total_connections +ℤ pos 1;
    } in
    let given : IsFair (wakeup_next_waiter_or_append_to_unused counted c now) =
      wakeup-IsFair counted c now f in
    if_case IsFair (wakeup_next_waiter_or_append_to_unused counted c now).healthy (λ _. given)
      (λ _. given)

leave-IsFair :
    (p : Pool) (w now : ℕ) (u : Future)
    → IsFair p
    → IsFair (or_same p (after_cancellation p w now u))
unfolding after_cancellation remove_waiter
leave-IsFair p w now (result c) f = release-IsFair p c false now f
leave-IsFair p w now pending f = f
leave-IsFair p w now cancelled f =
    if_case (λ o. IsFair (or_same p o)) (contains w p.waiters) (λ _. left p w f) (λ _. f)
  where
    left : (p : Pool) (w : ℕ) → IsFair p → IsFair (record p { waiters = remove w p.waiters })
    left p w (inl e) = inl e
    left p w (inr d) = inr (AllDone-remove p.futures w p.waiters d)

on_cancel-IsFair : (p : Pool) (w : ℕ) (u : Future) → IsFair p → IsFair (on_cancel p w u)
unfolding on_cancel
on_cancel-IsFair p w pending (inl e) = inl e
on_cancel-IsFair p w pending (inr d) =
    inr (AllDone-set_future p.futures w cancelled p.waiters (unfold is_done in refl) d)
on_cancel-IsFair p w _ f = f

on_created-IsFair :
    (p : Pool) (c elapsed now : ℕ) (t : Task) → IsFair p → IsFair (on_created p c elapsed now t)
unfolding on_created
on_created-IsFair p c elapsed now (attempting b r) f = created-IsFair p c elapsed now f
on_created-IsFair p c elapsed now _ f = f

on_failed-IsFair : (p : Pool) (t : Task) → IsFair p → IsFair (on_failed p t)
unfolding on_failed connection_failed
on_failed-IsFair p (attempting b r) f = if_case IsFair _ (λ _. f) (λ _. f)
on_failed-IsFair p _ f = f

on_retry-IsFair : (p : Pool) (t : Task) → IsFair p → IsFair (on_retry p t)
unfolding on_retry
on_retry-IsFair p (sleeping b r) f = f
on_retry-IsFair p _ f = f

-- Every event keeps the pool fair: as long as a task waits for a connection, none is unused.
pub step-IsFair : (p : Pool) (e : Event) → IsFair p → IsFair (step p e)
unfolding step create_connection_context waiter_cancelled purge_unused_connections
step-IsFair p (acquire now) f =
    acquire_loop-IsFair (length p.unused_connections) p now (omega arith) f
step-IsFair p (release c exc now) f = release-IsFair p c exc now f
step-IsFair p shut f = close-IsFair p f
step-IsFair p (cancel w) f = on_cancel-IsFair p w (p.futures w) f
step-IsFair p (leave w now) f = leave-IsFair p w now (p.futures w) f
step-IsFair p (created c elapsed now) f = on_created-IsFair p c elapsed now _ f
step-IsFair p failed f = on_failed-IsFair p _ f
step-IsFair p retry f = on_retry-IsFair p _ f
step-IsFair p task_done f = maybe_new_if_low-IsFair p f
step-IsFair p (purge t now) f =
    if_case IsFair (contains t p.timers)
      (λ _. purge_after-IsFair p t now p.purge_unused_connections_after f) (λ _. f)
step-IsFair p (lost c) f = f
