-- ===== src/Pool/Notices.antt =====
-- What a pool tells its node: one event brings at most one notice, and that one is a change.
use emcache.Prelude.{
  ℕ, zero, suc, ◌+◌, ◌≡◌, refl, arith, Bool, true, false, ◌&&◌, ◌||◌, not, Option, none, some, List,
  [], ◌∷◌, ◌++◌, length, ltb, leb, if_case, inl, inr, ◌⊎◌, ap, sym, ◌∙◌, pos, ◌+ℤ◌, leb_ℤ, ltb_ℤ,
}
use emcache.Pool.State.{
  Future, pending, result, cancelled, Task, attempting, sleeping, Pool, contains, remove, set_time,
  set_future, hand_over, close_connection, wakeup_next_waiter_or_append_to_unused, is_closed,
}
use emcache.Pool.Create.{
  declare_unhealthy_after_retries, last_items, max_latencies_observed, maybe_new_connection,
  maybe_new_connection_if_current_is_lower_than_min, connection_created, connection_failed,
  set_healthy, next_retries,
}
use emcache.Pool.Methods.{
  Context, create_connection_context, release_connection, waiter_cancelled, after_cancellation,
  remove_waiter, purge_unused_connections, purge_loop, close, close_unused, acquire_loop,
  acquire_round, close_round, purge_after, wait_for_connection, take_unused, cancel_task,
}
use emcache.Pool.Events.{
  Event, acquire, release, shut, cancel, leave, created, failed, retry, task_done, purge, lost,
  or_same, on_created, on_failed, on_retry, on_cancel, step,
}

-- The pool has told `ns`, and its health is `h`.
module _ (ns : List Bool) (h : Bool) where
  abbrev Quiet : Pool → Type 0
  Quiet p = (p.notices ≡ ns) × (p.healthy ≡ h)

  hand_over-Quiet : (p : Pool) (d : ℕ) (o : Option ℕ) → Quiet p → Quiet (hand_over p d o)
  unfolding hand_over
  hand_over-Quiet p d none g = g
  hand_over-Quiet p d (some w) g = g

  wakeup-Quiet :
      (p : Pool) (d now : ℕ) → Quiet p → Quiet (wakeup_next_waiter_or_append_to_unused p d now)
  unfolding wakeup_next_waiter_or_append_to_unused
  wakeup-Quiet p d now g =
      hand_over-Quiet
        (record p { connections_last_time_used = set_time d now p.connections_last_time_used }) d _
        g

  maybe_new_connection-Quiet : (p : Pool) → Quiet p → Quiet (maybe_new_connection p)
  unfolding maybe_new_connection
  maybe_new_connection-Quiet p g =
      if_case Quiet (not p.creating_connection && ltb_ℤ p.total_connections (pos p.max_connections))
        (λ _. g) (λ _. g)

  maybe_new_if_low-Quiet :
      (p : Pool) → Quiet p → Quiet (maybe_new_connection_if_current_is_lower_than_min p)
  unfolding maybe_new_connection_if_current_is_lower_than_min
  maybe_new_if_low-Quiet p g =
      if_case Quiet (ltb_ℤ p.total_connections (pos p.min_connections))
        (λ _. maybe_new_connection-Quiet p g) (λ _. g)

  release-Quiet :
      (p : Pool) (d : ℕ) (exc : Bool) (now : ℕ) → Quiet p → Quiet (release_connection p d exc now)
  unfolding release_connection close_connection
  release-Quiet p d exc now g =
      if_case Quiet p.closed (λ _. g)
        λ _.
          if_case Quiet (exc || is_closed p d)
            (λ _. maybe_new_if_low-Quiet (close_connection p d) g) (λ _. wakeup-Quiet p d now g)

  wait-Quiet : (p : Pool) → Quiet p → Quiet (wait_for_connection p).0
  unfolding wait_for_connection
  wait-Quiet p g =
      maybe_new_connection-Quiet
        (record p {
          next_future = suc p.next_future;
          futures = set_future p.next_future pending p.futures;
          waiters = p.next_future ∷ p.waiters;
        })
        g

  acquire_round-Quiet :
      (p : Pool) (now : ℕ) (l : List ℕ) (again : Pool → Pool × Context)
      → Quiet p
      → ((q : Pool) → Quiet q → Quiet (again q).0)
      → Quiet (acquire_round p now l again).0
  unfolding acquire_round take_unused close_connection
  acquire_round-Quiet p now [] again g k = wait-Quiet p g
  acquire_round-Quiet p now (d ∷ rest) again g k =
      if_case (λ (r : Pool × Context). Quiet r.0) (is_closed p d)
        (λ _. k (close_connection (record p { unused_connections = rest }) d) g) (λ _. g)

  acquire_loop-Quiet : (fuel : ℕ) (p : Pool) (now : ℕ) → Quiet p → Quiet (acquire_loop fuel p now).0
  unfolding acquire_loop
  acquire_loop-Quiet zero p now g = wait-Quiet p g
  acquire_loop-Quiet (suc fuel) p now g =
      acquire_round-Quiet p now p.unused_connections (λ q. acquire_loop fuel q now) g
        (λ q. acquire_loop-Quiet fuel q now)

  purge_loop-Quiet :
      (p : Pool) (after now : ℕ) (l : List (ℕ × ℕ)) → Quiet p → Quiet (purge_loop p after now l)
  unfolding purge_loop close_connection
  purge_loop-Quiet p after now [] g = g
  purge_loop-Quiet p after now ((d, t) ∷ rest) g =
      if_case Quiet (ltb now (t + after)) (λ _. purge_loop-Quiet p after now rest g)
        λ _. if_case Quiet (leb_ℤ p.total_connections (pos p.min_connections)) (λ _. g) (λ _. g)

  purge_after-Quiet :
      (p : Pool) (t now : ℕ) (o : Option ℕ) → Quiet p → Quiet (purge_after p t now o)
  unfolding purge_after
  purge_after-Quiet p t now none g = g
  purge_after-Quiet p t now (some after) g =
      purge_loop-Quiet p after now p.connections_last_time_used g

  close_round-Quiet :
      (p : Pool) (l : List ℕ) (again : Pool → Pool)
      → Quiet p
      → ((q : Pool) → Quiet q → Quiet (again q))
      → Quiet (close_round p l again)
  unfolding close_round close_connection
  close_round-Quiet p [] again g k = g
  close_round-Quiet p (d ∷ rest) again g k =
      k (close_connection (record p { unused_connections = rest }) d) g

  close_unused-Quiet : (fuel : ℕ) (p : Pool) → Quiet p → Quiet (close_unused fuel p)
  unfolding close_unused
  close_unused-Quiet zero p g = g
  close_unused-Quiet (suc fuel) p g =
      close_round-Quiet p p.unused_connections (close_unused fuel) g (close_unused-Quiet fuel)

  pub close-Quiet : (p : Pool) → Quiet p → Quiet (or_same p (close p))
  unfolding close
  close-Quiet p g =
      if_case (λ o. Quiet (or_same p o)) p.closed (λ _. g)
        (λ _.
          close_unused-Quiet (length p.unused_connections)
            (record p {
              closed = true;
              timers = (elim p.purge_timer_handler [
                | none ↦ p.timers
                | some t ↦ remove t p.timers
              ]);
              creating_connection_task = cancel_task p.creating_connection_task;
            })
            g)

  leave-Quiet :
      (p : Pool) (w now : ℕ) (f : Future)
      → Quiet p
      → Quiet (or_same p (after_cancellation p w now f))
  unfolding after_cancellation remove_waiter
  leave-Quiet p w now (result d) g = release-Quiet p d false now g
  leave-Quiet p w now pending g = g
  leave-Quiet p w now cancelled g =
      if_case (λ o. Quiet (or_same p o)) (contains w p.waiters) (λ _. g) (λ _. g)

  on_cancel-Quiet : (p : Pool) (w : ℕ) (f : Future) → Quiet p → Quiet (on_cancel p w f)
  unfolding on_cancel
  on_cancel-Quiet p w pending g = g
  on_cancel-Quiet p w _ g = g

  on_retry-Quiet : (p : Pool) (t : Task) → Quiet p → Quiet (on_retry p t)
  unfolding on_retry
  on_retry-Quiet p (sleeping b r) g = g
  on_retry-Quiet p _ g = g

-- From `p` to `q` the pool tells nothing and keeps its health, or it changes its health and tells it.
abbrev pub Told : Pool → Pool → Type 0
Told p q =
    Quiet p.notices p.healthy q
    ⊎ ((q.notices ≡ not p.healthy ∷ p.notices) × (q.healthy ≡ not p.healthy))

created-Told : (p : Pool) (d elapsed now : ℕ) → Told p (connection_created p d elapsed now)
unfolding connection_created set_healthy
created-Told p d elapsed now =
    let counted : Pool = record p {
      create_connection_latencies =
          last_items max_latencies_observed (p.create_connection_latencies ++ elapsed ∷ []);
      connections_last_time_used = set_time d now p.connections_last_time_used;
      total_connections = p.total_connections +ℤ pos 1;
    } in
    let given : Pool = wakeup_next_waiter_or_append_to_unused counted d now in
    let (same, health) = wakeup-Quiet p.notices p.healthy counted d now (refl, refl) in
    if_case (Told p) given.healthy (λ _. inl (same, health))
      (λ e. inr (
        ap (◌∷◌ true) same ∙ ap (λ b. b ∷ p.notices) (ap not (sym e ∙ health)),
        ap not (sym e ∙ health),
      ))

and_third : (a b c d : Bool) → (a && b && c && d) ≡ true → c ≡ true
and_third a b c d h = ground arith

failed-Told : (p : Pool) (b : Option ℕ) (r : ℕ) → Told p (connection_failed p b r)
unfolding connection_failed set_healthy
failed-Told p b r =
    if_case (Told p)
      (leb_ℤ p.total_connections (pos 0)
        && leb_ℤ (pos 0) p.total_connections
        && p.healthy
        && leb declare_unhealthy_after_retries (next_retries b r))
      (λ e.
        let up : p.healthy ≡ true =
          and_third (leb_ℤ p.total_connections (pos 0)) (leb_ℤ (pos 0) p.total_connections)
            p.healthy (leb declare_unhealthy_after_retries (next_retries b r)) e in
        inr (ap (λ x. x ∷ p.notices) (ap not (sym up)), ap not (sym up)))
      (λ _. inl (refl, refl))

on_created-Told : (p : Pool) (d elapsed now : ℕ) (t : Task) → Told p (on_created p d elapsed now t)
unfolding on_created
on_created-Told p d elapsed now (attempting b r) = created-Told p d elapsed now
on_created-Told p d elapsed now _ = inl (refl, refl)

on_failed-Told : (p : Pool) (t : Task) → Told p (on_failed p t)
unfolding on_failed
on_failed-Told p (attempting b r) = failed-Told p b r
on_failed-Told p _ = inl (refl, refl)

-- Of all events only a created connection and a failed attempt can tell the node something.
pub step-Told : (p : Pool) (e : Event) → Told p (step p e)
unfolding step create_connection_context waiter_cancelled purge_unused_connections
step-Told p (acquire now) =
    inl (acquire_loop-Quiet p.notices p.healthy (length p.unused_connections) p now (refl, refl))
step-Told p (release d exc now) = inl (release-Quiet p.notices p.healthy p d exc now (refl, refl))
step-Told p shut = inl (close-Quiet p.notices p.healthy p (refl, refl))
step-Told p (cancel w) = inl (on_cancel-Quiet p.notices p.healthy p w (p.futures w) (refl, refl))
step-Told p (leave w now) = inl (leave-Quiet p.notices p.healthy p w now (p.futures w) (refl, refl))
step-Told p (created d elapsed now) = on_created-Told p d elapsed now p.creating_connection_task
step-Told p failed = on_failed-Told p p.creating_connection_task
step-Told p retry =
    inl (on_retry-Quiet p.notices p.healthy p p.creating_connection_task (refl, refl))
step-Told p task_done = inl (maybe_new_if_low-Quiet p.notices p.healthy p (refl, refl))
step-Told p (purge t now) =
    if_case (Told p) (contains t p.timers)
      (λ _. inl (
        purge_after-Quiet p.notices p.healthy p t now p.purge_unused_connections_after
          (refl, refl)))
      (λ _. inl (refl, refl))
step-Told p (lost d) = inl (refl, refl)
