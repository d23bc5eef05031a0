-- ===== src/Pool/Counted.antt =====
-- The number of connections, and the dictionary of their last uses (emcache/connection_pool.py).
pub mod Parts
pub mod Runs
use emcache.Prelude.{
  ℕ, zero, suc, ◌+◌, ◌≡◌, refl, ap, ◌∙◌, subst, sym, arith, Bool, true, false, ◌||◌, Option, none,
  some, List, [], ◌∷◌, ◌++◌, length, take, drop, All, ltb, ◌==◌, ==_refl, if◌then◌else◌, if_case, ℤ,
  pos, pos_part, ltb_ℤ, leb_ℤ, ◌+ℤ◌, ◌-ℤ◌, int_laws,
}
use emcache.Pool.State.{
  Future, pending, result, cancelled, Task, no_task, ended, attempting, sleeping, Config, Pool,
  contains, is_closed, remove, set_time, delete_time, next_waiter, hand_over, close_connection,
  wakeup_next_waiter_or_append_to_unused,
}
use emcache.Pool.Create.{
  maybe_new_connection, maybe_new_connection_if_current_is_lower_than_min, fresh_pool, new_pool,
  connection_created, connection_failed, last_items, max_latencies_observed, set_healthy,
}
use emcache.Pool.Methods.{
  Context, create_connection_context, acquire_loop, acquire_round, wait_for_connection, take_unused,
  release_connection, remove_waiter, after_cancellation, waiter_cancelled, purge_loop, purge_after,
  purge_unused_connections, close, close_round, close_unused, cancel_task,
}
use emcache.Pool.Events.{
  Event, acquire, release, shut, cancel, leave, created, failed, retry, task_done, purge, lost,
  or_same, on_created, on_failed, on_retry, on_cancel, step, run,
}
use emcache.Pool.Counted.Parts.{
  has_time, Tracked, Distinct, Counted, Counted-close, Tracked-set_time, Tracked-take,
  Distinct-take, has_time-set_time, has_time-set, length-set_time, length-set_time_new, untracked,
  Entries, Entries-all,
}

-- `_total_connections` is the number of connections whose last use is noted, and the unused ones are
-- distinct and among them.
abbrev pub IsCounted : Pool → Type 0
IsCounted p = Counted p.total_connections p.connections_last_time_used p.unused_connections

-- The connection is in use.
abbrev pub InUse : Pool → ℕ → Type 0
InUse p c =
    (has_time c p.connections_last_time_used ≡ true) × (contains c p.unused_connections ≡ false)

close_connection-IsCounted :
    (p : Pool) (c : ℕ)
    → has_time c p.connections_last_time_used ≡ true
    → IsCounted p
    → IsCounted (close_connection p c)
unfolding close_connection
close_connection-IsCounted p c t h = Counted-close _ _ _ c t h

hand_over-IsCounted :
    (p : Pool) (c : ℕ) (o : Option ℕ) → InUse p c → IsCounted p → IsCounted (hand_over p c o)
unfolding hand_over
hand_over-IsCounted p c none u h = record {
  count = h.count;
  tracked =
      Tracked-take p.max_connections p.connections_last_time_used (c ∷ p.unused_connections)
        (u.0, h.tracked);
  distinct = Distinct-take p.max_connections (c ∷ p.unused_connections) (u.1, h.distinct);
}
hand_over-IsCounted p c (some w) u h = h

-- The last use of a tracked connection is noted.
noted :
    (p : Pool) (c now : ℕ)
    → InUse p c
    → IsCounted p
    → IsCounted
        (record p { connections_last_time_used = set_time c now p.connections_last_time_used })
noted p c now u h =
    let d = p.connections_last_time_used in
    record {
      count = h.count ∙ ap (λ n. pos n) (sym (length-set_time c now d u.0));
      tracked = Tracked-set_time c now d p.unused_connections h.tracked;
      distinct = h.distinct;
    }

wakeup-IsCounted :
    (p : Pool) (c now : ℕ)
    → InUse p c
    → IsCounted p
    → IsCounted (wakeup_next_waiter_or_append_to_unused p c now)
unfolding wakeup_next_waiter_or_append_to_unused
wakeup-IsCounted p c now u h =
    let d = p.connections_last_time_used in
    hand_over-IsCounted (record p { connections_last_time_used = set_time c now d }) c
      (next_waiter p.futures p.waiters) (has_time-set c now d, u.1) (noted p c now u h)

maybe_new-IsCounted : (p : Pool) → IsCounted p → IsCounted (maybe_new_connection p)
unfolding maybe_new_connection
maybe_new-IsCounted p h = if_case IsCounted _ (λ _. h) (λ _. h)

pub maybe_new_if_low-IsCounted :
    (p : Pool) → IsCounted p → IsCounted (maybe_new_connection_if_current_is_lower_than_min p)
unfolding maybe_new_connection_if_current_is_lower_than_min
maybe_new_if_low-IsCounted p h =
    if_case IsCounted (ltb_ℤ p.total_connections (pos p.min_connections))
      (λ _. maybe_new-IsCounted p h) (λ _. h)

pub release-IsCounted :
    (p : Pool) (c : ℕ) (exc : Bool) (now : ℕ)
    → InUse p c
    → IsCounted p
    → IsCounted (release_connection p c exc now)
unfolding release_connection
release-IsCounted p c exc now u h =
    let closed = close_connection-IsCounted p c u.0 h in
    if_case IsCounted p.closed (λ _. closed)
      (λ _.
        if_case IsCounted (exc || is_closed p c)
          (λ _. maybe_new_if_low-IsCounted (close_connection p c) closed)
          (λ _. wakeup-IsCounted p c now u h))

wait-IsCounted : (p : Pool) → IsCounted p → IsCounted (wait_for_connection p).0
unfolding wait_for_connection
wait-IsCounted p h = maybe_new-IsCounted _ h

-- A connection that was unused is taken.
taken :
    (p : Pool) (c : ℕ) (rest : List ℕ)
    → p.unused_connections ≡ c ∷ rest
    → IsCounted p
    → InUse (record p { unused_connections = rest }) c
      × IsCounted (record p { unused_connections = rest })
taken p c rest e h =
    let tracked : Tracked p.connections_last_time_used (c ∷ rest) =
      subst (Tracked p.connections_last_time_used) e h.tracked in
    let distinct : Distinct (c ∷ rest) = subst Distinct e h.distinct in
    (
      (tracked.0, distinct.0),
      record { count = h.count; tracked = tracked.1; distinct = distinct.1 },
    )

acquire_round-IsCounted :
    (p : Pool) (now : ℕ) (l : List ℕ) (again : Pool → Pool × Context)
    → p.unused_connections ≡ l
    → IsCounted p
    → ((q : Pool) → IsCounted q → IsCounted (again q).0)
    → IsCounted (acquire_round p now l again).0
unfolding acquire_round take_unused
acquire_round-IsCounted p now [] again e h k = wait-IsCounted p h
acquire_round-IsCounted p now (c ∷ rest) again e h k =
    let q : Pool = record p { unused_connections = rest } in
    let (u, counted) = taken p c rest e h in
    if_case (λ (r : Pool × Context). IsCounted r.0) (is_closed p c)
      (λ _. k (close_connection q c) (close_connection-IsCounted q c u.0 counted))
      (λ _. noted q c now u counted)

pub acquire_loop-IsCounted :
    (fuel : ℕ) (p : Pool) (now : ℕ) → IsCounted p → IsCounted (acquire_loop fuel p now).0
unfolding acquire_loop
acquire_loop-IsCounted zero p now h = wait-IsCounted p h
acquire_loop-IsCounted (suc fuel) p now h =
    acquire_round-IsCounted p now p.unused_connections _ refl h
      (λ q h'. acquire_loop-IsCounted fuel q now h')

purge_loop-IsCounted :
    (p : Pool) (after now : ℕ) (l : List (ℕ × ℕ))
    → Entries p.connections_last_time_used l
    → IsCounted p
    → IsCounted (purge_loop p after now l)
unfolding purge_loop
purge_loop-IsCounted p after now [] e h = h
purge_loop-IsCounted p after now ((c, t) ∷ rest) e h =
    if_case IsCounted (ltb now (t + after)) (λ _. purge_loop-IsCounted p after now rest e.1 h)
      λ _.
        if_case IsCounted (leb_ℤ p.total_connections (pos p.min_connections)) (λ _. h)
          (λ _. close_connection-IsCounted p c e.0 h)

pub purge_after-IsCounted :
    (p : Pool) (t now : ℕ) (o : Option ℕ) → IsCounted p → IsCounted (purge_after p t now o)
unfolding purge_after
purge_after-IsCounted p t now none h = h
purge_after-IsCounted p t now (some after) h =
    purge_loop-IsCounted p after now p.connections_last_time_used
      (Entries-all p.connections_last_time_used) h

close_round-IsCounted :
    (p : Pool) (l : List ℕ) (again : Pool → Pool)
    → p.unused_connections ≡ l
    → IsCounted p
    → ((q : Pool) → IsCounted q → IsCounted (again q))
    → IsCounted (close_round p l again)
unfolding close_round
close_round-IsCounted p [] again e h k = h
close_round-IsCounted p (c ∷ rest) again e h k =
    let (u, counted) = taken p c rest e h in
    k (close_connection (record p { unused_connections = rest }) c)
      (close_connection-IsCounted (record p { unused_connections = rest }) c u.0 counted)

close_unused-IsCounted : (fuel : ℕ) (p : Pool) → IsCounted p → IsCounted (close_unused fuel p)
unfolding close_unused
close_unused-IsCounted zero p h = h
close_unused-IsCounted (suc fuel) p h =
    close_round-IsCounted p p.unused_connections (close_unused fuel) refl h
      (close_unused-IsCounted fuel)

pub close-IsCounted : (p : Pool) → IsCounted p → IsCounted (or_same p (close p))
unfolding close
close-IsCounted p h =
    if_case (λ o. IsCounted (or_same p o)) p.closed (λ _. h)
      (λ _.
        close_unused-IsCounted (length p.unused_connections)
          (record p {
            closed = true;
            timers = (elim p.purge_timer_handler [ none ↦ p.timers | some t ↦ remove t p.timers ]);
            creating_connection_task = cancel_task p.creating_connection_task;
          })
          h)

-- A connection that was just made is counted and tracked.
pub created-IsCounted :
    (p : Pool) (c elapsed now : ℕ)
    → has_time c p.connections_last_time_used ≡ false
    → IsCounted p
    → IsCounted (connection_created p c elapsed now)
unfolding connection_created
created-IsCounted p c elapsed now n h =
    let d = p.connections_last_time_used in
    let counted : Pool = record p {
      create_connection_latencies =
          last_items max_latencies_observed (p.create_connection_latencies ++ elapsed ∷ []);
      connections_last_time_used = set_time c now d;
      total_connections = p.total_connections +ℤ pos 1;
    } in
    let given : IsCounted (wakeup_next_waiter_or_append_to_unused counted c now) =
      wakeup-IsCounted counted c now
        (has_time-set c now d, untracked c d p.unused_connections n h.tracked)
        (record {
          count = grind (int_laws, h.count, length-set_time_new c now d n);
          tracked = Tracked-set_time c now d p.unused_connections h.tracked;
          distinct = h.distinct;
        }) in
    if_case IsCounted (wakeup_next_waiter_or_append_to_unused counted c now).healthy (λ _. given)
      (λ _. given)
