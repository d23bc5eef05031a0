-- ===== src/Pool/Reuse.antt =====
-- A connection that was given back with an exception: a reply of the command that failed may still
-- arrive on it, so nobody may get it again.
pub mod Parts
use emcache.Prelude.{
  ℕ, zero, suc, ◌+◌, ◌≡◌, ◌≢◌, arith, Bool, true, false, ◌&&◌, ◌||◌, not, Option, none, some, List,
  [], ◌∷◌, ◌++◌, length, All, ltb, ◌==◌, ==_refl, if_case, sym, subst, pos, ◌+ℤ◌, leb_ℤ, ltb_ℤ,
}
use emcache.Pool.State.{
  Future, pending, result, cancelled, Task, attempting, sleeping, Pool, contains, set_time,
  set_future, hand_over, close_connection, close_protocol, wakeup_next_waiter_or_append_to_unused,
  is_closed,
}
use emcache.Pool.Create.{
  last_items, max_latencies_observed, maybe_new_connection,
  maybe_new_connection_if_current_is_lower_than_min, connection_created, connection_failed,
}
use emcache.Pool.Methods.{
  Context, ready, waiting, create_connection_context, release_connection, waiter_cancelled,
  after_cancellation, remove_waiter, purge_unused_connections, purge_loop, close, close_unused,
  acquire_loop, acquire_round, close_round, purge_after, wait_for_connection, take_unused,
}
use emcache.Pool.Events.{
  Event, acquire, release, shut, cancel, leave, created, failed, retry, task_done, purge, lost,
  or_same, on_created, on_failed, on_retry, on_cancel, step, run,
}
use emcache.Pool.Acquire.{IsServed, create_connection_context-IsServed}
use Parts.{
  close_connection-Gone, set_future-Gone, wakeup-Gone, maybe_new_if_low-Gone, release-Gone,
  acquire_loop-Gone, contains-close_protocol, closes_protocol, Gone,
}

-- The connections that a pool gets from its background task are new ones.
abbrev pub IsOther : ℕ → Event → Type 0
IsOther c (created d elapsed now) = d ≢ c
IsOther c _ = Unit

module _ (before : ℕ → Future) (c : ℕ) where
  purge_loop-Gone :
      (p : Pool) (after now : ℕ) (l : List (ℕ × ℕ))
      → Gone before c p
      → Gone before c (purge_loop p after now l)
  unfolding purge_loop
  purge_loop-Gone p after now [] g = g
  purge_loop-Gone p after now ((d, t) ∷ rest) g =
      if_case (Gone before c) (ltb now (t + after)) (λ _. purge_loop-Gone p after now rest g)
        λ _.
          if_case (Gone before c) (leb_ℤ p.total_connections (pos p.min_connections)) (λ _. g)
            (λ _. close_connection-Gone before c p d g)

  purge_after-Gone :
      (p : Pool) (t now : ℕ) (o : Option ℕ)
      → Gone before c p
      → Gone before c (purge_after p t now o)
  unfolding purge_after
  purge_after-Gone p t now none g = g
  purge_after-Gone p t now (some after) g =
      purge_loop-Gone p after now p.connections_last_time_used g

  close_round-Gone :
      (p : Pool) (l : List ℕ) (again : Pool → Pool)
      → Gone before c p
      → ((q : Pool) → Gone before c q → Gone before c (again q))
      → Gone before c (close_round p l again)
  unfolding close_round
  close_round-Gone p [] again g k = g
  close_round-Gone p (d ∷ rest) again g k =
      k _ (close_connection-Gone before c (record p { unused_connections = rest }) d g)

  close_unused-Gone : (fuel : ℕ) (p : Pool) → Gone before c p → Gone before c (close_unused fuel p)
  unfolding close_unused
  close_unused-Gone zero p g = g
  close_unused-Gone (suc fuel) p g =
      close_round-Gone p p.unused_connections _ g (close_unused-Gone fuel)

  close-Gone : (p : Pool) → Gone before c p → Gone before c (or_same p (close p))
  unfolding close
  close-Gone p g =
      if_case (λ o. Gone before c (or_same p o)) p.closed (λ _. g)
        (λ _. close_unused-Gone (length p.unused_connections) _ g)

  created-Gone :
      (p : Pool) (d elapsed now : ℕ)
      → d ≢ c
      → Gone before c p
      → Gone before c (connection_created p d elapsed now)
  unfolding connection_created
  created-Gone p d elapsed now other g =
      let counted : Pool = record p {
        create_connection_latencies =
            last_items max_latencies_observed (p.create_connection_latencies ++ elapsed ∷ []);
        connections_last_time_used = set_time d now p.connections_last_time_used;
        total_connections = p.total_connections +ℤ pos 1;
      } in
      let given = wakeup-Gone before c counted d now other g in
      if_case (Gone before c) (wakeup_next_waiter_or_append_to_unused counted d now).healthy
        (λ _. given) (λ _. given)

  leave-Gone :
      (p : Pool) (w now : ℕ) (f : Future)
      → Gone before c p
      → Gone before c (or_same p (after_cancellation p w now f))
  unfolding after_cancellation remove_waiter
  leave-Gone p w now (result d) g = release-Gone before c p d false now g
  leave-Gone p w now pending g = g
  leave-Gone p w now cancelled g =
      if_case (λ o. Gone before c (or_same p o)) (contains w p.waiters) (λ _. g) (λ _. g)

  on_cancel-Gone :
      (p : Pool) (w : ℕ) (f : Future) → Gone before c p → Gone before c (on_cancel p w f)
  unfolding on_cancel
  on_cancel-Gone p w pending g = (g.0, set_future-Gone before c p.futures w cancelled (λ e. cc) g.1)
  on_cancel-Gone p w _ g = g

  on_created-Gone :
      (p : Pool) (d elapsed now : ℕ) (t : Task)
      → d ≢ c
      → Gone before c p
      → Gone before c (on_created p d elapsed now t)
  unfolding on_created
  on_created-Gone p d elapsed now (attempting b r) other g = created-Gone p d elapsed now other g
  on_created-Gone p d elapsed now _ other g = g

  on_failed-Gone : (p : Pool) (t : Task) → Gone before c p → Gone before c (on_failed p t)
  unfolding on_failed connection_failed
  on_failed-Gone p (attempting b r) g = if_case (Gone before c) _ (λ _. g) (λ _. g)
  on_failed-Gone p _ g = g

  on_retry-Gone : (p : Pool) (t : Task) → Gone before c p → Gone before c (on_retry p t)
  unfolding on_retry
  on_retry-Gone p (sleeping b r) g = g
  on_retry-Gone p _ g = g

  step-Gone : (p : Pool) (e : Event) → IsOther c e → Gone before c p → Gone before c (step p e)
  unfolding step create_connection_context waiter_cancelled purge_unused_connections
  step-Gone p (acquire now) o g = acquire_loop-Gone before c _ p now g
  step-Gone p (release d exc now) o g = release-Gone before c p d exc now g
  step-Gone p shut o g = close-Gone p g
  step-Gone p (cancel w) o g = on_cancel-Gone p w (p.futures w) g
  step-Gone p (leave w now) o g = leave-Gone p w now (p.futures w) g
  step-Gone p (created d elapsed now) o g = on_created-Gone p d elapsed now _ o g
  step-Gone p failed o g = on_failed-Gone p _ g
  step-Gone p retry o g = on_retry-Gone p _ g
  step-Gone p task_done o g = maybe_new_if_low-Gone before c p g
  step-Gone p (purge t now) o g =
      if_case (Gone before c) (contains t p.timers)
        (λ _. purge_after-Gone p t now p.purge_unused_connections_after g) (λ _. g)
  step-Gone p (lost d) o g = (contains-close_protocol c d p.closed_connections g.0, g.1)

  run-Gone :
      (p : Pool) (es : List Event) → All (IsOther c) es → Gone before c p → Gone before c (run p es)
  unfolding run
  run-Gone p [] o g = g
  run-Gone p (e ∷ es) o g = run-Gone (step p e) es o.1 (step-Gone p e o.0 g)

  -- What a pool of which `c` is gone hands out is another connection.
  served_is_other :
      (d : ℕ) (r : Pool × Context) → IsServed r → Gone before c r.0 → r.1 ≡ ready d → d ≢ c
  served_is_other d (q, ready x) served g e h =
      let same : x ≡ c = cc in
      let k : contains x q.closed_connections ≡ true =
        subst (λ y. contains y q.closed_connections ≡ true) (sym same) g.0 in
      ground arith
  served_is_other d (q, waiting w) served g e h = cc

released-Gone : (p : Pool) (c now : ℕ) → Gone p.futures c (release_connection p c true now)
unfolding release_connection close_connection
released-Gone p c now =
    let shut : Gone p.futures c (close_connection p c) =
      (closes_protocol c p.closed_connections, λ w e. e) in
    if_case (Gone p.futures c) p.closed (λ _. shut)
      (λ _. maybe_new_if_low-Gone p.futures c (close_connection p c) shut)

-- A connection that is given back with an exception is never used again: whatever happens to the pool
-- afterwards, with new connections different from it, `create_connection_context` does not hand it
-- out, and no future has got it that had not got it before.
pub release-never_reused :
    (p : Pool) (c now : ℕ) (es : List Event)
    → All (IsOther c) es
    → ((d later : ℕ)
        → (create_connection_context (run (release_connection p c true now) es) later).1 ≡ ready d
        → d ≢ c)
      × ((w : ℕ)
          → (run (release_connection p c true now) es).futures w ≡ result c
          → p.futures w ≡ result c)
release-never_reused p c now es others =
    let q = run (release_connection p c true now) es in
    let gone =
      run-Gone p.futures c (release_connection p c true now) es others (released-Gone p c now) in
    (
      (λ d later.
          served_is_other p.futures c d (create_connection_context q later)
            (create_connection_context-IsServed q later)
            (unfold create_connection_context in
              acquire_loop-Gone p.futures c (length q.unused_connections) q later gone)),
      gone.1,
    )
