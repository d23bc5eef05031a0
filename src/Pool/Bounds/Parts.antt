-- ===== src/Pool/Bounds/Parts.antt =====
-- The bound on the connections, and the methods that the program calls for one connection.
use emcache.Prelude.{
  ℕ, zero, suc, ◌+◌, ◌≡◌, refl, arith, Bool, true, ◌&&◌, ◌||◌, not, Option, none, some, List, [],
  ◌∷◌, ltb, if_case, inl, ◌⊎◌, ℤ, pos, ◌≤ℤ◌, ◌<ℤ◌, ltb_ℤ, leb_ℤ, -ℤ_parts,
}
use emcache.Pool.State.{
  pending, Task, no_task, ended, attempting, sleeping, Pool, set_future, hand_over,
  close_connection, wakeup_next_waiter_or_append_to_unused, is_closed,
}
use emcache.Pool.Create.{maybe_new_connection, maybe_new_connection_if_current_is_lower_than_min}
use emcache.Pool.Methods.{
  Context, release_connection, purge_loop, acquire_loop, acquire_round, purge_after,
  wait_for_connection, take_unused,
}

-- A task that may not bring a connection any more.
abbrev pub IsIdle : Task → Type 0
IsIdle no_task = Unit
IsIdle ended = Unit
IsIdle (attempting b r) = ⊥
IsIdle (sleeping b r) = ⊥

-- No more connections than allowed; room for one more while one is being created; and the flag is set
-- while the task is at work.
abbrev pub IsBounded : Pool → Type 0
IsBounded p =
    (p.total_connections ≤ℤ pos p.max_connections)
    × (p.creating_connection ≡ true → p.total_connections <ℤ pos p.max_connections)
    × ((p.creating_connection ≡ true) ⊎ IsIdle p.creating_connection_task)

pub close_connection-IsBounded : (p : Pool) (c : ℕ) → IsBounded p → IsBounded (close_connection p c)
unfolding close_connection
close_connection-IsBounded p c b = (
  omega (arith, b.0, -ℤ_parts p.total_connections (pos 1)),
  (λ h. let r = b.1 h in omega (arith, r, -ℤ_parts p.total_connections (pos 1))),
  b.2,
)

pub hand_over-IsBounded :
    (p : Pool) (c : ℕ) (o : Option ℕ) → IsBounded p → IsBounded (hand_over p c o)
unfolding hand_over
hand_over-IsBounded p c none b = b
hand_over-IsBounded p c (some w) b = b

pub wakeup-IsBounded :
    (p : Pool) (c now : ℕ)
    → IsBounded p
    → IsBounded (wakeup_next_waiter_or_append_to_unused p c now)
unfolding wakeup_next_waiter_or_append_to_unused
wakeup-IsBounded p c now b = hand_over-IsBounded _ c _ b

pub room_of : (b : Bool) (t : ℤ) (m : ℕ) → (not b && ltb_ℤ t (pos m)) ≡ true → t <ℤ pos m
room_of b t m h = ground arith

pub maybe_new_connection-IsBounded : (p : Pool) → IsBounded p → IsBounded (maybe_new_connection p)
unfolding maybe_new_connection
maybe_new_connection-IsBounded p b =
    if_case IsBounded
      (not p.creating_connection && ltb_ℤ p.total_connections (pos p.max_connections))
      (λ h. (
        b.0,
        (λ _. room_of p.creating_connection p.total_connections p.max_connections h),
        inl refl,
      ))
      (λ _. b)

pub maybe_new_if_low-IsBounded :
    (p : Pool) → IsBounded p → IsBounded (maybe_new_connection_if_current_is_lower_than_min p)
unfolding maybe_new_connection_if_current_is_lower_than_min
maybe_new_if_low-IsBounded p b =
    if_case IsBounded _ (λ _. maybe_new_connection-IsBounded p b) (λ _. b)

pub wait-IsBounded : (p : Pool) → IsBounded p → IsBounded (wait_for_connection p).0
unfolding wait_for_connection
wait-IsBounded p b =
    maybe_new_connection-IsBounded
      (record p {
        next_future = suc p.next_future;
        futures = set_future p.next_future pending p.futures;
        waiters = p.next_future ∷ p.waiters;
      })
      b

pub acquire_round-IsBounded :
    (p : Pool) (now : ℕ) (l : List ℕ) (again : Pool → Pool × Context)
    → IsBounded p
    → ((q : Pool) → IsBounded q → IsBounded (again q).0)
    → IsBounded (acquire_round p now l again).0
unfolding acquire_round take_unused
acquire_round-IsBounded p now [] again b k = wait-IsBounded p b
acquire_round-IsBounded p now (c ∷ rest) again b k =
    if_case (λ (r : Pool × Context). IsBounded r.0) (is_closed p c)
      (λ _. k _ (close_connection-IsBounded (record p { unused_connections = rest }) c b)) (λ _. b)

pub acquire_loop-IsBounded :
    (fuel : ℕ) (p : Pool) (now : ℕ) → IsBounded p → IsBounded (acquire_loop fuel p now).0
unfolding acquire_loop
acquire_loop-IsBounded zero p now b = wait-IsBounded p b
acquire_loop-IsBounded (suc fuel) p now b =
    acquire_round-IsBounded p now p.unused_connections _ b
      (λ q h. acquire_loop-IsBounded fuel q now h)

pub release-IsBounded :
    (p : Pool) (c : ℕ) (exc : Bool) (now : ℕ)
    → IsBounded p
    → IsBounded (release_connection p c exc now)
unfolding release_connection
release-IsBounded p c exc now b =
    if_case IsBounded p.closed (λ _. close_connection-IsBounded p c b)
      λ _.
        if_case IsBounded (exc || is_closed p c)
          (λ _. maybe_new_if_low-IsBounded _ (close_connection-IsBounded p c b))
          (λ _. wakeup-IsBounded p c now b)

pub purge_loop-IsBounded :
    (p : Pool) (after now : ℕ) (l : List (ℕ × ℕ))
    → IsBounded p
    → IsBounded (purge_loop p after now l)
unfolding purge_loop
purge_loop-IsBounded p after now [] b = b
purge_loop-IsBounded p after now ((c, t) ∷ rest) b =
    if_case IsBounded (ltb now (t + after)) (λ _. purge_loop-IsBounded p after now rest b)
      λ _.
        if_case IsBounded (leb_ℤ p.total_connections (pos p.min_connections)) (λ _. b)
          (λ _. close_connection-IsBounded p c b)

pub purge_after-IsBounded :
    (p : Pool) (t now : ℕ) (o : Option ℕ) → IsBounded p → IsBounded (purge_after p t now o)
unfolding purge_after
purge_after-IsBounded p t now none b = b
purge_after-IsBounded p t now (some after) b =
    purge_loop-IsBounded p after now p.connections_last_time_used b
