-- ===== src/Pool/Acquire.antt =====
-- What a caller of `create_connection_context` gets.
use emcache.Prelude.{
  ℕ, zero, suc, ◌≡◌, refl, ◌≤◌, arith, true, false, not, ◌&&◌, List, [], ◌∷◌, length, if_case,
  ==_refl, pos, ltb_ℤ,
}
use emcache.Pool.State.{pending, Pool, contains, is_closed, set_future}
use emcache.Pool.Create.{maybe_new_connection}
use emcache.Pool.Methods.{
  Context, ready, waiting, wait_for_connection, take_unused, acquire_round, acquire_loop,
  create_connection_context,
}
use emcache.Pool.Fair.Parts.{close-length, length_zero}

-- A connection that is handed out is open; a caller waits only if no connection is unused, and then
-- its future is pending and stands among the waiters.
abbrev pub IsServed : Pool × Context → Type 0
IsServed (q, ready c) = is_closed q c ≡ false
IsServed (q, waiting w) =
    (q.unused_connections ≡ []) × (q.futures w ≡ pending) × (contains w q.waiters ≡ true)

wait-IsServed : (p : Pool) → p.unused_connections ≡ [] → IsServed (wait_for_connection p)
unfolding wait_for_connection maybe_new_connection contains set_future
wait-IsServed p u =
    if_case
      (λ (q : Pool).
        (q.unused_connections ≡ [])
        × (q.futures p.next_future ≡ pending)
        × (contains p.next_future q.waiters ≡ true))
      (not p.creating_connection && ltb_ℤ p.total_connections (pos p.max_connections))
      (λ _. (u, rw (==_refl p.next_future) refl, rw (==_refl p.next_future) refl))
      (λ _. (u, rw (==_refl p.next_future) refl, rw (==_refl p.next_future) refl))

acquire_round-IsServed :
    (p : Pool) (now fuel : ℕ) (l : List ℕ) (again : Pool → Pool × Context)
    → p.unused_connections ≡ l
    → length l ≤ suc fuel
    → ((q : Pool) → length q.unused_connections ≤ fuel → IsServed (again q))
    → IsServed (acquire_round p now l again)
unfolding acquire_round take_unused
acquire_round-IsServed p now fuel [] again e h served = wait-IsServed p e
acquire_round-IsServed p now fuel (c ∷ rest) again e h served =
    if_case IsServed (is_closed p c) (λ _. served _ (close-length p c rest fuel h)) (λ k. k)

acquire_loop-IsServed :
    (fuel : ℕ) (p : Pool) (now : ℕ)
    → length p.unused_connections ≤ fuel
    → IsServed (acquire_loop fuel p now)
unfolding acquire_loop
acquire_loop-IsServed zero p now h = wait-IsServed p (length_zero p.unused_connections h)
acquire_loop-IsServed (suc fuel) p now h =
    acquire_round-IsServed p now fuel p.unused_connections (λ q. acquire_loop fuel q now) refl h
      (λ q k. acquire_loop-IsServed fuel q now k)

-- Whatever the pool's state, `create_connection_context` either hands out a connection that is not
-- closed, or finds no unused connection and queues a pending future.
pub create_connection_context-IsServed :
    (p : Pool) (now : ℕ) → IsServed (create_connection_context p now)
unfolding create_connection_context
create_connection_context-IsServed p now =
    acquire_loop-IsServed (length p.unused_connections) p now (omega arith)
