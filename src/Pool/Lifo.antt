-- ===== src/Pool/Lifo.antt =====
-- Waiting operations are served last in, first out (emcache/connection_pool.py).
use emcache.Prelude.{
  ℕ, zero, suc, ◌≡◌, refl, ap, ◌∙◌, sym, subst, arith, ◌<◌, false, Option, some, List, [], ◌∷◌, All,
  if_case, ==_refl, length,
}
use emcache.Pool.State.{
  Future, pending, result, Pool, is_closed, contains, is_done, next_waiter, remove, set_future,
  set_time, hand_over, wakeup_next_waiter_or_append_to_unused,
}
use emcache.Pool.Create.{maybe_new_connection}
use emcache.Pool.Methods.{
  Context, create_connection_context, acquire_loop, acquire_round, wait_for_connection,
  release_connection,
}
use emcache.Pool.Events.{Event, acquire, release, step, run}

-- An operation asks for a connection, and then another gives its own back: the connection and two times.
abbrev pub rounds : List (ℕ × ℕ × ℕ) → List Event
rounds [] = []
rounds ((c, asked, given) ∷ rs) = acquire asked ∷ release c false given ∷ rounds rs

-- The parts of a busy pool that a round leaves as they were.
abbrev SameBefore : Pool → Pool → Type 0
SameBefore p q =
    (q.closed ≡ p.closed)
    × (q.closed_connections ≡ p.closed_connections)
    × (q.unused_connections ≡ p.unused_connections)
    × (q.waiters ≡ p.waiters)
    × (q.next_future ≡ suc p.next_future)
    × ((w : ℕ) → w < p.next_future → q.futures w ≡ p.futures w)

-- The pool when one more operation waits.
abbrev Waiting : Pool → Pool → Type 0
Waiting p q =
    (q.closed ≡ p.closed)
    × (q.closed_connections ≡ p.closed_connections)
    × (q.unused_connections ≡ p.unused_connections)
    × (q.waiters ≡ p.next_future ∷ p.waiters)
    × (q.next_future ≡ suc p.next_future)
    × (q.futures ≡ set_future p.next_future pending p.futures)

acquire_loop-empty :
    (fuel : ℕ) (p : Pool) (now : ℕ)
    → p.unused_connections ≡ []
    → acquire_loop fuel p now ≡ wait_for_connection p
unfolding acquire_loop acquire_round
acquire_loop-empty zero p now e = refl
acquire_loop-empty (suc fuel) p now e =
    ap (λ l. acquire_round p now l (λ q. acquire_loop fuel q now)) e

wait_for_connection-Waiting : (p : Pool) → Waiting p (wait_for_connection p).0
unfolding wait_for_connection maybe_new_connection
wait_for_connection-Waiting p =
    if_case (Waiting p) _ (λ _. (refl, refl, refl, refl, refl, refl))
      (λ _. (refl, refl, refl, refl, refl, refl))

acquire-Waiting :
    (p : Pool) (now : ℕ) → p.unused_connections ≡ [] → Waiting p (step p (acquire now))
unfolding step create_connection_context
acquire-Waiting p now e =
    subst (λ (r : Pool × Context). Waiting p r.0)
      (sym (acquire_loop-empty (length p.unused_connections) p now e))
      (wait_for_connection-Waiting p)

-- The waiter that came last is found.
next_waiter-last :
    (n : ℕ) (futures : ℕ → Future) (ws : List ℕ)
    → next_waiter (set_future n pending futures) (n ∷ ws) ≡ some n
unfolding next_waiter set_future is_done
next_waiter-last n futures ws = ground (arith, ==_refl n)

remove-first : (n : ℕ) (ws : List ℕ) → remove n (n ∷ ws) ≡ ws
unfolding remove
remove-first n ws = ground (arith, ==_refl n)

earlier_future :
    (n w : ℕ) (f g : Future) (futures : ℕ → Future)
    → w < n
    → set_future n f (set_future n g futures) w ≡ futures w
unfolding set_future
earlier_future n w f g futures h = ground arith

served-SameBefore :
    (p q : Pool) (c now : ℕ)
    → Waiting p q
    → SameBefore p (wakeup_next_waiter_or_append_to_unused q c now)
unfolding wakeup_next_waiter_or_append_to_unused hand_over
served-SameBefore p q c now (shut, lost, unused, waiters, next, futures) =
    let n = p.next_future in
    let noted : Pool = record q {
      connections_last_time_used = set_time c now q.connections_last_time_used;
    } in
    let last : next_waiter q.futures q.waiters ≡ some n =
      subst (λ fs. next_waiter fs q.waiters ≡ some n) (sym futures)
        (subst (λ ws. next_waiter (set_future n pending p.futures) ws ≡ some n) (sym waiters)
          (next_waiter-last n p.futures p.waiters)) in
    subst (λ (o : Option ℕ). SameBefore p (hand_over noted c o)) (sym last)
      (
        shut,
        lost,
        unused,
        ap (remove n) waiters ∙ remove-first n p.waiters,
        next,
        λ w h.
            ap (λ fs. set_future n (result c) fs w) futures
            ∙ earlier_future n w (result c) pending p.futures h,
      )

release-SameBefore :
    (p q : Pool) (c now : ℕ)
    → p.closed ≡ false
    → contains c p.closed_connections ≡ false
    → Waiting p q
    → SameBefore p (step q (release c false now))
unfolding step release_connection
release-SameBefore p q c now opened usable w =
    let still : q.closed ≡ false = w.0 ∙ opened in
    let open_ : is_closed q c ≡ false = ap (contains c) w.1 ∙ usable in
    if_case (SameBefore p) q.closed (λ e. absurd (cc))
      (λ _.
        if_case (SameBefore p) (is_closed q c) (λ e. absurd (cc))
          (λ _. served-SameBefore p q c now w))

-- However often it happens that, in an open pool with no unused connection, one more operation asks
-- for a connection and then an open connection is given back, the operations that waited before wait
-- still: afterwards the queue is the same, and no future from before has been set.
pub run-rounds_starve :
    (p : Pool) (rs : List (ℕ × ℕ × ℕ))
    → p.closed ≡ false
    → p.unused_connections ≡ []
    → All (λ (r : ℕ × ℕ × ℕ). contains r.0 p.closed_connections ≡ false) rs
    → ((run p (rounds rs)).waiters ≡ p.waiters)
      × ((w : ℕ) → w < p.next_future → (run p (rounds rs)).futures w ≡ p.futures w)
unfolding run
run-rounds_starve p [] opened unused usable = (refl, λ w h. refl)
run-rounds_starve p ((c, asked, given) ∷ rs) opened unused usable =
    let q = step p (acquire asked) in
    let r = step q (release c false given) in
    let (shut, lost, left, waiters, next, before) =
      release-SameBefore p q c given opened usable.0 (acquire-Waiting p asked unused) in
    let rest =
      run-rounds_starve r rs (shut ∙ opened) (left ∙ unused)
        (subst (λ l. All (λ (x : ℕ × ℕ × ℕ). contains x.0 l ≡ false) rs) (sym lost) usable.1) in
    (rest.0 ∙ waiters, λ w h. rest.1 w (omega (arith, h, next)) ∙ before w h)
