-- ===== src/Pool/Fair/Parts.antt =====
-- Fairness of the methods that take and create connections.
use emcache.Prelude.{
  ℕ, zero, suc, ◌≡◌, refl, ◌≤◌, ◌⊎◌, arith, true, Option, none, some, List, [], ◌∷◌, length, All,
  if_case, inl, inr,
}
use emcache.Pool.State.{
  Future, pending, Pool, is_done, next_waiter, remove, set_time, set_future, hand_over,
  close_connection, wakeup_next_waiter_or_append_to_unused, is_closed,
}
use emcache.Pool.Create.{maybe_new_connection, maybe_new_connection_if_current_is_lower_than_min}
use emcache.Pool.Methods.{Context, acquire_loop, acquire_round, wait_for_connection, take_unused}

-- Every waiter in the queue is done: it has its connection or was cancelled.
abbrev pub AllDone : (ℕ → Future) → List ℕ → Type 0
AllDone futures = All (λ w. is_done (futures w) ≡ true)

-- No connection is unused, or nobody waits.
abbrev pub IsFair : Pool → Type 0
IsFair p = (p.unused_connections ≡ []) ⊎ AllDone p.futures p.waiters

pub remove-nil : (c : ℕ) (l : List ℕ) → l ≡ [] → remove c l ≡ []
unfolding remove
remove-nil c [] e = refl
remove-nil c (x ∷ l) e = cc

pub close_connection-IsFair : (p : Pool) (c : ℕ) → IsFair p → IsFair (close_connection p c)
unfolding close_connection
close_connection-IsFair p c (inl e) = inl (remove-nil c p.unused_connections e)
close_connection-IsFair p c (inr d) = inr d

pub next_waiter-AllDone :
    (futures : ℕ → Future) (l : List ℕ) → next_waiter futures l ≡ none → AllDone futures l
unfolding next_waiter
next_waiter-AllDone futures [] e = tt
next_waiter-AllDone futures (w ∷ l) e = ground (arith, next_waiter-AllDone futures l)

pub AllDone-next_waiter :
    (futures : ℕ → Future) (l : List ℕ) (w : ℕ)
    → AllDone futures l
    → next_waiter futures l ≡ some w
    → ⊥
unfolding next_waiter
AllDone-next_waiter futures [] w d e = cc
AllDone-next_waiter futures (v ∷ l) w d e = ground (arith, AllDone-next_waiter futures l w d.1)

pub hand_over-IsFair :
    (p : Pool) (c : ℕ) (o : Option ℕ)
    → next_waiter p.futures p.waiters ≡ o
    → IsFair p
    → IsFair (hand_over p c o)
unfolding hand_over
hand_over-IsFair p c none e f = inr (next_waiter-AllDone p.futures p.waiters e)
hand_over-IsFair p c (some w) e (inl u) = inl u
hand_over-IsFair p c (some w) e (inr d) = absurd (AllDone-next_waiter p.futures p.waiters w d e)

pub wakeup-IsFair :
    (p : Pool) (c now : ℕ) → IsFair p → IsFair (wakeup_next_waiter_or_append_to_unused p c now)
unfolding wakeup_next_waiter_or_append_to_unused
wakeup-IsFair p c now f =
    hand_over-IsFair
      (record p { connections_last_time_used = set_time c now p.connections_last_time_used }) c _
      refl f

pub maybe_new_connection-IsFair : (p : Pool) → IsFair p → IsFair (maybe_new_connection p)
unfolding maybe_new_connection
maybe_new_connection-IsFair p f = if_case IsFair _ (λ _. f) (λ _. f)

pub maybe_new_if_low-IsFair :
    (p : Pool) → IsFair p → IsFair (maybe_new_connection_if_current_is_lower_than_min p)
unfolding maybe_new_connection_if_current_is_lower_than_min
maybe_new_if_low-IsFair p f = if_case IsFair _ (λ _. maybe_new_connection-IsFair p f) (λ _. f)

pub wait-IsFair : (p : Pool) → p.unused_connections ≡ [] → IsFair (wait_for_connection p).0
unfolding wait_for_connection
wait-IsFair p e =
    maybe_new_connection-IsFair
      (record p {
        next_future = suc p.next_future;
        futures = set_future p.next_future pending p.futures;
        waiters = p.next_future ∷ p.waiters;
      })
      (inl e)

-- Popping a connection does not change who waits.
abbrev pub Popped : Pool → ℕ → List ℕ → Type 0
Popped p c rest = IsFair (record p { unused_connections = rest })

pub pop-IsFair :
    (p : Pool) (c : ℕ) (rest : List ℕ)
    → p.unused_connections ≡ c ∷ rest
    → IsFair p
    → Popped p c rest
pop-IsFair p c rest e (inl u) = absurd (cc)
pop-IsFair p c rest e (inr d) = inr d

pub length-remove-le : (c : ℕ) (l : List ℕ) → length (remove c l) ≤ length l
unfolding remove
length-remove-le c [] = omega arith
length-remove-le c (x ∷ l) = ground (arith, length-remove-le c l)

pub close-length :
    (p : Pool) (c : ℕ) (rest : List ℕ) (fuel : ℕ)
    → length (c ∷ rest) ≤ suc fuel
    → length (close_connection (record p { unused_connections = rest }) c).unused_connections ≤ fuel
unfolding close_connection
close-length p c rest fuel h = omega (arith, length-remove-le c rest)

pub length_zero : (l : List ℕ) → length l ≤ 0 → l ≡ []
length_zero [] h = refl
length_zero (x ∷ l) h = absurd (omega arith)

pub acquire_round-IsFair :
    (p : Pool) (now fuel : ℕ) (l : List ℕ) (again : Pool → Pool × Context)
    → p.unused_connections ≡ l
    → length l ≤ suc fuel
    → IsFair p
    → ((q : Pool) → length q.unused_connections ≤ fuel → IsFair q → IsFair (again q).0)
    → IsFair (acquire_round p now l again).0
unfolding acquire_round take_unused
acquire_round-IsFair p now fuel [] again e h f k = wait-IsFair p e
acquire_round-IsFair p now fuel (c ∷ rest) again e h f k =
    if_case (λ (r : Pool × Context). IsFair r.0) (is_closed p c)
      (λ _.
        let q = close_connection (record p { unused_connections = rest }) c in
        k q (close-length p c rest fuel h) (
          close_connection-IsFair (record p { unused_connections = rest }) c
            (pop-IsFair p c rest e f)))
      (λ _. pop-IsFair p c rest e f)

pub acquire_loop-IsFair :
    (fuel : ℕ) (p : Pool) (now : ℕ)
    → length p.unused_connections ≤ fuel
    → IsFair p
    → IsFair (acquire_loop fuel p now).0
unfolding acquire_loop
acquire_loop-IsFair zero p now h f = wait-IsFair p (length_zero p.unused_connections h)
acquire_loop-IsFair (suc fuel) p now h f =
    acquire_round-IsFair p now fuel p.unused_connections _ refl h f
      (λ q h' f'. acquire_loop-IsFair fuel q now h' f')
