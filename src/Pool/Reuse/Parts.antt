-- ===== src/Pool/Reuse/Parts.antt =====
-- What the methods that hand out and take back connections do for a connection that is closed.
use emcache.Prelude.{
  ℕ, zero, suc, ◌≡◌, ◌≢◌, arith, Bool, true, false, ◌&&◌, ◌||◌, not, Option, none, some, List, [],
  ◌∷◌, ◌==◌, ==_refl, if_case, sym, subst, pos, ltb_ℤ,
}
use emcache.Pool.State.{
  Future, pending, result, Pool, contains, set_time, set_future, hand_over, close_connection,
  close_protocol, wakeup_next_waiter_or_append_to_unused, is_closed,
}
use emcache.Pool.Create.{maybe_new_connection, maybe_new_connection_if_current_is_lower_than_min}
use emcache.Pool.Methods.{
  Context, release_connection, acquire_loop, acquire_round, wait_for_connection, take_unused,
}

pub contains-close_protocol :
    (c d : ℕ) (l : List ℕ) → contains c l ≡ true → contains c (close_protocol d l) ≡ true
unfolding close_protocol contains
contains-close_protocol c d l h = ground arith

pub closes_protocol : (c : ℕ) (l : List ℕ) → contains c (close_protocol c l) ≡ true
unfolding close_protocol contains
closes_protocol c l = ground (arith, ==_refl c)

pub result_injective : (c d : ℕ) → result c ≡ result d → c ≡ d
result_injective c d e = cc

-- The connection `c` is closed, and no future has got it that had not got it in `before`.
module _ (before : ℕ → Future) (c : ℕ) where
  abbrev pub Gone : Pool → Type 0
  Gone p =
      (contains c p.closed_connections ≡ true)
      × ((w : ℕ) → p.futures w ≡ result c → before w ≡ result c)

  pub close_connection-Gone : (p : Pool) (d : ℕ) → Gone p → Gone (close_connection p d)
  unfolding close_connection
  close_connection-Gone p d g = (contains-close_protocol c d p.closed_connections g.0, g.1)

  pub set_future-Gone :
      (futures : ℕ → Future) (w : ℕ) (f : Future)
      → f ≢ result c
      → ((v : ℕ) → futures v ≡ result c → before v ≡ result c)
      → (v : ℕ) → set_future w f futures v ≡ result c
      → before v ≡ result c
  unfolding set_future
  set_future-Gone futures w f other k v =
      if_case (λ x. x ≡ result c → before v ≡ result c) (v == w) (λ _ e. absurd (other e))
        (λ _. k v)

  pub hand_over-Gone : (p : Pool) (d : ℕ) (o : Option ℕ) → d ≢ c → Gone p → Gone (hand_over p d o)
  unfolding hand_over
  hand_over-Gone p d none other g = g
  hand_over-Gone p d (some w) other g =
      (g.0, set_future-Gone p.futures w (result d) (λ e. other (result_injective d c e)) g.1)

  pub wakeup-Gone :
      (p : Pool) (d now : ℕ)
      → d ≢ c
      → Gone p
      → Gone (wakeup_next_waiter_or_append_to_unused p d now)
  unfolding wakeup_next_waiter_or_append_to_unused
  wakeup-Gone p d now other g =
      hand_over-Gone
        (record p { connections_last_time_used = set_time d now p.connections_last_time_used }) d _
        other g

  pub maybe_new_connection-Gone : (p : Pool) → Gone p → Gone (maybe_new_connection p)
  unfolding maybe_new_connection
  maybe_new_connection-Gone p g =
      if_case Gone (not p.creating_connection && ltb_ℤ p.total_connections (pos p.max_connections))
        (λ _. g) (λ _. g)

  pub maybe_new_if_low-Gone :
      (p : Pool) → Gone p → Gone (maybe_new_connection_if_current_is_lower_than_min p)
  unfolding maybe_new_connection_if_current_is_lower_than_min
  maybe_new_if_low-Gone p g =
      if_case Gone (ltb_ℤ p.total_connections (pos p.min_connections))
        (λ _. maybe_new_connection-Gone p g) (λ _. g)

  pub open_is_other :
      (p : Pool) (d : ℕ) (exc : Bool) → (exc || is_closed p d) ≡ false → Gone p → d ≢ c
  open_is_other p d exc e g h =
      let k : contains d p.closed_connections ≡ true =
        subst (λ x. contains x p.closed_connections ≡ true) (sym h) g.0 in
      ground arith

  pub release-Gone :
      (p : Pool) (d : ℕ) (exc : Bool) (now : ℕ) → Gone p → Gone (release_connection p d exc now)
  unfolding release_connection
  release-Gone p d exc now g =
      if_case Gone p.closed (λ _. close_connection-Gone p d g)
        λ _.
          if_case Gone (exc || is_closed p d)
            (λ _. maybe_new_if_low-Gone (close_connection p d) (close_connection-Gone p d g))
            (λ e. wakeup-Gone p d now (open_is_other p d exc e g) g)

  pub wait-Gone : (p : Pool) → Gone p → Gone (wait_for_connection p).0
  unfolding wait_for_connection
  wait-Gone p g =
      maybe_new_connection-Gone
        (record p {
          next_future = suc p.next_future;
          futures = set_future p.next_future pending p.futures;
          waiters = p.next_future ∷ p.waiters;
        })
        (g.0, set_future-Gone p.futures p.next_future pending (λ e. cc) g.1)

  pub acquire_round-Gone :
      (p : Pool) (now : ℕ) (l : List ℕ) (again : Pool → Pool × Context)
      → Gone p
      → ((q : Pool) → Gone q → Gone (again q).0)
      → Gone (acquire_round p now l again).0
  unfolding acquire_round take_unused
  acquire_round-Gone p now [] again g k = wait-Gone p g
  acquire_round-Gone p now (d ∷ rest) again g k =
      if_case (λ (r : Pool × Context). Gone r.0) (is_closed p d)
        (λ _. k _ (close_connection-Gone (record p { unused_connections = rest }) d g)) (λ _. g)

  pub acquire_loop-Gone :
      (fuel : ℕ) (p : Pool) (now : ℕ) → Gone p → Gone (acquire_loop fuel p now).0
  unfolding acquire_loop
  acquire_loop-Gone zero p now g = wait-Gone p g
  acquire_loop-Gone (suc fuel) p now g =
      acquire_round-Gone p now p.unused_connections _ g (λ q. acquire_loop-Gone fuel q now)
