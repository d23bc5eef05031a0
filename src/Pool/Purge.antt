-- ===== src/Pool/Purge.antt =====
-- A purge that meets a connection in use, and the release of that connection after it.
use emcache.Prelude.{
  ℕ, ◌+◌, ◌≡◌, refl, ap, sym, subst, ◌∙◌, arith, true, false, Option, some, List, ◌∷◌, ltb, ==_refl,
  ◌-ℤ◌, leb_ℤ, pos, if_case,
}
use emcache.Pool.State.{Pool, contains, is_closed, close_protocol, close_connection}
use emcache.Pool.Create.{maybe_new_connection, maybe_new_connection_if_current_is_lower_than_min}
use emcache.Pool.Methods.{release_connection, purge_loop, purge_after, purge_unused_connections}

maybe_new_connection_total :
    (p : Pool)
    → (maybe_new_connection_if_current_is_lower_than_min p).total_connections ≡ p.total_connections
unfolding maybe_new_connection maybe_new_connection_if_current_is_lower_than_min
maybe_new_connection_total p = ground arith

contains-close_protocol : (c : ℕ) (l : List ℕ) → contains c (close_protocol c l) ≡ true
unfolding contains close_protocol
contains-close_protocol c l =
    if_case (λ x. contains c x ≡ true) (contains c l) (λ h. h) (λ h. rw (==_refl c) refl)

close_connection_total :
    (p : Pool) (c : ℕ) → (close_connection p c).total_connections ≡ p.total_connections -ℤ pos 1
unfolding close_connection
close_connection_total p c = refl

total-release_closed :
    (p : Pool) (c now : ℕ)
    → contains c p.closed_connections ≡ true
    → (release_connection p c false now).total_connections ≡ p.total_connections -ℤ pos 1
unfolding release_connection
total-release_closed p c now h =
    if_case (λ (x : Pool). x.total_connections ≡ p.total_connections -ℤ pos 1) p.closed
      (λ _. close_connection_total p c)
      (λ _.
        if_case (λ (x : Pool). x.total_connections ≡ p.total_connections -ℤ pos 1) (is_closed p c)
          (λ _. maybe_new_connection_total (close_connection p c) ∙ close_connection_total p c)
          (λ k. ground arith))

abbrev Purged : Pool → ℕ → Pool → Type 0
Purged p c q =
    (q.total_connections ≡ p.total_connections -ℤ pos 1) × (contains c q.closed_connections ≡ true)

close_connection-Purged : (p : Pool) (c : ℕ) → Purged p c (close_connection p c)
unfolding close_connection
close_connection-Purged p c = (refl, contains-close_protocol c p.closed_connections)

purge_loop-Purged :
    (p : Pool) (c t after now : ℕ) (rest : List (ℕ × ℕ))
    → ltb now (t + after) ≡ false
    → leb_ℤ p.total_connections (pos p.min_connections) ≡ false
    → Purged p c (purge_loop p after now ((c, t) ∷ rest))
unfolding purge_loop
purge_loop-Purged p c t after now rest due above =
    if_case (Purged p c) (ltb now (t + after)) (λ h. ground arith)
      (λ _.
        if_case (Purged p c) (leb_ℤ p.total_connections (pos p.min_connections)) (λ h. ground arith)
          (λ _. close_connection-Purged p c))

purge_after-Purged :
    (p : Pool) (timer c t after now : ℕ) (rest : List (ℕ × ℕ)) (configured : Option ℕ)
    → configured ≡ some after
    → p.connections_last_time_used ≡ (c, t) ∷ rest
    → ltb now (t + after) ≡ false
    → leb_ℤ p.total_connections (pos p.min_connections) ≡ false
    → Purged p c (purge_after p timer now configured)
unfolding purge_after
purge_after-Purged p timer c t after now rest configured e head due above =
    subst (λ o. Purged p c (purge_after p timer now o)) (sym e)
      (subst (λ l. Purged p c (purge_loop p after now l)) (sym head)
        (purge_loop-Purged p c t after now rest due above))

-- If the connection whose entry comes first is due when the purge fires, and there
-- are more connections than the minimum, then its release after the purge takes it off the number of
-- connections a second time, also when it was in use all along.
pub release-purge_counts_twice :
    (p : Pool) (timer c t after now later : ℕ) (rest : List (ℕ × ℕ))
    → p.purge_unused_connections_after ≡ some after
    → p.connections_last_time_used ≡ (c, t) ∷ rest
    → ltb now (t + after) ≡ false
    → leb_ℤ p.total_connections (pos p.min_connections) ≡ false
    → (release_connection (purge_unused_connections p timer now) c false later).total_connections
      ≡ p.total_connections -ℤ pos 1 -ℤ pos 1
unfolding purge_unused_connections
release-purge_counts_twice p timer c t after now later rest configured head due above =
    let purged =
      purge_after-Purged p timer c t after now rest p.purge_unused_connections_after configured head
        due above in
    total-release_closed (purge_unused_connections p timer now) c later purged.1
    ∙ ap (λ x. x -ℤ pos 1) purged.0
