-- ===== src/Pool/Timers.antt =====
-- The timer of the purge, and what `close` leaves of it.
use emcache.Prelude.{
  ℕ, zero, suc, ◌≡◌, refl, ◌≢◌, sym, ap, subst, ◌∙◌, ◌+◌, arith, false, Option, none, some, List,
  [], ◌∷◌, length, if_case, if_false, ltb, leb_ℤ, pos, ==_refl,
}
use emcache.Pool.State.{Pool, remove, close_connection}
use emcache.Pool.Methods.{
  purge_loop, purge_after, purge_unused_connections, close_round, close_unused, close,
}

-- Closing connections has nothing to do with timers.
abbrev SameTimers : Pool → Pool → Type 0
SameTimers p q =
    (q.timers ≡ p.timers)
    × (q.next_timer ≡ p.next_timer)
    × (q.purge_timer_handler ≡ p.purge_timer_handler)
    × (q.closed ≡ p.closed)

purge_loop-SameTimers :
    (p : Pool) (after now : ℕ) (l : List (ℕ × ℕ)) → SameTimers p (purge_loop p after now l)
unfolding purge_loop close_connection
purge_loop-SameTimers p after now [] = (refl, refl, refl, refl)
purge_loop-SameTimers p after now ((c, t) ∷ rest) =
    if_case (SameTimers p) (ltb now (t + after)) (λ _. purge_loop-SameTimers p after now rest)
      (λ _.
        if_case (SameTimers p) (leb_ℤ p.total_connections (pos p.min_connections))
          (λ _. (refl, refl, refl, refl)) (λ _. (refl, refl, refl, refl)))

close_round-timers :
    (p : Pool) (l : List ℕ) (again : Pool → Pool)
    → ((q : Pool) → (again q).timers ≡ q.timers)
    → (close_round p l again).timers ≡ p.timers
unfolding close_round close_connection
close_round-timers p [] again h = refl
close_round-timers p (c ∷ rest) again h = h _

close_unused-timers : (fuel : ℕ) (p : Pool) → (close_unused fuel p).timers ≡ p.timers
unfolding close_unused
close_unused-timers zero p = refl
close_unused-timers (suc fuel) p =
    close_round-timers p p.unused_connections _ (close_unused-timers fuel)

-- One timer, which is the handler's; it has fired, and the next one has another number.
record Fired (handler next : ℕ) (q : Pool) : Type 0 where
  timers : q.timers ≡ next ∷ []
  handler_is : q.purge_timer_handler ≡ some handler
  opened : q.closed ≡ false

purge_after-Fired :
    (p : Pool) (handler now after : ℕ) (configured : Option ℕ)
    → configured ≡ some after
    → p.purge_timer_handler ≡ some handler
    → p.timers ≡ handler ∷ []
    → p.closed ≡ false
    → Fired handler p.next_timer (purge_after p handler now configured)
unfolding purge_after remove
purge_after-Fired p handler now after configured e h t c =
    let same = purge_loop-SameTimers p after now p.connections_last_time_used in
    let gone : remove handler (handler ∷ []) ≡ [] = rw (==_refl handler) refl in
    subst (λ o. Fired handler p.next_timer (purge_after p handler now o)) (sym e)
      (record {
        timers =
            ap
              (λ n. n ∷ remove handler (purge_loop p after now p.connections_last_time_used).timers)
              same.1
            ∙ ap (λ l. p.next_timer ∷ remove handler l) (same.0 ∙ t)
            ∙ ap (◌∷◌ p.next_timer) gone;
        handler_is = same.2 ∙ h;
        opened = same.3 ∙ c;
      })

remove_other : (x y : ℕ) → x ≢ y → remove x (y ∷ []) ≡ y ∷ []
unfolding remove
remove_other x y h = ground arith

close-Fired :
    (q : Pool) (handler next : ℕ)
    → Fired handler next q
    → handler ≢ next
    → (r : Pool) × (close q ≡ some r) × (r.timers ≡ next ∷ [])
unfolding close
close-Fired q handler next f h = (
  _,
  if_false q.closed _ _ f.opened,
  close_unused-timers (length q.unused_connections) _
      ∙ subst (λ o. (elim o [ none ↦ q.timers | some t ↦ remove t q.timers ]) ≡ next ∷ [])
          (sym f.handler_is) (ap (remove handler) f.timers ∙ remove_other handler next h),
)

-- Once the first timer of the purge has fired, `close` leaves the next one scheduled: it cancels the
-- handle of the first, and nobody keeps the handle of the next.
pub close-purge_leaves_timer :
    (p : Pool) (handler now after : ℕ)
    → p.purge_unused_connections_after ≡ some after
    → p.purge_timer_handler ≡ some handler
    → p.timers ≡ handler ∷ []
    → p.closed ≡ false
    → handler ≢ p.next_timer
    → (r : Pool) × (close (purge_unused_connections p handler now) ≡ some r)
      × (r.timers ≡ p.next_timer ∷ [])
unfolding purge_unused_connections
close-purge_leaves_timer p handler now after configured h t c fresh =
    close-Fired (purge_after p handler now p.purge_unused_connections_after) handler p.next_timer
      (purge_after-Fired p handler now after p.purge_unused_connections_after configured h t c)
      fresh
