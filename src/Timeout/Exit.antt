-- ===== src/Timeout/Exit.antt =====
-- What a block with a timeout comes to.
use emcache.Prelude.{
  ℕ, ◌+◌, ◌≡◌, refl, sym, ap, subst, ◌∙◌, ◌≢◌, arith, Bool, true, false, Option, none, some, List,
  [], ◌∷◌,
}
use emcache.Timeout.{
  Timer, no_timer, scheduled, called, Task, OpTimeout, Ending, no_exception, cancelled_error,
  timeout_error, other_exception, aenter, aexit, Happening, time_out, cancel, happens,
}

-- Whether the time came, and how often the task was cancelled by others.
unfoldable pub time_came : List Happening → Bool
time_came [] = false
time_came (time_out ∷ hs) = true
time_came (cancel ∷ hs) = time_came hs

unfoldable pub cancels : List Happening → ℕ
cancels [] = 0
cancels (time_out ∷ hs) = cancels hs
cancels (cancel ∷ hs) = cancels hs + 1

-- Whether a block with this timeout times out.
abbrev pub times_out : Option ℕ → List Happening → Bool
times_out none hs = false
times_out (some t) hs = time_came hs

-- What a timeout makes of the end of the body.
abbrev pub left_with : Bool → Ending → Ending
left_with true cancelled_error = timeout_error
left_with true no_exception = no_exception
left_with true timeout_error = timeout_error
left_with true (other_exception x) = other_exception x
left_with false e = e

abbrev counted : ℕ → Task
counted n = record { done = false; cancelling = n }

abbrev timer : Option ℕ → Bool → Timer → OpTimeout
timer t b h = record { timeout = t; timed_out = b; timer_handler = h }

-- How a block stands.
abbrev stands : OpTimeout → ℕ → OpTimeout × Task
stands o n = (o, counted n)

-- With no timer, or a spent one, only the cancellations of others count.
happens-no_timer :
    (hs : List Happening) (t : Option ℕ) (b : Bool) (n : ℕ)
    → happens (timer t b no_timer) (counted n) hs ≡ (timer t b no_timer, counted (n + cancels hs))
unfolding happens cancels
happens-no_timer [] t b n = ap (stands (timer t b no_timer)) (omega arith)
happens-no_timer (time_out ∷ hs) t b n = happens-no_timer hs t b n
happens-no_timer (cancel ∷ hs) t b n =
    happens-no_timer hs t b (n + 1) ∙ ap (stands (timer t b no_timer)) (omega arith)

happens-called :
    (hs : List Happening) (t : Option ℕ) (b : Bool) (n : ℕ)
    → happens (timer t b called) (counted n) hs ≡ (timer t b called, counted (n + cancels hs))
unfolding happens cancels
happens-called [] t b n = ap (stands (timer t b called)) (omega arith)
happens-called (time_out ∷ hs) t b n = happens-called hs t b n
happens-called (cancel ∷ hs) t b n =
    happens-called hs t b (n + 1) ∙ ap (stands (timer t b called)) (omega arith)

-- A scheduled timer, once the time has come, has cancelled the task once.
abbrev afterwards : Option ℕ → Bool → ℕ → OpTimeout × Task
afterwards t true n = (timer t true called, counted (n + 1))
afterwards t false n = (timer t false scheduled, counted n)

happens-scheduled :
    (hs : List Happening) (t : Option ℕ) (n : ℕ)
    → happens (timer t false scheduled) (counted n) hs
      ≡ afterwards t (time_came hs) (n + cancels hs)
unfolding happens cancels time_came
happens-scheduled [] t n = ap (stands (timer t false scheduled)) (omega arith)
happens-scheduled (time_out ∷ hs) t n =
    happens-called hs t true (n + 1) ∙ ap (stands (timer t true called)) (omega arith)
happens-scheduled (cancel ∷ hs) t n =
    happens-scheduled hs t (n + 1) ∙ ap (afterwards t (time_came hs)) (omega arith)

-- The whole block, for a task that is running and had `n` requests to cancel it.
unfoldable pub block : Option ℕ → ℕ → List Happening → Ending → OpTimeout × Task × Ending
unfolding happens aenter
block t n hs e =
    let (o, u) = happens (aenter t) (record { done = false; cancelling = n }) hs in aexit o u e

-- No timer is scheduled, `n` requests are left, and the block is left as `b` says.
abbrev pub IsExit : Bool → ℕ → Ending → OpTimeout × Task × Ending → Type 0
IsExit b n e (o, t, left) =
    (o.timer_handler ≢ scheduled) × (t.cancelling ≡ n) × (left ≡ left_with b e)

aexit-afterwards :
    (t : Option ℕ) (b : Bool) (n : ℕ) (e : Ending)
    → IsExit b n e (aexit (afterwards t b n).0 (afterwards t b n).1 e)
unfolding aexit
aexit-afterwards t true n no_exception = ((λ k. cc), omega arith, refl)
aexit-afterwards t true n cancelled_error = ((λ k. cc), omega arith, refl)
aexit-afterwards t true n timeout_error = ((λ k. cc), omega arith, refl)
aexit-afterwards t true n (other_exception x) = ((λ k. cc), omega arith, refl)
aexit-afterwards t false n e = ((λ k. cc), refl, refl)

aexit-no_timer :
    (n : ℕ) (e : Ending) → IsExit false n e (aexit (timer none false no_timer) (counted n) e)
unfolding aexit
aexit-no_timer n e = ((λ k. cc), refl, refl)

-- A block that starts with `n` requests to cancel its task leaves no timer that can still go off, and
-- leaves the task with `n` requests and those that others made meanwhile: the timeout's own request is
-- taken back. It raises TimeoutError in place of CancelledError exactly if it has a timeout and the
-- time came, whoever else cancelled the task; any other end of the body is left as it is.
pub block-IsExit :
    (t : Option ℕ) (n : ℕ) (hs : List Happening) (e : Ending)
    → IsExit (times_out t hs) (n + cancels hs) e (block t n hs e)
unfolding block aenter
block-IsExit none n hs e =
    subst (λ (r : OpTimeout × Task). IsExit false (n + cancels hs) e (aexit r.0 r.1 e))
      (sym (happens-no_timer hs none false n)) (aexit-no_timer (n + cancels hs) e)
block-IsExit (some t) n hs e =
    subst (λ (r : OpTimeout × Task). IsExit (time_came hs) (n + cancels hs) e (aexit r.0 r.1 e))
      (sym (happens-scheduled hs (some t) n))
      (aexit-afterwards (some t) (time_came hs) (n + cancels hs) e)
