-- ===== src/Timeout.antt =====
-- `OpTimeout` (emcache/timeout.py), the context manager around every command, with what it does to the
-- task that it runs in. Cancelling a task counts a request, as `Task.cancel` and `Task.uncancel` do
-- from Python 3.11 on.
pub mod Exit
use emcache.Prelude.{
  ℕ, ◌+◌, ◌-◌, Bool, true, false, Option, none, some, List, [], ◌∷◌, if◌then◌else◌,
}

-- A timer handle: not made, scheduled, called, or cancelled.
pub data Timer : Type 0 where
  no_timer scheduled called cancelled : Timer

pub record Task : Type 0 where
  pub done : Bool
  pub cancelling : ℕ

pub record OpTimeout : Type 0 where
  pub timeout : Option ℕ
  pub timed_out : Bool
  pub timer_handler : Timer

-- How the body of the block ends.
pub data Ending : Type 0 where
  no_exception cancelled_error timeout_error : Ending
  other_exception : ℕ → Ending

-- `OpTimeout(timeout, loop)` and `__aenter__`.
unfoldable pub aenter : Option ℕ → OpTimeout
aenter none = record { timeout = none; timed_out = false; timer_handler = no_timer }
aenter (some t) = record { timeout = some t; timed_out = false; timer_handler = scheduled }

-- `_on_timeout()`.
unfoldable pub on_timeout : OpTimeout → Task → OpTimeout × Task
on_timeout o t =
    if t.done
    then (o, t)
    else (record o { timed_out = true }, record t { cancelling = t.cancelling + 1 })

-- The event loop calls the timer, which is then spent.
unfoldable pub fire : OpTimeout → Task → OpTimeout × Task
unfolding on_timeout
fire o t = elim o.timer_handler [
  | no_timer ↦ (o, t)
  | scheduled ↦ on_timeout (record o { timer_handler = called }) t
  | called ↦ (o, t)
  | cancelled ↦ (o, t)
]

-- `TimerHandle.cancel()`, if there is a handle; a call that has been made stays made.
unfoldable pub cancel_timer : Timer → Timer
cancel_timer no_timer = no_timer
cancel_timer scheduled = cancelled
cancel_timer called = called
cancel_timer cancelled = cancelled

-- What leaves the block when `__aexit__` does not raise is how the body ended.
unfoldable pub aexit : OpTimeout → Task → Ending → OpTimeout × Task × Ending
unfolding cancel_timer
aexit o t e =
    let stopped = record o { timer_handler = cancel_timer o.timer_handler } in
    let cleared = record t { cancelling = t.cancelling - 1 } in
    if o.timed_out
    then elim e [
      | no_exception ↦ (stopped, cleared, no_exception)
      | cancelled_error ↦ (o, cleared, timeout_error)
      | timeout_error ↦ (stopped, cleared, timeout_error)
      | other_exception x ↦ (stopped, cleared, other_exception x)
    ]
    else (stopped, t, e)

-- While the body runs: the time comes, or somebody cancels the task.
pub data Happening : Type 0 where
  time_out cancel : Happening

unfoldable pub happens : OpTimeout → Task → List Happening → OpTimeout × Task
unfolding fire
happens o t [] = (o, t)
happens o t (time_out ∷ hs) = let (p, u) = fire o t in happens p u hs
happens o t (cancel ∷ hs) = happens o (record t { cancelling = t.cancelling + 1 }) hs
