-- ===== src/Pool/Retries.antt =====
-- The background task when every attempt fails: its backoff, and when the pool is declared unhealthy.
use Prim.Native.Nat.{min}
use native.Mathlib.Nat.{pow-suc}
use emcache.Prelude.{
  sym, subst, ℕ, zero, suc, ◌+◌, ◌*◌, ◌^◌, ◌≡◌, refl, arith, true, Option, none, some, List, [],
  ◌∷◌, ltb, ap, ◌∙◌, pos,
}
use emcache.Pool.State.{Task, attempting, sleeping, Pool}
use emcache.Pool.Create.{connection_failed, next_backoff, next_retries, set_healthy}
use emcache.Pool.Events.{Event, failed, retry, step, run, on_failed, on_retry}

-- `n` attempts that fail, each but the last followed by the end of the sleep.
pub failures : ℕ → List Event
failures zero = failed ∷ []
failures (suc n) = failed ∷ retry ∷ failures n

-- A pool with no connection at the start of an attempt after `n` failures.
record Failing (n : ℕ) (b : Option ℕ) (p : Pool) : Type 0 where
  task : p.creating_connection_task ≡ attempting b n
  total : p.total_connections ≡ pos 0
  healthy : p.healthy ≡ ltb n 3

-- The state after one more failure.
record Failed (n backoff : ℕ) (p : Pool) : Type 0 where
  task : p.creating_connection_task ≡ sleeping backoff n
  total : p.total_connections ≡ pos 0
  healthy : p.healthy ≡ ltb n 3

connection_failed-Failed :
    (n : ℕ) (b : Option ℕ) (p : Pool)
    → next_retries b n ≡ suc n
    → Failing n b p
    → Failed (suc n) (next_backoff b) (connection_failed p b n)
unfolding connection_failed set_healthy
connection_failed-Failed n b p e f = record {
  task = ground arith;
  total = ground arith;
  healthy = ground arith;
}

on_failed_eq :
    (p : Pool) (t : Task) (n : ℕ) (b : Option ℕ)
    → t ≡ attempting b n
    → on_failed p t ≡ connection_failed p b n
unfolding on_failed
on_failed_eq p t n b e = rw e refl

on_retry_eq :
    (p : Pool) (t : Task) (n b : ℕ)
    → t ≡ sleeping b n
    → on_retry p t ≡ (record p { creating_connection_task = attempting (some b) n })
unfolding on_retry
on_retry_eq p t n b e =
    subst (λ x. on_retry p x ≡ (record p { creating_connection_task = attempting (some b) n }))
      (sym e) refl

step-Failed :
    (n : ℕ) (b : Option ℕ) (p : Pool)
    → next_retries b n ≡ suc n
    → Failing n b p
    → Failed (suc n) (next_backoff b) (step p failed)
unfolding step
step-Failed n b p e f =
    subst (Failed (suc n) (next_backoff b))
      (sym (on_failed_eq p p.creating_connection_task n b f.task))
      (connection_failed-Failed n b p e f)

step-Failing : (n b : ℕ) (p : Pool) → Failed n b p → Failing n (some b) (step p retry)
unfolding step
step-Failing n b p f =
    subst (Failing n (some b)) (sym (on_retry_eq p p.creating_connection_task n b f.task))
      (record { task = refl; total = f.total; healthy = f.healthy })

-- The sleep before the next attempt: 1, 2, 4, … seconds, and never more than 60.
backoff-double : (n : ℕ) → min 60 (min 60 (2 ^ n) * 2) ≡ min 60 (2 ^ suc n)
backoff-double n = omega (arith, pow-suc 2 n)

fails :
    (k n : ℕ) (p : Pool)
    → Failing (suc n) (some (min 60 (2 ^ n))) p
    → Failed (suc (suc (n + k))) (min 60 (2 ^ suc (n + k))) (run p (failures k))
unfolding run failures next_backoff next_retries
fails zero n p f =
    subst (λ b. Failed (suc (suc (n + zero))) b (step p failed))
      (backoff-double n ∙ ap (λ x. min 60 (2 ^ suc x)) (omega arith))
      (subst (λ r. Failed r (min 60 (min 60 (2 ^ n) * 2)) (step p failed)) (omega arith)
        (step-Failed (suc n) (some (min 60 (2 ^ n))) p (omega arith) f))
fails (suc k) n p f =
    subst
      (λ x.
        Failed (suc (suc x)) (min 60 (2 ^ suc x)) (run (step (step p failed) retry) (failures k)))
      (omega arith)
      (fails k (suc n) (step (step p failed) retry) (
        step-Failing (suc (suc n)) (min 60 (2 ^ suc n)) (step p failed) (
          subst (λ b. Failed (suc (suc n)) b (step p failed)) (backoff-double n)
            (step-Failed (suc n) (some (min 60 (2 ^ n))) p (omega arith) f))))

-- After `n + 1` attempts that all fail, from the start of the task of a healthy pool with no
-- connection, the task sleeps for `min(60, 2 ** n)` seconds, and the pool is unhealthy exactly if
-- there have been at least three failures.
pub run-failures :
    (n : ℕ) (p : Pool)
    → p.creating_connection_task ≡ attempting none 0
    → p.total_connections ≡ pos 0
    → p.healthy ≡ true
    → ((run p (failures n)).creating_connection_task ≡ sleeping (min 60 (2 ^ n)) (suc n))
      × ((run p (failures n)).healthy ≡ ltb (suc n) 3)
unfolding run failures next_backoff next_retries
run-failures zero p task total healthy =
    let f = step-Failed 0 none p refl (record { task = task; total = total; healthy = healthy }) in
    (f.task, f.healthy)
run-failures (suc n) p task total healthy =
    let f = step-Failed 0 none p refl (record { task = task; total = total; healthy = healthy }) in
    let g =
      subst
        (λ x.
          Failed (suc (suc x)) (min 60 (2 ^ suc x)) (run (step (step p failed) retry) (failures n)))
        (omega arith)
        (fails n 0 (step (step p failed) retry) (step-Failing 1 1 (step p failed) f)) in
    (g.task, g.healthy)
