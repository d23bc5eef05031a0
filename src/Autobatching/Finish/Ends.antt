-- ===== src/Autobatching/Finish/Ends.antt =====
-- One task of a batch: what its response, or its timeout, does to its keys.
use emcache.Prelude.{
  suc, ◌≡◌, refl, ap, sym, ◌∙◌, arith, Bool, true, false, Option, none, some, List, [], ◌∷◌, ◌++◌,
  Bytes, bytes_eq, All, length, length-append, ℤ,
}
use mathlib.Core.List.{append_assoc}
use emcache.Client.Fetch.{Item, has_key}
use emcache.Autobatching.{
  timeout_error, exception, result, is_done, Ops, Batch, Progress, running, continue_with,
  pop_and_settle, Variable, column, scalar, subscript, with_item, wake_returned, wake_missing,
  fail_all, maybe_signal_termination, batch_results, batch_timeout,
}
use emcache.Autobatching.Sending.{op_keys}
use emcache.Autobatching.Completion.{index-append}
use emcache.Autobatching.Finish.Pops.{
  has_key-append, Woken, Wakes, Wakes-nil, Woken-append, pop_and_settle-Wakes,
}
use emcache.Autobatching.Finish.Keys.{
  Answers, asked, found, values, unfound, Distinct, Told, All-found, All-unfound, Distinct-found,
  Distinct-unfound, Told-found, unfound-Told, length-asked, has_key-asked,
}

-- The batch has operations for all of the keys.
abbrev pub Present : Batch → List Bytes → Type 0
Present b = All (λ k. has_key k (op_keys b.ops) ≡ true)

pub Present-Woken :
    (ks : List Bytes) (b c : Batch) (ls : List Bytes)
    → Woken ks b c
    → All (λ x. has_key x ks ≡ false) ls
    → Present b ls
    → Present c ls
Present-Woken ks b c [] w n p = tt
Present-Woken ks b c (l ∷ ls) w n p = (w.kept l n.0 p.0, Present-Woken ks b c ls w n.1 p.1)

not_the_first :
    (k : Bytes) (ls : List Bytes)
    → All (λ x. bytes_eq x k ≡ false) ls
    → All (λ x. has_key x (k ∷ []) ≡ false) ls
unfolding has_key
not_the_first k [] h = tt
not_the_first k (l ∷ ls) h = (ground arith, not_the_first k ls h.1)

-- One key, and then the others.
continue-Wakes :
    (k : Bytes) (ks : List Bytes) (b : Batch) (p : Progress) (f : Batch → Progress)
    → Wakes (k ∷ []) b p
    → ((c : Batch) → Woken (k ∷ []) b c → Wakes ks c (f c))
    → Wakes (k ∷ ks) b (continue_with p f)
unfolding continue_with
continue-Wakes k ks b p f (c, e, w) h =
    let (d, q, v) = h c w in
    (d, ap (λ r. continue_with r f) e ∙ q, Woken-append (k ∷ []) ks b c d w v)

fail_all-Wakes :
    (ks : List Bytes) (b : Batch) → Distinct ks → Present b ks → Wakes ks b (fail_all ks b)
unfolding fail_all is_done
fail_all-Wakes [] b d p = Wakes-nil b
fail_all-Wakes (k ∷ ks) b d p =
    continue-Wakes k ks b (pop_and_settle (exception timeout_error) k b) (fail_all ks)
      (pop_and_settle-Wakes (exception timeout_error) k b refl p.0)
      (λ c w.
        fail_all-Wakes ks c d.1 (Present-Woken (k ∷ []) b c ks w (not_the_first k ks d.0) p.1))

wake_returned-Wakes :
    (a : Answers) (pre : List Bytes) (flags cas : Variable) (b : Batch)
    → Distinct (found a)
    → Present b (found a)
    → Wakes
        (found a)
        b
        (wake_returned false false (found a) (pre ++ values a) flags cas (length pre) b)
unfolding wake_returned with_item subscript is_done
wake_returned-Wakes [] pre flags cas b d p = Wakes-nil b
wake_returned-Wakes ((k, none) ∷ a) pre flags cas b d p = wake_returned-Wakes a pre flags cas b d p
wake_returned-Wakes ((k, some v) ∷ a) pre flags cas b d p =
    let size : length (pre ++ v ∷ []) ≡ suc (length pre) =
      omega (arith, length-append pre (v ∷ [])) in
    let reply : Item = record { value = v; flags = none; cas = none } in
    rw (index-append pre v (values a)) (
      continue-Wakes k (found a) b (pop_and_settle (result (some reply)) k b) _
        (pop_and_settle-Wakes (result (some reply)) k b refl p.0)
        (λ c w.
          rw (append_assoc pre (v ∷ []) (values a), size) at
            (wake_returned-Wakes a (pre ++ v ∷ []) (scalar none) (scalar none) c d.1
              (Present-Woken (k ∷ []) b c (found a) w (not_the_first k (found a) d.0) p.1))))

wake_missing-Wakes :
    (keys : List Bytes) (a : Answers) (b : Batch)
    → Told keys a
    → Distinct (unfound a)
    → Present b (unfound a)
    → Wakes (unfound a) b (wake_missing keys (asked a) b)
unfolding wake_missing is_done
wake_missing-Wakes keys [] b t d p = Wakes-nil b
wake_missing-Wakes keys ((k, some v) ∷ a) b t d p = rw t.0 (wake_missing-Wakes keys a b t.1 d p)
wake_missing-Wakes keys ((k, none) ∷ a) b t d p = rw t.0 (
    continue-Wakes k (unfound a) b (pop_and_settle (result none) k b) (wake_missing keys (asked a))
      (pop_and_settle-Wakes (result none) k b refl p.0)
      (λ c w.
        wake_missing-Wakes keys a c t.1 d.1
          (Present-Woken (k ∷ []) b c (unfound a) w (not_the_first k (unfound a) d.0) p.1)))

-- Found and unfound keys together are the keys that were asked for.
Woken-asked : (a : Answers) (b c : Batch) → Woken (found a ++ unfound a) b c → Woken (asked a) b c
Woken-asked a b c w = record {
  count = omega (arith, w.count, length-asked a);
  kept = λ x n m. w.kept x (has_key-append x (found a) (unfound a) ∙ sym (has_key-asked x a) ∙ n) m;
  still = w.still;
}

-- What `_maybe_signal_termination` leaves.
abbrev pub signalled : Batch → Batch
signalled b = elim b.ops [ [] ↦ record b { finished = true } | o ∷ ops ↦ b ]

with_end :
    (keys : List Bytes) (b c : Batch) (f : Bool)
    → Woken keys b c
    → Woken keys b (record c { finished = f })
with_end keys b c f w = record { count = w.count; kept = w.kept; still = w.still }

pub signalled-Woken :
    (keys : List Bytes) (b c : Batch) → Woken keys b c → Woken keys b (signalled c)
signalled-Woken keys b c w = go c.ops
  where
    go : (ops : Ops) → Woken keys b (elim ops [ [] ↦ record c { finished = true } | o ∷ rest ↦ c ])
    go [] = with_end keys b c true w
    go (o ∷ rest) = w

pub signalled-nil : (c : Batch) → c.ops ≡ [] → signalled c ≡ record c { finished = true }
signalled-nil c e =
    ap (λ (ops : Ops). elim ops [ [] ↦ record c { finished = true } | o ∷ rest ↦ c ]) e

-- A task whose response has come.
pub task_answered :
    (a : Answers) (flags cas : List (Option ℤ)) (b : Batch)
    → Distinct (asked a)
    → Present b (asked a)
    → (c : Batch) × (batch_results false false (asked a) (found a) (values a) flags cas b
        ≡ running (signalled c))
      × Woken (asked a) b c
unfolding batch_results maybe_signal_termination continue_with
task_answered a flags cas b d p =
    let told = Told-found a d in
    let (c, e, v) =
      wake_returned-Wakes a [] (column flags) (column cas) b (Distinct-found a d)
        (All-found (λ k. has_key k (op_keys b.ops) ≡ true) a p) in
    let (z, q, w) = wake_missing-Wakes (found a) a c told (Distinct-unfound a d) (
      Present-Woken (found a) b c (unfound a) v (unfound-Told (found a) a told)
        (All-unfound (λ k. has_key k (op_keys b.ops) ≡ true) a p)) in
    (
      z,
      ap
            (λ r.
              continue_with (continue_with r (wake_missing (found a) (asked a)))
                maybe_signal_termination)
            e
          ∙ ap (λ r. continue_with r maybe_signal_termination) q,
      Woken-asked a b z (Woken-append (found a) (unfound a) b c z v w),
    )

-- A task that ran into its timeout.
pub task_timed_out :
    (keys : List Bytes) (b : Batch)
    → Distinct keys
    → Present b keys
    → (c : Batch) × (batch_timeout keys b ≡ running (signalled c)) × Woken keys b c
unfolding batch_timeout maybe_signal_termination continue_with
task_timed_out keys b d p =
    let (c, e, w) = fail_all-Wakes keys b d p in
    (c, ap (λ r. continue_with r maybe_signal_termination) e, w)
