-- ===== src/Autobatching/Sending/Stuck.antt =====
-- An exception of `pick_nodes` in `_send_batches`.
use emcache.Prelude.{
  ℕ, ◌≡◌, refl, sym, ap, subst, ◌∙◌, Bool, true, false, List, [], ◌∷◌, Bytes, if_case, if_true,
  if_false,
}
use emcache.KeyValidation.{is_key_valid}
use emcache.Outcome.{Error, failed}
use emcache.Cluster.{Cluster, pick_nodes}
use emcache.Autobatching.Sending.{
  Autobatching, Executed, awaiting, refused, schedule, execute, op_keys, send_groups, send_batches,
  next_iteration,
}

-- What follows: a call of `execute`, or an iteration of the event loop with the cluster as it is then.
pub data Action : Type 0 where
  call : Bool → Bytes → Action
  iteration : Cluster → Bool → Action

unfoldable pub executed : Autobatching → Executed → Autobatching
executed a (awaiting f b) = b
executed a (refused e) = a

module _ (murmur : Bytes → ℕ → ℕ) (max_keys : ℕ) where
  unfoldable pub act : Autobatching → Action → Autobatching
  unfolding executed
  act a (call closed key) = executed a (execute closed a key)
  act a (iteration cluster closed) = next_iteration murmur cluster max_keys closed a

  unfoldable pub acts : Autobatching → List Action → Autobatching
  acts a [] = a
  acts a (x ∷ xs) = acts (act a x) xs

  -- The handler is set, the event loop has no callback, and nothing has happened since `b`.
  abbrev IsStuck : Autobatching → Autobatching → Type 0
  IsStuck b a =
      (a.scheduled ≡ true)
      × (a.queued ≡ false)
      × (a.futures ≡ b.futures)
      × (a.inflight_batches ≡ b.inflight_batches)

  schedule-IsStuck : (b a : Autobatching) → IsStuck b a → IsStuck b (schedule a)
  unfolding schedule
  schedule-IsStuck b a s =
      subst (IsStuck b)
        (sym (if_true a.scheduled a (record a { scheduled = true; queued = true }) s.0)) s

  act-IsStuck : (b a : Autobatching) (x : Action) → IsStuck b a → IsStuck b (act a x)
  unfolding act execute executed next_iteration
  act-IsStuck b a (call closed key) s =
      if_case (λ r. IsStuck b (executed a r)) closed (λ _. s)
        (λ _.
          if_case (λ r. IsStuck b (executed a r)) (is_key_valid key) (λ _. schedule-IsStuck b _ s)
            (λ _. s))
  act-IsStuck b a (iteration cluster closed) s =
      subst (IsStuck b) (sym (if_false a.queued _ a s.1)) s

  acts-IsStuck : (b a : Autobatching) (xs : List Action) → IsStuck b a → IsStuck b (acts a xs)
  unfolding acts
  acts-IsStuck b a [] s = s
  acts-IsStuck b a (x ∷ xs) s = acts-IsStuck b (act a x) xs (act-IsStuck b a x s)

  failing :
      (a : Autobatching) (cluster : Cluster) (e : Error)
      → a.queued ≡ true
      → pick_nodes murmur cluster (op_keys a.pending_ops) ≡ failed e
      → act a (iteration cluster false) ≡ record a { queued = false }
  unfolding act next_iteration send_batches send_groups
  failing a cluster e q f =
      if_true a.queued _ a q ∙ ap (λ r. (send_groups max_keys r (record a { queued = false })).0) f

  -- If `pick_nodes` raises when an open client's operations are to be sent, the instance is stuck for
  -- good: whatever keys are asked for afterwards, and even when the cluster has nodes again, no
  -- iteration of the event loop settles a future or starts a batch.
  pub send_batches-stuck :
      (a : Autobatching) (cluster : Cluster) (e : Error) (xs : List Action)
      → a.scheduled ≡ true
      → a.queued ≡ true
      → pick_nodes murmur cluster (op_keys a.pending_ops) ≡ failed e
      → let after = acts a (iteration cluster false ∷ xs) in
        (after.futures ≡ a.futures) × (after.inflight_batches ≡ a.inflight_batches)
  unfolding acts
  send_batches-stuck a cluster e xs s q f =
      let stuck =
        acts-IsStuck a (act a (iteration cluster false)) xs
          (subst (IsStuck a) (sym (failing a cluster e q f)) (s, refl, refl, refl)) in
      (stuck.2, stuck.3)
