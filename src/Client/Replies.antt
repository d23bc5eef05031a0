-- ===== src/Client/Replies.antt =====
-- What the replies of the server become.
use emcache.Prelude.{
  bytes_eq_differ, ℕ, ◌≡◌, refl, ◌≢◌, sym, subst, ◌⊎◌, inl, inr, arith, false, not, Option, none,
  some, Bytes, codes, bytes_eq, bytes_eq→eq, if_case, ℤ, pos, ltb_ℤ,
}
use emcache.KeyValidation.Decides.{IsKey}
use emcache.Protocol.Encode.{storage_data}
use emcache.Cluster.{pick_node}
use emcache.Outcome.{Result, returned, failed, Outcome, not_stored, storage_command_error, and_then}
use emcache.Client.{Client, ask, cas_too_high}
use emcache.Client.Commands.{is_reply, stored_unless, add, cas}
use emcache.Client.Guards.{storage_command-accepts}

-- The three ways out of a conditional storage command that waits for the reply.
abbrev pub Classified : Bytes → Bytes → Result {0} Unit → Type 0
Classified refusal r o =
    ((r ≡ codes "STORED") × (o ≡ returned tt))
    ⊎ ((r ≡ refusal) × (o ≡ failed not_stored))
    ⊎ ((r ≢ codes "STORED") × (r ≢ refusal) × (o ≡ failed storage_command_error))

stored_unless-Classified :
    (refusal r : Bytes) → Classified refusal r (stored_unless refusal false (some r))
unfolding stored_unless is_reply
stored_unless-Classified refusal r =
    if_case (Classified refusal r) (bytes_eq r refusal)
      (λ h. inr (inl (bytes_eq→eq r refusal h, refl)))
      (λ h.
        if_case (Classified refusal r) (not (bytes_eq r (codes "STORED")))
          (λ k. inr (
            inr (
              bytes_eq_differ r (codes "STORED") (ground arith),
              bytes_eq_differ r refusal h,
              refl,
            )))
          (λ k. inl (bytes_eq→eq r (codes "STORED") (ground arith), refl)))

answered :
    (wire : ℕ → Bytes → Result Bytes) (o : Outcome (Option Bytes))
    (f : Option Bytes → Result {0} Unit) (request r : Bytes) (node : ℕ)
    → o ≡ ask wire false request node
    → wire node request ≡ returned r
    → and_then o.result f ≡ f (some r)
unfolding ask and_then
answered wire o f request r node e w =
    subst (λ (x : Outcome (Option Bytes)). and_then x.result f ≡ f (some r)) (sym e) (simp w)

module _ (murmur : Bytes → ℕ → ℕ) (wire : ℕ → Bytes → Result Bytes) (c : Client) (key value : Bytes)
    (flags exptime : ℤ) (node : ℕ) (r : Bytes) (opened : c.closed ≡ false)
    (small : ltb_ℤ (pos 65536) flags ≡ false) (valid : IsKey key)
    (picked : pick_node murmur c.cluster key ≡ returned node) where
  -- An `add` that passes the guards returns if the reply is STORED, raises the error for a value that
  -- was not stored if it is NOT_STORED, and the generic error for every other reply.
  pub add-Classified :
      wire node (storage_data (codes "add") key value flags exptime false none) ≡ returned r
      → Classified (codes "NOT_STORED") r (add murmur wire c key value flags exptime false).result
  unfolding add cas_too_high
  add-Classified w =
      subst (Classified (codes "NOT_STORED") r)
        (sym (
          answered wire _ (stored_unless (codes "NOT_STORED") false) _ r node
            (storage_command-accepts murmur wire c (codes "add") key value flags exptime false none
              node opened refl small valid picked)
            w))
        (stored_unless-Classified (codes "NOT_STORED") r)

  -- A `cas` with a number of at most 2 ** 64 that passes the guards returns if the reply is STORED,
  -- raises the error for a value that was not stored if it is EXISTS, and the generic error for every
  -- other reply, NOT_FOUND among them.
  pub cas-Classified :
      (unique : ℤ)
      → cas_too_high (some unique) ≡ false
      → wire node (storage_data (codes "cas") key value flags exptime false (some unique))
        ≡ returned r
      → Classified
          (codes "EXISTS")
          r
          (cas murmur wire c key value unique flags exptime false).result
  unfolding cas
  cas-Classified unique low w =
      subst (Classified (codes "EXISTS") r)
        (sym (
          answered wire _ (stored_unless (codes "EXISTS") false) _ r node
            (storage_command-accepts murmur wire c (codes "cas") key value flags exptime false
              (some unique) node opened low small valid picked)
            w))
        (stored_unless-Classified (codes "EXISTS") r)
