-- ===== src/Client/Guards/Sends.antt =====
-- Which storage commands reach the network (emcache/client.py, `_storage_command`).
use emcache.Prelude.{ℕ, ◌^◌, ◌≡◌, ◌≤◌, ◌⊎◌, false, Option, none, some, [], Bytes, ℤ, pos, negsuc}
use emcache.KeyValidation.Decides.{IsKey}
use emcache.Cluster.{pick_node}
use emcache.Outcome.{returned, Outcome}
use emcache.Client.{Client}

-- The integer is at most `b`.
abbrev pub AtMost : ℕ → ℤ → Type 0
AtMost b (pos n) = n ≤ b
AtMost b (negsuc n) = Unit

-- So is the number, if there is one.
abbrev pub AtMost? : ℕ → Option ℤ → Type 0
AtMost? b none = Unit
AtMost? b (some n) = AtMost b n

module _ (murmur : Bytes → ℕ → ℕ) where
  -- The client is open, the cas number, the flags and the key are in their bounds, and the key hashes
  -- to the node.
  pub record IsAllowed (c : Client) (key : Bytes) (flags : ℤ) (cas : Option ℤ) (node : ℕ)
      : Type 0 where
    pub opened : c.closed ≡ false
    pub cas_bound : AtMost? (2 ^ 64) cas
    pub flags_bound : AtMost (2 ^ 16) flags
    pub key_rule : (key ≡ []) ⊎ IsKey key
    pub picked : pick_node murmur c.cluster key ≡ returned node
