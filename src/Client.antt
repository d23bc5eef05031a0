-- ===== src/Client.antt =====
-- emcache/client.py: the guards of every command, the request that it sends, and what it makes of the
-- reply. Autobatching is off, but in Routing. `wire` and `wire_many` stand for a node's connection and the server
-- behind it: the reply line, or the columns of a fetch, or the error that comes instead. Asking a
-- node with `noreply` writes the request and waits for nothing.
pub mod Commands
pub mod Fetch
pub mod Guards
pub mod Replies
pub mod Items
pub mod Many
pub mod Life
pub mod Routing
pub mod Stats
pub mod Session
use emcache.Prelude.{
  ℕ, ◌+◌, ◌^◌, ◌<◌, ◌≡◌, refl, Bool, true, false, not, Option, none, some, List, [], ◌∷◌, ◌++◌,
  Bytes, codes, bytes_eq, if◌then◌else◌, ℤ, pos, negsuc, ltb_ℤ,
}
use emcache.KeyValidation.{is_key_valid}
use emcache.Protocol.Encode.{storage_data, incr_decr_data}
use emcache.Cluster.{Cluster, pick_node}
use emcache.Outcome.{
  Error, runtime_error, value_error, Result, returned, failed, Outcome, raise, and_then,
}

pub record Client : Type 0 where
  pub closed : Bool
  pub cluster : Cluster

abbrev pub max_allowed_flag_value : ℕ
max_allowed_flag_value = 2 ^ 16

abbrev pub max_allowed_cas_value : ℕ
max_allowed_cas_value = 2 ^ 64

-- `cas is not None and cas > MAX_ALLOWED_CAS_VALUE`.
unfoldable pub cas_too_high : Option ℤ → Bool
cas_too_high none = false
cas_too_high (some cas) = ltb_ℤ (pos max_allowed_cas_value) cas

-- One request, with its reply or with `noreply`.
unfoldable pub ask : (ℕ → Bytes → Result Bytes) → Bool → Bytes → ℕ → Outcome (Option Bytes)
ask wire noreply request node =
    if noreply then record { sent = (node, request) ∷ []; result = returned none } else record {
      sent = (node, request) ∷ [];
      result = and_then (wire node request) (λ r. returned (some r));
    }

-- The node of the key, or the exception of the choice.
unfoldable pub on_node {ℓ} : {A : Type ℓ} → Result ℕ → (ℕ → Outcome A) → Outcome A
on_node (returned node) f = f node
on_node (failed e) f = raise e

-- The guards that the commands on one key share.
unfoldable pub guarded {ℓ} : {A : Type ℓ} → Client → Bytes → Outcome A → Outcome A
guarded c key o =
    if c.closed then raise runtime_error else if is_key_valid key then o else raise value_error

module _ (murmur : Bytes → ℕ → ℕ) (wire : ℕ → Bytes → Result Bytes) where
  -- `_storage_command`.
  unfoldable pub storage_command :
      Client → Bytes → Bytes → Bytes → ℤ → ℤ → Bool → Option ℤ → Outcome (Option Bytes)
  unfolding cas_too_high ask on_node
  storage_command c command key value flags exptime noreply cas =
      if c.closed
      then raise runtime_error
      else if cas_too_high cas
      then raise value_error
      else if ltb_ℤ (pos max_allowed_flag_value) flags
      then raise value_error
      else if is_key_valid key
      then on_node (pick_node murmur c.cluster key)
          (ask wire noreply (storage_data command key value flags exptime noreply cas))
      else raise value_error

  -- `_incr_decr_command`.
  unfoldable pub incr_decr_command : Client → Bytes → Bytes → ℤ → Bool → Outcome (Option Bytes)
  unfolding ask on_node
  incr_decr_command c command key value noreply =
      if c.closed
      then raise runtime_error
      else if ltb_ℤ value (pos 0)
      then raise value_error
      else if is_key_valid key
      then on_node (pick_node murmur c.cluster key)
          (ask wire noreply (incr_decr_data command key value noreply))
      else raise value_error
