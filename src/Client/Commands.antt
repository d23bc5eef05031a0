-- ===== src/Client/Commands.antt =====
-- The commands of the client that are answered with one line (emcache/client.py).
use emcache.Prelude.{
  ℕ, Bool, false, not, ◌&&◌, Option, none, some, List, [], ◌∷◌, Bytes, codes, bytes_eq, take,
  if◌then◌else◌, ℤ, pos,
}
use emcache.Decimal.{int_of}
use emcache.Protocol.Text.{split_on}
use emcache.Protocol.Encode.{
  touch_data, delete_data, flush_all_data, version_data, cache_memlimit_data, verbosity_data,
}
use emcache.Cluster.{Address, Node, nodes, find_node, pick_node}
use emcache.Outcome.{
  runtime_error, value_error, command_error, not_found, storage_command_error, not_stored, Result,
  returned, failed, Outcome, raise, and_then, finish,
}
use emcache.Client.{Client, ask, on_node, guarded, storage_command, incr_decr_command}

-- `result == reply`, for a result that can be `None`.
unfoldable pub is_reply : Bytes → Option Bytes → Bool
is_reply reply none = false
is_reply reply (some r) = bytes_eq r reply

-- What `set` makes of its result.
unfoldable pub stored : Bool → Option Bytes → Result {0} Unit
unfolding is_reply
stored noreply r =
    if not noreply && not (is_reply (codes "STORED") r)
    then failed storage_command_error
    else returned tt

-- What the other storage commands make of theirs: `refusal` is the reply that says that the condition
-- of the command does not hold.
unfoldable pub stored_unless : Bytes → Bool → Option Bytes → Result {0} Unit
unfolding is_reply
stored_unless refusal noreply r =
    if not noreply && is_reply refusal r
    then failed not_stored
    else if not noreply && not (is_reply (codes "STORED") r)
    then failed storage_command_error
    else returned tt

-- `int(result)` of the new value.
unfoldable pub parsed_int : Option ℤ → Result (Option ℤ)
parsed_int none = failed value_error
parsed_int (some n) = returned (some n)

-- The end of `increment` and `decrement`; a command that waits for its reply never has `None`.
unfoldable pub new_value : Bool → Option Bytes → Result (Option ℤ)
unfolding parsed_int
new_value noreply none = if noreply then returned none else failed value_error
new_value noreply (some r) =
    if noreply
    then returned none
    else if bytes_eq r (codes "NOT_FOUND")
    then failed not_found
    else parsed_int (int_of r)

-- The end of `touch` and `delete`.
unfoldable pub done_unless_missing : Bytes → Bool → Option Bytes → Result {0} Unit
unfolding is_reply
done_unless_missing reply noreply r =
    if noreply
    then returned tt
    else if is_reply (codes "NOT_FOUND") r
    then failed not_found
    else if is_reply reply r
    then returned tt
    else failed command_error

-- The end of `flush_all`, `cache_memlimit` and `verbosity`.
unfoldable pub ok_or_error : Bool → Option Bytes → Result {0} Unit
unfolding is_reply
ok_or_error noreply r =
    if noreply
    then returned tt
    else if is_reply (codes "OK") r
    then returned tt
    else failed command_error

-- `_, version_value = result.split(b" ")`; the version stays encoded.
unfoldable pub version_words : List Bytes → Result Bytes
version_words [] = failed value_error
version_words (w ∷ []) = failed value_error
version_words (w ∷ v ∷ []) = returned v
version_words (w ∷ v ∷ u ∷ ws) = failed value_error

unfoldable pub version_value : Option Bytes → Result Bytes
unfolding version_words
version_value none = failed command_error
version_value (some r) =
    if bytes_eq (take 7 r) (codes "VERSION")
    then version_words (split_on 32 r)
    else failed command_error

module _ (murmur : Bytes → ℕ → ℕ) (wire : ℕ → Bytes → Result Bytes) where
  unfoldable pub set : Client → Bytes → Bytes → ℤ → ℤ → Bool → Outcome {0} Unit
  set c key value flags exptime noreply =
      finish (storage_command murmur wire c (codes "set") key value flags exptime noreply none)
        (stored noreply)

  unfoldable pub add : Client → Bytes → Bytes → ℤ → ℤ → Bool → Outcome {0} Unit
  add c key value flags exptime noreply =
      finish (storage_command murmur wire c (codes "add") key value flags exptime noreply none)
        (stored_unless (codes "NOT_STORED") noreply)

  unfoldable pub replace : Client → Bytes → Bytes → ℤ → ℤ → Bool → Outcome {0} Unit
  replace c key value flags exptime noreply =
      finish (storage_command murmur wire c (codes "replace") key value flags exptime noreply none)
        (stored_unless (codes "NOT_STORED") noreply)

  unfoldable pub append : Client → Bytes → Bytes → Bool → Outcome {0} Unit
  append c key value noreply =
      finish (storage_command murmur wire c (codes "append") key value (pos 0) (pos 0) noreply none)
        (stored_unless (codes "NOT_STORED") noreply)

  unfoldable pub prepend : Client → Bytes → Bytes → Bool → Outcome {0} Unit
  prepend c key value noreply =
      finish
        (storage_command murmur wire c (codes "prepend") key value (pos 0) (pos 0) noreply none)
        (stored_unless (codes "NOT_STORED") noreply)

  unfoldable pub cas : Client → Bytes → Bytes → ℤ → ℤ → ℤ → Bool → Outcome {0} Unit
  cas c key value unique flags exptime noreply =
      finish
        (storage_command murmur wire c (codes "cas") key value flags exptime noreply (some unique))
        (stored_unless (codes "EXISTS") noreply)

  unfoldable pub increment : Client → Bytes → ℤ → Bool → Outcome (Option ℤ)
  increment c key value noreply =
      finish (incr_decr_command murmur wire c (codes "incr") key value noreply) (new_value noreply)

  unfoldable pub decrement : Client → Bytes → ℤ → Bool → Outcome (Option ℤ)
  decrement c key value noreply =
      finish (incr_decr_command murmur wire c (codes "decr") key value noreply) (new_value noreply)

  unfoldable pub touch : Client → Bytes → ℤ → Bool → Outcome {0} Unit
  touch c key exptime noreply = guarded c key (
      on_node (pick_node murmur c.cluster key) (λ node.
        finish (ask wire noreply (touch_data key exptime noreply) node)
          (done_unless_missing (codes "TOUCHED") noreply)))

  unfoldable pub delete : Client → Bytes → Bool → Outcome {0} Unit
  delete c key noreply = guarded c key (
      on_node (pick_node murmur c.cluster key) (λ node.
        finish (ask wire noreply (delete_data key noreply) node)
          (done_unless_missing (codes "DELETED") noreply)))

-- The commands for one node, given by its address.
abbrev at_address {ℓ} : {A : Type ℓ} → Client → Address → (ℕ → Outcome A) → Outcome A
at_address c address f =
    if c.closed
    then raise runtime_error
    else on_node
        (and_then (find_node address (nodes c.cluster)) (λ (n : Node). returned n.identity)) f

module _ (wire : ℕ → Bytes → Result Bytes) where
  unfoldable pub flush_all : Client → Address → ℤ → Bool → Outcome {0} Unit
  flush_all c address delay noreply =
      at_address c address (λ node.
        finish (ask wire noreply (flush_all_data delay noreply) node) (ok_or_error noreply))

  unfoldable pub version : Client → Address → Outcome Bytes
  version c address =
      at_address c address (λ node. finish (ask wire false version_data node) version_value)

  unfoldable pub cache_memlimit : Client → Address → ℤ → Bool → Outcome {0} Unit
  cache_memlimit c address value noreply = at_address c address (λ node.
      finish (ask wire noreply (cache_memlimit_data value noreply) node) (ok_or_error noreply))

  unfoldable pub verbosity : Client → Address → ℤ → Bool → Outcome {0} Unit
  verbosity c address level noreply =
      at_address c address (λ node.
        finish (ask wire noreply (verbosity_data level noreply) node) (ok_or_error noreply))
