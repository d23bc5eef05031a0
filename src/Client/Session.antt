-- ===== src/Client/Session.antt =====
-- A client, its connections and the servers together: a command of the client goes over a connection of
-- its node (emcache/protocol.py) to a server, whose answer comes back in pieces. The servers are memcached
-- and the pieces are the network's: both are parameters.
pub mod RoundTrip
pub mod Groups
pub mod Dictionary
pub mod Many
use emcache.Prelude.{ℕ, Option, none, some, List, [], ◌∷◌, Bytes, ◌==◌, if◌then◌else◌}
use emcache.Protocol.Discovery.{Text}
use emcache.Protocol.MultiLine.{Columns}
use emcache.Protocol.Feeding.{Parsed, parsed, raised, feed_all}
use emcache.Protocol.Connection.{
  Extraction, one_line_data, multi_line_data, Extracted, result, columns, configuration, Connection,
  start, resume, data_received,
}
use emcache.Outcome.{node_error, Result, returned, failed, and_then}

-- The servers after the requests of an operation.
unfoldable pub deliver : {S : Type 0} → (S → Bytes → S × Bytes) → List (ℕ × Bytes) → (ℕ → S) → ℕ → S
deliver serve [] servers n = servers n
deliver serve ((node, request) ∷ sent) servers n =
    deliver serve sent (λ m. if m == node then (serve (servers m) request).0 else servers m) n

-- The coroutine once the pieces have arrived; an exception in `data_received` leaves it waiting, and
-- what ends it then is the caller's timeout.
unfoldable pub resumed : Parsed Connection → Result (Connection × Extracted)
unfolding resume
resumed (raised e) = failed node_error
resumed (parsed c) = elim (resume c) [ none ↦ failed node_error | some r ↦ returned r ]

unfoldable pub line_result : Connection × Extracted → Result Bytes
line_result (c, result line) = returned line
line_result (c, columns cs) = failed node_error
line_result (c, configuration a v ns) = failed node_error

unfoldable pub columns_result : Connection × Extracted → Result Columns
columns_result (c, result line) = failed node_error
columns_result (c, columns cs) = returned cs
columns_result (c, configuration a v ns) = failed node_error

-- The pieces of the answer of a node's server to a request.
unfoldable pub answer_pieces :
    {S : Type 0}
    → (S → Bytes → S × Bytes)
    → (Bytes → Bytes × List Bytes)
    → (ℕ → S)
    → ℕ
    → Bytes
    → List Bytes
answer_pieces serve cut servers node request =
    (cut (serve (servers node) request).1).0 ∷ (cut (serve (servers node) request).1).1

module _ (before : ℕ) (heap : ℕ → ℕ) (decode : Bytes → Option Text) where
  -- `_extract_..._data(data)` from its call to its return.
  unfoldable pub exchange :
      Extraction → Bytes → List Bytes → Connection → Result (Connection × Extracted)
  unfolding resumed start data_received
  exchange kind request pieces c =
      resumed (feed_all (data_received before heap decode) (start kind request c) pieces)

  module _ {S : Type 0} (serve : S → Bytes → S × Bytes) (cut : Bytes → Bytes × List Bytes)
      (connection : ℕ → Connection) where
    -- What the commands with a line and the fetch commands get from a node.
    unfoldable pub line_wire : (ℕ → S) → ℕ → Bytes → Result Bytes
    unfolding exchange line_result answer_pieces and_then
    line_wire servers node request =
        and_then
          (exchange one_line_data request (answer_pieces serve cut servers node request)
            (connection node))
          line_result

    unfoldable pub columns_wire : (ℕ → S) → ℕ → Bytes → Result Columns
    unfolding exchange columns_result answer_pieces and_then
    columns_wire servers node request =
        and_then
          (exchange multi_line_data request (answer_pieces serve cut servers node request)
            (connection node))
          columns_result
