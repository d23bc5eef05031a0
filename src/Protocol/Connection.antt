-- ===== src/Protocol/Connection.antt =====
-- `MemcacheAsciiProtocol` (emcache/protocol.py): one connection, with the command that is in flight on
-- it. A coroutine that awaits the future of its parser goes on once that parser has set the future.
-- There is one command in flight at a time, as the class wants. The arguments `before`, `heap` and
-- `decode` are those of the parsers.
pub mod Command
pub mod Lost
pub mod Early
use emcache.Prelude.{
  ℕ, Bool, true, false, Option, none, some, List, [], ◌∷◌, ◌++◌, Bytes, ℤ, if◌then◌else◌,
}
use emcache.Protocol.Feeding.{Parsed, parsed, raised, runtime_error}
use emcache.Protocol.OneLine.{OneLine, new_one_line, value}
use emcache.Protocol.OneLine
use emcache.Protocol.MultiLine.{MultiLine, Columns, new_multi_line}
use emcache.Protocol.MultiLine
use emcache.Protocol.Discovery.{Discovery, Text, new_discovery}
use emcache.Protocol.Discovery

pub data Parser : Type 0 where
  one_line : OneLine → Parser
  multi_line : MultiLine → Parser
  auto_discovery : Discovery → Parser

-- Which `_extract_..._data` a command goes through.
pub data Extraction : Type 0 where
  one_line_data multi_line_data autodiscovery_data : Extraction

-- What `_extract_..._data` returns.
pub data Extracted : Type 0 where
  result : Bytes → Extracted
  columns : Columns → Extracted
  configuration : Bool → ℤ → List (Text × Text × ℤ) → Extracted

-- `connected` says whether there is a transport, `written` is what was written to it.
pub record Connection : Type 0 where
  pub parser : Option Parser
  pub connected : Bool
  pub closed : Bool
  pub transport_closed : Bool
  pub written : List Bytes

-- `MemcacheAsciiProtocol()`.
abbrev pub new_connection : Connection
new_connection = record {
  parser = none;
  connected = false;
  closed = false;
  transport_closed = false;
  written = [];
}

unfoldable pub new_parser : Extraction → Parser
new_parser one_line_data = one_line new_one_line
new_parser multi_line_data = multi_line new_multi_line
new_parser autodiscovery_data = auto_discovery new_discovery

unfoldable pub connection_made : Connection → Connection
connection_made c = record c { connected = true }

-- `close()`.
unfoldable pub close : Connection → Connection
close c = if c.closed then c else record c { closed = true; transport_closed = true }

unfoldable pub connection_lost : Connection → Connection
unfolding close
connection_lost c = close c

unfoldable pub eof_received : Connection → Connection
unfolding close
eof_received c = close c

-- `_extract_..._data(data)` up to its `await`, on a connection with a transport: before `connection_made`
-- the source raises an `AttributeError` at the write, and `create_protocol` returns no such connection.
unfoldable pub start : Extraction → Bytes → Connection → Connection
unfolding new_parser
start kind request c = record c {
  parser = some (new_parser kind);
  written = c.written ++ request ∷ [];
}

-- A command with `noreply`: the request is written, and nothing is awaited.
unfoldable pub fire_and_forget : Bytes → Connection → Connection
fire_and_forget request c = record c { written = c.written ++ request ∷ [] }

-- What the coroutine takes from its parser once the future is set.
unfoldable pub extract : Parser → Option Extracted
extract (one_line p) = if p.done then some (result (value p)) else none
extract (multi_line p) = if p.done then some (columns p.columns) else none
extract (auto_discovery p) =
    if p.done then some (configuration p.autodiscovery p.version p.nodes) else none

-- The coroutine after its `await`, with the `finally` block; `none` while the future is pending.
unfoldable pub finished : Connection → Option Parser → Option (Connection × Extracted)
unfolding extract
finished c none = none
finished c (some p) = elim (extract p) [
  | none ↦ none
  | some r ↦ some (record c { parser = none }, r)
]

unfoldable pub resume : Connection → Option (Connection × Extracted)
unfolding finished
resume c = finished c c.parser

-- The coroutine is cancelled at its `await`: only the `finally` block runs.
unfoldable pub cancel : Connection → Connection
cancel c = record c { parser = none }

module _ (before : ℕ) (heap : ℕ → ℕ) (decode : Bytes → Option Text) where
  unfoldable pub feed_parser : Parser → Bytes → Parsed Parser
  feed_parser (one_line p) chunk = elim (OneLine.feed_data before p chunk) [
    | parsed q ↦ parsed (one_line q)
    | raised e ↦ raised e
  ]
  feed_parser (multi_line p) chunk = elim (MultiLine.feed_data heap p chunk) [
    | parsed q ↦ parsed (multi_line q)
    | raised e ↦ raised e
  ]
  feed_parser (auto_discovery p) chunk = elim (Discovery.feed_data decode p chunk) [
    | parsed q ↦ parsed (auto_discovery q)
    | raised e ↦ raised e
  ]

  unfoldable pub fed : Connection → Option Parser → Bytes → Parsed Connection
  fed c none chunk = raised runtime_error
  fed c (some p) chunk = elim (feed_parser p chunk) [
    | parsed q ↦ parsed (record c { parser = some q })
    | raised e ↦ raised e
  ]

  -- `data_received(data)`.
  unfoldable pub data_received : Connection → Bytes → Parsed Connection
  unfolding fed
  data_received c chunk = fed c c.parser chunk
