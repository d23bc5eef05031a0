-- ===== src/Lib.antt =====
-- emcache is a client of memcached for asyncio. A command of the client (emcache/client.py) checks its
-- arguments, asks the cluster (emcache/cluster.py) for the node that serves the key, takes a
-- connection from the node's pool (emcache/connection_pool.py), writes a request
-- (emcache/protocol.py) and waits for one of the parsers of emcache/_cython/protocol to complete the
-- response. With autobatching (emcache/autobatching.py) fetches travel together.
--
-- The files, and what they model:
--   Prelude        shared names, Boolean tests, lists, byte strings, integers
--   Decimal        decimal numbers as bytes, and Python's int() on bytes
--   KeyValidation  emcache/_cython/key_validation.pyx
--   Protocol       Encode: the requests of emcache/protocol.py; OneLine, MultiLine
--                  and Discovery: the parsers; Connection: one connection with its command in flight; Create: how it is set up
--   Rendezvous     emcache/_cython/hashing/rendezvous.pyx
--   Outcome        the exceptions of emcache/client_errors.py, and requests sent
--   Cluster        the node lists, the health callback and the choice of nodes; Discover: its
--                  construction, autodiscovery and close
--   Node           emcache/node.py, between a pool and the cluster; Management: ClusterManagment
--   Timeout        emcache/timeout.py
--   Client         the commands: Commands for one-line replies, Fetch for items; Life: construction
--                  and close; Guards: which requests are sent, and how a server reads them; Routing: get and gets with autobatching; Stats: stats and its regular
--                  expression; Session: commands over their connections, to servers that
--                  keep memcached's protocol
--   Autobatching   the batches of one loop iteration; Found, Resolved and Settled: what becomes of their futures;
--                  Sending: from `execute` to their tasks; Finish: the tasks together, to their end
--   Pool           the connection pool: State, Create, Methods and Metrics are its code,
--                  Events what can happen
--   Tests          the theorems at concrete inputs
-- Functions have the names of the source, without a leading underscore.
--
-- Bytes are natural numbers; machine integers keep their wrap-around where the source has them.
-- Python integers are unbounded. Lengths and the positions of the parsers are below 2 ^ 31, as the
-- `cdef int` variables want. How memcached reads a request is told by `read_request`
-- (Protocol/Encode/Framing.antt): a line up to an LF, its words between runs of blanks. A
-- coroutine runs without interruption between two awaits, so the pool is a function from states and
-- events to states, and every interleaving is a sequence of events.
--
-- Fuel: the loop of the multi-line parser has the buffer's length, the loop that takes an unused
-- connection and the one that closes them have the number of unused connections, the cutting of keys
-- into batches has the number of keys, and the search of a regular expression has more than the
-- characters of the text. Each round makes the bound smaller.
--
-- Parameters: MurmurHash3 (`murmur`), the memory behind a parser's buffer (`heap`) and in front of
-- it (`before`), the server behind a connection (`wire`, `wire_many`; in Session `serve`, whose
-- answers the network cuts by `cut`), the UTF-8 decoder (`decode`), Python's ssl module and event
-- loop (`ssl`, `loop`), and the order in which Python goes through a set (`arrange`).
--
-- Not modelled: a response whose announced size takes the position of the multi-line parser, a C int, to
-- 2 ^ 31 or beyond; writing on a connection that has no transport yet; sockets, what TLS does on the wire, logging, the random choice of the node that is
-- asked for the configuration, and the abstract classes.
pub mod Prelude
pub mod Decimal
pub mod KeyValidation
pub mod Protocol
pub mod Rendezvous
pub mod Pool
pub mod Outcome
pub mod Cluster
pub mod Client
pub mod Autobatching
pub mod Tests
pub mod Timeout
pub mod Node
