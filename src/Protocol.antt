-- ===== src/Protocol.antt =====
-- emcache/protocol.py and the response parsers of emcache/_cython/protocol/ascii.
pub mod Text
pub mod Encode
pub mod Feeding
pub mod OneLine
pub mod MultiLine
pub mod Discovery
pub mod Connection
pub mod Create
