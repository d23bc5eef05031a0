-- ===== src/Protocol/OneLine.antt =====
-- emcache/_cython/protocol/ascii/one_line_parser.pyx. `done` says that the parser's future has its
-- result. Lengths stay below 2 ^ 31, as `cdef int` wants.
pub mod Reply
use emcache.Prelude.{
  ℕ, zero, suc, ◌+◌, ◌-◌, ◌≡◌, refl, ◌≢◌, ◌≤◌, Bool, true, false, ◌&&◌, Option, none, some, List,
  [], ◌∷◌, ◌++◌, arith, Bytes, codes, All, length, take, drop, ◌==◌, if◌then◌else◌, bytes_eq,
}
use emcache.Protocol.Encode.{crlf}
use emcache.Protocol.Feeding.{Parsed, parsed, raised, invalid_state}

pub record OneLine : Type 0 where
  pub buffer : Bytes
  pub done : Bool

abbrev pub new_one_line : OneLine
new_one_line = record { buffer = []; done = false }

-- `strcmp(c_buffer + (len_ - 2), CRLF) == 0`. A buffer of one byte is read from the byte in front of
-- it, which the argument `before` stands for.
unfoldable pub ends_crlf : ℕ → Bytes → Bool
ends_crlf before [] = false
ends_crlf before (c ∷ []) = bytes_eq (before ∷ c ∷ []) crlf
ends_crlf before (c ∷ d ∷ s) = bytes_eq (drop (length s) (c ∷ d ∷ s)) crlf

unfoldable pub feed_data : ℕ → OneLine → Bytes → Parsed OneLine
unfolding ends_crlf
feed_data before p chunk =
    let buffer = p.buffer ++ chunk in
    if ends_crlf before buffer
    then (if p.done then raised invalid_state else parsed (record { buffer = buffer; done = true }))
    else parsed (record { buffer = buffer; done = p.done })

-- `self.buffer_[:-2]`.
unfoldable pub value : OneLine → Bytes
value p = take (length p.buffer - 2) p.buffer

-- A lone newline completes the reply exactly if the byte in front of the buffer is a CR: the read is
-- out of the buffer.
lone_newline : (ends_crlf 13 (10 ∷ []) ≡ true) × (ends_crlf 0 (10 ∷ []) ≡ false)
unfolding ends_crlf bytes_eq
lone_newline = (refl, refl)
