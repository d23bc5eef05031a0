-- ===== src/Protocol/MultiLine.antt =====
-- emcache/_cython/protocol/ascii/multi_line_parser.pyx, as Cython 3 compiles it: an exception leaves
-- `_parse` and `feed_data`. Positions stay below 2 ^ 31, as `cdef int` wants.
pub mod Scan
pub mod RoundTrip
pub mod Pieces
pub mod Torn
pub mod Ends
use emcache.Prelude.{
  ℕ, zero, suc, ◌+◌, ◌-◌, ◌^◌, ◌≡◌, refl, ◌≢◌, ◌≤◌, Bool, true, false, ◌&&◌, ◌||◌, Option, none,
  some, List, [], ◌∷◌, ◌++◌, arith, Bytes, codes, All, length, take, drop, get_elem?, ltb, leb,
  ◌==◌, if◌then◌else◌, bytes_eq, ℤ, pos, negsuc,
}
use emcache.Decimal.{int_of}
use emcache.Protocol.Encode.{crlf}
use emcache.Protocol.Text.{split_on}
use emcache.Protocol.Feeding.{
  Raised, Parsed, parsed, raised, invalid_state, index_error, value_error, overflow_error,
  negative_size, out_of_fuel, ◌>>=◌,
}

-- The four lists that a response is parsed into.
pub record Columns : Type 0 where
  pub keys : List Bytes
  pub values : List Bytes
  pub flags : List ℤ
  pub cas : List (Option ℤ)

abbrev pub no_columns : Columns
no_columns = record { keys = []; values = []; flags = []; cas = [] }

pub record MultiLine : Type 0 where
  pub buffer : Bytes
  pub columns : Columns
  pub done : Bool

abbrev pub new_multi_line : MultiLine
new_multi_line = record { buffer = []; columns = no_columns; done = false }

-- The local variables of `_parse`.
pub record Cursor : Type 0 where
  pub start_line_pos : ℕ
  pub current_pos : ℕ
  pub columns : Columns

-- Memory behind the buffer, from an address on.
pub fill : (ℕ → ℕ) → ℕ → ℕ → Bytes
fill heap start zero = []
fill heap start (suc n) = heap start ∷ fill heap (suc start) n

-- `c_buffer[start:start + n]`. The slice is not checked against the length of the buffer: what lies
-- behind it is read from the memory `heap`.
unfoldable pub read : (ℕ → ℕ) → Bytes → ℕ → ℕ → Bytes
unfolding fill
read heap buffer start n =
    let inside = take n (drop start buffer) in
    inside ++ fill heap (start + length inside) (n - length inside)

abbrev or_raise {ℓ} : {A : Type ℓ} → Option A → Raised → Parsed A
or_raise none e = raised e
or_raise (some a) e = parsed a

-- The conversion of a Python number to a C `int`.
to_c_int : ℤ → Parsed ℤ
to_c_int (pos n) = if ltb n (2 ^ 31) then parsed (pos n) else raised overflow_error
to_c_int (negsuc n) = if ltb n (2 ^ 31) then parsed (negsuc n) else raised overflow_error

-- `int(cas)` if the line has five words, `None` otherwise.
cas_of : List Bytes → Parsed (Option ℤ)
cas_of (a ∷ b ∷ c ∷ d ∷ e ∷ []) = do n ← or_raise (int_of e) value_error; parsed (some n)
cas_of _ = parsed none

-- A value of `value_size` bytes at `start`.
value_at : (ℕ → ℕ) → Bytes → ℕ → ℤ → Parsed Bytes
value_at heap buffer start (pos n) = parsed (read heap buffer start n)
value_at heap buffer start (negsuc n) = raised negative_size

abbrev size_of : ℤ → ℕ
size_of (pos n) = n
size_of (negsuc n) = 0

-- The body of the loop at an end of line, from the words of the line on. `current_pos + value_size` is
-- an `int` of C in the source: a size that takes it to 2 ^ 31 or beyond is outside of the model.
pub parse_words : (ℕ → ℕ) → Bytes → Cursor → List Bytes → Parsed Cursor
unfolding to_c_int cas_of value_at
parse_words heap buffer c items = do
  key ← or_raise (get_elem? items 1) index_error
  flags ← or_raise (get_elem? items 2) index_error
  size ← or_raise (get_elem? items 3) index_error
  cas ← cas_of items
  size_number ← or_raise (int_of size) value_error
  value_size ← to_c_int size_number
  flags_number ← or_raise (int_of flags) value_error
  value ← value_at heap buffer (c.current_pos + 2) value_size
  let next = c.current_pos + 2 + size_of value_size + 2
  parsed (record {
    start_line_pos = next;
    current_pos = next;
    columns = record {
      keys = c.columns.keys ++ key ∷ [];
      values = c.columns.values ++ value ∷ [];
      flags = c.columns.flags ++ flags_number ∷ [];
      cas = c.columns.cas ++ cas ∷ [];
    };
  })

pub parse_item : (ℕ → ℕ) → Bytes → Cursor → Parsed Cursor
parse_item heap buffer c =
    parse_words heap buffer c
      (split_on 32 (take (c.current_pos - c.start_line_pos) (drop c.start_line_pos buffer)))

-- One round of the loop.
unfoldable pub parse_step : (ℕ → ℕ) → Bytes → Cursor → Parsed Cursor
parse_step heap buffer c =
    if bytes_eq (take 2 (drop c.current_pos buffer)) crlf
    then parse_item heap buffer c
    else parsed (record c { current_pos = c.current_pos + 1 })

unfoldable pub parse_loop : (ℕ → ℕ) → Bytes → ℕ → Cursor → Parsed Columns
parse_loop heap buffer zero c =
    if ltb c.current_pos (length buffer - 5) then raised out_of_fuel else parsed c.columns
parse_loop heap buffer (suc fuel) c = elim (ltb c.current_pos (length buffer - 5)) [
  | true ↦ elim (parse_step heap buffer c) [
    | parsed c' ↦ parse_loop heap buffer fuel c'
    | raised e ↦ raised e
  ]
  | false ↦ parsed c.columns
]

-- `_parse(len_)`; every round moves on, so the length is enough fuel.
unfoldable pub parse : (ℕ → ℕ) → Bytes → Columns → Parsed Columns
parse heap buffer columns =
    parse_loop heap buffer (length buffer)
      (record { start_line_pos = 0; current_pos = 0; columns = columns })

-- The response ends in "END\r\n".
unfoldable pub ends_end : Bytes → Bool
ends_end buffer =
    leb 5 (length buffer) && bytes_eq (drop (length buffer - 5) buffer) (codes "END\r\n")

resolve : MultiLine → Columns → Parsed MultiLine
resolve p columns =
    if p.done then raised invalid_state else parsed (record p { columns = columns; done = true })

unfoldable pub feed_data : (ℕ → ℕ) → MultiLine → Bytes → Parsed MultiLine
unfolding resolve
feed_data heap p chunk =
    let buffer = p.buffer ++ chunk in
    if ends_end buffer
    then (do columns ← parse heap buffer p.columns; resolve (record p { buffer = buffer }) columns)
    else parsed (record p { buffer = buffer })

abbrev zeros : ℕ → ℕ
zeros k = 0

two_items : Bytes
two_items = codes "VALUE foo 0 5\r\nvalue\r\nVALUE bar 3 2 17\r\n\r\n\r\nEND\r\n"

parse_test :
    parse zeros two_items no_columns
    ≡ parsed (record {
      keys = codes "foo" ∷ codes "bar" ∷ [];
      values = codes "value" ∷ codes "\r\n" ∷ [];
      flags = pos 0 ∷ pos 3 ∷ [];
      cas = none ∷ some (pos 17) ∷ [];
    })
unfolding two_items parse parse_loop parse_step parse_item parse_words read split_on int_of bytes_eq
parse_test = refl
