-- ===== src/Protocol/Discovery.antt =====
-- `AutoDiscoveryCommandParser` (emcache/protocol.py). A text is its code points; `decode` stands for
-- Python's UTF-8 decoder, `none` for its error. `int` of a text is modelled for ASCII digits.
pub mod Blanks
pub mod Respond
pub mod RoundTrip
pub mod Pieces
use emcache.Prelude.{
  ℕ, zero, suc, ◌+◌, ◌-◌, ◌≡◌, refl, Bool, true, false, ◌&&◌, ◌||◌, Option, none, some, List, [],
  ◌∷◌, ◌++◌, Bytes, codes, bytes_eq, length, take, drop, ltb, leb, ◌==◌, if◌then◌else◌, ℤ, pos,
  negsuc, pos_part,
}
use emcache.Decimal.{is_digit, strip, int_of}
use emcache.Protocol.Text.{split_on, onto_first}
use emcache.Protocol.Feeding.{Parsed, parsed, raised, invalid_state, assertion_error}

abbrev pub Text : Type 0
Text = List ℕ

-- `_future` is `done`; `nodes` holds hosts, IP addresses and ports.
pub record Discovery : Type 0 where
  pub buffer : Bytes
  pub autodiscovery : Bool
  pub version : ℤ
  pub nodes : List (Text × Text × ℤ)
  pub done : Bool

abbrev pub new_discovery : Discovery
new_discovery = record {
  buffer = [];
  autodiscovery = false;
  version = negsuc 0;
  nodes = [];
  done = false;
}

-- `s.endswith(suffix)`.
unfoldable pub ends_with : Bytes → Bytes → Bool
ends_with suffix s =
    leb (length suffix) (length s) && bytes_eq (drop (length s - length suffix) s) suffix

-- `str.isspace` of a code point.
unfoldable pub is_text_space : ℕ → Bool
is_text_space c =
    (leb 9 c && leb c 13)
    || (leb 28 c && leb c 32)
    || c == 0x85
    || c == 0xa0
    || c == 0x1680
    || (leb 0x2000 c && leb c 0x200a)
    || c == 0x2028
    || c == 0x2029
    || c == 0x202f
    || c == 0x205f
    || c == 0x3000

-- The pieces between blanks, empty ones included.
unfoldable pub split_blanks : Text → List Text
unfolding is_text_space
split_blanks [] = [] ∷ []
split_blanks (c ∷ s) =
    let rest = split_blanks s in if is_text_space c then [] ∷ rest else onto_first c rest

unfoldable pub non_empty : List Text → List Text
non_empty [] = []
non_empty ([] ∷ ws) = non_empty ws
non_empty ((c ∷ w) ∷ ws) = (c ∷ w) ∷ non_empty ws

-- `text.split()`.
unfoldable pub split_text : Text → List Text
unfolding split_blanks non_empty
split_text s = non_empty (split_blanks s)

unfoldable pub without_prefix : Bytes → Bytes → Option Bytes
without_prefix [] s = some s
without_prefix (c ∷ p) [] = none
without_prefix (c ∷ p) (d ∷ s) = if c == d then without_prefix p s else none

-- The longest run of digits, and what follows it.
unfoldable pub take_digits : Bytes → Bytes × Bytes
take_digits [] = ([], [])
take_digits (c ∷ s) =
    let (ds, rest) = take_digits s in if is_digit c then (c ∷ ds, rest) else ([], c ∷ s)

unfoldable pub match_length : Bytes × Bytes → Option (Bytes × Bytes)
unfolding without_prefix
match_length ([], rest) = none
match_length (d ∷ ds, rest) = elim (without_prefix (codes "\r\n") rest) [
  | none ↦ none
  | some body ↦ some (d ∷ ds, body)
]

-- `COMMAND_RE.search`: the digits of the group, and the buffer behind the match.
unfoldable pub match_command : Bytes → Option (Bytes × Bytes)
unfolding without_prefix take_digits match_length
match_command s = elim (without_prefix (codes "CONFIG cluster 0 ") s) [
  | none ↦ none
  | some rest ↦ match_length (take_digits rest)
]

-- The handler of every exception of `parse`, and the case of no match: what was read stays.
abbrev pub gives_up : Discovery → Discovery
gives_up p = record p { autodiscovery = false }

-- One node of the line; `none` is an `IndexError` or a `ValueError`.
unfoldable pub node_of : List Text → Option (Text × Text × ℤ)
node_of (host ∷ ip ∷ port ∷ more) = elim (int_of port) [ none ↦ none | some n ↦ some (host, ip, n) ]
node_of (host ∷ ip ∷ []) = none
node_of (host ∷ []) = none
node_of [] = none

unfoldable pub add_nodes : Discovery → List Text → Discovery
unfolding node_of
add_nodes p [] = p
add_nodes p (item ∷ items) = elim (node_of (split_on 124 item)) [
  | none ↦ gives_up p
  | some n ↦ add_nodes (record p { nodes = p.nodes ++ n ∷ [] }) items
]

module _ (decode : Bytes → Option Text) where
  -- The lines behind the version.
  unfoldable pub parse_nodes : Discovery → List Bytes → Discovery
  unfolding add_nodes split_text
  parse_nodes p [] = gives_up p
  parse_nodes p (line ∷ lines) = elim (decode line) [
    | none ↦ gives_up p
    | some text ↦ add_nodes p (split_text text)
  ]

  unfoldable pub parse_lines : Discovery → List Bytes → Discovery
  unfolding parse_nodes
  parse_lines p [] = gives_up p
  parse_lines p (line ∷ lines) = elim (int_of line) [
    | none ↦ gives_up p
    | some n ↦ parse_nodes (record p { version = n; nodes = [] }) lines
  ]

  unfoldable pub parse_body : Discovery → Bytes → Option ℤ → Discovery
  unfolding parse_lines
  parse_body p body none = gives_up p
  parse_body p body (some size) = parse_lines p (split_on 10 (strip (take (pos_part size) body)))

  -- `parse()`.
  unfoldable pub parse : Discovery → Discovery
  unfolding parse_body match_command
  parse p = elim (match_command p.buffer) [
    | none ↦ gives_up p
    | some (ds, body) ↦ parse_body p body (int_of ds)
  ]

  -- `_future.set_result(None)`.
  unfoldable pub resolve : Discovery → Parsed Discovery
  resolve p = if p.done then raised invalid_state else parsed (record p { done = true })

  -- `feed_data(buffer)`.
  unfoldable pub feed_data : Discovery → Bytes → Parsed Discovery
  unfolding parse resolve
  feed_data p chunk =
      let fed = record p { buffer = p.buffer ++ chunk } in
      if ends_with (codes "END\r\n") fed.buffer
      then resolve (parse (record fed { autodiscovery = true }))
      else if ends_with (codes "ERROR\r\n") fed.buffer
      then resolve (record fed { autodiscovery = false })
      else raised assertion_error
