-- ===== src/Client/Stats.antt =====
-- The command `stats` (emcache/client.py). The reply is decoded by `decode`, and its items are found by
-- the regular expression `STAT (.+) (.+)\r\n`, whose groups do not reach over the end of a line.
pub mod RoundTrip
use mathlib.Core.List.{reverse}
use emcache.Prelude.{
  ℕ, zero, suc, Bool, true, false, Option, none, some, List, [], ◌∷◌, Bytes, codes, bytes_eq,
  length, ◌==◌, if◌then◌else◌, ◌++◌,
}
use emcache.Protocol.Encode.{stats_data}
use emcache.Protocol.Discovery.{Text, ends_with, without_prefix}
use emcache.Cluster.{Address, Node, nodes, find_node}
use emcache.Outcome.{
  runtime_error, value_error, command_error, Result, returned, failed, Outcome, raise, and_then,
  finish,
}
use emcache.Client.{Client, ask, on_node}

-- What stands before the first `sep`, and what behind it.
unfoldable pub split_first : ℕ → Text → Option (Text × Text)
split_first sep [] = none
split_first sep (c ∷ s) =
    let rest = split_first sep s in
    if c == sep then some ([], s) else elim rest [ none ↦ none | some (p, q) ↦ some (c ∷ p, q) ]

-- The first group takes all that it can: it ends at the last space that leaves something for the
-- second. The line is given from its end, without the carriage return.
unfoldable pub first_group : Text → Text × Text → Option (Text × Text)
first_group second (p, []) = none
first_group second (p, c ∷ q) = some (reverse (c ∷ q), reverse (second ++ p))

unfoldable pub backwards : Text → Option (Text × Text)
unfolding split_first first_group
backwards [] = none
backwards (y ∷ ys) = elim (split_first 32 ys) [ none ↦ none | some pq ↦ first_group (y ∷ []) pq ]

-- The groups of a line without its newline.
unfoldable pub groups : Text → Option (Text × Text)
unfolding backwards
groups [] = none
groups (c ∷ s) = if c == 13 then backwards s else none

-- The match at the start of a text, with what follows it.
unfoldable pub match_line : Text × Text → Option ((Text × Text) × Text)
unfolding groups
match_line (line, rest) = elim (groups (reverse line)) [ none ↦ none | some g ↦ some (g, rest) ]

unfoldable pub match_stat : Text → Option ((Text × Text) × Text)
unfolding without_prefix split_first match_line
match_stat s = elim (without_prefix (codes "STAT ") s) [
  | none ↦ none
  | some t ↦ elim (split_first 10 t) [ none ↦ none | some lr ↦ match_line lr ]
]

-- `re.finditer`, with more fuel than the text has characters: each round takes some away.
unfoldable pub find_stats : ℕ → Text → List (Text × Text)
unfolding match_stat
find_stats zero s = []
find_stats (suc fuel) [] = []
find_stats (suc fuel) (c ∷ s) = elim (match_stat (c ∷ s)) [
  | none ↦ find_stats fuel s
  | some (g, rest) ↦ g ∷ find_stats fuel rest
]

-- `dict(...)`: a name that comes again keeps its place and takes the later value.
unfoldable pub set_stat : Text → Text → List (Text × Text) → List (Text × Text)
set_stat n v [] = (n, v) ∷ []
set_stat n v ((m, w) ∷ d) = if bytes_eq n m then (m, v) ∷ d else (m, w) ∷ set_stat n v d

unfoldable pub dict_from : List (Text × Text) → List (Text × Text) → List (Text × Text)
unfolding set_stat
dict_from d [] = d
dict_from d ((n, v) ∷ l) = dict_from (set_stat n v d) l

module _ (decode : Bytes → Option Text) where
  -- The `UnicodeDecodeError` is a `ValueError`.
  unfoldable pub decoded_stats : Option Text → Result (List (Text × Text))
  unfolding find_stats dict_from
  decoded_stats none = failed value_error
  decoded_stats (some text) = returned (dict_from [] (find_stats (suc (length text)) text))

  -- What the command makes of its reply; an empty one does not end in "END" either.
  unfoldable pub stats_result : Option Bytes → Result (List (Text × Text))
  unfolding decoded_stats ends_with
  stats_result none = failed command_error
  stats_result (some r) =
      if ends_with (codes "END") r then decoded_stats (decode r) else failed command_error

  -- `stats(address, *args)`.
  unfoldable pub stats :
      (ℕ → Bytes → Result Bytes) → Client → Address → List Bytes → Outcome (List (Text × Text))
  unfolding stats_result ask on_node find_node and_then
  stats wire c address args =
      if c.closed
      then raise runtime_error
      else on_node
          (and_then (find_node address (nodes c.cluster)) (λ (n : Node). returned n.identity))
          (λ node. finish (ask wire false (stats_data args) node) stats_result)
