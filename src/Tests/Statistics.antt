-- ===== src/Tests/Statistics.antt =====
-- The statistics of a server.
use emcache.Prelude.{refl, ◌≡◌, ◌≢◌, arith, ℕ, Bytes, bytes_eq, All, List, some, [], ◌∷◌, codes}
use emcache.Outcome.{Result, returned}
use emcache.Protocol.Encode.{stats_data}
use emcache.Protocol.Discovery.{Text}
use emcache.Cluster.{find_node}
use emcache.Client.Stats.{find_stats, stats}
use emcache.Client.Stats.RoundTrip.{Stat, IsStat, stat_lines, pairs, stats-lines}
use emcache.Tests.Values.{node_a, client}

-- A server that answers every request with the same line.
abbrev says : Bytes → ℕ → Bytes → Result Bytes
says line node request = returned line

-- The first group takes all but the last word.
abbrev answer : Text
answer = codes "STAT pid 12\r\nSTAT a name 7\r\nEND"

find_stats-answer :
    find_stats 40 answer ≡ (codes "pid", codes "12") ∷ (codes "a name", codes "7") ∷ []
unfolding find_stats
find_stats-answer = refl

abbrev listed : List Stat
listed =
    record { name = codes "pid"; value = codes "12" }
    ∷ record { name = codes "a name"; value = codes "7" }
    ∷ []

listed-IsStat : All IsStat listed
listed-IsStat =
    let pid : IsStat (record { name = codes "pid"; value = codes "12" }) = record {
      named = λ e. cc;
      valued = λ e. cc;
      name_line = omega arith;
      value_line = omega arith;
      value_word = omega arith;
    } in
    let a_name : IsStat (record { name = codes "a name"; value = codes "7" }) = record {
      named = λ e. cc;
      valued = λ e. cc;
      name_line = omega arith;
      value_line = omega arith;
      value_word = omega arith;
    } in
    (pid, (a_name, tt))

differ : codes "a name" ≢ codes "pid"
differ e = cc

stats-lines_example :
    stats some (says answer) client node_a.memcached_host_address (codes "items" ∷ [])
    ≡ record { sent = (7, stats_data (codes "items" ∷ [])) ∷ []; result = returned (pairs listed) }
unfolding find_node stat_lines bytes_eq
stats-lines_example =
    stats-lines some (says answer) client node_a.memcached_host_address (codes "items" ∷ []) node_a
      (codes "STAT pid 12\r\nSTAT a name 7\r\n") listed refl refl refl refl listed-IsStat
      ((differ, tt), (tt, tt))
