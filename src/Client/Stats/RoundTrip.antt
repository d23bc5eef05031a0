-- ===== src/Client/Stats/RoundTrip.antt =====
-- The items of a server's statistics are read back.
use mathlib.Core.List.{
  reverse, reverse-append, reverse-reverse, append_assoc, reverse-cons, append-nil,
}
use emcache.Prelude.{
  ℕ, zero, suc, ◌+◌, ◌≤◌, ◌≡◌, refl, ◌≢◌, sym, ap, ◌∙◌, arith, false, Option, none, some, List, [],
  ◌∷◌, ◌++◌, Bytes, codes, bytes_eq_unequal, length, length-append, All, All-snoc, All-always,
}
use emcache.Decimal.RoundTrip.{reverse-All}
use emcache.Protocol.Text.{Lacks, Lacks-append}
use emcache.Protocol.Discovery.{Text}
use emcache.Protocol.Discovery.Blanks.{without_prefix-append, ends_with-append, reverse_nonempty}
use emcache.Client.Stats.{
  split_first, first_group, backwards, groups, match_line, match_stat, find_stats, set_stat,
  dict_from, decoded_stats, stats_result, stats,
}
use emcache.Protocol.Encode.{stats_data}
use emcache.Cluster.{Address, Node, nodes, find_node}
use emcache.Outcome.{Result, returned, and_then}
use emcache.Client.{Client, ask, on_node}

pub split_first-append :
    (sep : ℕ) (p q : Text) → Lacks sep p → split_first sep (p ++ sep ∷ q) ≡ some (p, q)
unfolding split_first
split_first-append sep [] q h = ground arith
split_first-append sep (c ∷ p) q h = ground (arith, split_first-append sep p q h.1)

-- An item: the name may hold spaces, the value not.
pub record Stat : Type 0 where
  pub name : Text
  pub value : Text

pub record IsStat (s : Stat) : Type 0 where
  pub named : s.name ≢ []
  pub valued : s.value ≢ []
  pub name_line : Lacks 10 s.name
  pub value_line : Lacks 10 s.value
  pub value_word : Lacks 32 s.value

abbrev pub line_of : Stat → Text
line_of s = s.name ++ 32 ∷ (s.value ++ 13 ∷ [])

-- "STAT <name> <value>\r\n" for each item, and "END".
unfoldable pub stat_lines : List Stat → Text
stat_lines [] = codes "END"
stat_lines (s ∷ l) = codes "STAT " ++ (line_of s ++ 10 ∷ stat_lines l)

reverse-line :
    (name value : Text)
    → reverse (name ++ 32 ∷ (value ++ 13 ∷ [])) ≡ 13 ∷ (reverse value ++ 32 ∷ reverse name)
reverse-line name value =
    rw
      (
        reverse-append name (32 ∷ (value ++ 13 ∷ [])),
        reverse-cons 32 (value ++ 13 ∷ []),
        reverse-append value (13 ∷ []),
      )
      (append_assoc (13 ∷ reverse value) (32 ∷ []) (reverse name))

-- The words are found from the end of the line.
backwards-append :
    (v n : Text)
    → v ≢ []
    → n ≢ []
    → Lacks 32 v
    → backwards (v ++ 32 ∷ n) ≡ some (reverse n, reverse v)
unfolding backwards first_group
backwards-append [] n hv hn l = absurd (hv refl)
backwards-append (y ∷ ys) [] hv hn l = absurd (hn refl)
backwards-append (y ∷ ys) (c ∷ q) hv hn l =
    ap (λ r. elim r [ none ↦ none | some pq ↦ first_group (y ∷ []) pq ])
      (split_first-append 32 ys (c ∷ q) l.1)

groups-line : (s : Stat) → IsStat s → groups (reverse (line_of s)) ≡ some (s.name, s.value)
unfolding groups
groups-line s h =
    rw
      (
        reverse-line s.name s.value,
        backwards-append (reverse s.value) (reverse s.name) (reverse_nonempty s.value h.valued)
            (reverse_nonempty s.name h.named) (reverse-All (λ c. c ≢ 32) s.value h.value_word),
      )
      (rw (reverse-reverse s.name, reverse-reverse s.value) refl)

line-Lacks : (s : Stat) → IsStat s → Lacks 10 (line_of s)
line-Lacks s h =
    Lacks-append 10 s.name (32 ∷ (s.value ++ 13 ∷ [])) h.name_line
      ((omega arith, Lacks-append 10 s.value (13 ∷ []) h.value_line (omega arith, tt)))

match_stat-line :
    (s : Stat) (rest : Text)
    → IsStat s
    → match_stat (codes "STAT " ++ (line_of s ++ 10 ∷ rest)) ≡ some ((s.name, s.value), rest)
unfolding match_stat match_line
match_stat-line s rest h =
    ap
      (λ r. elim r [
        | none ↦ none
        | some t ↦ elim (split_first 10 t) [ none ↦ none | some lr ↦ match_line lr ]
      ])
      (without_prefix-append (codes "STAT ") (line_of s ++ 10 ∷ rest))
    ∙ ap (λ r. elim r [ none ↦ none | some lr ↦ match_line lr ])
        (split_first-append 10 (line_of s) rest (line-Lacks s h))
    ∙ ap (λ g. elim g [ none ↦ none | some m ↦ some (m, rest) ]) (groups-line s h)

abbrev pair : Stat → Text × Text
pair s = (s.name, s.value)

abbrev pub pairs : List Stat → List (Text × Text)
pairs [] = []
pairs (s ∷ l) = pair s ∷ pairs l

find_stats-lines :
    (fuel : ℕ) (l : List Stat)
    → All IsStat l
    → length l + 3 ≤ fuel
    → find_stats fuel (stat_lines l) ≡ pairs l
unfolding find_stats stat_lines
find_stats-lines zero l h f = absurd (omega arith)
find_stats-lines (suc zero) [] h f = absurd (omega arith)
find_stats-lines (suc (suc zero)) [] h f = absurd (omega arith)
find_stats-lines (suc (suc (suc zero))) [] h f = refl
find_stats-lines (suc (suc (suc (suc fuel)))) [] h f = refl
find_stats-lines (suc fuel) (s ∷ l) h f =
    ap
      (λ m. elim m [
        | none ↦ find_stats fuel (codes "TAT " ++ (line_of s ++ 10 ∷ stat_lines l))
        | some (g, rest) ↦ g ∷ find_stats fuel rest
      ])
      (match_stat-line s (stat_lines l) h.0)
    ∙ ap (◌∷◌ (pair s)) (find_stats-lines fuel l h.1 (omega arith))

length-stat_lines : (l : List Stat) → length l + 3 ≤ length (stat_lines l)
unfolding stat_lines
length-stat_lines [] = omega arith
length-stat_lines (s ∷ l) =
    omega (arith, length-append (line_of s) (10 ∷ stat_lines l), length-stat_lines l)

-- No two items have the same name.
abbrev pub Distinct : List Stat → Type 0
Distinct [] = Unit
Distinct (s ∷ l) = All (λ r. r.name ≢ s.name) l × Distinct l

set_stat-new :
    (n v : Text) (d : List Stat)
    → All (λ s. n ≢ s.name) d
    → set_stat n v (pairs d) ≡ pairs d ++ (n, v) ∷ []
unfolding set_stat
set_stat-new n v [] h = refl
set_stat-new n v (s ∷ d) h =
    rw (bytes_eq_unequal n s.name h.0) (ap (◌∷◌ (pair s)) (set_stat-new n v d h.1))

pairs-append : (d l : List Stat) → pairs (d ++ l) ≡ pairs d ++ pairs l
pairs-append [] l = refl
pairs-append (s ∷ d) l = ap (◌∷◌ (pair s)) (pairs-append d l)

-- Items whose names are not among those of `d`.
abbrev New : List Stat → List Stat → Type 0
New d = All (λ s. All (λ r. s.name ≢ r.name) d)

dict_from-New :
    (d l : List Stat) → New d l → Distinct l → dict_from (pairs d) (pairs l) ≡ pairs (d ++ l)
unfolding dict_from
dict_from-New d [] n h = ap pairs (sym (append-nil d))
dict_from-New d (s ∷ l) n h =
    ap (λ x. dict_from x (pairs l))
      (set_stat-new s.name s.value d n.0 ∙ sym (pairs-append d (s ∷ [])))
    ∙ dict_from-New (d ++ s ∷ []) l (All-snoc (λ (x r : Stat). x.name ≢ r.name) d s l n.1 h.0) h.1
    ∙ ap pairs (append_assoc d (s ∷ []) l)

-- The dictionary of the items that a decoded reply lists.
decoded_stats-lines :
    (decode : Bytes → Option Text) (l : List Stat)
    → All IsStat l
    → Distinct l
    → decoded_stats decode (some (stat_lines l)) ≡ returned (pairs l)
unfolding decoded_stats
decoded_stats-lines decode l h d =
    ap (λ x. returned (dict_from [] x))
      (find_stats-lines (suc (length (stat_lines l))) l h (omega (arith, length-stat_lines l)))
    ∙ ap returned (dict_from-New [] l (All-always (λ (s : Stat). Unit) (λ s. tt) l) d)

-- An open client asks the node of the address, with the words it was given, and returns what the
-- server listed: a reply of lines "STAT <name> <value>", whose names differ and whose values have no
-- blank, and of "END" becomes the dictionary of these names and values, in their order.
pub stats-lines :
    (decode : Bytes → Option Text) (wire : ℕ → Bytes → Result Bytes) (c : Client)
    (address : Address) (args : List Bytes) (node : Node) (reply : Bytes) (l : List Stat)
    → c.closed ≡ false
    → find_node address (nodes c.cluster) ≡ returned node
    → wire node.identity (stats_data args) ≡ returned (reply ++ codes "END")
    → decode (reply ++ codes "END") ≡ some (stat_lines l)
    → All IsStat l
    → Distinct l
    → stats decode wire c address args
      ≡ record { sent = (node.identity, stats_data args) ∷ []; result = returned (pairs l) }
unfolding stats stats_result ask on_node and_then
stats-lines decode wire c address args node reply l opened found replied text h d =
    rw (opened, found, replied, ends_with-append (codes "END") reply, text)
      (ap (λ r. record { sent = (node.identity, stats_data args) ∷ []; result = r })
        (decoded_stats-lines decode l h d))
