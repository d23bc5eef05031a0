-- ===== src/Cluster/Discover/Closing.antt =====
-- The nodes that `close` closes.
use emcache.Prelude.{
  ℕ, ◌≡◌, refl, ap, ◌∙◌, arith, Bool, true, false, not, ◌&&◌, ◌||◌, List, [], Bytes, ◌∷◌, ◌++◌,
  ◌==◌, ==_refl, if_true,
}
use emcache.Outcome.{returned, failed, assertion_error, runtime_error}
use emcache.Cluster.{Address, Node, Cluster, nodes}
use emcache.Cluster.Discover.{
  Answer, Ran, is_closed, close_nodes, has_identity, distinct_nodes, close, autodiscover,
}

-- None of the nodes is closed, all of them are, and no two of them are the same.
unfoldable pub none_closed : List Node → List ℕ → Bool
unfolding is_closed
none_closed [] js = true
none_closed (n ∷ ns) js = not (is_closed n.identity js) && none_closed ns js

unfoldable pub all_closed : List Node → List ℕ → Bool
unfolding is_closed
all_closed [] js = true
all_closed (n ∷ ns) js = is_closed n.identity js && all_closed ns js

unfoldable all_distinct : List Node → Bool
unfolding has_identity
all_distinct [] = true
all_distinct (n ∷ ns) = not (has_identity n.identity ns) && all_distinct ns

has_identity-at :
    (i j : ℕ) (ns : List Node) → (i == j) ≡ true → has_identity i ns ≡ has_identity j ns
has_identity-at i j ns h = ground (arith, ap (λ x. has_identity x ns))

is_closed-at : (i j : ℕ) (js : List ℕ) → (i == j) ≡ true → is_closed i js ≡ is_closed j js
is_closed-at i j js h = ground (arith, ap (λ x. is_closed x js))

has-distinct_nodes :
    (i : ℕ) (ns : List Node) → has_identity i (distinct_nodes ns) ≡ has_identity i ns
unfolding distinct_nodes has_identity
has-distinct_nodes i [] = refl
has-distinct_nodes i (n ∷ ns) =
    ground (arith, has-distinct_nodes i ns, has_identity-at i n.identity ns)

all_distinct-distinct_nodes : (ns : List Node) → all_distinct (distinct_nodes ns) ≡ true
unfolding all_distinct distinct_nodes
all_distinct-distinct_nodes [] = refl
all_distinct-distinct_nodes (n ∷ ns) =
    ground (arith, all_distinct-distinct_nodes ns, has-distinct_nodes n.identity ns)

none_closed-cons :
    (i : ℕ) (ns : List Node) (js : List ℕ)
    → has_identity i ns ≡ false
    → none_closed ns js ≡ true
    → none_closed ns (i ∷ js) ≡ true
unfolding none_closed has_identity is_closed
none_closed-cons i [] js h k = refl
none_closed-cons i (n ∷ ns) js h k = ground (arith, none_closed-cons i ns js)

split_nodes :
    (n : Node) (ns : List Node) (js : List ℕ)
    → none_closed (n ∷ ns) js ≡ true
    → all_distinct (n ∷ ns) ≡ true
    → (is_closed n.identity js ≡ false)
      × (all_distinct ns ≡ true)
      × (none_closed ns js ≡ true)
      × (has_identity n.identity ns ≡ false)
unfolding none_closed all_distinct
split_nodes n ns js h k = (ground arith, ground arith, ground arith, ground arith)

or_later :
    (i : ℕ) (n : Node) (ns : List Node) (js : List ℕ)
    → (has_identity i ns || is_closed i (n.identity ∷ js))
      ≡ (has_identity i (n ∷ ns) || is_closed i js)
unfolding has_identity is_closed
or_later i n ns js = ground arith

-- Distinct nodes of which none is closed are all closed, with no error.
close_nodes-all :
    (ns : List Node) (c : Cluster)
    → none_closed ns c.closed_nodes ≡ true
    → all_distinct ns ≡ true
    → ((close_nodes ns c).result ≡ returned true)
      × ((i : ℕ)
          → is_closed i (close_nodes ns c).cluster.closed_nodes
            ≡ (has_identity i ns || is_closed i c.closed_nodes))
      × ((close_nodes ns c).cluster.closed ≡ c.closed)
unfolding close_nodes has_identity
close_nodes-all [] c h k = (refl, λ i. refl, refl)
close_nodes-all (n ∷ ns) c h k =
    let (opened, distinct, rest, fresh) = split_nodes n ns c.closed_nodes h k in
    let d : Cluster = record c { closed_nodes = n.identity ∷ c.closed_nodes } in
    let (done, closes, stays) =
      close_nodes-all ns d (none_closed-cons n.identity ns c.closed_nodes fresh rest) distinct in
    rw (opened, close_nodes) (done, λ i. closes i ∙ or_later i n ns c.closed_nodes, stays)

none_closed-distinct_nodes :
    (ns : List Node) (js : List ℕ)
    → none_closed ns js ≡ true
    → none_closed (distinct_nodes ns) js ≡ true
unfolding none_closed distinct_nodes
none_closed-distinct_nodes [] js h = refl
none_closed-distinct_nodes (n ∷ ns) js h = ground (arith, none_closed-distinct_nodes ns js)

all_closed-has :
    (ns : List Node) (js : List ℕ)
    → ((i : ℕ) → has_identity i ns ≡ true → is_closed i js ≡ true)
    → all_closed ns js ≡ true
unfolding all_closed has_identity
all_closed-has [] js h = refl
all_closed-has (n ∷ ns) js h =
    ground
      (arith, h n.identity, ==_refl n.identity, all_closed-has ns js (λ i e. h i (ground arith)))

-- What a closed cluster answers.
abbrev pub Finished : Cluster → Type 0
Finished c =
    ((close c).result ≡ failed assertion_error)
    × ((murmur : Bytes → ℕ → ℕ) (arrange : List Address → List Address) (a : Answer)
        → autodiscover murmur arrange c a ≡ record { cluster = c; result = failed runtime_error })

closed-Finished : (c : Cluster) → c.closed ≡ true → Finished c
unfolding close autodiscover
closed-Finished c h = (
  ap (λ (r : Ran). r.result) (if_true c.closed _ _ h),
  λ murmur arrange a. if_true c.closed _ _ h,
)

-- For a cluster that is not closed and of which no node is closed, the ones that answer configuration
-- requests included, `close` returns with every one of those nodes closed; after it a second `close`
-- fails its assertion, and `autodiscover` raises RuntimeError and changes nothing.
pub close-all :
    (c : Cluster)
    → c.closed ≡ false
    → none_closed (nodes c ++ c.discovery_nodes) c.closed_nodes ≡ true
    → ((close c).result ≡ returned true)
      × (all_closed (nodes c ++ c.discovery_nodes) (close c).cluster.closed_nodes ≡ true)
      × Finished (close c).cluster
unfolding close
close-all c opened unclosed =
    let ns = nodes c ++ c.discovery_nodes in
    let d : Cluster = record c {
      closed = true;
      events_dispatcher_task = false;
      autodiscovery_task = false;
    } in
    let (done, closes, stays) =
      close_nodes-all (distinct_nodes ns) d (none_closed-distinct_nodes ns c.closed_nodes unclosed)
        (all_distinct-distinct_nodes ns) in
    rw (opened) (
      done,
      all_closed-has ns _ (λ i e. closes i ∙ ground (arith, has-distinct_nodes i ns)),
      closed-Finished _ stays,
    )
