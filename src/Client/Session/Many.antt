-- ===== src/Client/Session/Many.antt =====
-- `get_many` over the connections to the servers of several nodes.
use emcache.Prelude.{
  ℕ, ◌≡◌, refl, ◌≢◌, sym, ap, ◌∙◌, Bool, true, false, Option, none, some, List, [], ◌∷◌, Bytes,
  codes, All, map,
}
use mathlib.Core.List.Permᴰ
use emcache.KeyValidation.Decides.{IsKey, IsKey-valid}
use emcache.Protocol.Encode.{fetch_data}
use emcache.Protocol.Encode.Framing.{key-IsWord}
use emcache.Protocol.Encode.Requests.{read_request-fetch_data}
use emcache.Protocol.Discovery.{Text}
use emcache.Protocol.Feeding.{NotEarly}
use emcache.Protocol.MultiLine.{Columns, no_columns, ends_end}
use emcache.Protocol.MultiLine.RoundTrip.{Found, IsSendable, with_items}
use emcache.Protocol.Connection.{Connection}
use emcache.Rendezvous.{RendezvousNode, node_selection}
use emcache.Cluster.{pick_node, pick_from, selected, pick_nodes, pick_groups}
use emcache.Outcome.{Result, returned, failed, and_then}
use emcache.Client.{Client}
use emcache.Client.Fetch.{Item, all_valid, gather, on_groups, many_command, get_many}
use emcache.Client.Many.{stored_all, many_items-stored}
use emcache.Autobatching.Finish.Shuffles.{All-Permᴰ}
use emcache.Autobatching.Finish.Grouped.{keys_in-pick_nodes}
use emcache.Client.Session.{answer_pieces, columns_wire}
use emcache.Client.Session.RoundTrip.{IsCut, columns_wire-items, get_request_IsToken}
use emcache.Client.Session.Groups.{IsGroup, pick_groups-IsGroup}
use emcache.Client.Session.Dictionary.{
  add_held, held_items, AnswersMany, item_under, item_held, IsRight, IsServed, responses_of,
  responses-IsRight,
}

module _ {S : Type 0} (serve : S → Bytes → S × Bytes) (held : S → Bytes → Option (Bytes × ℕ))
    (server : AnswersMany serve held) where
  add_held-IsSendable :
      (s : S) (key : Bytes) (o : Option (Bytes × ℕ)) (fs : List Found)
      → held s key ≡ o
      → IsKey key
      → All IsSendable fs
      → All IsSendable (add_held key o fs)
  add_held-IsSendable s key none fs e k h = h
  add_held-IsSendable s key (some (value, flags)) fs e k h =
      (record { word = key-IsWord key k; small = server.item_size s key value flags e }, h)

  held_items-IsSendable :
      (s : S) (keys : List Bytes) → All IsKey keys → All IsSendable (held_items (held s) keys)
  held_items-IsSendable s [] h = tt
  held_items-IsSendable s (key ∷ keys) h =
      add_held-IsSendable s key (held s key) (held_items (held s) keys) refl h.0
        (held_items-IsSendable s keys h.1)

-- What a client finds under a key: the item of the server of the key's node.
unfoldable pub item_at_node :
    {S : Type 0}
    → (S → Bytes → Option (Bytes × ℕ))
    → (ℕ → S)
    → Bool
    → Result ℕ
    → Bytes
    → Option Item
item_at_node held servers return_flags (returned node) key =
    item_held return_flags (held (servers node) key)
item_at_node held servers return_flags (failed e) key = none

all_valid-IsKey : (keys : List Bytes) → All IsKey keys → all_valid keys ≡ true
unfolding all_valid
all_valid-IsKey [] h = refl
all_valid-IsKey (key ∷ keys) h = rw (IsKey-valid key h.0) (all_valid-IsKey keys h.1)

module _ (before : ℕ) (heap : ℕ → ℕ) (decode : Bytes → Option Text) {S : Type 0}
    (serve : S → Bytes → S × Bytes) (held : S → Bytes → Option (Bytes × ℕ))
    (server : AnswersMany serve held) (cut : Bytes → Bytes × List Bytes) (uncut : IsCut cut)
    (connection : ℕ → Connection) (servers : ℕ → S)
    (whole : (node : ℕ) (request : Bytes)
      → NotEarly ends_end [] (answer_pieces serve cut servers node request))
    (murmur : Bytes → ℕ → ℕ) where
  abbrev wire : ℕ → Bytes → Result Columns
  wire = columns_wire before heap decode serve cut connection servers

  group_wire :
      (node : ℕ) (keys : List Bytes)
      → keys ≢ []
      → All IsKey keys
      → wire node (fetch_data (codes "get") keys)
        ≡ returned (with_items no_columns (held_items (held (servers node)) keys))
  group_wire node [] n k = absurd (n refl)
  group_wire node (key ∷ keys) n k =
      let request = fetch_data (codes "get") (key ∷ keys) in
      columns_wire-items before heap decode serve cut uncut connection servers node request
        (held_items (held (servers node)) (key ∷ keys))
        (held_items-IsSendable serve held server (servers node) (key ∷ keys) k)
        (server.items_answered (servers node) request key keys
          (read_request-fetch_data (codes "get") key keys get_request_IsToken k))
        (whole node request)

  All-IsKey :
      (nodes : List RendezvousNode) (node : ℕ) (keys : List Bytes)
      → All (λ k. IsKey k × (node_selection murmur k nodes ≡ some node)) keys
      → All IsKey keys
  All-IsKey nodes node [] h = tt
  All-IsKey nodes node (k ∷ keys) h = (h.0.0, All-IsKey nodes node keys h.1)

  gathered :
      (nodes : List RendezvousNode) (groups : List (ℕ × List Bytes))
      → All (IsGroup murmur IsKey nodes) groups
      → (gather wire (fetch_data (codes "get")) groups).result
        ≡ returned (map (with_items no_columns) (responses_of (λ n. held (servers n)) groups))
  unfolding gather and_then
  gathered nodes [] h = refl
  gathered nodes ((node, keys) ∷ groups) h =
      rw (group_wire node keys h.0.0 (All-IsKey nodes node keys h.0.1), gathered nodes groups h.1)
        refl

  module _ (c : Client) (opened : c.closed ≡ false) (nodes : List RendezvousNode)
      (set : c.cluster.rdz_nodes ≡ some nodes) (rf : Bool) where
    abbrev wanted : Bytes → Option Item
    wanted key = item_at_node held servers rf (pick_node murmur c.cluster key) key

    picked :
        (key : Bytes) (node : ℕ)
        → node_selection murmur key nodes ≡ some node
        → pick_node murmur c.cluster key ≡ returned node
    unfolding pick_node pick_from selected
    picked key node e = ap (pick_from murmur key) set ∙ ap selected e

    group-IsServed :
        (node : ℕ) (keys : List Bytes)
        → All (λ k. IsKey k × (node_selection murmur k nodes ≡ some node)) keys
        → IsServed wanted rf (λ n. held (servers n)) (node, keys)
    unfolding item_at_node
    group-IsServed node [] h = tt
    group-IsServed node (k ∷ keys) h = (
      ap (λ r. item_at_node held servers rf r k) (picked k node h.0.1),
      group-IsServed node keys h.1,
    )

    groups-IsServed :
        (groups : List (ℕ × List Bytes))
        → All (IsGroup murmur IsKey nodes) groups
        → All (IsServed wanted rf (λ n. held (servers n))) groups
    groups-IsServed [] h = tt
    groups-IsServed ((node, keys) ∷ groups) h =
        (group-IsServed node keys h.0.1, groups-IsServed groups h.1)

    get_many-stored :
        (key : Bytes) (keys : List Bytes) (groups : List (ℕ × List Bytes))
        → All IsKey (key ∷ keys)
        → pick_nodes murmur c.cluster (key ∷ keys) ≡ returned groups
        → All (IsGroup murmur IsKey nodes) groups
        → (get_many murmur wire c (key ∷ keys) rf).result
          ≡ returned (stored_all rf false (responses_of (λ n. held (servers n)) groups) [])
    unfolding get_many many_command on_groups and_then
    get_many-stored key keys groups k p h =
        rw (opened, all_valid-IsKey (key ∷ keys) k, p, gathered nodes groups h)
          (many_items-stored rf false (responses_of (λ n. held (servers n)) groups) [])

    -- `get_many` of valid keys by an open client, over its connections to servers that keep memcached's
    -- protocol, on several nodes: if the keys can be distributed, it returns a dictionary that has for
    -- each of the keys exactly what the server of the key's own node holds, with the flags if they are
    -- asked for, and nothing for a key without an item. The answers may be cut into pieces, of which none
    -- but the last of each makes the text so far end in "END\r\n".
    pub get_many-held :
        (key : Bytes) (keys : List Bytes) (groups : List (ℕ × List Bytes))
        → All IsKey (key ∷ keys)
        → pick_nodes murmur c.cluster (key ∷ keys) ≡ returned groups
        → (results : List (Bytes × Item)) × ((get_many murmur wire c (key ∷ keys) rf).result
            ≡ returned results)
          × All (λ k. item_under k results ≡ wanted k) (key ∷ keys)
    unfolding pick_nodes
    get_many-held key keys groups k p =
        let formed =
          pick_groups-IsGroup murmur IsKey key keys nodes groups k
            (ap (pick_groups murmur (key ∷ keys)) (sym set) ∙ p) in
        let results = stored_all rf false (responses_of (λ n. held (servers n)) groups) [] in
        (
          results,
          get_many-stored key keys groups k p formed,
          All-Permᴰ (IsRight wanted rf results)
              (Permᴰ.symm (keys_in-pick_nodes murmur c.cluster (key ∷ keys) groups p))
              (responses-IsRight wanted rf (λ n. held (servers n)) groups []
                (groups-IsServed groups formed) (λ x z. sym z)),
        )
