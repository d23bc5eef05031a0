-- ===== src/Cluster/Discover/Refinement.antt =====
-- A new configuration, seen as an update of two sets of addresses.
use emcache.Prelude.{
  ℕ, suc, ◌≡◌, refl, sym, ap, ◌∙◌, arith, Bool, true, false, not, ◌&&◌, ◌||◌, Bool-cases, inl, inr,
  some, List, [], ◌∷◌, ◌++◌, Bytes, bytes_eq→eq, if◌then◌else◌, if_false, ℤ, pos, negsuc, map,
}
use mathlib.Core.Path.{fun_ext}
use emcache.Cluster.{
  Address, host_address, unix_socket_path, address_eq, int_eq, Node, Cluster, nodes,
  build_rdz_nodes, traffic_nodes, rdz_node_of,
}
use emcache.Cluster.Tracking.{IsBuilt}
use emcache.Cluster.Discover.{
  has_address, distinct, without, addresses, address_of, make_nodes, kept, dropped, is_closed,
  close_nodes, settle_first, sync_nodes, apply_config, use_nodes, use_answer, answered,
  autodiscover,
}

int_eq→eq : (p q : ℤ) → int_eq p q ≡ true → p ≡ q
unfolding int_eq
int_eq→eq (pos p) (pos q) h = ground arith
int_eq→eq (negsuc p) (negsuc q) h = ground arith
int_eq→eq (pos p) (negsuc q) h = cc
int_eq→eq (negsuc p) (pos q) h = cc

address_eq→eq : (a b : Address) → address_eq a b ≡ true → a ≡ b
unfolding address_eq
address_eq→eq (host_address h p) (host_address k q) e =
    ground (arith, bytes_eq→eq h k, int_eq→eq p q)
address_eq→eq (unix_socket_path a) (unix_socket_path b) e = ap unix_socket_path (bytes_eq→eq a b e)
address_eq→eq (host_address h p) (unix_socket_path b) e = cc
address_eq→eq (unix_socket_path a) (host_address k q) e = cc

-- A predicate that addresses decide has the same value at equal addresses.
pub at_equal : (P : Address → Bool) (a b : Address) → address_eq a b ≡ true → P a ≡ P b
at_equal P a b h = ap P (address_eq→eq a b h)

has-kept :
    (a : Address) (config : List Address) (ns : List Node)
    → has_address a (addresses (kept config ns))
      ≡ (has_address a config && has_address a (addresses ns))
unfolding has_address kept
has-kept a config [] = ground arith
has-kept a config (n ∷ ns) =
    ground
      (arith, has-kept a config ns, at_equal (λ x. has_address x config) a n.memcached_host_address)

has-without :
    (a : Address) (others l : List Address)
    → has_address a (without others l) ≡ (has_address a l && not (has_address a others))
unfolding has_address without
has-without a others [] = refl
has-without a others (b ∷ l) =
    ground (arith, has-without a others l, at_equal (λ x. has_address x others) a b)

has-distinct : (a : Address) (l : List Address) → has_address a (distinct l) ≡ has_address a l
unfolding has_address distinct
has-distinct a [] = refl
has-distinct a (b ∷ l) = ground (arith, has-distinct a l, at_equal (λ x. has_address x l) a b)

addresses-make_nodes : (i : ℕ) (l : List Address) → addresses (make_nodes i l) ≡ l
unfolding make_nodes
addresses-make_nodes i [] = refl
addresses-make_nodes i (a ∷ l) = ap (◌∷◌ a) (addresses-make_nodes (suc i) l)

pub has-append :
    (a : Address) (ns ms : List Node)
    → has_address a (addresses (ns ++ ms))
      ≡ (has_address a (addresses ns) || has_address a (addresses ms))
unfolding has_address
has-append a [] ms = refl
has-append a (n ∷ ns) ms = ground (arith, has-append a ns ms)

-- The abstract cluster: which addresses are tracked as healthy, and which as unhealthy.
pub record Sets : Type 0 where
  pub healthy : Address → Bool
  pub unhealthy : Address → Bool

unfoldable pub view : Cluster → Sets
view c = record {
  healthy = λ a. has_address a (addresses c.healthy_nodes);
  unhealthy = λ a. has_address a (addresses c.unhealthy_nodes);
}

-- An address of the configuration keeps its health, and a new one is healthy; no other address stays.
abbrev pub updated : (Address → Bool) → Sets → Sets
updated config s = record {
  healthy = λ a. config a && (s.healthy a || not (s.unhealthy a));
  unhealthy = λ a. config a && s.unhealthy a;
}

Sets-ext :
    (s t : Sets)
    → ((a : Address) → s.healthy a ≡ t.healthy a)
    → ((a : Address) → s.unhealthy a ≡ t.unhealthy a)
    → s ≡ t
Sets-ext s t h u = λ i. record { healthy = fun_ext h i; unhealthy = fun_ext u i }

-- Closing nodes changes nothing but which nodes are closed.
abbrev OnlyCloses : Cluster → Cluster → Type 0
OnlyCloses c d =
    (d.healthy_nodes ≡ c.healthy_nodes)
    × (d.unhealthy_nodes ≡ c.unhealthy_nodes)
    × (d.rdz_nodes ≡ c.rdz_nodes)
    × (d.purge_unhealthy_nodes ≡ c.purge_unhealthy_nodes)
    × (d.autodiscover_config_version ≡ c.autodiscover_config_version)

close_nodes-OnlyCloses : (ns : List Node) (c : Cluster) → OnlyCloses c (close_nodes ns c).cluster
unfolding close_nodes
close_nodes-OnlyCloses [] c = (refl, refl, refl, refl, refl)
close_nodes-OnlyCloses (n ∷ ns) c = elim (Bool-cases (is_closed n.identity c.closed_nodes)) [
  | inl e ↦ rw (e, close_nodes) (refl, refl, refl, refl, refl)
  | inr e ↦
      rw (e, close_nodes)
        (close_nodes-OnlyCloses ns (record c { closed_nodes = n.identity ∷ c.closed_nodes }))
]

module _ (murmur : Bytes → ℕ → ℕ) (arrange : List Address → List Address)
    (arranged : (a : Address) (l : List Address)
      → has_address a (arrange l) ≡ has_address a l) where
  sync_nodes-updated :
      (c : Cluster) (config : List Address)
      → view (sync_nodes murmur arrange c config) ≡ updated (λ a. has_address a config) (view c)
  unfolding view sync_nodes
  sync_nodes-updated c config =
      let added = arrange (without (addresses (nodes c)) config) in
      Sets-ext _ _
        (λ a. ground (
          arith,
          has-kept a config (c.healthy_nodes ++ make_nodes c.next_node added),
          has-append a c.healthy_nodes (make_nodes c.next_node added),
          addresses-make_nodes c.next_node added,
          arranged a (without (addresses (nodes c)) config),
          has-without a (addresses (nodes c)) config,
          has-append a c.healthy_nodes c.unhealthy_nodes,
        ))
        (λ a. has-kept a config c.unhealthy_nodes)

  applied :
      (c : Cluster) (version : ℤ) (n : Bytes × Bytes × ℤ) (ns : List (Bytes × Bytes × ℤ))
      → c.closed ≡ false
      → int_eq version c.autodiscover_config_version ≡ false
      → autodiscover murmur arrange c (answered true version (n ∷ ns))
        ≡ apply_config murmur arrange c version (distinct (map address_of (n ∷ ns)))
  unfolding autodiscover use_answer use_nodes
  applied c version n ns opened changed =
      if_false c.closed _ _ opened
      ∙ if_false (int_eq version c.autodiscover_config_version) _ _ changed

  view-OnlyCloses : (c d : Cluster) → OnlyCloses c d → view d ≡ view c
  unfolding view
  view-OnlyCloses c d same =
      Sets-ext _ _ (λ a. ap (λ l. has_address a (addresses l)) same.0)
        (λ a. ap (λ l. has_address a (addresses l)) same.1)

  IsBuilt-OnlyCloses : (c d : Cluster) → OnlyCloses c d → IsBuilt murmur c → IsBuilt murmur d
  unfolding traffic_nodes
  IsBuilt-OnlyCloses c d same built =
      same.2
      ∙ built
      ∙ ap (λ l. some (map (rdz_node_of murmur) l))
          (λ i. if sym same.3 i then sym same.0 i else sym same.0 i ++ sym same.1 i)

  apply_config-updated :
      (c : Cluster) (version : ℤ) (config : List Address)
      → let d = (apply_config murmur arrange c version config).cluster in
        (view d ≡ updated (λ a. has_address a config) (view c))
        × IsBuilt murmur d
        × (d.autodiscover_config_version ≡ version)
  unfolding apply_config build_rdz_nodes settle_first
  apply_config-updated c version config =
      let settled =
        settle_first true (record (build_rdz_nodes murmur (sync_nodes murmur arrange c config)) {
          autodiscover_config_version = version;
        }) in
      let closing = dropped config c.unhealthy_nodes ++ dropped config c.healthy_nodes in
      let same = close_nodes-OnlyCloses closing settled in
      (
        view-OnlyCloses settled (close_nodes closing settled).cluster same
            ∙ (unfold view in sync_nodes-updated c config),
        IsBuilt-OnlyCloses settled (close_nodes closing settled).cluster same
            (unfold traffic_nodes in refl),
        same.4,
      )

  -- Discovery refines an update of two sets. If the cluster is open and the version is a new one, then
  -- afterwards an address of the configuration is unhealthy if it was, and healthy if it was or was
  -- not tracked; no other address is tracked; the list for the hashing is that of the new nodes; and
  -- the version is remembered. Going through a set changes nothing but the order.
  pub autodiscover-updated :
      (c : Cluster) (version : ℤ) (n : Bytes × Bytes × ℤ) (ns : List (Bytes × Bytes × ℤ))
      → c.closed ≡ false
      → int_eq version c.autodiscover_config_version ≡ false
      → let d = (autodiscover murmur arrange c (answered true version (n ∷ ns))).cluster in
        (view d ≡ updated (λ a. has_address a (map address_of (n ∷ ns))) (view c))
        × IsBuilt murmur d
        × (d.autodiscover_config_version ≡ version)
  autodiscover-updated c version n ns opened changed =
      let config = map address_of (n ∷ ns) in
      let same : (λ a. has_address a (distinct config)) ≡ (λ a. has_address a config) =
        fun_ext (λ a. has-distinct a config) in
      rw (applied c version n ns opened changed) (
        let r = apply_config-updated c version (distinct config) in
        (r.0 ∙ ap (λ p. updated p (view c)) same, r.1, r.2))
