-- ===== src/Cluster/Discover/Unset.antt =====
-- A cluster in autodiscovery mode before a configuration has come.
use emcache.Prelude.{
  ℕ, ◌≡◌, refl, sym, ap, ◌∙◌, Bool, true, false, Option, none, List, [], ◌∷◌, Bytes, if_case, All,
}
use emcache.Outcome.{Result, returned, failed, attribute_error}
use emcache.Cluster.{Address, int_eq, Cluster, pick_node, pick_from}
use emcache.Rendezvous.{RendezvousNode}
use emcache.Cluster.Discover.{
  Answer, timed_out, broken, answered, autodiscover, use_answer, use_nodes, refuse, settle_first,
  poll, Ran, new_cluster,
}

-- The answers that leave the cluster without a configuration.
unfoldable pub brings_nothing : Answer → Bool
brings_nothing timed_out = true
brings_nothing (broken e) = true
brings_nothing (answered false version ns) = true
brings_nothing (answered true version []) = true
brings_nothing (answered true version (n ∷ ns)) = false

module _ (murmur : Bytes → ℕ → ℕ) (arrange : List Address → List Address) where
  -- `_autodiscovery_monitor` for the answers so far.
  unfoldable pub polls : Cluster → List Answer → Cluster
  polls c [] = c
  polls c (a ∷ answers) = polls (poll murmur arrange c a) answers

  use_answer-rdz :
      (c : Cluster) (a : Answer)
      → brings_nothing a ≡ true
      → (use_answer murmur arrange c a).cluster.rdz_nodes ≡ c.rdz_nodes
  unfolding use_answer use_nodes refuse settle_first brings_nothing
  use_answer-rdz c timed_out h = refl
  use_answer-rdz c (broken e) h = refl
  use_answer-rdz c (answered false version ns) h = refl
  use_answer-rdz c (answered true version []) h =
      if_case (λ (r : Ran). r.cluster.rdz_nodes ≡ c.rdz_nodes)
        (int_eq version c.autodiscover_config_version) (λ e. refl) (λ e. refl)
  use_answer-rdz c (answered true version (n ∷ ns)) h = cc

  poll-rdz :
      (c : Cluster) (a : Answer)
      → brings_nothing a ≡ true
      → (poll murmur arrange c a).rdz_nodes ≡ c.rdz_nodes
  unfolding poll autodiscover
  poll-rdz c a h =
      if_case (λ (r : Ran). r.cluster.rdz_nodes ≡ c.rdz_nodes) c.closed (λ e. refl)
        (λ e. use_answer-rdz c a h)

  pub polls-rdz :
      (c : Cluster) (answers : List Answer)
      → All (λ a. brings_nothing a ≡ true) answers
      → (polls c answers).rdz_nodes ≡ c.rdz_nodes
  unfolding polls
  polls-rdz c [] h = refl
  polls-rdz c (a ∷ answers) (e, h) = polls-rdz (poll murmur arrange c a) answers h ∙ poll-rdz c a e

  -- The list that a constructed cluster hashes over.
  unfoldable rdz_of : Result Cluster → Option (List RendezvousNode)
  rdz_of (returned c) = c.rdz_nodes
  rdz_of (failed e) = none

  -- In autodiscovery mode a cluster that has had no configuration, whatever rounds of its monitor have
  -- passed, has no attribute for the nodes that keys are sent to: `pick_node` raises AttributeError, not
  -- ClusterNoAvailableNodes.
  pub pick_node-unset :
      (a : Address) (bs : List Address) (purge events : Bool) (c : Cluster) (answers : List Answer)
      (key : Bytes)
      → new_cluster murmur (a ∷ bs) purge events true ≡ returned c
      → All (λ x. brings_nothing x ≡ true) answers
      → pick_node murmur (polls c answers) key ≡ failed attribute_error
  unfolding new_cluster pick_node pick_from rdz_of
  pick_node-unset a bs purge events c answers key made h =
      ap (pick_from murmur key) (polls-rdz c answers h ∙ sym (ap rdz_of made))
