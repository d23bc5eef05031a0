-- ===== src/Client/Life.antt =====
-- The life of a client (emcache/client.py): its construction, `close`, and its commands as values.
pub mod Closed
pub mod Undiscovered
use emcache.Prelude.{
  ℕ, Bool, true, false, not, ◌&&◌, Option, none, some, List, [], ◌∷◌, Bytes, if◌then◌else◌, ℤ,
}
use emcache.Protocol.MultiLine.{Columns}
use emcache.Cluster.{Address, Cluster}
use emcache.Cluster.Discover.{Ran, new_cluster}
use emcache.Cluster.Discover
use emcache.Outcome.{
  Error, value_error, timeout_error, Result, returned, failed, Outcome, raise, and_then, finish,
}
use emcache.Client.{Client}
use emcache.Client.Commands
use emcache.Client.Fetch
use emcache.Client.Stats
use emcache.Protocol.Discovery.{Text}

-- `_Client(...)` without autobatching.
unfoldable pub new_client : (Bytes → ℕ → ℕ) → List Address → Bool → Bool → Bool → Result Client
new_client murmur [] purge events autodiscovery = failed value_error
new_client murmur (a ∷ bs) purge events autodiscovery =
    and_then (new_cluster murmur (a ∷ bs) purge events autodiscovery)
      (λ c. returned (record { closed = false; cluster = c }))

-- The end of `create_client`: with autodiscovery it waits for the first discovery, whatever that found,
-- for a limited time.
unfoldable pub first_discovery : Bool → Client → Result Client
first_discovery autodiscovery c =
    if autodiscovery
    then elim c.cluster.first_autodiscovery_done [
      | none ↦ failed timeout_error
      | some found ↦ returned c
    ]
    else returned c

-- `create_client(...)`: `has_ssl` says whether Python has its ssl module, and `meanwhile` is what the
-- monitor of the cluster does in that time.
unfoldable pub create_client :
    (Bytes → ℕ → ℕ)
    → Bool
    → Bool
    → List Address
    → Bool
    → Bool
    → Bool
    → (Cluster → Cluster)
    → Result Client
unfolding new_client first_discovery
create_client murmur ssl has_ssl addresses purge events autodiscovery meanwhile =
    if ssl && not has_ssl
    then failed value_error
    else and_then (new_client murmur addresses purge events autodiscovery)
        (λ c. first_discovery autodiscovery (record c { cluster = meanwhile c.cluster }))

-- A client after a method, and how the method ended.
pub record Closing : Type 0 where
  pub client : Client
  pub result : Result Bool

-- `close()`.
unfoldable pub close : Client → Closing
close c =
    if c.closed
    then record { client = c; result = returned true }
    else (let ran : Ran = Discover.close c.cluster in
        record { client = record { closed = true; cluster = ran.cluster }; result = ran.result })

-- The methods that send a command, with their arguments.
pub data Command : Type 0 where
  set add replace : Bytes → Bytes → ℤ → ℤ → Bool → Command
  append prepend : Bytes → Bytes → Bool → Command
  cas : Bytes → Bytes → ℤ → ℤ → ℤ → Bool → Command
  increment decrement touch : Bytes → ℤ → Bool → Command
  delete : Bytes → Bool → Command
  flush_all cache_memlimit verbosity : Address → ℤ → Bool → Command
  version : Address → Command
  stats : Address → List Bytes → Command
  get gets : Bytes → Bool → Command
  gat gats : ℤ → Bytes → Bool → Command
  get_many gets_many : List Bytes → Bool → Command
  gat_many gats_many : ℤ → List Bytes → Bool → Command

-- What an operation sends, and whether it raises.
abbrev pub ends {ℓ} : {A : Type ℓ} → Outcome A → Outcome Bool
ends o = finish o (λ _. returned true)

module _ (decode : Bytes → Option Text) (murmur : Bytes → ℕ → ℕ) (wire : ℕ → Bytes → Result Bytes)
    (wire_many : ℕ → Bytes → Result Columns) where
  unfoldable pub execute : Client → Command → Outcome Bool
  execute c (set key value flags exptime noreply) =
      ends (Commands.set murmur wire c key value flags exptime noreply)
  execute c (add key value flags exptime noreply) =
      ends (Commands.add murmur wire c key value flags exptime noreply)
  execute c (replace key value flags exptime noreply) =
      ends (Commands.replace murmur wire c key value flags exptime noreply)
  execute c (append key value noreply) = ends (Commands.append murmur wire c key value noreply)
  execute c (prepend key value noreply) = ends (Commands.prepend murmur wire c key value noreply)
  execute c (cas key value unique flags exptime noreply) =
      ends (Commands.cas murmur wire c key value unique flags exptime noreply)
  execute c (increment key value noreply) =
      ends (Commands.increment murmur wire c key value noreply)
  execute c (decrement key value noreply) =
      ends (Commands.decrement murmur wire c key value noreply)
  execute c (touch key exptime noreply) = ends (Commands.touch murmur wire c key exptime noreply)
  execute c (delete key noreply) = ends (Commands.delete murmur wire c key noreply)
  execute c (flush_all address delay noreply) =
      ends (Commands.flush_all wire c address delay noreply)
  execute c (cache_memlimit address value noreply) =
      ends (Commands.cache_memlimit wire c address value noreply)
  execute c (verbosity address level noreply) =
      ends (Commands.verbosity wire c address level noreply)
  execute c (version address) = ends (Commands.version wire c address)
  execute c (stats address words) = ends (Stats.stats decode wire c address words)
  execute c (get key return_flags) = ends (Fetch.get murmur wire_many c key return_flags)
  execute c (gets key return_flags) = ends (Fetch.gets murmur wire_many c key return_flags)
  execute c (gat exptime key return_flags) =
      ends (Fetch.gat murmur wire_many c exptime key return_flags)
  execute c (gats exptime key return_flags) =
      ends (Fetch.gats murmur wire_many c exptime key return_flags)
  execute c (get_many keys return_flags) =
      ends (Fetch.get_many murmur wire_many c keys return_flags)
  execute c (gets_many keys return_flags) =
      ends (Fetch.gets_many murmur wire_many c keys return_flags)
  execute c (gat_many exptime keys return_flags) =
      ends (Fetch.gat_many murmur wire_many c exptime keys return_flags)
  execute c (gats_many exptime keys return_flags) =
      ends (Fetch.gats_many murmur wire_many c exptime keys return_flags)
