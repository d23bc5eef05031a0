-- ===== src/Client/Routing.antt =====
-- `get` and `gets` of a client that may have autobatching on (emcache/client.py).
use emcache.Prelude.{ℕ, ◌≡◌, refl, Bool, true, false, Option, none, some, [], Bytes, if◌then◌else◌}
use emcache.Protocol.MultiLine.{Columns}
use emcache.Outcome.{Result, Outcome}
use emcache.Client.{Client}
use emcache.Client.Fetch.{Item}
use emcache.Client.Fetch
use emcache.Autobatching.{Exception, runtime_error, pending}
use emcache.Autobatching.Sending.{Autobatching, Executed, awaiting, refused, execute}

-- The four instances that `__init__` makes.
pub record Instances : Type 0 where
  pub autobatching_noflags_nocas : Autobatching
  pub autobatching_flags_nocas : Autobatching
  pub autobatching_noflags_cas : Autobatching
  pub autobatching_flags_cas : Autobatching

abbrev pub new_autobatching : Autobatching
new_autobatching = record {
  pending_ops = [];
  scheduled = false;
  queued = false;
  futures = λ f. pending;
  next_future = 0;
  inflight_batches = [];
}

unfoldable pub new_instances : Bool → Option Instances
new_instances autobatching =
    if autobatching
    then some (record {
      autobatching_noflags_nocas = new_autobatching;
      autobatching_flags_nocas = new_autobatching;
      autobatching_noflags_cas = new_autobatching;
      autobatching_flags_cas = new_autobatching;
    })
    else none

pub record RoutedClient : Type 0 where
  pub client : Client
  pub instances : Option Instances

-- The instance for the flags and the cas number, and the instances with another in its place.
unfoldable pub instance_for : Bool → Bool → Instances → Autobatching
instance_for false false is = is.autobatching_noflags_nocas
instance_for true false is = is.autobatching_flags_nocas
instance_for false true is = is.autobatching_noflags_cas
instance_for true true is = is.autobatching_flags_cas

unfoldable pub set_instance : Bool → Bool → Autobatching → Instances → Instances
set_instance false false a is = record is { autobatching_noflags_nocas = a }
set_instance true false a is = record is { autobatching_flags_nocas = a }
set_instance false true a is = record is { autobatching_noflags_cas = a }
set_instance true true a is = record is { autobatching_flags_cas = a }

-- How a fetch goes: as a command of its own, or by a future of an instance.
pub data Fetched : Type 0 where
  asked : Outcome (Option Item) → Fetched
  batched : ℕ → Instances → Fetched
  raised : Exception → Fetched

unfoldable pub by_instance : Bool → Bool → Instances → Executed → Fetched
unfolding set_instance
by_instance return_flags return_cas is (awaiting f a) =
    batched f (set_instance return_flags return_cas a is)
by_instance return_flags return_cas is (refused e) = raised e

unfoldable pub route :
    Bool → Option Instances → Bytes → Bool → Bool → Outcome (Option Item) → Fetched
unfolding by_instance instance_for
route closed none key return_flags return_cas command = asked command
route closed (some is) key return_flags return_cas command =
    by_instance return_flags return_cas is
      (execute closed (instance_for return_flags return_cas is) key)

module _ (murmur : Bytes → ℕ → ℕ) (wire_many : ℕ → Bytes → Result Columns) where
  unfoldable pub get : RoutedClient → Bytes → Bool → Fetched
  unfolding route
  get c key return_flags =
      route c.client.closed c.instances key return_flags false
        (Fetch.get murmur wire_many c.client key return_flags)

  unfoldable pub gets : RoutedClient → Bytes → Bool → Fetched
  unfolding route
  gets c key return_flags =
      route c.client.closed c.instances key return_flags true
        (Fetch.gets murmur wire_many c.client key return_flags)

-- A fetch by an instance changes no other instance.
instance_for-set_instance :
    (return_flags return_cas flags cas : Bool) (a : Autobatching) (is : Instances)
    → (return_flags ≡ flags → return_cas ≡ cas → ⊥)
    → instance_for flags cas (set_instance return_flags return_cas a is) ≡ instance_for flags cas is
unfolding instance_for set_instance
instance_for-set_instance false false false false a is other = absurd (other refl refl)
instance_for-set_instance false false false true a is other = refl
instance_for-set_instance false false true false a is other = refl
instance_for-set_instance false false true true a is other = refl
instance_for-set_instance false true false false a is other = refl
instance_for-set_instance false true false true a is other = absurd (other refl refl)
instance_for-set_instance false true true false a is other = refl
instance_for-set_instance false true true true a is other = refl
instance_for-set_instance true false false false a is other = refl
instance_for-set_instance true false false true a is other = refl
instance_for-set_instance true false true false a is other = absurd (other refl refl)
instance_for-set_instance true false true true a is other = refl
instance_for-set_instance true true false false a is other = refl
instance_for-set_instance true true false true a is other = refl
instance_for-set_instance true true true false a is other = refl
instance_for-set_instance true true true true a is other = absurd (other refl refl)

-- A closed client refuses a fetch with autobatching too.
route-closed :
    (is : Instances) (key : Bytes) (return_flags return_cas : Bool)
    (command : Outcome (Option Item))
    → route true (some is) key return_flags return_cas command ≡ raised runtime_error
unfolding route by_instance execute
route-closed is key return_flags return_cas command = refl
