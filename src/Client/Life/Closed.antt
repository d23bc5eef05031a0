-- ===== src/Client/Life/Closed.antt =====
-- What a closed client does.
use emcache.Prelude.{
  ℕ, ◌≡◌, refl, ap, Bool, true, Option, List, [], ◌∷◌, Bytes, if_case, if_true, ℤ,
}
use emcache.Protocol.MultiLine.{Columns}
use emcache.Outcome.{runtime_error, Result, Outcome, raise, and_then, finish}
use emcache.Client.{Client, storage_command, incr_decr_command, guarded}
use emcache.Client.Commands
use emcache.Client.Fetch.{fetch_command, get_and_touch_command, many_command}
use emcache.Client.Fetch
use emcache.Client.Stats
use emcache.Protocol.Discovery.{Text}
use emcache.Client.Life.{
  Closing, close, ends, Command, set, add, replace, append, prepend, cas, increment, decrement,
  touch, delete, flush_all, cache_memlimit, verbosity, version, stats, get, gets, gat, gats,
  get_many, gets_many, gat_many, gats_many, execute,
}

guarded-closed {ℓ} :
    {A : Type ℓ} (c : Client) (key : Bytes) (o : Outcome A)
    → c.closed ≡ true
    → guarded c key o ≡ raise runtime_error
unfolding guarded
guarded-closed c key o h = if_true c.closed _ _ h

refused {ℓ κ} :
    {A : Type ℓ} {B : Type κ} {o : Outcome A} (f : A → Result B)
    → o ≡ raise runtime_error
    → ends (finish o f) ≡ raise runtime_error
unfolding and_then
refused f e = ap (λ x. ends (finish x f)) e

close-closed : (c : Client) → (close c).client.closed ≡ true
unfolding close
close-closed c = if_case (λ (r : Closing). r.client.closed ≡ true) c.closed (λ e. e) (λ _. refl)

module _ (murmur : Bytes → ℕ → ℕ) (wire : ℕ → Bytes → Result Bytes)
    (wire_many : ℕ → Bytes → Result Columns) (c : Client) (h : c.closed ≡ true) where
  storage_command-closed :
      (command key value : Bytes) (flags exptime : ℤ) (noreply : Bool) (unique : Option ℤ)
      → storage_command murmur wire c command key value flags exptime noreply unique
        ≡ raise runtime_error
  unfolding storage_command
  storage_command-closed command key value flags exptime noreply unique = if_true c.closed _ _ h

  incr_decr_command-closed :
      (command key : Bytes) (value : ℤ) (noreply : Bool)
      → incr_decr_command murmur wire c command key value noreply ≡ raise runtime_error
  unfolding incr_decr_command
  incr_decr_command-closed command key value noreply = if_true c.closed _ _ h

  fetch_command-closed :
      (command key : Bytes) → fetch_command murmur wire_many c command key ≡ raise runtime_error
  unfolding fetch_command
  fetch_command-closed command key = guarded-closed c key _ h

  get_and_touch_command-closed :
      (command : Bytes) (exptime : ℤ) (key : Bytes)
      → get_and_touch_command murmur wire_many c command exptime key ≡ raise runtime_error
  unfolding get_and_touch_command
  get_and_touch_command-closed command exptime key = guarded-closed c key _ h

  many_command-closed :
      (request : List Bytes → Bytes) (keys : List Bytes)
      → many_command murmur wire_many c request keys ≡ raise runtime_error
  unfolding many_command
  many_command-closed request [] = if_true c.closed _ _ h
  many_command-closed request (key ∷ keys) = if_true c.closed _ _ h

  execute-closed :
      (decode : Bytes → Option Text) (command : Command)
      → execute decode murmur wire wire_many c command ≡ raise runtime_error
  unfolding execute Commands.set Commands.add Commands.replace Commands.append Commands.prepend
      Commands.cas Commands.increment Commands.decrement Commands.touch Commands.delete
      Commands.flush_all Commands.cache_memlimit Commands.verbosity Commands.version Stats.stats
      Fetch.get Fetch.gets Fetch.gat Fetch.gats Fetch.get_many Fetch.gets_many Fetch.gat_many
      Fetch.gats_many and_then
  execute-closed decode (set key value flags exptime noreply) =
      refused _ (storage_command-closed _ key value flags exptime noreply _)
  execute-closed decode (add key value flags exptime noreply) =
      refused _ (storage_command-closed _ key value flags exptime noreply _)
  execute-closed decode (replace key value flags exptime noreply) =
      refused _ (storage_command-closed _ key value flags exptime noreply _)
  execute-closed decode (append key value noreply) =
      refused _ (storage_command-closed _ key value _ _ noreply _)
  execute-closed decode (prepend key value noreply) =
      refused _ (storage_command-closed _ key value _ _ noreply _)
  execute-closed decode (cas key value unique flags exptime noreply) =
      refused _ (storage_command-closed _ key value flags exptime noreply _)
  execute-closed decode (increment key value noreply) =
      refused _ (incr_decr_command-closed _ key value noreply)
  execute-closed decode (decrement key value noreply) =
      refused _ (incr_decr_command-closed _ key value noreply)
  execute-closed decode (touch key exptime noreply) = ap ends (guarded-closed c key _ h)
  execute-closed decode (delete key noreply) = ap ends (guarded-closed c key _ h)
  execute-closed decode (flush_all address delay noreply) = ap ends (if_true c.closed _ _ h)
  execute-closed decode (cache_memlimit address value noreply) = ap ends (if_true c.closed _ _ h)
  execute-closed decode (verbosity address level noreply) = ap ends (if_true c.closed _ _ h)
  execute-closed decode (version address) = ap ends (if_true c.closed _ _ h)
  execute-closed decode (stats address words) = ap ends (if_true c.closed _ _ h)
  execute-closed decode (get key return_flags) = refused _ (fetch_command-closed _ key)
  execute-closed decode (gets key return_flags) = refused _ (fetch_command-closed _ key)
  execute-closed decode (gat exptime key return_flags) =
      refused _ (get_and_touch_command-closed _ exptime key)
  execute-closed decode (gats exptime key return_flags) =
      refused _ (get_and_touch_command-closed _ exptime key)
  execute-closed decode (get_many keys return_flags) = refused _ (many_command-closed _ keys)
  execute-closed decode (gets_many keys return_flags) = refused _ (many_command-closed _ keys)
  execute-closed decode (gat_many exptime keys return_flags) =
      refused _ (many_command-closed _ keys)
  execute-closed decode (gats_many exptime keys return_flags) =
      refused _ (many_command-closed _ keys)

-- After `close`, and whether closing the cluster went well or not, none of the client's commands sends
-- anything: each raises RuntimeError, whatever its arguments, the hashing, the decoding and the servers.
pub close-refuses :
    (decode : Bytes → Option Text) (murmur : Bytes → ℕ → ℕ) (wire : ℕ → Bytes → Result Bytes)
    (wire_many : ℕ → Bytes → Result Columns) (c : Client) (command : Command)
    → execute decode murmur wire wire_many (close c).client command ≡ raise runtime_error
close-refuses decode murmur wire wire_many c command =
    execute-closed murmur wire wire_many (close c).client (close-closed c) decode command
