-- ===== src/Client/Guards.antt =====
-- What the guards of the commands let through.
pub mod Sends
use emcache.Prelude.{ℕ, ◌≡◌, Bool, true, false, Option, Bytes, All, ℤ, pos, ltb_ℤ}
use emcache.KeyValidation.Decides.{IsKey, IsKey-valid}
use emcache.Protocol.Encode.{storage_data}
use emcache.Cluster.{pick_node}
use emcache.Outcome.{Result, returned, Outcome, raise, runtime_error}
use emcache.Client.{Client, ask, on_node, cas_too_high, storage_command}

-- Every request of an outcome has the property.
abbrev pub AllSent {ℓ} : {A : Type ℓ} → (Bytes → Type 0) → Outcome A → Type 0
AllSent P o = All (λ s. P s.1) o.sent

module _ (murmur : Bytes → ℕ → ℕ) (wire : ℕ → Bytes → Result Bytes) where
  -- An open client with a key of memcached's, flags of at most 65536 and a cas number in its bound sends the
  -- request of its arguments to the node that the key hashes to.
  pub storage_command-accepts :
      (c : Client) (command key value : Bytes) (flags exptime : ℤ) (noreply : Bool) (cas : Option ℤ)
      (node : ℕ)
      → c.closed ≡ false
      → cas_too_high cas ≡ false
      → ltb_ℤ (pos 65536) flags ≡ false
      → IsKey key
      → pick_node murmur c.cluster key ≡ returned node
      → storage_command murmur wire c command key value flags exptime noreply cas
        ≡ ask wire noreply (storage_data command key value flags exptime noreply cas) node
  unfolding storage_command on_node
  storage_command-accepts c command key value flags exptime noreply cas node opened low small k
        picked =
      simp (opened, low, small, IsKey-valid key k, picked)

  -- A closed client sends nothing.
  pub storage_command-closed :
      (c : Client) (command key value : Bytes) (flags exptime : ℤ) (noreply : Bool) (cas : Option ℤ)
      → c.closed ≡ true
      → storage_command murmur wire c command key value flags exptime noreply cas
        ≡ raise runtime_error
  unfolding storage_command
  storage_command-closed c command key value flags exptime noreply cas closed = simp closed
