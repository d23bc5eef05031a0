-- ===== src/Client/Life/Undiscovered.antt =====
-- A client whose first discovery found nothing.
use emcache.Prelude.{
  ℕ, ◌≡◌, refl, ap, ◌∙◌, Bool, true, false, not, ◌&&◌, none, List, [], ◌∷◌, Bytes, All, if_true,
  if_false,
}
use emcache.KeyValidation.{is_key_valid}
use emcache.Protocol.MultiLine.{Columns}
use emcache.Outcome.{Result, returned, attribute_error, value_error, raise, and_then}
use emcache.Cluster.{Address, pick_node, pick_from}
use emcache.Cluster.Discover.{
  Answer, timed_out, poll, autodiscover, use_answer, refuse, settle_first, new_cluster,
}
use emcache.Cluster.Discover.Unset.{brings_nothing, polls, polls-rdz}
use emcache.Client.{Client, guarded, on_node}
use emcache.Client.Fetch.{fetch_command, ask_columns}
use emcache.Protocol.Encode.{fetch_data}
use emcache.Client.Life.{new_client, first_discovery, create_client}

module _ (murmur : Bytes → ℕ → ℕ) (arrange : List Address → List Address) where
  -- What a client does with a cluster that has no list for the hashing.
  fetch_command-unset :
      (wire_many : ℕ → Bytes → Result Columns) (c : Client) (command key : Bytes)
      → c.closed ≡ false
      → c.cluster.rdz_nodes ≡ none
      → is_key_valid key ≡ true
      → fetch_command murmur wire_many c command key ≡ raise attribute_error
  unfolding fetch_command guarded on_node pick_node
  fetch_command-unset wire_many c command key opened unset valid =
      let send = ask_columns wire_many (fetch_data command (key ∷ [])) in
      if_false c.closed _ _ opened
      ∙ if_true (is_key_valid key) (on_node (pick_node murmur c.cluster key) send)
          (raise value_error) valid
      ∙ ap (λ r. on_node (pick_from murmur key r) send) unset

  -- `create_client` with autodiscovery returns a client also if its first request for the
  -- configuration has timed out. Until a configuration comes, a fetch of a valid key by that client
  -- raises AttributeError and sends nothing.
  pub create_client-undiscovered :
      (ssl has_ssl : Bool) (a : Address) (bs : List Address) (purge events : Bool)
      → (ssl && not has_ssl) ≡ false
      → (c : Client) × (create_client murmur ssl has_ssl
            (a ∷ bs)
            purge
            events
            true
            (λ k. poll murmur arrange k timed_out)
          ≡ returned c)
        × ((answers : List Answer) (wire_many : ℕ → Bytes → Result Columns) (command key : Bytes)
            → All (λ x. brings_nothing x ≡ true) answers
            → is_key_valid key ≡ true
            → fetch_command murmur wire_many
                (record c { cluster = polls murmur arrange c.cluster answers })
                command
                key
              ≡ raise attribute_error)
  unfolding create_client new_client first_discovery new_cluster poll autodiscover use_answer refuse
      settle_first and_then
  create_client-undiscovered ssl has_ssl a bs purge events fine = (
    _,
    if_false (ssl && not has_ssl) _ _ fine,
    λ answers wire_many command key quiet valid.
        fetch_command-unset wire_many _ command key refl (polls-rdz murmur arrange _ answers quiet)
          valid,
  )
