-- ===== src/Client/Items.antt =====
-- What the fetch commands return for the response of the server.
use emcache.Prelude.{
  ℕ, ◌≡◌, refl, ap, ◌∙◌, Bool, true, false, Option, none, some, List, [], ◌∷◌, Bytes, codes,
  bytes_eq_refl, if◌then◌else◌, pos,
}
use emcache.KeyValidation.Decides.{IsKey, IsKey-valid}
use emcache.Protocol.Encode.{fetch_data}
use emcache.Protocol.MultiLine.{Columns, no_columns}
use emcache.Protocol.MultiLine.RoundTrip.{Found, with_items, cas_column}
use emcache.Cluster.{pick_node}
use emcache.Outcome.{Result, returned, and_then}
use emcache.Client.{Client, on_node, guarded}
use emcache.Client.Fetch.{
  Item, index, has_key, item_at, single_item, ask_columns, fetch_command, get, gets,
}

-- The item as the caller wants it.
abbrev pub item_of : Bool → Bool → Found → Item
item_of return_flags return_cas f = record {
  value = f.value;
  flags = if return_flags then some (pos f.flags) else none;
  cas = if return_cas then cas_column f.cas else none;
}

-- At most one item, under the key that was asked for.
abbrev pub answer : Bytes → Option (Bytes × ℕ × Option ℕ) → List Found
answer key none = []
answer key (some (value, flags, cas)) =
    record { key = key; value = value; flags = flags; cas = cas } ∷ []

abbrev pub fetched : Bool → Bool → List Found → Option Item
fetched return_flags return_cas [] = none
fetched return_flags return_cas (f ∷ fs) = some (item_of return_flags return_cas f)

single_item-answer :
    (return_flags return_cas : Bool) (key : Bytes) (a : Option (Bytes × ℕ × Option ℕ))
    → single_item return_flags return_cas key (with_items no_columns (answer key a))
      ≡ returned (fetched return_flags return_cas (answer key a))
unfolding single_item has_key item_at index and_then
single_item-answer rf rc key none = refl
single_item-answer true true key (some (v, f, c)) = rw (bytes_eq_refl key) refl
single_item-answer true false key (some (v, f, c)) = rw (bytes_eq_refl key) refl
single_item-answer false true key (some (v, f, c)) = rw (bytes_eq_refl key) refl
single_item-answer false false key (some (v, f, c)) = rw (bytes_eq_refl key) refl

module _ (murmur : Bytes → ℕ → ℕ) (wire_many : ℕ → Bytes → Result Columns) (c : Client)
    (key : Bytes) (node : ℕ) (a : Option (Bytes × ℕ × Option ℕ)) (opened : c.closed ≡ false)
    (valid : IsKey key) (picked : pick_node murmur c.cluster key ≡ returned node) where
  fetched_columns :
      (command : Bytes)
      → wire_many node (fetch_data command (key ∷ []))
        ≡ returned (with_items no_columns (answer key a))
      → (fetch_command murmur wire_many c command key).result
        ≡ returned (with_items no_columns (answer key a))
  unfolding fetch_command guarded on_node ask_columns
  fetched_columns command w = simp (opened, IsKey-valid key valid, picked, w)

  -- For a key that passes the guards, `gets` returns the item of the response with its cas number,
  -- with its flags exactly if they were asked for, and `None` if the response has no item.
  pub gets-answer :
      (return_flags : Bool)
      → wire_many node (fetch_data (codes "gets") (key ∷ []))
        ≡ returned (with_items no_columns (answer key a))
      → (gets murmur wire_many c key return_flags).result
        ≡ returned (fetched return_flags true (answer key a))
  unfolding gets and_then
  gets-answer return_flags w =
      ap (λ r. and_then r (single_item return_flags true key)) (fetched_columns (codes "gets") w)
      ∙ single_item-answer return_flags true key a

  -- Likewise `get`, which leaves out the cas number.
  pub get-answer :
      (return_flags : Bool)
      → wire_many node (fetch_data (codes "get") (key ∷ []))
        ≡ returned (with_items no_columns (answer key a))
      → (get murmur wire_many c key return_flags).result
        ≡ returned (fetched return_flags false (answer key a))
  unfolding get and_then
  get-answer return_flags w =
      ap (λ r. and_then r (single_item return_flags false key)) (fetched_columns (codes "get") w)
      ∙ single_item-answer return_flags false key a
