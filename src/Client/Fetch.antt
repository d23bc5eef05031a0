-- ===== src/Client/Fetch.antt =====
-- The commands of the client that fetch items, one or many (emcache/client.py).
use emcache.Prelude.{
  ℕ, zero, suc, Bool, true, false, ◌&&◌, ◌||◌, Option, none, some, List, [], ◌∷◌, Bytes, codes,
  bytes_eq, if◌then◌else◌, ℤ,
}
use emcache.KeyValidation.{is_key_valid}
use emcache.Protocol.Encode.{fetch_data, get_and_touch_data}
use emcache.Protocol.MultiLine.{Columns}
use emcache.Cluster.{pick_node, pick_nodes}
use emcache.Outcome.{
  runtime_error, value_error, index_error, Result, returned, failed, Outcome, raise, and_then,
  finish,
}
use emcache.Client.{Client, on_node, guarded}

pub record Item : Type 0 where
  pub value : Bytes
  pub flags : Option ℤ
  pub cas : Option ℤ

-- `l[idx]`.
unfoldable pub index {ℓ} : {A : Type ℓ} → List A → ℕ → Result A
index [] i = failed index_error
index (a ∷ l) zero = returned a
index (a ∷ l) (suc i) = index l i

-- `key in keys`.
unfoldable pub has_key : Bytes → List Bytes → Bool
has_key key [] = false
has_key key (k ∷ ks) = bytes_eq key k || has_key key ks

-- `Item(values[idx], ...)` with the flags and the cas number as they were asked for.
unfoldable pub item_at : Bool → Bool → Columns → ℕ → Result Item
unfolding index
item_at return_flags return_cas columns idx = and_then (index columns.values idx) (λ value.
    and_then
      (if return_flags
        then and_then (index columns.flags idx) (λ f. returned (some f))
        else returned none)
      (λ flags.
        and_then (if return_cas then index columns.cas idx else returned none)
          (λ cas. returned (record { value = value; flags = flags; cas = cas }))))

-- The end of `get`, `gets`, `gat` and `gats`.
unfoldable pub single_item : Bool → Bool → Bytes → Columns → Result (Option Item)
unfolding has_key item_at
single_item return_flags return_cas key columns =
    if has_key key columns.keys
    then and_then (item_at return_flags return_cas columns 0) (λ item. returned (some item))
    else returned none

-- `results[key] = item`.
unfoldable pub set_item : Bytes → Item → List (Bytes × Item) → List (Bytes × Item)
set_item key item [] = (key, item) ∷ []
set_item key item ((k, i) ∷ rest) =
    if bytes_eq key k then (key, item) ∷ rest else (k, i) ∷ set_item key item rest

-- `for idx in range(len(keys))` over the columns of one node.
unfoldable pub add_items :
    Bool → Bool → Columns → ℕ → List Bytes → List (Bytes × Item) → Result (List (Bytes × Item))
unfolding item_at set_item
add_items return_flags return_cas columns idx [] results = returned results
add_items return_flags return_cas columns idx (key ∷ keys) results =
    and_then (item_at return_flags return_cas columns idx)
      (λ item. add_items return_flags return_cas columns (suc idx) keys (set_item key item results))

-- The loop over the nodes' results.
unfoldable pub many_items :
    Bool → Bool → List Columns → List (Bytes × Item) → Result (List (Bytes × Item))
unfolding add_items
many_items return_flags return_cas [] results = returned results
many_items return_flags return_cas (columns ∷ rest) results =
    and_then (add_items return_flags return_cas columns 0 columns.keys results)
      (λ r. many_items return_flags return_cas rest r)

-- `for key in keys: if is_key_valid(key) is False`.
unfoldable pub all_valid : List Bytes → Bool
all_valid [] = true
all_valid (key ∷ keys) = is_key_valid key && all_valid keys

unfoldable pub ask_columns : (ℕ → Bytes → Result Columns) → Bytes → ℕ → Outcome Columns
ask_columns wire_many request node = record {
  sent = (node, request) ∷ [];
  result = wire_many node request;
}

-- One task for each group; the first group that fails gives the exception.
unfoldable pub gather :
    (ℕ → Bytes → Result Columns)
    → (List Bytes → Bytes)
    → List (ℕ × List Bytes)
    → Outcome (List Columns)
gather wire_many request [] = record { sent = []; result = returned [] }
gather wire_many request ((node, keys) ∷ groups) =
    let rest = gather wire_many request groups in
    record {
      sent = (node, request keys) ∷ rest.sent;
      result =
          and_then (wire_many node (request keys))
            (λ columns. and_then rest.result (λ others. returned (columns ∷ others)));
    }

unfoldable pub on_groups :
    Result (List (ℕ × List Bytes))
    → (List (ℕ × List Bytes) → Outcome (List Columns))
    → Outcome (List Columns)
on_groups (returned groups) f = f groups
on_groups (failed e) f = raise e

module _ (murmur : Bytes → ℕ → ℕ) (wire_many : ℕ → Bytes → Result Columns) where
  -- `_fetch_command` and `_get_and_touch_command`.
  unfoldable pub fetch_command : Client → Bytes → Bytes → Outcome Columns
  unfolding guarded on_node ask_columns
  fetch_command c command key = guarded c key (
      on_node (pick_node murmur c.cluster key)
        (ask_columns wire_many (fetch_data command (key ∷ []))))

  unfoldable pub get_and_touch_command : Client → Bytes → ℤ → Bytes → Outcome Columns
  unfolding guarded on_node ask_columns
  get_and_touch_command c command exptime key = guarded c key (
      on_node (pick_node murmur c.cluster key)
        (ask_columns wire_many (get_and_touch_data command exptime (key ∷ []))))

  -- `_fetch_many_command` and `_get_and_touch_many_command`, for the requests that `request` makes.
  unfoldable pub many_command : Client → (List Bytes → Bytes) → List Bytes → Outcome (List Columns)
  unfolding gather on_groups all_valid
  many_command c request [] =
      if c.closed then raise runtime_error else record { sent = []; result = returned [] }
  many_command c request (key ∷ keys) =
      if c.closed
      then raise runtime_error
      else if all_valid (key ∷ keys)
      then on_groups (pick_nodes murmur c.cluster (key ∷ keys)) (gather wire_many request)
      else raise value_error

  unfoldable pub get : Client → Bytes → Bool → Outcome (Option Item)
  get c key return_flags =
      finish (fetch_command c (codes "get") key) (single_item return_flags false key)

  unfoldable pub gets : Client → Bytes → Bool → Outcome (Option Item)
  gets c key return_flags =
      finish (fetch_command c (codes "gets") key) (single_item return_flags true key)

  unfoldable pub gat : Client → ℤ → Bytes → Bool → Outcome (Option Item)
  gat c exptime key return_flags =
      finish (get_and_touch_command c (codes "gat") exptime key)
        (single_item return_flags false key)

  unfoldable pub gats : Client → ℤ → Bytes → Bool → Outcome (Option Item)
  gats c exptime key return_flags =
      finish (get_and_touch_command c (codes "gats") exptime key)
        (single_item return_flags true key)

  unfoldable pub get_many : Client → List Bytes → Bool → Outcome (List (Bytes × Item))
  get_many c keys return_flags =
      finish (many_command c (fetch_data (codes "get")) keys)
        (λ r. many_items return_flags false r [])

  unfoldable pub gets_many : Client → List Bytes → Bool → Outcome (List (Bytes × Item))
  gets_many c keys return_flags =
      finish (many_command c (fetch_data (codes "gets")) keys)
        (λ r. many_items return_flags true r [])

  unfoldable pub gat_many : Client → ℤ → List Bytes → Bool → Outcome (List (Bytes × Item))
  gat_many c exptime keys return_flags =
      finish (many_command c (get_and_touch_data (codes "gat") exptime) keys)
        (λ r. many_items return_flags false r [])

  unfoldable pub gats_many : Client → ℤ → List Bytes → Bool → Outcome (List (Bytes × Item))
  gats_many c exptime keys return_flags =
      finish (many_command c (get_and_touch_data (codes "gats") exptime) keys)
        (λ r. many_items return_flags true r [])
