-- ===== src/Client/Many.antt =====
-- What the commands for many keys return for the responses of the nodes.
use emcache.Prelude.{
  suc, ◌≡◌, refl, ◌∙◌, arith, Bool, true, false, List, [], ◌∷◌, ◌++◌, Bytes, length, length-append,
  pos,
}
use mathlib.Core.List.{map, append_assoc, append-nil}
use emcache.Protocol.MultiLine.{Columns, no_columns}
use emcache.Protocol.MultiLine.RoundTrip.{Found, with_items, cas_column}
use emcache.Outcome.{returned, and_then}
use emcache.Client.Fetch.{Item, index, item_at, set_item, add_items, many_items}
use emcache.Client.Items.{item_of}

-- The columns of some items, as lists.
abbrev columns_of : List Found → Columns
columns_of fs = record {
  keys = map (λ (f : Found). f.key) fs;
  values = map (λ (f : Found). f.value) fs;
  flags = map (λ (f : Found). pos f.flags) fs;
  cas = map (λ (f : Found). cas_column f.cas) fs;
}

abbrev joined : Columns → Columns → Columns
joined a b = record {
  keys = a.keys ++ b.keys;
  values = a.values ++ b.values;
  flags = a.flags ++ b.flags;
  cas = a.cas ++ b.cas;
}

with_items-joined : (c : Columns) (fs : List Found) → with_items c fs ≡ joined c (columns_of fs)
with_items-joined c [] =
    rw (append-nil c.keys, append-nil c.values, append-nil c.flags, append-nil c.cas) refl
with_items-joined c (f ∷ fs) =
    with_items-joined (joined c (columns_of (f ∷ []))) fs
    ∙ rw
        (
          append_assoc c.keys (f.key ∷ []) (columns_of fs).keys,
          append_assoc c.values (f.value ∷ []) (columns_of fs).values,
          append_assoc c.flags (pos f.flags ∷ []) (columns_of fs).flags,
          append_assoc c.cas (cas_column f.cas ∷ []) (columns_of fs).cas,
        )
        refl

-- The items are put in the dictionary one after the other.
abbrev pub stored_items : Bool → Bool → List Found → List (Bytes × Item) → List (Bytes × Item)
stored_items rf rc [] results = results
stored_items rf rc (f ∷ fs) results =
    stored_items rf rc fs (set_item f.key (item_of rf rc f) results)

index-map {ℓ} :
    {A : Type ℓ} (g : Found → A) (pre : List Found) (f : Found) (fs : List Found)
    → index (map g (pre ++ f ∷ fs)) (length pre) ≡ returned (g f)
unfolding index
index-map g [] f fs = refl
index-map g (p ∷ pre) f fs = index-map g pre f fs

item_at-columns_of :
    (rf rc : Bool) (pre : List Found) (f : Found) (fs : List Found)
    → item_at rf rc (columns_of (pre ++ f ∷ fs)) (length pre) ≡ returned (item_of rf rc f)
unfolding item_at and_then
item_at-columns_of true true pre f fs =
    rw
      (
        index-map (λ (g : Found). g.value) pre f fs,
        index-map (λ (g : Found). pos g.flags) pre f fs,
        index-map (λ (g : Found). cas_column g.cas) pre f fs,
      )
      refl
item_at-columns_of true false pre f fs =
    rw
      (index-map (λ (g : Found). g.value) pre f fs, index-map (λ (g : Found). pos g.flags) pre f fs)
      refl
item_at-columns_of false true pre f fs =
    rw
      (
        index-map (λ (g : Found). g.value) pre f fs,
        index-map (λ (g : Found). cas_column g.cas) pre f fs,
      )
      refl
item_at-columns_of false false pre f fs = rw (index-map (λ (g : Found). g.value) pre f fs) refl

add_items-columns_of :
    (rf rc : Bool) (pre fs : List Found) (results : List (Bytes × Item))
    → add_items rf rc (columns_of (pre ++ fs)) (length pre) (map (λ (f : Found). f.key) fs) results
      ≡ returned (stored_items rf rc fs results)
unfolding add_items and_then
add_items-columns_of rf rc pre [] results = refl
add_items-columns_of rf rc pre (f ∷ fs) results =
    let size : length (pre ++ f ∷ []) ≡ suc (length pre) =
      omega (arith, length-append pre (f ∷ [])) in
    rw (item_at-columns_of rf rc pre f fs) (
      rw (append_assoc pre (f ∷ []) fs, size) at
        (add_items-columns_of rf rc (pre ++ f ∷ []) fs (set_item f.key (item_of rf rc f) results)))

abbrev pub stored_all : Bool → Bool → List (List Found) → List (Bytes × Item) → List (Bytes × Item)
stored_all rf rc [] results = results
stored_all rf rc (fs ∷ rest) results = stored_all rf rc rest (stored_items rf rc fs results)

-- For the responses of the nodes, each with any number of items, the commands for many keys build the
-- dictionary of the items as they were asked for, one after the other, and no index is out of range.
pub many_items-stored :
    (return_flags return_cas : Bool) (responses : List (List Found)) (results : List (Bytes × Item))
    → many_items return_flags return_cas (map (with_items no_columns) responses) results
      ≡ returned (stored_all return_flags return_cas responses results)
unfolding many_items and_then
many_items-stored rf rc [] results = refl
many_items-stored rf rc (fs ∷ rest) results =
    rw (with_items-joined no_columns fs, add_items-columns_of rf rc [] fs results)
      (many_items-stored rf rc rest (stored_items rf rc fs results))
