-- ===== src/Client/Session/Dictionary.antt =====
-- The dictionary of items that is built from the answers of several servers.
use emcache.Prelude.{
  ℕ, ◌^◌, ◌<◌, ◌≡◌, refl, sym, ap, subst, ◌∙◌, arith, Bool, true, false, Option, none, some, List,
  [], ◌∷◌, Bytes, bytes_eq, bytes_eq→eq, bytes_eq_refl, codes, All, All-append, length,
  if◌then◌else◌, if_case, pos,
}
use emcache.Protocol.Encode.Framing.{read_request}
use emcache.Protocol.MultiLine.RoundTrip.{Found, respond}
use emcache.Client.Fetch.{Item, set_item}
use emcache.Client.Items.{item_of}
use emcache.Client.Many.{stored_items, stored_all}
use emcache.Autobatching.Finish.Grouped.{keys_in}

abbrev pub add_held : Bytes → Option (Bytes × ℕ) → List Found → List Found
add_held key none fs = fs
add_held key (some (value, flags)) fs =
    record { key = key; value = value; flags = flags; cas = none } ∷ fs

-- The items that a server holds under some keys, in their order.
abbrev pub held_items : (Bytes → Option (Bytes × ℕ)) → List Bytes → List Found
held_items held [] = []
held_items held (key ∷ keys) = add_held key (held key) (held_items held keys)

-- memcached's protocol.txt on `get`: the answer is the items that the server holds under the keys; their
-- values are shorter than 2 ^ 31 bytes.
pub record AnswersMany {S : Type 0} (serve : S → Bytes → S × Bytes)
    (held : S → Bytes → Option (Bytes × ℕ)) : Type 0 where
  pub items_answered :
      (s : S) (request key : Bytes) (keys : List Bytes)
      → read_request request ≡ some (codes "get" ∷ key ∷ keys, [])
      → (serve s request).1 ≡ respond (held_items (held s) (key ∷ keys))
  pub item_size :
      (s : S) (key value : Bytes) (flags : ℕ)
      → held s key ≡ some (value, flags)
      → length value < 2 ^ 31

-- `results.get(key)`.
abbrev pub item_under : Bytes → List (Bytes × Item) → Option Item
item_under key [] = none
item_under key ((k, item) ∷ results) = if bytes_eq key k then some item else item_under key results

abbrev pub item_held : Bool → Option (Bytes × ℕ) → Option Item
item_held return_flags none = none
item_held return_flags (some (value, flags)) =
    some (record {
      value = value;
      flags = if return_flags then some (pos flags) else none;
      cas = none;
    })

item_under-set_item :
    (x key : Bytes) (item : Item) (results : List (Bytes × Item))
    → item_under x (set_item key item results)
      ≡ (if bytes_eq x key then some item else item_under x results)
unfolding set_item
item_under-set_item x key item [] = refl
item_under-set_item x key item ((k, i) ∷ results) =
    if_case
      (λ (r : List (Bytes × Item)). item_under x r ≡ (
        if bytes_eq x key
        then some item
        else if bytes_eq x k
        then some i
        else item_under x results))
      (bytes_eq key k)
      (λ same.
        let e : bytes_eq x k ≡ bytes_eq x key = ap (bytes_eq x) (sym (bytes_eq→eq key k same)) in
        ground arith)
      (λ differ.
        let both : bytes_eq x key ≡ true → bytes_eq x k ≡ false =
          λ e. subst (λ y. bytes_eq y k ≡ false) (sym (bytes_eq→eq x key e)) differ in
        ground (arith, item_under-set_item x key item results))

-- What the servers of all groups answer.
abbrev pub responses_of :
    (ℕ → Bytes → Option (Bytes × ℕ)) → List (ℕ × List Bytes) → List (List Found)
responses_of held_at [] = []
responses_of held_at ((node, keys) ∷ groups) =
    held_items (held_at node) keys ∷ responses_of held_at groups

-- The dictionary has under the key what it should have.
module _ (wanted : Bytes → Option Item) (rf : Bool) where
  abbrev pub IsRight : List (Bytes × Item) → Bytes → Type 0
  IsRight results key = item_under key results ≡ wanted key

  abbrev IsWanted : Found → Type 0
  IsWanted f = wanted f.key ≡ some (item_of rf false f)

  set_item-IsRight :
      (f : Found) (x : Bytes) (results : List (Bytes × Item))
      → IsWanted f
      → IsRight results x
      → IsRight (set_item f.key (item_of rf false f) results) x
  set_item-IsRight f x results w h =
      item_under-set_item x f.key (item_of rf false f) results
      ∙ if_case (λ (o : Option Item). o ≡ wanted x) (bytes_eq x f.key)
          (λ same. sym (ap wanted (bytes_eq→eq x f.key same) ∙ w)) (λ _. h)

  set_item-wanted :
      (f : Found) (results : List (Bytes × Item))
      → IsWanted f
      → IsRight (set_item f.key (item_of rf false f) results) f.key
  set_item-wanted f results w =
      item_under-set_item f.key f.key (item_of rf false f) results
      ∙ rw (bytes_eq_refl f.key) (sym w)

  stored_items-IsRight :
      (fs : List Found) (x : Bytes) (results : List (Bytes × Item))
      → All IsWanted fs
      → IsRight results x
      → IsRight (stored_items rf false fs results) x
  stored_items-IsRight [] x results w h = h
  stored_items-IsRight (f ∷ fs) x results w h =
      stored_items-IsRight fs x (set_item f.key (item_of rf false f) results) w.1
        (set_item-IsRight f x results w.0 h)

  stored_all-IsRight :
      (responses : List (List Found)) (x : Bytes) (results : List (Bytes × Item))
      → All (All IsWanted) responses
      → IsRight results x
      → IsRight (stored_all rf false responses results) x
  stored_all-IsRight [] x results w h = h
  stored_all-IsRight (fs ∷ responses) x results w h =
      stored_all-IsRight responses x (stored_items rf false fs results) w.1
        (stored_items-IsRight fs x results w.0 h)

  -- A key that nothing is wanted under has nothing.
  abbrev pub NothingElse : List (Bytes × Item) → Type 0
  NothingElse results = (x : Bytes) → wanted x ≡ none → IsRight results x

  add_held-IsWanted :
      (k : Bytes) (o : Option (Bytes × ℕ)) (fs : List Found)
      → wanted k ≡ item_held rf o
      → All IsWanted fs
      → All IsWanted (add_held k o fs)
  add_held-IsWanted k none fs e h = h
  add_held-IsWanted k (some (value, flags)) fs e h = (e, h)

  -- The keys of a group, when what is wanted is what the node's server holds.
  held_items-IsWanted :
      (held : Bytes → Option (Bytes × ℕ)) (keys : List Bytes)
      → All (λ k. wanted k ≡ item_held rf (held k)) keys
      → All IsWanted (held_items held keys)
  held_items-IsWanted held [] h = tt
  held_items-IsWanted held (k ∷ keys) h =
      add_held-IsWanted k (held k) (held_items held keys) h.0 (held_items-IsWanted held keys h.1)

  add_held-IsRight :
      (k : Bytes) (o : Option (Bytes × ℕ)) (fs : List Found) (keys : List Bytes)
      (results : List (Bytes × Item))
      → wanted k ≡ item_held rf o
      → All IsWanted fs
      → ((r : List (Bytes × Item))
          → NothingElse r
          → All (IsRight (stored_items rf false fs r)) keys)
      → NothingElse results
      → All (IsRight (stored_items rf false (add_held k o fs) results)) (k ∷ keys)
  add_held-IsRight k none fs keys results e w rest n =
      (stored_items-IsRight fs k results w (n k e), rest results n)
  add_held-IsRight k (some (value, flags)) fs keys results e w rest n =
      let f : Found = record { key = k; value = value; flags = flags; cas = none } in
      let next = set_item k (item_of rf false f) results in
      (
        stored_items-IsRight fs k next w (set_item-wanted f results e),
        rest next (λ x z. set_item-IsRight f x results e (n x z)),
      )

  held_items-IsRight :
      (held : Bytes → Option (Bytes × ℕ)) (keys : List Bytes) (results : List (Bytes × Item))
      → All (λ k. wanted k ≡ item_held rf (held k)) keys
      → NothingElse results
      → All (IsRight (stored_items rf false (held_items held keys) results)) keys
  held_items-IsRight held [] results h n = tt
  held_items-IsRight held (k ∷ keys) results h n =
      add_held-IsRight k (held k) (held_items held keys) keys results h.0
        (held_items-IsWanted held keys h.1) (λ r m. held_items-IsRight held keys r h.1 m) n

  -- All groups, each with the server of its node.
  module _ (held_at : ℕ → Bytes → Option (Bytes × ℕ)) where
    abbrev pub IsServed : ℕ × List Bytes → Type 0
    IsServed g = All (λ k. wanted k ≡ item_held rf (held_at g.0 k)) g.1

    responses-IsWanted :
        (groups : List (ℕ × List Bytes))
        → All IsServed groups
        → All (All IsWanted) (responses_of held_at groups)
    responses-IsWanted [] h = tt
    responses-IsWanted ((node, keys) ∷ groups) h =
        (held_items-IsWanted (held_at node) keys h.0, responses-IsWanted groups h.1)

    All-later :
        (responses : List (List Found)) (keys : List Bytes) (results : List (Bytes × Item))
        → All (All IsWanted) responses
        → All (IsRight results) keys
        → All (IsRight (stored_all rf false responses results)) keys
    All-later responses [] results w h = tt
    All-later responses (k ∷ keys) results w h =
        (stored_all-IsRight responses k results w h.0, All-later responses keys results w h.1)

    pub responses-IsRight :
        (groups : List (ℕ × List Bytes)) (results : List (Bytes × Item))
        → All IsServed groups
        → NothingElse results
        → All (IsRight (stored_all rf false (responses_of held_at groups) results)) (keys_in groups)
    responses-IsRight [] results h n = tt
    responses-IsRight ((node, keys) ∷ groups) results h n =
        let fs = held_items (held_at node) keys in
        let next = stored_items rf false fs results in
        All-append (IsRight (stored_all rf false (responses_of held_at groups) next)) keys
          (keys_in groups)
          (All-later (responses_of held_at groups) keys next (responses-IsWanted groups h.1)
            (held_items-IsRight (held_at node) keys results h.0 n))
          (responses-IsRight groups next h.1 (λ x z.
            stored_items-IsRight fs x results (held_items-IsWanted (held_at node) keys h.0)
              (n x z)))
