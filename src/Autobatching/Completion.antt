-- ===== src/Autobatching/Completion.antt =====
-- A batch without flags and cas numbers, all of whose keys are found.
use emcache.Prelude.{
  ℕ, suc, ◌≡◌, refl, arith, true, false, Option, none, some, List, [], ◌∷◌, ◌++◌, Bytes,
  bytes_eq_refl, All, length, length-append, ℤ,
}
use mathlib.Core.List.{append_assoc}
use emcache.Client.Fetch.{Item, has_key}
use emcache.Autobatching.{
  Future, result, settle, Ops, pop, Batch, running, continue_with, pop_and_settle_found,
  pop_and_settle, Variable, column, scalar, item, subscript, with_item, index, wake_returned,
  wake_missing, maybe_signal_termination, batch_results,
}

-- A key with its value and the futures that wait for it.
pub record Hit : Type 0 where
  pub key : Bytes
  pub value : Bytes
  pub waiting : List ℕ

abbrev pub keys_of : List Hit → List Bytes
keys_of [] = []
keys_of (h ∷ hs) = h.key ∷ keys_of hs

abbrev pub values_of : List Hit → List Bytes
values_of [] = []
values_of (h ∷ hs) = h.value ∷ values_of hs

abbrev pub ops_of : List Hit → Ops
ops_of [] = []
ops_of (h ∷ hs) = (h.key, h.waiting) ∷ ops_of hs

-- Each future that waits for a key gets the key's value, unless it is done.
abbrev pub woken : List Hit → (ℕ → Future) → ℕ → Future
woken [] futures = futures
woken (h ∷ hs) futures = woken hs (
    settle (result (some (record { value = h.value; flags = none; cas = none }))) h.waiting futures)

pub index-append :
    (pre : List Bytes) (v : Bytes) (vs : List Bytes) → index (pre ++ v ∷ vs) (length pre) ≡ item v
unfolding index
index-append [] v vs = refl
index-append (p ∷ pre) v vs = index-append pre v vs

pop_head : (k : Bytes) (fs : List ℕ) (ops : Ops) → pop k ((k, fs) ∷ ops) ≡ some (fs, ops)
unfolding pop
pop_head k fs ops = rw (bytes_eq_refl k) refl

wake_hits :
    (hs : List Hit) (pre : List Bytes) (flags cas : Variable) (futures : ℕ → Future)
    → wake_returned false false
        (keys_of hs)
        (pre ++ values_of hs)
        flags
        cas
        (length pre)
        (record { ops = ops_of hs; futures = futures; finished = false })
      ≡ running (record { ops = []; futures = woken hs futures; finished = false })
unfolding wake_returned with_item subscript continue_with pop_and_settle pop_and_settle_found
wake_hits [] pre flags cas futures = refl
wake_hits (h ∷ hs) pre flags cas futures =
    let size : length (pre ++ h.value ∷ []) ≡ suc (length pre) =
      omega (arith, length-append pre (h.value ∷ [])) in
    let reply : Item = record { value = h.value; flags = none; cas = none } in
    rw (index-append pre h.value (values_of hs), pop_head h.key h.waiting (ops_of hs))
      (rw (append_assoc pre (h.value ∷ []) (values_of hs), size) at
        (wake_hits hs (pre ++ h.value ∷ []) (scalar none) (scalar none)
          (settle (result (some reply)) h.waiting futures)))

no_missing :
    (all keys : List Bytes) (b : Batch)
    → All (λ k. has_key k all ≡ true) keys
    → wake_missing all keys b ≡ running b
unfolding wake_missing
no_missing all [] b h = refl
no_missing all (k ∷ keys) b h = rw h.0 (no_missing all keys b h.1)

has_key-weaken :
    (k : Bytes) (all keys : List Bytes)
    → All (λ x. has_key x all ≡ true) keys
    → All (λ x. has_key x (k ∷ all) ≡ true) keys
unfolding has_key
has_key-weaken k all [] h = tt
has_key-weaken k all (x ∷ keys) h = (ground arith, has_key-weaken k all keys h.1)

pub All-returned : (keys : List Bytes) → All (λ k. has_key k keys ≡ true) keys
unfolding has_key
All-returned [] = tt
All-returned (k ∷ keys) =
    (rw (bytes_eq_refl k) refl, has_key-weaken k keys keys (All-returned keys))

-- If a batch holds all of the operations, nobody asked for flags or cas numbers, and the response has
-- a value for every key, then the batch operation gives each future its key's value, takes every
-- operation off, and signals the end of the batch.
pub batch_results-completes :
    (hs : List Hit) (flags cas : List (Option ℤ)) (futures : ℕ → Future)
    → batch_results false false
        (keys_of hs)
        (keys_of hs)
        (values_of hs)
        flags
        cas
        (record { ops = ops_of hs; futures = futures; finished = false })
      ≡ running (record { ops = []; futures = woken hs futures; finished = true })
unfolding batch_results maybe_signal_termination continue_with
batch_results-completes hs flags cas futures =
    let done : Batch = record { ops = []; futures = woken hs futures; finished = false } in
    rw
      (
        wake_hits hs [] (column flags) (column cas) futures,
        no_missing (keys_of hs) (keys_of hs) done (All-returned (keys_of hs)),
      )
      refl
