-- ===== src/Autobatching/Found.antt =====
-- The first loop of a batch operation without flags and cas numbers: the keys that are found.
use emcache.Prelude.{
  ℕ, suc, ◌≡◌, refl, ◌≢◌, arith, false, none, some, List, [], ◌∷◌, ◌++◌, Bytes, bytes_eq_refl,
  bytes_eq_unequal, All, All-snoc, length, length-append,
}
use mathlib.Core.List.{append_assoc}
use emcache.Client.Fetch.{Item}
use emcache.Autobatching.{
  Future, result, settle, Ops, pop, running, continue_with, pop_and_settle_found, pop_and_settle,
  Variable, scalar, subscript, with_item, wake_returned,
}
use emcache.Autobatching.Resolved.{Slot, found, missing, other, woken}
use emcache.Autobatching.Completion.{index-append}

abbrev pub op_of : Slot → Bytes × List ℕ
op_of (found k v fs) = (k, fs)
op_of (missing k fs) = (k, fs)
op_of (other k fs) = (k, fs)

abbrev pub key_of : Slot → Bytes
key_of s = (op_of s).0

abbrev pub ops_of : List Slot → Ops
ops_of [] = []
ops_of (s ∷ ss) = op_of s ∷ ops_of ss

-- The keys of the batch.
abbrev pub asked : List Slot → List Bytes
asked [] = []
asked (found k v fs ∷ ss) = k ∷ asked ss
asked (missing k fs ∷ ss) = k ∷ asked ss
asked (other k fs ∷ ss) = asked ss

-- The keys and values of the response.
abbrev pub returned_keys : List Slot → List Bytes
returned_keys [] = []
returned_keys (found k v fs ∷ ss) = k ∷ returned_keys ss
returned_keys (missing k fs ∷ ss) = returned_keys ss
returned_keys (other k fs ∷ ss) = returned_keys ss

abbrev pub returned_values : List Slot → List Bytes
returned_values [] = []
returned_values (found k v fs ∷ ss) = v ∷ returned_values ss
returned_values (missing k fs ∷ ss) = returned_values ss
returned_values (other k fs ∷ ss) = returned_values ss

-- What is left once the found keys are popped, and in the end.
abbrev pub not_found : List Slot → Ops
not_found [] = []
not_found (found k v fs ∷ ss) = not_found ss
not_found (missing k fs ∷ ss) = (k, fs) ∷ not_found ss
not_found (other k fs ∷ ss) = (k, fs) ∷ not_found ss

abbrev pub others : List Slot → Ops
others [] = []
others (found k v fs ∷ ss) = others ss
others (missing k fs ∷ ss) = others ss
others (other k fs ∷ ss) = (k, fs) ∷ others ss

-- The keys of a dictionary are distinct.
abbrev pub Distinct : List Slot → Type 0
Distinct [] = Unit
Distinct (s ∷ ss) = All (λ t. key_of t ≢ key_of s) ss × Distinct ss

-- No slot has the key of one of the operations.
abbrev pub Apart : Ops → List Slot → Type 0
Apart ops = All (λ s. All (λ (o : Bytes × List ℕ). key_of s ≢ o.0) ops)

pub pop-append :
    (k : Bytes) (fs : List ℕ) (done rest : Ops)
    → All (λ (o : Bytes × List ℕ). k ≢ o.0) done
    → pop k (done ++ (k, fs) ∷ rest) ≡ some (fs, done ++ rest)
unfolding pop
pop-append k fs [] rest h = rw (bytes_eq_refl k) refl
pop-append k fs ((l, gs) ∷ done) rest h =
    rw (pop-append k fs done rest h.1, bytes_eq_unequal k l h.0) refl

pub Apart-snoc :
    (done : Ops) (s : Slot) (ss : List Slot)
    → Apart done ss
    → All (λ t. key_of t ≢ key_of s) ss
    → Apart (done ++ op_of s ∷ []) ss
Apart-snoc done s ss h k =
    All-snoc (λ (t : Slot) (o : Bytes × List ℕ). key_of t ≢ o.0) done (op_of s) ss h k

pub wake_found :
    (ss : List Slot) (done : Ops) (pre : List Bytes) (flags cas : Variable) (futures : ℕ → Future)
    → Apart done ss
    → Distinct ss
    → wake_returned false false
        (returned_keys ss)
        (pre ++ returned_values ss)
        flags
        cas
        (length pre)
        (record { ops = done ++ ops_of ss; futures = futures; finished = false })
      ≡ running
          (record { ops = done ++ not_found ss; futures = woken ss futures; finished = false })
unfolding wake_returned with_item subscript continue_with pop_and_settle pop_and_settle_found
wake_found [] done pre flags cas futures h d = refl
wake_found (found k v fs ∷ ss) done pre flags cas futures h d =
    let size : length (pre ++ v ∷ []) ≡ suc (length pre) =
      omega (arith, length-append pre (v ∷ [])) in
    let reply : Item = record { value = v; flags = none; cas = none } in
    rw (index-append pre v (returned_values ss), pop-append k fs done (ops_of ss) h.0)
      (rw (append_assoc pre (v ∷ []) (returned_values ss), size) at
        (wake_found ss done (pre ++ v ∷ []) (scalar none) (scalar none)
          (settle (result (some reply)) fs futures) h.1 d.1))
wake_found (missing k fs ∷ ss) done pre flags cas futures h d =
    rw
      (
        append_assoc done ((k, fs) ∷ []) (ops_of ss),
        append_assoc done ((k, fs) ∷ []) (not_found ss),
      )
      at
      (wake_found ss (done ++ (k, fs) ∷ []) pre flags cas futures
        (Apart-snoc done (missing k fs) ss h.1 d.0) d.1)
wake_found (other k fs ∷ ss) done pre flags cas futures h d =
    rw
      (
        append_assoc done ((k, fs) ∷ []) (ops_of ss),
        append_assoc done ((k, fs) ∷ []) (not_found ss),
      )
      at
      (wake_found ss (done ++ (k, fs) ∷ []) pre flags cas futures
        (Apart-snoc done (other k fs) ss h.1 d.0) d.1)
