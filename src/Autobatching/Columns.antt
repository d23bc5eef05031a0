-- ===== src/Autobatching/Columns.antt =====
-- What becomes of the futures of a batch.
use emcache.Prelude.{
  ℕ, ◌≡◌, Bool, true, false, ◌||◌, arith, Option, none, some, List, ◌∷◌, Bytes, if◌then◌else◌, ℤ,
}
use emcache.Autobatching.{
  type_error, result, settle, Ops, pop, Batch, crashed, continue_with, pop_and_settle_found,
  pop_and_settle, subscript, with_item, index, wake_returned, batch_results,
}

-- With the flags or the cas numbers asked for, and two keys returned of which the first is awaited,
-- the batch operation dies of a `TypeError` in the second round: only the futures of the first key
-- are settled, and the end of the batch is not signalled.
pub batch_results-crashes :
    (return_flags return_cas : Bool) (keys : List Bytes) (k l : Bytes) (more : List Bytes)
    (v w : Bytes) (values : List Bytes) (f : Option ℤ) (flags : List (Option ℤ)) (n : Option ℤ)
    (cas : List (Option ℤ)) (b : Batch) (waiting : List ℕ) (others : Ops)
    → (return_flags || return_cas) ≡ true
    → pop k b.ops ≡ some (waiting, others)
    → batch_results return_flags return_cas keys
        (k ∷ l ∷ more)
        (v ∷ w ∷ values)
        (f ∷ flags)
        (n ∷ cas)
        b
      ≡ crashed type_error (record b {
        ops = others;
        futures =
            settle
              (result (
                some (record {
                  value = v;
                  flags = if return_flags then f else none;
                  cas = if return_cas then n else none;
                })))
              waiting
              b.futures;
      })
unfolding batch_results wake_returned with_item index subscript continue_with pop_and_settle
    pop_and_settle_found
batch_results-crashes true true keys k l more v w values f flags n cas b waiting others h e = simp e
batch_results-crashes true false keys k l more v w values f flags n cas b waiting others h e =
    simp e
batch_results-crashes false true keys k l more v w values f flags n cas b waiting others h e =
    simp e
batch_results-crashes false false keys k l more v w values f flags n cas b waiting others h e =
    ground arith
