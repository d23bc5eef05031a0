-- ===== src/Autobatching/Settled.antt =====
-- A batch without flags and cas numbers: what becomes of the keys that are found, of those that are
-- missing, and of those that other batches ask for.
use emcache.Prelude.{
  Bool, ℕ, ◌≡◌, refl, ◌∙◌, ◌≢◌, sym, arith, true, false, Option, none, List, [], ◌∷◌, ◌++◌, Bytes,
  bytes_eq_refl, bytes_eq_unequal, All, All-always, ℤ,
}
use mathlib.Core.List.{append_assoc}
use emcache.Client.Fetch.{has_key}
use emcache.Autobatching.{
  Future, result, settle, Ops, running, continue_with, pop_and_settle_found, pop_and_settle, column,
  wake_missing, maybe_signal_termination, batch_results,
}
use emcache.Autobatching.Resolved.{
  Slot, found, missing, other, woken, let_down, resolved, let_down-woken,
}
use emcache.Autobatching.Found.{
  key_of, ops_of, asked, returned_keys, returned_values, not_found, others, Distinct, Apart,
  pop-append, Apart-snoc, wake_found,
}

-- The found keys, and no other keys of the batch, are among these.
abbrev Told : List Bytes → List Slot → Type 0
Told keys [] = Unit
Told keys (found k v fs ∷ ss) = (has_key k keys ≡ true) × Told keys ss
Told keys (missing k fs ∷ ss) = (has_key k keys ≡ false) × Told keys ss
Told keys (other k fs ∷ ss) = Told keys ss

Told-cons :
    (k : Bytes) (keys : List Bytes) (ss : List Slot)
    → All (λ t. key_of t ≢ k) ss
    → Told keys ss
    → Told (k ∷ keys) ss
unfolding has_key
Told-cons k keys [] h t = tt
Told-cons k keys (found l v fs ∷ ss) h t = (ground arith, Told-cons k keys ss h.1 t.1)
Told-cons k keys (missing l fs ∷ ss) h t =
    (rw (bytes_eq_unequal l k h.0) t.0, Told-cons k keys ss h.1 t.1)
Told-cons k keys (other l fs ∷ ss) h t = Told-cons k keys ss h.1 t

not_returned :
    (k : Bytes) (ss : List Slot) → All (λ t. key_of t ≢ k) ss → has_key k (returned_keys ss) ≡ false
unfolding has_key
not_returned k [] h = refl
not_returned k (found l v fs ∷ ss) h =
    rw (bytes_eq_unequal k l (λ e. h.0 (sym e))) (not_returned k ss h.1)
not_returned k (missing l fs ∷ ss) h = not_returned k ss h.1
not_returned k (other l fs ∷ ss) h = not_returned k ss h.1

Told-returned_keys : (ss : List Slot) → Distinct ss → Told (returned_keys ss) ss
unfolding has_key
Told-returned_keys [] d = tt
Told-returned_keys (found k v fs ∷ ss) d =
    (rw (bytes_eq_refl k) refl, Told-cons k (returned_keys ss) ss d.0 (Told-returned_keys ss d.1))
Told-returned_keys (missing k fs ∷ ss) d = (not_returned k ss d.0, Told-returned_keys ss d.1)
Told-returned_keys (other k fs ∷ ss) d = Told-returned_keys ss d.1

wake_missed :
    (keys : List Bytes) (ss : List Slot) (done : Ops) (futures : ℕ → Future)
    → Apart done ss
    → Distinct ss
    → Told keys ss
    → wake_missing keys
        (asked ss)
        (record { ops = done ++ not_found ss; futures = futures; finished = false })
      ≡ running
          (record { ops = done ++ others ss; futures = let_down ss futures; finished = false })
unfolding wake_missing continue_with pop_and_settle pop_and_settle_found
wake_missed keys [] done futures h d t = refl
wake_missed keys (found k v fs ∷ ss) done futures h d t =
    rw t.0 (wake_missed keys ss done futures h.1 d.1 t.1)
wake_missed keys (missing k fs ∷ ss) done futures h d t =
    rw (t.0, pop-append k fs done (not_found ss) h.0)
      (wake_missed keys ss done (settle (result none) fs futures) h.1 d.1 t.1)
wake_missed keys (other k fs ∷ ss) done futures h d t =
    rw
      (
        append_assoc done ((k, fs) ∷ []) (not_found ss),
        append_assoc done ((k, fs) ∷ []) (others ss),
      )
      at
      (wake_missed keys ss (done ++ (k, fs) ∷ []) futures (Apart-snoc done (other k fs) ss h.1 d.0)
        d.1 t)

abbrev pub is_empty : Ops → Bool
is_empty [] = true
is_empty (o ∷ ops) = false

signals :
    (ops : Ops) (futures : ℕ → Future)
    → maybe_signal_termination (record { ops = ops; futures = futures; finished = false })
      ≡ running (record { ops = ops; futures = futures; finished = is_empty ops })
unfolding maybe_signal_termination
signals [] futures = refl
signals (o ∷ ops) futures = refl

batch_results-woken :
    (ss : List Slot) (flags cas : List (Option ℤ)) (futures : ℕ → Future)
    → Distinct ss
    → batch_results false false
        (asked ss)
        (returned_keys ss)
        (returned_values ss)
        flags
        cas
        (record { ops = ops_of ss; futures = futures; finished = false })
      ≡ running (record {
        ops = others ss;
        futures = let_down ss (woken ss futures);
        finished = is_empty (others ss);
      })
unfolding batch_results continue_with
batch_results-woken ss flags cas futures d =
    let apart : Apart [] ss = All-always (λ (s : Slot). Unit) (λ s. tt) ss in
    rw
      (
        wake_found ss [] [] (column flags) (column cas) futures apart d,
        wake_missed (returned_keys ss) ss [] (woken ss futures) apart d (Told-returned_keys ss d),
      )
      (signals (others ss) (let_down ss (woken ss futures)))

-- If nobody asked for flags or cas numbers, the batch operation on its share of the pending operations
-- resolves each pending future: one that waits for a key that the response has gets that key's value,
-- one that waits for a key of the batch that the response has not gets `None`, and one that waits for
-- neither stays pending. Futures that are done stay as they are. It takes exactly its own operations
-- off, leaves those of other batches in their order, and signals the end of the whole exactly if none of
-- them is left. The keys are distinct, and the response gives them in the order in which they were asked
-- for.
pub batch_results-settles :
    (ss : List Slot) (flags cas : List (Option ℤ)) (futures : ℕ → Future)
    → Distinct ss
    → batch_results false false
        (asked ss)
        (returned_keys ss)
        (returned_values ss)
        flags
        cas
        (record { ops = ops_of ss; futures = futures; finished = false })
      ≡ running (record {
        ops = others ss;
        futures = λ f. resolved ss f (futures f);
        finished = is_empty (others ss);
      })
batch_results-settles ss flags cas futures d = batch_results-woken ss flags cas futures d ∙ (λ i.
    running (record {
      ops = others ss;
      futures = let_down-woken ss futures i;
      finished = is_empty (others ss);
    }))
