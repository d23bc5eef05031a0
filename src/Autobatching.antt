-- ===== src/Autobatching.antt =====
-- emcache/autobatching.py: fetches of one loop iteration that travel together. A future is a number;
-- `futures` says what has become of each. The dictionary of operations is its items in order.
pub mod Batches
pub mod Columns
pub mod Completion
pub mod Resolved
pub mod Found
pub mod Settled
pub mod Finish
pub mod Sending
use emcache.Prelude.{
  ℕ, zero, suc, ◌+◌, ◌<◌, ◌≡◌, refl, Bool, true, false, not, ◌&&◌, ◌||◌, Option, none, some, List,
  [], ◌∷◌, ◌++◌, Bytes, bytes_eq, length, take, drop, ◌==◌, if◌then◌else◌, ℤ, pos,
}
use emcache.KeyValidation.{is_key_valid}
use emcache.Client.Fetch.{Item, has_key}

pub data Exception : Type 0 where
  runtime_error value_error key_error index_error type_error timeout_error : Exception

pub data Future : Type 0 where
  pending : Future
  result : Option Item → Future
  exception : Exception → Future
  cancelled : Future

-- A cancelled future counts as done, like the others that are not pending.
unfoldable pub is_done : Future → Bool
is_done pending = false
is_done (result i) = true
is_done (exception e) = true
is_done cancelled = true

abbrev pub Ops : Type 0
Ops = List (Bytes × List ℕ)

-- `if not future.done(): future.set_...`, for each future of a list.
unfoldable pub settle : Future → List ℕ → (ℕ → Future) → ℕ → Future
unfolding is_done
settle r [] futures f = futures f
settle r (g ∷ gs) futures f =
    let rest = settle r gs futures f in if f == g && not (is_done (futures f)) then r else rest

-- `ops.pop(key)`; `none` is the `KeyError`.
unfoldable pub pop : Bytes → Ops → Option (List ℕ × Ops)
pop key [] = none
pop key ((k, futures) ∷ ops) =
    let rest = pop key ops in
    if bytes_eq key k
    then some (futures, ops)
    else elim rest [ none ↦ none | some (found, others) ↦ some (found, (k, futures) ∷ others) ]

-- `_InflightBatches`: `finished` says that `_on_finish` was called.
pub record Batch : Type 0 where
  pub ops : Ops
  pub futures : ℕ → Future
  pub finished : Bool

-- How a batch operation stands: still running, or ended by an exception that nobody waits for.
pub data Progress : Type 0 where
  running : Batch → Progress
  crashed : Exception → Batch → Progress

unfoldable pub continue_with : Progress → (Batch → Progress) → Progress
continue_with (running b) f = f b
continue_with (crashed e b) f = crashed e b

unfoldable pub pop_and_settle_found : Future → Batch → Option (List ℕ × Ops) → Progress
unfolding settle
pop_and_settle_found r b none = crashed key_error b
pop_and_settle_found r b (some (futures, ops)) =
    running (record b { ops = ops; futures = settle r futures b.futures })

-- The futures of a key are taken off the operations and settled.
unfoldable pub pop_and_settle : Future → Bytes → Batch → Progress
unfolding pop pop_and_settle_found
pop_and_settle r key b = pop_and_settle_found r b (pop key b.ops)

-- The local variable `flags` or `cas`: the list of the results, or what an earlier round of the loop
-- has assigned to it.
pub data Variable : Type 0 where
  column : List (Option ℤ) → Variable
  scalar : Option ℤ → Variable

pub data Subscript {ℓ} (A : Type ℓ) : Type ℓ where
  item : A → Subscript A
  error : Exception → Subscript A

unfoldable pub index {ℓ} : {A : Type ℓ} → List A → ℕ → Subscript A
index [] i = error index_error
index (a ∷ l) zero = item a
index (a ∷ l) (suc i) = index l i

-- `variable[idx] if wanted else None`.
unfoldable pub subscript : Bool → Variable → ℕ → Subscript (Option ℤ)
unfolding index
subscript false v idx = item none
subscript true (column l) idx = index l idx
subscript true (scalar n) idx = error type_error

unfoldable pub with_item {ℓ} : {A : Type ℓ} → Batch → Subscript A → (A → Progress) → Progress
with_item b (item a) f = f a
with_item b (error e) f = crashed e b

-- The loop over the returned keys; both variables are assigned in every round.
unfoldable pub wake_returned :
    Bool → Bool → List Bytes → List Bytes → Variable → Variable → ℕ → Batch → Progress
unfolding subscript with_item pop_and_settle continue_with index
wake_returned return_flags return_cas [] values flags cas idx b = running b
wake_returned return_flags return_cas (key ∷ keys) values flags cas idx b =
    with_item b (index values idx) (λ value. with_item b (subscript return_flags flags idx) (λ f.
      with_item b (subscript return_cas cas idx) (λ c.
        continue_with
          (pop_and_settle (result (some (record { value = value; flags = f; cas = c }))) key b)
          (wake_returned return_flags return_cas keys values (scalar f) (scalar c) (suc idx)))))

-- The loop over `set(keys) - set(returned_keys)`. The keys of a batch are distinct.
unfoldable pub wake_missing : List Bytes → List Bytes → Batch → Progress
unfolding pop_and_settle continue_with
wake_missing returned [] b = running b
wake_missing returned (key ∷ keys) b =
    if has_key key returned
    then wake_missing returned keys b
    else continue_with (pop_and_settle (result none) key b) (wake_missing returned keys)

-- `_maybe_signal_termination()`.
unfoldable pub maybe_signal_termination : Batch → Progress
maybe_signal_termination b =
    running (elim b.ops [ [] ↦ record b { finished = true } | o ∷ ops ↦ b ])

-- `_batch_operation` once the results are there.
unfoldable pub batch_results :
    Bool
    → Bool
    → List Bytes
    → List Bytes
    → List Bytes
    → List (Option ℤ)
    → List (Option ℤ)
    → Batch
    → Progress
unfolding wake_returned wake_missing maybe_signal_termination continue_with
batch_results return_flags return_cas keys returned values flags cas b =
    continue_with
      (continue_with
        (wake_returned return_flags return_cas returned values (column flags) (column cas) 0 b)
        (wake_missing returned keys))
      maybe_signal_termination

-- Its handler of the timeout.
unfoldable pub fail_all : List Bytes → Batch → Progress
unfolding pop_and_settle continue_with
fail_all [] b = running b
fail_all (key ∷ keys) b =
    continue_with (pop_and_settle (exception timeout_error) key b) (fail_all keys)

unfoldable pub batch_timeout : List Bytes → Batch → Progress
unfolding fail_all maybe_signal_termination continue_with
batch_timeout keys b = continue_with (fail_all keys b) maybe_signal_termination

-- The `while keys` loop of `_start` for one node, with the number of keys as fuel.
unfoldable pub slices : ℕ → ℕ → List Bytes → List (List Bytes)
slices fuel max_keys [] = []
slices zero max_keys (k ∷ keys) = []
slices (suc fuel) max_keys (k ∷ keys) =
    take max_keys (k ∷ keys) ∷ slices fuel max_keys (drop max_keys (k ∷ keys))
