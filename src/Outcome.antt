-- ===== src/Outcome.antt =====
-- What an operation of the client does: the requests that it sends, and the value or the exception it
-- ends with (emcache/client_errors.py and the built-in exceptions that the client raises).
use emcache.Prelude.{ℕ, List, [], Bytes}

-- `runtime_error` is raised by a closed client; `timeout_error` by `create_client`;
-- `node_error` stands for what reaches the caller from
-- the connection: a timeout, a cancellation or an error of the response's parser.
pub data Error : Type 0 where
  runtime_error value_error no_available_nodes attribute_error assertion_error index_error
        node_error timeout_error :
      Error
  command_error not_found storage_command_error not_stored : Error

pub data Result {ℓ} (A : Type ℓ) : Type ℓ where
  returned : A → Result A
  failed : Error → Result A

-- The requests go to nodes, each with its bytes.
pub record Outcome {ℓ} (A : Type ℓ) : Type ℓ where
  pub sent : List (ℕ × Bytes)
  pub result : Result A

abbrev pub raise {ℓ} : {A : Type ℓ} → Error → Outcome A
raise e = record { sent = []; result = failed e }

-- What the caller makes of a result.
unfoldable pub and_then {ℓ κ} : {A : Type ℓ} {B : Type κ} → Result A → (A → Result B) → Result B
and_then (returned a) f = f a
and_then (failed e) f = failed e

abbrev pub finish {ℓ κ} : {A : Type ℓ} {B : Type κ} → Outcome A → (A → Result B) → Outcome B
finish o f = record { sent = o.sent; result = and_then o.result f }
