-- ===== src/Errors.antt =====
-- Go error values as the gateway sees them, with errors.Is and errors.As.
-- An error is a tree: `wrap` has `Unwrap() error`, `join` has `Unwrap() []error`. The sentinels of
-- package context and of the resile library, resile's panic error, a JSON-RPC error and a network
-- error are constructors of their own, since the gateway tells them apart.
pub mod Chain
use mcp_resile.Base.{ℤ, Bytes, Bool, true, false, Option, none, some, is_some, if◌then◌else◌}

-- The payload structs that mustMarshal encodes, before they are JSON text.
pub data ErrorData : Type 0 where
  circuit_open_data : Bytes → ErrorData
  rate_limit_data : ℤ → Bytes → ErrorData
  timeout_data : Bytes → ErrorData
  invalid_params_data : Bytes → Bytes → ErrorData
  raw_data : Bytes → ErrorData

-- jsonrpc.Error
pub record RpcError : Type 0 where
  pub code : ℤ
  pub message : Bytes
  pub payload : Option ErrorData

mutual
  pub data GoError : Type 0 where
    plain : Bytes → GoError
    wrap : Bytes → GoError → GoError
    join : GoErrors → GoError
    circuit_open : GoError
    rate_limit_exceeded : GoError
    deadline_exceeded : GoError
    canceled : GoError
    panicked : Bytes → GoError
    rpc : RpcError → GoError
    net_op : Bytes → GoError → GoError

  pub data GoErrors : Type 0 where
    no_errors : GoErrors
    and_error : GoError → GoErrors → GoErrors

-- A value and a nil error, or an error.
pub data Result (A : Type 0) : Type 0 where
  ok : A → Result A
  err : GoError → Result A

abbrev pub or_else {ℓ} : {A : Type ℓ} → Option A → Option A → Option A
or_else none b = b
or_else (some a) b = some a

-- The walk of errors.Is and errors.As: the error itself, then what it unwraps to, depth first.
unfoldable mutual
  pub first_match : {A : Type 0} → (GoError → Option A) → GoError → Option A
  first_match f (plain m) = f (plain m)
  first_match f (wrap m e) = or_else (f (wrap m e)) (first_match f e)
  first_match f (join es) = or_else (f (join es)) (first_in f es)
  first_match f circuit_open = f circuit_open
  first_match f rate_limit_exceeded = f rate_limit_exceeded
  first_match f deadline_exceeded = f deadline_exceeded
  first_match f canceled = f canceled
  first_match f (panicked v) = f (panicked v)
  first_match f (rpc r) = f (rpc r)
  first_match f (net_op m e) = or_else (f (net_op m e)) (first_match f e)

  pub first_in : {A : Type 0} → (GoError → Option A) → GoErrors → Option A
  first_in f no_errors = none
  first_in f (and_error e es) = or_else (first_match f e) (first_in f es)

-- errors.As(err, &target), for the type whose values `f` recognises.
unfoldable pub errors_as : {A : Type 0} → (GoError → Option A) → GoError → Option A
unfolding first_match
errors_as f e = first_match f e

-- errors.Is(err, target), for the node test of `target`: identity, or the node's own Is method.
unfoldable pub errors_is : (GoError → Bool) → GoError → Bool
unfolding first_match
errors_is test e = is_some (first_match (λ x. if test x then some x else none) e)
