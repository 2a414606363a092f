-- ===== src/Proxy/Schema.antt =====
-- internal/proxy/schema.go: the cache of compiled input schemas, and the check of arguments.
-- JSON and JSON Schema are libraries: a raw schema, a compiled schema and a JSON value are opaque
-- texts here, and what is done with them is a parameter. The cache's lock makes each access atomic.
pub mod Caching
use mcp_resile.Base.{
  Bytes, codes, Bool, Option, none, some, List, [], ◌∷◌, ◌++◌, is_empty, ℤ, if◌then◌else◌,
}
use mcp_resile.Base.Dict.{Dict, lookup, insert}
use mcp_resile.Errors.{GoError, plain, rpc, invalid_params_data}
use mcp_resile.Proxy.Errors.{code_invalid_params}

-- mcp.Tool; `rest` is every field that the proxy only passes on.
pub record Tool : Type 0 where
  pub name : Bytes
  pub input_schema : Option Bytes
  pub rest : Bytes

-- json.Marshal, json.Unmarshal into a Schema, Schema.Resolve, json.Unmarshal into a value (an error
-- is its text), and Resolved.Validate (`none` if the value conforms).
pub record Json : Type 0 where
  pub marshal : Bytes → Option Bytes
  pub unmarshal_schema : Bytes → Option Bytes
  pub resolve_schema : Bytes → Option Bytes
  pub empty_object : Bytes
  pub unmarshal : Bytes → Option Bytes
  pub unmarshal_error : Bytes → Bytes
  pub validate : Bytes → Bytes → Option Bytes

abbrev pub SchemaCache : Type 0
SchemaCache = Dict Bytes

abbrev pub new_schema_cache : SchemaCache
new_schema_cache = []

-- schemaCache.get
abbrev pub get : Bytes → SchemaCache → Option Bytes
get name cache = lookup name cache

infixl 5 ◌>>=◌
abbrev ◌>>=◌ : {A B : Type 0} → Option A → (A → Option B) → Option B
none >>= f = none
some a >>= f = f a

unfoldable pub compile_schema : Json → Bytes → Option Bytes
compile_schema json raw = do
  input ← json.marshal raw
  schema ← json.unmarshal_schema input
  json.resolve_schema schema

abbrev pub store : Bytes → Option Bytes → SchemaCache → SchemaCache
store name none cache = cache
store name (some resolved) cache = insert name resolved cache

-- schemaCache.refresh; both callers drop its error.
unfoldable pub refresh : Json → Bytes → Tool → SchemaCache → SchemaCache
refresh json name tool cache = elim tool.input_schema [
  | none ↦ cache
  | some raw ↦ store name (compile_schema json raw) cache
]

-- The loop of resolveTool.
unfoldable pub refresh_all : Json → Bytes → List Tool → SchemaCache → SchemaCache
refresh_all json prefix [] cache = cache
refresh_all json prefix (tool ∷ tools) cache =
    refresh_all json prefix tools (refresh json (prefix ++ tool.name) tool cache)

-- invalidParamsError
unfoldable pub invalid_params_error : Bytes → Bytes → GoError
invalid_params_error tool detail = rpc (record {
  code = code_invalid_params;
  message = codes "Invalid params";
  payload = some (invalid_params_data tool detail);
})

-- What Validate reports, as the error of the call.
abbrev pub report : Bytes → Option Bytes → Option GoError
report tool none = none
report tool (some detail) = some (invalid_params_error tool detail)

-- From the decoding of the arguments on; `none` is a JSON error.
abbrev pub after_decoding : Json → Bytes → Bytes → Bytes → Option Bytes → Option GoError
after_decoding json resolved tool raw none =
    some (invalid_params_error tool (codes "arguments: invalid JSON: " ++ json.unmarshal_error raw))
after_decoding json resolved tool raw (some value) = report tool (json.validate resolved value)

unfoldable pub validate_arguments : Json → Bytes → Bytes → Bytes → Option GoError
validate_arguments json resolved tool raw =
    if is_empty raw
    then report tool (json.validate resolved json.empty_object)
    else after_decoding json resolved tool raw (json.unmarshal raw)
