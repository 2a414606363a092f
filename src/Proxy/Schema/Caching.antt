-- ===== src/Proxy/Schema/Caching.antt =====
-- What a listing leaves in the schema cache.
use mcp_resile.Base.{
  Bytes, true, false, Option, none, some, List, [], ◌∷◌, ◌++◌, ◌≡◌, ◌≢◌, ◌∙◌, refl, ◌⊎◌, inl, inr,
  All, str_eq, str_eq_iff, Option-cases, not-true→false,
}
use mcp_resile.Base.Dict.{lookup, lookup-insert}
use mcp_resile.Proxy.Schema.{Tool, Json, SchemaCache, compile_schema, store, refresh, refresh_all}

-- The compiled schema that a tool gives the cache, if it gives one.
abbrev pub schema_of : Json → Tool → Option Bytes
schema_of json tool = elim tool.input_schema [ none ↦ none | some raw ↦ compile_schema json raw ]

store_schema :
    (json : Json) (name : Bytes) (tool : Tool) (cache : SchemaCache)
    → refresh json name tool cache ≡ store name (schema_of json tool) cache
unfolding refresh
store_schema json name tool cache = elim (Option-cases tool.input_schema) [
  | inl e ↦ rw e refl
  | inr (raw, e) ↦ rw e refl
]

-- What a listed tool leaves under a name depends on what stood there.
pub refresh_cong :
    (json : Json) (name full : Bytes) (tool : Tool) (cache other : SchemaCache)
    → lookup full cache ≡ lookup full other
    → lookup full (refresh json name tool cache) ≡ lookup full (refresh json name tool other)
refresh_cong json name full tool cache other e = elim (Option-cases (schema_of json tool)) [
  | inl nothing ↦
      rw (store_schema json name tool cache, store_schema json name tool other, nothing) e
  | inr (c, some_schema) ↦
      rw
        (
          store_schema json name tool cache,
          store_schema json name tool other,
          some_schema,
          lookup-insert name full c cache,
          lookup-insert name full c other,
          e,
        )
        refl
]

module _ (json : Json) (prefix full : Bytes) where
  -- The tool has another name, or gives the cache no schema.
  abbrev pub IsSilent : Tool → Type 0
  IsSilent tool = (prefix ++ tool.name ≢ full) ⊎ (schema_of json tool ≡ none)

  refresh-IsSilent :
      (tool : Tool) (cache : SchemaCache)
      → IsSilent tool
      → lookup full (refresh json (prefix ++ tool.name) tool cache) ≡ lookup full cache
  refresh-IsSilent tool cache silent = elim (Option-cases (schema_of json tool)) [
    | inl e ↦ rw (store_schema, e) refl
    | inr (c, e) ↦ elim silent [
      | inl differs ↦
          let other : str_eq (prefix ++ tool.name) full ≡ false =
            not-true→false _ (λ t. differs ((str_eq_iff _ full).0 t)) in
          rw (store_schema, e, lookup-insert, other) refl
      | inr nothing ↦ absurd (cc)
    ]
  ]

  -- A listing in which no tool of a name has a schema that compiles leaves that name's entry as
  -- it was, also when an earlier listing had made one.
  pub refresh_all-IsSilent :
      (tools : List Tool) (cache : SchemaCache)
      → All IsSilent tools
      → lookup full (refresh_all json prefix tools cache) ≡ lookup full cache
  unfolding refresh_all
  refresh_all-IsSilent [] cache h = refl
  refresh_all-IsSilent (tool ∷ tools) cache (h, hs) =
      refresh_all-IsSilent tools (refresh json (prefix ++ tool.name) tool cache) hs
      ∙ refresh-IsSilent tool cache h

  -- After a listing the entry of a name is the compiled schema of the last tool of that name whose
  -- schema compiles.
  pub refresh_all-last :
      (before after : List Tool) (tool : Tool) (c : Bytes) (cache : SchemaCache)
      → prefix ++ tool.name ≡ full
      → schema_of json tool ≡ some c
      → All IsSilent after
      → lookup full (refresh_all json prefix (before ++ tool ∷ after) cache) ≡ some c
  unfolding refresh_all
  refresh_all-last [] after tool c cache named e h =
      let same : str_eq (prefix ++ tool.name) full ≡ true = (str_eq_iff _ full).1 named in
      refresh_all-IsSilent after (refresh json (prefix ++ tool.name) tool cache) h
      ∙ rw (store_schema, e, lookup-insert, same) refl
  refresh_all-last (u ∷ before) after tool c cache named e h =
      refresh_all-last before after tool c (refresh json (prefix ++ u.name) u cache) named e h
