-- ===== src/Proxy/Route/Capabilities.antt =====
-- MergeCapabilities, internal/proxy/proxy.go.
use mcp_resile.Base.{
  Bool, true, false, ◌||◌, Option, none, some, List, [], ◌∷◌, ◌≡◌, refl, ◌↔◌, ◌⊎◌, inl, inr, arith,
  is_some,
}

pub record ToolCapabilities : Type 0 where
  pub list_changed : Bool

pub record ResourceCapabilities : Type 0 where
  pub list_changed : Bool
  pub subscribe : Bool

pub record PromptCapabilities : Type 0 where
  pub list_changed : Bool

-- The fields of mcp.ServerCapabilities that the gateway reads and sets.
pub record ServerCapabilities : Type 0 where
  pub logging : Bool
  pub tools : Option ToolCapabilities
  pub resources : Option ResourceCapabilities
  pub prompts : Option PromptCapabilities

abbrev merge_tools : Option ToolCapabilities → Option ToolCapabilities → Option ToolCapabilities
merge_tools merged none = merged
merge_tools none (some c) = some (record { list_changed = false || c.list_changed })
merge_tools (some m) (some c) = some (record { list_changed = m.list_changed || c.list_changed })

abbrev merge_resources :
    Option ResourceCapabilities → Option ResourceCapabilities → Option ResourceCapabilities
merge_resources merged none = merged
merge_resources none (some c) =
    some (record { list_changed = false || c.list_changed; subscribe = false || c.subscribe })
merge_resources (some m) (some c) = some (record {
  list_changed = m.list_changed || c.list_changed;
  subscribe = m.subscribe || c.subscribe;
})

abbrev merge_prompts :
    Option PromptCapabilities → Option PromptCapabilities → Option PromptCapabilities
merge_prompts merged none = merged
merge_prompts none (some c) = some (record { list_changed = false || c.list_changed })
merge_prompts (some m) (some c) = some (record { list_changed = m.list_changed || c.list_changed })

-- One round of the loop; a backend without capabilities is skipped.
unfoldable pub merge_one : ServerCapabilities → Option ServerCapabilities → ServerCapabilities
merge_one merged none = merged
merge_one merged (some caps) = record merged {
  tools = merge_tools merged.tools caps.tools;
  resources = merge_resources merged.resources caps.resources;
  prompts = merge_prompts merged.prompts caps.prompts;
}

merge_from : ServerCapabilities → List (Option ServerCapabilities) → ServerCapabilities
merge_from merged [] = merged
merge_from merged (c ∷ cs) = merge_from (merge_one merged c) cs

abbrev pub only_logging : ServerCapabilities
only_logging = record { logging = true; tools = none; resources = none; prompts = none }

-- MergeCapabilities, over the capabilities of the routes' backends in order.
unfoldable pub merge_capabilities : List (Option ServerCapabilities) → ServerCapabilities
unfolding merge_from merge_one
merge_capabilities = merge_from only_logging

-- What a set of capabilities offers, flag by flag.
pub data Feature : Type 0 where
  tools tools_changed resources resources_changed resources_subscribe prompts prompts_changed :
      Feature

abbrev tools_flag : Option ToolCapabilities → Bool
tools_flag none = false
tools_flag (some c) = c.list_changed

abbrev resources_flag : Option ResourceCapabilities → Bool
resources_flag none = false
resources_flag (some c) = c.list_changed

abbrev subscribe_flag : Option ResourceCapabilities → Bool
subscribe_flag none = false
subscribe_flag (some c) = c.subscribe

abbrev prompts_flag : Option PromptCapabilities → Bool
prompts_flag none = false
prompts_flag (some c) = c.list_changed

abbrev pub offers : Feature → ServerCapabilities → Bool
offers tools c = is_some c.tools
offers tools_changed c = tools_flag c.tools
offers resources c = is_some c.resources
offers resources_changed c = resources_flag c.resources
offers resources_subscribe c = subscribe_flag c.resources
offers prompts c = is_some c.prompts
offers prompts_changed c = prompts_flag c.prompts

abbrev pub offered : Feature → Option ServerCapabilities → Bool
offered f none = false
offered f (some c) = offers f c

offers-merge_one :
    (f : Feature) (m : ServerCapabilities) (c : Option ServerCapabilities)
    → offers f (merge_one m c) ≡ (offers f m || offered f c)
unfolding merge_one
offers-merge_one tools m c = ground arith
offers-merge_one _ m c = ground arith

-- Some backend of the list offers the feature.
abbrev pub AnyOffers : Feature → List (Option ServerCapabilities) → Type 0
AnyOffers f [] = ⊥
AnyOffers f (c ∷ cs) = (offered f c ≡ true) ⊎ AnyOffers f cs

offers-merge_from :
    (f : Feature) (m : ServerCapabilities) (cs : List (Option ServerCapabilities))
    → (offers f (merge_from m cs) ≡ true) ↔ ((offers f m ≡ true) ⊎ AnyOffers f cs)
unfolding merge_from
offers-merge_from f m [] = (inl, λ o. elim o [ inl h ↦ h | inr h ↦ absurd h ])
offers-merge_from f m (c ∷ cs) =
    ground (arith, offers-merge_from f (merge_one m c) cs, offers-merge_one f m c)

logging-merge_from :
    (m : ServerCapabilities) (cs : List (Option ServerCapabilities))
    → (merge_from m cs).logging ≡ m.logging
unfolding merge_from merge_one
logging-merge_from m [] = refl
logging-merge_from m (none ∷ cs) = logging-merge_from m cs
logging-merge_from m (some c ∷ cs) = logging-merge_from (merge_one m (some c)) cs

only_logging-offers : (f : Feature) → offers f only_logging ≡ false
only_logging-offers tools = refl
only_logging-offers _ = refl

-- A feature (tools, resources, prompts, and each of their flags) is advertised exactly when some
-- backend advertises it, and logging always is.
pub merge_capabilities_union :
    (f : Feature) (cs : List (Option ServerCapabilities))
    → ((offers f (merge_capabilities cs) ≡ true) ↔ AnyOffers f cs)
      × ((merge_capabilities cs).logging ≡ true)
unfolding merge_capabilities
merge_capabilities_union f cs = (
  ground (arith, offers-merge_from f only_logging cs, only_logging-offers f),
  logging-merge_from only_logging cs,
)
