-- ===== src/Tools/Registry.antt =====
-- src/tools/tools.registry.ts and src/common/interfaces/tool.interface.ts. `J` stands for JSON
-- values, `S` for the state that a call may change.
pub mod Laws
mod Tests
use ai_content_platform.Prelude.{String, Bool, Option, none, some, List, [], ◌∷◌, lookup, insert}
use ai_content_platform.Exceptions.{Thrown, error, Settled, resolved, rejected, ◌+s◌}
use ai_content_platform.Llm.Provider.{LlmTool}

abbrev pub ToolInput : Type 0 → Type 0
ToolInput J = List (String × J)

pub record ToolOutput (J : Type 0) : Type 0 where
  pub success : Bool
  pub result : Option J
  pub error_text : Option String

pub record Itool (J S : Type 0) : Type 0 where
  pub name : String
  pub description : String
  pub input_schema : J
  pub execute : ToolInput J → S → Settled (ToolOutput J) × S

module _ {J S : Type 0} where
  -- The constructor: a later tool replaces one of the same name.
  unfoldable pub registry_of :
      List (Itool J S) → List (String × Itool J S) → List (String × Itool J S)
  registry_of [] m = m
  registry_of (t ∷ ts) m = registry_of ts (insert t.name t m)

  unfoldable pub get : String → List (String × Itool J S) → Settled (Itool J S)
  get name registry = elim (lookup name registry) [
    | none ↦ rejected (error ("Tool '" +s name +s "' not registered"))
    | some t ↦ resolved t
  ]

  -- `list`.
  unfoldable pub list_tools : List (String × Itool J S) → List (Itool J S)
  list_tools [] = []
  list_tools ((k, t) ∷ m) = t ∷ list_tools m

  unfoldable pub tool_views : List (Itool J S) → List (LlmTool J)
  tool_views [] = []
  tool_views (t ∷ ts) =
      record { name = t.name; description = t.description; parameters = t.input_schema }
      ∷ tool_views ts

  -- `toLLMTools`.
  unfoldable pub to_llm_tools : List (String × Itool J S) → List (LlmTool J)
  unfolding list_tools tool_views
  to_llm_tools registry = tool_views (list_tools registry)
