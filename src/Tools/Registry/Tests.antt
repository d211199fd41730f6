-- ===== src/Tools/Registry/Tests.antt =====
-- A registry of three tools, two of one name.
use ai_content_platform.Prelude.{ℕ, String, ◌≡◌, refl, true, none, List, [], ◌∷◌, lookup, insert}
use ai_content_platform.Exceptions.{resolved}
use ai_content_platform.Tools.Registry.{Itool, registry_of, get}

abbrev tool : String → String → Itool String ℕ
tool name description = record {
  name = name;
  description = description;
  input_schema = "";
  execute = λ input s. (resolved (record { success = true; result = none; error_text = none }), s);
}

abbrev tools : List (Itool String ℕ)
tools = tool "a" "old" ∷ tool "b" "" ∷ tool "a" "new" ∷ []

gets_last : get "a" (registry_of tools []) ≡ resolved (tool "a" "new")
unfolding get registry_of lookup insert
gets_last = refl
