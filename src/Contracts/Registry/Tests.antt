-- ===== src/Contracts/Registry/Tests.antt =====
-- A schema that wants a text that is not empty, or no text at all.
use ai_content_platform.Prelude.{
  String, ◌≡◌, refl, Bool, true, false, Option, none, some, [], ◌∷◌, is_truthy, if◌then◌else◌,
}
use ai_content_platform.Contracts.Registry.{success, failure, Schema, Nullable, filter_valid}
use ai_content_platform.Contracts.Registry.Laws.{Filtered, filter_valid-Filtered}

abbrev is_none : Option String → Bool
is_none none = true
is_none (some s) = false

abbrev texts : Nullable (Option String)
texts = record { null = none; is_null = is_none }

abbrev schema : Schema (Option String) (Option String)
schema none = success none
schema (some s) =
    if is_truthy s
    then success (some s)
    else failure (record { path = []; text = "too short" } ∷ [])

loses_null : filter_valid texts schema (some "a" ∷ none ∷ some "" ∷ []) ≡ some "a" ∷ []
unfolding filter_valid
loses_null = refl

filter_valid-Filtered_example :
    Filtered texts schema "TextV1"
      (some "a" ∷ none ∷ some "" ∷ [])
      (filter_valid texts schema (some "a" ∷ none ∷ some "" ∷ []))
filter_valid-Filtered_example =
    filter_valid-Filtered texts schema "TextV1" refl (some "a" ∷ none ∷ some "" ∷ [])
