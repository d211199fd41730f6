-- ===== src/Contracts/Registry.antt =====
-- src/contracts/contract-registry.service.ts. A schema is its `safeParse`. The values of a `T` are
-- those of a type of the source together with `null`, as in its `T | null`.
pub mod Laws
mod Tests
use ai_content_platform.Prelude.{String, Bool, true, false, List, [], ◌∷◌, map, if◌then◌else◌}
use ai_content_platform.Exceptions.{contract_violation, Settled, resolved, rejected, ◌+s◌, join}

pub record ZodIssue : Type 0 where
  pub path : List String
  pub text : String

pub data Parsed (T : Type 0) : Type 0 where
  success : T → Parsed T
  failure : List ZodIssue → Parsed T

abbrev pub Schema : Type 0 → Type 0 → Type 0
Schema U T = U → Parsed T

abbrev path_prefix : List String → String
path_prefix [] = ""
path_prefix (x ∷ xs) = join "." (x ∷ xs) +s ": "

abbrev pub format_issues : List ZodIssue → String
format_issues issues = join "; " (map (λ i. path_prefix i.path +s i.text) issues)

module _ {T : Type 0} where
  abbrev settled : String → Parsed T → Settled T
  settled name (success t) = resolved t
  settled name (failure issues) = rejected (contract_violation name (format_issues issues))

-- The value `null` of a type, and the test for it.
pub record Nullable (T : Type 0) : Type 0 where
  pub null : T
  pub is_null : T → Bool

module _ {T : Type 0} (n : Nullable T) where
  abbrev pub accepted : Parsed T → T
  accepted (success t) = t
  accepted (failure issues) = n.null

  -- `if (result !== null) valid.push(result)`.
  abbrev pub pushed : T → List T → List T
  pushed t valid = if n.is_null t then valid else t ∷ valid

module _ {U T : Type 0} where
  unfoldable pub validate : Schema U T → U → String → Settled T
  validate schema u name = settled name (schema u)

module _ {U T : Type 0} (n : Nullable T) where
  -- A value that is not accepted gives `null`, and so does an accepted `null`.
  unfoldable pub validate_safe : Schema U T → U → T
  validate_safe schema u = accepted n (schema u)

  unfoldable pub filter_valid : Schema U T → List U → List T
  unfolding validate_safe
  filter_valid schema [] = []
  filter_valid schema (u ∷ us) = pushed n (validate_safe schema u) (filter_valid schema us)
