-- ===== src/Contracts/Registry/Laws.antt =====
-- The soft filter of the registry, described by its hard mode.
use ai_content_platform.Prelude.{
  String, ◌≡◌, refl, true, false, List, [], ◌∷◌, ap, Bool-cases, inl, inr,
}
use ai_content_platform.Exceptions.{Thrown, resolved, rejected}
use ai_content_platform.Contracts.Registry.{
  Parsed, success, failure, Schema, Nullable, settled, validate, accepted, validate_safe, pushed,
  filter_valid,
}

module _ {U T : Type 0} (n : Nullable T) (schema : Schema U T) (name : String) where
  -- What the filter makes of a list, item by item, in the terms of `validate`: an item that it
  -- refuses is dropped, one that it accepts is kept as `validate` returns it, unless that is
  -- `null`, which is lost.
  pub data Filtered : List U → List T → Type 0 where
    finished : Filtered [] []
    refused :
        (u : U) (e : Thrown) (us : List U) (ts : List T)
        → validate schema u name ≡ rejected e
        → Filtered us ts
        → Filtered (u ∷ us) ts
    kept :
        (u : U) (t : T) (us : List U) (ts : List T)
        → validate schema u name ≡ resolved t
        → n.is_null t ≡ false
        → Filtered us ts
        → Filtered (u ∷ us) (t ∷ ts)
    lost :
        (u : U) (t : T) (us : List U) (ts : List T)
        → validate schema u name ≡ resolved t
        → n.is_null t ≡ true
        → Filtered us ts
        → Filtered (u ∷ us) ts

  module _ (empty : n.is_null n.null ≡ true) where
    by_outcome :
        (u : U) (us : List U) (ts : List T) (given : Parsed T)
        → schema u ≡ given
        → Filtered us ts
        → Filtered (u ∷ us) (pushed n (accepted n given) ts)
    unfolding validate
    by_outcome u us ts (failure issues) e rest =
        rw empty (refused u _ us ts (ap (settled name) e) rest)
    by_outcome u us ts (success t) e rest = elim (Bool-cases (n.is_null t)) [
      | inl null ↦ rw null (lost u t us ts (ap (settled name) e) null rest)
      | inr some_value ↦ rw some_value (kept u t us ts (ap (settled name) e) some_value rest)
    ]

    -- The filter drops the items that `validate` refuses, and keeps those that it accepts in their
    -- order and as it returns them, except that an accepted item whose value is `null` is lost.
    -- This takes the test for `null` to hold of `null`.
    pub filter_valid-Filtered : (items : List U) → Filtered items (filter_valid n schema items)
    unfolding filter_valid validate_safe
    filter_valid-Filtered [] = finished
    filter_valid-Filtered (u ∷ us) =
        by_outcome u us (filter_valid n schema us) (schema u) refl (filter_valid-Filtered us)
