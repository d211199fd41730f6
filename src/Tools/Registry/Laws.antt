-- ===== src/Tools/Registry/Laws.antt =====
-- Which tool a name stands for.
use ai_content_platform.Prelude.{
  String, ◌≡◌, refl, sym, ◌∙◌, Option, none, some, List, [], ◌∷◌, ◌==◌, if◌then◌else◌, arith,
  eq_iff, lookup, insert, lookup-insert, Option-cases, Bool-cases, inl, inr,
}
use ai_content_platform.Exceptions.{resolved}
use ai_content_platform.Tools.Registry.{Itool, registry_of, get}

module _ {J S : Type 0} where
  -- The last of the tools with a name, and otherwise what was there.
  abbrev pub last_named : String → List (Itool J S) → Option (Itool J S) → Option (Itool J S)
  last_named name [] before = before
  last_named name (t ∷ ts) before = last_named name ts (if t.name == name then some t else before)

  pub lookup-registry_of :
      (name : String) (ts : List (Itool J S)) (m : List (String × Itool J S))
      → lookup name (registry_of ts m) ≡ last_named name ts (lookup name m)
  unfolding registry_of
  lookup-registry_of name [] m = refl
  lookup-registry_of name (t ∷ ts) m =
      lookup-registry_of name ts (insert t.name t m) ∙ rw (lookup-insert t.name name t m) refl

  last_named-name :
      (name : String) (ts : List (Itool J S)) (before : Option (Itool J S)) (t : Itool J S)
      → ((u : Itool J S) → before ≡ some u → u.name ≡ name)
      → last_named name ts before ≡ some t
      → t.name ≡ name
  last_named-name name [] before t h e = h t e
  last_named-name name (x ∷ ts) before t h e = elim (Bool-cases (x.name == name)) [
    | inl same ↦
        last_named-name name ts (some x) t (λ u k. ground (arith, eq_iff x.name name))
          (rw same at e)
    | inr other ↦ last_named-name name ts before t h (rw other at e)
  ]

  -- A tool that is got from a registry of some tools is the last one of them with the name that was
  -- asked for, and has that name.
  pub get-registry_of :
      (name : String) (ts : List (Itool J S)) (t : Itool J S)
      → get name (registry_of ts []) ≡ resolved t
      → (last_named name ts none ≡ some t) × (t.name ≡ name)
  unfolding get lookup
  get-registry_of name ts t h = elim (Option-cases (lookup name (registry_of ts []))) [
    | inl e ↦ absurd (ground arith)
    | inr (u, e) ↦
        let last : last_named name ts none ≡ some t =
          sym (lookup-registry_of name ts []) ∙ ground arith in
        (last, last_named-name name ts none t (λ v k. cc) last)
  ]
