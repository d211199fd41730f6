-- ===== src/Brands/Laws.antt =====
-- The life of a brand: it is found while it is active, and never again once it is deactivated.
use ai_content_platform.Prelude.{
  ℕ, String, ◌≡◌, refl, Bool, true, false, Option, none, some, List, [], ◌∷◌, ◌==◌, if◌then◌else◌,
  arith, eq_iff, Option-cases, inl, inr,
}
use ai_content_platform.Exceptions.{brand_not_found, resolved, rejected, ◌+s◌}
use ai_content_platform.Brands.{
  BrandEntity, CreateBrandDto, ConfigPatch, save, find_active, find_by_id, patched, update_config,
  deactivate,
}

-- The primary key: no two rows have the same `id`.
abbrev pub has_id : String → List BrandEntity → Bool
has_id id [] = false
has_id id (x ∷ xs) = if x.id == id then true else has_id id xs

abbrev pub IsKeyed : List BrandEntity → Type 0
IsKeyed [] = Unit
IsKeyed (x ∷ xs) = (has_id x.id xs ≡ false) × IsKeyed xs

missing : (id : String) (xs : List BrandEntity) → has_id id xs ≡ false → find_active id xs ≡ none
unfolding find_active
missing id [] h = refl
missing id (x ∷ xs) h = ground (arith, missing id xs)

find_active-save :
    (b : BrandEntity) (j : String) (xs : List BrandEntity)
    → IsKeyed xs
    → find_active j (save b xs)
      ≡ (if b.id == j then (if b.is_active then some b else none) else find_active j xs)
unfolding find_active save
find_active-save b j [] k = ground (arith, eq_iff b.id j)
find_active-save b j (x ∷ xs) (absent, k) =
    ground (
      arith,
      eq_iff b.id j,
      eq_iff x.id b.id,
      eq_iff x.id j,
      missing j xs,
      find_active-save b j xs k,
    )

find_active-id :
    (id : String) (xs : List BrandEntity) (b : BrandEntity)
    → find_active id xs ≡ some b
    → (b.id ≡ id) × (b.is_active ≡ true)
unfolding find_active
find_active-id id [] b h = cc
find_active-id id (x ∷ xs) b h = ground (arith, eq_iff x.id id, find_active-id id xs b)

-- The value of an optional field: the one that is given, or the default.
pub data Filled {A : Type 0} (standard : A) : Option A → A → Type 0 where
  given : (a : A) → Filled standard (some a) a
  omitted : Filled standard none standard

-- A new brand: active, as the request says, with the defaults for what the request leaves out.
pub record IsCreated (id : String) (now : ℕ) (dto : CreateBrandDto) (b : BrandEntity) : Type 0 where
  pub key : b.id ≡ id
  pub active : b.is_active ≡ true
  pub time : b.created_at ≡ now
  pub names : (b.slug ≡ dto.slug) × (b.name ≡ dto.name)
  pub tone : b.config.default_tone ≡ dto.default_tone
  pub models : b.config.allowed_models ≡ dto.allowed_models
  pub provider : b.config.preferred_provider ≡ dto.preferred_provider
  pub rag : Filled true dto.rag_enabled b.config.rag_enabled
  pub length : Filled 2000 dto.max_content_length b.config.max_content_length
  pub prompt :
      Filled
        ("You are a professional content writer for " +s dto.name
          +s ". Write clear, engaging, and accurate content that represents the brand's values. Always maintain brand consistency and focus on providing value to the audience.")
        dto.system_prompt
        b.config.system_prompt

-- In a table with one row for each key, deactivation of an active brand succeeds; from then on the
-- brand is not found, and every other brand is as before.
pub deactivate_lem :
    (id j : String) (table : List BrandEntity) (b : BrandEntity)
    → IsKeyed table
    → find_by_id id table ≡ resolved b
    → ((deactivate id table).0 ≡ resolved tt)
      × (find_by_id j (deactivate id table).1
          ≡ (if id == j then rejected (brand_not_found j) else find_by_id j table))
unfolding deactivate find_by_id
deactivate_lem id j table b k h = elim (Option-cases (find_active id table)) [
  | inl e ↦ absurd (ground arith)
  | inr (c, e) ↦
      let (same, on) = find_active-id id table c e in
      ground (arith, find_active-save (record c { is_active = false }) j table k)
]

-- In a table with one row for each key, an update of an active brand changes exactly the fields
-- that it gives, and only of the brand that it names.
pub update_config_lem :
    (id j : String) (p : ConfigPatch) (table : List BrandEntity) (b : BrandEntity)
    → IsKeyed table
    → find_by_id id table ≡ resolved b
    → find_by_id j (update_config id p table).1 ≡ (
        if id == j then resolved (record b { config = patched p b.config }) else find_by_id j table)
unfolding update_config find_by_id
update_config_lem id j p table b k h = elim (Option-cases (find_active id table)) [
  | inl e ↦ absurd (ground arith)
  | inr (c, e) ↦
      let (same, on) = find_active-id id table c e in
      ground (arith, find_active-save (record c { config = patched p c.config }) j table k)
]
