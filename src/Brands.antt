-- ===== src/Brands.antt =====
-- src/brands: the brands of the platform over their table.
pub mod Laws
pub mod Tests
use ai_content_platform.Prelude.{
  ℕ, String, Bool, true, false, ◌&&◌, Option, none, some, List, [], ◌∷◌, ◌==◌, if◌then◌else◌, keep,
}
use ai_content_platform.Domain.{Tone, LlmProvider, BrandConfig}
use ai_content_platform.Exceptions.{brand_not_found, Settled, resolved, rejected, ◌+s◌}

pub record BrandEntity : Type 0 where
  pub id : String
  pub slug : String
  pub name : String
  pub config : BrandConfig
  pub is_active : Bool
  pub created_at : ℕ

-- `CreateBrandDto`: the optional fields of its configuration are `Option`s.
pub record CreateBrandDto : Type 0 where
  pub slug : String
  pub name : String
  pub default_tone : Tone
  pub allowed_models : List String
  pub preferred_provider : LlmProvider
  pub rag_enabled : Option Bool
  pub system_prompt : Option String
  pub max_content_length : Option ℕ

-- The partial configuration of `UpdateBrandConfigDto`.
pub record ConfigPatch : Type 0 where
  pub default_tone : Option Tone
  pub allowed_models : Option (List String)
  pub preferred_provider : Option LlmProvider
  pub rag_enabled : Option Bool
  pub system_prompt : Option String
  pub max_content_length : Option ℕ

abbrev pub or_else {ℓ} : {A : Type ℓ} → Option A → A → A
or_else none d = d
or_else (some a) d = a

unfoldable pub default_system_prompt : String → String
default_system_prompt brand_name =
    "You are a professional content writer for " +s brand_name
    +s ". Write clear, engaging, and accurate content that represents the brand's values. Always maintain brand consistency and focus on providing value to the audience."

-- The rows of the table, by primary key: `save` of an entity replaces the row of its key.
unfoldable pub save : BrandEntity → List BrandEntity → List BrandEntity
save b [] = b ∷ []
save b (x ∷ xs) = if x.id == b.id then b ∷ xs else x ∷ save b xs

-- `findOne({ where: { id, isActive: true } })`.
unfoldable pub find_active : String → List BrandEntity → Option BrandEntity
find_active id [] = none
find_active id (x ∷ xs) = if x.id == id && x.is_active then some x else find_active id xs

unfoldable pub find_active_slug : String → List BrandEntity → Option BrandEntity
find_active_slug slug [] = none
find_active_slug slug (x ∷ xs) =
    if x.slug == slug && x.is_active then some x else find_active_slug slug xs

abbrev found_or_throw : String → Option BrandEntity → Settled BrandEntity
found_or_throw key none = rejected (brand_not_found key)
found_or_throw key (some b) = resolved b

-- `id` and `now` are what the database generates.
unfoldable pub create :
    String → ℕ → CreateBrandDto → List BrandEntity → BrandEntity × List BrandEntity
unfolding default_system_prompt
create id now dto table =
    let brand : BrandEntity = record {
      id = id;
      slug = dto.slug;
      name = dto.name;
      config = record {
        default_tone = dto.default_tone;
        allowed_models = dto.allowed_models;
        preferred_provider = dto.preferred_provider;
        rag_enabled = or_else dto.rag_enabled true;
        system_prompt = or_else dto.system_prompt (default_system_prompt dto.name);
        max_content_length = or_else dto.max_content_length 2000;
      };
      is_active = true;
      created_at = now;
    } in
    (brand, save brand table)

unfoldable pub find_by_id : String → List BrandEntity → Settled BrandEntity
find_by_id id table = found_or_throw id (find_active id table)

unfoldable pub find_by_slug : String → List BrandEntity → Settled BrandEntity
find_by_slug slug table = found_or_throw slug (find_active_slug slug table)

-- `{ ...brand.config, ...dto.config }`.
unfoldable pub patched : ConfigPatch → BrandConfig → BrandConfig
patched p c = record {
  default_tone = or_else p.default_tone c.default_tone;
  allowed_models = or_else p.allowed_models c.allowed_models;
  preferred_provider = or_else p.preferred_provider c.preferred_provider;
  rag_enabled = or_else p.rag_enabled c.rag_enabled;
  system_prompt = or_else p.system_prompt c.system_prompt;
  max_content_length = or_else p.max_content_length c.max_content_length;
}

update_found :
    ConfigPatch → Settled BrandEntity → List BrandEntity → Settled BrandEntity × List BrandEntity
update_found p (rejected e) table = (rejected e, table)
update_found p (resolved b) table =
    let brand = record b { config = patched p b.config } in (resolved brand, save brand table)

unfoldable pub update_config :
    String → ConfigPatch → List BrandEntity → Settled BrandEntity × List BrandEntity
unfolding update_found
update_config id p table = update_found p (find_by_id id table) table

deactivate_found : Settled BrandEntity → List BrandEntity → Settled (Unit {0}) × List BrandEntity
deactivate_found (rejected e) table = (rejected e, table)
deactivate_found (resolved b) table = (resolved tt, save (record b { is_active = false }) table)

unfoldable pub deactivate : String → List BrandEntity → Settled (Unit {0}) × List BrandEntity
unfolding deactivate_found
deactivate id table = deactivate_found (find_by_id id table) table
