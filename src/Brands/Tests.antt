-- ===== src/Brands/Tests.antt =====
-- A table with two brands.
use ai_content_platform.Prelude.{String, true, none, some, List, [], ◌∷◌}
use ai_content_platform.Domain.{formal, friendly, openai}
use ai_content_platform.Brands.{
  BrandEntity, CreateBrandDto, ConfigPatch, default_system_prompt, save, find_active, create,
  find_by_id, patched, update_found, update_config, deactivate_found, deactivate,
}

abbrev pub brand_of : String → BrandEntity
brand_of id = record {
  id = id;
  slug = "slug";
  name = "name";
  config = record {
    default_tone = formal;
    allowed_models = [];
    preferred_provider = openai;
    rag_enabled = true;
    system_prompt = "";
    max_content_length = 2000;
  };
  is_active = true;
  created_at = 0;
}

abbrev table : List BrandEntity
table = brand_of "a" ∷ brand_of "b" ∷ []

keeping : Unit {0}
unfolding default_system_prompt save find_active create find_by_id patched update_found
    update_config deactivate_found deactivate
keeping = tt

abbrev tea : CreateBrandDto
tea = record {
  slug = "tea";
  name = "Tea";
  default_tone = friendly;
  allowed_models = [];
  preferred_provider = openai;
  rag_enabled = none;
  system_prompt = none;
  max_content_length = some 500;
}

abbrev warmer : ConfigPatch
warmer = record {
  default_tone = some friendly;
  allowed_models = none;
  preferred_provider = none;
  rag_enabled = none;
  system_prompt = none;
  max_content_length = none;
}
