-- ===== src/Rag/Qdrant/Tests.antt =====
-- The store over a client whose state is the names of its collections, none while it cannot be
-- reached.
use ai_content_platform.Prelude.{ℕ, String, ◌≡◌, refl, false, Option, none, some, List, [], ◌∷◌}
use ai_content_platform.Domain.{ChunkMetadata}
use ai_content_platform.Exceptions.{error, Settled, resolved, rejected}
use ai_content_platform.Rag.Qdrant.{
  Hit, QdrantClient, build_filter, results_of, collection_exists, ensure_collection, upsert,
  delete_collection,
}

abbrev World : Type 0
World = Option (List String)

abbrev answer : World → Settled (List String) × World
answer none = (rejected (error "ECONNREFUSED"), none)
answer (some names) = (resolved names, some names)

abbrev done : World → Settled (Unit {0}) × World
done none = (rejected (error "ECONNREFUSED"), none)
done (some names) = (resolved tt, some names)

abbrev with_name : String → World → World
with_name name none = none
with_name name (some names) = some (name ∷ names)

abbrev metadata : ChunkMetadata
metadata = record {
  document_id = "d";
  brand_id = "b";
  filename = "f";
  page = none;
  chunk_section = none;
  chunk_index = 0;
}

abbrev hit : Hit ℕ
hit = record {
  id = "p";
  score = 1;
  payload = some (record { content = "text"; metadata = metadata });
}

abbrev client : QdrantClient ℕ World
client = record {
  get_collections = answer;
  create_collection = λ name params w. done (with_name name w);
  create_payload_index = λ name field schema w. done w;
  upsert = λ name points w. done w;
  search = λ name vector limit filter w. (resolved (hit ∷ []), w);
  delete = λ name ids w. done w;
  delete_collection = λ name w. done (some []);
}

creates : upsert client 3 "c" [] (some ("a" ∷ [])) ≡ (resolved tt, some ("c" ∷ "a" ∷ []))
unfolding upsert
creates = refl

creates_once : ensure_collection client 3 "a" 3 (some ("a" ∷ [])) ≡ (resolved tt, some ("a" ∷ []))
unfolding ensure_collection
creates_once = refl

an_error_is_absence : collection_exists client 3 "a" none ≡ (false, none)
unfolding collection_exists
an_error_is_absence = refl

deletes_nothing : delete_collection client 3 "a" none ≡ (resolved tt, none)
unfolding delete_collection
deletes_nothing = refl

filters_by_both : build_filter (record { brand_id = some "b"; document_id = some "d" }) ≡ record {
  must =
      some
        (record { key = "brandId"; value = "b" } ∷ record { key = "documentId"; value = "d" } ∷ []);
}
unfolding build_filter
filters_by_both = refl

no_payload_throws :
    results_of (hit ∷ record hit { payload = none } ∷ [])
    ≡ rejected (error "Cannot read properties of null (reading 'content')")
unfolding results_of
no_payload_throws = refl
