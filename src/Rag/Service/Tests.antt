-- ===== src/Rag/Service/Tests.antt =====
-- The service with a store that answers two chunks, one of them of another brand.
use ai_content_platform.Prelude.{
  ℕ, ◌+◌, String, ◌≡◌, ◌≢◌, refl, ap, subst, true, none, some, List, [], ◌∷◌, arith, codes, length,
  All,
}
use ai_content_platform.Domain.{SearchResult, pending}
use ai_content_platform.Exceptions.{error, message, resolved, rejected}
use ai_content_platform.Rag.Qdrant.{QdrantClient}
use ai_content_platform.Rag.Qdrant.Laws.{with_qdrant, delete_document-orphans}
use ai_content_platform.Contracts.{retrieval_result_checks, document_chunk_checks}
use ai_content_platform.Streaming.Service.Tests.{zod}
use ai_content_platform.Rag.Splitter.{Text}
use ai_content_platform.Rag.Service.{
  DocumentEntity, RagService, RagState, find_document, embed_batches, embed_all, points_from,
  process_document, filter_results, search, get_document, without_document, delete_document,
  delete_chunks,
}
use ai_content_platform.Rag.Service.Ingestion.{IsSettled, process_document-IsSettled}
use ai_content_platform.Rag.Service.Search.{Isolated, search-Isolated}
use ai_content_platform.Rag.Service.Vectors.{OnePerText, embed_all-vectors}
use ai_content_platform.Rag.Service.Deletion.{Deleted, delete_document-Deleted}

abbrev chunk_of : String → SearchResult ℕ
chunk_of brand_id = record {
  chunk_id = "p";
  content = "text";
  score = 1;
  metadata = record {
    document_id = "d";
    brand_id = brand_id;
    filename = "f";
    page = none;
    chunk_section = none;
    chunk_index = 0;
  };
}

abbrev unit_vectors : List Text → List (List ℕ)
unit_vectors [] = []
unit_vectors (t ∷ texts) = (1 ∷ []) ∷ unit_vectors texts

-- The state of the world counts the dropped chunks.
abbrev service : RagService ℕ ℕ
service = record {
  parse = λ buffer mime name w. (resolved (codes "aa bb"), w);
  embed = λ texts w. (resolved (unit_vectors texts), w);
  store = record {
    ensure_collection = λ name size w. (resolved tt, w);
    upsert = λ name points w. (resolved tt, w);
    search = λ name vector limit filter w. (resolved (chunk_of "a" ∷ chunk_of "b" ∷ []), w);
    delete = λ name ids w. (resolved tt, w);
    collection_exists = λ name w. (resolved true, w);
  };
  zod = zod;
  chunk_size = 4;
  chunk_overlap = 0;
  embedding_dimension = 1;
  search_limit = none;
  uuid = λ w i. "p";
  shown = message;
}

abbrev document : String → DocumentEntity
document id = record {
  id = id;
  brand_id = "a";
  filename = "f";
  mime_type = "text/plain";
  status = pending;
  chunk_count = 0;
  error_message = none;
  file_size_bytes = 0;
}

abbrev start : RagState ℕ
start = record { documents = document "d" ∷ document "e" ∷ []; world = 0 }

serving : Unit {0}
unfolding find_document embed_all embed_batches filter_results search get_document without_document
    delete_document delete_chunks retrieval_result_checks document_chunk_checks
serving = tt

drops_other_brand :
    search service "a" (codes "q") none (λ w. w + 1) 0 ≡ (resolved (chunk_of "a" ∷ []), 1)
unfolding serving
drops_other_brand = refl

process_document-IsSettled_example :
    (e : DocumentEntity) × (find_document "d"
        (process_document service (document "d") [] start).documents
      ≡ some e)
    × IsSettled service e
unfolding serving
process_document-IsSettled_example =
    process_document-IsSettled service (document "d") [] start (document "d") refl

search-Isolated_example : Isolated service "a" (chunk_of "a" ∷ [])
search-Isolated_example =
    search-Isolated service "a" (codes "q") none (λ w. w + 1) 0 (chunk_of "a" ∷ [])
      (ap (λ x. x.0) drops_other_brand)

length-unit_vectors : (texts : List Text) → length (unit_vectors texts) ≡ length texts
length-unit_vectors [] = refl
length-unit_vectors (t ∷ texts) = omega (arith, length-unit_vectors texts)

service-OnePerText : OnePerText service
service-OnePerText texts w es h =
    let e : unit_vectors texts ≡ es = ground arith in
    subst (λ x. length x ≡ length texts) e (length-unit_vectors texts)

embed_all-vectors_example :
    All
      (λ q. q.vector ≢ none)
      (points_from service
        (document "d")
        ((1 ∷ []) ∷ (1 ∷ []) ∷ [])
        0
        0
        (codes "aa" ∷ codes "bb" ∷ []))
unfolding serving
embed_all-vectors_example =
    embed_all-vectors service (document "d") (codes "aa" ∷ codes "bb" ∷ [])
      ((1 ∷ []) ∷ (1 ∷ []) ∷ []) 0 0 service-OnePerText refl

delete_document-Deleted_example :
    Deleted service "d" "a" "e" start.documents (delete_document service "d" "a" start).1
unfolding serving
delete_document-Deleted_example = delete_document-Deleted service "d" "a" "e" start refl refl

abbrev unreachable : QdrantClient ℕ ℕ
unreachable = record {
  get_collections = λ w. (rejected (error "ECONNREFUSED"), w + 1);
  create_collection = λ name params w. (resolved tt, w);
  create_payload_index = λ name field schema w. (resolved tt, w);
  upsert = λ name points w. (resolved tt, w);
  search = λ name vector limit filter w. (resolved [], w);
  delete = λ name ids w. (resolved tt, 0);
  delete_collection = λ name w. (resolved tt, w);
}

delete_document-orphans_example :
    delete_document (with_qdrant unreachable 1 service) "d" "a" start
    ≡ (resolved tt, record { documents = document "e" ∷ []; world = 1 })
unfolding serving
delete_document-orphans_example =
    delete_document-orphans unreachable 1 service "d" "a" (document "d") start
      (error "ECONNREFUSED") 1 refl refl
