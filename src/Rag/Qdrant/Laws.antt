-- ===== src/Rag/Qdrant/Laws.antt =====
-- The store below the RAG service.
use ai_content_platform.Prelude.{ℕ, String, ◌≡◌, refl}
use ai_content_platform.Exceptions.{Thrown, resolved, rejected}
use ai_content_platform.Rag.Qdrant.{QdrantClient, collection_exists, qdrant_vector_store}
use ai_content_platform.Rag.Service.{
  DocumentEntity, RagService, RagState, get_document, without_document, delete_document,
}
use ai_content_platform.Rag.Service.Deletion.{delete_document-unlisted}

module _ {N W : Type 0} (client : QdrantClient N W) (size : ℕ) where
  -- The service with this store.
  abbrev pub with_qdrant : RagService N W → RagService N W
  with_qdrant p = record p { store = qdrant_vector_store client size }

  -- If the document is its brand's and the list of the collections cannot be read, the deletion
  -- succeeds and only removes the row of the document: the state of the outside world is the one
  -- that the failed reading of the list left, so that no chunk is deleted from the store.
  pub delete_document-orphans :
      (p : RagService N W) (id brand_id : String) (d : DocumentEntity) (s : RagState W) (e : Thrown)
      (w : W)
      → get_document (with_qdrant p) id brand_id s.documents ≡ resolved d
      → client.get_collections s.world ≡ (rejected e, w)
      → delete_document (with_qdrant p) id brand_id s ≡ (
        resolved tt,
        record {
          documents = without_document (with_qdrant p) d.id brand_id s.documents;
          world = w;
        },
      )
  unfolding collection_exists qdrant_vector_store
  delete_document-orphans p id brand_id d s e w k h =
      delete_document-unlisted (with_qdrant p) id brand_id d s w k (rw h refl)
