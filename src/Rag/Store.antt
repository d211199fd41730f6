-- ===== src/Rag/Store.antt =====
-- src/common/interfaces/vector-store.interface.ts. The store that implements it is a parameter.
use ai_content_platform.Prelude.{ℕ, String, Bool, Option, List}
use ai_content_platform.Domain.{ChunkMetadata, SearchResult}
use ai_content_platform.Exceptions.{Settled}
use ai_content_platform.Rag.Splitter.{Text}

-- A vector is absent where the array of embeddings is too short.
pub record VectorPoint (N : Type 0) : Type 0 where
  pub id : String
  pub vector : Option (List N)
  pub content : Text
  pub metadata : ChunkMetadata

pub record VectorFilter : Type 0 where
  pub brand_id : Option String
  pub document_id : Option String

pub record VectorStore (N W : Type 0) : Type 0 where
  pub ensure_collection : String → ℕ → W → Settled (Unit {0}) × W
  pub upsert : String → List (VectorPoint N) → W → Settled (Unit {0}) × W
  pub search : String → Option (List N) → ℕ → VectorFilter → W → Settled (List (SearchResult N)) × W
  pub delete : String → List String → W → Settled (Unit {0}) × W
  pub collection_exists : String → W → Settled Bool × W
