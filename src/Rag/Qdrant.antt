-- ===== src/Rag/Qdrant.antt =====
-- src/rag/infrastructure/qdrant-vector-store.ts. The client of Qdrant is a parameter; the id of a
-- hit is the string that the store makes of it.
pub mod Laws
mod Tests
use ai_content_platform.Prelude.{
  ℕ, String, Bool, true, false, Option, none, some, List, [], ◌∷◌, ◌++◌, map, if◌then◌else◌,
  str_mem,
}
use ai_content_platform.Domain.{ChunkMetadata, SearchResult}
use ai_content_platform.Exceptions.{error, Settled, resolved, rejected}
use ai_content_platform.Rag.Splitter.{Text}
use ai_content_platform.Rag.Store.{VectorPoint, VectorFilter, VectorStore}
use ai_content_platform.Rag.Service.{bind}

pub record Payload (C : Type 0) : Type 0 where
  pub content : C
  pub metadata : ChunkMetadata

pub record QdrantPoint (N : Type 0) : Type 0 where
  pub id : String
  pub vector : Option (List N)
  pub payload : Payload Text

pub record Hit (N : Type 0) : Type 0 where
  pub id : String
  pub score : N
  pub payload : Option (Payload String)

-- A condition has a key and the value that it matches. A filter may have no list of conditions.
pub record Condition : Type 0 where
  pub key : String
  pub value : String

pub record QdrantFilter : Type 0 where
  pub must : Option (List Condition)

pub record CollectionParams : Type 0 where
  pub size : ℕ
  pub distance : String
  pub default_segment_number : ℕ
  pub replication_factor : ℕ

-- The third argument of `create_payload_index` is the schema of the field.
pub record QdrantClient (N W : Type 0) : Type 0 where
  pub get_collections : W → Settled (List String) × W
  pub create_collection : String → CollectionParams → W → Settled (Unit {0}) × W
  pub create_payload_index : String → String → String → W → Settled (Unit {0}) × W
  pub upsert : String → List (QdrantPoint N) → W → Settled (Unit {0}) × W
  pub search : String → Option (List N) → ℕ → Option QdrantFilter → W → Settled (List (Hit N)) × W
  pub delete : String → List String → W → Settled (Unit {0}) × W
  pub delete_collection : String → W → Settled (Unit {0}) × W

abbrev collection_params : ℕ → CollectionParams
collection_params vector_size = record {
  size = vector_size;
  distance = "Cosine";
  default_segment_number = 2;
  replication_factor = 1;
}

abbrev pub qdrant_point : {N : Type 0} → VectorPoint N → QdrantPoint N
qdrant_point p = record {
  id = p.id;
  vector = p.vector;
  payload = record { content = p.content; metadata = p.metadata };
}

abbrev condition : String → Option String → List Condition
condition key none = []
condition key (some value) = record { key = key; value = value } ∷ []

abbrev filter_of : List Condition → QdrantFilter
filter_of [] = record { must = none }
filter_of (c ∷ cs) = record { must = some (c ∷ cs) }

unfoldable pub build_filter : VectorFilter → QdrantFilter
build_filter filter =
    filter_of (condition "brandId" filter.brand_id ++ condition "documentId" filter.document_id)

abbrev pub filter_given : Option VectorFilter → Option QdrantFilter
unfolding build_filter
filter_given none = none
filter_given (some filter) = some (build_filter filter)

-- The content of a payload that is null is a `TypeError`.
abbrev result_of : {N : Type 0} → Hit N → Option (Payload String) → Settled (SearchResult N)
result_of r none = rejected (error "Cannot read properties of null (reading 'content')")
result_of r (some p) =
    resolved
      (record { chunk_id = r.id; content = p.content; score = r.score; metadata = p.metadata })

abbrev joined :
    {N : Type 0}
    → Settled (SearchResult N)
    → Settled (List (SearchResult N))
    → Settled (List (SearchResult N))
joined (rejected e) rest = rejected e
joined (resolved x) (rejected e) = rejected e
joined (resolved x) (resolved xs) = resolved (x ∷ xs)

unfoldable pub results_of : {N : Type 0} → List (Hit N) → Settled (List (SearchResult N))
results_of [] = resolved []
results_of (r ∷ rs) = joined (result_of r r.payload) (results_of rs)

module _ {N W : Type 0} (client : QdrantClient N W) (embedding_dimension : ℕ) where
  -- Whether the collection is listed; an error counts as no.
  abbrev listed : String → Settled (List String) × W → Bool × W
  listed name (resolved names, w) = (str_mem name names, w)
  listed name (rejected e, w) = (false, w)

  unfoldable pub collection_exists : String → W → Bool × W
  collection_exists name w = listed name (client.get_collections w)

  unfoldable pub create_indexed : String → ℕ → W → Settled (Unit {0}) × W
  create_indexed name vector_size w =
      bind (client.create_collection name (collection_params vector_size) w) λ _ v.
        bind (client.create_payload_index name "brandId" "keyword" v)
          λ _ u. client.create_payload_index name "documentId" "keyword" u

  unfoldable pub ensure_collection : String → ℕ → W → Settled (Unit {0}) × W
  unfolding collection_exists create_indexed
  ensure_collection name vector_size w =
      let exists = collection_exists name w in
      if exists.0 then (resolved tt, exists.1) else create_indexed name vector_size exists.1

  unfoldable pub upsert : String → List (VectorPoint N) → W → Settled (Unit {0}) × W
  unfolding ensure_collection
  upsert name points w =
      bind (ensure_collection name embedding_dimension w)
        λ _ v. client.upsert name (map qdrant_point points) v

  abbrev pub read : Settled (List (Hit N)) × W → Settled (List (SearchResult N)) × W
  unfolding results_of
  read (resolved hits, w) = (results_of hits, w)
  read (rejected e, w) = (rejected e, w)

  unfoldable pub search :
      String → Option (List N) → ℕ → Option VectorFilter → W → Settled (List (SearchResult N)) × W
  search name vector limit filter w = read (client.search name vector limit (filter_given filter) w)

  unfoldable pub delete_collection : String → W → Settled (Unit {0}) × W
  unfolding collection_exists
  delete_collection name w =
      let exists = collection_exists name w in
      if exists.0 then client.delete_collection name exists.1 else (resolved tt, exists.1)

  abbrev settled : Bool × W → Settled Bool × W
  settled x = (resolved x.0, x.1)

  abbrev pub qdrant_vector_store : VectorStore N W
  unfolding collection_exists ensure_collection upsert search
  qdrant_vector_store = record {
    ensure_collection = ensure_collection;
    upsert = upsert;
    search = λ name vector limit filter w. search name vector limit (some filter) w;
    delete = client.delete;
    collection_exists = λ name w. settled (collection_exists name w);
  }
