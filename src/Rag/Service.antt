-- ===== src/Rag/Service.antt =====
-- src/rag/services/rag.service.ts over the table of documents. The parser, the embeddings and the
-- vector store are parameters. Calls of the database succeed.
pub mod Calls
pub mod Ingestion
pub mod Search
pub mod Kept
pub mod Vectors
pub mod Deletion
mod Tests
use ai_content_platform.Prelude.{
  ℕ, zero, suc, ◌+◌, String, Bool, true, false, not, ◌&&◌, Option, none, some, List, [], ◌∷◌, ◌++◌,
  ◌==◌, if◌then◌else◌, length, take, drop, get_elem?, map, utf16, keep,
}
use ai_content_platform.Domain.{
  ChunkMetadata, SearchResult, DocumentStatus, pending, chunking, embedding, ready, failed,
}
use ai_content_platform.Exceptions.{Thrown, document_not_found, Settled, resolved, rejected, ◌+s◌}
use ai_content_platform.Contracts.{Zod, passes, retrieval_result_checks}
use ai_content_platform.Rag.Splitter.{Text, split}
use ai_content_platform.Rag.Store.{VectorPoint, VectorFilter, VectorStore}

pub record DocumentEntity : Type 0 where
  pub id : String
  pub brand_id : String
  pub filename : String
  pub mime_type : String
  pub status : DocumentStatus
  pub chunk_count : ℕ
  pub error_message : Option String
  pub file_size_bytes : ℕ

-- The collaborators and the configuration. `uuid` draws the id of the point with that index;
-- `shown` is `String(err)`; a buffer is the list of its bytes.
pub record RagService (N W : Type 0) : Type 0 where
  pub parse : List ℕ → String → String → W → Settled Text × W
  pub embed : List Text → W → Settled (List (List N)) × W
  pub store : VectorStore N W
  pub zod : Zod N
  pub chunk_size : ℕ
  pub chunk_overlap : ℕ
  pub embedding_dimension : ℕ
  pub search_limit : Option ℕ
  pub uuid : W → ℕ → String
  pub shown : Thrown → String

pub record RagState (W : Type 0) : Type 0 where
  pub documents : List DocumentEntity
  pub world : W

unfoldable pub find_document : String → List DocumentEntity → Option DocumentEntity
find_document id [] = none
find_document id (d ∷ ds) = if d.id == id then some d else find_document id ds

-- `docRepo.update(id, …)`.
unfoldable pub update_document :
    String → (DocumentEntity → DocumentEntity) → List DocumentEntity → List DocumentEntity
update_document id f [] = []
update_document id f (d ∷ ds) =
    let rest = update_document id f ds in if d.id == id then f d ∷ rest else d ∷ rest

abbrev pub collection_name : String → String
collection_name brand_id = "brand_" +s brand_id

abbrev pub batch_size : ℕ
batch_size = 100

-- `const [first] = list`.
abbrev pub first {ℓ} : {A : Type ℓ} → List A → Option A
first [] = none
first (a ∷ as') = some a

-- `limit ?? configured ?? 5`.
abbrev pub limit_or : Option ℕ → Option ℕ → ℕ
limit_or (some n) configured = n
limit_or none (some n) = n
limit_or none none = 5

abbrev pub bind : {S A B : Type 0} → Settled A × S → (A → S → Settled B × S) → Settled B × S
bind (resolved a, s) f = f a s
bind (rejected e, s) f = (rejected e, s)

module _ {N W : Type 0} (p : RagService N W) where
  -- `ingest`, up to its answer; the processing goes on as `process_document`.
  unfoldable pub ingest :
      (id brand_id : String)
      → List ℕ
      → (filename mime_type : String) → RagState W
      → DocumentEntity × RagState W
  ingest id brand_id buffer filename mime_type s =
      let doc : DocumentEntity = record {
        id = id;
        brand_id = brand_id;
        filename = filename;
        mime_type = mime_type;
        status = pending;
        chunk_count = 0;
        error_message = none;
        file_size_bytes = length buffer;
      } in
      (doc, record s { documents = doc ∷ s.documents })

  abbrev pub lift : {A : Type 0} → (W → Settled A × W) → RagState W → Settled A × RagState W
  lift f s = ((f s.world).0, record s { world = (f s.world).1 })

  unfoldable pub update_status :
      String → DocumentStatus → RagState W → Settled (Unit {0}) × RagState W
  update_status id status s = (
    resolved tt,
    record s { documents = update_document id (λ d. record d { status = status }) s.documents },
  )

  -- The loop over the batches: every round takes at least one chunk, so that as many rounds as
  -- there are chunks are enough.
  unfoldable pub embed_batches : ℕ → List Text → List (List N) → W → Settled (List (List N)) × W
  embed_batches zero chunks done w = (resolved done, w)
  embed_batches (suc rounds) [] done w = (resolved done, w)
  embed_batches (suc rounds) (c ∷ cs) done w =
      bind (p.embed (take batch_size (c ∷ cs)) w)
        λ embeddings. embed_batches rounds (drop batch_size (c ∷ cs)) (done ++ embeddings)

  unfoldable pub embed_all : List Text → W → Settled (List (List N)) × W
  unfolding embed_batches
  embed_all chunks w = embed_batches (length chunks) chunks [] w

  -- The points of the chunks from index `idx` on.
  unfoldable pub points_from :
      DocumentEntity → List (List N) → W → ℕ → List Text → List (VectorPoint N)
  points_from doc embeddings w idx [] = []
  points_from doc embeddings w idx (c ∷ cs) =
      record {
        id = p.uuid w idx;
        vector = get_elem? embeddings idx;
        content = c;
        metadata = record {
          document_id = doc.id;
          brand_id = doc.brand_id;
          filename = doc.filename;
          page = none;
          chunk_section = none;
          chunk_index = idx;
        };
      }
      ∷ points_from doc embeddings w (idx + 1) cs

  upload : DocumentEntity → List Text → List (List N) → RagState W → Settled ℕ × RagState W
  unfolding points_from
  upload doc chunks embeddings s =
      bind (lift (p.store.ensure_collection (collection_name doc.brand_id) p.embedding_dimension) s)
        λ _ t.
          bind
            (lift
              (λ w.
                p.store.upsert (collection_name doc.brand_id)
                  (points_from doc embeddings w 0 chunks) w)
              t)
            λ _ u. (resolved (length chunks), u)

  -- The document from its chunks on.
  embed_document : DocumentEntity → List Text → RagState W → Settled ℕ × RagState W
  unfolding upload update_status embed_all
  embed_document doc chunks s =
      bind (update_status doc.id embedding s)
        λ _ t. bind (lift (embed_all chunks) t) (upload doc chunks)

  split_document : DocumentEntity → Text → RagState W → Settled ℕ × RagState W
  unfolding embed_document
  split_document doc text s = embed_document doc (split p.chunk_size p.chunk_overlap text) s

  -- The `try` block up to the last update; it gives the number of chunks.
  unfoldable pub ingestion : DocumentEntity → List ℕ → RagState W → Settled ℕ × RagState W
  unfolding split_document update_status
  ingestion doc buffer s =
      bind (update_status doc.id chunking s)
        λ _ t. bind (lift (p.parse buffer doc.mime_type doc.filename) t) (split_document doc)

  abbrev pub mark_ready : ℕ → DocumentEntity → DocumentEntity
  mark_ready n d = record d { status = ready; chunk_count = n }

  abbrev pub mark_failed : Thrown → DocumentEntity → DocumentEntity
  mark_failed e d = record d { status = failed; error_message = some (p.shown e) }

  abbrev pub settle : String → Settled ℕ × RagState W → RagState W
  settle id (resolved n, s) = record s { documents = update_document id (mark_ready n) s.documents }
  settle id (rejected e, s) = record s {
    documents = update_document id (mark_failed e) s.documents;
  }

  unfoldable pub process_document : DocumentEntity → List ℕ → RagState W → RagState W
  unfolding ingestion
  process_document doc buffer s = settle doc.id (ingestion doc buffer s)

  -- The filter on the results; `dropped` is `onContractViolation`.
  abbrev pub accepts : String → SearchResult N → Bool
  accepts brand_id x = passes (retrieval_result_checks p.zod x) && (x.metadata.brand_id == brand_id)

  select :
      Bool
      → SearchResult N
      → (W → W)
      → (W → List (SearchResult N) × W)
      → W
      → List (SearchResult N) × W
  select true x dropped rest w = (x ∷ (rest w).0, (rest w).1)
  select false x dropped rest w = rest (dropped w)

  unfoldable pub filter_results :
      String → (W → W) → List (SearchResult N) → W → List (SearchResult N) × W
  unfolding select
  filter_results brand_id dropped [] w = ([], w)
  filter_results brand_id dropped (x ∷ xs) w =
      select (accepts brand_id x) x dropped (filter_results brand_id dropped xs) w

  filtered : String → (W → W) → List (SearchResult N) → W → Settled (List (SearchResult N)) × W
  unfolding filter_results
  filtered brand_id dropped raw w =
      let kept = filter_results brand_id dropped raw w in (resolved kept.0, kept.1)

  searched : String → Option (List N) → ℕ → (W → W) → Bool → W → Settled (List (SearchResult N)) × W
  unfolding filtered
  searched brand_id vector limit dropped false w = (resolved [], w)
  searched brand_id vector limit dropped true w =
      bind
        (p.store.search (collection_name brand_id) vector limit
          (record { brand_id = some brand_id; document_id = none }) w)
        (filtered brand_id dropped)

  located : String → ℕ → (W → W) → List (List N) → W → Settled (List (SearchResult N)) × W
  unfolding searched
  located brand_id limit dropped embeddings w =
      bind (p.store.collection_exists (collection_name brand_id) w)
        (searched brand_id (first embeddings) limit dropped)

  unfoldable pub search :
      String → Text → Option ℕ → (W → W) → W → Settled (List (SearchResult N)) × W
  unfolding located
  search brand_id query limit dropped w =
      bind (p.embed (query ∷ []) w) (located brand_id (limit_or limit p.search_limit) dropped)

  of_brand : String → String → Option DocumentEntity → Settled DocumentEntity
  of_brand id brand_id none = rejected (document_not_found id)
  of_brand id brand_id (some d) =
      if d.brand_id == brand_id then resolved d else rejected (document_not_found id)

  unfoldable pub get_document : String → String → List DocumentEntity → Settled DocumentEntity
  unfolding of_brand
  get_document id brand_id table = of_brand id brand_id (find_document id table)

  -- `docRepo.delete({ id, brandId })`.
  unfoldable pub without_document : String → String → List DocumentEntity → List DocumentEntity
  without_document id brand_id table =
      keep (λ d. not ((d.id == id) && (d.brand_id == brand_id))) table

  delete_found : String → List (SearchResult N) → W → Settled (Unit {0}) × W
  delete_found name [] w = (resolved tt, w)
  delete_found name (x ∷ xs) w = p.store.delete name (map (λ r. r.chunk_id) (x ∷ xs)) w

  -- The removal of the chunks of a document.
  unfoldable pub delete_chunks : DocumentEntity → String → Bool → W → Settled (Unit {0}) × W
  unfolding delete_found
  delete_chunks doc brand_id false w = (resolved tt, w)
  delete_chunks doc brand_id true w = bind (p.store.delete (collection_name brand_id) [] w) λ _ t.
      bind (p.embed (utf16 doc.filename ∷ []) t) λ embeddings u.
        bind
          (p.store.search (collection_name brand_id) (first embeddings) 10000
            (record { brand_id = none; document_id = some doc.id }) u)
          λ results v. delete_found (collection_name brand_id) results v

  remove_row : DocumentEntity → String → Unit {0} → RagState W → Settled (Unit {0}) × RagState W
  unfolding without_document
  remove_row doc brand_id _ s =
      (resolved tt, record s { documents = without_document doc.id brand_id s.documents })

  delete_known : String → Settled DocumentEntity → RagState W → Settled (Unit {0}) × RagState W
  unfolding delete_chunks remove_row
  delete_known brand_id (rejected e) s = (rejected e, s)
  delete_known brand_id (resolved doc) s =
      bind (lift (p.store.collection_exists (collection_name brand_id)) s)
        λ exists t. bind (lift (delete_chunks doc brand_id exists) t) (remove_row doc brand_id)

  unfoldable pub delete_document : String → String → RagState W → Settled (Unit {0}) × RagState W
  unfolding delete_known get_document
  delete_document id brand_id s = delete_known brand_id (get_document id brand_id s.documents) s
