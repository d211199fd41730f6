-- ===== src/Rag/Service/Ingestion.antt =====
-- A document that is processed comes to a final state.
use ai_content_platform.Prelude.{
  ℕ, String, ◌≡◌, refl, ◌∙◌, ◌⊎◌, inl, inr, some, List, [], ◌∷◌, ◌==◌, if◌then◌else◌, arith, eq_iff,
  eq_refl, length,
}
use mathlib.Core.Option
use ai_content_platform.Domain.{DocumentStatus, chunking, embedding, ready, failed}
use ai_content_platform.Exceptions.{Settled, resolved, rejected}
use ai_content_platform.Rag.Splitter.{Text, split}
use ai_content_platform.Rag.Service.{
  DocumentEntity, RagService, RagState, find_document, update_document, bind, lift, update_status,
  embed_all, points_from, upload, ingestion, split_document, embed_document, mark_ready,
  mark_failed, settle, process_document, collection_name,
}

find_document-update :
    (id j : String) (f : DocumentEntity → DocumentEntity) (table : List DocumentEntity)
    → ((d : DocumentEntity) → (f d).id ≡ d.id)
    → find_document j (update_document id f table)
      ≡ (if id == j then Option.map f (find_document j table) else find_document j table)
unfolding find_document update_document
find_document-update id j f [] k = ground arith
find_document-update id j f (d ∷ table) k =
    ground
      (arith, eq_iff id j, eq_iff d.id id, eq_iff d.id j, k d, find_document-update id j f table k)

module _ {N W : Type 0} (p : RagService N W) where
  abbrev HasRow : String → RagState W → Type 0
  HasRow id s = (d : DocumentEntity) × (find_document id s.documents ≡ some d)

  updated_row :
      (id : String) (f : DocumentEntity → DocumentEntity) (s : RagState W) (d : DocumentEntity)
      → ((e : DocumentEntity) → (f e).id ≡ e.id)
      → find_document id s.documents ≡ some d
      → find_document id (update_document id f s.documents) ≡ some (f d)
  updated_row id f s d k h = find_document-update id id f s.documents k ∙ rw (eq_refl id, h)

  bind-HasRow :
      (id : String) {A B : Type 0} (given : Settled A × RagState W)
      (f : A → RagState W → Settled B × RagState W)
      → HasRow id given.1
      → ((a : A) (s : RagState W) → HasRow id s → HasRow id (f a s).1)
      → HasRow id (bind given f).1
  bind-HasRow id (resolved a, s) f h k = k a s h
  bind-HasRow id (rejected e, s) f h k = h

  upload-HasRow :
      (doc : DocumentEntity) (chunks : List Text) (embeddings : List (List N)) (s : RagState W)
      → HasRow doc.id s
      → HasRow doc.id (upload p doc chunks embeddings s).1
  unfolding upload
  upload-HasRow doc chunks embeddings s h =
      bind-HasRow doc.id
        (lift p (p.store.ensure_collection (collection_name doc.brand_id) p.embedding_dimension) s)
        _ h
        λ _ t k.
          bind-HasRow doc.id
            (lift p
              (λ w.
                p.store.upsert (collection_name doc.brand_id)
                  (points_from p doc embeddings w 0 chunks) w)
              t)
            (λ _ u. (resolved (length chunks), u)) k λ _ u l. l

  status-HasRow :
      (id : String) (status : DocumentStatus) (s : RagState W)
      → HasRow id s
      → HasRow id (update_status p id status s).1
  unfolding update_status
  status-HasRow id status s (d, h) = (
    record d { status = status },
    updated_row id (λ e. record e { status = status }) s d (λ e. refl) h,
  )

  embed_document-HasRow :
      (doc : DocumentEntity) (chunks : List Text) (s : RagState W)
      → HasRow doc.id s
      → HasRow doc.id (embed_document p doc chunks s).1
  unfolding embed_document
  embed_document-HasRow doc chunks s h =
      bind-HasRow doc.id (update_status p doc.id embedding s)
        (λ _ t. bind (lift p (embed_all p chunks) t) (upload p doc chunks))
        (status-HasRow doc.id embedding s h)
        λ _ t k.
          bind-HasRow doc.id (lift p (embed_all p chunks) t) (upload p doc chunks) k
            λ embeddings u l. upload-HasRow doc chunks embeddings u l

  ingestion-HasRow :
      (doc : DocumentEntity) (buffer : List ℕ) (s : RagState W)
      → HasRow doc.id s
      → HasRow doc.id (ingestion p doc buffer s).1
  unfolding ingestion split_document
  ingestion-HasRow doc buffer s h =
      bind-HasRow doc.id (update_status p doc.id chunking s)
        (λ _ t. bind (lift p (p.parse buffer doc.mime_type doc.filename) t) (split_document p doc))
        (status-HasRow doc.id chunking s h)
        λ _ t k.
          bind-HasRow doc.id (lift p (p.parse buffer doc.mime_type doc.filename) t)
            (split_document p doc) k
            λ text u l. embed_document-HasRow doc (split p.chunk_size p.chunk_overlap text) u l

  -- Ready with the number of its chunks, or failed with the error.
  abbrev pub IsSettled : DocumentEntity → Type 0
  IsSettled d =
      (d.status ≡ ready) ⊎ ((d.status ≡ failed) × ((m : String) × (d.error_message ≡ some m)))

  settle-IsSettled :
      (id : String) (given : Settled ℕ × RagState W)
      → HasRow id given.1
      → (d : DocumentEntity) × (find_document id (settle p id given).documents ≡ some d)
        × IsSettled d
  settle-IsSettled id (resolved n, s) (d, h) =
      (mark_ready p n d, updated_row id (mark_ready p n) s d (λ e. refl) h, inl refl)
  settle-IsSettled id (rejected e, s) (d, h) = (
    mark_failed p e d,
    updated_row id (mark_failed p e) s d (λ e. refl) h,
    inr (refl, (p.shown e, refl)),
  )

  -- Whatever the parser, the embeddings and the vector store do, the processing of a document that
  -- has a row ends with that row ready, or failed with an error message.
  pub process_document-IsSettled :
      (doc : DocumentEntity) (buffer : List ℕ) (s : RagState W) (d : DocumentEntity)
      → find_document doc.id s.documents ≡ some d
      → (e : DocumentEntity) × (find_document doc.id (process_document p doc buffer s).documents
          ≡ some e)
        × IsSettled e
  unfolding process_document
  process_document-IsSettled doc buffer s d h =
      settle-IsSettled doc.id (ingestion p doc buffer s) (ingestion-HasRow doc buffer s (d, h))
