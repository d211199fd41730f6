-- ===== src/Rag/Service/Deletion.antt =====
-- What the deletion of a document leaves.
use ai_content_platform.Prelude.{String, ◌≡◌, refl, false, List, [], ◌∷◌, ◌==◌, arith, eq_iff}
use ai_content_platform.Exceptions.{document_not_found, Settled, resolved, rejected}
use ai_content_platform.Rag.Service.{
  DocumentEntity, RagService, RagState, find_document, bind, lift, collection_name, of_brand,
  get_document, without_document, delete_chunks, remove_row, delete_known, delete_document,
}
use ai_content_platform.Rag.Service.Calls.{after-state}

module _ {N W : Type 0} (p : RagService N W) where
  without-missing :
      (id brand_id : String) (table : List DocumentEntity)
      → get_document p id brand_id (without_document p id brand_id table)
        ≡ rejected (document_not_found id)
  unfolding get_document without_document of_brand find_document
  without-missing id brand_id [] = refl
  without-missing id brand_id (d ∷ table) = ground (arith, without-missing id brand_id table)

  without-others :
      (id j brand_id : String) (table : List DocumentEntity)
      → (id == j) ≡ false
      → find_document j (without_document p id brand_id table) ≡ find_document j table
  unfolding without_document find_document
  without-others id j brand_id [] h = refl
  without-others id j brand_id (d ∷ table) h =
      ground
        (arith, eq_iff d.id id, eq_iff d.id j, eq_iff id j, without-others id j brand_id table h)

  get_document-key :
      (id brand_id : String) (table : List DocumentEntity) (d : DocumentEntity)
      → get_document p id brand_id table ≡ resolved d
      → d.id ≡ id
  unfolding get_document of_brand find_document
  get_document-key id brand_id [] d h = cc
  get_document-key id brand_id (x ∷ table) d h =
      ground (arith, eq_iff x.id id, get_document-key id brand_id table d)

  -- What a deletion leaves of the documents that were there.
  abbrev pub Deleted : String → String → String → List DocumentEntity → RagState W → Type 0
  Deleted id brand_id j old s =
      (get_document p id brand_id s.documents ≡ rejected (document_not_found id))
      × (find_document j s.documents ≡ find_document j old)

  delete_known-Deleted :
      (id brand_id j : String) (d : DocumentEntity) (s : RagState W)
      → (id == j) ≡ false
      → d.id ≡ id
      → (delete_known p brand_id (resolved d) s).0 ≡ resolved tt
      → Deleted id brand_id j s.documents (delete_known p brand_id (resolved d) s).1
  unfolding delete_known
  delete_known-Deleted id brand_id j d s n k h =
      after-state (Deleted id brand_id j s.documents) (λ t. t.documents ≡ s.documents)
        (lift p (p.store.collection_exists (collection_name brand_id)) s)
        (λ exists t. bind (lift p (delete_chunks p d brand_id exists) t) (remove_row p d brand_id))
        tt h refl
        λ exists t e m.
          after-state (Deleted id brand_id j s.documents) (λ u. u.documents ≡ s.documents)
            (lift p (delete_chunks p d brand_id exists) t) (remove_row p d brand_id) tt m e
            λ _ u f _. gone u f
    where
      gone :
          (u : RagState W)
          → u.documents ≡ s.documents
          → Deleted id brand_id j s.documents (remove_row p d brand_id tt u).1
      gone u f =
          unfold remove_row in
          rw (k, f)
            (without-missing id brand_id s.documents, without-others id j brand_id s.documents n)

  -- A deletion that succeeds leaves the document unknown to its brand, and every document of
  -- another key as it was.
  pub delete_document-Deleted :
      (id brand_id j : String) (s : RagState W)
      → (id == j) ≡ false
      → (delete_document p id brand_id s).0 ≡ resolved tt
      → Deleted id brand_id j s.documents (delete_document p id brand_id s).1
  unfolding delete_document
  delete_document-Deleted id brand_id j s n h =
      known (get_document p id brand_id s.documents) refl h
    where
      known :
          (o : Settled DocumentEntity)
          → get_document p id brand_id s.documents ≡ o
          → (delete_known p brand_id o s).0 ≡ resolved tt
          → Deleted id brand_id j s.documents (delete_known p brand_id o s).1
      known (resolved d) e m =
          delete_known-Deleted id brand_id j d s n (get_document-key id brand_id s.documents d e) m
      known (rejected e) k m = unfold delete_known in absurd (unfold delete_known in cc)

  -- If the store answers that the brand has no collection, the row of the document is all that is
  -- removed.
  pub delete_document-unlisted :
      (id brand_id : String) (d : DocumentEntity) (s : RagState W) (w : W)
      → get_document p id brand_id s.documents ≡ resolved d
      → p.store.collection_exists (collection_name brand_id) s.world ≡ (resolved false, w)
      → delete_document p id brand_id s ≡ (
        resolved tt,
        record { documents = without_document p d.id brand_id s.documents; world = w },
      )
  unfolding delete_document delete_known remove_row delete_chunks
  delete_document-unlisted id brand_id d s w k h = rw (k, h) refl
