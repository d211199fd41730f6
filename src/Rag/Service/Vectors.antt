-- ===== src/Rag/Service/Vectors.antt =====
-- Every chunk of a document gets its vector.
use ai_content_platform.Prelude.{
  length-take-drop, ℕ, zero, suc, ◌+◌, ◌≤◌, ◌<◌, ◌≡◌, ◌≢◌, ap, none, List, [], ◌∷◌, ◌++◌, arith,
  length, length-append, take, drop, get_elem?, All,
}
use ai_content_platform.Exceptions.{resolved}
use ai_content_platform.Rag.Splitter.{Text}
use ai_content_platform.Rag.Service.{
  DocumentEntity, RagService, batch_size, embed_batches, embed_all, points_from,
}
use ai_content_platform.Rag.Service.Calls.{after}

get_elem-some : {A : Type 0} (xs : List A) (i : ℕ) → i < length xs → get_elem? xs i ≢ none
get_elem-some [] i h e = absurd (omega arith)
get_elem-some (x ∷ xs) zero h e = cc
get_elem-some (x ∷ xs) (suc i) h e = get_elem-some xs i (omega arith) e

module _ {N W : Type 0} (p : RagService N W) where
  -- An embedding for each text of a batch, as the interface of the embeddings says.
  abbrev pub OnePerText : Type 0
  OnePerText =
      (texts : List Text) (w : W) (es : List (List N))
      → (p.embed texts w).0 ≡ resolved es
      → length es ≡ length texts

  embed_batches-length :
      (rounds : ℕ) (chunks : List Text) (done es : List (List N)) (w : W)
      → OnePerText
      → length chunks ≤ rounds
      → (embed_batches p rounds chunks done w).0 ≡ resolved es
      → length es ≡ length done + length chunks
  unfolding embed_batches
  embed_batches-length zero [] done es w l k h = ground arith
  embed_batches-length zero (c ∷ cs) done es w l k h = absurd (omega arith)
  embed_batches-length (suc rounds) [] done es w l k h = ground arith
  embed_batches-length (suc rounds) (c ∷ cs) done es w l k h =
      after (p.embed (take batch_size (c ∷ cs)) w)
        (λ e. embed_batches p rounds (drop batch_size (c ∷ cs)) (done ++ e)) es h
        λ e u given m.
          let one : length e ≡ length (take batch_size (c ∷ cs)) =
            l (take batch_size (c ∷ cs)) w e (ap (λ x. x.0) given) in
          let parts = length-take-drop batch_size (c ∷ cs) in
          let fewer = length-take-drop 99 cs in
          let rest =
            embed_batches-length rounds (drop batch_size (c ∷ cs)) (done ++ e) es u l (omega arith)
              m in
          omega (arith, length-append done e)

  points_from-vectors :
      (doc : DocumentEntity) (es : List (List N)) (w : W) (idx : ℕ) (cs : List Text)
      → idx + length cs ≤ length es
      → All (λ q. q.vector ≢ none) (points_from p doc es w idx cs)
  unfolding points_from
  points_from-vectors doc es w idx [] h = tt
  points_from-vectors doc es w idx (c ∷ cs) h =
      (get_elem-some es idx (omega arith), points_from-vectors doc es w (idx + 1) cs (omega arith))

  -- If the embeddings give one vector for each text of a batch, then every chunk of a document is
  -- stored with a vector, however many batches there are.
  pub embed_all-vectors :
      (doc : DocumentEntity) (chunks : List Text) (es : List (List N)) (w u : W)
      → OnePerText
      → (embed_all p chunks w).0 ≡ resolved es
      → All (λ q. q.vector ≢ none) (points_from p doc es u 0 chunks)
  unfolding embed_all
  embed_all-vectors doc chunks es w u l h =
      let n = embed_batches-length (length chunks) chunks [] es w l (omega arith) h in
      points_from-vectors doc es u 0 chunks (omega arith)
