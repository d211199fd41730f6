-- ===== src/Llm/Providers/Alibaba/Vectors.antt =====
-- The vectors of the batches.
use ai_content_platform.Prelude.{
  ℕ, zero, suc, ◌+◌, ◌≤◌, String, ◌≡◌, Option, some, List, [], ◌∷◌, ◌++◌, take, drop, length,
  length-append, length-take-drop, length-take-le, ap, arith,
}
use ai_content_platform.Exceptions.{resolved}
use ai_content_platform.Llm.Providers.OpenAi.{ChatClient}
use ai_content_platform.Llm.Providers.Alibaba.{
  supported_dimension, batch_size, embed_batches, embed,
}
use ai_content_platform.Rag.Service.Calls.{after}

module _ {N J S : Type 0} (client : ChatClient N J S) where
  -- One vector for each text, as the vendor documents, of a request of at most ten texts.
  abbrev pub OnePerText : Type 0
  OnePerText =
      (model : String) (texts : List String) (dimension : Option ℕ) (s : S)
      (vectors : List (List N))
      → length texts ≤ 10
      → (client.embeddings model texts dimension s).0 ≡ resolved vectors
      → length vectors ≡ length texts

  module _ (h : OnePerText) (dimension : ℕ) where
    embed_batches-length :
        (rounds : ℕ) (texts : List String) (results vectors : List (List N)) (s : S)
        → length texts ≤ rounds
        → (embed_batches client dimension rounds texts results s).0 ≡ resolved vectors
        → length vectors ≡ length results + length texts
    unfolding embed_batches
    embed_batches-length zero [] results vectors s k e = ground arith
    embed_batches-length zero (t ∷ ts) results vectors s k e = absurd (omega arith)
    embed_batches-length (suc rounds) [] results vectors s k e = ground arith
    embed_batches-length (suc rounds) (t ∷ ts) results vectors s k e =
        let batch = take batch_size (t ∷ ts) in
        after (client.embeddings "text-embedding-v3" batch (some (supported_dimension dimension)) s)
          (λ given.
            embed_batches client dimension rounds (drop batch_size (t ∷ ts)) (results ++ given))
          vectors e
          λ given u asked m.
            let one =
              h "text-embedding-v3" batch (some (supported_dimension dimension)) s given
                (length-take-le 10 (t ∷ ts)) (ap (λ x. x.0) asked) in
            let parts = length-take-drop batch_size (t ∷ ts) in
            let fewer = length-take-drop 9 ts in
            let rest =
              embed_batches-length rounds (drop batch_size (t ∷ ts)) (results ++ given) vectors u
                (omega arith) m in
            omega (arith, length-append results given)

    -- However many texts there are, an embedding that succeeds gives a vector for each, if the
    -- vendor does for each request of at most ten.
    pub embed-length :
        (texts : List String) (vectors : List (List N)) (s : S)
        → (embed client dimension texts s).0 ≡ resolved vectors
        → length vectors ≡ length texts
    unfolding embed
    embed-length texts vectors s e =
        omega (arith, embed_batches-length (length texts) texts [] vectors s (omega arith) e)
