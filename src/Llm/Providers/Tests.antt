-- ===== src/Llm/Providers/Tests.antt =====
-- Runs of the adapters, and the theorems applied.
use ai_content_platform.Prelude.{
  ℕ, String, ◌≡◌, refl, none, some, List, [], ◌∷◌, All, length, arith,
}
use ai_content_platform.Exceptions.{error, resolved, rejected}
use ai_content_platform.Llm.Provider.{LlmMessage, LlmCompletionRequest, user, assistant, system}
use ai_content_platform.Llm.Providers.OpenAi.{ChatChunk, ChatClient, forwarded}
use ai_content_platform.Llm.Providers.OpenAi.Usage.{forwarded-loses_usage}
use ai_content_platform.Llm.Providers.Alibaba.{embed, embed_batches, supported_dimension}
use ai_content_platform.Llm.Providers.Alibaba.Vectors.{OnePerText, embed-length}
use ai_content_platform.Llm.Providers.Gemini.{build_chat}
use ai_content_platform.Llm.Providers.Gemini.Chat.{turns, Speaks, build_chat-Speaks}

abbrev open_chunk : String → ChatChunk
open_chunk text = record {
  choices = record { content = some text; finish_reason = none } ∷ [];
  usage = none;
}

abbrev last_chunk : ChatChunk
last_chunk = record {
  choices = record { content = none; finish_reason = some "stop" } ∷ [];
  usage = none;
}

abbrev usage_chunk : ChatChunk
usage_chunk = record {
  choices = [];
  usage = some (record { prompt_tokens = 3; completion_tokens = 2; total_tokens = 5 });
}

forwarded-loses_usage_example :
    ((forwarded (open_chunk "tea" ∷ last_chunk ∷ usage_chunk ∷ []) none).1 ≡ none)
    × All
        (λ c. c.usage ≡ none)
        (forwarded (open_chunk "tea" ∷ last_chunk ∷ usage_chunk ∷ []) none).0
forwarded-loses_usage_example =
    forwarded-loses_usage (open_chunk "tea" ∷ []) (usage_chunk ∷ []) last_chunk none
      ((refl, refl), tt) refl refl

abbrev unit_vectors : List String → List (List ℕ)
unit_vectors [] = []
unit_vectors (t ∷ ts) = (1 ∷ []) ∷ unit_vectors ts

abbrev client : ChatClient ℕ String ℕ
client = record {
  create = λ params s. (rejected (error "no key"), s);
  create_stream = λ params s. (rejected (error "no key"), s);
  embeddings = λ model texts dimension s. (resolved (unit_vectors texts), s);
  list_models = λ s. (resolved tt, s);
}

length-unit_vectors : (texts : List String) → length (unit_vectors texts) ≡ length texts
length-unit_vectors [] = refl
length-unit_vectors (t ∷ ts) = omega (arith, length-unit_vectors ts)

client-OnePerText : OnePerText client
client-OnePerText model texts dimension s vectors h e = ground (arith, length-unit_vectors texts)

embeds : (embed client 1536 ("a" ∷ "b" ∷ []) 0).0 ≡ resolved ((1 ∷ []) ∷ (1 ∷ []) ∷ [])
unfolding embed embed_batches
embeds = refl

embed-length_example :
    length {A = List ℕ} ((1 ∷ []) ∷ (1 ∷ []) ∷ []) ≡ length {A = String} ("a" ∷ "b" ∷ [])
embed-length_example =
    embed-length client client-OnePerText 1536 ("a" ∷ "b" ∷ []) ((1 ∷ []) ∷ (1 ∷ []) ∷ []) 0 embeds

-- A collection for 1536 dimensions is given vectors of 1024.
shortens : supported_dimension 1536 ≡ 1024
unfolding supported_dimension
shortens = refl

abbrev asked : LlmMessage
asked = record { role = user; content = "hi" }

abbrev request : LlmCompletionRequest ℕ String
request = record {
  messages =
      record { role = system; content = "be brief" }
      ∷ asked
      ∷ record { role = assistant; content = "hello" }
      ∷ asked
      ∷ [];
  model = none;
  temperature = none;
  max_tokens = none;
  tools = none;
  response_format = none;
  system_prompt = none;
}

build_chat-Speaks_example : Speaks (build_chat request) (turns request.messages)
build_chat-Speaks_example =
    build_chat-Speaks request (record { role = "user"; content = "hi" })
      (record { role = "model"; content = "hello" } ∷ record { role = "user"; content = "hi" } ∷ [])
      refl
