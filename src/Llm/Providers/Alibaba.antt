-- ===== src/Llm/Providers/Alibaba.antt =====
-- src/llm/providers/alibaba.provider.ts: the chat client of the OpenAI provider with another
-- address, another name, and its own embeddings.
pub mod Vectors
use ai_content_platform.Prelude.{
  ℕ, zero, suc, String, Option, none, some, List, [], ◌∷◌, ◌++◌, leb, if◌then◌else◌, take, drop,
  length,
}
use ai_content_platform.Domain.{alibaba}
use ai_content_platform.Exceptions.{Settled, resolved}
use ai_content_platform.Llm.Provider.{IllmProvider}
use ai_content_platform.Llm.Providers.OpenAi.{ChatClient, ChatService, chat_provider}
use ai_content_platform.Rag.Service.{bind}

unfoldable pub supported_dimension : ℕ → ℕ
supported_dimension dimension =
    if leb dimension 512 then 512 else if leb dimension 768 then 768 else 1024

abbrev pub batch_size : ℕ
batch_size = 10

module _ {N J S : Type 0} (client : ChatClient N J S) where
  -- The loop over the batches: every round takes at least one text, so that as many rounds as there
  -- are texts are enough.
  unfoldable pub embed_batches :
      ℕ → ℕ → List String → List (List N) → S → Settled (List (List N)) × S
  unfolding supported_dimension
  embed_batches dimension zero texts results s = (resolved results, s)
  embed_batches dimension (suc rounds) [] results s = (resolved results, s)
  embed_batches dimension (suc rounds) (t ∷ ts) results s =
      bind
        (client.embeddings "text-embedding-v3" (take batch_size (t ∷ ts))
          (some (supported_dimension dimension)) s)
        λ vectors. embed_batches dimension rounds (drop batch_size (t ∷ ts)) (results ++ vectors)

  unfoldable pub embed : ℕ → List String → S → Settled (List (List N)) × S
  unfolding embed_batches
  embed dimension texts s = embed_batches dimension (length texts) texts [] s

  abbrev pub alibaba_service : String → N → (String → Settled J) → ChatService N J S
  alibaba_service default_model default_temperature parse_json = record {
    client = client;
    provider = alibaba;
    supported_models = "qwen-turbo" ∷ "qwen-plus" ∷ "qwen-max" ∷ "qwen-long" ∷ [];
    default_model = default_model;
    default_temperature = default_temperature;
    parse_json = parse_json;
  }

  -- `AlibabaProvider`.
  abbrev pub alibaba_provider : ℕ → String → N → (String → Settled J) → IllmProvider N J S
  alibaba_provider dimension default_model default_temperature parse_json =
      chat_provider (alibaba_service default_model default_temperature parse_json) (embed dimension)
