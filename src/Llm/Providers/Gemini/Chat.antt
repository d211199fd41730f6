-- ===== src/Llm/Providers/Gemini/Chat.antt =====
-- The chat that a request becomes.
use ai_content_platform.Prelude.{
  String, ◌≡◌, refl, subst, ap, ◌∙◌, List, [], ◌∷◌, ◌++◌, map, keep, arith, if◌then◌else◌,
}
use ai_content_platform.Llm.Provider.{
  MessageRole, LlmMessage, LlmCompletionRequest, system, user, assistant,
}
use ai_content_platform.Llm.Providers.OpenAi.{or_default}
use ai_content_platform.Llm.Providers.Claude.{is_dialogue}
use ai_content_platform.Llm.Providers.Gemini.{
  BuiltChat, GeminiTurn, turn_of, split_last, chat_of, build_chat,
}

-- What Gemini is to see of a list of messages: the assistant's as those of the model, the user's as
-- the user's, and none of the system's.
abbrev said : MessageRole → String → List GeminiTurn → List GeminiTurn
said system text rest = rest
said user text rest = record { role = "user"; content = text } ∷ rest
said assistant text rest = record { role = "model"; content = text } ∷ rest

abbrev pub turns : List LlmMessage → List GeminiTurn
turns [] = []
turns (m ∷ ms) = said m.role m.content (turns ms)

keep_turn :
    (m : LlmMessage) (rest : List LlmMessage)
    → map turn_of (if is_dialogue m.role then m ∷ rest else rest)
      ≡ said m.role m.content (map turn_of rest)
keep_turn m rest = ground arith

turns-keep : (ms : List LlmMessage) → map turn_of (keep (λ m. is_dialogue m.role) ms) ≡ turns ms
turns-keep [] = refl
turns-keep (m ∷ ms) =
    keep_turn m (keep (λ x. is_dialogue x.role) ms) ∙ ap (said m.role m.content) (turns-keep ms)

-- The history, with the message that is sent behind it in some role, is a list of turns.
abbrev pub Speaks : BuiltChat → List GeminiTurn → Type 0
Speaks built l =
    (role : String) × (built.history
        ++ record { role = role; content = built.last_user_message } ∷ []
      ≡ l)

split_last-turns :
    (m : LlmMessage) (ms : List LlmMessage)
    → (role : String) × (map turn_of (split_last m ms).0
          ++ record { role = role; content = (split_last m ms).1 } ∷ []
        ≡ map turn_of (m ∷ ms))
unfolding split_last
split_last-turns m [] = ((turn_of m).role, refl)
split_last-turns m (n ∷ ms) =
    let (role, rest) = split_last-turns n ms in (role, ap (◌∷◌ (turn_of m)) rest)

chat_of-Speaks :
    (instruction : String) (l : List LlmMessage) (t : GeminiTurn) (ts : List GeminiTurn)
    → map turn_of l ≡ t ∷ ts
    → Speaks (chat_of instruction l) (map turn_of l)
chat_of-Speaks instruction [] t ts h = cc
chat_of-Speaks instruction (m ∷ ms) t ts h = split_last-turns m ms

module _ {N J : Type 0} where
  -- If a request has a message of the user or the assistant, then the history of its chat and,
  -- behind it, the message that is sent (in the role that it had) are exactly the messages of the
  -- request less those of the system, in their order: the assistant's in the role "model", the
  -- user's in the role "user".
  pub build_chat-Speaks :
      (request : LlmCompletionRequest N J) (t : GeminiTurn) (ts : List GeminiTurn)
      → turns request.messages ≡ t ∷ ts
      → Speaks (build_chat request) (turns request.messages)
  unfolding build_chat
  build_chat-Speaks request t ts h =
      let kept = keep (λ m. is_dialogue m.role) request.messages in
      subst (Speaks (build_chat request)) (turns-keep request.messages) (
        chat_of-Speaks (or_default request.system_prompt "") kept t ts
          (turns-keep request.messages ∙ h))
