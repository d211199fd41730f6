-- ===== src/Llm/Providers/OpenAi/Usage.antt =====
-- The usage that a stream reports.
use ai_content_platform.Prelude.{◌≡◌, refl, true, false, Option, none, List, [], ◌∷◌, ◌++◌, All}
use ai_content_platform.Exceptions.{Thrown}
use ai_content_platform.Llm.Providers.OpenAi.{ChatChunk, is_finished, forwarded}

-- The vendor documents that with `include_usage` the usage comes in a chunk of its own, after the
-- finished one. The stream then ends without an error and without any usage, whatever that chunk
-- says.
pub forwarded-loses_usage :
    (before rest : List ChatChunk) (finished : ChatChunk) (end_error : Option Thrown)
    → All (λ c. (is_finished c.choices ≡ false) × (c.usage ≡ none)) before
    → is_finished finished.choices ≡ true
    → finished.usage ≡ none
    → ((forwarded (before ++ finished ∷ rest) end_error).1 ≡ none)
      × All (λ c. c.usage ≡ none) (forwarded (before ++ finished ∷ rest) end_error).0
unfolding forwarded
forwarded-loses_usage [] rest finished end_error _ f u = rw f (refl, (u, tt))
forwarded-loses_usage (c ∷ cs) rest finished end_error ((open_, none_), h) f u =
    let (ended, lost) = forwarded-loses_usage cs rest finished end_error h f u in
    rw open_ (ended, (none_, lost))
