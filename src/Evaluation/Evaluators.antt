-- ===== src/Evaluation/Evaluators.antt =====
-- src/evaluation/evaluators. The numbers are a parameter, with the operations that the code uses;
-- `slice n` is `slice(0, n)` of a string.
use ai_content_platform.Prelude.{
  ℕ, ◌+◌, String, Bool, Option, none, some, List, [], ◌∷◌, if◌then◌else◌, take, get_elem?,
}
use ai_content_platform.Domain.{Tone, SearchResult}
use ai_content_platform.Exceptions.{Thrown, error, Settled, resolved, rejected, ◌+s◌, join}
use ai_content_platform.Llm.Provider.{LlmCompletionRequest}
use ai_content_platform.Llm.Router.{Router, RouterState, RouterOptions}
use ai_content_platform.Llm.Router.Stream.{complete_structured, embed}
use ai_content_platform.Tools.Llm.{ask_user}
use ai_content_platform.Agents.Services.{tone_name}

-- `nan` is what an operation on a missing number gives, `fixed4` is `parseFloat(x.toFixed(4))`,
-- `less` and `at_least` are the comparisons, which are false on `nan`.
pub record Numbers (N : Type 0) : Type 0 where
  pub zero_ : N
  pub one : N
  pub half : N
  pub hundred : N
  pub nan : N
  pub add : N → N → N
  pub mul : N → N → N
  pub divide : N → N → N
  pub sqrt : N → N
  pub minimum : N → N → N
  pub maximum : N → N → N
  pub fixed4 : N → N
  pub of_nat : ℕ → N
  pub less : N → N → Bool
  pub at_least : N → N → Bool

-- `CompositeScoreInput`, and the weights of the configuration.
pub record CompositeScoreInput (N : Type 0) : Type 0 where
  pub relevance : N
  pub tone : N
  pub factuality : N
  pub readability : N

pub record ToneScore (N : Type 0) : Type 0 where
  pub score : N
  pub detected : String

pub record FactualityScore (N : Type 0) : Type 0 where
  pub score : N
  pub supported_claims : ℕ
  pub total_claims : ℕ

module _ {N : Type 0} (n : Numbers N) where
  -- `Math.max(0, Math.min(1, x))`.
  abbrev pub clamp : N → N
  clamp x = n.maximum n.zero_ (n.minimum n.one x)

  unfoldable pub composite_score : CompositeScoreInput N → CompositeScoreInput N → N
  composite_score weights input = clamp (
      n.fixed4 (
        n.add
          (n.add (n.add (n.mul input.relevance weights.relevance) (n.mul input.tone weights.tone))
            (n.mul input.factuality weights.factuality))
          (n.mul input.readability weights.readability)))

  -- The loop: the dot product and the squared lengths; an entry that `b` lacks is `undefined`.
  unfoldable pub sums : List N → List N → N × N × N → N × N × N
  sums [] bs acc = acc
  sums (x ∷ xs) [] (dot, a, b) =
      sums xs [] (n.add dot (n.mul x n.nan), n.add a (n.mul x x), n.add b (n.mul n.nan n.nan))
  sums (x ∷ xs) (y ∷ ys) (dot, a, b) =
      sums xs ys (n.add dot (n.mul x y), n.add a (n.mul x x), n.add b (n.mul y y))

  cosine_of : N × N × N → N
  cosine_of (dot, a, b) =
      let denom = n.mul (n.sqrt a) (n.sqrt b) in
      if n.less n.zero_ denom then clamp (n.divide dot denom) else n.zero_

  -- `cosineSimilarity` of two vectors that may be missing.
  unfoldable pub cosine_similarity : Option (List N) → Option (List N) → Settled N
  unfolding sums cosine_of
  cosine_similarity none b =
      rejected (error "Cannot read properties of undefined (reading 'length')")
  cosine_similarity (some []) none = resolved (cosine_of (n.zero_, n.zero_, n.zero_))
  cosine_similarity (some (x ∷ xs)) none =
      rejected (error "Cannot read properties of undefined (reading '0')")
  cosine_similarity (some a) (some b) = resolved (cosine_of (sums a b (n.zero_, n.zero_, n.zero_)))

-- What the judges use: `parse_tone` and `parse_factuality` are `JSON.parse` and the schemas.
pub record Judges (N J W : Type 0) : Type 0 where
  pub numbers : Numbers N
  pub router : Router N J W
  pub parse_tone : String → Settled (ToneScore N)
  pub parse_factuality : String → Settled (FactualityScore N)
  pub shown : Thrown → String
  pub slice : ℕ → String → String
  pub decimal : ℕ → String

module _ {N J W : Type 0} (p : Judges N J W) where
  abbrev no_options : RouterOptions N W
  no_options = record {
    preferred_provider = none;
    model = none;
    temperature = none;
    max_tokens = none;
    on_fallback = λ key s. s;
  }

  -- `try { … } catch { return fallback; }`.
  abbrev pub or_else : {A S : Type 0} → A → Settled A × S → A × S
  or_else fallback (resolved a, s) = (a, s)
  or_else fallback (rejected e, s) = (fallback, s)

  compared : Settled (List (List N)) × RouterState W → Settled N × RouterState W
  unfolding cosine_similarity
  compared (resolved vectors, s) =
      (cosine_similarity p.numbers (get_elem? vectors 0) (get_elem? vectors 1), s)
  compared (rejected e, s) = (rejected e, s)

  -- `RelevanceEvaluator.score`.
  unfoldable pub relevance_score : String → String → RouterState W → N × RouterState W
  unfolding compared
  relevance_score topic content s =
      or_else p.numbers.half (compared (embed p.router (topic ∷ content ∷ []) s))

  unfoldable pub tone_request : Tone → String → LlmCompletionRequest N J
  tone_request target content =
      ask_user
        ("Evaluate whether the following content matches the target tone.\n\nTarget tone: "
          +s tone_name target
          +s "\nAvailable tones: FORMAL, CASUAL, TECHNICAL, FRIENDLY, PERSUASIVE\n\nContent (excerpt):\n\"\"\"\n"
          +s p.slice 1500 content
          +s "\n\"\"\"\n\nReturn JSON:\n- score: 0.0–1.0 (1.0 = perfect match, 0.0 = complete mismatch)\n- detected: the actual tone you observe in the content (one of the available tones)\n- reasoning: one sentence explanation")
        "You are an expert content tone analyst. Be concise and precise."

  -- `ToneEvaluator.score`.
  unfoldable pub tone_score : Tone → String → RouterState W → ToneScore N × RouterState W
  unfolding tone_request
  tone_score target content s =
      or_else (record { score = p.numbers.half; detected = "UNKNOWN" })
        (complete_structured p.router p.parse_tone p.shown no_options (tone_request target content)
          s)

  sources_from : ℕ → List (SearchResult N) → List String
  sources_from i [] = []
  sources_from i (r ∷ rs) =
      ("[" +s p.decimal i +s "] " +s p.slice 400 r.content) ∷ sources_from (i + 1) rs

  unfoldable pub factuality_request : String → List (SearchResult N) → LlmCompletionRequest N J
  unfolding sources_from
  factuality_request content rag_context =
      ask_user
        ("Reference sources:\n"
          +s join "\n\n" (sources_from 1 (take 5 rag_context))
          +s "\n\nContent to fact-check (excerpt):\n\"\"\"\n"
          +s p.slice 1500 content
          +s "\n\"\"\"\n\nIdentify factual claims in the content. For each claim, determine if it is supported by the sources above.\n\nReturn JSON:\n- score: 0.0–1.0 (supportedClaims / totalClaims, or 1.0 if no factual claims)\n- supportedClaims: number of claims found in the sources\n- totalClaims: total factual claims identified\n- unsupportedClaims: list of claims NOT supported (max 5)")
        "You are a rigorous fact-checker. Evaluate factual accuracy using only the provided sources."

  abbrev neutral : FactualityScore N
  neutral = record { score = p.numbers.half; supported_claims = 0; total_claims = 0 }

  -- `FactualityEvaluator.score`.
  unfoldable pub factuality_score :
      String → List (SearchResult N) → RouterState W → FactualityScore N × RouterState W
  unfolding factuality_request
  factuality_score content [] s = (neutral, s)
  factuality_score content (r ∷ rs) s = or_else neutral (
      complete_structured p.router p.parse_factuality p.shown no_options
        (factuality_request content (r ∷ rs)) s)
