-- ===== src/Agents/Context.antt =====
-- src/agents/context/agent-context.ts.
use ai_content_platform.Prelude.{
  ℕ, String, Bool, true, false, Option, none, some, List, [], ◌∷◌, ◌++◌,
}
use ai_content_platform.Domain.{
  Tone, formal, ContentType, AgentRole, planner, researcher, generator, optimizer, qa, AgentStep,
  SearchResult, BrandConfig,
}
use ai_content_platform.Exceptions.{error, Settled, resolved, rejected, ◌+s◌}
use ai_content_platform.Resilience.{DegradedExecutionContext, DegradationReason, fresh, append}

pub record AgentContext (N : Type 0) : Type 0 where
  pub job_id : String
  pub brand_id : String
  pub brand_config : BrandConfig
  pub topic : String
  pub content_type : ContentType
  pub steps : List AgentStep
  pub degradation : DegradedExecutionContext
  pub outline : List String
  pub search_queries : List String
  pub target_tone : Tone
  pub rag_context : List (SearchResult N)
  pub citations : List String
  pub draft_content : String
  pub optimized_content : String
  pub seo_keywords : List String
  pub final_content : String
  pub readability_score : N
  pub approved : Bool
  pub is_cancelled : Bool
  pub correlation_id : String

abbrev pub role_name : AgentRole → String
role_name planner = "PLANNER"
role_name researcher = "RESEARCHER"
role_name generator = "GENERATOR"
role_name optimizer = "OPTIMIZER"
role_name qa = "QA"

abbrev or_empty : Option String → String
or_empty none = ""
or_empty (some s) = s

module _ {N : Type 0} where
  -- The constructor; `zero` is the number 0.
  unfoldable pub new_context :
      (zero : N) (job_id brand_id : String) (brand_config : BrandConfig) (topic : String)
      (content_type : ContentType) (correlation_id : Option String)
      → AgentContext N
  unfolding fresh
  new_context zero job_id brand_id brand_config topic content_type correlation_id = record {
    job_id = job_id;
    brand_id = brand_id;
    brand_config = brand_config;
    topic = topic;
    content_type = content_type;
    steps = [];
    degradation = fresh;
    outline = [];
    search_queries = [];
    target_tone = formal;
    rag_context = [];
    citations = [];
    draft_content = "";
    optimized_content = "";
    seo_keywords = [];
    final_content = "";
    readability_score = zero;
    approved = false;
    is_cancelled = false;
    correlation_id = or_empty correlation_id;
  }

  unfoldable pub degrade : DegradationReason → AgentContext N → AgentContext N
  degrade reason c = record c { degradation = append reason c.degradation }

  -- The step's `startedAt` is set at this moment.
  unfoldable pub record_step : ℕ → AgentStep → AgentContext N → AgentContext N
  record_step now step c = record c { steps = c.steps ++ record step { started_at = now } ∷ [] }

  unfoldable pub cancel : AgentContext N → AgentContext N
  cancel c = record c { is_cancelled = true }

  unfoldable pub check_cancelled : AgentRole → AgentContext N → Settled (Unit {0})
  check_cancelled role c = elim c.is_cancelled [
    | true ↦ rejected (error ("Pipeline cancelled before " +s role_name role +s " agent"))
    | false ↦ resolved tt
  ]

-- What code that holds the context can do to it: the record of the reasons is only appended to, and
-- the fields that the class marks `readonly` keep their values; the other fields are free.
pub data Effect (N : Type 0) : Type 0 where
  appends : DegradationReason → Effect N
  writes : (AgentContext N → AgentContext N) → Effect N

module _ {N : Type 0} where
  unfoldable pub apply_effect : Effect N → AgentContext N → AgentContext N
  apply_effect (appends reason) c = degrade reason c
  apply_effect (writes f) c = record (f c) {
    job_id = c.job_id;
    brand_id = c.brand_id;
    brand_config = c.brand_config;
    topic = c.topic;
    content_type = c.content_type;
    degradation = c.degradation;
    correlation_id = c.correlation_id;
  }

  -- Several effects, one after the other.
  unfoldable pub affected : List (Effect N) → AgentContext N → AgentContext N
  unfolding apply_effect
  affected [] c = c
  affected (e ∷ es) c = affected es (apply_effect e c)
