-- ===== src/Evaluation/Service.antt =====
-- src/evaluation/evaluation.service.ts over the tables of records and of memory events, the newest
-- row first. The three judges, which run at the same time, are taken one after the other.
pub mod Laws
mod Tests
use ai_content_platform.Prelude.{
  ℕ, String, Bool, true, false, ◌&&◌, Option, none, some, List, [], ◌∷◌, ◌==◌, if◌then◌else◌, take,
  keep, length, last?, str_or,
}
use ai_content_platform.Domain.{ContentResult, AgentStep, qa}
use ai_content_platform.Exceptions.{Settled, resolved, rejected}
use ai_content_platform.Contracts.{
  Zod, passes, EvaluationResult, EvaluationDimensions, evaluation_result_checks,
}
use ai_content_platform.Llm.Router.{RouterState}
use ai_content_platform.Rag.Service.{bind}
use ai_content_platform.Memory.{
  Fields, MemoryService, MemoryState, MemoryEventEntity, RecordMemoryParams, record_event,
  embed_and_index,
}
use ai_content_platform.Agents.Context.{AgentContext}
use ai_content_platform.Agents.Services.{tone_name, content_type_name}
use ai_content_platform.Evaluation.Evaluators.{
  Numbers, CompositeScoreInput, ToneScore, FactualityScore, Judges, composite_score,
  relevance_score, tone_score, factuality_score,
}

abbrev pub prompt_version : String
prompt_version = "1.0.0"

pub record EvaluationRecordEntity (N : Type 0) : Type 0 where
  pub id : String
  pub result : EvaluationResult N
  pub evaluated_at : ℕ

-- `fields` are the members of the payload of a memory event in the order of the source.
pub record EvaluationService (N J W : Type 0) : Type 0 where
  pub judges : Judges N J W
  pub weights : CompositeScoreInput N
  pub memory : MemoryService N J (RouterState W)
  pub zod : Zod N
  pub memory_indexing_threshold : N
  pub record_score :
      String → String → String → N → RouterState W → Settled (Unit {0}) × RouterState W
  pub fields : (topic content_type : String) → N → ℕ → (model_id prompt_version : String) → Fields J

pub record EvaluationState (N J W : Type 0) : Type 0 where
  pub records : List (EvaluationRecordEntity N)
  pub memory : MemoryState J (RouterState W)

-- `lastStep?.modelUsed ?? 'unknown'`.
abbrev pub model_of : Option AgentStep → String
model_of none = "unknown"
model_of (some step) = step.model_used

module _ {N J W : Type 0} (p : EvaluationService N J W) where
  abbrev with_world : EvaluationState N J W → RouterState W → EvaluationState N J W
  with_world s w = record s { memory = record s.memory { world = w } }

  -- A call that leaves the tables alone.
  abbrev lift :
      {A : Type 0}
      → (RouterState W → Settled A × RouterState W)
      → EvaluationState N J W
      → Settled A × EvaluationState N J W
  lift f s = ((f s.memory.world).0, with_world s (f s.memory.world).1)

  -- A call of the memory service.
  abbrev lift_memory :
      {A : Type 0}
      → (MemoryState J (RouterState W) → Settled A × MemoryState J (RouterState W))
      → EvaluationState N J W
      → Settled A × EvaluationState N J W
  lift_memory f s = ((f s.memory).0, record s { memory = (f s.memory).1 })

  unfoldable pub payload_of :
      AgentContext N → ContentResult N → N → ToneScore N → FactualityScore N → EvaluationResult N
  payload_of ctx result relevance tone factuality =
      let readability = p.judges.numbers.divide result.readability_score p.judges.numbers.hundred in
      record {
        job_id = ctx.job_id;
        brand_id = ctx.brand_id;
        content_type = ctx.content_type;
        model_id = model_of (last? ctx.steps);
        prompt_version = prompt_version;
        relevance_score = relevance;
        tone_score = tone.score;
        factuality_score = factuality.score;
        readability_score = readability;
        composite_score = composite_score p.judges.numbers p.weights (record {
          relevance = relevance;
          tone = tone.score;
          factuality = factuality.score;
          readability = readability;
        });
        dimensions = record {
          relevance = relevance;
          tone = tone.score;
          detected = tone.detected;
          target = tone_name ctx.target_tone;
          factuality = factuality.score;
          supported_claims = factuality.supported_claims;
          total_claims = factuality.total_claims;
          readability = readability;
        };
      }

  -- `result.optimized || result.raw`.
  abbrev pub final_content : ContentResult N → String
  final_content result = str_or result.optimized result.raw

  -- The judges' scores, as the payload.
  unfoldable pub judge :
      AgentContext N → ContentResult N → RouterState W → EvaluationResult N × RouterState W
  unfolding payload_of relevance_score tone_score factuality_score
  judge ctx result s =
      let relevance = relevance_score p.judges ctx.topic (final_content result) s in
      let tone = tone_score p.judges ctx.target_tone (final_content result) relevance.1 in
      let factuality = factuality_score p.judges (final_content result) ctx.rag_context tone.1 in
      (payload_of ctx result relevance.0 tone.0 factuality.0, factuality.1)

  unfoldable pub memory_params :
      AgentContext N → ContentResult N → EvaluationResult N → RecordMemoryParams J
  memory_params ctx result payload = record {
    brand_id = ctx.brand_id;
    job_id = some ctx.job_id;
    agent = qa;
    event_type = "generation_complete";
    content = p.judges.slice 2000 (final_content result);
    payload =
        p.fields ctx.topic (content_type_name ctx.content_type) payload.composite_score
          result.word_count payload.model_id prompt_version;
    prompt_version = some prompt_version;
  }

  -- The last step: only good generations are indexed.
  unfoldable pub index_event :
      AgentContext N
      → ContentResult N
      → N
      → MemoryEventEntity J
      → EvaluationState N J W
      → Settled (Unit {0}) × EvaluationState N J W
  index_event ctx result score event s =
      if p.judges.numbers.at_least score p.memory_indexing_threshold
      then lift_memory (embed_and_index p.memory event.id (final_content result) ctx.brand_id) s
      else (resolved tt, s)

  unfoldable pub remember :
      AgentContext N
      → ContentResult N
      → EvaluationResult N
      → EvaluationState N J W
      → Settled (Unit {0}) × EvaluationState N J W
  unfolding memory_params index_event
  remember ctx result payload s =
      bind (lift_memory (record_event p.memory (memory_params ctx result payload)) s)
        (index_event ctx result payload.composite_score)

  abbrev new_record : EvaluationResult N → RouterState W → EvaluationRecordEntity N
  new_record payload w = record {
    id = p.memory.new_id w;
    result = payload;
    evaluated_at = p.memory.now w;
  }

  inserted :
      EvaluationResult N
      → Unit {0}
      → EvaluationState N J W
      → Settled (Unit {0}) × EvaluationState N J W
  inserted payload _ s =
      (resolved tt, record s { records = new_record payload s.memory.world ∷ s.records })

  -- `evalRepo.save`.
  unfoldable pub save :
      EvaluationResult N → EvaluationState N J W → Settled (Unit {0}) × EvaluationState N J W
  unfolding inserted
  save payload s = bind (lift p.memory.reach s) (inserted payload)

  unfoldable pub persist :
      AgentContext N
      → ContentResult N
      → EvaluationResult N
      → EvaluationState N J W
      → Settled (Unit {0}) × EvaluationState N J W
  unfolding save remember
  persist ctx result payload s = bind (save payload s) λ _ t.
      bind
        (lift
          (p.record_score ctx.brand_id (content_type_name ctx.content_type) payload.model_id
            payload.composite_score)
          t)
        λ _ u. remember ctx result payload u

  -- The contract gate: a violation ends the evaluation.
  unfoldable pub gate :
      AgentContext N
      → ContentResult N
      → EvaluationResult N
      → EvaluationState N J W
      → Settled (Unit {0}) × EvaluationState N J W
  unfolding persist
  gate ctx result payload s =
      if passes (evaluation_result_checks p.zod payload)
      then persist ctx result payload s
      else (resolved tt, s)

  abbrev swallow :
      Settled (Unit {0}) × EvaluationState N J W → Settled (Unit {0}) × EvaluationState N J W
  swallow (resolved a, s) = (resolved a, s)
  swallow (rejected e, s) = (resolved tt, s)

  unfoldable pub evaluate :
      AgentContext N
      → ContentResult N
      → EvaluationState N J W
      → Settled (Unit {0}) × EvaluationState N J W
  unfolding judge gate
  evaluate ctx result s =
      let judged = judge ctx result s.memory.world in
      swallow (gate ctx result judged.0 (with_world s judged.1))

  -- `getByBrand`.
  unfoldable pub get_by_brand :
      String → Option ℕ → EvaluationState N J W → List (EvaluationRecordEntity N)
  get_by_brand brand_id limit s =
      take (elim limit [ none ↦ 50 | some n ↦ n ])
        (keep (λ r. r.result.brand_id == brand_id) s.records)

  total : List (EvaluationRecordEntity N) → N → N
  total [] sum = sum
  total (r ∷ rs) sum = total rs (p.judges.numbers.add sum r.result.composite_score)

  average_of : List (EvaluationRecordEntity N) → N
  unfolding total
  average_of [] = p.judges.numbers.zero_
  average_of (r ∷ rs) =
      p.judges.numbers.divide (total (r ∷ rs) p.judges.numbers.zero_)
        (p.judges.numbers.of_nat (length (r ∷ rs)))

  unfoldable pub average : String → String → EvaluationState N J W → N
  unfolding average_of
  average brand_id model_id s = average_of (
      take 100
        (keep (λ r. (r.result.brand_id == brand_id) && (r.result.model_id == model_id)) s.records))

  -- `compareModels`: the two averages and the winner.
  unfoldable pub compare_models :
      (brand_id model_a model_b : String) → EvaluationState N J W → N × N × String
  unfolding average
  compare_models brand_id model_a model_b s =
      let a = average brand_id model_a s in
      let b = average brand_id model_b s in
      (
        p.judges.numbers.fixed4 a,
        p.judges.numbers.fixed4 b,
        if p.judges.numbers.at_least a b then model_a else model_b,
      )
