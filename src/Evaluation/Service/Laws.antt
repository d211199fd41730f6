-- ===== src/Evaluation/Service/Laws.antt =====
-- What an evaluation leaves behind.
use ai_content_platform.Prelude.{
  ◌≡◌, refl, sym, ◌∙◌, ap, true, false, ◌⊎◌, inl, inr, List, ◌∷◌, if_rule, arith,
}
use ai_content_platform.Domain.{ContentResult}
use ai_content_platform.Exceptions.{Settled, resolved, rejected}
use ai_content_platform.Contracts.{passes, EvaluationResult, evaluation_result_checks}
use ai_content_platform.Memory.{MemoryEventEntity, record_event}
use ai_content_platform.Memory.Laws.{bind-keeps, indexed, record_event-indexed}
use ai_content_platform.Agents.Context.{AgentContext}
use ai_content_platform.Evaluation.Evaluators.{composite_score}
use ai_content_platform.Evaluation.Service.{
  EvaluationRecordEntity, EvaluationService, EvaluationState, payload_of, judge, memory_params,
  index_event, remember, inserted, new_record, save, persist, gate, evaluate, lift, lift_memory,
  swallow, with_world,
}

module _ {N J W : Type 0} (p : EvaluationService N J W) where
  -- A record that the contract accepts, of the job and the brand of the run, and whose composite
  -- score is the one of its four scores.
  pub record IsSound (ctx : AgentContext N) (r : EvaluationResult N) : Type 0 where
    pub accepted : passes (evaluation_result_checks p.zod r) ≡ true
    pub derived :
        r.composite_score
        ≡ composite_score p.judges.numbers p.weights (record {
          relevance = r.relevance_score;
          tone = r.tone_score;
          factuality = r.factuality_score;
          readability = r.readability_score;
        })
    pub of_job : r.job_id ≡ ctx.job_id
    pub of_brand : r.brand_id ≡ ctx.brand_id

  -- The records are the old ones, or these and a sound one.
  abbrev pub Recorded :
      AgentContext N → List (EvaluationRecordEntity N) → EvaluationState N J W → Type 0
  Recorded ctx old t =
      (t.records ≡ old)
      ⊎ ((e : EvaluationRecordEntity N) × (t.records ≡ e ∷ old) × IsSound ctx e.result)

  swallow-resolves :
      (given : Settled (Unit {0}) × EvaluationState N J W) → (swallow p given).0 ≡ resolved tt
  swallow-resolves (resolved a, s) = refl
  swallow-resolves (rejected e, s) = refl

  swallow-keeps {ℓ} :
      (Q : EvaluationState N J W → Type ℓ) (given : Settled (Unit {0}) × EvaluationState N J W)
      → Q given.1
      → Q (swallow p given).1
  swallow-keeps Q (resolved a, s) h = h
  swallow-keeps Q (rejected e, s) h = h

  index_event-records :
      (ctx : AgentContext N) (result : ContentResult N) (score : N) (event : MemoryEventEntity J)
      (s : EvaluationState N J W)
      → (index_event p ctx result score event s).1.records ≡ s.records
  unfolding index_event
  index_event-records ctx result score event s = ground arith

  remember-Recorded :
      (ctx : AgentContext N) (result : ContentResult N) (payload : EvaluationResult N)
      (old : List (EvaluationRecordEntity N)) (s : EvaluationState N J W)
      → Recorded ctx old s
      → Recorded ctx old (remember p ctx result payload s).1
  unfolding remember
  remember-Recorded ctx result payload old s h =
      bind-keeps (Recorded ctx old)
        (lift_memory p (record_event p.memory (memory_params p ctx result payload)) s)
        (index_event p ctx result payload.composite_score) h
        λ event t _ k.
          same t (index_event p ctx result payload.composite_score event t).1
            (index_event-records ctx result payload.composite_score event t) k
    where
      same :
          (t u : EvaluationState N J W)
          → u.records ≡ t.records
          → Recorded ctx old t
          → Recorded ctx old u
      same t u e (inl k) = inl (e ∙ k)
      same t u e (inr (r, k, sound)) = inr (r, e ∙ k, sound)

  save-Recorded :
      (ctx : AgentContext N) (payload : EvaluationResult N) (s : EvaluationState N J W)
      → IsSound ctx payload
      → Recorded ctx s.records (save p payload s).1
  unfolding save inserted
  save-Recorded ctx payload s sound =
      bind-keeps (Recorded ctx s.records) (lift p p.memory.reach s) (inserted p payload) (inl refl)
        λ a t e _. inr (
          new_record p payload t.memory.world,
          ap (◌∷◌ (new_record p payload t.memory.world)) (sym (ap (λ x. x.1.records) e)),
          sound,
        )

  gate-Recorded :
      (ctx : AgentContext N) (result : ContentResult N) (payload : EvaluationResult N)
      (s : EvaluationState N J W)
      → (passes (evaluation_result_checks p.zod payload) ≡ true → IsSound ctx payload)
      → Recorded ctx s.records (gate p ctx result payload s).1
  unfolding gate persist
  gate-Recorded ctx result payload s sound =
      if_rule {A = Settled (Unit {0}) × EvaluationState N J W}
        (λ given. Recorded ctx s.records given.1) (passes (evaluation_result_checks p.zod payload))
        (λ accepted.
          bind-keeps (Recorded ctx s.records) (save p payload s) _
            (save-Recorded ctx payload s (sound accepted))
            λ _ t _ q.
              bind-keeps (Recorded ctx s.records) (lift p (p.record_score _ _ _ _) t) _ q
                λ _ u _ k. remember-Recorded ctx result payload s.records u k)
        λ refused. inl refl

  -- Whatever the judges, the database, the metrics and the memory do, an evaluation throws nothing;
  -- it leaves the records as they were, or adds one, which is of the job and the brand of the run,
  -- meets the contract, and has the composite score of its four scores.
  pub evaluate-Recorded :
      (ctx : AgentContext N) (result : ContentResult N) (s : EvaluationState N J W)
      → ((evaluate p ctx result s).0 ≡ resolved tt)
        × Recorded ctx s.records (evaluate p ctx result s).1
  unfolding evaluate judge payload_of
  evaluate-Recorded ctx result s =
      let judged = judge p ctx result s.memory.world in
      (
        swallow-resolves _,
        swallow-keeps (Recorded ctx s.records)
            (gate p ctx result judged.0 (with_world p s judged.1))
            (gate-Recorded ctx result judged.0 (with_world p s judged.1) λ accepted. record {
              accepted = accepted;
              derived = refl;
              of_job = refl;
              of_brand = refl;
            }),
      )

  persist-indexed :
      (ctx : AgentContext N) (result : ContentResult N) (payload : EvaluationResult N)
      (s : EvaluationState N J W)
      → p.judges.numbers.at_least payload.composite_score p.memory_indexing_threshold ≡ false
      → indexed (persist p ctx result payload s).1.memory.events ≡ indexed s.memory.events
  unfolding persist save inserted remember index_event
  persist-indexed ctx result payload s low =
      let Q : EvaluationState N J W → Type 0 =
        λ t. indexed t.memory.events ≡ indexed s.memory.events in
      bind-keeps Q (save p payload s) _
        (bind-keeps Q (lift p p.memory.reach s) (inserted p payload) refl λ a t _ h. h)
        λ _ t _ q. bind-keeps Q (lift p (p.record_score _ _ _ _) t) _ q λ _ u _ k.
          bind-keeps Q
            (lift_memory p (record_event p.memory (memory_params p ctx result payload)) u)
            (index_event p ctx result payload.composite_score)
            (record_event-indexed p.memory (memory_params p ctx result payload) u.memory ∙ k)
            λ event x _ h. rw low h

  -- A run whose composite score does not reach the threshold has no row of the memory indexed.
  pub evaluate-indexed :
      (ctx : AgentContext N) (result : ContentResult N) (s : EvaluationState N J W)
      → p.judges.numbers.at_least
          (judge p ctx result s.memory.world).0.composite_score
          p.memory_indexing_threshold
        ≡ false
      → indexed (evaluate p ctx result s).1.memory.events ≡ indexed s.memory.events
  unfolding evaluate gate
  evaluate-indexed ctx result s low =
      let judged = judge p ctx result s.memory.world in
      let t = with_world p s judged.1 in
      let Q : EvaluationState N J W → Type 0 =
        λ u. indexed u.memory.events ≡ indexed s.memory.events in
      swallow-keeps Q (gate p ctx result judged.0 t) (
        if_rule {A = Settled (Unit {0}) × EvaluationState N J W} (λ given. Q given.1)
          (passes (evaluation_result_checks p.zod judged.0))
          (λ accepted. persist-indexed ctx result judged.0 t low) λ refused. refl)
