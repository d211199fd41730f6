-- ===== src/Lib.antt =====
-- The core of the AI content platform: a job is queued, taken up by a worker, run through a
-- pipeline of agents that call language models, and reported to its clients over a stream of
-- events.
--
-- Parts, and the file that models each:
--   * Worker.antt: the worker of the queue, src/queue/processors/content-pipeline.processor.ts
--     (`process`, `on_failed`). It marks the row of a job, runs the orchestrator, stores the result and
--     emits the final event.
--   * Agents/Orchestrator.antt: src/agents/orchestrator/agent-orchestrator.service.ts (`run`, the loop
--     over the roles, `run_with_retry`, `with_timeout`, `should_skip_optional`), over the context of
--     Agents/Context.antt, src/agents/context/agent-context.ts.
--   * Agents/Planner.antt, Researcher.antt, Generator.antt, Optimizer.antt and Qa.antt:
--     src/agents/agents, each `run` over what they share in Agents/Services.antt; the ranking of the
--     search results is in Agents/Ranking.antt. Agents/Pipeline.antt is the orchestrator over the five.
--   * Tools/Registry.antt: src/tools/tools.registry.ts; Tools/Llm.antt and
--     Tools/Readability.antt: the tools of src/tools/tools.
--   * Memory.antt: src/memory/memory.service.ts over the table of events. Evaluation/Evaluators.antt and
--     Evaluation/Service.antt: src/evaluation.
--   * Llm/Router.antt and Llm/Router/Stream.antt: src/llm/llm-router.service.ts (`complete`, `stream`,
--     `embed`, `complete_structured`), with the breakers of Llm/Breaker.antt,
--     src/llm/circuit-breaker.ts, and the provider interface of Llm/Provider.antt.
--   * Llm/Providers: the four adapters of src/llm/providers over the clients of their SDKs.
--   * Streaming/Service.antt: src/streaming/streaming.service.ts and the controller's `openStream`; the
--     events and their contract are in Streaming/Events.antt.
--   * Content.antt, Brands.antt, Queue.antt: src/content/content.service.ts,
--     src/brands/brands.service.ts and src/queue/queue.service.ts over their tables and the queue.
--   * Rag/Service.antt: src/rag/services/rag.service.ts (`ingest`, `process_document`, `search`,
--     `delete_document`) over the store of Rag/Store.antt; Rag/Splitter.antt:
--     src/rag/services/text-splitter.service.ts; Rag/Qdrant.antt and Rag/Parser.antt: the adapters
--     src/rag/infrastructure/qdrant-vector-store.ts and src/rag/services/document-parser.service.ts.
--   * Contracts.antt: the schemas of src/contracts/v1 as lists of checks; Contracts/Registry.antt:
--     src/contracts/contract-registry.service.ts; Resilience.antt: src/resilience; Domain.antt and
--     Exceptions.antt: src/common.
--   * Prelude.antt and its children: names of the libraries, and helpers on lists, texts and maps.
--
-- State is passed explicitly. An asynchronous call is a function from a state to its outcome, a
-- `Settled` value, and the state after it. The parts meet as they do in the code: the worker
-- calls `run` of the orchestrator and `find_by_id` of the brands; the queue and the streams
-- enforce the contracts; the agents call the router with the context as part of its world, so
-- that its notice of a fallback is recorded; an evaluation writes to the memory. The vendors,
-- Qdrant, pdf-parse, cheerio, the database, the event channel, BullMQ, rxjs, zod, JSON, the
-- metrics and the clocks are parameters, and what is assumed of them is a named record (`IsUp`,
-- `IsRx`, `IsZod`, ...). An agent that its timer cuts off has had some effects on the context
-- (`Effect`: it appends reasons and writes fields that are not readonly); what it does later
-- happens in the calls that later agents wait for, which act on the whole state of the run.
--
-- A fractional number is a value of a type parameter, whose comparisons belong to zod, or to
-- `Scores` and `Numbers`. All other numbers are natural. Calls that run at the same time (the
-- searches of the researcher, the judges of an evaluation) are taken one after the other. Timers
-- are events of their own in the streaming service; in the orchestrator and the researcher a race
-- with a timer is decided by the time that the work takes.
--
-- The loops are structural: over the chain of providers, over the rounds that `maxRetries` leaves,
-- over the roles of the pipeline. `deliver` of Worker/Laws.antt counts down the attempts that are
-- left, which start at the configured three. The batches of `embed_batches` take at least one chunk
-- each, so that as many rounds as there are chunks are enough.
--
-- Not modelled: metrics and tracing, which only call libraries; and the wiring of NestJS.
pub mod Prelude
pub mod Domain
pub mod Resilience
pub mod Exceptions
pub mod Contracts
pub mod Streaming
pub mod Agents
pub mod Brands
pub mod Queue
pub mod Worker
pub mod Rag
pub mod Content
pub mod Llm
pub mod Tools
pub mod Memory
pub mod Evaluation
