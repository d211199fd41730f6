-- ===== src/Streaming/Events.antt =====
-- The SSE events of src/streaming/streaming.service.ts and the contract that guards them,
-- src/contracts/v1/events/sse-events.contract.ts. The `type` of an event is fixed by its data here.
use ai_content_platform.Prelude.{ℕ, String, Bool, Option, List, [], ◌∷◌, ◌++◌}
use ai_content_platform.Domain.{AgentRole, JobStatus, ContentResult}
use ai_content_platform.Contracts.{Zod, optional, content_result_checks}

pub data SseEventType : Type 0 where
  token agent_start agent_done job_done error heartbeat : SseEventType

-- The payloads that the code emits. The `error` payload is `{ message }` for a failure of the
-- stream, and `{ jobId, error }` for a failure of the job.
pub data EventData (N : Type 0) : Type 0 where
  token : String → EventData N
  agent_start : AgentRole → EventData N
  agent_done : AgentRole → Option ℕ → EventData N
  job_done : String → JobStatus → ContentResult N → EventData N
  stream_error : String → EventData N
  job_error : String → String → EventData N
  heartbeat : EventData N

pub record SseEvent (N : Type 0) : Type 0 where
  pub payload : EventData N
  pub job_id : String

abbrev pub event_type : {N : Type 0} → EventData N → SseEventType
event_type (token delta) = SseEventType.token
event_type (agent_start agent) = SseEventType.agent_start
event_type (agent_done agent ms) = SseEventType.agent_done
event_type (job_done id status result) = SseEventType.job_done
event_type (stream_error m) = SseEventType.error
event_type (job_error id m) = SseEventType.error
event_type heartbeat = SseEventType.heartbeat

module _ {N : Type 0} (z : Zod N) where
  unfoldable pub payload_checks : EventData N → List Bool
  unfolding content_result_checks
  payload_checks (token delta) = []
  payload_checks (agent_start agent) = []
  payload_checks (agent_done agent ms) = optional (z.int_min 0) ms ∷ []
  payload_checks (job_done id status result) = z.string_min 1 id ∷ content_result_checks z result
  payload_checks (stream_error m) = []
  payload_checks (job_error id m) = []
  payload_checks heartbeat = []

  unfoldable pub sse_event_checks : SseEvent N → List Bool
  unfolding payload_checks
  sse_event_checks e = payload_checks e.payload ++ z.string_min 1 e.job_id ∷ []
