-- ===== src/Memory.antt =====
-- src/memory/memory.service.ts and src/memory/entities/memory-event.entity.ts. `J` stands for JSON
-- values. The Qdrant client, the embeddings and the connection to the database are parameters; a
-- call of the database that fails leaves the table as it is.
pub mod Laws
mod Tests
use ai_content_platform.Prelude.{
  ℕ, String, Bool, true, false, Option, none, some, List, [], ◌∷◌, ◌==◌, if◌then◌else◌, insert,
  lookup, str_or, is_truthy, str_mem,
}
use ai_content_platform.Domain.{AgentRole}
use ai_content_platform.Agents.Context.{role_name}
use ai_content_platform.Exceptions.{Thrown, error, Settled, resolved, rejected, ◌+s◌}
use ai_content_platform.Rag.Service.{bind, first}

abbrev pub Fields : Type 0 → Type 0
Fields J = List (String × J)

abbrev pub memory_collection : String → String
memory_collection brand_id = "brand_" +s brand_id +s "_memory"

abbrev pub embedding_dimension : ℕ
embedding_dimension = 1536

pub record RecordMemoryParams (J : Type 0) : Type 0 where
  pub brand_id : String
  pub job_id : Option String
  pub agent : AgentRole
  pub event_type : String
  pub content : String
  pub payload : Fields J
  pub prompt_version : Option String

-- `sinceDate`, which no code reads, is left out.
pub record MemoryQueryOptions : Type 0 where
  pub event_type : Option String
  pub limit : Option ℕ

pub record MemoryEventEntity (J : Type 0) : Type 0 where
  pub id : String
  pub brand_id : String
  pub job_id : Option String
  pub agent : AgentRole
  pub event_type : String
  pub content : String
  pub payload : Fields J
  pub qdrant_indexed : Bool
  pub prompt_version : String
  pub created_at : ℕ

-- An answer of the vector store; its payload may be missing.
pub record ScoredPoint (N J : Type 0) : Type 0 where
  pub id : String
  pub score : N
  pub payload : Option (Fields J)

-- The casts of the fields are kept as they are: each may be missing.
pub record RelevantMemory (N J : Type 0) : Type 0 where
  pub event_id : String
  pub agent : Option J
  pub event_type : Option J
  pub content : Option J
  pub score : N
  pub created_at : Option J

-- `reach` is the connection to the database, `new_id` and `now` what it gives a new row, `iso` is
-- `toISOString`, `to_date` is `new Date` of a field.
pub record MemoryService (N J W : Type 0) : Type 0 where
  pub get_collections : W → Settled (List String) × W
  pub create_collection : String → ℕ → W → Settled (Unit {0}) × W
  pub create_payload_index : String → String → W → Settled (Unit {0}) × W
  pub search_points :
      String → Option (List N) → ℕ → Option String → W → Settled (List (ScoredPoint N J)) × W
  pub upsert_point : String → String → Option (List N) → Fields J → W → Settled (Unit {0}) × W
  pub embed : List String → W → Settled (List (List N)) × W
  pub reach : W → Settled (Unit {0}) × W
  pub new_id : W → String
  pub now : W → ℕ
  pub json_string : String → J
  pub iso : ℕ → String
  pub to_date : Option J → Option J

pub record MemoryState (J W : Type 0) : Type 0 where
  pub events : List (MemoryEventEntity J)
  pub world : W

module _ {J : Type 0} where
  unfoldable pub find_event : String → List (MemoryEventEntity J) → Option (MemoryEventEntity J)
  find_event id [] = none
  find_event id (e ∷ es) = if e.id == id then some e else find_event id es

  -- `repo.update(eventId, { qdrantIndexed: true })`.
  unfoldable pub mark_indexed : String → List (MemoryEventEntity J) → List (MemoryEventEntity J)
  mark_indexed id [] = []
  mark_indexed id (e ∷ es) =
      (if e.id == id then record e { qdrant_indexed = true } else e) ∷ mark_indexed id es

  unfoldable pub new_event : String → ℕ → RecordMemoryParams J → MemoryEventEntity J
  new_event id now params = record {
    id = id;
    brand_id = params.brand_id;
    job_id = params.job_id;
    agent = params.agent;
    event_type = params.event_type;
    content = params.content;
    payload = params.payload;
    qdrant_indexed = false;
    prompt_version = elim params.prompt_version [ none ↦ "0.0.0" | some version ↦ version ];
    created_at = now;
  }

module _ {N J W : Type 0} (p : MemoryService N J W) where
  -- A call that leaves the table alone.
  abbrev pub lift :
      {A : Type 0} → (W → Settled A × W) → MemoryState J W → Settled A × MemoryState J W
  lift f s = ((f s.world).0, record s { world = (f s.world).1 })

  saved :
      RecordMemoryParams J
      → Unit {0}
      → MemoryState J W
      → Settled (MemoryEventEntity J) × MemoryState J W
  unfolding new_event
  saved params _ s =
      let event = new_event (p.new_id s.world) (p.now s.world) params in
      (resolved event, record s { events = event ∷ s.events })

  -- `record`.
  unfoldable pub record_event :
      RecordMemoryParams J → MemoryState J W → Settled (MemoryEventEntity J) × MemoryState J W
  unfolding saved
  record_event params s = bind (lift p.reach s) (saved params)

  listed : String → Settled (List String) × W → Bool × W
  listed name (resolved names, w) = (str_mem name names, w)
  listed name (rejected e, w) = (false, w)

  -- `collectionExists`: an error counts as no.
  unfoldable pub collection_exists : String → W → Bool × W
  unfolding listed
  collection_exists name w = listed name (p.get_collections w)

  created : String → Bool × W → Settled (Unit {0}) × W
  created name (true, w) = (resolved tt, w)
  created name (false, w) = bind (p.create_collection name embedding_dimension w) λ _ t.
      bind (p.create_payload_index name "brandId" t)
        λ _ u. p.create_payload_index name "eventType" u

  unfoldable pub ensure_collection : String → W → Settled (Unit {0}) × W
  unfolding created collection_exists
  ensure_collection name w = created name (collection_exists name w)

  -- The filter that a search gets: an empty event type counts as none.
  abbrev pub event_filter : Option String → Option String
  event_filter none = none
  event_filter (some t) = if is_truthy t then some t else none

  memory_of : ScoredPoint N J → Fields J → RelevantMemory N J
  memory_of r payload = record {
    event_id = r.id;
    agent = lookup "agent" payload;
    event_type = lookup "eventType" payload;
    content = lookup "content" payload;
    score = r.score;
    created_at = p.to_date (lookup "createdAt" payload);
  }

  joined :
      RelevantMemory N J → Settled (List (RelevantMemory N J)) → Settled (List (RelevantMemory N J))
  joined m (resolved ms) = resolved (m ∷ ms)
  joined m (rejected e) = rejected e

  -- The mapping of the answers; a missing payload throws.
  unfoldable pub memories : List (ScoredPoint N J) → Settled (List (RelevantMemory N J))
  unfolding memory_of joined
  memories [] = resolved []
  memories (r ∷ rs) = elim r.payload [
    | none ↦ rejected (error "Cannot read properties of null (reading 'agent')")
    | some payload ↦ joined (memory_of r payload) (memories rs)
  ]

  -- `catch (err) { return []; }`.
  abbrev pub or_nothing :
      Settled (List (RelevantMemory N J)) × W → Settled (List (RelevantMemory N J)) × W
  or_nothing (resolved ms, w) = (resolved ms, w)
  or_nothing (rejected e, w) = (resolved [], w)

  found :
      String
      → ℕ
      → Option String
      → Settled (List (List N)) × W
      → Settled (List (RelevantMemory N J)) × W
  unfolding memories
  found collection limit event_type (rejected e, w) = (resolved [], w)
  found collection limit event_type (resolved vectors, w) = or_nothing (
      bind (p.search_points collection (first vectors) limit (event_filter event_type) w)
        λ points t. (memories points, t))

  recalled_memories :
      String → String → MemoryQueryOptions → Bool × W → Settled (List (RelevantMemory N J)) × W
  unfolding found
  recalled_memories brand_id topic opts (false, w) = (resolved [], w)
  recalled_memories brand_id topic opts (true, w) =
      found (memory_collection brand_id) (elim opts.limit [ none ↦ 5 | some n ↦ n ]) opts.event_type
        (p.embed (topic ∷ []) w)

  unfoldable pub query_relevant :
      String → String → MemoryQueryOptions → W → Settled (List (RelevantMemory N J)) × W
  unfolding recalled_memories collection_exists
  query_relevant brand_id topic opts w =
      recalled_memories brand_id topic opts (collection_exists (memory_collection brand_id) w)

  -- `{ ...base, ...fields }`.
  unfoldable pub spread : Fields J → Fields J → Fields J
  spread base [] = base
  spread base ((k, x) ∷ fields) = spread (insert k x base) fields

  unfoldable pub point_payload : String → String → MemoryEventEntity J → Fields J
  unfolding spread
  point_payload event_id brand_id event =
      spread
        (("eventId", p.json_string event_id)
          ∷ ("brandId", p.json_string brand_id)
          ∷ ("agent", p.json_string (role_name event.agent))
          ∷ ("eventType", p.json_string event.event_type)
          ∷ ("content", p.json_string event.content)
          ∷ ("createdAt", p.json_string (p.iso event.created_at))
          ∷ [])
        event.payload

  marked : String → Unit {0} → MemoryState J W → Settled (Unit {0}) × MemoryState J W
  unfolding mark_indexed
  marked event_id _ s =
      bind (lift p.reach s)
        λ _ t. (resolved tt, record t { events = mark_indexed event_id t.events })

  stored :
      String
      → String
      → Option (List N)
      → Option (MemoryEventEntity J)
      → MemoryState J W
      → Settled (Unit {0}) × MemoryState J W
  unfolding point_payload marked
  stored event_id brand_id vector none s = (resolved tt, s)
  stored event_id brand_id vector (some event) s =
      bind
        (lift
          (λ w.
            p.upsert_point (memory_collection brand_id) event_id vector
              (point_payload event_id brand_id event) w)
          s)
        (marked event_id)

  embedded :
      String
      → String
      → Settled (List (List N)) × MemoryState J W
      → Settled (Unit {0}) × MemoryState J W
  unfolding stored find_event
  embedded event_id brand_id (rejected e, s) = (resolved tt, s)
  embedded event_id brand_id (resolved vectors, s) =
      bind (lift p.reach s)
        λ _ t. stored event_id brand_id (first vectors) (find_event event_id t.events) t

  unfoldable pub embed_and_index :
      String → String → String → MemoryState J W → Settled (Unit {0}) × MemoryState J W
  unfolding embedded ensure_collection
  embed_and_index event_id content brand_id s =
      bind (lift (ensure_collection (memory_collection brand_id)) s)
        λ _ t. embedded event_id brand_id (lift (λ w. p.embed (content ∷ []) w) t)
