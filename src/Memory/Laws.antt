-- ===== src/Memory/Laws.antt =====
-- What the memory service promises its callers.
use ai_content_platform.Prelude.{
  ℕ, String, ◌≡◌, refl, sym, ap, subst, Bool, true, false, Option, none, some, List, [], ◌∷◌, ◌==◌,
  arith, All, map, keep, Bool-cases, inl, inr, eq_iff,
}
use ai_content_platform.Exceptions.{Settled, resolved, rejected}
use ai_content_platform.Rag.Service.{bind, first}
use ai_content_platform.Memory.{
  Fields, MemoryEventEntity, MemoryService, MemoryState, MemoryQueryOptions, RecordMemoryParams,
  RelevantMemory, find_event, mark_indexed, new_event, lift, saved, record_event, collection_exists,
  listed, created, ensure_collection, found, recalled_memories, query_relevant, marked, stored,
  embedded, embed_and_index, memory_collection, point_payload, or_nothing, embedding_dimension,
}

module _ {N J W : Type 0} (p : MemoryService N J W) where
  or_nothing-resolves :
      (given : Settled (List (RelevantMemory N J)) × W)
      → (ms : List (RelevantMemory N J)) × ((or_nothing p given).0 ≡ resolved ms)
  or_nothing-resolves (resolved ms, w) = (ms, refl)
  or_nothing-resolves (rejected e, w) = ([], refl)

  found-resolves :
      (collection : String) (limit : ℕ) (event_type : Option String)
      (given : Settled (List (List N)) × W)
      → (ms : List (RelevantMemory N J)) × ((found p collection limit event_type given).0
          ≡ resolved ms)
  unfolding found
  found-resolves collection limit event_type (rejected e, w) = ([], refl)
  found-resolves collection limit event_type (resolved vectors, w) = or_nothing-resolves _

  recalled_memories-resolves :
      (brand_id topic : String) (opts : MemoryQueryOptions) (known : Bool × W)
      → (ms : List (RelevantMemory N J)) × ((recalled_memories p brand_id topic opts known).0
          ≡ resolved ms)
  unfolding recalled_memories
  recalled_memories-resolves brand_id topic opts (false, w) = ([], refl)
  recalled_memories-resolves brand_id topic opts (true, w) =
      found-resolves _ _ opts.event_type (p.embed (topic ∷ []) w)

  -- Whatever the vector store and the embeddings answer, a recall gives a list and throws nothing.
  pub query_relevant-resolves :
      (brand_id topic : String) (opts : MemoryQueryOptions) (w : W)
      → (ms : List (RelevantMemory N J)) × ((query_relevant p brand_id topic opts w).0
          ≡ resolved ms)
  unfolding query_relevant
  query_relevant-resolves brand_id topic opts w = recalled_memories-resolves brand_id topic opts _

  -- `Held id w`: the store of the world holds the point of that id. Nothing takes a point out of
  -- it, and an upsert that succeeds puts its point in.
  pub record IsStore {ℓ} (Held : String → W → Type ℓ) : Type ℓ where
    pub keeps_list : (id : String) (w : W) → Held id w → Held id (p.get_collections w).1
    pub keeps_create :
        (id name : String) (n : ℕ) (w : W) → Held id w → Held id (p.create_collection name n w).1
    pub keeps_index :
        (id name field : String) (w : W)
        → Held id w
        → Held id (p.create_payload_index name field w).1
    pub keeps_embed :
        (id : String) (texts : List String) (w : W) → Held id w → Held id (p.embed texts w).1
    pub keeps_reach : (id : String) (w : W) → Held id w → Held id (p.reach w).1
    pub keeps_upsert :
        (id name point : String) (vector : Option (List N)) (payload : Fields J) (w : W)
        → Held id w
        → Held id (p.upsert_point name point vector payload w).1
    pub upserts :
        (name point : String) (vector : Option (List N)) (payload : Fields J) (w : W)
        → (p.upsert_point name point vector payload w).0 ≡ resolved tt
        → Held point (p.upsert_point name point vector payload w).1

module _ {ℓ} {J W : Type 0} (Held : String → W → Type ℓ) where
  -- A row that says it is indexed has its point in the store.
  abbrev pub Backed : MemoryState J W → Type ℓ
  Backed s = All (λ e. e.qdrant_indexed ≡ true → Held e.id s.world) s.events

  Backed-world :
      (events : List (MemoryEventEntity J)) (w u : W)
      → ((id : String) → Held id w → Held id u)
      → Backed (record { events = events; world = w })
      → Backed (record { events = events; world = u })
  Backed-world [] w u keep h = tt
  Backed-world (e ∷ es) w u keep (b, h) = (λ x. keep e.id (b x), Backed-world es w u keep h)

  Backed-mark :
      (id : String) (events : List (MemoryEventEntity J)) (w : W)
      → Held id w
      → Backed (record { events = events; world = w })
      → Backed (record { events = mark_indexed id events; world = w })
  unfolding mark_indexed
  Backed-mark id [] w held h = tt
  Backed-mark id (e ∷ es) w held (b, h) = elim (Bool-cases (e.id == id)) [
    | inl same ↦ rw same (
      λ _. subst (λ x. Held x w) (sym ((eq_iff e.id id).0 same)) held,
      Backed-mark id es w held h,
    )
    | inr other ↦ rw other (b, Backed-mark id es w held h)
  ]

pub bind-keeps {ℓ} :
    {S A B : Type 0} (Q : S → Type ℓ) (given : Settled A × S) (k : A → S → Settled B × S)
    → Q given.1
    → ((a : A) (s : S) → given ≡ (resolved a, s) → Q s → Q (k a s).1)
    → Q (bind given k).1
bind-keeps Q (resolved a, s) k h next = next a s refl h
bind-keeps Q (rejected e, s) k h next = h

module _ {ℓ} {N J W : Type 0} (p : MemoryService N J W) (Held : String → W → Type ℓ)
    (f : IsStore p Held) where
  -- A new row, saved or not, leaves every row that says it is indexed with its point in the store.
  pub record_event-Backed :
      (params : RecordMemoryParams J) (s : MemoryState J W)
      → Backed Held s
      → Backed Held (record_event p params s).1
  unfolding record_event saved new_event
  record_event-Backed params s h =
      bind-keeps (Backed Held) (lift p p.reach s) (saved p params)
        (Backed-world Held s.events s.world _ (λ id. f.keeps_reach id s.world) h)
        λ a t _ b. (λ x. elim (never x) [ ], b)
    where
      never : false ≡ true → ⊥
      never x = ground arith

  listed-world :
      (name : String) (given : Settled (List String) × W) → (listed p name given).1 ≡ given.1
  unfolding listed
  listed-world name (resolved names, w) = refl
  listed-world name (rejected e, w) = refl

  created-keeps :
      (id name : String) (known : Bool × W) → Held id known.1 → Held id (created p name known).1
  unfolding created
  created-keeps id name (true, w) h = h
  created-keeps id name (false, w) h =
      bind-keeps (Held id) (p.create_collection name embedding_dimension w) _
        (f.keeps_create id name _ w h)
        λ a t _ b.
          bind-keeps (Held id) (p.create_payload_index name "brandId" t) _
            (f.keeps_index id name _ t b) λ c u _ d. f.keeps_index id name _ u d

  ensure_collection-keeps :
      (id name : String) (w : W) → Held id w → Held id (ensure_collection p name w).1
  unfolding ensure_collection collection_exists
  ensure_collection-keeps id name w h =
      created-keeps id name (collection_exists p name w)
        (subst (Held id) (sym (listed-world name (p.get_collections w))) (f.keeps_list id w h))

  marked-Backed :
      (id : String) (s : MemoryState J W)
      → Held id s.world
      → Backed Held s
      → Backed Held (marked p id tt s).1
  unfolding marked
  marked-Backed id s held h =
      let both =
        bind-keeps (λ (t : MemoryState J W). Held id t.world × Backed Held t) (lift p p.reach s)
          (λ _ t. (resolved tt, record t { events = mark_indexed id t.events }))
          (
            f.keeps_reach id s.world held,
            Backed-world Held s.events s.world _ (λ i. f.keeps_reach i s.world) h,
          )
          (λ a t _ b. (b.0, Backed-mark Held id t.events t.world b.0 b.1)) in
      both.1

  stored-Backed :
      (id brand_id : String) (vector : Option (List N)) (event : Option (MemoryEventEntity J))
      (s : MemoryState J W)
      → Backed Held s
      → Backed Held (stored p id brand_id vector event s).1
  unfolding stored
  stored-Backed id brand_id vector none s h = h
  stored-Backed id brand_id vector (some event) s h =
      bind-keeps (Backed Held)
        (lift p
          (p.upsert_point (memory_collection brand_id) id vector
            (point_payload p id brand_id event))
          s)
        (marked p id)
        (Backed-world Held s.events s.world _ (λ i. f.keeps_upsert i _ id vector _ s.world) h)
        λ a t e b.
          marked-Backed id t
            (subst (Held id) (ap (λ x. x.1.world) e)
              (f.upserts _ id vector _ s.world (ap (λ x. x.0) e)))
            b

  embedded-Backed :
      (id brand_id : String) (given : Settled (List (List N)) × MemoryState J W)
      → Backed Held given.1
      → Backed Held (embedded p id brand_id given).1
  unfolding embedded
  embedded-Backed id brand_id (rejected e, s) h = h
  embedded-Backed id brand_id (resolved vectors, s) h =
      bind-keeps (Backed Held) (lift p p.reach s) _
        (Backed-world Held s.events s.world _ (λ i. f.keeps_reach i s.world) h)
        λ a t _ b. stored-Backed id brand_id (first vectors) (find_event id t.events) t b

  -- However far the indexing of an event gets, every row that says it is indexed has its point in
  -- the vector store.
  pub embed_and_index-Backed :
      (id content brand_id : String) (s : MemoryState J W)
      → Backed Held s
      → Backed Held (embed_and_index p id content brand_id s).1
  unfolding embed_and_index
  embed_and_index-Backed id content brand_id s h =
      bind-keeps (Backed Held) (lift p (ensure_collection p (memory_collection brand_id)) s) _
        (Backed-world Held s.events s.world _ (λ i. ensure_collection-keeps i _ s.world) h)
        λ a t _ b.
          embedded-Backed id brand_id (lift p (p.embed (content ∷ [])) t)
            (Backed-world Held t.events t.world _ (λ i. f.keeps_embed i _ t.world) b)

-- The rows that say they are indexed.
abbrev pub indexed : {J : Type 0} → List (MemoryEventEntity J) → List String
indexed events = map (λ e. e.id) (keep (λ e. e.qdrant_indexed) events)

-- A new row is not indexed.
pub record_event-indexed :
    {N J W : Type 0} (p : MemoryService N J W) (params : RecordMemoryParams J) (s : MemoryState J W)
    → indexed (record_event p params s).1.events ≡ indexed s.events
unfolding record_event saved new_event
record_event-indexed {J} {W} p params s =
    bind-keeps (λ (t : MemoryState J W). indexed t.events ≡ indexed s.events) (lift p p.reach s)
      (saved p params) refl λ a t _ h. h
