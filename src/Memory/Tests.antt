-- ===== src/Memory/Tests.antt =====
-- The memory over a store that is the list of the ids of its points.
use ai_content_platform.Prelude.{
  ℕ, String, ◌≡◌, refl, true, false, none, List, [], ◌∷◌, arith, str_mem, eq_refl,
}
use ai_content_platform.Domain.{qa}
use ai_content_platform.Exceptions.{error, resolved, rejected}
use ai_content_platform.Memory.{
  MemoryService, MemoryState, MemoryEventEntity, embed_and_index, collection_exists,
  ensure_collection, find_event, mark_indexed,
}
use ai_content_platform.Memory.Laws.{IsStore, Backed, embed_and_index-Backed}

-- The search fails; all else succeeds.
abbrev service : MemoryService ℕ String (List String)
service = record {
  get_collections = λ w. (resolved ("brand_b_memory" ∷ []), w);
  create_collection = λ name n w. (resolved tt, w);
  create_payload_index = λ name field w. (resolved tt, w);
  search_points = λ name vector limit filter w. (rejected (error "down"), w);
  upsert_point = λ name id vector payload w. (resolved tt, id ∷ w);
  embed = λ texts w. (resolved ((1 ∷ []) ∷ []), w);
  reach = λ w. (resolved tt, w);
  new_id = λ w. "new";
  now = λ w. 0;
  json_string = λ s. s;
  iso = λ n. "date";
  to_date = λ o. o;
}

abbrev event : MemoryEventEntity String
event = record {
  id = "e";
  brand_id = "b";
  job_id = none;
  agent = qa;
  event_type = "generation_complete";
  content = "tea";
  payload = [];
  qdrant_indexed = false;
  prompt_version = "1.0.0";
  created_at = 0;
}

abbrev start : MemoryState String (List String)
start = record { events = event ∷ []; world = [] }

abbrev Held : String → List String → Type 0
Held id w = str_mem id w ≡ true

service-IsStore : IsStore service Held
service-IsStore = record {
  keeps_list = λ id w h. h;
  keeps_create = λ id name n w h. h;
  keeps_index = λ id name field w h. h;
  keeps_embed = λ id texts w h. h;
  keeps_reach = λ id w h. h;
  keeps_upsert = λ id name point vector payload w h. kept id point w h;
  upserts = λ name point vector payload w h. put point w;
}
  where
    kept : (id point : String) (w : List String) → Held id w → Held id (point ∷ w)
    kept id point w h = ground arith

    put : (point : String) (w : List String) → Held point (point ∷ w)
    put point w = ground (arith, eq_refl point)

event_indexed :
    (embed_and_index service "e" "tea" "b" start).1.events
    ≡ record event { qdrant_indexed = true } ∷ []
unfolding embed_and_index ensure_collection collection_exists find_event mark_indexed
event_indexed = refl

embed_and_index-Backed_example : Backed Held (embed_and_index service "e" "tea" "b" start).1
embed_and_index-Backed_example =
    embed_and_index-Backed service Held service-IsStore "e" "tea" "b" start
      ((λ h. false_indexed h), tt)
  where
    false_indexed : false ≡ true → Held "e" []
    false_indexed h = ground arith
