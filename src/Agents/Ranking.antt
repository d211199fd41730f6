-- ===== src/Agents/Ranking.antt =====
-- src/agents/agents/researcher.agent.ts: how the results of the searches become the context of the
-- draft. `Array.prototype.sort` is stable; it is modelled by the insertion of each result before
-- the first one that does not score higher.
pub mod Laws
pub mod Complete
pub mod Names
use ai_content_platform.Prelude.{
  String, Bool, true, false, not, ◌&&◌, List, [], ◌∷◌, ◌++◌, if◌then◌else◌, take, map, str_mem,
}
use ai_content_platform.Domain.{SearchResult}

-- `above` is `score > 0.7`, `less` the comparison of scores.
pub record Scores (N : Type 0) : Type 0 where
  pub above : N → Bool
  pub less : N → N → Bool

module _ {N : Type 0} (o : Scores N) where
  abbrev pub is_new : List String → SearchResult N → Bool
  is_new seen r = not (str_mem r.chunk_id seen) && o.above r.score

  -- The two loops; `seen` is the set of the ids so far.
  unfoldable pub dedupe : List String → List (SearchResult N) → List (SearchResult N)
  dedupe seen [] = []
  dedupe seen (r ∷ rs) =
      let rest = dedupe (if is_new seen r then r.chunk_id ∷ seen else seen) rs in
      if is_new seen r then r ∷ rest else rest

  unfoldable pub place : SearchResult N → List (SearchResult N) → List (SearchResult N)
  place r [] = r ∷ []
  place r (x ∷ xs) =
      let rest = place r xs in if o.less r.score x.score then x ∷ rest else r ∷ x ∷ xs

  -- `sort((a, b) => b.score - a.score)`.
  unfoldable pub sort : List (SearchResult N) → List (SearchResult N)
  unfolding place
  sort [] = []
  sort (r ∷ rs) = place r (sort rs)

-- `[...new Set(names)]`: each name at its first place.
unfoldable pub unique : List String → List String → List String
unique seen [] = []
unique seen (x ∷ xs) =
    let rest = unique (if str_mem x seen then seen else x ∷ seen) xs in
    if str_mem x seen then rest else x ∷ rest

unfoldable pub flatten : {A : Type 0} → List (List A) → List A
flatten [] = []
flatten (l ∷ ls) = l ++ flatten ls
