-- ===== src/Llm/Router/Chain.antt =====
-- The order in which the router tries the providers: `buildChain`.
use ai_content_platform.Prelude.{
  String, ◌≡◌, refl, false, ◌||◌, some, List, [], ◌∷◌, arith, ◌==◌, eq_iff, str_mem, Bool-cases,
  inl, inr,
}
use ai_content_platform.Llm.Router.{Router, without, build_chain}

-- No name stands twice in the list.
abbrev pub IsDistinct : List String → Type 0
IsDistinct [] = Unit
IsDistinct (k ∷ ks) = (str_mem k ks ≡ false) × IsDistinct ks

mem-without_self : (k : String) (ks : List String) → str_mem k (without k ks) ≡ false
unfolding without
mem-without_self k [] = refl
mem-without_self k (j ∷ ks) = ground (arith, eq_iff j k, mem-without_self k ks)

mem-without :
    (k j : String) (ks : List String) → (k == j) ≡ false → str_mem j (without k ks) ≡ str_mem j ks
unfolding without
mem-without k j [] h = refl
mem-without k j (i ∷ ks) h =
    ground (arith, eq_iff i k, eq_iff i j, eq_iff k j, mem-without k j ks h)

mem_without_absent :
    (k j : String) (ks : List String) → str_mem j ks ≡ false → str_mem j (without k ks) ≡ false
unfolding without
mem_without_absent k j [] h = refl
mem_without_absent k j (i ∷ ks) h = ground (arith, mem_without_absent k j ks)

without-IsDistinct : (k : String) (ks : List String) → IsDistinct ks → IsDistinct (without k ks)
unfolding without
without-IsDistinct k [] d = tt
without-IsDistinct k (j ∷ ks) d =
    ground (arith, mem_without_absent k j ks d.0, without-IsDistinct k ks d.1)

module _ {N J W : Type 0} (r : Router N J W) where
  -- If the configured chain lists no provider twice, then the chain for a preferred provider
  -- consists of exactly that provider and the configured ones, and lists none twice either.
  pub build_chain_lem :
      (preferred k : String)
      → IsDistinct r.fallback_chain
      → (str_mem k (build_chain r (some preferred))
          ≡ (preferred == k || str_mem k r.fallback_chain))
        × IsDistinct (build_chain r (some preferred))
  unfolding build_chain
  build_chain_lem preferred k d = (
    elim (Bool-cases (preferred == k)) [
      | inl e ↦ rw e
      | inr e ↦ rw (e, mem-without preferred k r.fallback_chain e)
    ],
    (mem-without_self preferred r.fallback_chain, without-IsDistinct preferred r.fallback_chain d),
  )
