-- ===== src/Rag/Service/Calls.antt =====
-- Chains of two calls.
use ai_content_platform.Prelude.{◌≡◌, refl}
use ai_content_platform.Exceptions.{Settled, resolved, rejected}
use ai_content_platform.Rag.Service.{bind}

-- What holds of every result of the second call holds of a result of both.
pub after :
    {S A B X : Type 0} (given : Settled A × S) (f : A → S → Settled B × S) (b : B)
    → (bind given f).0 ≡ resolved b
    → ((a : A) (s : S) → given ≡ (resolved a, s) → (f a s).0 ≡ resolved b → X)
    → X
after (resolved a, s) f b h k = k a s refl h
after (rejected e, s) f b h k = cc

-- The same of the state that both leave, from what holds after the first.
pub after-state :
    {S A B : Type 0} (P Q : S → Type 0) (given : Settled A × S) (f : A → S → Settled B × S) (b : B)
    → (bind given f).0 ≡ resolved b
    → Q given.1
    → ((a : A) (s : S) → Q s → (f a s).0 ≡ resolved b → P (f a s).1)
    → P (bind given f).1
after-state P Q (resolved a, s) f b h q k = k a s q h
after-state P Q (rejected e, s) f b h q k = cc
