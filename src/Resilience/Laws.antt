-- ===== src/Resilience/Laws.antt =====
-- The degradation record: each reason at most once, never forgotten, and the flag is derived.
use mathlib.Core.List.{append-nil, append_assoc}
use ai_content_platform.Prelude.{
  ◌≡◌, refl, sym, ◌∙◌, inl, inr, true, false, List, [], ◌∷◌, ◌++◌, ◌||◌, arith, Bool-cases,
}
use ai_content_platform.Resilience.{
  DegradationReason, reason_eq, DegradedExecutionContext, has_reason, is_degraded, append,
}

pub reason_eq_sound : (a b : DegradationReason) → reason_eq a b ≡ true → a ≡ b
reason_eq_sound a b h = ground arith

pub reason_eq_self : (a : DegradationReason) → reason_eq a a ≡ true
reason_eq_self a = ground arith

-- No reason is listed twice.
abbrev pub Distinct : List DegradationReason → Type 0
Distinct [] = Unit
Distinct (x ∷ xs) = (has_reason x xs ≡ false) × Distinct xs

-- The second list begins with the first.
abbrev pub Extends : List DegradationReason → List DegradationReason → Type 0
Extends old new = (more : List DegradationReason) × (new ≡ old ++ more)

pub has_reason-append :
    (r x : DegradationReason) (xs : List DegradationReason)
    → has_reason r (xs ++ x ∷ []) ≡ (has_reason r xs || reason_eq x r)
unfolding has_reason
has_reason-append r x [] = ground arith
has_reason-append r x (y ∷ xs) = ground (arith, has_reason-append r x xs)

reason_ne :
    (x r : DegradationReason) (xs : List DegradationReason)
    → has_reason r (x ∷ xs) ≡ false
    → reason_eq r x ≡ false
unfolding has_reason
reason_ne x r xs h = elim (Bool-cases (reason_eq r x)) [
  | inl e ↦ ground (arith, reason_eq_sound r x e, reason_eq_self r)
  | inr e ↦ e
]

Distinct-append :
    (r : DegradationReason) (xs : List DegradationReason)
    → has_reason r xs ≡ false
    → Distinct xs
    → Distinct (xs ++ r ∷ [])
unfolding has_reason
Distinct-append r [] h d = (refl, tt)
Distinct-append r (x ∷ xs) h (fresh_x, d) = (
  ground (arith, has_reason-append x r xs, reason_ne x r xs h),
  Distinct-append r xs (ground arith) d,
)

-- Appending keeps the reasons distinct.
pub append-Distinct :
    (r : DegradationReason) (d : DegradedExecutionContext)
    → Distinct d.reasons
    → Distinct (append r d).reasons
unfolding append
append-Distinct r d h = elim (Bool-cases (has_reason r d.reasons)) [
  | inl e ↦ ground arith
  | inr e ↦ ground (arith, Distinct-append r d.reasons e h)
]

-- Appending never drops or reorders what was recorded.
pub append-Extends :
    (r : DegradationReason) (d : DegradedExecutionContext) → Extends d.reasons (append r d).reasons
unfolding append
append-Extends r d = elim (Bool-cases (has_reason r d.reasons)) [
  | inl e ↦ ([], ground (arith, append-nil d.reasons))
  | inr e ↦ (r ∷ [], ground arith)
]

pub Extends-trans :
    (xs : List DegradationReason) {ys zs : List DegradationReason}
    → Extends xs ys
    → Extends ys zs
    → Extends xs zs
Extends-trans xs (more, e) (later, k) = (more ++ later, k ∙ rw e (append_assoc xs more later))

pub Extends-refl : (xs : List DegradationReason) → Extends xs xs
Extends-refl xs = ([], sym (append-nil xs))

already :
    (r : DegradationReason) (d : DegradedExecutionContext)
    → has_reason r d.reasons ≡ true
    → append r d ≡ d
unfolding append
already r d h = rw h

has_reason_eq :
    (r x : DegradationReason) (xs : List DegradationReason)
    → reason_eq r x ≡ true
    → has_reason x xs ≡ has_reason r xs
has_reason_eq r x xs h = rw (reason_eq_sound r x h)

-- A reason is recorded after an append exactly if it is the one appended or was there before.
pub has_reason-append_iff :
    (r x : DegradationReason) (d : DegradedExecutionContext)
    → has_reason x (append r d).reasons ≡ (reason_eq r x || has_reason x d.reasons)
unfolding append
has_reason-append_iff r x d =
    ground (arith, has_reason_eq r x d.reasons, has_reason-append x r d.reasons)

-- The context is degraded exactly if it holds some reason; after an append it is.
pub is_degraded-append :
    (r : DegradationReason) (d : DegradedExecutionContext) → is_degraded (append r d) ≡ true
unfolding append is_degraded has_reason
is_degraded-append r d = grow d.reasons
  where
    grow : (xs : List DegradationReason) → is_degraded (append r (record { reasons = xs })) ≡ true
    grow [] = refl
    grow (x ∷ xs) = ground arith

-- Appending a reason twice is appending it once.
pub append_idem :
    (r : DegradationReason) (d : DegradedExecutionContext) → append r (append r d) ≡ append r d
append_idem r d = already r (append r d) (rw (has_reason-append_iff r r d, reason_eq_self r))
