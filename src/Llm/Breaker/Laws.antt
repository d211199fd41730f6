-- ===== src/Llm/Breaker/Laws.antt =====
-- The breaker as a state machine: its invariant, when it opens, blocks and lets a request through.
use ai_content_platform.Prelude.{
  ℕ, ◌+◌, ◌≤◌, ◌<◌, ◌≡◌, refl, ap, ◌∙◌, ◌⊎◌, true, false, List, [], ◌∷◌, ◌++◌, ◌↔◌, length, arith,
  leb, if◌then◌else◌,
}
use ai_content_platform.Llm.Breaker.{
  closed, open_circuit, half_open, ProviderCircuitBreaker, new_breaker, is_open, record_success,
  record_failure,
}

pub data Event : Type 0 where
  test success failure : Event

-- A call of the breaker at a time.
unfoldable pub step : ProviderCircuitBreaker → ℕ × Event → ProviderCircuitBreaker
step b (now, test) = (is_open now b).1
step b (now, success) = record_success b
step b (now, failure) = record_failure now b

unfoldable pub run : ProviderCircuitBreaker → List (ℕ × Event) → ProviderCircuitBreaker
run b [] = b
run b (e ∷ es) = run (step b e) es

-- The circuit is closed exactly while fewer failures than the threshold are counted.
pub record IsConsistent (b : ProviderCircuitBreaker) : Type 0 where
  pub closed_iff : (b.state ≡ closed) ↔ (b.failure_count < b.failure_threshold)

pub new_breaker-IsConsistent : (n c : ℕ) → 0 < n → IsConsistent (new_breaker n c)
unfolding new_breaker
new_breaker-IsConsistent n c h = ground arith

pub step-IsConsistent :
    (b : ProviderCircuitBreaker) (e : ℕ × Event)
    → 0 < b.failure_threshold
    → IsConsistent b
    → IsConsistent (step b e)
      × (0 < (step b e).failure_threshold)
      × ((step b e).cooldown_ms ≡ b.cooldown_ms)
unfolding step is_open record_success record_failure
step-IsConsistent b (now, test) pos v = ground arith
step-IsConsistent b (now, success) pos v = ground arith
step-IsConsistent b (now, failure) pos v = ground arith

run-IsConsistent_from :
    (b : ProviderCircuitBreaker) (es : List (ℕ × Event))
    → 0 < b.failure_threshold
    → IsConsistent b
    → IsConsistent (run b es)
unfolding run
run-IsConsistent_from b [] pos v = v
run-IsConsistent_from b (e ∷ es) pos v =
    let (next, still, _) = step-IsConsistent b e pos v in
    run-IsConsistent_from (step b e) es still next

-- After any sequence of tests, successes and failures of a new breaker with a positive threshold,
-- the circuit is closed exactly if fewer failures are counted than the threshold.
pub run-IsConsistent :
    (n c : ℕ) (es : List (ℕ × Event)) → 0 < n → IsConsistent (run (new_breaker n c) es)
unfolding new_breaker
run-IsConsistent n c es h =
    run-IsConsistent_from (new_breaker n c) es h (new_breaker-IsConsistent n c h)

-- `k` failures in a row, at the given times.
abbrev pub failures : List ℕ → List (ℕ × Event)
failures [] = []
failures (t ∷ ts) = (t, failure) ∷ failures ts

-- A failure of a breaker that has counted `n` failures.
failure_step :
    (b : ProviderCircuitBreaker) (t n : ℕ)
    → b.failure_count ≡ n
    → ((step b (t, failure)).failure_count ≡ n + 1)
      × ((step b (t, failure)).failure_threshold ≡ b.failure_threshold)
      × ((step b (t, failure)).state
          ≡ (if leb b.failure_threshold (n + 1) then open_circuit else b.state))
unfolding step record_failure
failure_step b t n e = ground arith

abbrev Counted : ProviderCircuitBreaker → ProviderCircuitBreaker → ℕ → Type 0
Counted b c n =
    (c.failure_count ≡ b.failure_count + n)
    × (c.state ≡ (if leb b.failure_threshold (b.failure_count + n) then open_circuit else b.state))

-- Failures in a row, with no success between them, are all counted. From the moment that the count
-- reaches the threshold the circuit is open; before that, its state is the one at the start.
pub run-failures :
    (b : ProviderCircuitBreaker) (t : ℕ) (ts : List ℕ)
    → Counted b (run b (failures (t ∷ ts))) (length (t ∷ ts))
unfolding run
run-failures b t [] = ground (arith, failure_step b t b.failure_count refl)
run-failures b t (u ∷ ts) =
    ground (arith, failure_step b t b.failure_count refl, run-failures (step b (t, failure)) u ts)

-- While the cooldown of an open circuit lasts, every test says "open" and changes nothing.
abbrev pub Blocks : ProviderCircuitBreaker → ℕ → Type 0
Blocks b now = (b.state ≡ open_circuit) × (now < b.last_failure_time + b.cooldown_ms)

-- A test lets no request through exactly if the circuit is open and still cooling down. It leaves
-- the circuit half open exactly if that was half open before, or open and cooled down.
pub is_open_iff :
    (b : ProviderCircuitBreaker) (now : ℕ)
    → (((is_open now b).0 ≡ true) ↔ Blocks b now)
      × (((is_open now b).1.state ≡ half_open) ↔ (
          (b.state ≡ half_open)
          ⊎ ((b.state ≡ open_circuit) × (b.last_failure_time + b.cooldown_ms ≤ now))))
unfolding is_open
is_open_iff b now = ground arith

pub is_open-blocked :
    (b : ProviderCircuitBreaker) (now : ℕ) → Blocks b now → is_open now b ≡ (true, b)
unfolding is_open
is_open-blocked b now h = ground arith

-- In a half-open circuit one outcome decides: a success closes it and clears the count, a failure
-- opens it again for a whole cooldown from then on.
pub half_open_decides :
    (b : ProviderCircuitBreaker) (now later : ℕ)
    → IsConsistent b
    → b.state ≡ half_open
    → later < now + b.cooldown_ms
    → (((step b (now, success)).state ≡ closed) × ((step b (now, success)).failure_count ≡ 0))
      × ((step b (now, failure)).state ≡ open_circuit)
      × ((is_open later (step b (now, failure))).0 ≡ true)
unfolding step record_success record_failure is_open
half_open_decides b now later v h p = (ground arith, ground arith, ground arith)

abbrev pub tests : List ℕ → List (ℕ × Event)
tests [] = []
tests (t ∷ ts) = (t, test) ∷ tests ts

half_open_tests :
    (b : ProviderCircuitBreaker) (ts : List ℕ) → b.state ≡ half_open → run b (tests ts) ≡ b
unfolding run step is_open
half_open_tests b [] h = refl
half_open_tests b (t ∷ ts) h = ground (arith, half_open_tests b ts h)

half_open_admits :
    (b : ProviderCircuitBreaker) (now : ℕ) → b.state ≡ half_open → (is_open now b).0 ≡ false
unfolding is_open
half_open_admits b now h = ground arith

run-append :
    (b : ProviderCircuitBreaker) (es fs : List (ℕ × Event)) → run b (es ++ fs) ≡ run (run b es) fs
unfolding run
run-append b [] fs = refl
run-append b (e ∷ es) fs = run-append (step b e) es fs

run_first :
    (b : ProviderCircuitBreaker) (e : ℕ × Event) (es : List (ℕ × Event))
    → run b (e ∷ es) ≡ run (step b e) es
unfolding run
run_first b e es = refl

abbrev pub last_of : ℕ → List ℕ → ℕ
last_of t [] = t
last_of t (u ∷ ts) = last_of u ts

-- The time that a breaker remembers is that of the last failure.
run-last_failure :
    (b : ProviderCircuitBreaker) (t : ℕ) (ts : List ℕ)
    → ((run b (failures (t ∷ ts))).last_failure_time ≡ last_of t ts)
      × ((run b (failures (t ∷ ts))).cooldown_ms ≡ b.cooldown_ms)
unfolding run step record_failure
run-last_failure b t [] = ground arith
run-last_failure b t (u ∷ ts) = ground (arith, run-last_failure (step b (t, failure)) u ts)

-- A new breaker that has counted as many failures as its threshold blocks until the cooldown after
-- the last one is over.
tripped :
    (n c t : ℕ) (ts : List ℕ)
    → length (t ∷ ts) ≡ n
    → ((run (new_breaker n c) (failures (t ∷ ts))).state ≡ open_circuit)
      × ((run (new_breaker n c) (failures (t ∷ ts))).last_failure_time ≡ last_of t ts)
      × ((run (new_breaker n c) (failures (t ∷ ts))).cooldown_ms ≡ c)
unfolding new_breaker
tripped n c t ts e =
    ground (arith, run-failures (new_breaker n c) t ts, run-last_failure (new_breaker n c) t ts)

cooled_step :
    (b : ProviderCircuitBreaker) (now : ℕ)
    → b.state ≡ open_circuit
    → b.last_failure_time + b.cooldown_ms ≤ now
    → ((step b (now, test)).state ≡ half_open) × ((is_open now b).0 ≡ false)
unfolding step is_open
cooled_step b now h p = ground arith

-- When a new breaker has seen as many failures in a row as its threshold, it blocks every request
-- until the cooldown after the last failure is over. The first request from then on is let through,
-- and so is every request that comes before its outcome, however many there are: the half-open
-- state does not admit one alone.
pub cooled_admits_all :
    (n c t : ℕ) (ts : List ℕ) (early now : ℕ) (us : List ℕ) (later : ℕ)
    → length (t ∷ ts) ≡ n
    → early < last_of t ts + c
    → last_of t ts + c ≤ now
    → ((is_open early (run (new_breaker n c) (failures (t ∷ ts)))).0 ≡ true)
      × ((is_open now (run (new_breaker n c) (failures (t ∷ ts)))).0 ≡ false)
      × ((is_open later (run (new_breaker n c) (failures (t ∷ ts) ++ (now, test) ∷ tests us))).0
          ≡ false)
cooled_admits_all n c t ts early now us later e blocked cooled =
    let b = run (new_breaker n c) (failures (t ∷ ts)) in
    let (opened, time, cooldown) = tripped n c t ts e in
    let (half, first) = cooled_step b now opened (omega arith) in
    let stays : run (new_breaker n c) (failures (t ∷ ts) ++ (now, test) ∷ tests us)
        ≡ step b (now, test) =
      run-append (new_breaker n c) (failures (t ∷ ts)) ((now, test) ∷ tests us)
      ∙ run_first b (now, test) (tests us)
      ∙ half_open_tests (step b (now, test)) us half in
    (
      ap (λ x. x.0) (is_open-blocked b early (opened, omega arith)),
      first,
      ap (λ x. (is_open later x).0) stays ∙ half_open_admits (step b (now, test)) later half,
    )
