-- ===== src/Provider/Client/Ends.antt =====
-- crates/provider-openai/src/client.rs: the loop of `complete` ends, and how.
use rof_harness.Base.{
  ℕ, zero, suc, ◌+◌, ◌-◌, ◌≡◌, ◌≤◌, ◌<◌, ◌⊎◌, refl, ap, ◌∙◌, Bool-cases, arith, subst, String, true,
  Option, none, some, List, [], ◌∷◌, inl, inr, leb, length,
}
use rof_harness.Host.{Host}
use rof_harness.Provider.{Response, Usage}
use rof_harness.Provider.Errors.{LlmError, metered}
use rof_harness.Provider.Request.{Request}
use rof_harness.Provider.Retry.{
  WireKnobs, apply_ladder, apply_ladder_lem, from_req, merge_usage, rungs, rungs-le,
}
use rof_harness.Provider.Client.{
  Attempts, OnceFail, Transport, attempt_cap, attempts_loop, complete, first_attempt, give_up,
  next_attempt, note_fail, once, wait_before, after_once, after_wait, go_on,
}

some_inj {ℓ} : {A : Type ℓ} {x y : A} → some x ≡ some y → x ≡ y
some_inj h = cc

attempt_cap-le : (msg : String) → attempt_cap msg ≤ 7
attempt_cap-le msg = ground arith

module _ {H : Host} where
  -- What the failed attempts have cost, the latest first.
  abbrev pub cost_of_all : List (OnceFail H) → Option (Usage H)
  cost_of_all [] = none
  cost_of_all (f ∷ fs) = merge_usage (cost_of_all fs) f.usage

  abbrev pub AllRetryable : List (OnceFail H) → Type 0
  AllRetryable [] = Unit {0}
  AllRetryable (f ∷ fs) = (f.is_retryable ≡ true) × AllRetryable fs

module _ {H : Host} {S : Type 0} (T : Transport H S) (model : String) (req : Request H) where
  -- The retries that are left: the rungs of the ladder, and seven for other failures.
  abbrev left : Attempts T model → ℕ
  left a = rungs a.knobs + (7 - a.attempt)

  -- Each failure is what some attempt at this request came back with.
  abbrev pub AreAttempts : List (OnceFail H) → Type 0
  AreAttempts [] = Unit {0}
  AreAttempts (f ∷ fs) =
      ((k : WireKnobs H) × (s : S) × ((once T model req k s).1 ≡ inl f)) × AreAttempts fs

  -- A response is that of an attempt behind retryable failures, counts it and them, and carries
  -- what they have cost. A failure wraps the error of the last attempt with what all attempts have
  -- cost, says whether the last one was retryable, and the ones before it were.
  abbrev pub IsEnd : ℕ → S × (LlmError H ⊎ Response H) → Type 0
  IsEnd bound (s, inr r) =
      (fs : List (OnceFail H)) × (k : WireKnobs H) × (s0 : S) × (r0 : Response H) × ((once T model
          req k s0).1
        ≡ inr r0)
      × (r ≡ record r0 {
        latency_ms = r.latency_ms;
        attempts = length fs + 1;
        retry_usage = cost_of_all fs;
      })
      × AreAttempts fs
      × AllRetryable fs
      × (length fs + 1 ≤ bound)
  IsEnd bound (s, inl e) =
      (f : OnceFail H) × (fs : List (OnceFail H)) × (e
        ≡ metered f.error (cost_of_all (f ∷ fs)) f.is_retryable)
      × AreAttempts (f ∷ fs)
      × AllRetryable fs
      × (length fs + 1 ≤ bound)

  abbrev EndsWithin : ℕ → Option (S × (LlmError H ⊎ Response H)) → Type 0
  EndsWithin bound out =
      (answer : S × (LlmError H ⊎ Response H)) × (out ≡ some answer) × IsEnd bound answer

  -- What a retry keeps of the variables, and that it uses up one that was left.
  abbrev Retried : Attempts T model → Attempts T model → Type 0
  Retried a b =
      (left b < left a)
      × (b.attempt ≡ a.attempt + 1)
      × (b.usage_acc ≡ a.usage_acc)
      × (b.last_err ≡ a.last_err)
      × (b.last_retryable ≡ a.last_retryable)

  next_attempt-Retried :
      (f : OnceFail H) (a a' : Attempts T model)
      → next_attempt T model f a ≡ some a'
      → Retried a a' × (f.is_retryable ≡ true)
  unfolding next_attempt
  next_attempt-Retried f a a' h =
      let k = apply_ladder a.knobs f.content_chars f.reasoning_chars in
      elim (Bool-cases f.is_retryable) [
        | inr e ↦ cc
        | inl e ↦ elim (Bool-cases f.truncated) [
          | inl t ↦ elim (Bool-cases k.1) [
            | inl p ↦
                let used = ((apply_ladder_lem a.knobs f.content_chars f.reasoning_chars).0 p).0 in
                (
                  subst (Retried a) (some_inj (rw (e, t, p) at h))
                      (omega (arith, used), refl, refl, refl, refl),
                  e,
                )
            | inr p ↦ cc
          ]
          | inr t ↦ elim (Bool-cases (leb (attempt_cap f.msg) a.attempt)) [
            | inl p ↦ cc
            | inr p ↦
                let below = attempt_cap-le f.msg in
                (
                  subst (Retried a) (some_inj (rw (e, t, p) at h))
                      (ground arith, refl, refl, refl, refl),
                  e,
                )
          ]
        ]
      ]

  abbrev IsLatest : Attempts T model → List (OnceFail H) → Type 0
  IsLatest a [] = Unit {0}
  IsLatest a (f ∷ fs) = (a.last_err ≡ f.error) × (a.last_retryable ≡ f.is_retryable)

  -- The variables of the loop behind the failed attempts.
  record Past (a : Attempts T model) (fs : List (OnceFail H)) : Type 0 where
    counted : a.attempt ≡ length fs
    cost : a.usage_acc ≡ cost_of_all fs
    latest : IsLatest a fs
    attempts : AreAttempts fs
    retryable : AllRetryable fs

  give_up-EndsWithin :
      (a : Attempts T model) (s : S) (f : OnceFail H) (fs : List (OnceFail H)) (bound : ℕ)
      → a.usage_acc ≡ cost_of_all (f ∷ fs)
      → IsLatest a (f ∷ fs)
      → AreAttempts (f ∷ fs)
      → AllRetryable fs
      → length fs + 1 ≤ bound
      → EndsWithin bound (some (give_up T model a s))
  unfolding give_up
  give_up-EndsWithin a s f fs bound c (e, r) at all l =
      (_, refl, (f, fs, rw (e, r, c) refl, at, all, l))

  wider :
      (m n : ℕ) (out : Option (S × (LlmError H ⊎ Response H)))
      → m ≤ n
      → EndsWithin m out
      → EndsWithin n out
  wider m n out l ((s, inr r), e, (fs, k, s0, r0, o, q, at, all, b)) =
      ((s, inr r), e, (fs, k, s0, r0, o, q, at, all, omega (arith, l, b)))
  wider m n out l ((s, inl x), e, (f, fs, q, at, all, b)) =
      ((s, inl x), e, (f, fs, q, at, all, omega (arith, l, b)))

  -- What the loop does behind a retry, with fewer than `n` left.
  abbrev Rest : ℕ → (Attempts T model → S → Option (S × (LlmError H ⊎ Response H))) → Type 0
  Rest n more =
      (b : Attempts T model) (gs : List (OnceFail H)) (s : S)
      → left b < n
      → Past b gs
      → EndsWithin (b.attempt + left b + 1) (more b s)

  go_on-EndsWithin :
      (more : Attempts T model → S → Option (S × (LlmError H ⊎ Response H))) (f : OnceFail H)
      (fs : List (OnceFail H)) (a : Attempts T model) (s : S) (next : Option (Attempts T model))
      → Rest (left a) more
      → Past a fs
      → ((k : WireKnobs H) × (s : S) × ((once T model req k s).1 ≡ inl f))
      → next_attempt T model f (note_fail T model f a) ≡ next
      → EndsWithin (a.attempt + left a + 1) (go_on T model more (note_fail T model f a) s next)
  unfolding note_fail
  go_on-EndsWithin more f fs a s none rest past o e =
      give_up-EndsWithin (note_fail T model f a) s f fs _
        (ap (λ u. merge_usage u f.usage) past.cost) (refl, refl) (o, past.attempts) past.retryable
        (omega (arith, past.counted))
  go_on-EndsWithin more f fs a s (some b) rest past o e =
      let ((l, n, c, x, y), again) = next_attempt-Retried f (note_fail T model f a) b e in
      let behind : Past b (f ∷ fs) = record {
        counted = omega (arith, n, past.counted);
        cost = c ∙ ap (λ u. merge_usage u f.usage) past.cost;
        latest = (x, y);
        attempts = (o, past.attempts);
        retryable = (again, past.retryable);
      } in
      wider (b.attempt + left b + 1) (a.attempt + left a + 1) (more b s) (omega (arith, l, n))
        (rest b (f ∷ fs) s l behind)

  after_once-EndsWithin :
      (more : Attempts T model → S → Option (S × (LlmError H ⊎ Response H)))
      (fs : List (OnceFail H)) (a : Attempts T model) (s0 : S)
      (answer : S × (OnceFail H ⊎ Response H))
      → once T model req a.knobs s0 ≡ answer
      → Rest (left a) more
      → Past a fs
      → EndsWithin (a.attempt + left a + 1) (after_once T model more a answer)
  after_once-EndsWithin more fs a s0 (s, inr r) o rest past = (
    _,
    refl,
    (
      fs,
      a.knobs,
      s0,
      r,
      ap (λ p. p.1) o,
      rw (past.counted, past.cost) refl,
      past.attempts,
      past.retryable,
      omega (arith, past.counted),
    ),
  )
  after_once-EndsWithin more fs a s0 (s, inl f) o rest past =
      go_on-EndsWithin more f fs a s _ rest past (a.knobs, s0, ap (λ p. p.1) o) refl

  first_wait : (a : Attempts T model) (s : S) → a.attempt ≡ 0 → wait_before T model a s ≡ some s
  unfolding wait_before
  first_wait a s h = rw h refl

  after_wait-EndsWithin :
      (more : Attempts T model → S → Option (S × (LlmError H ⊎ Response H)))
      (fs : List (OnceFail H)) (a : Attempts T model) (s : S) (waited : Option S)
      → wait_before T model a s ≡ waited
      → Rest (left a) more
      → Past a fs
      → EndsWithin (a.attempt + left a + 1) (after_wait T model more req a s waited)
  after_wait-EndsWithin more [] a s none e rest past = let w = first_wait a s past.counted in cc
  after_wait-EndsWithin more (f ∷ fs) a s none e rest past =
      give_up-EndsWithin a s f fs _ past.cost past.latest past.attempts past.retryable.1
        (omega (arith, past.counted))
  after_wait-EndsWithin more fs a s (some s') e rest past =
      after_once-EndsWithin more fs a s' (once T model req a.knobs s') refl rest past

  attempts_loop-EndsWithin :
      (fuel : ℕ) (fs : List (OnceFail H)) (a : Attempts T model) (s : S)
      → left a < fuel
      → Past a fs
      → EndsWithin (a.attempt + left a + 1) (attempts_loop T model fuel req a s)
  unfolding attempts_loop
  attempts_loop-EndsWithin zero fs a s l past = absurd (omega (arith, l))
  attempts_loop-EndsWithin (suc fuel) fs a s l past =
      after_wait-EndsWithin (attempts_loop T model fuel req) fs a s (wait_before T model a s) refl
        (λ b gs s' m later. attempts_loop-EndsWithin fuel gs b s' (omega (arith, l, m)) later) past

  -- With fuel for the rungs of the request and eight more, which is 24 at most, `complete` gives an
  -- answer, whatever the endpoint does. A response is the answer of an attempt behind failures that
  -- were all retryable: it counts the attempts, within that bound, and carries what the failed ones
  -- have cost. A failure wraps the error of the last attempt, what all attempts have cost, and
  -- whether the last one was retryable.
  pub complete-IsEnd :
      (s : S) (fuel : ℕ)
      → rungs (from_req req T.thinking_off) + 7 < fuel
      → (answer : S × (LlmError H ⊎ Response H)) × (complete T model fuel req s ≡ some answer)
        × IsEnd (rungs (from_req req T.thinking_off) + 8) answer
        × (rungs (from_req req T.thinking_off) + 8 ≤ 24)
  unfolding complete first_attempt
  complete-IsEnd s fuel l =
      let first = first_attempt T model req in
      let (answer, e, end) =
        wider _ (rungs (from_req req T.thinking_off) + 8) (attempts_loop T model fuel req first s)
          (omega arith)
          (attempts_loop-EndsWithin fuel [] first s (omega (arith, l))
            (record { counted = refl; cost = refl; latest = tt; attempts = tt; retryable = tt })) in
      (answer, e, end, omega (arith, rungs-le (from_req req T.thinking_off)))
