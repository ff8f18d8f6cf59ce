-- ===== src/Provider/Retry.antt =====
-- crates/provider-openai/src/retry.rs: how a truncated attempt is reshaped and when a failed one is
-- sent again.
use Prim.Native.Nat.{min, zero, suc}
use Prim.Native.Char.{code}
use rof_harness.Base.{
  ℕ, ◌⊎◌, ◌+◌, ◌-◌, ◌*◌, ◌^◌, ◌≤◌, ◌<◌, ◌≡◌, refl, sym, ap, ◌∙◌, String, Bool, true, false, ◌&&◌,
  not, Option, none, some, arith, ltb, leb, ◌==◌, is_some, if◌then◌else◌, one_if, Bool-cases, inl,
  inr,
}
use rof_harness.Base.Chars.{contains_text, find_text, drop_chars, char_count}
use rof_harness.Host.{Host}
use rof_harness.Provider.{Usage, plus}
use rof_harness.Provider.Request.{Request, Thinking, off, auto}
use rof_harness.Budget.Config.{second}

pub record WireKnobs (H : Host) : Type 0 where
  pub max_tokens : ℕ
  pub thinking_off : Option H.Value
  pub thinking_suppressed : Bool

abbrev pub is_off : Thinking → Bool
is_off off = true
is_off auto = false

abbrev pub max_tokens_ceiling : ℕ
max_tokens_ceiling = 32768

abbrev pub usize_max : ℕ
usize_max = 18446744073709551615

-- How many of the powers of two up to 2 ^ j are above m.
unfoldable pub below : ℕ → ℕ → ℕ
below zero m = 0
below (suc j) m = one_if (ltb m (2 ^ suc j)) + below j m

-- How often m doubles before it is at the ceiling, 2 ^ 15; zero never gets there.
abbrev pub doublings : ℕ → ℕ
doublings m = if m == 0 then 0 else below 15 m

pow-double : (j : ℕ) → 2 ^ suc j ≡ 2 ^ j * 2
pow-double j = omega arith

below-le : (j m : ℕ) → below j m ≤ j
unfolding below
below-le zero m = omega arith
below-le (suc j) m = ground (arith, below-le j m)

below-double : (j m : ℕ) → 1 ≤ m → below (suc j) (m * 2) ≡ below j m
unfolding below
below-double zero m h = ground arith
below-double (suc j) m h =
    let ih = below-double j m h in let p = pow-double (suc j) in ground (arith, ih, p)

below_none : (j m : ℕ) → 2 ^ j ≤ m → below j m ≡ 0
unfolding below
below_none zero m h = refl
below_none (suc j) m h =
    let p = pow-double j in
    let rest = below_none j m (omega (arith, h, p)) in ground (arith, rest, h)

below-suc : (j m : ℕ) → m < 2 ^ suc j → below (suc j) m ≡ below j m + 1
unfolding below
below-suc j m h = ground (arith, h)

doublings_pos : (m : ℕ) → 1 ≤ m → doublings m ≡ below 15 m
doublings_pos m h = let e : (m == 0) ≡ false = ground arith in rw e refl

-- A doubling that gives room uses up one, also where the ceiling cuts it short.
doublings-min :
    (m : ℕ)
    → m < min (min (m * 2) usize_max) max_tokens_ceiling
    → doublings m ≡ doublings (min (min (m * 2) usize_max) max_tokens_ceiling) + 1
doublings-min m h = elim (Bool-cases (leb (m * 2) max_tokens_ceiling)) [
  | inl e ↦
      let r : min (min (m * 2) usize_max) max_tokens_ceiling ≡ m * 2 = ground arith in
      rw (r, doublings_pos m (omega arith), doublings_pos (m * 2) (omega arith))
        (below-suc 14 m (ground arith) ∙ sym (ap (λ n. n + 1) (below-double 14 m (omega arith))))
  | inr e ↦
      let r : min (min (m * 2) usize_max) max_tokens_ceiling ≡ 32768 = ground arith in
      rw (r, doublings_pos m (omega arith), doublings_pos 32768 (omega arith))
        (below-suc 14 m (ground arith)
          ∙ ap (λ n. n + 1)
              (below_none 14 m (ground arith) ∙ sym (below_none 15 32768 (omega arith))))
]

module _ {H : Host} where
  -- The argument is `profile.thinking_off`.
  unfoldable pub from_req : Request H → Option H.Value → WireKnobs H
  from_req req thinking_off = record {
    max_tokens = req.max_tokens;
    thinking_off = thinking_off;
    thinking_suppressed = is_off req.thinking && is_some thinking_off;
  }

  unfoldable pub apply_ladder : WireKnobs H → ℕ → ℕ → WireKnobs H × Bool
  apply_ladder k content_chars reasoning_chars =
      let raised = min (min (k.max_tokens * 2) usize_max) max_tokens_ceiling in
      if not k.thinking_suppressed
        && content_chars == 0
        && ltb 0 reasoning_chars
        && is_some k.thinking_off
      then (record k { thinking_suppressed = true }, true)
      else if ltb k.max_tokens raised
      then (record k { max_tokens = raised }, true)
      else (k, false)

  -- The rungs that are left: the knob, where the endpoint has one and it is not yet turned off, and
  -- the doublings up to the ceiling, of which there are 15 at most.
  abbrev pub rungs : WireKnobs H → ℕ
  rungs k = one_if (not k.thinking_suppressed && is_some k.thinking_off) + doublings k.max_tokens

  -- A reshape that applies uses up exactly one rung, never takes room away, ends below the ceiling
  -- where it gives room, and changes one of the two knobs; one that does not apply changes nothing
  -- and has no room left to give, unless the request asked for none.
  pub apply_ladder_lem :
      (k : WireKnobs H) (content reasoning : ℕ)
      → let (k', applied) = apply_ladder k content reasoning in
        (applied ≡ true
          → (rungs k ≡ rungs k' + 1)
            × (k.max_tokens ≤ k'.max_tokens)
            × ((k'.max_tokens ≡ k.max_tokens) ⊎ (k'.max_tokens ≤ max_tokens_ceiling))
            × ((k'.thinking_suppressed ≡ k.thinking_suppressed) ⊎ (k'.max_tokens ≡ k.max_tokens)))
        × (applied ≡ false → (k' ≡ k) × ((k.max_tokens ≡ 0) ⊎ (max_tokens_ceiling ≤ k.max_tokens)))
  unfolding apply_ladder
  apply_ladder_lem k content reasoning =
      (λ h. ground (arith, doublings-min k.max_tokens), λ h. ground arith)

  pub rungs-le : (k : WireKnobs H) → rungs k ≤ 16
  rungs-le k = let b = below-le 15 k.max_tokens in ground (arith, b)

  unfoldable pub merge_usage : Option (Usage H) → Option (Usage H) → Option (Usage H)
  unfolding plus
  merge_usage (some a) (some n) = some (plus a n)
  merge_usage (some a) none = some a
  merge_usage none n = n

-- The value of the digits that the text begins with.
unfoldable pub leading_number : ℕ → String → ℕ
leading_number n String.[] = n
leading_number n (String.◌∷◌ c s) =
    let rest = leading_number (10 * n + (code c - 48)) s in
    if leb 48 (code c) && leb (code c) 57 then rest else n

abbrev pub fits_usize : ℕ → ℕ
fits_usize n = if leb n usize_max then n else 0

abbrev pub number_behind : String → String → Option ℕ → ℕ
number_behind text marker none = 0
number_behind text marker (some i) =
    fits_usize (leading_number 0 (drop_chars (i + char_count marker) text))

unfoldable pub chars_after : String → String → ℕ
unfolding find_text leading_number
chars_after text marker = number_behind text marker (find_text text marker)

abbrev pub retry_after_cap : ℕ
retry_after_cap = 60 * second

unfoldable pub is_cold_start : String → Bool
unfolding contains_text
is_cold_start msg = contains_text msg "503"

-- The rung's magnitude before jitter, in seconds.
abbrev pub backoff_base : ℕ → ℕ
backoff_base attempt = 2 ^ min attempt 10

-- `backoff` is what `backoff_delay` draws for the attempt.
unfoldable pub schedule_delay : (ℕ → ℕ) → Option ℕ → String → ℕ → Option ℕ
unfolding is_cold_start
schedule_delay backoff (some d) last_err attempt = if ltb retry_after_cap d then none else some d
schedule_delay backoff none last_err attempt =
    if is_cold_start last_err then some (60 * second) else some (backoff attempt)
