-- ===== src/Breaker/Trip.antt =====
-- When the breaker of internal/middleware/router.go opens, and how it closes again.
use aegis_llm.Prelude.{
  ℕ, suc, add64_pos, ◌+◌, ◌≤◌, ◌<◌, ◌≡◌, ◌≢◌, ◌↔◌, true, false, ℤ, pos, List, [], ◌∷◌, none, some,
  arith, length, ==_iff, add64, half64, ltb_ℤ, if◌then◌else◌,
}
use native.Mathlib.Decide.{dec_lt}
use aegis_llm.Breaker.{
  next_generation, State, closed, open_, half_open, Breaker, Lease, acquire_closed, allow_probe,
  record_failure, record_success, release_probe,
}
use aegis_llm.Breaker.Leases.{Settlement, failure, success, release, settle}

-- A lease of an earlier generation changes nothing, however it is settled.
pub settle_stale :
    (b : Breaker) (l : Lease) (how : Settlement) → l.generation ≢ b.generation → settle b l how ≡ b
unfolding settle record_failure record_success release_probe
settle_stale b l (failure now) h = ground (arith, ==_iff b.generation l.generation)
settle_stale b l success h = ground (arith, ==_iff b.generation l.generation)
settle_stale b l release h = ground (arith, ==_iff b.generation l.generation)

-- A closed breaker has counted `f` failures of the `k` that open it.
pub record Counts (b : Breaker) (f k : ℕ) : Type 0 where
  pub state : b.state ≡ closed
  pub failures : b.failures ≡ pos f
  pub threshold : b.threshold ≡ pos k

-- A failure of a request that a closed breaker let through.
unfoldable pub fail_one : Breaker → ℤ → Breaker
fail_one b now = record_failure b (record { generation = b.generation; probe = false }) now

-- Failures at the given times, with no success between them.
unfoldable pub fail_all : Breaker → List ℤ → Breaker
fail_all b [] = b
fail_all b (t ∷ ts) = fail_all (fail_one b t) ts

fail_one_low :
    (b : Breaker) (now : ℤ) (f k : ℕ)
    → Counts b f k
    → f + 1 < k
    → k < half64
    → Counts (fail_one b now) (f + 1) k
unfolding fail_one record_failure
fail_one_low b now f k c h small = record {
  state = ground (arith, c.state, c.failures, c.threshold, add64_pos f 1);
  failures = ground (arith, c.state, c.failures, c.threshold, add64_pos f 1);
  threshold = ground (arith, c.state, c.failures, c.threshold, add64_pos f 1);
}

fail_one_last :
    (b : Breaker) (now : ℤ) (f k : ℕ)
    → Counts b f k
    → k ≤ f + 1
    → k < half64
    → f < k
    → (fail_one b now).state ≡ open_
unfolding fail_one record_failure
fail_one_last b now f k c h small below =
    ground (arith, c.state, c.failures, c.threshold, add64_pos f 1)

fail_all_open : (b : Breaker) (ts : List ℤ) → b.state ≡ open_ → (fail_all b ts).state ≡ open_
unfolding fail_all fail_one record_failure
fail_all_open b [] h = h
fail_all_open b (t ∷ ts) h = fail_all_open (fail_one b t) ts (ground arith)

fail_all_below :
    (b : Breaker) (ts : List ℤ) (f k : ℕ)
    → Counts b f k
    → f + length ts < k
    → k < half64
    → Counts (fail_all b ts) (f + length ts) k
unfolding fail_all
fail_all_below b [] f k c h small = let e : f + 0 ≡ f = omega arith in rw e c
fail_all_below b (t ∷ ts) f k c h small =
    let e : f + suc (length ts) ≡ f + 1 + length ts = omega arith in
    rw e (
      fail_all_below (fail_one b t) ts (f + 1) k (fail_one_low b t f k c (omega arith) small)
        (omega arith) small)

fail_all_reached :
    (b : Breaker) (ts : List ℤ) (f k : ℕ)
    → Counts b f k
    → f < k
    → k ≤ f + length ts
    → k < half64
    → (fail_all b ts).state ≡ open_
unfolding fail_all
fail_all_reached b [] f k c low h small = absurd (omega arith)
fail_all_reached b (t ∷ ts) f k c low h small = elim (dec_lt (f + 1) k) [
  | yes more ↦
      fail_all_reached (fail_one b t) ts (f + 1) k (fail_one_low b t f k c more small) more
        (omega arith) small
  | no last ↦ fail_all_open (fail_one b t) ts (fail_one_last b t f k c (omega arith) small low)
]

-- Failures in a row open a closed breaker exactly when they bring its count to the threshold.
pub fail_all-open_iff :
    (b : Breaker) (ts : List ℤ) (f k : ℕ)
    → Counts b f k
    → f < k
    → k < half64
    → ((fail_all b ts).state ≡ open_) ↔ (k ≤ f + length ts)
fail_all-open_iff b ts f k c low small = elim (dec_lt (f + length ts) k) [
  | yes below ↦ (
    λ e. absurd (still_closed (fail_all_below b ts f k c below small).state e),
    λ h. absurd (omega arith),
  )
  | no reached ↦ (λ e. omega arith, λ h. fail_all_reached b ts f k c low h small)
]
  where
    still_closed : {s : State} → s ≡ closed → s ≡ open_ → ⊥
    still_closed p q = cc

-- An open breaker refuses a closed lease, before and after the call. It grants a probe exactly when
-- the recovery time has passed, which makes it half-open, and nothing changes otherwise. A half-open
-- breaker refuses every further probe.
pub allow_probe-gate :
    (b : Breaker) (elapsed later : ℤ)
    → b.state ≡ open_
    → (acquire_closed b ≡ none)
      × (allow_probe b elapsed ≡ (
          if ltb_ℤ b.recovery_time elapsed
          then (
            record b { state = half_open },
            some (record { generation = b.generation; probe = true }),
          )
          else (b, none)))
      × (acquire_closed (allow_probe b elapsed).0 ≡ none)
      × (allow_probe (record b { state = half_open }) later
          ≡ (record b { state = half_open }, none))
unfolding acquire_closed allow_probe
allow_probe-gate b elapsed later h = ground arith

-- How a granted probe ends: success closes the breaker with its count at zero, failure opens it
-- again with the time of the failure, and release opens it with nothing else changed. The first
-- two start a new generation.
pub settle-probe :
    (b : Breaker) (l : Lease) (now : ℤ)
    → b.state ≡ half_open
    → l.probe ≡ true
    → l.generation ≡ b.generation
    → (settle b l success
        ≡ record b { state = closed; failures = pos 0; generation = next_generation b.generation })
      × (settle b l (failure now) ≡ record b {
        state = open_;
        failures = add64 b.failures (pos 1);
        last_failure = now;
        generation = next_generation b.generation;
      })
      × (settle b l release ≡ record b { state = open_ })
unfolding settle record_failure record_success release_probe
settle-probe b l now h p g = ground (arith, ==_iff b.generation l.generation)
