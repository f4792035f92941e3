-- ===== src/Breaker.antt =====
-- The circuit breaker of internal/middleware/router.go: its state under `mu`, and one function
-- for each method. Each call of the clock is an argument: `now` is in seconds where the code
-- stores a Unix time, `elapsed` is `time.Since(lastFail)` in nanoseconds.
pub mod Leases
pub mod Trip
mod Tests
use aegis_llm.Prelude.{
  ℕ, ◌+◌, ◌%◌, ◌==◌, Bool, true, false, not, ◌||◌, ◌&&◌, ℤ, pos, add64, leb_ℤ, ltb_ℤ, mod64,
  if◌then◌else◌, Option, none, some,
}

pub data State : Type 0 where
  closed open_ half_open : State

abbrev pub is_closed : State → Bool
is_closed closed = true
is_closed _ = false

abbrev pub is_open : State → Bool
is_open open_ = true
is_open _ = false

abbrev pub is_half_open : State → Bool
is_half_open half_open = true
is_half_open _ = false

-- `failures`, `lastFailure` and `threshold` are `int64`; `generation` is a `uint64`.
pub record Breaker : Type 0 where
  pub state : State
  pub failures : ℤ
  pub last_failure : ℤ
  pub generation : ℕ
  pub threshold : ℤ
  pub recovery_time : ℤ

pub record Lease : Type 0 where
  pub generation : ℕ
  pub probe : Bool

-- gatewayconst.CircuitBreakerFailureThreshold, and CircuitBreakerRecovery in nanoseconds.
abbrev pub failure_threshold : ℤ
failure_threshold = pos 5

abbrev pub recovery : ℤ
recovery = pos 30000000000

unfoldable pub new_breaker : Breaker
new_breaker = record {
  state = closed;
  failures = pos 0;
  last_failure = pos 0;
  generation = 0;
  threshold = failure_threshold;
  recovery_time = recovery;
}

-- `cb.generation++`
abbrev pub next_generation : ℕ → ℕ
next_generation g = (g + 1) % mod64

-- `AcquireClosed`
unfoldable pub acquire_closed : Breaker → Option Lease
acquire_closed b =
    if is_closed b.state then some (record { generation = b.generation; probe = false }) else none

-- `AllowProbe`
unfoldable pub allow_probe : Breaker → ℤ → Breaker × Option Lease
allow_probe b elapsed =
    if is_open b.state && ltb_ℤ b.recovery_time elapsed
    then (record b { state = half_open }, some (record { generation = b.generation; probe = true }))
    else (b, none)

-- `RecordFailure` of a probe.
unfoldable pub probe_failure : Breaker → ℤ → Breaker
unfolding add64
probe_failure b now =
    if is_half_open b.state
    then record b {
      state = open_;
      failures = add64 b.failures (pos 1);
      last_failure = now;
      generation = next_generation b.generation;
    }
    else b

-- `RecordFailure` of a request that was let through a closed breaker.
unfoldable pub closed_failure : Breaker → ℤ → Breaker
unfolding add64
closed_failure b now =
    if is_closed b.state
    then (if leb_ℤ b.threshold (add64 b.failures (pos 1))
        then record b {
          state = open_;
          failures = add64 b.failures (pos 1);
          last_failure = now;
          generation = next_generation b.generation;
        }
        else record b { failures = add64 b.failures (pos 1); last_failure = now })
    else b

-- `RecordFailure`
unfoldable pub record_failure : Breaker → Lease → ℤ → Breaker
unfolding probe_failure closed_failure
record_failure b lease now =
    if b.generation == lease.generation
    then (if lease.probe then probe_failure b now else closed_failure b now)
    else b

-- `RecordSuccess`
unfoldable pub record_success : Breaker → Lease → Breaker
record_success b lease =
    if b.generation == lease.generation
    then (if lease.probe
        then (if is_half_open b.state
            then record b {
              state = closed;
              failures = pos 0;
              generation = next_generation b.generation;
            }
            else b)
        else (if is_closed b.state then record b { failures = pos 0 } else b))
    else b

-- `ReleaseProbe`
unfoldable pub release_probe : Breaker → Lease → Breaker
release_probe b lease =
    if not lease.probe || not (b.generation == lease.generation)
    then b
    else (if is_half_open b.state then record b { state = open_ } else b)
