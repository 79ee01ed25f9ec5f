-- ===== src/Breaker.antt =====
-- pkg/filter/ai/kvcache/circuit_breaker.go: the circuit breaker in front of the KV-cache service.
-- Times and durations are numbers; a count starts at 0, so the signed `int` of the source is a number
-- too, and a negative setting acts as 0 does.
pub mod Invariant
pub mod Trials
pub mod Outage
mod Tests
use dubbo_go_pixiu.Prelude.{ℕ, suc, ◌+◌, ◌-◌, Bool, true, false, ◌||◌, leb, if◌then◌else◌, ltb}

pub data CircuitState : Type 0 where
  closed open_circuit half_open : CircuitState

pub record CircuitBreakerConfig : Type 0 where
  pub failure_threshold : ℕ
  pub recovery_timeout : ℕ
  pub half_open_max_calls : ℕ

pub record CircuitBreaker : Type 0 where
  pub state : CircuitState
  pub failure_count : ℕ
  pub last_fail_time : ℕ
  pub half_open_calls : ℕ
  pub config : CircuitBreakerConfig

unfoldable pub new_circuit_breaker : CircuitBreakerConfig → CircuitBreaker
new_circuit_breaker cfg = record {
  state = closed;
  failure_count = 0;
  last_fail_time = 0;
  half_open_calls = 0;
  config = cfg;
}

-- The switch of `allow`, at the time `now`.
allow_in : CircuitState → ℕ → CircuitBreaker → CircuitBreaker × Bool
allow_in closed now cb = (cb, true)
allow_in open_circuit now cb =
    if leb cb.config.recovery_timeout (now - cb.last_fail_time)
    then (record cb { state = half_open; half_open_calls = 0 }, true)
    else (cb, false)
allow_in half_open now cb =
    if leb cb.config.half_open_max_calls cb.half_open_calls
    then (cb, false)
    else (record cb { half_open_calls = cb.half_open_calls + 1 }, true)

unfoldable pub allow : ℕ → CircuitBreaker → CircuitBreaker × Bool
unfolding allow_in
allow now cb = allow_in cb.state now cb

abbrev pub is_closed : CircuitState → Bool
is_closed closed = true
is_closed open_circuit = false
is_closed half_open = false

-- The flag says that the operation returned no error.
unfoldable pub record_result : Bool → ℕ → CircuitBreaker → CircuitBreaker
record_result true now cb =
    let reset = record cb { failure_count = 0 } in
    if is_closed cb.state then reset else record reset { state = closed; half_open_calls = 0 }
record_result false now cb =
    let failed = record cb { failure_count = cb.failure_count + 1; last_fail_time = now } in
    if leb cb.config.failure_threshold (cb.failure_count + 1)
    then record failed { state = open_circuit }
    else failed

pub data ExecuteResult : Type 0 where
  refused_open : ExecuteResult
  ran : Bool → ExecuteResult

-- `Execute` of an operation that starts at `start`, ends at `end_time` and returns no error if the
-- flag is true. Calls that overlap are `allow` and `record_result` interleaved. A nil breaker, which runs
-- every operation, is left out.
unfoldable pub execute : ℕ → ℕ → Bool → CircuitBreaker → CircuitBreaker × ExecuteResult
execute start end_time success cb =
    let (cb', allowed) = allow start cb in
    if allowed then (record_result success end_time cb', ran success) else (cb', refused_open)
