-- ===== src/Breaker/Invariant.antt =====
-- What holds of a breaker between the calls of any number of goroutines.
use dubbo_go_pixiu.Prelude.{
  ℕ, ◌+◌, ◌-◌, ◌≤◌, ◌<◌, Bool, true, false, ◌≡◌, refl, ◌≢◌, arith, ◌⊎◌, if◌then◌else◌, List, [],
  ◌∷◌,
}
use dubbo_go_pixiu.Breaker.{
  closed, open_circuit, CircuitBreaker, CircuitBreakerConfig, new_circuit_breaker, allow,
  record_result, execute, ran,
}

-- A goroutine enters by `allow` and reports by `record_result`; both lock, so they interleave as
-- whole steps.
pub data Step : CircuitBreaker → CircuitBreaker → Type 0 where
  enter : (now : ℕ) (cb : CircuitBreaker) → Step cb (allow now cb).0
  report : (success : Bool) (now : ℕ) (cb : CircuitBreaker) → Step cb (record_result success now cb)

-- What a step adds to the reports of before, the last report first; a report is true of a success.
abbrev pub with_report : {t u : CircuitBreaker} → Step t u → List Bool → List Bool
with_report (enter now cb) reports = reports
with_report (report success now cb) reports = success ∷ reports

-- The states that are reached, with the reports that were made on the way.
pub data Reach (cb : CircuitBreaker) : List Bool → CircuitBreaker → Type 0 where
  here : Reach cb [] cb
  next :
      {reports : List Bool} {t u : CircuitBreaker}
      → Reach cb reports t
      → (st : Step t u) → Reach cb (with_report st reports) u

-- The failures since the last success.
abbrev pub failures_in_a_row : List Bool → ℕ
failures_in_a_row [] = 0
failures_in_a_row (true ∷ reports) = 0
failures_in_a_row (false ∷ reports) = failures_in_a_row reports + 1

pub record IsValid (cb : CircuitBreaker) : Type 0 where
  -- The breaker leaves the closed state only by a failure count that reaches the threshold.
  pub tripped : cb.state ≢ closed → cb.config.failure_threshold ≤ cb.failure_count
  pub untripped :
      cb.state ≡ closed → (cb.failure_count ≡ 0) ⊎ (cb.failure_count < cb.config.failure_threshold)
  pub trials : cb.half_open_calls ≤ cb.config.half_open_max_calls

new-IsValid : (cfg : CircuitBreakerConfig) → IsValid (new_circuit_breaker cfg)
unfolding new_circuit_breaker
new-IsValid cfg = ground arith

allow-IsValid : (now : ℕ) (cb : CircuitBreaker) → IsValid cb → IsValid (allow now cb).0
unfolding allow
allow-IsValid now cb v = ground arith

record_result-IsValid :
    (success : Bool) (now : ℕ) (cb : CircuitBreaker)
    → IsValid cb
    → IsValid (record_result success now cb)
unfolding record_result
record_result-IsValid true now cb v = ground arith
record_result-IsValid false now cb v = ground arith

Step-IsValid : {t u : CircuitBreaker} → Step t u → IsValid t → IsValid u
Step-IsValid (enter now cb) v = allow-IsValid now cb v
Step-IsValid (report success now cb) v = record_result-IsValid success now cb v

Step-counted :
    (reports : List Bool) {t u : CircuitBreaker} (st : Step t u)
    → t.failure_count ≡ failures_in_a_row reports
    → u.failure_count ≡ failures_in_a_row (with_report st reports)
unfolding allow record_result
Step-counted reports (enter now cb) h = ground (arith, h)
Step-counted reports (report true now cb) h = ground (arith, h)
Step-counted reports (report false now cb) h = ground (arith, h)

-- Every state that a new breaker reaches by any interleaving of calls is valid, and its count of failures
-- is the number of failures that were reported since the last success.
pub Reach-IsValid :
    (cfg : CircuitBreakerConfig) {reports : List Bool} {cb : CircuitBreaker}
    → Reach (new_circuit_breaker cfg) reports cb
    → IsValid cb × (cb.failure_count ≡ failures_in_a_row reports)
unfolding new_circuit_breaker
Reach-IsValid cfg here = (new-IsValid cfg, refl)
Reach-IsValid cfg (next r st) =
    let (valid, counted) = Reach-IsValid cfg r in (Step-IsValid st valid, Step-counted _ st counted)

-- From an open breaker, the first call after the recovery timeout runs. Its success closes the breaker
-- with no failure counted; its failure leaves the breaker open, as long as the threshold was reached,
-- for another timeout from the end of the call.
pub execute-recovers :
    (start end_time : ℕ) (success : Bool) (cb : CircuitBreaker)
    → IsValid cb
    → cb.state ≡ open_circuit
    → cb.config.recovery_timeout ≤ start - cb.last_fail_time
    → ((execute start end_time success cb).1 ≡ ran success)
      × ((execute start end_time success cb).0.state ≡ (if success then closed else open_circuit))
      × ((execute start end_time success cb).0.last_fail_time
          ≡ (if success then cb.last_fail_time else end_time))
      × ((execute start end_time success cb).0.failure_count
          ≡ (if success then 0 else cb.failure_count + 1))
unfolding execute allow record_result
execute-recovers start end_time true cb v h late = ground arith
execute-recovers start end_time false cb v h late = ground arith
