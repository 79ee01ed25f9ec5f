-- ===== src/Breaker/Tests.antt =====
-- A run of the breaker, and its theorems at concrete inputs.
use dubbo_go_pixiu.Prelude.{true, false, ◌≡◌, refl, arith, ◌+◌, [], ◌∷◌}
use dubbo_go_pixiu.Breaker.{
  CircuitBreaker, CircuitBreakerConfig, open_circuit, new_circuit_breaker, record_result, execute,
  ran,
}
use dubbo_go_pixiu.Breaker.Invariant.{
  here, next, report, IsValid, Reach-IsValid, execute-recovers, failures_in_a_row,
}
use dubbo_go_pixiu.Breaker.Outage.{ask, result, take_events, take_events-outage}
use dubbo_go_pixiu.Breaker.Trials.{admitted, admitted-open}

abbrev cfg : CircuitBreakerConfig
cfg = record { failure_threshold = 2; recovery_timeout = 10; half_open_max_calls = 3 }

abbrev tripped : CircuitBreaker
unfolding record_result new_circuit_breaker
tripped = record_result false 6 (record_result false 5 (new_circuit_breaker cfg))

tripped_open : tripped.state ≡ open_circuit
unfolding record_result new_circuit_breaker
tripped_open = refl

tripped-IsValid : IsValid tripped
unfolding tripped record_result
tripped-IsValid =
    (Reach-IsValid cfg (
      next (next here (report false 5 (new_circuit_breaker cfg)))
        (report false 6 (record_result false 5 (new_circuit_breaker cfg))))).0

-- A failure after a success and a failure.
abbrev thrice : CircuitBreaker
thrice =
    record_result false 7 (record_result true 6 (record_result false 5 (new_circuit_breaker cfg)))

Reach-IsValid_example :
    IsValid thrice × (thrice.failure_count ≡ failures_in_a_row (false ∷ true ∷ false ∷ []))
Reach-IsValid_example = Reach-IsValid cfg (
    next
      (next (next here (report false 5 (new_circuit_breaker cfg)))
        (report true 6 (record_result false 5 (new_circuit_breaker cfg))))
      (report false 7 (record_result true 6 (record_result false 5 (new_circuit_breaker cfg)))))

execute-recovers_example :
    ((execute 16 18 false tripped).1 ≡ ran false)
    × ((execute 16 18 false tripped).0.state ≡ open_circuit)
    × ((execute 16 18 false tripped).0.last_fail_time ≡ 18)
    × ((execute 16 18 false tripped).0.failure_count ≡ tripped.failure_count + 1)
unfolding record_result new_circuit_breaker
execute-recovers_example = execute-recovers 16 18 false tripped tripped-IsValid refl (omega arith)

-- Two calls are refused; a call that was running before reports a failure between them.
take_events-outage_example :
    ((take_events (ask 8 ∷ result false 10 ∷ ask 15 ∷ []) tripped).1 ≡ false ∷ false ∷ [])
    × ((take_events (ask 8 ∷ result false 10 ∷ ask 15 ∷ []) tripped).0.state ≡ open_circuit)
    × ((take_events (ask 8 ∷ result false 10 ∷ ask 15 ∷ []) tripped).0.failure_count
        ≡ tripped.failure_count + 1)
    × ((take_events (ask 8 ∷ result false 10 ∷ ask 15 ∷ []) tripped).0.last_fail_time ≡ 10)
unfolding record_result new_circuit_breaker
take_events-outage_example =
    take_events-outage 6 16 (ask 8 ∷ result false 10 ∷ ask 15 ∷ []) tripped refl (omega arith)
      (omega arith)
      (
        (omega arith, omega arith),
        ((refl, omega arith, omega arith), ((omega arith, omega arith), tt)),
      )

admitted-open_example : admitted 9 20 tripped ≡ 4
unfolding record_result new_circuit_breaker
admitted-open_example = admitted-open 9 20 tripped refl (omega arith) (omega arith)
