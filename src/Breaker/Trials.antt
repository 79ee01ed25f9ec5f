-- ===== src/Breaker/Trials.antt =====
-- How many trial calls a breaker lets through while none of them has reported.
use dubbo_go_pixiu.Prelude.{
  ℕ, zero, suc, ◌+◌, ◌-◌, ◌≤◌, ◌<◌, true, false, ◌≡◌, arith, if◌then◌else◌, leb,
}
use dubbo_go_pixiu.Breaker.{open_circuit, half_open, CircuitBreaker, allow}

-- The calls of `allow` that are granted, at the given times, with no report between them.
unfoldable pub admitted : ℕ → ℕ → CircuitBreaker → ℕ
admitted zero now cb = 0
admitted (suc calls) now cb =
    let rest = admitted calls now (allow now cb).0 in if (allow now cb).1 then suc rest else rest

half_open_step :
    (now : ℕ) (cb : CircuitBreaker)
    → cb.state ≡ half_open
    → ((allow now cb).0.state ≡ half_open)
      × ((allow now cb).0.config ≡ cb.config)
      × ((allow now cb).1 ≡ true
          → (cb.half_open_calls < cb.config.half_open_max_calls)
            × ((allow now cb).0.half_open_calls ≡ cb.half_open_calls + 1))
      × ((allow now cb).1 ≡ false
          → (cb.config.half_open_max_calls ≤ cb.half_open_calls)
            × ((allow now cb).0.half_open_calls ≡ cb.half_open_calls))
unfolding allow
half_open_step now cb h = ground arith

abbrev least : ℕ → ℕ → ℕ
least a b = if leb a b then a else b

admitted-half_open :
    (calls now : ℕ) (cb : CircuitBreaker)
    → cb.state ≡ half_open
    → admitted calls now cb ≡ least calls (cb.config.half_open_max_calls - cb.half_open_calls)
unfolding admitted
admitted-half_open zero now cb h = ground arith
admitted-half_open (suc calls) now cb h =
    ground (arith, half_open_step now cb h, admitted-half_open calls now (allow now cb).0)

open_step :
    (now : ℕ) (cb : CircuitBreaker)
    → cb.state ≡ open_circuit
    → cb.config.recovery_timeout ≤ now - cb.last_fail_time
    → ((allow now cb).1 ≡ true)
      × ((allow now cb).0.state ≡ half_open)
      × ((allow now cb).0.config ≡ cb.config)
      × ((allow now cb).0.half_open_calls ≡ 0)
unfolding allow
open_step now cb h late = ground arith

-- When an open breaker has waited long enough, it lets half_open_max_calls + 1 calls through before
-- any of them reports: the call that turns it half open is not counted.
pub admitted-open :
    (calls now : ℕ) (cb : CircuitBreaker)
    → cb.state ≡ open_circuit
    → cb.config.recovery_timeout ≤ now - cb.last_fail_time
    → cb.config.half_open_max_calls < calls
    → admitted calls now cb ≡ cb.config.half_open_max_calls + 1
unfolding admitted
admitted-open zero now cb h late many = absurd (omega arith)
admitted-open (suc calls) now cb h late many =
    ground (arith, open_step now cb h late, admitted-half_open calls now (allow now cb).0)
