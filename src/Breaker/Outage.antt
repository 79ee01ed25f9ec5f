-- ===== src/Breaker/Outage.antt =====
-- What an open breaker does before its recovery timeout, while calls that it let through are still running.
use dubbo_go_pixiu.Prelude.{
  ℕ, ◌+◌, ◌-◌, ◌≤◌, ◌<◌, Bool, true, false, ◌≡◌, refl, arith, List, [], ◌∷◌, ap, ◌∙◌,
}
use dubbo_go_pixiu.Breaker.{open_circuit, CircuitBreaker, allow, record_result}

-- A goroutine that asks to run its operation, or reports one, at a time. A report is true of a success.
pub data Event : Type 0 where
  ask : ℕ → Event
  result : Bool → ℕ → Event

-- The events in the order in which they take the lock, with the answers to those that ask.
unfoldable pub take_events : List Event → CircuitBreaker → CircuitBreaker × List Bool
take_events [] cb = (cb, [])
take_events (ask now ∷ events) cb =
    let (cb', allowed) = allow now cb in
    let (last, answers) = take_events events cb' in (last, allowed ∷ answers)
take_events (result success now ∷ events) cb = take_events events (record_result success now cb)

-- No success, and no time before the start or at or after the end.
abbrev pub IsOutage : ℕ → ℕ → List Event → Type 0
IsOutage start end_time [] = Unit {0}
IsOutage start end_time (ask now ∷ events) =
    ((start ≤ now) × (now < end_time)) × IsOutage start end_time events
IsOutage start end_time (result success now ∷ events) =
    ((success ≡ false) × (start ≤ now) × (now < end_time)) × IsOutage start end_time events

abbrev pub refusals : List Event → List Bool
refusals [] = []
refusals (ask now ∷ events) = false ∷ refusals events
refusals (result success now ∷ events) = refusals events

abbrev pub reported : List Event → ℕ
reported [] = 0
reported (ask now ∷ events) = reported events
reported (result success now ∷ events) = reported events + 1

-- The time of the last report, or the one given.
abbrev pub last_report : ℕ → List Event → ℕ
last_report time [] = time
last_report time (ask now ∷ events) = last_report time events
last_report time (result success now ∷ events) = last_report now events

refused_before :
    (now : ℕ) (cb : CircuitBreaker)
    → cb.state ≡ open_circuit
    → now - cb.last_fail_time < cb.config.recovery_timeout
    → allow now cb ≡ (cb, false)
unfolding allow
refused_before now cb h early = ground arith

failed_open :
    (now : ℕ) (cb : CircuitBreaker)
    → cb.state ≡ open_circuit
    → ((record_result false now cb).state ≡ open_circuit)
      × ((record_result false now cb).failure_count ≡ cb.failure_count + 1)
      × ((record_result false now cb).last_fail_time ≡ now)
      × ((record_result false now cb).config ≡ cb.config)
unfolding record_result
failed_open now cb h = ground arith

-- An open breaker refuses every call until the recovery timeout after `start`, and stays open, whatever
-- calls that were running meanwhile report failures in whatever order: each failure counts, and the last one
-- reported is where the wait begins. `start` is no later than the last failure.
pub take_events-outage :
    (start end_time : ℕ) (events : List Event) (cb : CircuitBreaker)
    → cb.state ≡ open_circuit
    → start ≤ cb.last_fail_time
    → end_time ≤ start + cb.config.recovery_timeout
    → IsOutage start end_time events
    → ((take_events events cb).1 ≡ refusals events)
      × ((take_events events cb).0.state ≡ open_circuit)
      × ((take_events events cb).0.failure_count ≡ cb.failure_count + reported events)
      × ((take_events events cb).0.last_fail_time ≡ last_report cb.last_fail_time events)
unfolding take_events
take_events-outage start end_time [] cb h since until outage = (refl, h, omega arith, refl)
take_events-outage start end_time (ask now ∷ events) cb h since until (times, outage) =
    let refused : allow now cb ≡ (cb, false) = refused_before now cb h (omega (arith, times)) in
    let (answers, still, count, last) =
      take_events-outage start end_time events cb h since until outage in
    rw refused (ap (λ l. false ∷ l) answers, still, count, last)
take_events-outage start end_time (result true now ∷ events) cb h since until (times, outage) =
    cc (times.0)
take_events-outage start end_time (result false now ∷ events) cb h since until (times, outage) =
    let (stays, counted, time, config) = failed_open now cb h in
    let (answers, still, count, last) =
      take_events-outage start end_time events (record_result false now cb) stays
        (omega (arith, time, times)) (rw config until) outage in
    (answers, still, omega (arith, count, counted), last ∙ ap (λ t. last_report t events) time)
