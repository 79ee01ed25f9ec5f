-- ===== src/Retry.antt =====
-- pkg/cluster/retry: the three retry policies. A policy is a state with `Attempt` and `Reset`; a
-- method that mutates its receiver returns the new state.
pub mod Policy
pub mod Budget
mod Tests
