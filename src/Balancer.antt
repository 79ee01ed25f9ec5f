-- ===== src/Balancer.antt =====
-- pkg/cluster/loadbalancer: the balancers, and the check of what a balancer picked.
pub mod Recheck
pub mod RecheckLaws
pub mod Strategies
pub mod RoundRobin
pub mod Weighted
pub mod Legacy
pub mod Maglev
mod Tests
