-- ===== src/Health/Counters.antt =====
-- The counters of an `EndpointChecker`: `HandleSuccess`, `HandleFailure`, `HandleTimeout` and the
-- thresholds that `CreateHealthCheckWithCallback` sets. The counters are uint32.
use dubbo_go_pixiu.Prelude.{
  ℕ, ◌+◌, ◌%◌, Bool, true, false, Option, none, some, ◌==◌, leb, if◌then◌else◌, List, [], ◌∷◌,
}

abbrev pub u32 : ℕ → ℕ
u32 n = n % 4294967296

abbrev pub default_threshold : ℕ
default_threshold = 5

-- The thresholds of a `HealthChecker`.
pub record Thresholds : Type 0 where
  pub healthy : ℕ
  pub unhealthy : ℕ

-- A threshold of 0 in the configuration stands for the default.
unfoldable pub create_thresholds : ℕ → ℕ → Thresholds
create_thresholds healthy_threshold unhealthy_threshold = record {
  healthy = if healthy_threshold == 0 then default_threshold else healthy_threshold;
  unhealthy = if unhealthy_threshold == 0 then default_threshold else unhealthy_threshold;
}

pub record Counters : Type 0 where
  pub health_count : ℕ
  pub un_health_count : ℕ

abbrev pub no_counts : Counters
no_counts = record { health_count = 0; un_health_count = 0 }

-- The flag of the event that is emitted, if one is.
abbrev pub Emitted : Type 0
Emitted = Option Bool

module _ (t : Thresholds) where
  unfoldable pub handle_success : Counters → Counters × Emitted
  handle_success c =
      let count = u32 (c.health_count + 1) in
      if leb t.healthy count
      then (record { health_count = 0; un_health_count = 0 }, some true)
      else (record { health_count = count; un_health_count = 0 }, none)

  -- The argument `timeout` is ignored.
  unfoldable pub handle_failure : Bool → Counters → Counters × Emitted
  handle_failure timeout c =
      let count = u32 (c.un_health_count + 1) in
      if leb t.unhealthy count
      then (record { health_count = 0; un_health_count = 0 }, some false)
      else (record { health_count = 0; un_health_count = count }, none)

  unfoldable pub handle_timeout : Counters → Counters × Emitted
  unfolding handle_failure
  handle_timeout c = handle_failure true c

-- What a probe brings back: a response to the current check, one to an older check, or none in time.
pub data Probe : Type 0 where
  response : Bool → Probe
  stale : Probe
  timed_out : Probe

-- One round of the loop of `EndpointChecker.Start`.
module _ (t : Thresholds) where
  unfoldable pub on_probe : Probe → Counters → Counters × Emitted
  unfolding handle_success handle_failure
  on_probe (response true) c = handle_success t c
  on_probe (response false) c = handle_failure t false c
  on_probe stale c = (c, none)
  on_probe timed_out c = handle_failure t true c

  -- The counters after a list of probes, the newest first.
  unfoldable pub after_probes : List Probe → Counters
  after_probes [] = no_counts
  after_probes (p ∷ earlier) = (on_probe p (after_probes earlier)).0
