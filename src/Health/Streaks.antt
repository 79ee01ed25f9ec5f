-- ===== src/Health/Streaks.antt =====
-- When a checker reports: after as many results in a row as the threshold says, and not before.
use dubbo_go_pixiu.Prelude.{
  ℕ, zero, suc, ◌+◌, ◌≤◌, ◌<◌, Bool, true, false, ◌≡◌, some, List, [], ◌∷◌, arith, if◌then◌else◌,
}
use dubbo_go_pixiu.Health.Counters.{
  Thresholds, Counters, Probe, response, stale, timed_out, handle_success, handle_failure, on_probe,
  after_probes, create_thresholds,
}

-- Thresholds of a checker: positive, and numbers of 32 bits.
pub record IsSet32 (t : Thresholds) : Type 0 where
  pub healthy_positive : 0 < t.healthy
  pub healthy_bound : t.healthy < 4294967296
  pub unhealthy_positive : 0 < t.unhealthy
  pub unhealthy_bound : t.unhealthy < 4294967296

-- The successes in a row that the newest probes brought; stale answers do not count.
abbrev pub successes : List Probe → ℕ
successes [] = 0
successes (response true ∷ earlier) = suc (successes earlier)
successes (response false ∷ earlier) = 0
successes (stale ∷ earlier) = successes earlier
successes (timed_out ∷ earlier) = 0

-- The failures in a row, timeouts included.
abbrev pub failures : List Probe → ℕ
failures [] = 0
failures (response true ∷ earlier) = 0
failures (response false ∷ earlier) = suc (failures earlier)
failures (stale ∷ earlier) = failures earlier
failures (timed_out ∷ earlier) = suc (failures earlier)

module _ (t : Thresholds) (set : IsSet32 t) where
  pub record IsCounted (probes : List Probe) (c : Counters) : Type 0 where
    pub health_streak : c.health_count ≤ successes probes
    pub failure_streak : c.un_health_count ≤ failures probes
    pub health_below : c.health_count < t.healthy
    pub failure_below : c.un_health_count < t.unhealthy

  -- After any probes each counter is below its threshold, and at most the results of its kind in a row.
  pub after_probes-IsCounted : (probes : List Probe) → IsCounted probes (after_probes t probes)
  unfolding after_probes on_probe
  after_probes-IsCounted [] = ground (arith, set.healthy_positive, set.unhealthy_positive)
  after_probes-IsCounted (response true ∷ earlier) = ground (arith, after_probes-IsCounted earlier)
  after_probes-IsCounted (response false ∷ earlier) = ground (arith, after_probes-IsCounted earlier)
  after_probes-IsCounted (stale ∷ earlier) = ground (arith, after_probes-IsCounted earlier)
  after_probes-IsCounted (timed_out ∷ earlier) = ground (arith, after_probes-IsCounted earlier)

  -- The results in a row that an event of the given flag wants, and those there are.
  abbrev pub required : Bool → ℕ
  required healthy = if healthy then t.healthy else t.unhealthy

  abbrev pub in_a_row : Bool → List Probe → ℕ
  in_a_row healthy probes = if healthy then successes probes else failures probes

  -- A probe reports an endpoint healthy only at the end of as many successes in a row as the healthy
  -- threshold, and unhealthy only at the end of as many failures as the unhealthy threshold.
  pub on_probe_emitted :
      (p : Probe) (earlier : List Probe) (healthy : Bool)
      → (on_probe t p (after_probes t earlier)).1 ≡ some healthy
      → required healthy ≤ in_a_row healthy (p ∷ earlier)
  unfolding on_probe
  on_probe_emitted (response true) earlier healthy h =
      ground (arith, after_probes-IsCounted earlier)
  on_probe_emitted (response false) earlier healthy h =
      ground (arith, after_probes-IsCounted earlier)
  on_probe_emitted stale earlier healthy h = cc
  on_probe_emitted timed_out earlier healthy h = ground (arith, after_probes-IsCounted earlier)

  -- The counters after `k` answers of one kind.
  unfoldable pub after_successes : ℕ → Counters → Counters
  after_successes zero c = c
  after_successes (suc k) c = (handle_success t (after_successes k c)).0

  unfoldable pub after_failures : ℕ → Counters → Counters
  after_failures zero c = c
  after_failures (suc k) c = (handle_failure t false (after_failures k c)).0

  health_count-after_successes :
      (k : ℕ) (c : Counters)
      → c.health_count + k < t.healthy
      → (after_successes k c).health_count ≡ c.health_count + k
  unfolding after_successes handle_success
  health_count-after_successes zero c h = omega arith
  health_count-after_successes (suc k) c h =
      ground (arith, set.healthy_bound, health_count-after_successes k c)

  un_health_count-after_failures :
      (k : ℕ) (c : Counters)
      → c.un_health_count + k < t.unhealthy
      → (after_failures k c).un_health_count ≡ c.un_health_count + k
  unfolding after_failures handle_failure
  un_health_count-after_failures zero c h = omega arith
  un_health_count-after_failures (suc k) c h =
      ground (arith, set.unhealthy_bound, un_health_count-after_failures k c)

  -- Success after success, the one that completes the healthy threshold together with what was counted
  -- before reports the endpoint healthy.
  pub healthy_due :
      (k : ℕ) (c : Counters)
      → c.health_count + k + 1 ≡ t.healthy
      → (handle_success t (after_successes k c)).1 ≡ some true
  unfolding handle_success
  healthy_due k c h = ground (arith, set.healthy_bound, health_count-after_successes k c)

  -- Failure after failure, the one that completes the unhealthy threshold together with what was
  -- counted before reports the endpoint unhealthy.
  pub unhealthy_due :
      (k : ℕ) (c : Counters)
      → c.un_health_count + k + 1 ≡ t.unhealthy
      → (handle_failure t false (after_failures k c)).1 ≡ some false
  unfolding handle_failure
  unhealthy_due k c h = ground (arith, set.unhealthy_bound, un_health_count-after_failures k c)

-- The thresholds of a checker are set whatever the configuration says.
pub create_thresholds-IsSet32 :
    (h u : ℕ) → h < 4294967296 → u < 4294967296 → IsSet32 (create_thresholds h u)
unfolding create_thresholds
create_thresholds-IsSet32 h u hb ub = ground arith
