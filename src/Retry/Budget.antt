-- ===== src/Retry/Budget.antt =====
-- What the users of a retry policy rely on, as an interface that each policy fills: after `Reset`, a
-- fixed number of attempts is granted and none after that.
use dubbo_go_pixiu.Prelude.{
  ℕ, zero, suc, ◌+◌, ◌-◌, ◌*◌, ◌≤◌, ◌<◌, Bool, ◌≡◌, refl, some, ltb, leb, if◌then◌else◌, arith,
}
use dubbo_go_pixiu.Retry.Policy.{
  NoRetryPolicy, no_retry_attempt, no_retry_reset, CountBasedRetry, count_attempt, count_reset,
  ExponentialBackoffRetry, backoff_attempt, backoff_reset, millisecond,
}

-- `left` counts the attempts still granted and `total` those of a fresh policy.
pub record RetryPolicy (S : Type 0) : Type 1 where
  pub attempt : S → S × Bool
  pub reset : S → S
  pub left : S → ℕ
  pub total : S → ℕ
  pub Ok : S → Type 0
  pub attempt-Ok : (s : S) → Ok s → Ok (attempt s).0
  pub attempt_granted : (s : S) → Ok s → (attempt s).1 ≡ ltb 0 (left s)
  pub left-attempt : (s : S) → Ok s → left (attempt s).0 ≡ left s - 1
  pub total-attempt : (s : S) → total (attempt s).0 ≡ total s
  pub reset-Ok : (s : S) → Ok s → Ok (reset s)
  pub left-reset : (s : S) → Ok s → left (reset s) ≡ total s

module _ {S : Type 0} (p : RetryPolicy S) where
  -- How many of the next calls of `Attempt` are granted.
  unfoldable pub granted : ℕ → S → ℕ
  granted zero s = 0
  granted (suc calls) s =
      let rest = granted calls (p.attempt s).0 in if (p.attempt s).1 then suc rest else rest

  abbrev least : ℕ → ℕ → ℕ
  least a b = if leb a b then a else b

  granted-least : (calls : ℕ) (s : S) → p.Ok s → granted calls s ≡ least calls (p.left s)
  unfolding granted
  granted-least zero s ok = ground arith
  granted-least (suc calls) s ok = ground (
    arith,
    granted-least calls (p.attempt s).0 (p.attempt-Ok s ok),
    p.attempt_granted s ok,
    p.left-attempt s ok,
  )

  -- After `Reset` a policy grants its total of attempts and no more, however often it is asked.
  pub granted-reset :
      (calls : ℕ) (s : S) → p.Ok s → p.total s ≤ calls → granted calls (p.reset s) ≡ p.total s
  granted-reset calls s ok h =
      ground (arith, granted-least calls (p.reset s) (p.reset-Ok s ok), p.left-reset s ok)

-- No retry: one attempt.
abbrev pub no_retry_left : NoRetryPolicy → ℕ
no_retry_left n = if n.first_time then 0 else 1

pub no_retry_granted : (n : NoRetryPolicy) → (no_retry_attempt n).1 ≡ ltb 0 (no_retry_left n)
unfolding no_retry_attempt
no_retry_granted n = ground arith

pub no_retry_left-attempt :
    (n : NoRetryPolicy) → no_retry_left (no_retry_attempt n).0 ≡ no_retry_left n - 1
unfolding no_retry_attempt
no_retry_left-attempt n = ground arith

pub no_retry_left-reset : (n : NoRetryPolicy) → no_retry_left (no_retry_reset n) ≡ 1
unfolding no_retry_reset
no_retry_left-reset n = refl

abbrev pub no_retry : RetryPolicy NoRetryPolicy
no_retry = record {
  attempt = no_retry_attempt;
  reset = no_retry_reset;
  left = no_retry_left;
  total = λ _. 1;
  Ok = λ _. Unit {0};
  attempt-Ok = λ s ok. tt;
  attempt_granted = λ s ok. no_retry_granted s;
  left-attempt = λ s ok. no_retry_left-attempt s;
  total-attempt = λ s. refl;
  reset-Ok = λ s ok. tt;
  left-reset = λ s ok. no_retry_left-reset s;
}

-- Counters of 64 bits that do not pass their bound.
abbrev pub InRange : ℕ → ℕ → Type 0
InRange times max = (times ≤ max) × (max < 18446744073709551616)

module _ (r : CountBasedRetry) (ok : InRange r.retry_times r.max_attempts) where
  pub count_attempt-InRange :
      InRange (count_attempt r).0.retry_times (count_attempt r).0.max_attempts
  unfolding count_attempt
  count_attempt-InRange = ground arith

  pub count_granted : (count_attempt r).1 ≡ ltb 0 (r.max_attempts - r.retry_times)
  unfolding count_attempt
  count_granted = ground arith

  pub count_left :
      (count_attempt r).0.max_attempts - (count_attempt r).0.retry_times
      ≡ r.max_attempts - r.retry_times - 1
  unfolding count_attempt
  count_left = ground arith

pub count_total : (r : CountBasedRetry) → (count_attempt r).0.max_attempts ≡ r.max_attempts
unfolding count_attempt
count_total r = ground arith

pub count_reset_full :
    (r : CountBasedRetry)
    → InRange r.retry_times r.max_attempts
    → InRange (count_reset r).retry_times (count_reset r).max_attempts
      × ((count_reset r).max_attempts - (count_reset r).retry_times ≡ r.max_attempts)
unfolding count_reset
count_reset_full r ok = ground arith

abbrev pub count_based : RetryPolicy CountBasedRetry
count_based = record {
  attempt = count_attempt;
  reset = count_reset;
  left = λ r. r.max_attempts - r.retry_times;
  total = λ r. r.max_attempts;
  Ok = λ r. InRange r.retry_times r.max_attempts;
  attempt-Ok = count_attempt-InRange;
  attempt_granted = count_granted;
  left-attempt = count_left;
  total-attempt = count_total;
  reset-Ok = λ r ok. (count_reset_full r ok).0;
  left-reset = λ r ok. (count_reset_full r ok).1;
}

-- After Reset the count based policy grants as many attempts as its limit and no more.
pub granted-count_reset :
    (calls : ℕ) (r : CountBasedRetry)
    → InRange r.retry_times r.max_attempts
    → r.max_attempts ≤ calls
    → granted count_based calls (count_reset r) ≡ r.max_attempts
granted-count_reset calls r ok h = granted-reset count_based calls r ok h

-- The policy that never retries grants one attempt after Reset, however often it is asked.
pub granted-no_retry_reset :
    (calls : ℕ) (n : NoRetryPolicy) → 0 < calls → granted no_retry calls (no_retry_reset n) ≡ 1
granted-no_retry_reset calls n h = granted-reset no_retry calls n tt h

module _ (backoff : ℕ → ℕ) (jitter : ℕ) where
  abbrev pub attempt_of : ExponentialBackoffRetry → ExponentialBackoffRetry × Bool
  attempt_of e = ((backoff_attempt backoff jitter e).0, (backoff_attempt backoff jitter e).1)

  module _ (e : ExponentialBackoffRetry) (ok : InRange e.retry_times e.max_attempts) where
    pub backoff_attempt-InRange : InRange (attempt_of e).0.retry_times (attempt_of e).0.max_attempts
    unfolding backoff_attempt
    backoff_attempt-InRange = ground arith

    pub backoff_granted : (attempt_of e).1 ≡ ltb 0 (e.max_attempts - e.retry_times)
    unfolding backoff_attempt
    backoff_granted = ground arith

    pub backoff_left :
        (attempt_of e).0.max_attempts - (attempt_of e).0.retry_times
        ≡ e.max_attempts - e.retry_times - 1
    unfolding backoff_attempt
    backoff_left = ground arith

  pub backoff_total : (e : ExponentialBackoffRetry) → (attempt_of e).0.max_attempts ≡ e.max_attempts
  unfolding backoff_attempt
  backoff_total e = ground arith

  pub backoff_reset_full :
      (e : ExponentialBackoffRetry)
      → InRange e.retry_times e.max_attempts
      → InRange (backoff_reset e).retry_times (backoff_reset e).max_attempts
        × ((backoff_reset e).max_attempts - (backoff_reset e).retry_times ≡ e.max_attempts)
  unfolding backoff_reset
  backoff_reset_full e ok = ground arith

  abbrev pub exponential_backoff : RetryPolicy ExponentialBackoffRetry
  exponential_backoff = record {
    attempt = attempt_of;
    reset = backoff_reset;
    left = λ e. e.max_attempts - e.retry_times;
    total = λ e. e.max_attempts;
    Ok = λ e. InRange e.retry_times e.max_attempts;
    attempt-Ok = backoff_attempt-InRange;
    attempt_granted = backoff_granted;
    left-attempt = backoff_left;
    total-attempt = backoff_total;
    reset-Ok = λ e ok. (backoff_reset_full e ok).0;
    left-reset = λ e ok. (backoff_reset_full e ok).1;
  }

  -- After Reset the exponential backoff grants as many attempts as its limit and no more.
  pub granted-backoff_reset :
      (calls : ℕ) (e : ExponentialBackoffRetry)
      → InRange e.retry_times e.max_attempts
      → e.max_attempts ≤ calls
      → granted exponential_backoff calls (backoff_reset e) ≡ e.max_attempts
  granted-backoff_reset calls e ok h = granted-reset exponential_backoff calls e ok h

  -- The first attempt does not sleep, and no attempt sleeps longer than the maximal interval and
  -- 99 milliseconds of jitter.
  pub backoff_attempt_bounds :
      (e : ExponentialBackoffRetry) (slept : ℕ)
      → jitter < 100
      → (backoff_attempt backoff jitter e).2 ≡ some slept
      → (0 < e.retry_times) × (slept ≤ e.max_interval + 99 * millisecond)
  unfolding backoff_attempt
  backoff_attempt_bounds e slept h slept_some = ground arith
