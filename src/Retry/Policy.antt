-- ===== src/Retry/Policy.antt =====
-- The policies of pkg/cluster/retry/{noretry,countbased,exponentialbackoff} and their constructors.
-- `strconv.Atoi` and the float operations are parameters.
use dubbo_go_pixiu.Prelude.{
  ℕ, ◌+◌, ◌-◌, ◌*◌, ◌%◌, Bool, true, false, not, Option, none, some, ltb, leb, if◌then◌else◌,
}
use dubbo_go_pixiu.Prelude.Text.{Text}
use dubbo_go_pixiu.Prelude.Int.{ℤ, pos, negsuc}

-- `uint` is 64 bits wide.
abbrev pub u64 : ℕ → ℕ
u64 n = n % 18446744073709551616

-- `NoRetryPolicy`.
pub record NoRetryPolicy : Type 0 where
  pub first_time : Bool

unfoldable pub no_retry_attempt : NoRetryPolicy → NoRetryPolicy × Bool
no_retry_attempt n = if not n.first_time then (record n { first_time = true }, true) else (n, false)

unfoldable pub no_retry_reset : NoRetryPolicy → NoRetryPolicy
no_retry_reset n = record n { first_time = false }

abbrev pub new_no_retry_policy : NoRetryPolicy
new_no_retry_policy = record { first_time = false }

-- `CountBasedRetry`.
pub record CountBasedRetry : Type 0 where
  pub max_attempts : ℕ
  pub retry_times : ℕ

unfoldable pub count_attempt : CountBasedRetry → CountBasedRetry × Bool
count_attempt r =
    if ltb r.retry_times r.max_attempts
    then (record r { retry_times = u64 (r.retry_times + 1) }, true)
    else (r, false)

unfoldable pub count_reset : CountBasedRetry → CountBasedRetry
count_reset r = record r { retry_times = 0 }

-- `config["times"]`, by the cases of the type switch.
pub data TimesValue (Float : Type 0) : Type 0 where
  missing : TimesValue Float
  int : ℤ → TimesValue Float
  float64 : Float → TimesValue Float
  string : Text → TimesValue Float
  other : TimesValue Float

pub data ConfigError : Type 0 where
  invalid_float could_not_parse invalid_type negative : ConfigError

pub data NewRetry : Type 0 where
  policy : CountBasedRetry → NewRetry
  refused : ConfigError → NewRetry

abbrev pub default_retry_times : ℕ
default_retry_times = 2

-- The sign test, and `uint(times) + 1`.
abbrev pub with_times : ℤ → NewRetry
with_times (pos times) = policy (record { max_attempts = u64 (times + 1); retry_times = 0 })
with_times (negsuc _) = refused negative

-- `atoi` is `strconv.Atoi`; `whole v` is `int(v)` if `v` is a whole number.
module _ {Float : Type 0} (whole : Float → Option ℤ) (atoi : Text → Option ℤ) where
  unfoldable pub new_count_based_retry : TimesValue Float → NewRetry
  new_count_based_retry missing = with_times (pos default_retry_times)
  new_count_based_retry (int v) = with_times v
  new_count_based_retry (float64 v) = elim (whole v) [
    | none ↦ refused invalid_float
    | some times ↦ with_times times
  ]
  new_count_based_retry (string v) = elim (atoi v) [
    | none ↦ refused could_not_parse
    | some times ↦ with_times times
  ]
  new_count_based_retry other = refused invalid_type

-- `ExponentialBackoffRetry`; durations are nanoseconds. `Multiplier` stands in `backoff` below.
pub record ExponentialBackoffRetry : Type 0 where
  pub max_attempts : ℕ
  pub max_interval : ℕ
  pub retry_times : ℕ

abbrev pub millisecond : ℕ
millisecond = 1000000

-- `backoff n` is `float64(InitialInterval) * math.Pow(Multiplier, n)`, and `jitter` what
-- `rand.Intn(100)` returns. The result has the time slept, if the call sleeps.
module _ (backoff : ℕ → ℕ) (jitter : ℕ) where
  abbrev pub capped_backoff : ExponentialBackoffRetry → ℕ
  capped_backoff e =
      let wait = backoff (e.retry_times - 1) in
      if leb wait e.max_interval then wait else e.max_interval

  unfoldable pub backoff_attempt :
      ExponentialBackoffRetry → ExponentialBackoffRetry × Bool × Option ℕ
  backoff_attempt e = if leb e.max_attempts e.retry_times then (e, false, none) else (
    record e { retry_times = u64 (e.retry_times + 1) },
    true,
    (if ltb 0 e.retry_times then some (capped_backoff e + jitter * millisecond) else none),
  )

unfoldable pub backoff_reset : ExponentialBackoffRetry → ExponentialBackoffRetry
backoff_reset e = record e { retry_times = 0 }
