-- ===== src/Retry/Tests.antt =====
-- Runs of the retry policies, and their theorems at concrete inputs.
use dubbo_go_pixiu.Prelude.{ℕ, ◌*◌, ◌≡◌, refl, none, some, arith}
use dubbo_go_pixiu.Prelude.Text.{codes}
use dubbo_go_pixiu.Prelude.Int.{pos, negsuc}
use dubbo_go_pixiu.Retry.Policy.{
  CountBasedRetry, ExponentialBackoffRetry, count_reset, millisecond, new_count_based_retry, int,
  string, missing, policy, refused, negative, could_not_parse,
}
use dubbo_go_pixiu.Retry.Budget.{granted, granted-count_reset, count_based}

constructor_tests :
    (new_count_based_retry {Float = ℕ} (λ v. some (pos v)) (λ _. none) missing
      ≡ policy (record { max_attempts = 3; retry_times = 0 }))
    × (new_count_based_retry {Float = ℕ} (λ v. some (pos v)) (λ _. none) (int (negsuc 0))
        ≡ refused negative)
    × (new_count_based_retry {Float = ℕ} (λ v. some (pos v)) (λ _. none) (string (codes "x"))
        ≡ refused could_not_parse)
unfolding new_count_based_retry
constructor_tests = (refl, refl, refl)

abbrev spent : CountBasedRetry
spent = record { max_attempts = 3; retry_times = 3 }

granted-count_reset_example : granted count_based 7 (count_reset spent) ≡ 3
granted-count_reset_example = granted-count_reset 7 spent (omega arith) (omega arith)

abbrev waiting : ExponentialBackoffRetry
waiting = record { max_attempts = 5; max_interval = 5000 * millisecond; retry_times = 2 }
