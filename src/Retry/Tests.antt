-- ===== src/Retry/Tests.antt =====
-- Runs of the ladder and of the backoff, and the results at concrete inputs.
use voice_call.Base.{◌+◌, ◌*◌, ◌<◌, ◌≡◌, refl, ◌↔◌, false, none, ltb, holds, arith}
use voice_call.Fixtures.{plain_config}
use voice_call.Retry.{
  CallOutcome, retry, stop, default_retry_policy, retry_policy_from_config, decide_retry,
  delay_minutes, rung, backoff_delay_ms, max_attempts_reached,
}
use voice_call.Retry.Decisions.{IsRetryable, wait_minutes, decide_retry-retry_iff}

second_attempt :
    decide_retry CallOutcome.no_answer 1 default_retry_policy none 1000
    ≡ retry 901000 2 CallOutcome.no_answer
unfolding decide_retry delay_minutes rung
second_attempt = refl

no_fourth_attempt :
    decide_retry CallOutcome.busy 3 default_retry_policy none 1000 ≡ stop max_attempts_reached
unfolding decide_retry
no_fourth_attempt = refl

decide_retry-retry_iff_example :
    (decide_retry CallOutcome.no_answer 1 default_retry_policy none 1000
      ≡ retry 901000 2 CallOutcome.no_answer)
    ↔ ((holds (ltb 1000) none ≡ false)
        × IsRetryable CallOutcome.no_answer
        × (1 < default_retry_policy.max_attempts)
        × (901000 ≡ 1000 + wait_minutes CallOutcome.no_answer 1 default_retry_policy * 60000)
        × (2 ≡ 1 + 1)
        × (CallOutcome.no_answer ≡ CallOutcome.no_answer))
decide_retry-retry_iff_example =
    decide_retry-retry_iff CallOutcome.no_answer 1 default_retry_policy none 1000 901000 2
      CallOutcome.no_answer (omega arith)

configured_retry :
    decide_retry CallOutcome.failed 2 (retry_policy_from_config plain_config) none 1000
    ≡ retry 7201000 3 CallOutcome.failed
unfolding decide_retry retry_policy_from_config delay_minutes rung
configured_retry = refl

third_backoff : backoff_delay_ms 3 1000 900000 0 ≡ 3400
unfolding backoff_delay_ms
third_backoff = refl
