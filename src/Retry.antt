-- ===== src/Retry.antt =====
-- lib/calling/retry.ts: what happens to a lead after a call, and the backoff of a failed request.
-- `now` is the caller's clock. Math.random() is a multiple of 2^-53: `draw` is its numerator, and
-- the backoff is computed on exact fractions where the source computes on doubles.
pub mod Decisions
pub mod Backoff
mod Tests
use voice_call.Base.{
  ℕ, zero, suc, ◌+◌, ◌-◌, ◌*◌, ◌/◌, ◌^◌, min, Bool, true, false, Option, none, some, List, [], ◌∷◌,
  ltb, leb, if◌then◌else◌, get_or, get_elem?, select_where, length, holds,
}
use voice_call.Schema.{CallingConfig}

pub data CallOutcome : Type 0 where
  completed no_answer busy failed canceled do_not_call : CallOutcome

pub record RetryPolicy : Type 0 where
  pub max_attempts : ℕ
  pub retry_minutes : List ℕ
  pub busy_retry_minutes : ℕ

pub data StopReason : Type 0 where
  max_attempts_reached do_not_call completed terminal : StopReason

pub data RetryDecision : Type 0 where
  retry : (next_call_at attempt_no : ℕ) → CallOutcome → RetryDecision
  callback : (next_call_at : ℕ) → RetryDecision
  stop : StopReason → RetryDecision

abbrev pub default_retry_policy : RetryPolicy
default_retry_policy = record {
  max_attempts = 3;
  retry_minutes = 15 ∷ 120 ∷ 1440 ∷ [];
  busy_retry_minutes = 15;
}

-- `xs.length > 0 ? xs : ys`
abbrev or_if_empty : List ℕ → List ℕ → List ℕ
or_if_empty [] ys = ys
or_if_empty (x ∷ xs) ys = x ∷ xs

-- The configured ladder without its zeros; a config without the key has the default one.
abbrev configured_minutes : Option (List ℕ) → List ℕ
configured_minutes none = default_retry_policy.retry_minutes
configured_minutes (some minutes) = select_where (ltb 0) minutes

unfoldable pub retry_policy_from_config : CallingConfig → RetryPolicy
retry_policy_from_config config = record {
  max_attempts = get_or config.max_attempts default_retry_policy.max_attempts;
  retry_minutes =
      or_if_empty (configured_minutes config.retry_minutes) default_retry_policy.retry_minutes;
  busy_retry_minutes = get_or config.busy_retry_minutes default_retry_policy.busy_retry_minutes;
}

-- minutes[min(attempts - 1, length - 1)]: with no attempt made the index is -1, which no array has.
rung : List ℕ → ℕ → Option ℕ
rung minutes zero = none
rung minutes (suc made) = get_elem? minutes (min made (length minutes - 1))

last : List ℕ → Option ℕ
last minutes = get_elem? minutes (length minutes - 1)

abbrev is_busy : CallOutcome → Bool
is_busy CallOutcome.busy = true
is_busy _ = false

pub delay_minutes : CallOutcome → ℕ → RetryPolicy → ℕ
delay_minutes outcome made policy =
    if is_busy outcome
    then policy.busy_retry_minutes
    else get_or (rung policy.retry_minutes made) (get_or (last policy.retry_minutes) 60)

abbrev pub minute : ℕ
minute = 60000

-- The attempt cap and the ladder, for an outcome that may be tried again.
climb : CallOutcome → ℕ → RetryPolicy → ℕ → RetryDecision
climb outcome made policy now =
    if leb policy.max_attempts made
    then stop max_attempts_reached
    else retry (now + delay_minutes outcome made policy * minute) (made + 1) outcome

after_outcome : CallOutcome → ℕ → RetryPolicy → ℕ → RetryDecision
after_outcome CallOutcome.do_not_call made policy now = stop StopReason.do_not_call
after_outcome CallOutcome.completed made policy now = stop StopReason.completed
after_outcome CallOutcome.canceled made policy now = stop terminal
after_outcome CallOutcome.no_answer made policy now = climb CallOutcome.no_answer made policy now
after_outcome CallOutcome.busy made policy now = climb CallOutcome.busy made policy now
after_outcome CallOutcome.failed made policy now = climb CallOutcome.failed made policy now

unfoldable pub decide_retry : CallOutcome → ℕ → RetryPolicy → Option ℕ → ℕ → RetryDecision
unfolding after_outcome climb
decide_retry outcome made policy none now = after_outcome outcome made policy now
decide_retry outcome made policy (some at) now =
    if ltb now at then callback at else after_outcome outcome made policy now

abbrev random_scale : ℕ
random_scale = 2 ^ 53

pub exponential_ms : ℕ → ℕ → ℕ → ℕ
exponential_ms attempt base_ms max_ms = min max_ms (base_ms * 2 ^ (attempt - 1))

-- Math.round(e - 0.15 e + 0.3 e draw / 2^53), over the denominator 100 * 2^53.
jittered : ℕ → ℕ → ℕ
jittered e draw =
    (2 * (85 * (e * random_scale) + 30 * (e * draw)) + 100 * random_scale) / (200 * random_scale)

unfoldable pub backoff_delay_ms : ℕ → ℕ → ℕ → ℕ → ℕ
unfolding jittered exponential_ms
backoff_delay_ms attempt base_ms max_ms draw = jittered (exponential_ms attempt base_ms max_ms) draw

-- The defaults of `baseMs` and `maxMs`.
abbrev pub default_base_ms : ℕ
default_base_ms = 1000

abbrev pub default_max_ms : ℕ
default_max_ms = 900000
