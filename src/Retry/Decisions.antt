-- ===== src/Retry/Decisions.antt =====
-- When a lead is tried again, and when.
use voice_call.Base.{
  ℕ, zero, suc, ◌+◌, ◌-◌, ◌*◌, ◌≤◌, ◌<◌, min, ◌≡◌, refl, ap, sym, ◌∙◌, subst, ◌⊎◌, ◌↔◌, false,
  Option, none, some, List, [], ◌∷◌, arith, ltb, get_or, get_elem?, length, All, All-get_elem?, ◌≢◌,
  ltb→lt, All-select_where, holds,
}
use voice_call.Schema.{CallingConfig}
use voice_call.Retry.{
  CallOutcome, RetryPolicy, retry, callback, retry_policy_from_config, rung, last, delay_minutes,
  minute, decide_retry, is_busy, or_if_empty, configured_minutes,
}

-- The outcomes that may be tried again.
abbrev pub IsRetryable : CallOutcome → Type 0
IsRetryable outcome =
    (outcome ≡ CallOutcome.no_answer)
    ⊎ (outcome ≡ CallOutcome.busy)
    ⊎ (outcome ≡ CallOutcome.failed)

abbrev IsDue : Option ℕ → ℕ → Type 0
IsDue at now = holds (ltb now) at ≡ false

pub decide_retry-retry_lem :
    (outcome : CallOutcome) (made : ℕ) (policy : RetryPolicy) (at : Option ℕ) (now t n : ℕ)
    (why : CallOutcome)
    → (decide_retry outcome made policy at now ≡ retry t n why) ↔ (
        (holds (ltb now) at ≡ false)
        × IsRetryable outcome
        × (made < policy.max_attempts)
        × (t ≡ now + delay_minutes outcome made policy * minute)
        × (n ≡ made + 1)
        × (why ≡ outcome))
unfolding decide_retry
decide_retry-retry_lem outcome made policy none now t n why = ground arith
decide_retry-retry_lem outcome made policy (some at) now t n why = ground arith

-- The rungs of a ladder: the wait after each attempt, and the last one from then on.
abbrev pub rung_after : ℕ → List ℕ → ℕ → ℕ
rung_after m [] k = m
rung_after m (next ∷ rest) zero = m
rung_after m (next ∷ rest) (suc k) = rung_after next rest k

abbrev pub ladder_minutes : List ℕ → ℕ → ℕ
ladder_minutes [] made = 60
ladder_minutes (first ∷ rest) made = rung_after first rest (made - 1)

-- The wait in minutes after the given number of attempts: a busy line has its own; a ladder gives its
-- first rung after one attempt, its second after two, and so on; without a ladder it is an hour.
abbrev pub wait_minutes : CallOutcome → ℕ → RetryPolicy → ℕ
wait_minutes CallOutcome.busy made policy = policy.busy_retry_minutes
wait_minutes outcome made policy = ladder_minutes policy.retry_minutes made

suc_pred : (k : ℕ) → suc k - 1 ≡ k
suc_pred k = omega arith

min_zero : (k : ℕ) → min k 0 ≡ 0
min_zero k = omega arith

zero_min : (k : ℕ) → min 0 k ≡ 0
zero_min k = omega arith

min-suc : (k n : ℕ) → min (suc k) (suc n) ≡ suc (min k n)
min-suc k n = omega arith

get_elem?-rung_after :
    (m : ℕ) (rest : List ℕ) (k : ℕ)
    → get_elem? (m ∷ rest) (min k (length rest)) ≡ some (rung_after m rest k)
get_elem?-rung_after m [] k = ap (get_elem? (m ∷ [])) (min_zero k)
get_elem?-rung_after m (next ∷ rest) zero =
    ap (get_elem? (m ∷ next ∷ rest)) (zero_min (suc (length rest)))
get_elem?-rung_after m (next ∷ rest) (suc k) =
    ap (get_elem? (m ∷ next ∷ rest)) (min-suc k (length rest)) ∙ get_elem?-rung_after next rest k

ladder_minutes_lem :
    (ladder : List ℕ) (k : ℕ)
    → get_or (rung ladder (suc k)) (get_or (last ladder) 60) ≡ ladder_minutes ladder (suc k)
unfolding rung last
ladder_minutes_lem [] k = refl
ladder_minutes_lem (first ∷ rest) k =
    let rung_k : rung (first ∷ rest) (suc k) ≡ some (rung_after first rest k) =
      ap (λ n. get_elem? (first ∷ rest) (min k n)) (suc_pred (length rest))
      ∙ get_elem?-rung_after first rest k in
    ap (λ o. get_or o (get_or (last (first ∷ rest)) 60)) rung_k
    ∙ ap (rung_after first rest) (sym (suc_pred k))

-- The delay of the code is the wait of the ladder.
delay_minutes-wait_minutes :
    (outcome : CallOutcome) (made : ℕ) (policy : RetryPolicy)
    → 0 < made
    → delay_minutes outcome made policy ≡ wait_minutes outcome made policy
unfolding delay_minutes
delay_minutes-wait_minutes outcome zero policy called = absurd (omega (arith, called))
delay_minutes-wait_minutes CallOutcome.busy (suc k) policy called = refl
delay_minutes-wait_minutes CallOutcome.no_answer (suc k) policy called =
    ladder_minutes_lem policy.retry_minutes k
delay_minutes-wait_minutes CallOutcome.failed (suc k) policy called =
    ladder_minutes_lem policy.retry_minutes k
delay_minutes-wait_minutes CallOutcome.completed (suc k) policy called =
    ladder_minutes_lem policy.retry_minutes k
delay_minutes-wait_minutes CallOutcome.canceled (suc k) policy called =
    ladder_minutes_lem policy.retry_minutes k
delay_minutes-wait_minutes CallOutcome.do_not_call (suc k) policy called =
    ladder_minutes_lem policy.retry_minutes k

-- A retry is decided exactly when no callback lies in the future, the outcome may be tried again
-- and attempts are left; it then is the next attempt, for the same reason, after the wait that the
-- ladder has for the attempts made, of which there is at least one.
pub decide_retry-retry_iff :
    (outcome : CallOutcome) (made : ℕ) (policy : RetryPolicy) (at : Option ℕ) (now t n : ℕ)
    (why : CallOutcome)
    → 0 < made
    → (decide_retry outcome made policy at now ≡ retry t n why) ↔ (
        (holds (ltb now) at ≡ false)
        × IsRetryable outcome
        × (made < policy.max_attempts)
        × (t ≡ now + wait_minutes outcome made policy * 60000)
        × (n ≡ made + 1)
        × (why ≡ outcome))
decide_retry-retry_iff outcome made policy at now t n why called =
    subst
      (λ (m : ℕ). (decide_retry outcome made policy at now ≡ retry t n why) ↔ (
        (holds (ltb now) at ≡ false)
        × IsRetryable outcome
        × (made < policy.max_attempts)
        × (t ≡ now + m * 60000)
        × (n ≡ made + 1)
        × (why ≡ outcome)))
      (delay_minutes-wait_minutes outcome made policy called)
      (decide_retry-retry_lem outcome made policy at now t n why)

-- A callback that the lead asked for, at a time still to come, is kept whatever the outcome of the
-- call and the attempts made; and only such a time is ever scheduled as a callback.
pub decide_retry-callback_iff :
    (outcome : CallOutcome) (made : ℕ) (policy : RetryPolicy) (at : Option ℕ) (now t : ℕ)
    → (decide_retry outcome made policy at now ≡ callback t) ↔ ((at ≡ some t) × (now < t))
unfolding decide_retry
decide_retry-callback_iff outcome made policy none now t = ground arith
decide_retry-callback_iff outcome made policy (some at) now t = ground arith

abbrev Positive : List ℕ → Type 0
Positive = All (λ m. 0 < m)

get_or-pos : (o : Option ℕ) (d : ℕ) → ((m : ℕ) → o ≡ some m → 0 < m) → 0 < d → 0 < get_or o d
get_or-pos none d h k = k
get_or-pos (some m) d h k = h m refl

rung-pos : (xs : List ℕ) (made m : ℕ) → Positive xs → rung xs made ≡ some m → 0 < m
unfolding rung
rung-pos xs zero m h e = cc
rung-pos xs (suc k) m h e = All-get_elem? (λ m. 0 < m) xs (min k (length xs - 1)) h e

delay-pos :
    (outcome : CallOutcome) (made : ℕ) (policy : RetryPolicy)
    → Positive policy.retry_minutes
    → is_busy outcome ≡ false
    → 0 < delay_minutes outcome made policy
unfolding delay_minutes last
delay-pos outcome made policy h e =
    let xs = policy.retry_minutes in
    rw e (
      get_or-pos (rung xs made) _ (λ m. rung-pos xs made m h)
        (get_or-pos (last xs) 60 (λ m. All-get_elem? (λ m. 0 < m) xs (length xs - 1) h)
          (omega arith)))

or_if_empty-Positive : (xs ys : List ℕ) → Positive xs → Positive ys → Positive (or_if_empty xs ys)
or_if_empty-Positive [] ys h k = k
or_if_empty-Positive (x ∷ xs) ys h k = h

configured_minutes-Positive : (o : Option (List ℕ)) → Positive (configured_minutes o)
configured_minutes-Positive none = omega arith
configured_minutes-Positive (some xs) =
    All-select_where (λ m. 0 < m) (ltb 0) xs (λ m h. ltb→lt 0 m h)

-- The ladder of a stored config has no empty rung.
retry_policy-Positive :
    (config : CallingConfig) → Positive (retry_policy_from_config config).retry_minutes
unfolding retry_policy_from_config
retry_policy-Positive config =
    or_if_empty-Positive (configured_minutes config.retry_minutes) _
      (configured_minutes-Positive config.retry_minutes) (omega arith)

-- With the policy of a stored config, a retry of a call that was not busy waits at least a minute.
pub decide_retry_waits :
    (outcome : CallOutcome) (made : ℕ) (config : CallingConfig) (at : Option ℕ) (now t n : ℕ)
    (why : CallOutcome)
    → decide_retry outcome made (retry_policy_from_config config) at now ≡ retry t n why
    → why ≢ CallOutcome.busy
    → now + minute ≤ t
decide_retry_waits outcome made config at now t n why e h =
    let policy = retry_policy_from_config config in
    let facts = (decide_retry-retry_lem outcome made policy at now t n why).0 e in
    ground (arith, facts, delay-pos outcome made policy (retry_policy-Positive config))
