-- ===== src/RateLimit/Tests.antt =====
-- Six sign-ins in a minute, of which the sixth is denied for its account.
use voice_call.Base.{
  ℕ, ◌≡◌, refl, true, false, none, some, List, [], ◌∷◌, ◌++◌, arith, first_where, update_where, map,
  All,
}
use voice_call.RateLimit.{
  Counter, RateLimitVerdict, Check, consume_rate_limit, consume_all, rate_limit_consume, upsert,
  login_per_ip, login_per_email,
}
use voice_call.RateLimit.Ledger.{granted, Request, ledger_answers, answers, IsSensible}
use voice_call.RateLimit.Laws.{consume_rate_limit_refines}
use voice_call.RateLimit.Order.{IsDenied, consume_all_stops}

abbrev sign_in : ℕ → Request
sign_in now = record { now = now; rule = login_per_email; subject = "a@b.c"; cost = 1 }

abbrev sign_in-IsSensible : (now : ℕ) → IsSensible (sign_in now)
sign_in-IsSensible now = record {
  some_limit = omega arith;
  some_window = omega arith;
  payable = omega arith;
}

abbrev times : List ℕ
times = 1000 ∷ 2000 ∷ 3000 ∷ 4000 ∷ 5000 ∷ 6000 ∷ 300000 ∷ []

abbrev sign_ins : List Request
sign_ins = map sign_in times

All-IsSensible : (ns : List ℕ) → All IsSensible (map sign_in ns)
All-IsSensible [] = tt
All-IsSensible (n ∷ ns) = (sign_in-IsSensible n, All-IsSensible ns)

sign_ins-ledger_answers :
    ledger_answers [] sign_ins ≡ (true ∷ true ∷ true ∷ true ∷ true ∷ false ∷ true ∷ [])
unfolding ledger_answers granted
sign_ins-ledger_answers = refl

consume_rate_limit_refines_example : answers [] sign_ins ≡ ledger_answers [] sign_ins
unfolding first_where granted
consume_rate_limit_refines_example =
    consume_rate_limit_refines [] [] sign_ins (λ key start. refl) (All-IsSensible times)

abbrev by_address : Check
by_address = record { rule = login_per_ip; subject = "10.0.0.1"; cost = none }

abbrev by_account : Check
by_account = record { rule = login_per_email; subject = "a@b.c"; cost = none }

-- The account has used its five.
abbrev spent : List Counter
spent = record { bucket_key = "login:email:a@b.c"; window_start = 0; count = 5 } ∷ []

abbrev one_by_address : Counter
one_by_address = record { bucket_key = "login:ip:10.0.0.1"; window_start = 0; count = 1 }

abbrev wait_299 : RateLimitVerdict
wait_299 = record { allowed = false; remaining = 0; retry_after_seconds = 299 }

sign_in-denied :
    consume_all true spent 1000 (by_address ∷ by_account ∷ [])
    ≡ (spent ++ one_by_address ∷ [], some (wait_299, login_per_email))
unfolding consume_all consume_rate_limit rate_limit_consume upsert first_where update_where
sign_in-denied = refl

consume_all_stops_example :
    (true ≡ true)
    × IsDenied true spent 1000
        (by_address ∷ by_account ∷ [])
        (spent ++ one_by_address ∷ [])
        wait_299
        login_per_email
consume_all_stops_example =
    consume_all_stops true spent 1000 (by_address ∷ by_account ∷ []) (spent ++ one_by_address ∷ [])
      wait_299 login_per_email sign_in-denied
