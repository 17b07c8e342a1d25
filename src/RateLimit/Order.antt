-- ===== src/RateLimit/Order.antt =====
-- Several rules in their order, and what a denial leaves behind.
use voice_call.Base.{
  ℕ, ◌+◌, ◌≤◌, ◌≡◌, refl, ap, ◌∙◌, inl, inr, Bool, true, false, not, ◌&&◌, ◌||◌, none, some, List,
  [], ◌∷◌, ◌++◌, arith, ◌==◌, leb, first_where, get_or, Bool-cases, Option-cases,
}
use voice_call.RateLimit.{
  Counter, RateLimitRule, RateLimitVerdict, Check, counter_of, upsert, rate_limit_consume,
  consume_rate_limit, consume_all, open_verdict, row_verdict,
}
use voice_call.RateLimit.Ledger.{Grant, Request, grant_of}
use voice_call.RateLimit.Counting.{upsert-absent, upsert-present, consume_rate_limit-upsert}

-- A denial counts nothing, and tells to wait.
upsert-denied :
    (counters : List Counter) (now seconds : ℕ) (g : Grant) (limit : ℕ)
    → let out = upsert counters g.key g.start limit g.cost in
      (row_verdict now limit seconds out.1).allowed ≡ false → out ≡ (counters, none)
upsert-denied counters now seconds g limit denied =
    elim (Option-cases (first_where (counter_of g.key g.start) counters)) [
      | inl absent ↦ absurd (cc (rw (upsert-absent counters g limit absent) at denied))
      | inr (c, present) ↦
          let e = upsert-present counters g limit c present in
          elim (Bool-cases (leb (c.count + g.cost) limit)) [
            | inl ok ↦ absurd (cc (rw (e, ok) at denied))
            | inr full ↦ e ∙ rw full refl
          ]
    ]

consume_rate_limit-open :
    (up : Bool) (counters : List Counter) (r : Request)
    → (up && not (r.rule.limit == 0 || r.rule.window_seconds == 0)) ≡ false
    → consume_rate_limit up counters r.now r.rule r.subject r.cost ≡ (counters, open_verdict r.rule)
unfolding consume_rate_limit rate_limit_consume
consume_rate_limit-open false counters r closed = refl
consume_rate_limit-open true counters r closed =
    let broken : (r.rule.limit == 0 || r.rule.window_seconds == 0) ≡ true =
      ground (arith, closed) in
    rw (broken, rate_limit_consume) refl

consume_rate_limit-denied :
    (up : Bool) (counters : List Counter) (r : Request)
    → let out = consume_rate_limit up counters r.now r.rule r.subject r.cost in
      out.1.allowed ≡ false → (up ≡ true) × (out.0 ≡ counters) × (1 ≤ out.1.retry_after_seconds)
consume_rate_limit-denied false counters r denied =
    absurd (cc (rw (consume_rate_limit-open false counters r refl) at denied))
consume_rate_limit-denied true counters r denied =
    elim (Bool-cases (r.rule.limit == 0 || r.rule.window_seconds == 0)) [
      | inl broken ↦
          absurd (cc (rw (consume_rate_limit-open true counters r (rw broken refl)) at denied))
      | inr positive ↦
          let e = consume_rate_limit-upsert counters r positive in
          let full =
            upsert-denied counters r.now r.rule.window_seconds (grant_of r) r.rule.limit
              (rw e at denied) in
          rw (e, full) (refl, refl, omega arith)
    ]

abbrev pub request_for : ℕ → Check → Request
request_for now check = record {
  now = now;
  rule = check.rule;
  subject = check.subject;
  cost = get_or check.cost 1;
}

-- A denial by one of several rules: those before it allowed the request, and what they counted is
-- all that was counted.
pub record IsDenied (up : Bool) (counters : List Counter) (now : ℕ) (checks : List Check)
    (counters' : List Counter) (verdict : RateLimitVerdict) (rule : RateLimitRule) : Type 0 where
  pub before : List Check
  pub check : Check
  pub behind : List Check
  pub split : checks ≡ before ++ check ∷ behind
  pub passed : consume_all up counters now before ≡ (counters', none)
  pub by : check.rule ≡ rule
  pub denied :
      (consume_rate_limit up counters' now rule check.subject (get_or check.cost 1)).1 ≡ verdict
  pub waits : 1 ≤ verdict.retry_after_seconds

-- Rules in their order: when consumeAll answers with a denial, the database was up, every rule before
-- the one it names had allowed the request, the counters are as those rules left them, so that
-- neither the denying rule nor any behind it has counted the request, and the caller is told to wait
-- for at least a second.
pub consume_all_stops :
    (up : Bool) (counters : List Counter) (now : ℕ) (checks : List Check) (counters' : List Counter)
    (verdict : RateLimitVerdict) (rule : RateLimitRule)
    → consume_all up counters now checks ≡ (counters', some (verdict, rule))
    → (up ≡ true) × IsDenied up counters now checks counters' verdict rule
unfolding consume_all
consume_all_stops up counters now [] counters' verdict rule e = absurd (cc)
consume_all_stops up counters now (c ∷ cs) counters' verdict rule e =
    let r = consume_rate_limit up counters now c.rule c.subject (get_or c.cost 1) in
    elim (Bool-cases r.1.allowed) [
      | inl ok ↦
          let (is_up, h) = consume_all_stops up r.0 now cs counters' verdict rule (rw ok at e) in
          (
            is_up,
            record {
              before = c ∷ h.before;
              check = h.check;
              behind = h.behind;
              split = ap (λ xs. c ∷ xs) h.split;
              passed = rw ok h.passed;
              by = h.by;
              denied = h.denied;
              waits = h.waits;
            },
          )
      | inr denied ↦
          let (is_up, same, waits) =
            consume_rate_limit-denied up counters (request_for now c) denied in
          let ends : (r.0, some (r.1, c.rule)) ≡ (counters', some (verdict, rule)) =
            rw denied at e in
          let left : counters ≡ counters' = cc (same, ends) in
          let gave : r.1 ≡ verdict = cc ends in
          let by : c.rule ≡ rule = cc ends in
          (
            is_up,
            record {
              before = [];
              check = c;
              behind = cs;
              split = refl;
              passed = ap (λ x. (x, none)) left;
              by = by;
              denied = rw (← left, ← by) gave;
              waits = rw (← gave) waits;
            },
          )
    ]
