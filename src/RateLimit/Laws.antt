-- ===== src/RateLimit/Laws.antt =====
-- The counters against the ledger of what was granted.
use voice_call.Base.{
  ℕ, ◌+◌, ◌≤◌, ◌≡◌, refl, sym, ap, subst, ◌∙◌, inl, inr, String, true, false, ◌&&◌, Option, none,
  some, List, [], ◌∷◌, arith, ◌==◌, leb, str_eq, first_where, update_where, if◌then◌else◌,
  Bool-cases, Option-cases, All,
}
use voice_call.RateLimit.{Counter, counter_of, add_cost, upsert, consume_rate_limit, row_verdict}
use voice_call.RateLimit.Ledger.{
  Grant, granted, Request, fits, grant_of, ledger_answers, answers, IsSensible,
}
use voice_call.RateLimit.Counting.{
  count_in, count_in-append, count_in-update_same, count_in-update_other, counter, upsert-absent,
  upsert-present, consume_rate_limit-upsert,
}

abbrev pub Agrees : List Counter → List Grant → Type 0
Agrees counters ledger =
    (key : String) (start : ℕ) → count_in counters key start ≡ granted ledger key start

allowed-same :
    (now limit seconds : ℕ) (count : Option ℕ)
    → (row_verdict now limit seconds count).allowed ≡ (row_verdict 0 limit 1 count).allowed
allowed-same now limit seconds none = refl
allowed-same now limit seconds (some count) = refl

-- What the upsert did, against the ledger: the cost was counted exactly when it fits.
abbrev Simulates : List Grant → Grant → ℕ → List Counter × Option ℕ → Type 0
Simulates ledger g limit out =
    let ok = leb (granted ledger g.key g.start + g.cost) limit in
    ((row_verdict 0 limit 1 out.1).allowed ≡ ok) × Agrees out.0 (if ok then g ∷ ledger else ledger)

module _ (counters : List Counter) (ledger : List Grant) (agrees : Agrees counters ledger) where
  counted-Agrees :
      (g : Grant) (counters' : List Counter)
      → ((key : String) (start : ℕ)
          → count_in counters' key start ≡ (
              if str_eq g.key key && g.start == start
              then count_in counters key start + g.cost
              else count_in counters key start))
      → Agrees counters' (g ∷ ledger)
  unfolding granted
  counted-Agrees g counters' counted key start = counted key start ∙ rw (agrees key start) refl

  updated-Agrees :
      (g : Grant) (c : Counter)
      → first_where (counter_of g.key g.start) counters ≡ some c
      → Agrees (update_where (counter_of g.key g.start) (add_cost g.cost) counters) (g ∷ ledger)
  updated-Agrees g c present = counted-Agrees g _ (λ key start.
      elim (Bool-cases (str_eq g.key key && g.start == start)) [
        | inl same ↦
            count_in-update_same counters g.key g.start g.cost key start c present same
            ∙ rw same refl
        | inr other ↦
            count_in-update_other counters g.key g.start g.cost key start other ∙ rw other refl
      ])

  upsert-Simulates :
      (g : Grant) (limit : ℕ)
      → g.cost ≤ limit
      → Simulates ledger g limit (upsert counters g.key g.start limit g.cost)
  upsert-Simulates g limit payable =
      let known = agrees g.key g.start in
      elim (Option-cases (first_where (counter_of g.key g.start) counters)) [
        | inl absent ↦
            let zero_used : granted ledger g.key g.start ≡ 0 = sym known ∙ rw absent refl in
            let ok : leb (granted ledger g.key g.start + g.cost) limit ≡ true =
              rw zero_used (ground (arith, payable)) in
            subst (Simulates ledger g limit) (sym (upsert-absent counters g limit absent)) (
              sym ok,
              rw ok (
                  counted-Agrees g _ (λ key start.
                    count_in-append counters (counter counters g limit) key start absent)),
            )
        | inr (c, present) ↦
            let so_far : c.count ≡ granted ledger g.key g.start = rw present at known in
            subst (Simulates ledger g limit) (sym (upsert-present counters g limit c present))
              (elim (Bool-cases (leb (granted ledger g.key g.start + g.cost) limit)) [
                | inl ok ↦ rw (so_far, ok) (refl, updated-Agrees g c present)
                | inr full ↦ rw (so_far, full) (refl, agrees)
              ])
      ]

  -- One request to a sensible rule, against the ledger.
  consume_rate_limit-simulates :
      (r : Request)
      → IsSensible r
      → let out = consume_rate_limit true counters r.now r.rule r.subject r.cost in
        (out.1.allowed ≡ fits ledger r)
        × Agrees out.0 (if fits ledger r then grant_of r ∷ ledger else ledger)
  consume_rate_limit-simulates r sensible =
      let (answer, agrees') = upsert-Simulates (grant_of r) r.rule.limit sensible.payable in
      rw
        (consume_rate_limit-upsert counters r
          (ground (arith, sensible.some_limit, sensible.some_window)))
        (allowed-same r.now r.rule.limit r.rule.window_seconds _ ∙ answer, agrees')

-- The limiter keeps its promise. Along any sequence of requests to rules that can be asked at all,
-- while the database answers, the upserts answer as the ledger does: a request is allowed exactly when
-- its cost fits in what the limit of its rule leaves of the grants to its bucket in its window.
pub consume_rate_limit_refines :
    (counters : List Counter) (ledger : List Grant) (rs : List Request)
    → Agrees counters ledger
    → All IsSensible rs
    → answers counters rs ≡ ledger_answers ledger rs
unfolding answers ledger_answers
consume_rate_limit_refines counters ledger [] agrees sensible = refl
consume_rate_limit_refines counters ledger (r ∷ rs) agrees (s, ss) =
    let (answer, agrees') = consume_rate_limit-simulates counters ledger agrees r s in
    let out = consume_rate_limit true counters r.now r.rule r.subject r.cost in
    elim (Bool-cases (fits ledger r)) [
      | inl ok ↦
          rw (answer, ok)
            (ap (λ bs. true ∷ bs)
              (consume_rate_limit_refines out.0 (grant_of r ∷ ledger) rs (rw ok at agrees') ss))
      | inr full ↦
          rw (answer, full)
            (ap (λ bs. false ∷ bs)
              (consume_rate_limit_refines out.0 ledger rs (rw full at agrees') ss))
    ]
