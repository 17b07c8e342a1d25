-- ===== src/RateLimit/Counting.antt =====
-- What the upsert does to the counters.
use voice_call.Base.{
  ℕ, ◌+◌, ◌≡◌, refl, String, true, false, ◌&&◌, ◌||◌, Option, none, some, List, [], ◌∷◌, ◌++◌,
  arith, ◌==◌, leb, str_eq, eq_iff, first_where, update_where, if◌then◌else◌,
}
use voice_call.RateLimit.{
  Counter, counter_of, add_cost, upsert, rate_limit_consume, consume_rate_limit, row_verdict,
}
use voice_call.RateLimit.Ledger.{Grant, Request, grant_of}

abbrev pub count_or_zero : Option Counter → ℕ
count_or_zero none = 0
count_or_zero (some c) = c.count

abbrev pub count_in : List Counter → String → ℕ → ℕ
count_in counters key start = count_or_zero (first_where (counter_of key start) counters)

pub count_in-append :
    (counters : List Counter) (new : Counter) (key : String) (start : ℕ)
    → first_where (counter_of new.bucket_key new.window_start) counters ≡ none
    → count_in (counters ++ new ∷ []) key start ≡ (
        if str_eq new.bucket_key key && new.window_start == start
        then count_in counters key start + new.count
        else count_in counters key start)
unfolding first_where
count_in-append [] new key start fresh = ground arith
count_in-append (c ∷ counters) new key start fresh = ground (
  arith,
  eq_iff c.bucket_key new.bucket_key,
  eq_iff c.bucket_key key,
  eq_iff new.bucket_key key,
  count_in-append counters new key start,
)

pub count_in-update_same :
    (counters : List Counter) (k : String) (s cost : ℕ) (key : String) (start : ℕ) (c : Counter)
    → first_where (counter_of k s) counters ≡ some c
    → (str_eq k key && s == start) ≡ true
    → count_in (update_where (counter_of k s) (add_cost cost) counters) key start
      ≡ count_in counters key start + cost
unfolding first_where update_where
count_in-update_same [] k s cost key start c found same = absurd (cc)
count_in-update_same (x ∷ counters) k s cost key start c found same = ground (
  arith,
  eq_iff x.bucket_key k,
  eq_iff x.bucket_key key,
  eq_iff k key,
  count_in-update_same counters k s cost key start c,
  found,
)

pub count_in-update_other :
    (counters : List Counter) (k : String) (s cost : ℕ) (key : String) (start : ℕ)
    → (str_eq k key && s == start) ≡ false
    → count_in (update_where (counter_of k s) (add_cost cost) counters) key start
      ≡ count_in counters key start
unfolding first_where update_where
count_in-update_other [] k s cost key start other = refl
count_in-update_other (x ∷ counters) k s cost key start other = ground (
  arith,
  eq_iff x.bucket_key k,
  eq_iff x.bucket_key key,
  eq_iff k key,
  count_in-update_other counters k s cost key start other,
)

module _ (counters : List Counter) (g : Grant) (limit : ℕ) where
  abbrev pub counter : Counter
  counter = record { bucket_key = g.key; window_start = g.start; count = g.cost }

  pub upsert-absent :
      first_where (counter_of g.key g.start) counters ≡ none
      → upsert counters g.key g.start limit g.cost ≡ (counters ++ counter ∷ [], some g.cost)
  unfolding upsert
  upsert-absent absent = rw (absent, upsert) refl

  pub upsert-present :
      (c : Counter)
      → first_where (counter_of g.key g.start) counters ≡ some c
      → upsert counters g.key g.start limit g.cost ≡ (
          if leb (c.count + g.cost) limit
          then (
            update_where (counter_of g.key g.start) (add_cost g.cost) counters,
            some (c.count + g.cost),
          )
          else (counters, none))
  unfolding upsert
  upsert-present c present = rw (present, upsert) refl

pub consume_rate_limit-upsert :
    (counters : List Counter) (r : Request)
    → (r.rule.limit == 0 || r.rule.window_seconds == 0) ≡ false
    → let g = grant_of r in
      let written = upsert counters g.key g.start r.rule.limit r.cost in
      consume_rate_limit true counters r.now r.rule r.subject r.cost
      ≡ (written.0, row_verdict r.now r.rule.limit r.rule.window_seconds written.1)
unfolding consume_rate_limit rate_limit_consume
consume_rate_limit-upsert counters r positive = rw (positive, rate_limit_consume) refl
