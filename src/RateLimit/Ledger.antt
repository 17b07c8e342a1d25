-- ===== src/RateLimit/Ledger.antt =====
-- The specification of the limiter: a ledger of what was granted, with the requests and their answers.
use voice_call.Base.{
  ℕ, ◌+◌, ◌≤◌, ◌<◌, String, Bool, true, false, ◌&&◌, List, [], ◌∷◌, ◌==◌, leb, str_eq,
  if◌then◌else◌,
}
use voice_call.RateLimit.{Counter, RateLimitRule, window_start_of, bucket, consume_rate_limit}

-- What the limiter promises: a ledger of the costs that were granted, and no row per window.
pub record Grant : Type 0 where
  pub key : String
  pub start : ℕ
  pub cost : ℕ

unfoldable pub granted : List Grant → String → ℕ → ℕ
granted [] key start = 0
granted (g ∷ gs) key start =
    let rest = granted gs key start in
    if str_eq g.key key && g.start == start then rest + g.cost else rest

pub record Request : Type 0 where
  pub now : ℕ
  pub rule : RateLimitRule
  pub subject : String
  pub cost : ℕ

abbrev pub used : List Grant → Request → ℕ
used ledger r =
    granted ledger (bucket r.rule r.subject) (window_start_of r.now r.rule.window_seconds)

-- A request is granted when it fits in what the window has left.
abbrev pub fits : List Grant → Request → Bool
fits ledger r = leb (used ledger r + r.cost) r.rule.limit

abbrev pub grant_of : Request → Grant
grant_of r = record {
  key = bucket r.rule r.subject;
  start = window_start_of r.now r.rule.window_seconds;
  cost = r.cost;
}

unfoldable pub ledger_answers : List Grant → List Request → List Bool
ledger_answers ledger [] = []
ledger_answers ledger (r ∷ rs) =
    let after = ledger_answers (grant_of r ∷ ledger) rs in
    let as_before = ledger_answers ledger rs in
    if fits ledger r then true ∷ after else false ∷ as_before

-- The answers of the limiter to a sequence of requests.
unfoldable pub answers : List Counter → List Request → List Bool
answers counters [] = []
answers counters (r ∷ rs) =
    let out = consume_rate_limit true counters r.now r.rule r.subject r.cost in
    out.1.allowed ∷ answers out.0 rs

-- A rule that can be asked at all: a positive limit and window, and a cost that it can ever meet.
pub record IsSensible (r : Request) : Type 0 where
  pub some_limit : 0 < r.rule.limit
  pub some_window : 0 < r.rule.window_seconds
  pub payable : r.cost ≤ r.rule.limit
