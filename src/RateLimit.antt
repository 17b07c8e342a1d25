-- ===== src/RateLimit.antt =====
-- lib/ratelimit.ts, with app.rate_limit_consume and app.rate_limit_gc of the migration 0011 that it
-- stands on: request counters in fixed windows, for the endpoints that do not know their caller yet.
mod Ledger
mod Counting
mod Laws
mod Order
mod Tests
use voice_call.Base.{
  ℕ, ◌+◌, ◌-◌, ◌*◌, ◌/◌, ◌<◌, max, String, Bool, true, false, not, ◌&&◌, ◌||◌, Option, none, some,
  List, [], ◌∷◌, ◌++◌, ◌==◌, leb, ltb, str_eq, first_where, select_where, update_where, length,
  decimal, ◌+text◌, trim, is_empty, get_or, if◌then◌else◌,
}
use voice_call.Pii.{truthy}
use Prim.Native.String
use Prim.Native.Char.{code}

pub record RateLimitVerdict : Type 0 where
  pub allowed : Bool
  pub remaining : ℕ
  pub retry_after_seconds : ℕ

pub record RateLimitRule : Type 0 where
  pub name : String
  pub limit : ℕ
  pub window_seconds : ℕ

-- A row of rate_limit_counters; instants are in milliseconds.
pub record Counter : Type 0 where
  pub bucket_key : String
  pub window_start : ℕ
  pub count : ℕ

abbrev pub counter_of : String → ℕ → Counter → Bool
counter_of key start c = str_eq c.bucket_key key && c.window_start == start

-- floor(epoch / p_window_seconds) * p_window_seconds
abbrev pub window_start_of : ℕ → ℕ → ℕ
window_start_of now seconds = now / (seconds * 1000) * (seconds * 1000)

abbrev pub add_cost : ℕ → Counter → Counter
add_cost cost c = record c { count = c.count + cost }

-- The upsert with its returned count: a new window starts at the cost, a known one moves on within the
-- limit, and a full one matches no row.
pub upsert : List Counter → String → ℕ → ℕ → ℕ → List Counter × Option ℕ
upsert counters key start limit cost = elim (first_where (counter_of key start) counters) [
  | none ↦
      (counters ++ record { bucket_key = key; window_start = start; count = cost } ∷ [], some cost)
  | some c ↦
      if leb (c.count + cost) limit
      then (update_where (counter_of key start) (add_cost cost) counters, some (c.count + cost))
      else (counters, none)
]

-- greatest(1, ceil(the seconds from now to the end of the window))
abbrev pub seconds_left : ℕ → ℕ → ℕ
seconds_left now seconds = max 1 ((window_start_of now seconds + seconds * 1000 - now + 999) / 1000)

abbrev pub row_verdict : ℕ → ℕ → ℕ → Option ℕ → RateLimitVerdict
row_verdict now limit seconds none = record {
  allowed = false;
  remaining = 0;
  retry_after_seconds = seconds_left now seconds;
}
row_verdict now limit seconds (some count) = record {
  allowed = true;
  remaining = limit - count;
  retry_after_seconds = 0;
}

-- `none` where the function raises its exception.
unfoldable pub rate_limit_consume :
    List Counter → ℕ → String → ℕ → ℕ → ℕ → List Counter × Option RateLimitVerdict
unfolding upsert
rate_limit_consume counters now key limit seconds cost =
    if limit == 0 || seconds == 0
    then (counters, none)
    else let written = upsert counters key (window_start_of now seconds) limit cost in
      (written.0, some (row_verdict now limit seconds written.1))

-- delete … where window_start < now() - p_older_than, and how many rows that were
unfoldable pub rate_limit_gc : List Counter → ℕ → ℕ → List Counter × ℕ
rate_limit_gc counters now older_than =
    let kept = select_where (λ c. not (ltb (c.window_start + older_than) now)) counters in
    (kept, length counters - length kept)

-- The verdict of a limiter that cannot be reached, or that throws: it fails open.
abbrev pub open_verdict : RateLimitRule → RateLimitVerdict
open_verdict rule = record { allowed = true; remaining = rule.limit; retry_after_seconds = 0 }

abbrev pub bucket : RateLimitRule → String → String
bucket rule subject = rule.name +text ":" +text subject

-- `up` tells whether the database answers.
unfoldable pub consume_rate_limit :
    Bool → List Counter → ℕ → RateLimitRule → String → ℕ → List Counter × RateLimitVerdict
consume_rate_limit up counters now rule subject cost =
    let r =
      rate_limit_consume counters now (bucket rule subject) rule.limit rule.window_seconds cost in
    if up then (r.0, get_or r.1 (open_verdict rule)) else (counters, open_verdict rule)

pub record Check : Type 0 where
  pub rule : RateLimitRule
  pub subject : String
  pub cost : Option ℕ

-- The rules in their order, up to the first that denies.
unfoldable pub consume_all :
    Bool → List Counter → ℕ → List Check → List Counter × Option (RateLimitVerdict × RateLimitRule)
consume_all up counters now [] = (counters, none)
consume_all up counters now (check ∷ checks) =
    let r = consume_rate_limit up counters now check.rule check.subject (get_or check.cost 1) in
    let rest = consume_all up r.0 now checks in
    if r.1.allowed then rest else (r.0, some (r.1, check.rule))

unfoldable pub retry_after_headers : RateLimitVerdict → List (String × String)
retry_after_headers verdict =
    ("retry-after", decimal (max 1 verdict.retry_after_seconds))
    ∷ ("x-ratelimit-remaining", decimal verdict.remaining)
    ∷ []

-- text.split(",")[0]
pub before_comma : String → String
before_comma String.[] = ""
before_comma (String.◌∷◌ c text) =
    let rest = before_comma text in if code c == 44 then "" else String.◌∷◌ c rest

abbrev pub or_unknown : String → String
or_unknown text = if is_empty text then "unknown" else text

pub first : String → String
first header_value = or_unknown (trim (before_comma header_value))

-- A header, trimmed; an empty one counts as absent.
abbrev pub header : (String → Option String) → String → Option String
header headers name = elim (headers name) [ none ↦ none | some value ↦ truthy (some (trim value)) ]

unfoldable pub client_address : (String → Option String) → String
unfolding first before_comma
client_address headers = elim (header headers "x-vercel-forwarded-for") [
  | some vercel ↦ first vercel
  | none ↦ elim (header headers "x-real-ip") [
    | some real ↦ real
    | none ↦ elim (header headers "x-forwarded-for") [
      | some forwarded ↦ first forwarded
      | none ↦ "unknown"
    ]
  ]
]

abbrev pub login_per_ip : RateLimitRule
login_per_ip = record { name = "login:ip"; limit = 10; window_seconds = 60 }

abbrev pub login_per_email : RateLimitRule
login_per_email = record { name = "login:email"; limit = 5; window_seconds = 300 }

abbrev pub hubspot_webhook : RateLimitRule
hubspot_webhook = record { name = "webhook:hubspot"; limit = 120; window_seconds = 60 }

abbrev pub voice_webhook : RateLimitRule
voice_webhook = record { name = "webhook:voice"; limit = 240; window_seconds = 60 }

abbrev pub lead_webhook : RateLimitRule
lead_webhook = record { name = "webhook:lead"; limit = 120; window_seconds = 60 }
