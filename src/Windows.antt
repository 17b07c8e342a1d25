-- ===== src/Windows.antt =====
-- lib/calling/windows.ts: calling windows in the campaign's timezone. What Intl.DateTimeFormat says
-- of an instant is a parameter; Date.UTC is computed, for dates from 1970 on.
pub mod Opening
pub mod Zones
mod Tests
use Prim.Native.Char.{code}
use Prim.Native.Nat.{◌%◌}
use Prim.Native.String
use voice_call.Base.{
  ℕ, zero, suc, ◌+◌, ◌-◌, ◌*◌, ◌/◌, String, Bool, true, false, not, ◌&&◌, ◌||◌, Option, List, [],
  ◌∷◌, ltb, leb, ◌==◌, str_eq, if◌then◌else◌, get_or, any, Outcome, ok, err, ◌>>=◌,
  invalid_time_of_day, window_ends_before_start, window_never_opens,
}
use voice_call.Schema.{CallingConfig}

pub record CallingWindow : Type 0 where
  pub window_start : String
  pub window_end : String
  pub timezone : String
  pub days : Option (List ℕ)

pub record WindowDecision : Type 0 where
  pub allowed : Bool
  pub next_open_at : ℕ

pub record TimeOfDay : Type 0 where
  pub hour : ℕ
  pub minute : ℕ

-- What formatToParts gives, its numbers read.
pub record RawParts : Type 0 where
  pub year : ℕ
  pub month : ℕ
  pub day : ℕ
  pub hour : ℕ
  pub minute : ℕ
  pub weekday : String

pub record ZonedParts : Type 0 where
  pub year : ℕ
  pub month : ℕ
  pub day : ℕ
  pub hour : ℕ
  pub minute : ℕ
  pub weekday : ℕ

abbrev codes : String → List ℕ
codes String.[] = []
codes (String.◌∷◌ c s) = code c ∷ codes s

abbrev is_digit : ℕ → Bool
is_digit c = leb b'0' c && leb c b'9'

-- ([01]\d|2[0-3])
abbrev is_hour : ℕ → ℕ → Bool
is_hour a b = ((a == b'0' || a == b'1') && is_digit b) || (a == b'2' && leb b'0' b && leb b b'3')

-- ([0-5]\d)
abbrev is_minute : ℕ → ℕ → Bool
is_minute a b = leb b'0' a && leb a b'5' && is_digit b

abbrev two_digits : ℕ → ℕ → ℕ
two_digits a b = (a - b'0') * 10 + (b - b'0')

parse_codes : List ℕ → Outcome TimeOfDay
parse_codes (a ∷ b ∷ s ∷ c ∷ d ∷ []) =
    if is_hour a b && s == b':' && is_minute c d
    then ok (record { hour = two_digits a b; minute = two_digits c d })
    else err invalid_time_of_day
parse_codes _ = err invalid_time_of_day

pub parse_hhmm : String → Outcome TimeOfDay
unfolding parse_codes
parse_hhmm value = parse_codes (codes value)

-- Math.max(0, weekdays.indexOf(name))
weekday_index : String → ℕ
weekday_index name =
    if str_eq name "Mon"
    then 1
    else if str_eq name "Tue"
    then 2
    else if str_eq name "Wed"
    then 3
    else if str_eq name "Thu"
    then 4
    else if str_eq name "Fri"
    then 5
    else if str_eq name "Sat"
    then 6
    else 0

-- Days from 1970-01-01 to a date of the Gregorian calendar.
days_from_civil : ℕ → ℕ → ℕ → ℕ
days_from_civil y month d =
    let shifted = if leb month 2 then y - 1 else y in
    let from_march = if leb month 2 then month + 9 else month - 3 in
    let year_of_era = shifted % 400 in
    let day_of_year = (153 * from_march + 2) / 5 + (d - 1) in
    let day_of_era = year_of_era * 365 + year_of_era / 4 - year_of_era / 100 + day_of_year in
    (shifted / 400) * 146097 + day_of_era - 719468

abbrev pub day_ms : ℕ
day_ms = 86400000

-- Date.UTC(y, month - 1, d, h, mi)
pub date_utc : ℕ → ℕ → ℕ → ℕ → ℕ → ℕ
unfolding days_from_civil
date_utc y month d h mi = days_from_civil y month d * day_ms + h * 3600000 + mi * 60000

module _ (intl : ℕ → String → RawParts) where
  pub zoned_parts : ℕ → String → ZonedParts
  unfolding weekday_index
  zoned_parts instant timezone =
      let p = intl instant timezone in
      record {
        year = p.year;
        month = p.month;
        day = p.day;
        hour = p.hour % 24;
        minute = p.minute;
        weekday = weekday_index p.weekday;
      }

  -- The wall clock at an instant, read as if it were UTC.
  pub wall_clock : String → ℕ → ℕ
  wall_clock timezone t =
      let p = zoned_parts t timezone in date_utc p.year p.month p.day p.hour p.minute

  -- The passes of the correcting loop; a drift of 0 breaks it.
  settle : String → ℕ → ℕ → ℕ → ℕ
  settle timezone target zero guess = guess
  settle timezone target (suc passes) guess =
      let actual = wall_clock timezone guess in
      let next = settle timezone target passes (guess + target - actual) in
      if actual == target then guess else next

  pub zoned_time_to_utc : String → ℕ → ℕ → ℕ → ℕ → ℕ → ℕ
  zoned_time_to_utc timezone y month d h mi =
      settle timezone (date_utc y month d h mi) 2 (date_utc y month d h mi)

  abbrev allowed_days : CallingWindow → List ℕ
  allowed_days window = get_or window.days (0 ∷ 1 ∷ 2 ∷ 3 ∷ 4 ∷ 5 ∷ 6 ∷ [])

  -- allowedDays.includes(…)
  pub day_allowed : CallingWindow → ℕ → Bool
  day_allowed window t =
      any (λ d. d == (zoned_parts t window.timezone).weekday) (allowed_days window)

  pub minutes_of_day : CallingWindow → ℕ → ℕ
  minutes_of_day window t =
      let local = zoned_parts t window.timezone in local.hour * 60 + local.minute

  -- The opening on the local date of `probe`.
  pub opens_on : CallingWindow → TimeOfDay → ℕ → ℕ
  opens_on window start probe =
      let local = zoned_parts probe window.timezone in
      zoned_time_to_utc window.timezone local.year local.month local.day start.hour start.minute

  -- The loop over the offsets: `rounds` of them are left, from `offset` on.
  walk : CallingWindow → TimeOfDay → ℕ → ℕ → ℕ → Outcome WindowDecision
  walk window start now zero offset = err window_never_opens
  walk window start now (suc rounds) offset =
      let probe = now + offset * day_ms in
      let opens_at = opens_on window start probe in
      let later = walk window start now rounds (offset + 1) in
      if day_allowed window probe && ltb now opens_at
      then ok (record { allowed = false; next_open_at = opens_at })
      else later

  is_open : CallingWindow → TimeOfDay → TimeOfDay → ℕ → Bool
  is_open window start end now =
      day_allowed window now
      && leb (start.hour * 60 + start.minute) (minutes_of_day window now)
      && ltb (minutes_of_day window now) (end.hour * 60 + end.minute)

  decide : CallingWindow → TimeOfDay → TimeOfDay → ℕ → Outcome WindowDecision
  decide window start end now =
      if leb (end.hour * 60 + end.minute) (start.hour * 60 + start.minute)
      then err window_ends_before_start
      else if is_open window start end now
      then ok (record { allowed = true; next_open_at = now })
      else walk window start now 8 0

  unfoldable pub is_within_window : ℕ → CallingWindow → Outcome WindowDecision
  unfolding decide is_open walk day_allowed minutes_of_day opens_on zoned_parts zoned_time_to_utc
      settle wall_clock date_utc parse_hhmm
  is_within_window now window = do
    start ← parse_hhmm window.window_start
    end ← parse_hhmm window.window_end
    decide window start end now

unfoldable pub window_from_config : CallingConfig → String → CallingWindow
window_from_config config campaign_timezone = record {
  window_start = get_or config.window_start "09:30";
  window_end = get_or config.window_end "18:30";
  timezone = get_or config.timezone campaign_timezone;
  days = config.days;
}
