-- ===== src/Windows/Tests.antt =====
-- Windows on a Monday morning and in a zone five and a half hours ahead.
use voice_call.Base.{
  ℕ, ◌+◌, ◌*◌, ◌≤◌, ◌<◌, ◌≡◌, refl, ◌↔◌, String, true, false, some, [], ◌∷◌, arith, any, ◌==◌,
  if◌then◌else◌, ok,
}
use voice_call.Fixtures.{monday_morning}
use voice_call.Windows.{
  CallingWindow, WindowDecision, TimeOfDay, RawParts, parse_hhmm, is_within_window, day_allowed,
  minutes_of_day, zoned_parts, weekday_index, wall_clock, zoned_time_to_utc, date_utc,
  days_from_civil, settle, opens_on,
}
use voice_call.Windows.Opening.{Opens, is_within_window_sound, is_within_window_complete}
use voice_call.Windows.Zones.{wall_clock-zoned_time_to_utc}

abbrev office_hours : CallingWindow
office_hours = record {
  window_start = "09:30";
  window_end = "18:30";
  timezone = "Asia/Kolkata";
  days = some (1 ∷ 2 ∷ 3 ∷ 4 ∷ 5 ∷ []);
}

abbrev at : ℕ → ℕ → TimeOfDay
at h m = record { hour = h; minute = m }

abbrev open_now : WindowDecision
open_now = record { allowed = true; next_open_at = 1000 }

is_open_now : is_within_window monday_morning 1000 office_hours ≡ ok open_now
unfolding is_within_window any
is_open_now = refl

is_within_window_sound_example :
    ((true ≡ true) ↔ (
      (day_allowed monday_morning office_hours 1000 ≡ true)
      × (9 * 60 + 30 ≤ minutes_of_day monday_morning office_hours 1000)
      × (minutes_of_day monday_morning office_hours 1000 < 18 * 60 + 30)))
    × (true ≡ true → open_now.next_open_at ≡ 1000)
    × (true ≡ false → 1000 < 1000)
unfolding parse_hhmm
is_within_window_sound_example =
    is_within_window_sound monday_morning office_hours 1000 (at 9 30) (at 18 30) open_now refl refl
      is_open_now

Opens-today : Opens monday_morning office_hours 1000 (at 9 30) 0
unfolding day_allowed opens_on zoned_parts weekday_index zoned_time_to_utc date_utc days_from_civil
    settle wall_clock any
Opens-today = (refl, omega arith)

is_within_window_complete_example :
    (d : WindowDecision) × (is_within_window monday_morning 1000 office_hours ≡ ok d)
unfolding parse_hhmm is_within_window any
is_within_window_complete_example =
    is_within_window_complete monday_morning office_hours 1000 (at 9 30) (at 18 30) 0 refl refl
      (omega arith) (omega arith) Opens-today

-- What the clock of Kolkata shows at 04:30 and at 10:00 UTC of 2024-01-01.
abbrev kolkata : ℕ → String → RawParts
kolkata instant timezone = record {
  year = 2024;
  month = 1;
  day = 1;
  hour = if instant == 1704103200000 then 15 else 10;
  minute = if instant == 1704103200000 then 30 else 0;
  weekday = "Mon";
}

wall_clock-zoned_time_to_utc_example :
    wall_clock kolkata "Asia/Kolkata" (zoned_time_to_utc kolkata "Asia/Kolkata" 2024 1 1 10 0)
    ≡ date_utc 2024 1 1 10 0
unfolding wall_clock zoned_parts weekday_index date_utc days_from_civil
wall_clock-zoned_time_to_utc_example =
    wall_clock-zoned_time_to_utc kolkata "Asia/Kolkata" 2024 1 1 10 0 19800000 19800000
      (omega arith) (omega arith) refl refl refl

half_past_four : zoned_time_to_utc kolkata "Asia/Kolkata" 2024 1 1 10 0 ≡ date_utc 2024 1 1 4 30
unfolding zoned_time_to_utc settle wall_clock zoned_parts weekday_index date_utc days_from_civil
half_past_four = refl
