-- ===== src/Windows/Zones.antt =====
-- Wall-clock times of a zone and the instants that they stand for.
use voice_call.Base.{ℕ, ◌+◌, ◌-◌, ◌≤◌, ◌≡◌, inl, inr, String, arith, ◌==◌, ==_iff, Bool-cases}
use voice_call.Windows.{RawParts, wall_clock, zoned_time_to_utc, date_utc, settle}

module _ (intl : ℕ → String → RawParts) (timezone : String) where
  -- At the instant `t` the zone's clock is `offset` ahead of UTC.
  abbrev pub IsAhead : ℕ → ℕ → Type 0
  IsAhead offset t = wall_clock intl timezone t ≡ t + offset

  module _ (target first second : ℕ) (le₁ : first ≤ target) (le₂ : second ≤ target)
      (at₁ : IsAhead first target) (at₂ : IsAhead second (target - first))
      (at₃ : IsAhead second (target - second)) where
    -- The pass that starts from the corrected guess.
    second_pass : wall_clock intl timezone (settle intl timezone target 1 (target - first)) ≡ target
    unfolding settle
    second_pass =
        let guess = target - first in
        elim (Bool-cases (wall_clock intl timezone guess == target)) [
          | inl hit ↦ rw hit ((==_iff (wall_clock intl timezone guess) target).0 hit)
          | inr miss ↦
              let last : guess + target - wall_clock intl timezone guess ≡ target - second =
                omega arith in
              rw (miss, last) (omega arith)
        ]

    settled : wall_clock intl timezone (settle intl timezone target 2 target) ≡ target
    unfolding settle
    settled = elim (Bool-cases (wall_clock intl timezone target == target)) [
      | inl hit ↦ rw hit ((==_iff (wall_clock intl timezone target) target).0 hit)
      | inr miss ↦
          let next : target + target - wall_clock intl timezone target ≡ target - first =
            omega arith in
          rw (miss, next) second_pass
    ]

  -- A wall-clock time of a zone ahead of UTC is converted to an instant at which the clock shows
  -- it, also across one change of the zone's offset: the first guess reads the time as UTC and meets
  -- the offset `first`, the corrected guess meets the offset `second`, and this one holds at the
  -- instant that it leads to.
  pub wall_clock-zoned_time_to_utc :
      (y month d h mi first second : ℕ)
      → first ≤ date_utc y month d h mi
      → second ≤ date_utc y month d h mi
      → IsAhead first (date_utc y month d h mi)
      → IsAhead second (date_utc y month d h mi - first)
      → IsAhead second (date_utc y month d h mi - second)
      → wall_clock intl timezone (zoned_time_to_utc intl timezone y month d h mi)
        ≡ date_utc y month d h mi
  unfolding zoned_time_to_utc
  wall_clock-zoned_time_to_utc y month d h mi first second le₁ le₂ at₁ at₂ at₃ =
      settled (date_utc y month d h mi) first second le₁ le₂ at₁ at₂ at₃
