-- ===== src/Windows/Opening.antt =====
-- When a call may be placed, and when the window next opens.
use native.Mathlib.Decide.{dec_le}
use voice_call.Base.{
  ℕ, zero, suc, ◌+◌, ◌*◌, ◌≤◌, ◌<◌, ◌≡◌, subst, inl, inr, ◌↔◌, true, false, ◌&&◌, arith, ltb, ok,
  Bool-cases, String,
}
use voice_call.Windows.{
  CallingWindow, WindowDecision, TimeOfDay, RawParts, parse_hhmm, day_ms, day_allowed,
  minutes_of_day, opens_on, walk, is_open, decide, is_within_window,
}

module _ (intl : ℕ → String → RawParts) (window : CallingWindow) (now : ℕ) where
  -- The window opens after `now` on the local date `offset` days on.
  abbrev pub Opens : TimeOfDay → ℕ → Type 0
  Opens start offset =
      (day_allowed intl window (now + offset * day_ms) ≡ true)
      × (now < opens_on intl window start (now + offset * day_ms))

  walk_sound :
      (start : TimeOfDay) (rounds offset : ℕ) (d : WindowDecision)
      → walk intl window start now rounds offset ≡ ok d
      → (d.allowed ≡ false) × (now < d.next_open_at)
  unfolding walk
  walk_sound start zero offset d e = absurd (cc)
  walk_sound start (suc rounds) offset d e = ground (arith, walk_sound start rounds (offset + 1) d)

  missed-le :
      (start : TimeOfDay) (offset k : ℕ)
      → offset ≤ k
      → Opens start k
      → (day_allowed intl window (now + offset * day_ms)
          && ltb now (opens_on intl window start (now + offset * day_ms)))
        ≡ false
      → offset + 1 ≤ k
  missed-le start offset k h o miss = elim (dec_le (offset + 1) k) [
    | yes l ↦ l
    | no n ↦
        let same : k ≡ offset = omega arith in
        let here = subst (Opens start) same o in absurd (ground (arith, here))
  ]

  walk_complete :
      (start : TimeOfDay) (rounds offset k : ℕ)
      → offset ≤ k
      → k < offset + rounds
      → Opens start k
      → (d : WindowDecision) × (walk intl window start now rounds offset ≡ ok d)
  unfolding walk
  walk_complete start zero offset k h g o = absurd (omega arith)
  walk_complete start (suc rounds) offset k h g o =
      let opens_at = opens_on intl window start (now + offset * day_ms) in
      elim (Bool-cases (day_allowed intl window (now + offset * day_ms) && ltb now opens_at)) [
        | inl hit ↦ (record { allowed = false; next_open_at = opens_at }, rw hit)
        | inr miss ↦
            let (d, e) =
              walk_complete start rounds (offset + 1) k (missed-le start offset k h o miss)
                (omega arith) o in
            (d, rw miss e)
      ]

  decide_sound :
      (start end : TimeOfDay) (d : WindowDecision)
      → decide intl window start end now ≡ ok d
      → ((d.allowed ≡ true) ↔ (
          (day_allowed intl window now ≡ true)
          × (start.hour * 60 + start.minute ≤ minutes_of_day intl window now)
          × (minutes_of_day intl window now < end.hour * 60 + end.minute)))
        × (d.allowed ≡ true → d.next_open_at ≡ now)
        × (d.allowed ≡ false → now < d.next_open_at)
  unfolding decide is_open
  decide_sound start end d e = ground (arith, walk_sound start 8 0 d)

  -- A call is allowed exactly when the local day is an allowed one and the local time lies in the
  -- window, its start included and its end not; the window is then open now. A refused call is told
  -- a time that lies ahead.
  pub is_within_window_sound :
      (start end : TimeOfDay) (d : WindowDecision)
      → parse_hhmm window.window_start ≡ ok start
      → parse_hhmm window.window_end ≡ ok end
      → is_within_window intl now window ≡ ok d
      → ((d.allowed ≡ true) ↔ (
          (day_allowed intl window now ≡ true)
          × (start.hour * 60 + start.minute ≤ minutes_of_day intl window now)
          × (minutes_of_day intl window now < end.hour * 60 + end.minute)))
        × (d.allowed ≡ true → d.next_open_at ≡ now)
        × (d.allowed ≡ false → now < d.next_open_at)
  unfolding is_within_window
  is_within_window_sound start end d p q e = decide_sound start end d (ground arith)

  decide_complete :
      (start end : TimeOfDay) (k : ℕ)
      → start.hour * 60 + start.minute < end.hour * 60 + end.minute
      → k ≤ 7
      → Opens start k
      → (d : WindowDecision) × (decide intl window start end now ≡ ok d)
  unfolding decide
  decide_complete start end k h g o =
      let (d, e) = walk_complete start 8 0 k (omega arith) (omega arith) o in
      elim (Bool-cases (is_open intl window start end now)) [
        | inl open_now ↦ (record { allowed = true; next_open_at = now }, ground arith)
        | inr shut ↦ (d, ground (arith, e))
      ]

  -- With a window that ends after it starts, a decision is made as soon as the window opens after
  -- `now` on one of the eight local dates that are tried; the other errors are those of its texts.
  pub is_within_window_complete :
      (start end : TimeOfDay) (k : ℕ)
      → parse_hhmm window.window_start ≡ ok start
      → parse_hhmm window.window_end ≡ ok end
      → start.hour * 60 + start.minute < end.hour * 60 + end.minute
      → k ≤ 7
      → Opens start k
      → (d : WindowDecision) × (is_within_window intl now window ≡ ok d)
  unfolding is_within_window
  is_within_window_complete start end k p q h g o =
      let (d, e) = decide_complete start end k h g o in (d, rw (p, q) e)
