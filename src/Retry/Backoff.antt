-- ===== src/Retry/Backoff.antt =====
-- The bounds of the exponential backoff.
use voice_call.Base.{ℕ, ◌+◌, ◌*◌, ◌≤◌, arith}
use voice_call.Retry.{random_scale, exponential_ms, jittered, backoff_delay_ms}

jittered_bounds :
    (e draw : ℕ)
    → e * draw ≤ e * random_scale
    → (85 * e ≤ 100 * jittered e draw + 50) × (100 * jittered e draw ≤ 115 * e + 50)
unfolding jittered
jittered_bounds e draw h = omega arith

exponential_ms-le : (attempt base_ms max_ms : ℕ) → exponential_ms attempt base_ms max_ms ≤ max_ms
unfolding exponential_ms
exponential_ms-le attempt base_ms max_ms = omega arith

draw-le : (e draw : ℕ) → draw ≤ random_scale → e * draw ≤ e * random_scale
draw-le e draw h = grind arith

-- The delay is the exponential one give or take 15 percent (to a rounded millisecond), whatever
-- is drawn, and never above the cap by more than that.
pub backoff_delay_ms_bounds :
    (attempt base_ms max_ms draw : ℕ)
    → draw ≤ random_scale
    → (85 * exponential_ms attempt base_ms max_ms
        ≤ 100 * backoff_delay_ms attempt base_ms max_ms draw + 50)
      × (100 * backoff_delay_ms attempt base_ms max_ms draw
          ≤ 115 * exponential_ms attempt base_ms max_ms + 50)
      × (100 * backoff_delay_ms attempt base_ms max_ms draw ≤ 115 * max_ms + 50)
unfolding backoff_delay_ms
backoff_delay_ms_bounds attempt base_ms max_ms draw h =
    let e = exponential_ms attempt base_ms max_ms in
    let b = jittered_bounds e draw (draw-le e draw h) in
    (b.0, b.1, omega (arith, b, exponential_ms-le attempt base_ms max_ms))
