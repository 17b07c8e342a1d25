-- ===== src/Pii/Tests.antt =====
-- The mask of a number.
use voice_call.Base.{◌≡◌, refl}
use voice_call.Pii.{mask_phone, last_four}

masked : mask_phone "+911234567890" ≡ "******7890"
unfolding mask_phone last_four
masked = refl
