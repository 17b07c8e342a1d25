-- ===== src/Base/Throwing.antt =====
-- What a call that may throw returns. The errors are the ones the modelled code throws.
use mathlib.Core.Path.{◌≡◌, refl}
use mathlib.Core.Option.{Option, none, some}

pub data Error : Type 0 where
  campaign_not_found call_not_found insert_failed unique_violation : Error
  invalid_time_of_day window_ends_before_start window_never_opens : Error
  unsupported_envelope authentication_failed : Error
  not_authorized : Error
  invalid_timestamp analysis_not_found not_pending_review invalid_properties : Error
  invalid_correction invalid_stored_payload : Error

pub data Outcome {ℓ} (A : Type ℓ) : Type ℓ where
  ok : A → Outcome A
  err : Error → Outcome A

-- The steps of an async function, in order: an error ends it.
infixl 5 ◌>>=◌
abbrev pub ◌>>=◌ {ℓ κ} : {A : Type ℓ} {B : Type κ} → Outcome A → (A → Outcome B) → Outcome B
err thrown >>= rest = err thrown
ok value >>= rest = rest value

-- `if (!row) throw …`
abbrev pub or_throw {ℓ} : {A : Type ℓ} → Option A → Error → Outcome A
or_throw none e = err e
or_throw (some a) e = ok a

-- A call that returned did so step by step.
pub >>=-ok {ℓ κ} :
    {A : Type ℓ} {B : Type κ} (step : Outcome A) (rest : A → Outcome B) {out : B}
    → (step >>= rest) ≡ ok out
    → (mid : A) × (step ≡ ok mid) × (rest mid ≡ ok out)
>>=-ok (err thrown) rest returned = absurd (cc)
>>=-ok (ok mid) rest returned = (mid, refl, returned)
