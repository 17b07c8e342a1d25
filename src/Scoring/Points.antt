-- ===== src/Scoring/Points.antt =====
-- What a score is made of, and how far it goes.
use voice_call.Base.{◌≡◌, refl, sym, ap, true, false, some, arith, Bool-cases, inl, inr}
use voice_call.Base.Int.{ℤ, pos, negsuc, ◌≤ℤ◌, ◌+ℤ◌}
use voice_call.Schema.Qualification.{QualificationResult, Timeline}
use voice_call.Scoring.{
  ScoringRubric, default_rubric, clamp, is_rejection, total_points, concrete_signals,
  with_curiosity, timeline_signal, score_result,
}

clamp_bounds : (n : ℤ) → (negsuc 99 ≤ℤ clamp n) × (clamp n ≤ℤ pos 100)
unfolding clamp
clamp_bounds n = ground arith

zero_+ℤ : (n : ℤ) → (pos 0 +ℤ n) ≡ n
unfolding ◌+ℤ◌
zero_+ℤ (pos n) = ground arith
zero_+ℤ (negsuc n) = ground arith

-- A score lies between -100 and 100 whatever the rubric, and the signals that are stored with it
-- account for it: it is their total, clamped, of a rejection too.
pub score_result-signals :
    (result : QualificationResult) (rubric : ScoringRubric)
    → (negsuc 99 ≤ℤ (score_result result rubric).score)
      × ((score_result result rubric).score ≤ℤ pos 100)
      × ((score_result result rubric).score
          ≡ clamp (total_points (score_result result rubric).signals))
unfolding score_result
score_result-signals result rubric = elim (Bool-cases (is_rejection result)) [
  | inl e ↦ rw e (
    (clamp_bounds rubric.explicit_rejection).0,
    (clamp_bounds rubric.explicit_rejection).1,
    ap clamp (sym (zero_+ℤ rubric.explicit_rejection)),
  )
  | inr e ↦ rw e ((clamp_bounds _).0, (clamp_bounds _).1, refl)
]

-- With the default rubric a lead that does not reject scores from 0 to 90, and it reaches the
-- default threshold for hot only if it confirmed its need and wants to buy within three months.
pub score_result_default :
    (result : QualificationResult)
    → is_rejection result ≡ false
    → (pos 0 ≤ℤ (score_result result default_rubric).score)
      × ((score_result result default_rubric).score ≤ℤ pos 90)
      × (pos 75 ≤ℤ (score_result result default_rubric).score
          → (result.still_interested ≡ some true) × (result.timeline ≡ Timeline.within_3_months))
unfolding score_result concrete_signals with_curiosity timeline_signal clamp ◌+ℤ◌
score_result_default result h = ground arith
