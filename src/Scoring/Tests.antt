-- ===== src/Scoring/Tests.antt =====
-- The score of a concrete result, and its label.
use voice_call.Fixtures.{keen_result}
use voice_call.Base.{any, is_blank, ◌≡◌, refl}
use voice_call.Base.Int.{pos, ◌+ℤ◌}
use voice_call.Scoring.{
  default_rubric, clamp, score_result, qualification_label, concrete_signals, with_curiosity,
  timeline_signal, is_stated,
}

-- A blank product earns nothing: 25 + 25 + 15 + 15.
keen_score : (score_result keen_result default_rubric).score ≡ pos 80
unfolding score_result concrete_signals with_curiosity timeline_signal clamp is_stated is_blank any
    ◌+ℤ◌
keen_score = refl

-- The label asks the default thresholds, the routing those of the campaign.
label_at_60 : qualification_label keen_result (pos 60) ≡ "partially_qualified"
unfolding qualification_label
label_at_60 = refl
