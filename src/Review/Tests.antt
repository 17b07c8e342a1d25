-- ===== src/Review/Tests.antt =====
-- The gate at concrete results.
use voice_call.Base.{
  ◌≤◌, ◌≡◌, refl, true, false, List, [], ◌∷◌, arith, All, select_where, any, is_blank,
}
use voice_call.Base.Int.{pos}
use voice_call.Schema.Qualification.{unknown_result}
use voice_call.Scoring.{default_thresholds, decide_routing}
use voice_call.Fixtures.{keen_result}
use voice_call.Review.{
  ReviewGateInput, ReviewTrigger, ReasonPart, hold, confidence_below, pass, evaluate_review_gate,
  dnc_confidence, is_missing, ended_conversation, review_triggers, missing_fields, hold_or_pass,
  value_at, fields_of,
}
use voice_call.Review.Laws.{
  evaluate_review_gate-pass, evaluate_review_gate_stable, evaluate_review_gate-unknown_result,
}

abbrev keen_input : ReviewGateInput
keen_input = record {
  result = keen_result;
  score = pos 90;
  confidence_threshold = 700;
  boundary_band = 5;
  thresholds = default_thresholds;
  required_fields = "timeline" ∷ "budget" ∷ [];
  unconnected = false;
}

keen_passes : evaluate_review_gate keen_input ≡ pass
unfolding evaluate_review_gate review_triggers missing_fields hold_or_pass is_missing fields_of
    value_at select_where is_blank any
keen_passes = refl

evaluate_review_gate-pass_example :
    (700 ≤ 950)
    × (ended_conversation keen_result ≡ false
        → All (λ f. is_missing keen_result f ≡ false) ("timeline" ∷ "budget" ∷ []))
    × (false ≡ true → dnc_confidence ≤ 950)
evaluate_review_gate-pass_example = evaluate_review_gate-pass keen_input refl keen_passes

evaluate_review_gate_stable_example :
    (decide_routing keen_result (pos 86) default_thresholds).action
    ≡ (decide_routing keen_result (pos 90) default_thresholds).action
evaluate_review_gate_stable_example =
    evaluate_review_gate_stable keen_input (pos 86) refl keen_passes (omega arith)

abbrev failed_input : ReviewGateInput
failed_input = record keen_input { result = unknown_result "no answer from the model" }

evaluate_review_gate-unknown_result_example :
    (triggers : List ReviewTrigger) × (parts : List ReasonPart) × (evaluate_review_gate failed_input
      ≡ hold (ReviewTrigger.low_confidence ∷ triggers) (confidence_below 0 700 ∷ parts))
evaluate_review_gate-unknown_result_example =
    evaluate_review_gate-unknown_result failed_input "no answer from the model" refl refl
      (omega arith)
