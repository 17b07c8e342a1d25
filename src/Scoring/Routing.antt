-- ===== src/Scoring/Routing.antt =====
-- Where a result goes, and when its score has a say.
use voice_call.Base.{◌≡◌, ◌↔◌, ◌⊎◌, ◌≢◌, true, false, arith}
use voice_call.Base.Int.{ℤ, ◌≤ℤ◌}
use voice_call.Schema.Qualification.{QualificationResult, Intent}
use voice_call.Scoring.{
  RoutingAction, RoutingThresholds, decide_routing, route_by_score, is_unreached,
}

-- The lead asked not to be called.
abbrev pub ForbidsCalls : QualificationResult → Type 0
ForbidsCalls result = (result.do_not_call ≡ true) ⊎ (result.intent ≡ Intent.do_not_call)

-- A result is suppressed for good when and only when the lead asked not to be called, in the flag
-- or in the intent, whatever the score and the thresholds.
pub decide_routing-suppress_iff :
    (result : QualificationResult) (score : ℤ) (thresholds : RoutingThresholds)
    → ((decide_routing result score thresholds).action ≡ RoutingAction.suppress_permanently)
      ↔ ForbidsCalls result
unfolding decide_routing route_by_score
decide_routing-suppress_iff result score thresholds = ground arith

-- Sales are called when and only when the score reaches the hot threshold and nothing speaks
-- against it: the right person, reached, with no refusal and no callback asked for.
pub decide_routing-hot_iff :
    (result : QualificationResult) (score : ℤ) (thresholds : RoutingThresholds)
    → ((decide_routing result score thresholds).action ≡ RoutingAction.hot_sales_routing) ↔ (
        (thresholds.hot_threshold ≤ℤ score)
        × (result.do_not_call ≡ false)
        × (result.wrong_number ≡ false)
        × (result.callback_requested ≡ false)
        × (is_unreached result.intent ≡ false)
        × (result.intent ≢ Intent.do_not_call)
        × (result.intent ≢ Intent.wrong_number)
        × (result.intent ≢ Intent.not_interested))
unfolding decide_routing route_by_score
decide_routing-hot_iff result score thresholds = ground arith
