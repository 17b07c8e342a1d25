-- ===== src/Review.antt =====
-- lib/qualification/review.ts: the gate that holds a result for a person. A decision's reason is
-- kept as the facts that its text names.
pub mod Laws
mod Tests
use voice_call.Base.{
  ℕ, String, Bool, true, false, not, ◌&&◌, ◌||◌, Option, none, some, List, [], ◌∷◌, ◌++◌, ltb, leb,
  str_eq, if◌then◌else◌, holds, is_some, map, select_where, is_blank,
}
use voice_call.Base.Int.{ℤ, distance}
use voice_call.Schema.{ReviewStatus}
use voice_call.Schema.Qualification.{QualificationResult, Intent, Timeline}
use voice_call.Scoring.{RoutingThresholds}

pub data ReviewTrigger : Type 0 where
  low_confidence missing_required_fields boundary_band : ReviewTrigger
  dnc_needs_verification analysis_failed : ReviewTrigger

-- Confidences in thousandths.
pub record ReviewGateInput : Type 0 where
  pub result : QualificationResult
  pub score : ℤ
  pub confidence_threshold : ℕ
  pub boundary_band : ℕ
  pub thresholds : RoutingThresholds
  pub required_fields : List String
  pub unconnected : Bool

-- A part of the reason's text, by what it says.
pub data ReasonPart : Type 0 where
  confidence_below : (confidence threshold : ℕ) → ReasonPart
  fields_unanswered : List String → ReasonPart
  score_within : ℤ → ℕ → ReasonPart
  dnc_unverified no_valid_result : ReasonPart

pub data ReviewDecision : Type 0 where
  pass : ReviewDecision
  hold : List ReviewTrigger → List ReasonPart → ReviewDecision

abbrev ends_conversation : Intent → Bool
ends_conversation Intent.do_not_call = true
ends_conversation Intent.not_interested = true
ends_conversation Intent.wrong_number = true
ends_conversation _ = false

-- The lead closed the conversation, so unanswered questions are expected.
abbrev pub ended_conversation : QualificationResult → Bool
ended_conversation result =
    result.do_not_call || result.wrong_number || ends_conversation result.intent

-- What a result has under a name: null or nothing, a text, or a number or Boolean.
pub data FieldValue : Type 0 where
  absent other : FieldValue
  text : String → FieldValue

abbrev text_or_absent : Option String → FieldValue
text_or_absent none = absent
text_or_absent (some s) = text s

abbrev pub intent_text : Intent → String
intent_text Intent.hot = "hot"
intent_text Intent.interested = "interested"
intent_text Intent.warm = "warm"
intent_text Intent.follow_up = "follow_up"
intent_text Intent.not_interested = "not_interested"
intent_text Intent.wrong_number = "wrong_number"
intent_text Intent.no_answer = "no_answer"
intent_text Intent.busy = "busy"
intent_text Intent.do_not_call = "do_not_call"
intent_text Intent.unknown = "unknown"

abbrev pub timeline_text : Timeline → String
timeline_text Timeline.within_3_months = "0-3_months"
timeline_text Timeline.within_6_months = "3-6_months"
timeline_text Timeline.within_12_months = "6-12_months"
timeline_text Timeline.beyond_12_months = "12_months_plus"
timeline_text Timeline.unknown = "unknown"

-- The fields of a result; any other name is taken to have no value.
fields_of : QualificationResult → List (String × FieldValue)
fields_of result =
    ("intent", text (intent_text result.intent))
    ∷ ("confidence", other)
    ∷ ("reason", text result.reason)
    ∷ ("summary", text result.summary)
    ∷ ("still_interested", if is_some result.still_interested then other else absent)
    ∷ ("timeline", text (timeline_text result.timeline))
    ∷ ("budget", text_or_absent result.budget)
    ∷ ("location", text_or_absent result.location)
    ∷ ("product_interest", text_or_absent result.product_interest)
    ∷ ("callback_requested", other)
    ∷ ("callback_time_iso", text_or_absent result.callback_time_iso)
    ∷ ("human_followup", other)
    ∷ ("do_not_call", other)
    ∷ ("wrong_number", other)
    ∷ []

value_at : String → List (String × FieldValue) → FieldValue
value_at field [] = absent
value_at field (f ∷ fields) =
    let rest = value_at field fields in if str_eq f.0 field then f.1 else rest

pub is_missing : QualificationResult → String → Bool
is_missing result field = elim (value_at field (fields_of result)) [
  | absent ↦ true
  | other ↦ false
  | text s ↦ is_blank s || str_eq s "unknown"
]

pub missing_fields : ReviewGateInput → List String
missing_fields input =
    if ended_conversation input.result
    then []
    else select_where (is_missing input.result) input.required_fields

abbrev any_listed : List String → Bool
any_listed [] = false
any_listed (f ∷ fields) = true

abbrev trigger_if : Bool → ReviewTrigger → List ReviewTrigger
trigger_if true trigger = trigger ∷ []
trigger_if false trigger = []

abbrev pub is_near : ReviewGateInput → Bool
is_near input =
    leb (distance input.score input.thresholds.hot_threshold) input.boundary_band
    || leb (distance input.score input.thresholds.interested_threshold) input.boundary_band

-- 0.9, in thousandths
abbrev pub dnc_confidence : ℕ
dnc_confidence = 900

pub review_triggers : ReviewGateInput → List ReviewTrigger
review_triggers input =
    trigger_if (ltb input.result.confidence input.confidence_threshold) ReviewTrigger.low_confidence
    ++ trigger_if (any_listed (missing_fields input)) ReviewTrigger.missing_required_fields
    ++ trigger_if (is_near input) ReviewTrigger.boundary_band
    ++ trigger_if (input.result.do_not_call && ltb input.result.confidence dnc_confidence)
        ReviewTrigger.dnc_needs_verification

describe_trigger : ReviewGateInput → List String → ReviewTrigger → ReasonPart
describe_trigger input missing ReviewTrigger.low_confidence =
    confidence_below input.result.confidence input.confidence_threshold
describe_trigger input missing ReviewTrigger.missing_required_fields = fields_unanswered missing
describe_trigger input missing ReviewTrigger.boundary_band =
    score_within input.score input.boundary_band
describe_trigger input missing ReviewTrigger.dnc_needs_verification = dnc_unverified
describe_trigger input missing ReviewTrigger.analysis_failed = no_valid_result

hold_or_pass : ReviewGateInput → List ReviewTrigger → ReviewDecision
hold_or_pass input [] = pass
hold_or_pass input (t ∷ triggers) =
    hold (t ∷ triggers) (map (describe_trigger input (missing_fields input)) (t ∷ triggers))

unfoldable pub evaluate_review_gate : ReviewGateInput → ReviewDecision
unfolding review_triggers missing_fields is_missing fields_of value_at hold_or_pass describe_trigger
evaluate_review_gate input =
    if input.unconnected then pass else hold_or_pass input (review_triggers input)

abbrev pub may_auto_sync : ReviewStatus → Bool
may_auto_sync ReviewStatus.auto_approved = true
may_auto_sync ReviewStatus.confirmed = true
may_auto_sync ReviewStatus.corrected = true
may_auto_sync _ = false
