-- ===== src/Scoring.antt =====
-- lib/qualification/scoring.ts: the score of a structured result, its routing and its label. Points
-- and scores are integers here.
pub mod Points
pub mod Routing
mod Tests
use voice_call.Base.{
  ℕ, suc, String, Bool, true, false, not, ◌&&◌, ◌||◌, Option, none, some, List, [], ◌∷◌, ◌++◌, leb,
  ◌==◌, if◌then◌else◌, get_or, holds, any, ◌+text◌, decimal, is_space, is_blank,
}
use voice_call.Base.Int.{ℤ, pos, negsuc, leb_ℤ, ◌+ℤ◌}
use voice_call.Schema.{RoutingConfig, RubricConfig}
use voice_call.Schema.Qualification.{QualificationResult, Intent, Timeline}

pub record ScoringRubric : Type 0 where
  pub current_need_confirmed : ℤ
  pub short_timeline : ℤ
  pub budget_known : ℤ
  pub specific_product : ℤ
  pub accepts_human_followup : ℤ
  pub vague_curiosity : ℤ
  pub long_term_no_plan : ℤ
  pub explicit_rejection : ℤ

abbrev pub default_rubric : ScoringRubric
default_rubric = record {
  current_need_confirmed = pos 25;
  short_timeline = pos 25;
  budget_known = pos 15;
  specific_product = pos 10;
  accepts_human_followup = pos 15;
  vague_curiosity = pos 5;
  long_term_no_plan = pos 0;
  explicit_rejection = negsuc 99;
}

pub rubric_from_config : RubricConfig → ScoringRubric
rubric_from_config config = record {
  current_need_confirmed =
      get_or config.current_need_confirmed default_rubric.current_need_confirmed;
  short_timeline = get_or config.short_timeline default_rubric.short_timeline;
  budget_known = get_or config.budget_known default_rubric.budget_known;
  specific_product = get_or config.specific_product default_rubric.specific_product;
  accepts_human_followup =
      get_or config.accepts_human_followup default_rubric.accepts_human_followup;
  vague_curiosity = get_or config.vague_curiosity default_rubric.vague_curiosity;
  long_term_no_plan = get_or config.long_term_no_plan default_rubric.long_term_no_plan;
  explicit_rejection = get_or config.explicit_rejection default_rubric.explicit_rejection;
}

pub record ScoreBreakdown : Type 0 where
  pub score : ℤ
  pub signals : List (String × ℤ)

-- Math.max(-100, Math.min(100, score))
unfoldable pub clamp : ℤ → ℤ
clamp score =
    if leb_ℤ score (negsuc 99) then negsuc 99 else if leb_ℤ (pos 100) score then pos 100 else score

-- value !== null && value.trim() !== ""
pub is_stated : Option String → Bool
is_stated value = holds (λ text. not (is_blank text)) value

abbrev is_not_interested : Intent → Bool
is_not_interested Intent.not_interested = true
is_not_interested _ = false

abbrev is_warm : Intent → Bool
is_warm Intent.warm = true
is_warm _ = false

abbrev pub is_rejection : QualificationResult → Bool
is_rejection result = is_not_interested result.intent || result.do_not_call

abbrev signal_if : Bool → String → ℤ → List (String × ℤ)
signal_if true name points = (name, points) ∷ []
signal_if false name points = []

timeline_signal : Timeline → ScoringRubric → List (String × ℤ)
timeline_signal Timeline.within_3_months rubric = ("short_timeline", rubric.short_timeline) ∷ []
timeline_signal Timeline.beyond_12_months rubric =
    ("long_term_no_plan", rubric.long_term_no_plan) ∷ []
timeline_signal _ rubric = []

concrete_signals : QualificationResult → ScoringRubric → List (String × ℤ)
concrete_signals result rubric =
    signal_if (holds (λ b. b) result.still_interested) "current_need_confirmed"
      rubric.current_need_confirmed
    ++ timeline_signal result.timeline rubric
    ++ signal_if (is_stated result.budget) "budget_known" rubric.budget_known
    ++ signal_if (is_stated result.product_interest) "specific_product" rubric.specific_product
    ++ signal_if result.human_followup "accepts_human_followup" rubric.accepts_human_followup

-- Interest with nothing concrete behind it.
with_curiosity : QualificationResult → ScoringRubric → List (String × ℤ) → List (String × ℤ)
with_curiosity result rubric [] =
    signal_if (is_warm result.intent) "vague_curiosity" rubric.vague_curiosity
with_curiosity result rubric (s ∷ signals) = s ∷ signals

-- signals.reduce((sum, s) => sum + s.points, 0)
abbrev pub total_points : List (String × ℤ) → ℤ
total_points signals = total_from (pos 0) signals
  where
    total_from : ℤ → List (String × ℤ) → ℤ
    total_from sum [] = sum
    total_from sum (s ∷ signals) = total_from (sum +ℤ s.1) signals

pub score_result : QualificationResult → ScoringRubric → ScoreBreakdown
score_result result rubric =
    if is_rejection result
    then record {
      score = clamp rubric.explicit_rejection;
      signals = ("explicit_rejection", rubric.explicit_rejection) ∷ [];
    }
    else let signals = with_curiosity result rubric (concrete_signals result rubric) in
      record { score = clamp (total_points signals); signals = signals }

pub data RoutingAction : Type 0 where
  hot_sales_routing create_followup nurture schedule_callback : RoutingAction
  stop_campaign suppress_permanently retry : RoutingAction

pub record RoutingThresholds : Type 0 where
  pub hot_threshold : ℤ
  pub interested_threshold : ℤ

abbrev pub default_thresholds : RoutingThresholds
default_thresholds = record { hot_threshold = pos 75; interested_threshold = pos 50 }

pub thresholds_from_config : RoutingConfig → RoutingThresholds
thresholds_from_config config = record {
  hot_threshold = get_or config.hot_threshold default_thresholds.hot_threshold;
  interested_threshold = get_or config.interested_threshold default_thresholds.interested_threshold;
}

pub record RoutingDecision : Type 0 where
  pub action : RoutingAction
  pub reason : String

abbrev decision : RoutingAction → String → RoutingDecision
decision action reason = record { action = action; reason = reason }

abbrev is_do_not_call : Intent → Bool
is_do_not_call Intent.do_not_call = true
is_do_not_call _ = false

abbrev is_wrong_number : Intent → Bool
is_wrong_number Intent.wrong_number = true
is_wrong_number _ = false

abbrev pub is_unreached : Intent → Bool
is_unreached Intent.no_answer = true
is_unreached Intent.busy = true
is_unreached _ = false

abbrev pub integer_text : ℤ → String
integer_text (pos n) = decimal n
integer_text (negsuc n) = "-" +text decimal (suc n)

-- The rows of the table that ask for the score.
unfoldable pub route_by_score : ℤ → RoutingThresholds → RoutingDecision
route_by_score score thresholds =
    if leb_ℤ thresholds.hot_threshold score
    then decision RoutingAction.hot_sales_routing
        ("score " +text integer_text score +text " >= " +text integer_text thresholds.hot_threshold)
    else if leb_ℤ thresholds.interested_threshold score
    then decision RoutingAction.create_followup
        ("score " +text integer_text score +text " in interested/warm band")
    else decision RoutingAction.nurture
        ("score " +text integer_text score +text " below interested threshold")

unfoldable pub decide_routing : QualificationResult → ℤ → RoutingThresholds → RoutingDecision
decide_routing result score thresholds =
    if result.do_not_call || is_do_not_call result.intent
    then decision RoutingAction.suppress_permanently
        "intent=do_not_call suppresses regardless of score"
    else if result.wrong_number || is_wrong_number result.intent
    then decision RoutingAction.stop_campaign "wrong number; stop and flag for data correction"
    else if is_not_interested result.intent
    then decision RoutingAction.stop_campaign "intent=not_interested stops the campaign"
    else if is_unreached result.intent
    then decision RoutingAction.retry "no conversation took place"
    else if result.callback_requested
    then decision RoutingAction.schedule_callback "callback_requested=true regardless of score"
    else route_by_score score thresholds

abbrev unreached_label : Intent → String
unreached_label Intent.busy = "busy"
unreached_label _ = "no_answer"

pub qualification_label : QualificationResult → ℤ → String
qualification_label result score =
    if result.do_not_call
    then "do_not_call"
    else if result.wrong_number
    then "wrong_number"
    else if is_not_interested result.intent
    then "not_interested"
    else if is_unreached result.intent
    then unreached_label result.intent
    else if leb_ℤ default_thresholds.hot_threshold score
    then "qualified"
    else if leb_ℤ default_thresholds.interested_threshold score
    then "partially_qualified"
    else "unqualified"
