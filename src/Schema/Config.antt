-- ===== src/Schema/Config.antt =====
-- The JSON columns of a campaign, as campaigns/config.ts admits them: the keys that are present.
use Prim.Native.Nat.{ℕ}
use Prim.Native.String.{String}
use mathlib.Core.Bool.{Bool}
use mathlib.Core.Option.{Option}
use mathlib.Core.List.{List}
use voice_call.Base.Int.{ℤ}

pub record CallingConfig : Type 0 where
  pub window_start : Option String
  pub window_end : Option String
  pub timezone : Option String
  pub days : Option (List ℕ)
  pub max_attempts : Option ℕ
  pub retry_minutes : Option (List ℕ)
  pub busy_retry_minutes : Option ℕ
  pub country : Option String

pub record RoutingConfig : Type 0 where
  pub hot_threshold : Option ℤ
  pub interested_threshold : Option ℤ

pub record RubricConfig : Type 0 where
  pub current_need_confirmed : Option ℤ
  pub short_timeline : Option ℤ
  pub budget_known : Option ℤ
  pub specific_product : Option ℤ
  pub accepts_human_followup : Option ℤ
  pub vague_curiosity : Option ℤ
  pub long_term_no_plan : Option ℤ
  pub explicit_rejection : Option ℤ

-- A row of qualification_rules.
pub record Question : Type 0 where
  pub campaign_id : ℕ
  pub field_name : String
  pub question : String
  pub required : Bool
  pub position : ℕ

-- A question as the configuration has it.
pub record QuestionConfig : Type 0 where
  pub field_name : String
  pub question : String
  pub required : Bool
  pub position : ℕ

-- The whole configuration of a campaign, which is saved at once and kept as a snapshot.
pub record CampaignConfig : Type 0 where
  pub name : String
  pub domain : Option String
  pub business_context : String
  pub script : String
  pub timezone : String
  pub voice_provider : String
  pub analysis_model : String
  pub analysis_effort : String
  pub concurrency_limit : ℕ
  pub review_confidence_threshold : ℕ  -- thousandths
  pub review_boundary_band : ℕ
  pub google_sheet_id : Option String
  pub google_sheet_tab : Option String
  pub hubspot_integration_id : Option ℕ
  pub dial_allowlist : List String
  pub intake_property : Option String
  pub intake_values : List String
  pub intake_default : Bool
  pub calling_config : CallingConfig
  pub routing_config : RoutingConfig
  pub scoring_rubric : RubricConfig
  pub questions : List QuestionConfig
