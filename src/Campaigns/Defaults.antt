-- ===== src/Campaigns/Defaults.antt =====
-- lib/campaigns/config.ts: the configuration that a new campaign starts with, and the keys that the
-- JSON columns leave to it.
use voice_call.Base.{String, false, none, some, [], ◌∷◌, or_else}
use voice_call.Base.Int.{pos, negsuc}
use voice_call.Schema.{CallingConfig, RoutingConfig, RubricConfig, CampaignConfig}

abbrev pub default_calling : CallingConfig
default_calling = record {
  window_start = some "09:30";
  window_end = some "18:30";
  timezone = none;
  days = none;
  max_attempts = some 3;
  retry_minutes = some (15 ∷ 120 ∷ 1440 ∷ []);
  busy_retry_minutes = none;
  country = some "IN";
}

abbrev pub default_routing : RoutingConfig
default_routing = record { hot_threshold = some (pos 75); interested_threshold = some (pos 50) }

abbrev pub default_scoring : RubricConfig
default_scoring = record {
  current_need_confirmed = some (pos 25);
  short_timeline = some (pos 25);
  budget_known = some (pos 15);
  specific_product = some (pos 10);
  accepts_human_followup = some (pos 15);
  vague_curiosity = some (pos 5);
  long_term_no_plan = some (pos 0);
  explicit_rejection = some (negsuc 99);
}

-- DEFAULT_CAMPAIGN_CONFIG, with a name
unfoldable pub default_campaign_config : String → CampaignConfig
default_campaign_config name = record {
  name = name;
  domain = none;
  business_context = "";
  script = "";
  timezone = "Asia/Kolkata";
  voice_provider = "mock";
  analysis_model = "claude-opus-5";
  analysis_effort = "medium";
  concurrency_limit = 5;
  review_confidence_threshold = 750;
  review_boundary_band = 5;
  google_sheet_id = none;
  google_sheet_tab = some "Call Log!A:Z";
  hubspot_integration_id = none;
  dial_allowlist = [];
  intake_property = none;
  intake_values = [];
  intake_default = false;
  calling_config = default_calling;
  routing_config = default_routing;
  scoring_rubric = default_scoring;
  questions = [];
}

-- { ...DEFAULT, ...stored }
unfoldable pub with_default_calling : CallingConfig → CallingConfig
with_default_calling stored = record {
  window_start = or_else stored.window_start default_calling.window_start;
  window_end = or_else stored.window_end default_calling.window_end;
  timezone = or_else stored.timezone default_calling.timezone;
  days = or_else stored.days default_calling.days;
  max_attempts = or_else stored.max_attempts default_calling.max_attempts;
  retry_minutes = or_else stored.retry_minutes default_calling.retry_minutes;
  busy_retry_minutes = or_else stored.busy_retry_minutes default_calling.busy_retry_minutes;
  country = or_else stored.country default_calling.country;
}

unfoldable pub with_default_routing : RoutingConfig → RoutingConfig
with_default_routing stored = record {
  hot_threshold = or_else stored.hot_threshold default_routing.hot_threshold;
  interested_threshold = or_else stored.interested_threshold default_routing.interested_threshold;
}

unfoldable pub with_default_scoring : RubricConfig → RubricConfig
with_default_scoring stored = record {
  current_need_confirmed =
      or_else stored.current_need_confirmed default_scoring.current_need_confirmed;
  short_timeline = or_else stored.short_timeline default_scoring.short_timeline;
  budget_known = or_else stored.budget_known default_scoring.budget_known;
  specific_product = or_else stored.specific_product default_scoring.specific_product;
  accepts_human_followup =
      or_else stored.accepts_human_followup default_scoring.accepts_human_followup;
  vague_curiosity = or_else stored.vague_curiosity default_scoring.vague_curiosity;
  long_term_no_plan = or_else stored.long_term_no_plan default_scoring.long_term_no_plan;
  explicit_rejection = or_else stored.explicit_rejection default_scoring.explicit_rejection;
}
