-- ===== src/Campaigns.antt =====
-- lib/campaigns/config.ts: the configuration of a campaign, loaded and saved as a whole.
mod Defaults
mod Saving
mod Stored
mod Tests
unfoldable pub use Defaults.{
  default_campaign_config, with_default_calling, with_default_routing, with_default_scoring,
}
use voice_call.Base.{
  ℕ, suc, ◌+◌, String, Bool, true, false, not, ◌&&◌, ◌||◌, Option, none, some, List, [], ◌∷◌, ◌++◌,
  ◌==◌, str_eq, if◌then◌else◌, get_or, or_else, any, map, first_where, select_where, update_where,
  sort_by, Outcome, ok, err, ◌>>=◌, or_throw, campaign_not_found, unique_violation, trim, is_blank,
}
use voice_call.Base.Int.{pos, negsuc}
use voice_call.Schema.{
  Db, Campaign, Question, CampaignVersion, CallingConfig, RoutingConfig, RubricConfig,
  QuestionConfig, CampaignConfig, find_campaign,
}
use voice_call.Pii.{truthy}
use voice_call.Worker.{question_order}

pub record LoadedConfig : Type 0 where
  pub id : ℕ
  pub config_version : ℕ
  pub active : Bool
  pub config : CampaignConfig

abbrev pub question_config : Question → QuestionConfig
question_config q = record {
  field_name = q.field_name;
  question = q.question;
  required = q.required;
  position = q.position;
}

-- order by position, field_name
pub questions_of : Db → ℕ → List QuestionConfig
questions_of db campaign =
    map question_config
      (sort_by question_order (select_where (λ q. q.campaign_id == campaign) db.questions))

pub config_of : Campaign → List QuestionConfig → CampaignConfig
config_of c questions = record {
  name = c.name;
  domain = c.domain;
  business_context = get_or c.business_context "";
  script = get_or c.script "";
  timezone = c.timezone;
  voice_provider = c.voice_provider;
  analysis_model = c.analysis_model;
  analysis_effort = c.analysis_effort;
  concurrency_limit = c.concurrency_limit;
  review_confidence_threshold = c.review_confidence_threshold;
  review_boundary_band = c.review_boundary_band;
  google_sheet_id = c.google_sheet_id;
  google_sheet_tab = c.google_sheet_tab;
  hubspot_integration_id = c.hubspot_integration_id;
  dial_allowlist = c.dial_allowlist;
  intake_property = c.intake_property;
  intake_values = c.intake_values;
  intake_default = c.intake_default;
  calling_config = with_default_calling c.calling_config;
  routing_config = with_default_routing c.routing_config;
  scoring_rubric = with_default_scoring c.scoring_rubric;
  questions = questions;
}

unfoldable pub load_campaign_config : Db → ℕ → Option LoadedConfig
unfolding config_of questions_of with_default_calling with_default_routing with_default_scoring
load_campaign_config db campaign = elim (find_campaign db campaign) [
  | none ↦ none
  | some c ↦ some (record {
    id = c.id;
    config_version = c.config_version;
    active = c.active;
    config = config_of c (questions_of db campaign);
  })
]

pub record SaveArgs : Type 0 where
  pub tenant_id : ℕ
  pub campaign_id : ℕ
  pub config : CampaignConfig
  pub user_id : ℕ
  pub change_note : Option String

abbrev pub trimmed_or_null : Option String → Option String
trimmed_or_null value = elim value [ none ↦ none | some text ↦ truthy (some (trim text)) ]

abbrev pub saved_campaign : SaveArgs → Campaign → Campaign
saved_campaign args c = record c {
  name = args.config.name;
  domain = args.config.domain;
  business_context = some args.config.business_context;
  script = some args.config.script;
  timezone = args.config.timezone;
  voice_provider = args.config.voice_provider;
  analysis_model = args.config.analysis_model;
  analysis_effort = args.config.analysis_effort;
  concurrency_limit = args.config.concurrency_limit;
  review_confidence_threshold = args.config.review_confidence_threshold;
  review_boundary_band = args.config.review_boundary_band;
  google_sheet_id = args.config.google_sheet_id;
  google_sheet_tab = args.config.google_sheet_tab;
  hubspot_integration_id = args.config.hubspot_integration_id;
  calling_config = args.config.calling_config;
  routing_config = args.config.routing_config;
  scoring_rubric = args.config.scoring_rubric;
  dial_allowlist = args.config.dial_allowlist;
  intake_property = trimmed_or_null args.config.intake_property;
  intake_values = map trim args.config.intake_values;
  intake_default = args.config.intake_default;
  config_version = c.config_version + 1;
  updated_by = some args.user_id;
}

abbrev pub is_target : SaveArgs → Campaign → Bool
is_target args c = c.id == args.campaign_id && c.tenant_id == args.tenant_id

-- The unique indexes on (tenant_id, name), and on tenant_id where intake_default.
pub clashes : SaveArgs → Campaign → Bool
clashes args c =
    not (c.id == args.campaign_id)
    && c.tenant_id == args.tenant_id
    && (str_eq c.name args.config.name || (args.config.intake_default && c.intake_default))

abbrev pub question_row : ℕ → QuestionConfig → Question
question_row campaign q = record {
  campaign_id = campaign;
  field_name = q.field_name;
  question = q.question;
  required = q.required;
  position = q.position;
}

-- The unique index on (campaign_id, field_name), among the new rows.
pub repeats : List QuestionConfig → Bool
repeats [] = false
repeats (q ∷ qs) = any (λ r. str_eq r.field_name q.field_name) qs || repeats qs

pub replaced_questions : Db → SaveArgs → List Question
replaced_questions db args =
    select_where (λ q. not (q.campaign_id == args.campaign_id)) db.questions
    ++ map (question_row args.campaign_id) args.config.questions

abbrev pub new_version : SaveArgs → ℕ → CampaignVersion
new_version args version = record {
  tenant_id = args.tenant_id;
  campaign_id = args.campaign_id;
  version = version;
  snapshot = args.config;
  changed_by = args.user_id;
  change_note = args.change_note;
}

-- The unique index on (campaign_id, version).
abbrev pub is_version : ℕ → ℕ → CampaignVersion → Bool
is_version campaign version v = v.campaign_id == campaign && v.version == version

pub saved : Db → SaveArgs → ℕ → Db
saved db args version = record db {
  campaigns = update_where (is_target args) (saved_campaign args) db.campaigns;
  questions = replaced_questions db args;
  campaign_versions = db.campaign_versions ++ new_version args version ∷ [];
}

pub store : Db → SaveArgs → ℕ → Outcome (Db × ℕ)
store db args version =
    if any (clashes args) db.campaigns
      || repeats args.config.questions
      || any (is_version args.campaign_id version) db.campaign_versions
    then err unique_violation
    else ok (saved db args version, version)

unfoldable pub save_campaign_config : Db → SaveArgs → Outcome (Db × ℕ)
unfolding store clashes repeats saved replaced_questions
save_campaign_config db args = do
  c ← or_throw (first_where (is_target args) db.campaigns) campaign_not_found
  store db args (c.config_version + 1)

pub record ActivationState : Type 0 where
  pub script : Option String
  pub questions : ℕ
  pub google_sheet_id : Option String
  pub hubspot_integration_id : Option ℕ

abbrev blocker_if : Bool → String → List String
blocker_if true text = text ∷ []
blocker_if false text = []

abbrev is_null {ℓ} : {A : Type ℓ} → Option A → Bool
is_null none = true
is_null (some a) = false

unfoldable pub activation_blockers : ActivationState → List String
activation_blockers c =
    blocker_if (elim c.script [ none ↦ true | some text ↦ is_blank text ])
      "No opening script configured"
    ++ blocker_if (c.questions == 0) "No qualification questions configured"
    ++ blocker_if (is_null (truthy c.google_sheet_id) && is_null c.hubspot_integration_id)
        "No Google Sheet or HubSpot destination for the results"
