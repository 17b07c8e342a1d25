-- ===== src/Pipeline.antt =====
-- lib/qualification/pipeline.ts: from an ended call to a stored analysis, and what a trusted one does.
-- The language model is a parameter, and so is what `new Date(text)` reads in a text.
pub mod Commit
pub mod Qualify
mod Tests
use voice_call.Base.{
  ℕ, suc, ◌+◌, ◌/◌, String, Bool, true, false, not, ◌&&◌, ◌||◌, Option, none, some, List, [], ◌∷◌,
  ◌++◌, ltb, ◌==◌, if◌then◌else◌, get_or, holds, is_some, map, first_where, select_where, sort_by,
  Outcome, ok, err, ◌>>=◌, or_throw, campaign_not_found, call_not_found, ◌+text◌, decimal, join,
}
use voice_call.Base.Int.{ℤ}
use voice_call.Schema.{
  Db, Lead, LeadStatus, CallAttempt, CallStatus, CallTranscript, CallAnalysis, Callback,
  CallbackStatus, RoutingEvent, SyncTarget, ReviewStatus, Envelope, Meta, audit_in_tx,
  find_campaign, find_tenant, find_lead, find_attempt, update_lead, RubricConfig, RoutingConfig,
  Campaign, Tenant,
}
use voice_call.Schema.Qualification.{
  QualificationResult, Intent, Unconnected, result_for_unconnected_call,
}
use voice_call.Pii.{Cipher, truthy, decrypt_pii_or_null}
use voice_call.Eligibility.{Suppression, suppress_lead}
use voice_call.Retry.{CallOutcome}
use voice_call.Outbox.{enqueue_sync}
use voice_call.Results.{RetryArgs, apply_retry_decision, lead_entry}
use voice_call.Scoring.{
  ScoringRubric, ScoreBreakdown, RoutingThresholds, RoutingAction, rubric_from_config,
  thresholds_from_config, score_result, decide_routing, qualification_label, integer_text,
}
use voice_call.Review.{
  ReviewGateInput, ReviewDecision, ReviewTrigger, ReasonPart, confidence_below, fields_unanswered,
  score_within, dnc_unverified, no_valid_result, pass, hold, evaluate_review_gate, intent_text,
}
use voice_call.Worker.{ScriptQuestion, question_order, script_question}

pub record CampaignRules : Type 0 where
  pub client_name : String
  pub campaign_name : String
  pub business_context : String
  pub product_service : Option String
  pub questions : List ScriptQuestion
  pub rubric : ScoringRubric
  pub thresholds : RoutingThresholds
  pub model : String
  pub effort : String
  pub prompt_version : String
  pub review_confidence_threshold : ℕ
  pub review_boundary_band : ℕ

abbrev pub no_rubric : RubricConfig
no_rubric = record {
  current_need_confirmed = none;
  short_timeline = none;
  budget_known = none;
  specific_product = none;
  accepts_human_followup = none;
  vague_curiosity = none;
  long_term_no_plan = none;
  explicit_rejection = none;
}

abbrev pub no_routing : RoutingConfig
no_routing = record { hot_threshold = none; interested_threshold = none }

-- The rules of a call without a campaign.
default_rules : CampaignRules
default_rules = record {
  client_name = "";
  campaign_name = "";
  business_context = "";
  product_service = none;
  questions = [];
  rubric = rubric_from_config no_rubric;
  thresholds = thresholds_from_config no_routing;
  model = "claude-opus-5";
  effort = "medium";
  prompt_version = "v1";
  review_confidence_threshold = 750;
  review_boundary_band = 5;
}

rules_of : Db → Campaign → Tenant → CampaignRules
rules_of db c t = record {
  client_name = t.name;
  campaign_name = c.name;
  business_context = get_or c.business_context "";
  product_service = c.domain;
  questions =
      map script_question
        (sort_by question_order (select_where (λ q. q.campaign_id == c.id) db.questions));
  rubric = rubric_from_config c.scoring_rubric;
  thresholds = thresholds_from_config c.routing_config;
  model = c.analysis_model;
  effort = c.analysis_effort;
  prompt_version = c.prompt_version;
  review_confidence_threshold = c.review_confidence_threshold;
  review_boundary_band = c.review_boundary_band;
}

pub load_campaign_rules : Db → Option ℕ → Outcome CampaignRules
load_campaign_rules db none = ok default_rules
load_campaign_rules db (some campaign) = do
  c ← or_throw (find_campaign db campaign) campaign_not_found
  t ← or_throw (find_tenant db c.tenant_id) campaign_not_found
  ok (rules_of db c t)

pub record CommitArgs : Type 0 where
  pub tenant_id : ℕ
  pub analysis_id : ℕ
  pub call_id : ℕ
  pub lead_id : ℕ
  pub campaign_id : Option ℕ
  pub attempt_no : ℕ
  pub result : QualificationResult
  pub score : ℤ
  pub routing_action : RoutingAction

abbrev pub action_text : RoutingAction → String
action_text RoutingAction.hot_sales_routing = "hot_sales_routing"
action_text RoutingAction.create_followup = "create_followup"
action_text RoutingAction.nurture = "nurture"
action_text RoutingAction.schedule_callback = "schedule_callback"
action_text RoutingAction.stop_campaign = "stop_campaign"
action_text RoutingAction.suppress_permanently = "suppress_permanently"
action_text RoutingAction.retry = "retry"

abbrev is_retry : RoutingAction → Bool
is_retry RoutingAction.retry = true
is_retry _ = false

abbrev is_hot : RoutingAction → Bool
is_hot RoutingAction.hot_sales_routing = true
is_hot _ = false

abbrev dnc_suppression : CommitArgs → Option String → Suppression
dnc_suppression args phone = record {
  tenant_id = args.tenant_id;
  lead_id = args.lead_id;
  phone_e164 = phone;
  reason = "voice_detected_dnc";
  source = "voice_detected";
  created_by = none;
}

-- 24 * 3600 * 1000
abbrev pub one_day : ℕ
one_day = 86400000

abbrev later_than : ℕ → Option ℕ → Option ℕ
later_than wall none = none
later_than wall (some t) = if ltb wall t then some t else none

-- The time that the lead named, if it can be read and lies ahead.
pub valid_time : (String → Option ℕ) → ℕ → QualificationResult → Option ℕ
valid_time read_time wall result = elim (truthy result.callback_time_iso) [
  | none ↦ none
  | some text ↦ later_than wall (read_time text)
]

abbrev promised_callback : Db → CommitArgs → ℕ → Callback
promised_callback db args at = record {
  id = db.next_id;
  tenant_id = args.tenant_id;
  lead_id = args.lead_id;
  call_id = some args.call_id;
  scheduled_for = at;
  status = CallbackStatus.scheduled;
  resolved_at = none;
  resolved_by = none;
  fulfilled_call_id = none;
  note = none;
}

promise : Db → CommitArgs → ℕ → Db
promise db args at = record db {
  next_id = suc db.next_id;
  callbacks = db.callbacks ++ promised_callback db args at ∷ [];
}

abbrev retry_args : CommitArgs → Option ℕ → RetryArgs
retry_args args at = record {
  tenant_id = args.tenant_id;
  lead_id = args.lead_id;
  campaign_id = args.campaign_id;
  outcome = CallOutcome.completed;
  attempts_made = args.attempt_no;
  callback_at = at;
}

abbrev pub qualified_lead : RoutingAction → Lead → Lead
qualified_lead action l = record l {
  status = LeadStatus.qualified;
  status_reason = some (action_text action);
  next_call_at = none;
  locked_by = none;
  lock_expires_at = none;
}

module _ (cipher : Cipher) (read_time : String → Option ℕ) (wall : ℕ) where
  -- Suppression, callback, or the end of the calls.
  pub settle_lead : Db → CommitArgs → Option String → Db
  settle_lead db args phone =
      if args.result.do_not_call
      then suppress_lead cipher db (dnc_suppression args phone)
      else if args.result.callback_requested
      then apply_retry_decision
          (promise db args (get_or (valid_time read_time wall args.result) (wall + one_day)))
          (retry_args args (valid_time read_time wall args.result)) wall
      else if is_retry args.routing_action
      then db
      else update_lead db args.lead_id (qualified_lead args.routing_action)

  -- A hot lead, or one that asked for a person, is announced to sales.
  pub announce : Db → CommitArgs → Db
  announce db args =
      if is_hot args.routing_action || args.result.human_followup
      then enqueue_sync
          (record db {
            routing_events =
                db.routing_events
                ++ record {
                  lead_id = args.lead_id;
                  call_id = args.call_id;
                  action = action_text args.routing_action;
                  status = "pending";
                }
                  ∷ [];
          })
          args.tenant_id SyncTarget.notification ("notify:" +text decimal args.call_id)
          (("call_id", Meta.number args.call_id)
            ∷ ("lead_id", Meta.number args.lead_id)
            ∷ ("analysis_id", Meta.number args.analysis_id)
            ∷ ("intent", Meta.text (intent_text args.result.intent))
            ∷ ("score", Meta.integer args.score)
            ∷ [])
      else db

  -- The row of the sheet and the update of the CRM.
  pub publish : Db → CommitArgs → Db
  publish db args =
      enqueue_sync
        (enqueue_sync db args.tenant_id SyncTarget.google_sheets (decimal args.call_id) (
          ("call_id", Meta.number args.call_id)
          ∷ ("analysis_id", Meta.number args.analysis_id)
          ∷ []))
        args.tenant_id SyncTarget.hubspot (decimal args.call_id)
        (("call_id", Meta.number args.call_id)
          ∷ ("analysis_id", Meta.number args.analysis_id)
          ∷ ("lead_id", Meta.number args.lead_id)
          ∷ [])

  unfoldable pub commit_analysis : Db → CommitArgs → Outcome Db
  commit_analysis db args = do
    phone ←
        decrypt_pii_or_null cipher
          (elim (find_lead db args.lead_id) [ none ↦ none | some l ↦ l.phone_enc ])
    ok (publish (announce (settle_lead db args phone) args) args)
