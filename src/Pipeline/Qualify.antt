-- ===== src/Pipeline/Qualify.antt =====
-- lib/qualification/pipeline.ts, `qualifyCall`: the analysis of one call.
pub mod Laws
mod Tests
use voice_call.Base.{
  ℕ, suc, ◌+◌, ◌/◌, String, Bool, true, false, not, ◌&&◌, ◌||◌, Option, none, some, List, [], ◌∷◌,
  ◌++◌, ◌==◌, if◌then◌else◌, holds, is_some, map, first_where, select_where, Outcome, ok, ◌>>=◌,
  or_throw, call_not_found, ◌+text◌, decimal, join,
}
use Prim.Native.Nat.{◌%◌}
use voice_call.Base.Int.{ℤ}
use voice_call.Schema.{
  Db, Lead, LeadStatus, CallAttempt, CallStatus, CallTranscript, CallAnalysis, ReviewStatus,
  Envelope, Meta, audit_in_tx, find_attempt, update_lead, is_completed,
}
use voice_call.Schema.Qualification.{
  QualificationResult, Intent, Unconnected, result_for_unconnected_call,
}
use voice_call.Pii.{Cipher, truthy, decrypt_pii_or_null}
use voice_call.Results.{lead_entry}
use voice_call.Scoring.{
  RoutingAction, score_result, decide_routing, qualification_label, integer_text,
}
use voice_call.Review.{
  ReviewGateInput, ReviewDecision, ReviewTrigger, ReasonPart, confidence_below, fields_unanswered,
  score_within, dnc_unverified, no_valid_result, pass, hold, evaluate_review_gate, intent_text,
}
use voice_call.Pipeline.{
  CampaignRules, load_campaign_rules, CommitArgs, action_text, commit_analysis,
}

-- What the model is asked about, and what comes back; its cost in tokens and time is left out.
pub record AnalysisRequest : Type 0 where
  pub transcript : String
  pub call_duration_sec : Option ℕ
  pub campaign : CampaignRules

pub record Analysis : Type 0 where
  pub result : QualificationResult
  pub model : String
  pub prompt_version : String
  pub degraded : Bool

-- "already_analysed", "held_for_review" or a routing action.
pub record QualifyOutcome : Type 0 where
  pub analysis_id : ℕ
  pub intent : Intent
  pub score : ℤ
  pub review_status : ReviewStatus
  pub routing_action : String
  pub synced : Bool
  pub degraded : Bool

abbrev already_analysed : CallAnalysis → QualifyOutcome
already_analysed a = record {
  analysis_id = a.id;
  intent = a.intent;
  score = a.score;
  review_status = a.review_status;
  routing_action = "already_analysed";
  synced = false;
  degraded = false;
}

-- order by created_at desc limit 1: the last one that was inserted
latest_transcript : ℕ → Option CallTranscript → List CallTranscript → Option CallTranscript
latest_transcript call found [] = found
latest_transcript call found (t ∷ ts) =
    latest_transcript call (if t.call_id == call then some t else found) ts

pub transcript_enc_of : Db → ℕ → Option Envelope
transcript_enc_of db call = elim (latest_transcript call none db.call_transcripts) [
  | none ↦ none
  | some t ↦ t.transcript_enc
]

abbrev unconnected_of : CallStatus → Unconnected
unconnected_of CallStatus.no_answer = Unconnected.no_answer
unconnected_of CallStatus.busy = Unconnected.busy
unconnected_of CallStatus.canceled = Unconnected.canceled
unconnected_of _ = Unconnected.failed

-- The transcript of a conversation that took place.
abbrev pub conversation : CallStatus → Option String → Option String
conversation status transcript = if is_completed status then truthy transcript else none

-- A confidence of so many thousandths with two decimals; a tie is rounded up, where the code depends
-- on the double.
two_decimals : ℕ → String
two_decimals n =
    let hundredths = (n + 5) / 10 in
    decimal (hundredths / 100)
    +text "."
    +text decimal (hundredths % 100 / 10)
    +text decimal (hundredths % 10)

-- The shortest decimal of so many thousandths.
thousandths : ℕ → String
thousandths n =
    if n % 1000 == 0
    then decimal (n / 1000)
    else if n % 100 == 0
    then decimal (n / 1000) +text "." +text decimal (n % 1000 / 100)
    else if n % 10 == 0
    then decimal (n / 1000) +text "." +text decimal (n % 1000 / 100) +text decimal (n % 100 / 10)
    else decimal (n / 1000)
      +text "."
      +text decimal (n % 1000 / 100)
      +text decimal (n % 100 / 10)
      +text decimal (n % 10)

part_text : ReasonPart → String
part_text (confidence_below confidence threshold) =
    "confidence "
    +text two_decimals confidence
    +text " below threshold "
    +text thousandths threshold
part_text (fields_unanswered missing) = "required fields unanswered: " +text join ", " missing
part_text (score_within score band) =
    "score "
    +text integer_text score
    +text " within "
    +text decimal band
    +text " of a routing boundary"
part_text dnc_unverified = "do-not-call detected below 0.90 confidence; suppression is irreversible"
part_text no_valid_result = "analysis did not produce a valid result"

pub reason_text : List ReasonPart → String
reason_text parts = join "; " (map part_text parts)

abbrev trigger_text : ReviewTrigger → String
trigger_text ReviewTrigger.low_confidence = "low_confidence"
trigger_text ReviewTrigger.missing_required_fields = "missing_required_fields"
trigger_text ReviewTrigger.boundary_band = "boundary_band"
trigger_text ReviewTrigger.dnc_needs_verification = "dnc_needs_verification"
trigger_text ReviewTrigger.analysis_failed = "analysis_failed"

abbrev triggers_of : ReviewDecision → List String
triggers_of pass = []
triggers_of (hold triggers parts) = map trigger_text triggers

abbrev reason_of : ReviewDecision → Option String
reason_of pass = none
reason_of (hold triggers parts) = some (reason_text parts)

abbrev status_of : ReviewDecision → ReviewStatus
status_of pass = ReviewStatus.auto_approved
status_of (hold triggers parts) = ReviewStatus.pending_review

abbrev status_name : ReviewDecision → String
status_name pass = "auto_approved"
status_name (hold triggers parts) = "pending_review"

pub gate_input : CampaignRules → QualificationResult → Bool → ReviewGateInput
gate_input rules result unconnected = record {
  result = result;
  score = (score_result result rules.rubric).score;
  confidence_threshold = rules.review_confidence_threshold;
  boundary_band = rules.review_boundary_band;
  thresholds = rules.thresholds;
  required_fields = map (λ q. q.field_name) (select_where (λ q. q.required) rules.questions);
  unconnected = unconnected;
}

pub routing_of : CampaignRules → QualificationResult → RoutingAction
routing_of rules result =
    (decide_routing result (score_result result rules.rubric).score rules.thresholds).action

new_analysis : Db → CallAttempt → CampaignRules → Analysis → ReviewDecision → CallAnalysis
new_analysis db c rules analysis gate =
    let breakdown = score_result analysis.result rules.rubric in
    record {
      id = db.next_id;
      call_id = c.id;
      intent = analysis.result.intent;
      score = breakdown.score;
      qualification = qualification_label analysis.result breakdown.score;
      result = analysis.result;
      signals = breakdown.signals;
      routing_action = action_text (routing_of rules analysis.result);
      confidence = analysis.result.confidence;
      model = analysis.model;
      prompt_version = analysis.prompt_version;
      review_status = status_of gate;
      review_reason = reason_of gate;
      reviewed_by = none;
      reviewed_at = none;
    }

-- The analysis is stored and recorded, whatever the gate says.
store_analysis : Db → ℕ → CallAttempt → CampaignRules → Analysis → ReviewDecision → Db
store_analysis db tenant c rules analysis gate =
    audit_in_tx
      (record db {
        next_id = suc db.next_id;
        call_analyses = db.call_analyses ++ new_analysis db c rules analysis gate ∷ [];
      })
      (lead_entry tenant "analysis.completed" "call" c.id (
        ("intent", Meta.text (intent_text analysis.result.intent))
        ∷ ("score", Meta.integer (score_result analysis.result rules.rubric).score)
        ∷ ("confidence", Meta.number analysis.result.confidence)
        ∷ ("review_status", Meta.text (status_name gate))
        ∷ ("triggers", Meta.texts (triggers_of gate))
        ∷ ("degraded", Meta.flag analysis.degraded)
        ∷ ("model", Meta.text analysis.model)
        ∷ []))

abbrev held_lead : Option String → Lead → Lead
held_lead reason l = record l { status = LeadStatus.pending_review; status_reason = reason }

abbrev outcome_of : Db → CampaignRules → Analysis → ReviewDecision → String → Bool → QualifyOutcome
outcome_of db rules analysis gate action synced = record {
  analysis_id = db.next_id;
  intent = analysis.result.intent;
  score = (score_result analysis.result rules.rubric).score;
  review_status = status_of gate;
  routing_action = action;
  synced = synced;
  degraded = analysis.degraded;
}

abbrev commit_args : Db → ℕ → CallAttempt → CampaignRules → Analysis → CommitArgs
commit_args db tenant c rules analysis = record {
  tenant_id = tenant;
  analysis_id = db.next_id;
  call_id = c.id;
  lead_id = c.lead_id;
  campaign_id = c.campaign_id;
  attempt_no = c.attempt_no;
  result = analysis.result;
  score = (score_result analysis.result rules.rubric).score;
  routing_action = routing_of rules analysis.result;
}

module _ (cipher : Cipher) (read_time : String → Option ℕ) (analyze : AnalysisRequest → Analysis)
    (tenant wall : ℕ) where
  -- The model is asked only about a conversation.
  pub analysis_of : CampaignRules → CallAttempt → Option String → Analysis
  analysis_of rules c none = record {
    result = result_for_unconnected_call (unconnected_of c.status);
    model = "none";
    prompt_version = rules.prompt_version;
    degraded = false;
  }
  analysis_of rules c (some transcript) =
      analyze
        (record { transcript = transcript; call_duration_sec = c.duration_sec; campaign = rules })

  finish :
      Db → CallAttempt → CampaignRules → Analysis → ReviewDecision → Outcome (Db × QualifyOutcome)
  finish db c rules analysis (hold triggers parts) = ok (
    update_lead (store_analysis db tenant c rules analysis (hold triggers parts)) c.lead_id
        (held_lead (some (reason_text parts))),
    outcome_of db rules analysis (hold triggers parts) "held_for_review" false,
  )
  finish db c rules analysis pass = do
    db' ←
        commit_analysis cipher read_time wall (store_analysis db tenant c rules analysis pass)
          (commit_args db tenant c rules analysis)
    ok (
      db',
      outcome_of db rules analysis pass (action_text (routing_of rules analysis.result)) true,
    )

  analyse : Db → CallAttempt → CampaignRules → Option String → Outcome (Db × QualifyOutcome)
  analyse db c rules transcript =
      let analysis = analysis_of rules c transcript in
      finish db c rules analysis
        (evaluate_review_gate (gate_input rules analysis.result (not (is_some transcript))))

  qualify_new : Db → CallAttempt → Outcome (Db × QualifyOutcome)
  qualify_new db c = do
    rules ← load_campaign_rules db c.campaign_id
    transcript ← decrypt_pii_or_null cipher (transcript_enc_of db c.id)
    analyse db c rules (conversation c.status transcript)

  pub qualify_call : Db → ℕ → Outcome (Db × QualifyOutcome)
  qualify_call db call = do
    c ← or_throw (find_attempt db call) call_not_found
    elim (first_where (λ a. a.call_id == call) db.call_analyses) [
      | some a ↦ ok (db, already_analysed a)
      | none ↦ qualify_new db c
    ]
