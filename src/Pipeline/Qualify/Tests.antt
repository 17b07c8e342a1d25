-- ===== src/Pipeline/Qualify/Tests.antt =====
-- A call whose analysis is held for review, and asked for again.
use voice_call.Base.{
  true, List, arith, All, ℕ, ◌≡◌, refl, String, false, Option, none, some, [], ◌∷◌, ok, first_where,
}
use voice_call.Fixtures.{
  plain_cipher, a_campaign, a_tenant, result_or, a_db, a_lead, an_attempt, an_envelope, keen_result,
}
use voice_call.Base.Int.{pos}
use voice_call.Schema.{
  Db, LeadStatus, CallStatus, CallAnalysis, ReviewStatus, find_attempt, find_campaign, find_tenant,
  update_lead, audit_in_tx,
}
use voice_call.Schema.Qualification.{Intent, unknown_result}
use voice_call.Pii.{decrypt_pii, decrypt_pii_or_null, truthy}
use voice_call.Review.Laws.{evaluate_review_gate-unknown_result}
use voice_call.Review.{hold, ReasonPart, ReviewTrigger, confidence_below, evaluate_review_gate}
use voice_call.Pipeline.{CampaignRules, load_campaign_rules, rules_of}
use voice_call.Pipeline.Qualify.{
  Analysis, AnalysisRequest, QualifyOutcome, already_analysed, qualify_call, qualify_new, analyse,
  finish, analysis_of, transcript_enc_of, latest_transcript, store_analysis, gate_input,
}
use voice_call.Pipeline.Qualify.Laws.{
  SameDownstream, analysis_for, qualify_call_once, qualify_call_held,
}

-- The model is not sure.
abbrev unsure : AnalysisRequest → Analysis
unsure request = record {
  result = record keen_result { confidence = 300 };
  model = "model";
  prompt_version = "v1";
  degraded = false;
}

abbrev unreadable : String → Option ℕ
unreadable text = none

abbrev talked : Db
talked =
    record (a_db (a_lead 7 LeadStatus.awaiting_analysis ∷ [])
      (an_attempt 4 7 CallStatus.completed ∷ [])) {
        call_transcripts =
            record { call_id = 4; transcript_enc = some (an_envelope "Hello"); language = none }
            ∷ [];
      }

abbrev nothing : Db × QualifyOutcome
nothing = (
  talked,
  record {
    analysis_id = 0;
    intent = Intent.unknown;
    score = pos 0;
    review_status = ReviewStatus.auto_approved;
    routing_action = "";
    synced = false;
    degraded = false;
  },
)

abbrev held : Db × QualifyOutcome
held = result_or nothing (qualify_call plain_cipher unreadable unsure 1 10500 talked 4)

held-ok : qualify_call plain_cipher unreadable unsure 1 10500 talked 4 ≡ ok held
unfolding qualify_call qualify_new analyse finish analysis_of load_campaign_rules rules_of
    transcript_enc_of latest_transcript find_attempt first_where find_campaign find_tenant
    decrypt_pii decrypt_pii_or_null truthy evaluate_review_gate gate_input
held-ok = refl

abbrev its_rules : CampaignRules
its_rules = rules_of talked a_campaign a_tenant

-- The model failed, and what stands in for its answer is held.
abbrev failing : AnalysisRequest → Analysis
failing request = record {
  result = unknown_result "no answer from the model";
  model = "model";
  prompt_version = "v1";
  degraded = true;
}

failing_held :
    (triggers : List ReviewTrigger) × (parts : List ReasonPart) × (evaluate_review_gate
        (gate_input its_rules (unknown_result "no answer from the model") false)
      ≡ hold (ReviewTrigger.low_confidence ∷ triggers) (confidence_below 0 700 ∷ parts))
unfolding gate_input rules_of
failing_held =
    evaluate_review_gate-unknown_result
      (gate_input its_rules (unknown_result "no answer from the model") false)
      "no answer from the model" refl refl (omega arith)

qualify_call_held_example :
    (out : Db × QualifyOutcome) × (a : CallAnalysis) × (qualify_call plain_cipher unreadable failing
        1 10500 talked 4
      ≡ ok out)
    × SameDownstream talked out.0
    × (out.1.synced ≡ false)
    × (out.1.review_status ≡ ReviewStatus.pending_review)
    × (out.0.call_analyses ≡ a ∷ [])
    × (a.call_id ≡ 4)
    × (a.result ≡ unknown_result "no answer from the model")
    × (a.review_status ≡ ReviewStatus.pending_review)
    × All (λ l. l.id ≡ 7 → l.status ≡ LeadStatus.pending_review) out.0.leads
unfolding load_campaign_rules rules_of transcript_enc_of latest_transcript find_attempt first_where
    find_campaign find_tenant decrypt_pii decrypt_pii_or_null truthy evaluate_review_gate gate_input
    analysis_of
qualify_call_held_example =
    qualify_call_held plain_cipher unreadable failing 1 10500 4 talked
      (an_attempt 4 7 CallStatus.completed) its_rules (some "Hello")
      (ReviewTrigger.low_confidence ∷ failing_held.0) (confidence_below 0 700 ∷ failing_held.1) refl
      refl refl refl (failing_held.2)

-- The model is sure the second time, and is not asked.
abbrev sure : AnalysisRequest → Analysis
sure request = record {
  result = keen_result;
  model = "model";
  prompt_version = "v1";
  degraded = false;
}

call_found : find_attempt held.0 4 ≡ some (an_attempt 4 7 CallStatus.completed)
unfolding qualify_call qualify_new analyse finish analysis_of load_campaign_rules rules_of
    transcript_enc_of latest_transcript find_attempt first_where find_campaign find_tenant
    decrypt_pii decrypt_pii_or_null truthy evaluate_review_gate gate_input store_analysis
    audit_in_tx update_lead
call_found = refl

qualify_call_once_example :
    (a : CallAnalysis) × (analysis_for held.0 4 ≡ some a)
    × (qualify_call plain_cipher unreadable sure 1 20000 held.0 4 ≡ ok (held.0, already_analysed a))
qualify_call_once_example =
    qualify_call_once plain_cipher unreadable unreadable unsure sure 1 10500 20000 4 talked held.0
      held (an_attempt 4 7 CallStatus.completed) held-ok refl call_found
