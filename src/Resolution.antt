-- ===== src/Resolution.antt =====
-- lib/qualification/resolve.ts: an operator confirms, corrects or rejects a held result. `wall` is
-- the process's clock. The stored payload is a result of the schema already, and the tag `reviewed`
-- that the update adds to it is left out.
mod Correcting
mod Laws
mod Release
mod Tests
unfoldable pub use Correcting.{is_valid, merged}
pub use Correcting.{Corrections, redact, changed_fields}
use voice_call.Base.{
  ℕ, String, Bool, true, false, not, ◌&&◌, Option, none, some, List, [], ◌∷◌, ◌++◌, leb, ◌==◌,
  str_eq, if◌then◌else◌, get_or, or_else, is_some, first_where, update_where, Outcome, ok, err,
  ◌>>=◌, or_throw, text_length, analysis_not_found, not_pending_review, invalid_correction,
  invalid_stored_payload,
}
use voice_call.Base.Int.{ℤ, pos}
use voice_call.Schema.{
  Db, CallAnalysis, CallAttempt, ReviewStatus, ActorType, Meta, AuditEntry, audit_in_tx,
  find_attempt, find_campaign, Campaign,
}
use voice_call.Schema.Qualification.{QualificationResult, RedactedResult, Intent, Timeline}
use voice_call.Pii.{Cipher}
use voice_call.Retry.{CallOutcome}
use voice_call.Results.{RetryArgs, apply_retry_decision}
use voice_call.Scoring.{
  ScoringRubric, RoutingThresholds, RoutingAction, rubric_from_config, thresholds_from_config,
  score_result, decide_routing, qualification_label,
}
use voice_call.Review.{intent_text, timeline_text}
use voice_call.Pipeline.{CommitArgs, commit_analysis, action_text, no_rubric, no_routing}

pub data ResolutionAction : Type 0 where
  confirm reject : ResolutionAction
  correct : Corrections → ResolutionAction

pub record ResolveArgs : Type 0 where
  pub tenant_id : ℕ
  pub analysis_id : ℕ
  pub action : ResolutionAction
  pub reviewer_id : ℕ
  pub reviewer_label : String
  pub note : Option String

pub record ResolveResult : Type 0 where
  pub analysis_id : ℕ
  pub review_status : ReviewStatus
  pub score : ℤ
  pub intent : Intent
  pub routing_action : String

-- { ...original, ...corrections }
abbrev pub corrected : ResolutionAction → QualificationResult → QualificationResult
corrected (correct corrections) r = merged r corrections
corrected _ r = r

pub record ScoringConfig : Type 0 where
  pub rubric : ScoringRubric
  pub thresholds : RoutingThresholds

pub load_scoring_config : Db → Option ℕ → ScoringConfig
load_scoring_config db none = record {
  rubric = rubric_from_config no_rubric;
  thresholds = thresholds_from_config no_routing;
}
load_scoring_config db (some campaign) = elim (find_campaign db campaign) [
  | none ↦ record {
    rubric = rubric_from_config no_rubric;
    thresholds = thresholds_from_config no_routing;
  }
  | some c ↦ record {
    rubric = rubric_from_config c.scoring_rubric;
    thresholds = thresholds_from_config c.routing_config;
  }
]

abbrev pub is_pending : ReviewStatus → Bool
is_pending ReviewStatus.pending_review = true
is_pending _ = false

abbrev meta_note : Option String → Meta
meta_note none = Meta.null
meta_note (some note) = Meta.text note

pub review_entry : ResolveArgs → String → List (String × Meta) → AuditEntry
review_entry args action metadata = record {
  tenant_id = args.tenant_id;
  actor_type = ActorType.user;
  actor_id = some args.reviewer_id;
  actor_label = some args.reviewer_label;
  action = action;
  entity_type = "call_analysis";
  entity_id = Meta.number args.analysis_id;
  metadata = metadata;
}

abbrev pub rejected_analysis : ℕ → ResolveArgs → CallAnalysis → CallAnalysis
rejected_analysis now args a = record a {
  review_status = ReviewStatus.rejected;
  reviewed_by = some args.reviewer_id;
  reviewed_at = some now;
  review_reason = or_else args.note a.review_reason;
}

pub update_analysis : Db → ℕ → (CallAnalysis → CallAnalysis) → Db
update_analysis db id f = record db {
  call_analyses = update_where (λ a. a.id == id) f db.call_analyses;
}

abbrev pub retry_of : ResolveArgs → CallAttempt → RetryArgs
retry_of args c = record {
  tenant_id = args.tenant_id;
  lead_id = c.lead_id;
  campaign_id = c.campaign_id;
  outcome = CallOutcome.no_answer;
  attempts_made = c.attempt_no;
  callback_at = none;
}

pub reject_review : ℕ → Db → ResolveArgs → CallAnalysis → CallAttempt → Db × ResolveResult
reject_review wall db args a c = (
  audit_in_tx
      (apply_retry_decision (update_analysis db args.analysis_id (rejected_analysis db.now args))
        (retry_of args c) wall)
      (review_entry args "review.rejected" (("note", meta_note args.note) ∷ [])),
  record {
    analysis_id = args.analysis_id;
    review_status = ReviewStatus.rejected;
    score = pos 0;
    intent = a.result.intent;
    routing_action = "rejected";
  },
)

abbrev pub released_status : ResolutionAction → ReviewStatus
released_status (correct corrections) = ReviewStatus.corrected
released_status _ = ReviewStatus.confirmed

abbrev released_name : ResolutionAction → String
released_name (correct corrections) = "review.corrected"
released_name _ = "review.confirmed"

abbrev correction_entries :
    ResolutionAction → QualificationResult → QualificationResult → List (String × Meta)
correction_entries (correct corrections) before after =
    ("changed_fields", Meta.texts (changed_fields before after))
    ∷ ("original", Meta.redacted (redact before))
    ∷ []
correction_entries _ before after = ("changed_fields", Meta.texts []) ∷ []

pub score_of : ScoringConfig → QualificationResult → ℤ
score_of config r = (score_result r config.rubric).score

pub action_of : ScoringConfig → QualificationResult → RoutingAction
action_of config r = (decide_routing r (score_of config r) config.thresholds).action

pub released_analysis :
    ℕ → ResolveArgs → ScoringConfig → QualificationResult → CallAnalysis → CallAnalysis
released_analysis now args config r a = record a {
  review_status = released_status args.action;
  reviewed_by = some args.reviewer_id;
  reviewed_at = some now;
  intent = r.intent;
  score = score_of config r;
  qualification = qualification_label r (score_of config r);
  result = r;
  signals = (score_result r config.rubric).signals;
  routing_action = action_text (action_of config r);
}

-- The update and its audit entry.
pub record_release : Db → ResolveArgs → ScoringConfig → CallAnalysis → QualificationResult → Db
record_release db args config a r =
    audit_in_tx (update_analysis db args.analysis_id (released_analysis db.now args config r)) (
      review_entry args (released_name args.action) (
        (("note", meta_note args.note) ∷ [])
        ++ correction_entries args.action a.result r
        ++ ("final", Meta.redacted (redact r)) ∷ ("score", Meta.integer (score_of config r)) ∷ []))

abbrev pub released_args :
    ResolveArgs → ScoringConfig → CallAttempt → QualificationResult → CommitArgs
released_args args config c r = record {
  tenant_id = args.tenant_id;
  analysis_id = args.analysis_id;
  call_id = c.id;
  lead_id = c.lead_id;
  campaign_id = c.campaign_id;
  attempt_no = c.attempt_no;
  result = r;
  score = score_of config r;
  routing_action = action_of config r;
}

abbrev released_result : ResolveArgs → ScoringConfig → QualificationResult → ResolveResult
released_result args config r = record {
  analysis_id = args.analysis_id;
  review_status = released_status args.action;
  score = score_of config r;
  intent = r.intent;
  routing_action = action_text (action_of config r);
}

module _ (cipher : Cipher) (read_time : String → Option ℕ) (wall : ℕ) where
  pub release_review :
      Db
      → ResolveArgs
      → CallAnalysis
      → CallAttempt
      → QualificationResult
      → Outcome (Db × ResolveResult)
  release_review db args a c r =
      let config = load_scoring_config db c.campaign_id in
      if is_valid r
      then (do
        db' ←
            commit_analysis cipher read_time wall (record_release db args config a r)
              (released_args args config c r)
        ok (db', released_result args config r))
      else err invalid_correction

  pub resolve_pending :
      Db
      → ResolveArgs
      → CallAnalysis
      → CallAttempt
      → ResolutionAction
      → Outcome (Db × ResolveResult)
  resolve_pending db args a c reject = ok (reject_review wall db args a c)
  resolve_pending db args a c confirm = release_review db args a c a.result
  resolve_pending db args a c (correct corrections) =
      release_review db args a c (merged a.result corrections)

  -- The stored payload is parsed first.
  pub resolve_stored : Db → ResolveArgs → CallAnalysis → CallAttempt → Outcome (Db × ResolveResult)
  resolve_stored db args a c =
      if is_valid a.result
      then resolve_pending db args a c args.action
      else err invalid_stored_payload

  unfoldable pub resolve_review : Db → ResolveArgs → Outcome (Db × ResolveResult)
  unfolding resolve_stored resolve_pending release_review reject_review
  resolve_review db args = do
    a ← or_throw (first_where (λ x. x.id == args.analysis_id) db.call_analyses) analysis_not_found
    c ← or_throw (find_attempt db a.call_id) analysis_not_found
    elim (is_pending a.review_status) [
      | true ↦ resolve_stored db args a c
      | false ↦ err not_pending_review
    ]
