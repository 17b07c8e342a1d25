-- ===== src/Results.antt =====
-- lib/calling/results.ts: what a provider's webhook does to the call and its lead. `wall` is the
-- caller's clock, `new Date()`, and `iv` a nonce; a time in an audit entry is a number.
pub mod Retrying
pub mod Delivery
mod Tests
use voice_call.Base.{
  ℕ, suc, ◌+◌, String, Bool, true, false, not, ◌&&◌, ◌||◌, Option, none, some, List, [], ◌∷◌, ◌++◌,
  ◌==◌, str_eq, if◌then◌else◌, holds, is_some, any, first_where, Outcome, ok, ◌>>=◌,
}
use voice_call.Schema.{
  Db, CallAttempt, CallStatus, CallTranscript, Lead, LeadStatus, CallingConfig, is_completed,
  ActorType, Meta, AuditEntry, audit_in_tx, find_lead, find_campaign, update_lead, update_attempt,
}
use voice_call.Pii.{Cipher, encrypt_pii, decrypt_pii_or_null}
use voice_call.Eligibility.{Suppression, suppress_lead}
use voice_call.Retry.{
  CallOutcome, StopReason, RetryDecision, retry, callback, stop, retry_policy_from_config,
  decide_retry,
}

-- A webhook as an adapter normalises it; `suppress` carries its reason, `transcript` its text and
-- language.
pub record NormalizedWebhook : Type 0 where
  pub provider_call_id : String
  pub status : CallStatus
  pub duration_sec : Option ℕ
  pub failure_reason : Option String
  pub transcript : Option (String × Option String)
  pub suppress : Option String

pub data ResultOutcome : Type 0 where
  recorded : (call_id : ℕ) → (needs_analysis : Bool) → ResultOutcome
  duplicate : (call_id : ℕ) → ResultOutcome
  unknown_call : ResultOutcome

abbrev pub is_terminal : CallStatus → Bool
is_terminal CallStatus.initiated = false
is_terminal CallStatus.ringing = false
is_terminal CallStatus.answered = false
is_terminal _ = true

abbrev pub lead_entry : ℕ → String → String → ℕ → List (String × Meta) → AuditEntry
lead_entry tenant action entity id metadata = record {
  tenant_id = tenant;
  actor_type = ActorType.service;
  actor_id = none;
  actor_label = none;
  action = action;
  entity_type = entity;
  entity_id = Meta.number id;
  metadata = metadata;
}

abbrev meta_text : Option String → Meta
meta_text none = Meta.null
meta_text (some s) = Meta.text s

abbrev meta_number : Option ℕ → Meta
meta_number none = Meta.null
meta_number (some n) = Meta.number n

abbrev outcome_text : CallOutcome → String
outcome_text CallOutcome.completed = "completed"
outcome_text CallOutcome.no_answer = "no_answer"
outcome_text CallOutcome.busy = "busy"
outcome_text CallOutcome.failed = "failed"
outcome_text CallOutcome.canceled = "canceled"
outcome_text CallOutcome.do_not_call = "do_not_call"

abbrev stop_text : StopReason → String
stop_text StopReason.max_attempts_reached = "max_attempts_reached"
stop_text StopReason.do_not_call = "do_not_call"
stop_text StopReason.completed = "completed"
stop_text StopReason.terminal = "terminal"

abbrev pub requeued : ℕ → String → Lead → Lead
requeued at reason l = record l {
  status = LeadStatus.queued;
  next_call_at = some at;
  status_reason = some reason;
  locked_by = none;
  locked_at = none;
  lock_expires_at = none;
}

abbrev pub stopped_status : StopReason → LeadStatus
stopped_status StopReason.do_not_call = LeadStatus.suppressed
stopped_status _ = LeadStatus.closed

abbrev pub stopped : StopReason → Lead → Lead
stopped reason l = record l {
  status = stopped_status reason;
  status_reason = some (stop_text reason);
  next_call_at = none;
  locked_by = none;
  locked_at = none;
  lock_expires_at = none;
}

-- The update that a decision makes of the lead.
pub decided : RetryDecision → Lead → Lead
decided (retry at n outcome) = requeued at (outcome_text outcome)
decided (callback at) = requeued at "callback_requested"
decided (stop reason) = stopped reason

pub record RetryArgs : Type 0 where
  pub tenant_id : ℕ
  pub lead_id : ℕ
  pub campaign_id : Option ℕ
  pub outcome : CallOutcome
  pub attempts_made : ℕ
  pub callback_at : Option ℕ

abbrev empty_config : CallingConfig
empty_config = record {
  window_start = none;
  window_end = none;
  timezone = none;
  days = none;
  max_attempts = none;
  retry_minutes = none;
  busy_retry_minutes = none;
  country = none;
}

pub calling_config_of : Db → Option ℕ → CallingConfig
calling_config_of db none = empty_config
calling_config_of db (some id) = elim (find_campaign db id) [
  | none ↦ empty_config
  | some c ↦ c.calling_config
]

pub retry_decision : Db → RetryArgs → ℕ → RetryDecision
retry_decision db args wall =
    decide_retry args.outcome args.attempts_made
      (retry_policy_from_config (calling_config_of db args.campaign_id)) args.callback_at wall

decision_entry : RetryArgs → RetryDecision → AuditEntry
decision_entry args (retry at n why) = lead_entry args.tenant_id "lead.retry" "lead" args.lead_id (
    ("outcome", Meta.text (outcome_text args.outcome))
    ∷ ("attempts_made", Meta.number args.attempts_made)
    ∷ ("reason", Meta.text (outcome_text why))
    ∷ ("next_call_at", Meta.number at)
    ∷ [])
decision_entry args (callback at) = lead_entry args.tenant_id "lead.callback" "lead" args.lead_id (
    ("outcome", Meta.text (outcome_text args.outcome))
    ∷ ("attempts_made", Meta.number args.attempts_made)
    ∷ ("reason", Meta.text "callback_requested")
    ∷ ("next_call_at", Meta.number at)
    ∷ [])
decision_entry args (stop why) = lead_entry args.tenant_id "lead.stop" "lead" args.lead_id (
    ("outcome", Meta.text (outcome_text args.outcome))
    ∷ ("attempts_made", Meta.number args.attempts_made)
    ∷ ("reason", Meta.text (stop_text why))
    ∷ ("next_call_at", Meta.null)
    ∷ [])

pub apply_retry_decision : Db → RetryArgs → ℕ → Db
apply_retry_decision db args wall =
    let decision = retry_decision db args wall in
    audit_in_tx (update_lead db args.lead_id (decided decision)) (decision_entry args decision)
