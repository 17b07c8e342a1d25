-- ===== src/Results/Delivery.antt =====
-- lib/calling/results.ts, `recordCallResult`: one delivery of a webhook.
pub mod Laws
mod Tests
use voice_call.Base.{
  ℕ, String, Bool, true, false, not, ◌&&◌, ◌||◌, Option, none, some, List, [], ◌∷◌, ◌++◌, ◌==◌,
  str_eq, if◌then◌else◌, holds, is_some, any, first_where, Outcome, ok, ◌>>=◌,
}
use voice_call.Schema.{
  Db, CallAttempt, CallStatus, CallTranscript, Envelope, Lead, LeadStatus, is_completed, Meta,
  AuditEntry, audit_in_tx, find_lead, update_lead, update_attempt,
}
use voice_call.Pii.{Cipher, encrypt_pii, decrypt_pii_or_null}
use voice_call.Eligibility.{Suppression, suppress_lead}
use voice_call.Retry.{CallOutcome}
use voice_call.Results.{
  NormalizedWebhook, ResultOutcome, recorded, duplicate, unknown_call, is_terminal, lead_entry,
  meta_text, meta_number, RetryArgs, apply_retry_decision,
}

-- where provider = $1 and provider_call_id = $2
abbrev pub is_call : String → String → CallAttempt → Bool
is_call provider id a = str_eq a.provider provider && holds (λ c. str_eq c id) a.provider_call_id

abbrev pub finished : ℕ → NormalizedWebhook → CallAttempt → CallAttempt
finished now webhook a = record a {
  status = webhook.status;
  duration_sec = webhook.duration_sec;
  ended_at = some now;
  failure_reason = webhook.failure_reason;
}

abbrev pub status_text : CallStatus → String
status_text CallStatus.initiated = "initiated"
status_text CallStatus.ringing = "ringing"
status_text CallStatus.answered = "answered"
status_text CallStatus.completed = "completed"
status_text CallStatus.no_answer = "no_answer"
status_text CallStatus.busy = "busy"
status_text CallStatus.failed = "failed"
status_text CallStatus.canceled = "canceled"

-- `webhook.status as CallOutcome`, a cast of the terminal statuses.
abbrev pub outcome_of : CallStatus → CallOutcome
outcome_of CallStatus.completed = CallOutcome.completed
outcome_of CallStatus.no_answer = CallOutcome.no_answer
outcome_of CallStatus.busy = CallOutcome.busy
outcome_of CallStatus.canceled = CallOutcome.canceled
outcome_of _ = CallOutcome.failed

-- A stored phone, of a lead that may not be there.
phone_enc_of : Db → ℕ → Option Envelope
phone_enc_of db lead = elim (find_lead db lead) [ none ↦ none | some l ↦ l.phone_enc ]

completed_entry : ℕ → CallAttempt → NormalizedWebhook → AuditEntry
completed_entry tenant c webhook = lead_entry tenant "call.completed" "call" c.id (
    ("lead_id", Meta.number c.lead_id)
    ∷ ("status", Meta.text (status_text webhook.status))
    ∷ ("duration_sec", meta_number webhook.duration_sec)
    ∷ ("has_transcript", Meta.flag (is_some webhook.transcript))
    ∷ [])

suppressed_entry : ℕ → CallAttempt → String → String → NormalizedWebhook → AuditEntry
suppressed_entry tenant c provider reason webhook =
    lead_entry tenant "lead.carrier_suppressed" "lead" c.lead_id (
      ("call_id", Meta.number c.id)
      ∷ ("reason", Meta.text reason)
      ∷ ("failure_reason", meta_text webhook.failure_reason)
      ∷ ("provider", Meta.text provider)
      ∷ [])

carrier_suppression : ℕ → CallAttempt → Option String → String → Suppression
carrier_suppression tenant c phone reason = record {
  tenant_id = tenant;
  lead_id = c.lead_id;
  phone_e164 = phone;
  reason = reason;
  source = "voice_detected";
  created_by = none;
}

module _ (cipher : Cipher) where
  add_transcript : Db → String → ℕ → Option (String × Option String) → Db
  add_transcript db iv call none = db
  add_transcript db iv call (some (text, language)) = record db {
    call_transcripts =
        db.call_transcripts
        ++ record {
          call_id = call;
          transcript_enc = some (encrypt_pii cipher iv text);
          language = language;
        }
          ∷ [];
  }

  -- The attempt is closed, its transcript kept and the event recorded.
  pub close_attempt : Db → ℕ → String → CallAttempt → NormalizedWebhook → Db
  close_attempt db tenant iv c webhook =
      audit_in_tx
        (add_transcript (update_attempt db c.id (finished db.now webhook)) iv c.id
          webhook.transcript)
        (completed_entry tenant c webhook)

  carrier_suppress :
      Db → ℕ → String → CallAttempt → NormalizedWebhook → String → Outcome (Db × ResultOutcome)
  carrier_suppress db tenant provider c webhook reason = do
    phone ← decrypt_pii_or_null cipher (phone_enc_of db c.lead_id)
    ok (
      audit_in_tx (suppress_lead cipher db (carrier_suppression tenant c phone reason))
          (suppressed_entry tenant c provider reason webhook),
      recorded c.id false,
    )

-- A conversation exists to read: on the webhook, or written during the call.
pub is_connected : Db → CallAttempt → NormalizedWebhook → Bool
is_connected db c webhook =
    is_completed webhook.status
    && (is_some webhook.transcript || any (λ t. t.call_id == c.id) db.call_transcripts)

-- To qualification, or to the retry ladder.
pub route_result : Db → ℕ → CallAttempt → NormalizedWebhook → ℕ → Db × ResultOutcome
route_result db tenant c webhook wall =
    if is_connected db c webhook
    then (
      update_lead db c.lead_id (λ l. record l { status = LeadStatus.awaiting_analysis }),
      recorded c.id true,
    )
    else (
      apply_retry_decision db
          (record {
            tenant_id = tenant;
            lead_id = c.lead_id;
            campaign_id = c.campaign_id;
            outcome = outcome_of webhook.status;
            attempts_made = c.attempt_no;
            callback_at = none;
          })
          wall,
      recorded c.id false,
    )

module _ (cipher : Cipher) (tenant : ℕ) (provider iv : String) (wall : ℕ) where
  record_terminal : Db → CallAttempt → NormalizedWebhook → Outcome (Db × ResultOutcome)
  record_terminal db c webhook =
      let closed = close_attempt cipher db tenant iv c webhook in
      elim webhook.suppress [
        | some reason ↦ carrier_suppress cipher closed tenant provider c webhook reason
        | none ↦ ok (route_result closed tenant c webhook wall)
      ]

  record_known : Db → CallAttempt → NormalizedWebhook → Outcome (Db × ResultOutcome)
  record_known db c webhook =
      if is_terminal c.status
      then ok (db, duplicate c.id)
      else if is_terminal webhook.status
      then record_terminal db c webhook
      else ok
          (update_attempt db c.id (λ a. record a { status = webhook.status }), recorded c.id false)

  pub record_call_result : Db → NormalizedWebhook → Outcome (Db × ResultOutcome)
  record_call_result db webhook =
      elim (first_where (is_call provider webhook.provider_call_id) db.call_attempts) [
        | none ↦ ok (db, unknown_call)
        | some c ↦ record_known db c webhook
      ]
