-- ===== src/Worker/Replies.antt =====
-- What a provider's answer leaves in the record of the call and on the lead, column by column.
use voice_call.Base.{ℕ, ◌≤◌, ◌≡◌, refl, true, false, none, some, arith}
use voice_call.Schema.{Db, CallAttempt, CallStatus, Lead, LeadStatus}
use voice_call.Queue.{ClaimedLead}
use voice_call.Worker.{
  CampaignScript, Dialler, ProviderReply, placed, refused, new_attempt, requeue_at,
}
use voice_call.Worker.Answers.{answered_attempt, answered_lead}

-- The provider's answer in the record of a call.
abbrev pub CarriesReply : ℕ → ProviderReply → CallAttempt → Type 0
CarriesReply now (placed id status) a =
    (a.provider_call_id ≡ some id)
    × (a.status ≡ status)
    × (a.failure_reason ≡ none)
    × (a.ended_at ≡ none)
CarriesReply now (refused retryable detail) a =
    (a.provider_call_id ≡ none)
    × (a.status ≡ CallStatus.failed)
    × (a.failure_reason ≡ some detail)
    × (a.ended_at ≡ some now)

-- The claim after the answer: it stands, or is released, to be retried or as failed.
abbrev pub ClaimAfter : ℕ → ProviderReply → Lead → Lead → Type 0
ClaimAfter wall (placed id status) before l =
    (l.status ≡ before.status)
    × (l.next_call_at ≡ before.next_call_at)
    × (l.locked_by ≡ before.locked_by)
    × (l.lock_expires_at ≡ before.lock_expires_at)
ClaimAfter wall (refused true detail) before l =
    (l.status ≡ LeadStatus.queued)
    × ((t : ℕ) × (l.next_call_at ≡ some t) × (wall ≤ t))
    × (l.locked_by ≡ none)
    × (l.lock_expires_at ≡ none)
ClaimAfter wall (refused false detail) before l =
    (l.status ≡ LeadStatus.failed)
    × (l.next_call_at ≡ none)
    × (l.locked_by ≡ none)
    × (l.lock_expires_at ≡ none)

module _ (d : Dialler) (db : Db) (lead : ClaimedLead) (script : CampaignScript) (row : Lead) where
  pub answered-columns :
      (reply : ProviderReply)
      → let a = answered_attempt db.now reply (new_attempt db lead script row) in
        (a.id ≡ db.next_id)
        × (a.lead_id ≡ lead.lead_id)
        × (a.attempt_no ≡ lead.attempt_no)
        × (a.tenant_id ≡ lead.tenant_id)
        × (a.campaign_id ≡ some lead.campaign_id)
        × (a.provider ≡ lead.provider)
        × (a.consent_id ≡ lead.consent_id)
        × (a.consent_basis ≡ lead.consent_basis)
        × (a.campaign_config_version ≡ lead.campaign_config_version)
        × (a.started_at ≡ some db.now)
  unfolding new_attempt
  answered-columns (placed id status) = (refl, refl, refl, refl, refl, refl, refl, refl, refl, refl)
  answered-columns (refused retryable detail) =
      (refl, refl, refl, refl, refl, refl, refl, refl, refl, refl)

  pub answered-CarriesReply :
      (reply : ProviderReply)
      → CarriesReply db.now reply (answered_attempt db.now reply (new_attempt db lead script row))
  unfolding new_attempt
  answered-CarriesReply (placed id status) = (refl, refl, refl, refl)
  answered-CarriesReply (refused retryable detail) = (refl, refl, refl, refl)

  pub answered-counted :
      (reply : ProviderReply)
      → let l = answered_lead d lead db.now reply row in
        (l.call_attempt_count ≡ lead.attempt_no) × (l.last_call_at ≡ some db.now)
  answered-counted (placed id status) = (refl, refl)
  answered-counted (refused retryable detail) = (refl, refl)

  pub answered-ClaimAfter :
      (reply : ProviderReply)
      → ClaimAfter (d.wall lead.lead_id) reply row (answered_lead d lead db.now reply row)
  unfolding requeue_at
  answered-ClaimAfter (placed id status) = (refl, refl, refl, refl)
  answered-ClaimAfter (refused true detail) = (refl, (_, refl, omega arith), refl, refl)
  answered-ClaimAfter (refused false detail) = (refl, refl, refl, refl)
