-- ===== src/Intake/Ingest.antt =====
-- lib/leads/intake.ts, `ingestLead`: from an inbound event to a lead that is queued, or to the reason
-- why it is not.
mod Naming
pub mod Redelivery
pub mod Laws
pub mod Outcomes
mod Tests
use voice_call.Base.{
  ℕ, String, Bool, true, false, not, ◌&&◌, Option, none, some, List, [], ◌∷◌, if◌then◌else◌, holds,
  is_some, or_else, Outcome, ok, ◌>>=◌, ◌+text◌,
}
use voice_call.Schema.{Db, Lead, LeadStatus, Campaign, Meta, audit_in_tx, update_lead}
use voice_call.Pii.{Cipher}
use voice_call.Phone.{PhoneResult, callable, rejected, PhoneRejection, PhoneParser, rejection_text}
use voice_call.Eligibility.{
  EligibilityInput, EligibilityResult, eligible, ineligible, SuppressionReason, reason_text,
  check_eligibility,
}
use voice_call.Results.{lead_entry}
use voice_call.Intake.{
  IntakeEvent, NormalizedContact, campaign_of, e164_of, find_existing, normalized, upsert_lead,
}
use voice_call.Intake.Consents.{resolve_consent, record_consent}

pub data IntakeOutcome : Type 0 where
  queued : (lead_id : ℕ) → (duplicate : Bool) → IntakeOutcome
  quarantined : (lead_id : ℕ) → PhoneRejection → (detail : String) → IntakeOutcome
  suppressed : (lead_id : ℕ) → SuppressionReason → (detail : String) → IntakeOutcome
  duplicate_ignored : (lead_id : ℕ) → IntakeOutcome

abbrev pub is_requeueable : LeadStatus → Bool
is_requeueable LeadStatus.new = true
is_requeueable LeadStatus.quarantined = true
is_requeueable LeadStatus.failed = true
is_requeueable LeadStatus.closed = true
is_requeueable _ = false

-- existing && !isRequeueable(existing.status)
abbrev pub is_settled : Option Lead → Bool
is_settled existing = holds (λ e. not (is_requeueable e.status)) existing

abbrev pub held_back : LeadStatus → String → Lead → Lead
held_back status reason l = record l {
  status = status;
  status_reason = some reason;
  next_call_at = none;
}

abbrev reason_entry : String → String → List (String × Meta)
reason_entry reason detail = ("reason", Meta.text reason) ∷ ("detail", Meta.text detail) ∷ []

unfoldable pub quarantine : Db → ℕ → ℕ → PhoneRejection → String → Db
quarantine db tenant lead reason detail =
    audit_in_tx
      (update_lead db lead
        (held_back LeadStatus.quarantined (rejection_text reason +text ": " +text detail)))
      (lead_entry tenant "lead.quarantined" "lead" lead
        (reason_entry (rejection_text reason) detail))

unfoldable pub suppress : Db → ℕ → ℕ → SuppressionReason → String → Db
suppress db tenant lead reason detail =
    audit_in_tx
      (update_lead db lead
        (held_back LeadStatus.suppressed (reason_text reason +text ": " +text detail)))
      (lead_entry tenant "lead.suppressed" "lead" lead (reason_entry (reason_text reason) detail))

abbrev pub queued_lead : ℕ → Option String → Lead → Lead
queued_lead now correlation l = record l {
  status = LeadStatus.queued;
  status_reason = none;
  queued_at = some now;
  next_call_at = or_else l.next_call_at (some now);
  correlation_id = or_else correlation l.correlation_id;
}

unfoldable pub enqueue : Db → IntakeEvent → ℕ → Bool → Db
enqueue db event lead duplicate =
    audit_in_tx (update_lead db lead (queued_lead db.now event.correlation_id)) (
      lead_entry event.tenant_id "lead.queued" "lead" lead
        (("duplicate", Meta.flag duplicate) ∷ ("source", Meta.text event.source) ∷ []))

abbrev pub input_of : IntakeEvent → ℕ → String → Option Lead → EligibilityInput
input_of event lead e164 existing = record {
  tenant_id = event.tenant_id;
  lead_id = lead;
  campaign_id = event.campaign_id;
  phone_e164 = some e164;
  lead_dnc = holds (λ e. e.dnc) existing;
  call_attempt_count = elim existing [ none ↦ 0 | some e ↦ e.call_attempt_count ];
}

unfoldable pub admit_result :
    Db → IntakeEvent → ℕ → Option Lead → EligibilityResult → Db × IntakeOutcome
admit_result db event lead existing eligible =
    (enqueue db event lead (is_some existing), queued lead (is_some existing))
admit_result db event lead existing (ineligible reason detail) =
    (suppress db event.tenant_id lead reason detail, suppressed lead reason detail)

module _ (cipher : Cipher) where
  unfoldable pub admit : Db → IntakeEvent → ℕ → Option Lead → PhoneResult → Db × IntakeOutcome
  admit db event lead existing (rejected reason detail) =
      (quarantine db event.tenant_id lead reason detail, quarantined lead reason detail)
  admit db event lead existing (callable e164 country last4) =
      if is_settled existing
      then (db, duplicate_ignored lead)
      else admit_result db event lead existing
          (check_eligibility cipher db (input_of event lead e164 existing))

module _ (cipher : Cipher) (parse : PhoneParser) (lower : String → String) where
  abbrev pub existing_of : Db → IntakeEvent → Option Lead
  existing_of db event =
      let n = normalized cipher parse lower db event in
      find_existing db event.record_id n.phone_bidx n.email_bidx

module _ (cipher : Cipher) (parse : PhoneParser) (lower : String → String)
    (cast : String → Option ℕ) (nonce : ℕ → String) where
  unfoldable pub ingest_lead : Db → IntakeEvent → Outcome (Db × IntakeOutcome)
  ingest_lead db event =
      let n = normalized cipher parse lower db event in
      let existing = existing_of cipher parse lower db event in
      let resolved = resolve_consent event (campaign_of db event) in
      do
        stored ← upsert_lead cipher nonce db event n existing
        noted ← record_consent cast event.tenant_id stored.0 stored.1 resolved.0 resolved.1
        ok (admit cipher noted event stored.1 existing n.phone)
