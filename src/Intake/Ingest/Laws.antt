-- ===== src/Intake/Ingest/Laws.antt =====
-- What an event leaves behind, whatever becomes of its lead.
use voice_call.Base.{
  ℕ, ◌≡◌, refl, sym, ap, ◌∙◌, subst, inl, inr, String, true, Option, none, some, arith, any, ok,
  >>=-ok, Bool-cases,
}
use voice_call.Schema.{Db, Lead, update_lead, audit_in_tx}
use voice_call.Pii.{Cipher}
use voice_call.Phone.{PhoneResult, callable, rejected, PhoneParser}
use voice_call.Eligibility.{EligibilityResult, eligible, ineligible, check_eligibility}
use voice_call.Intake.{IntakeEvent, campaign_of, normalized, upsert_lead, insert_lead, merge_lead}
use voice_call.Intake.Consents.{resolve_consent, record_consent, consents_lead, record_consent_lem}
use voice_call.Intake.Ingest.{
  IntakeOutcome, queued, quarantined, suppressed, duplicate_ignored, is_settled, quarantine,
  suppress, enqueue, admit_result, admit, existing_of, ingest_lead, input_of,
}

abbrev pub lead_of : IntakeOutcome → ℕ
lead_of (queued lead duplicate) = lead
lead_of (quarantined lead reason detail) = lead
lead_of (suppressed lead reason detail) = lead
lead_of (duplicate_ignored lead) = lead

admit_result-kept :
    (db : Db) (event : IntakeEvent) (lead : ℕ) (existing : Option Lead) (r : EligibilityResult)
    → ((admit_result db event lead existing r).0.consents ≡ db.consents)
      × ((admit_result db event lead existing r).0.webhook_events ≡ db.webhook_events)
      × (lead_of (admit_result db event lead existing r).1 ≡ lead)
unfolding admit_result enqueue suppress update_lead audit_in_tx
admit_result-kept db event lead existing eligible = (refl, refl, refl)
admit_result-kept db event lead existing (ineligible reason detail) = (refl, refl, refl)

pub admit-consents :
    (cipher : Cipher) (db : Db) (event : IntakeEvent) (lead : ℕ) (existing : Option Lead)
    (phone : PhoneResult)
    → ((admit cipher db event lead existing phone).0.consents ≡ db.consents)
      × ((admit cipher db event lead existing phone).0.webhook_events ≡ db.webhook_events)
      × (lead_of (admit cipher db event lead existing phone).1 ≡ lead)
unfolding admit quarantine update_lead audit_in_tx
admit-consents cipher db event lead existing (rejected reason detail) = (refl, refl, refl)
admit-consents cipher db event lead existing (callable e164 country last4) =
    elim (Bool-cases (is_settled existing)) [
      | inl settled ↦ rw settled (refl, refl, refl)
      | inr fresh ↦ rw fresh (
          admit_result-kept db event lead existing
            (check_eligibility cipher db (input_of event lead e164 existing)))
    ]

module _ (cipher : Cipher) (parse : PhoneParser) (lower : String → String)
    (cast : String → Option ℕ) (nonce : ℕ → String) (db : Db) (event : IntakeEvent) where
  -- The steps of an event that went through.
  pub record Ingested (out : Db × IntakeOutcome) : Type 0 where
    pub stored : Db
    pub noted : Db
    pub lead : ℕ
    pub upserted :
        upsert_lead cipher nonce db event
          (normalized cipher parse lower db event)
          (existing_of cipher parse lower db event)
        ≡ ok (stored, lead)
    pub same_leads : noted.leads ≡ stored.leads
    pub same_events : noted.webhook_events ≡ db.webhook_events
    pub consented : any (consents_lead lead) noted.consents ≡ true
    pub admitted :
        admit cipher noted event lead
          (existing_of cipher parse lower db event)
          (normalized cipher parse lower db event).phone
        ≡ out

  upsert_lead-webhook_events :
      (existing : Option Lead) (stored : Db × ℕ)
      → upsert_lead cipher nonce db event (normalized cipher parse lower db event) existing
        ≡ ok stored
      → stored.0.webhook_events ≡ db.webhook_events
  unfolding upsert_lead insert_lead merge_lead
  upsert_lead-webhook_events none stored e = ground arith
  upsert_lead-webhook_events (some x) stored e = ground arith

  pub ingest_lead-steps :
      (out : Db × IntakeOutcome)
      → ingest_lead cipher parse lower cast nonce db event ≡ ok out
      → Ingested out
  unfolding ingest_lead
  ingest_lead-steps out e =
      let existing = existing_of cipher parse lower db event in
      let (stored, upserted, e₁) =
        >>=-ok (upsert_lead cipher nonce db event (normalized cipher parse lower db event) existing)
          _ e in
      let (noted, recorded, e₂) =
        >>=-ok
          (record_consent cast event.tenant_id stored.0 stored.1
            (resolve_consent event (campaign_of db event)).0
            (resolve_consent event (campaign_of db event)).1)
          _ e₁ in
      let (same, events, there) =
        record_consent_lem cast event.tenant_id stored.0 stored.1
          (resolve_consent event (campaign_of db event)).0
          (resolve_consent event (campaign_of db event)).1 noted recorded in
      record {
        stored = stored.0;
        noted = noted;
        lead = stored.1;
        upserted = upserted;
        same_leads = same;
        same_events = events ∙ upsert_lead-webhook_events existing stored upserted;
        consented = there;
        admitted = cc e₂;
      }

  -- No lead is without a consent on record: whatever becomes of an event that goes through, its
  -- lead has an active consent afterwards, be it quarantined, suppressed or a duplicate.
  pub ingest_lead_consents :
      (out : Db × IntakeOutcome)
      → ingest_lead cipher parse lower cast nonce db event ≡ ok out
      → any (consents_lead (lead_of out.1)) out.0.consents ≡ true
  ingest_lead_consents out e =
      let steps = ingest_lead-steps out e in
      let existing = existing_of cipher parse lower db event in
      let (kept, events, named) =
        admit-consents cipher steps.noted event steps.lead existing
          (normalized cipher parse lower db event).phone in
      subst (λ (o : Db × IntakeOutcome). any (consents_lead (lead_of o.1)) o.0.consents ≡ true)
        steps.admitted (rw (kept, named) steps.consented)

  pub ingest_lead-webhook_events :
      (out : Db × IntakeOutcome)
      → ingest_lead cipher parse lower cast nonce db event ≡ ok out
      → out.0.webhook_events ≡ db.webhook_events
  ingest_lead-webhook_events out e =
      let steps = ingest_lead-steps out e in
      let existing = existing_of cipher parse lower db event in
      sym (ap (λ (o : Db × IntakeOutcome). o.0.webhook_events) steps.admitted)
      ∙ (admit-consents cipher steps.noted event steps.lead existing
          (normalized cipher parse lower db event).phone).1
      ∙ steps.same_events
