-- ===== src/Intake/Ingest/Outcomes.antt =====
-- What must hold for an event to queue its lead, and what a number that cannot be called does.
use voice_call.Base.{
  ℕ, ◌≡◌, refl, sym, ap, ◌∙◌, subst, inl, inr, String, Bool, false, Option, none, some, ◌==◌,
  ==_refl, ok, Bool-cases, All, All-update_where_made, map, map-update_where, update_where,
}
use voice_call.Schema.{
  Db, Envelope, Lead, LeadStatus, update_lead, audit_in_tx, find_tenant, find_campaign,
}
use voice_call.Pii.{Cipher, truthy, encrypt_pii_or_null}
use voice_call.Phone.{PhoneResult, callable, rejected, PhoneRejection, PhoneParser}
use voice_call.Eligibility.{
  EligibilityResult, eligible, ineligible, check_eligibility, EligibilityInput,
}
use voice_call.Intake.{
  IntakeEvent, normalized, upsert_lead, merge_lead, merged_lead, record_taken, index_of, e164_of,
}
use voice_call.Intake.Ingest.{
  IntakeOutcome, queued, quarantined, duplicate_ignored, is_settled, admit_result, admit, enqueue,
  quarantine, existing_of, ingest_lead, input_of,
}
use voice_call.Intake.Ingest.Laws.{ingest_lead-steps, lead_of, admit-consents}

check_eligibility-enqueue :
    (cipher : Cipher) (db : Db) (event : IntakeEvent) (lead : ℕ) (dup : Bool)
    (input : EligibilityInput)
    → check_eligibility cipher (enqueue db event lead dup) input ≡ check_eligibility cipher db input
unfolding check_eligibility enqueue update_lead audit_in_tx find_tenant find_campaign
check_eligibility-enqueue cipher db event lead dup input = refl

-- Why an event queued its lead: a number to call, a lead that waited for one, and the gate's word.
pub record MayQueue (cipher : Cipher) (db : Db) (event : IntakeEvent) (lead : ℕ)
    (existing : Option Lead) (phone : PhoneResult) : Type 0 where
  pub e164 : String
  pub country : Option String
  pub last4 : String
  pub number : phone ≡ callable e164 country last4
  pub free : is_settled existing ≡ false
  pub passes : check_eligibility cipher db (input_of event lead e164 existing) ≡ eligible

admit-MayQueue :
    (cipher : Cipher) (db : Db) (event : IntakeEvent) (lead : ℕ) (existing : Option Lead)
    (phone : PhoneResult) (out : Db × IntakeOutcome) (id : ℕ) (dup : Bool)
    → admit cipher db event lead existing phone ≡ out
    → out.1 ≡ queued id dup
    → MayQueue cipher out.0 event lead existing phone
unfolding admit admit_result
admit-MayQueue cipher db event lead existing (rejected reason detail) out id dup e q =
    absurd (cc (rw (← e) at q))
admit-MayQueue cipher db event lead existing (callable e164 country last4) out id dup e q =
    elim (Bool-cases (is_settled existing)) [
      | inl settled ↦
          let is : (db, duplicate_ignored lead) ≡ out = rw settled at e in
          absurd (cc (rw (← is) at q))
      | inr fresh ↦
          verdict fresh (check_eligibility cipher db (input_of event lead e164 existing)) refl
            (rw fresh at e)
    ]
  where
    verdict :
        is_settled existing ≡ false
        → (r : EligibilityResult)
        → check_eligibility cipher db (input_of event lead e164 existing) ≡ r
        → admit_result db event lead existing r ≡ out
        → MayQueue cipher out.0 event lead existing (callable e164 country last4)
    verdict fresh eligible passes is = record {
      e164 = e164;
      country = country;
      last4 = last4;
      number = refl;
      free = fresh;
      passes =
          ap
            (λ (o : Db × IntakeOutcome).
              check_eligibility cipher o.0 (input_of event lead e164 existing))
            (sym is)
          ∙ check_eligibility-enqueue cipher db event lead _ (input_of event lead e164 existing)
          ∙ passes;
    }
    verdict fresh (ineligible reason detail) passes is = absurd (cc (rw (← is) at q))

-- The number that is on record for a lead.
abbrev pub number_of : Lead → ℕ × Option Envelope × Option String × Option String × Option String
number_of l = (l.id, l.phone_enc, l.phone_bidx, l.phone_last4, l.phone_country)

module _ (cipher : Cipher) (parse : PhoneParser) (lower : String → String)
    (cast : String → Option ℕ) (nonce : ℕ → String) (db : Db) (event : IntakeEvent)
    (out : Db × IntakeOutcome)
    (ingested : ingest_lead cipher parse lower cast nonce db event ≡ ok out) where
  -- An event queues a lead only if its number can be called, the lead that it concerns, if there
  -- was one, was new, quarantined, failed or closed and so neither waiting, in a call nor suppressed,
  -- and the eligibility check passes that number for that lead in the database that is left.
  pub ingest_lead-queued :
      (id : ℕ) (dup : Bool)
      → out.1 ≡ queued id dup
      → MayQueue cipher out.0 event id
          (existing_of cipher parse lower db event)
          (normalized cipher parse lower db event).phone
  ingest_lead-queued id dup q =
      let s = ingest_lead-steps cipher parse lower cast nonce db event out ingested in
      let existing = existing_of cipher parse lower db event in
      let phone = (normalized cipher parse lower db event).phone in
      let same : s.lead ≡ id =
        sym ((admit-consents cipher s.noted event s.lead existing phone).2)
        ∙ ap (λ (o : Db × IntakeOutcome). lead_of o.1) s.admitted
        ∙ ap lead_of q in
      subst (λ (n : ℕ). MayQueue cipher out.0 event n existing phone) same
        (admit-MayQueue cipher s.noted event s.lead existing phone out id dup s.admitted q)

  -- What an event without a callable number leaves of the contact.
  merged_lead-number :
      (reason : PhoneRejection) (detail : String) (l : Lead)
      → (normalized cipher parse lower db event).phone ≡ rejected reason detail
      → number_of (merged_lead cipher nonce event (normalized cipher parse lower db event) l)
        ≡ number_of l
  unfolding normalized truthy encrypt_pii_or_null
  merged_lead-number reason detail l bad =
      ap
        (λ (p : PhoneResult). number_of (
          merged_lead cipher nonce event
            (record (normalized cipher parse lower db event) {
              phone = p;
              phone_bidx = index_of cipher parse lower event.tenant_id (truthy (e164_of p));
            })
            l))
        bad

  merged_into :
      (e : Lead) (stored : Db) (lead : ℕ)
      → upsert_lead cipher nonce db event (normalized cipher parse lower db event) (some e)
        ≡ ok (stored, lead)
      → (lead ≡ e.id)
        × (stored.leads
            ≡ update_where
                (λ l. l.id == e.id)
                (merged_lead cipher nonce event (normalized cipher parse lower db event))
                db.leads)
  unfolding upsert_lead merge_lead
  merged_into e stored lead h = elim (Bool-cases (record_taken db e.id event.record_id)) [
    | inl dup ↦ absurd (cc (rw dup at h))
    | inr free ↦
        let leads =
          update_where (λ l. l.id == e.id)
            (merged_lead cipher nonce event (normalized cipher parse lower db event)) db.leads in
        let is : (record db { leads = leads }, e.id) ≡ (stored, lead) = cc (rw free at h) in
        (ap (λ (o : Db × ℕ). o.1) (sym is), ap (λ (o : Db × ℕ). o.0.leads) (sym is))
  ]

  -- An event without a number that can be called takes its lead off the queue: whatever state the
  -- lead that it finds was in (waiting, in a call, under review or suppressed), the lead is
  -- quarantined with no call to come. The number on record stays, that lead's and every other's, and
  -- no lead is added or removed.
  pub ingest_lead-quarantined :
      (e : Lead) (reason : PhoneRejection) (detail : String)
      → existing_of cipher parse lower db event ≡ some e
      → (normalized cipher parse lower db event).phone ≡ rejected reason detail
      → (out.1 ≡ quarantined e.id reason detail)
        × All
            (λ l. l.id ≡ e.id → (l.status ≡ LeadStatus.quarantined) × (l.next_call_at ≡ none))
            out.0.leads
        × (map number_of out.0.leads ≡ map number_of db.leads)
  unfolding admit quarantine update_lead audit_in_tx
  ingest_lead-quarantined e reason detail found bad =
      let s = ingest_lead-steps cipher parse lower cast nonce db event out ingested in
      let (same, stored) = merged_into e s.stored s.lead (
        ap
          (λ (o : Option Lead).
            upsert_lead cipher nonce db event (normalized cipher parse lower db event) o)
          (sym found)
        ∙ s.upserted) in
      let is : (
        quarantine s.noted event.tenant_id s.lead reason detail,
        quarantined s.lead reason detail,
      )
          ≡ out =
        ap (admit cipher s.noted event s.lead (existing_of cipher parse lower db event)) (sym bad)
        ∙ s.admitted in
      rw (← is) (
        rw same refl,
        All-update_where_made _ (λ l. l.id == s.lead) _ s.noted.leads (λ l h k. (refl, refl))
            (λ l h k. absurd (cc (rw (k ∙ sym same, ==_refl s.lead) at h))),
        map-update_where number_of (λ l. l.id == s.lead) _ s.noted.leads (λ l. refl)
            ∙ ap (map number_of) (s.same_leads ∙ stored)
            ∙ map-update_where number_of (λ l. l.id == e.id) _ db.leads
                (λ l. merged_lead-number reason detail l bad),
      )
