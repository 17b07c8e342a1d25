-- ===== src/Intake/Ingest/Tests.antt =====
-- A form for a new lead, the same form again, and one without a number.
use voice_call.Base.{
  ◌≡◌, refl, true, false, map, none, some, [], ◌∷◌, ok, any, first_where, All, update_where,
  is_blank, trim, is_space, decimal,
}
use voice_call.Fixtures.{
  plain_cipher, plain_parser, plain_lower, no_times, plain_nonce, an_event, a_db, a_lead, result_or,
}
use voice_call.Schema.{Db, LeadStatus, update_lead, audit_in_tx, find_tenant, find_campaign}
use voice_call.Pii.{truthy, encrypt_pii_or_null, encrypt_pii, blind_index, last_four}
use voice_call.Phone.{rejected, missing, normalize_phone, normalize_email}
use voice_call.Eligibility.{check_eligibility}
use voice_call.Intake.{
  normalized, find_existing, upsert_lead, insert_lead, merge_lead, new_lead, record_taken,
  default_country,
}
use voice_call.Intake.Consents.{resolve_consent, record_consent, consents_lead}
use voice_call.Intake.Ingest.{
  IntakeOutcome, queued, quarantined, duplicate_ignored, admit, admit_result, enqueue, quarantine,
  existing_of, ingest_lead,
}
use voice_call.Intake.Ingest.Laws.{ingest_lead_consents}
use voice_call.Intake.Ingest.Outcomes.{
  MayQueue, number_of, ingest_lead-queued, ingest_lead-quarantined,
}

abbrev empty_db : Db
empty_db = a_db [] []

abbrev waiting_db : Db
waiting_db = a_db (record (a_lead 7 LeadStatus.queued) { hubspot_record_id = some "r1" } ∷ []) []

abbrev taken_in : Db × IntakeOutcome
taken_in =
    result_or (empty_db, duplicate_ignored 0)
      (ingest_lead plain_cipher plain_parser plain_lower no_times plain_nonce empty_db
        (an_event (some "r1") (some "+911234567890")))

abbrev taken_off : Db × IntakeOutcome
taken_off =
    result_or (waiting_db, duplicate_ignored 0)
      (ingest_lead plain_cipher plain_parser plain_lower no_times plain_nonce waiting_db
        (an_event (some "r1") none))

new_lead_is_queued : taken_in.1 ≡ queued 100 false
unfolding ingest_lead normalized find_existing upsert_lead insert_lead new_lead record_taken admit
    admit_result normalize_phone normalize_email check_eligibility record_consent resolve_consent
    first_where any truthy blind_index encrypt_pii_or_null encrypt_pii last_four is_blank trim
    is_space decimal find_tenant find_campaign default_country enqueue update_lead audit_in_tx
    update_where
new_lead_is_queued = refl

taken_in-ok :
    ingest_lead plain_cipher plain_parser plain_lower no_times plain_nonce empty_db
      (an_event (some "r1") (some "+911234567890"))
    ≡ ok taken_in
unfolding ingest_lead normalized find_existing upsert_lead insert_lead new_lead record_taken admit
    admit_result normalize_phone normalize_email check_eligibility record_consent resolve_consent
    first_where any truthy blind_index encrypt_pii_or_null encrypt_pii last_four is_blank trim
    is_space decimal find_tenant find_campaign default_country enqueue update_lead audit_in_tx
    update_where
taken_in-ok = refl

ingest_lead_consents_example : any (consents_lead 100) taken_in.0.consents ≡ true
unfolding ingest_lead normalized find_existing upsert_lead insert_lead new_lead record_taken admit
    admit_result normalize_phone normalize_email check_eligibility record_consent resolve_consent
    first_where any truthy blind_index encrypt_pii_or_null encrypt_pii last_four is_blank trim
    is_space decimal find_tenant find_campaign default_country enqueue update_lead audit_in_tx
    update_where
ingest_lead_consents_example =
    ingest_lead_consents plain_cipher plain_parser plain_lower no_times plain_nonce empty_db
      (an_event (some "r1") (some "+911234567890")) taken_in taken_in-ok

ingest_lead-queued_example :
    MayQueue plain_cipher taken_in.0
      (an_event (some "r1") (some "+911234567890"))
      100
      (existing_of plain_cipher plain_parser plain_lower empty_db
        (an_event (some "r1") (some "+911234567890")))
      (normalized plain_cipher plain_parser plain_lower empty_db
        (an_event (some "r1") (some "+911234567890"))).phone
ingest_lead-queued_example =
    ingest_lead-queued plain_cipher plain_parser plain_lower no_times plain_nonce empty_db
      (an_event (some "r1") (some "+911234567890")) taken_in taken_in-ok 100 false
      new_lead_is_queued

taken_off-ok :
    ingest_lead plain_cipher plain_parser plain_lower no_times plain_nonce waiting_db
      (an_event (some "r1") none)
    ≡ ok taken_off
unfolding ingest_lead normalized find_existing upsert_lead merge_lead quarantine record_taken admit
    admit_result normalize_phone normalize_email check_eligibility record_consent resolve_consent
    first_where any truthy blind_index encrypt_pii_or_null encrypt_pii last_four is_blank trim
    is_space decimal find_tenant find_campaign default_country enqueue update_lead audit_in_tx
    update_where
taken_off-ok = refl

found :
    existing_of plain_cipher plain_parser plain_lower waiting_db (an_event (some "r1") none)
    ≡ some (record (a_lead 7 LeadStatus.queued) { hubspot_record_id = some "r1" })
unfolding ingest_lead normalized find_existing upsert_lead merge_lead quarantine record_taken admit
    admit_result normalize_phone normalize_email check_eligibility record_consent resolve_consent
    first_where any truthy blind_index encrypt_pii_or_null encrypt_pii last_four is_blank trim
    is_space decimal find_tenant find_campaign default_country enqueue update_lead audit_in_tx
    update_where
found = refl

no_number :
    (normalized plain_cipher plain_parser plain_lower waiting_db (an_event (some "r1") none)).phone
    ≡ rejected missing "No phone number supplied"
unfolding ingest_lead normalized find_existing upsert_lead merge_lead quarantine record_taken admit
    admit_result normalize_phone normalize_email check_eligibility record_consent resolve_consent
    first_where any truthy blind_index encrypt_pii_or_null encrypt_pii last_four is_blank trim
    is_space decimal find_tenant find_campaign default_country enqueue update_lead audit_in_tx
    update_where
no_number = refl

ingest_lead-quarantined_example :
    (taken_off.1 ≡ quarantined 7 missing "No phone number supplied")
    × All
        (λ l. l.id ≡ 7 → (l.status ≡ LeadStatus.quarantined) × (l.next_call_at ≡ none))
        taken_off.0.leads
    × (map number_of taken_off.0.leads ≡ map number_of waiting_db.leads)
ingest_lead-quarantined_example =
    ingest_lead-quarantined plain_cipher plain_parser plain_lower no_times plain_nonce waiting_db
      (an_event (some "r1") none) taken_off taken_off-ok
      (record (a_lead 7 LeadStatus.queued) { hubspot_record_id = some "r1" }) missing
      "No phone number supplied" found no_number
