-- ===== src/HubspotIntake/Tests.antt =====
-- A delivery of two events, one of a contact that is gone, and the same delivery again.
use voice_call.Base.{
  ℕ, ◌≡◌, refl, String, none, some, List, [], ◌∷◌, ok, map, any, first_where, select_where,
  update_where, str_eq, if◌then◌else◌, trim, is_blank, is_space, decimal,
}
use voice_call.Fixtures.{
  plain_cipher, plain_parser, plain_lower, no_times, plain_nonce, a_db, result_or,
}
use voice_call.Schema.{Db, update_lead, audit_in_tx, find_tenant, find_campaign}
use voice_call.Pii.{truthy, encrypt_pii_or_null, encrypt_pii, blind_index, last_four}
use voice_call.Phone.{normalize_phone, normalize_email}
use voice_call.Eligibility.{check_eligibility}
use voice_call.Intake.{normalized, find_existing, upsert_lead, insert_lead, new_lead, record_taken}
use voice_call.Intake.Consents.{resolve_consent, record_consent}
use voice_call.Intake.Ingest.{ingest_lead, admit, admit_result, enqueue}
use voice_call.CampaignRouting.{
  text, number, property_at, normalise, resolve_campaign_for_contact, routing_properties,
}
use voice_call.HubspotEvent.{
  SubscriptionEvent, first, consent_basis, map_hubspot_event, parse_properties, event_from_contact,
}
use voice_call.HubspotIntake.{
  SubscriptionResult, ContactSource, result_of, replay, ingest_subscription_events,
}
use voice_call.HubspotIntake.Replay.{ingest_subscription_events_again}

abbrev created : ℕ → String → SubscriptionEvent
created event contact = record {
  event_id = number event;
  portal_id = number 9;
  object_id = text contact;
  subscription_type = some "contact.creation";
  event_type = none;
}

-- Every contact but the one that was deleted is Asha.
abbrev crm : ContactSource
crm contact wanted = ok (
    if str_eq contact "gone"
    then none
    else some (("firstname", text "Asha") ∷ ("phone", text "+911234567890") ∷ []))

abbrev deliveries : List SubscriptionEvent
deliveries = created 5 "gone" ∷ created 6 "c1" ∷ []

abbrev delivered : Db × List SubscriptionResult
delivered =
    result_or (a_db [] [], [])
      (ingest_subscription_events plain_cipher plain_parser plain_lower no_times
        (λ claim. plain_nonce) 0 crm 1 (a_db [] []) deliveries)

delivered-ok :
    ingest_subscription_events plain_cipher plain_parser plain_lower no_times
      (λ claim. plain_nonce)
      0
      crm
      1
      (a_db [] [])
      deliveries
    ≡ ok delivered
unfolding ingest_subscription_events any update_where first_where select_where property_at normalise
    resolve_campaign_for_contact routing_properties first map_hubspot_event consent_basis
    parse_properties event_from_contact trim is_blank is_space truthy decimal normalized
    find_existing upsert_lead insert_lead new_lead record_taken admit admit_result enqueue
    normalize_phone normalize_email ingest_lead resolve_consent record_consent check_eligibility
    blind_index encrypt_pii encrypt_pii_or_null last_four find_tenant find_campaign update_lead
    audit_in_tx
delivered-ok = refl

ingest_subscription_events_again_example :
    ingest_subscription_events plain_cipher plain_parser plain_lower no_times
      (λ claim. plain_nonce)
      7
      crm
      1
      delivered.0
      deliveries
    ≡ ok (delivered.0, map (λ e. result_of e replay) deliveries)
ingest_subscription_events_again_example =
    ingest_subscription_events_again plain_cipher plain_parser plain_lower no_times
      (λ claim. plain_nonce) (λ claim. plain_nonce) 0 7 crm crm 1 (a_db [] []) delivered.0
      deliveries delivered delivered-ok refl
