-- ===== src/HubspotIntake.antt =====
-- lib/leads/hubspot-app-intake.ts: the deliveries of a HubSpot private app, from the event to the
-- lead. The CRM's answer for a contact is a parameter, and the nonces of an event are those of its
-- claim. The stored payload and result of an event are left out.
mod Replay
mod Tests
use voice_call.Base.{
  ℕ, suc, String, Bool, true, false, ◌&&◌, Option, none, some, List, [], ◌∷◌, ◌++◌, ◌==◌, str_eq,
  if◌then◌else◌, get_or, any, update_where, Outcome, ok, err, ◌>>=◌, ◌+text◌,
}
use voice_call.Schema.{Db, WebhookEvent}
use voice_call.Pii.{Cipher}
use voice_call.Phone.{PhoneParser}
use voice_call.Intake.{IntakeEvent}
use voice_call.Intake.Ingest.{
  IntakeOutcome, queued, quarantined, suppressed, duplicate_ignored, ingest_lead,
}
use voice_call.CampaignRouting.{
  Properties, CampaignRoute, RoutingOutcome, routed, unrouted, resolve_campaign_for_contact,
  routing_properties,
}
use voice_call.HubspotEvent.{
  SubscriptionEvent, MappedLead, text_of, map_hubspot_event, event_from_contact,
  contact_properties_to_fetch,
}

pub data IntakeStatus : Type 0 where
  ingested : IntakeOutcome → IntakeStatus
  replay contact_gone : IntakeStatus
  not_routed : (detail : String) → IntakeStatus

pub record SubscriptionResult : Type 0 where
  pub event_id : String
  pub contact_id : String
  pub queued : Bool
  pub campaign_id : Option ℕ
  pub status : IntakeStatus

-- contacts.getContact(contactId, wanted), which may throw
abbrev pub ContactSource : Type 0
ContactSource = String → List String → Outcome (Option Properties)

-- String(id), for an id that is a text or a number
abbrev pub id_text : SubscriptionEvent → String
id_text event = get_or (text_of event.event_id) "null"

abbrev pub contact_text : SubscriptionEvent → String
contact_text event = get_or (text_of event.object_id) "null"

abbrev pub idempotency_key : SubscriptionEvent → String
idempotency_key event = "hubspot:app:contact.creation:" +text id_text event

abbrev pub claims : ℕ → String → WebhookEvent → Bool
claims tenant key w = w.tenant_id == tenant && str_eq w.idempotency_key key

abbrev new_claim : Db → ℕ → String → WebhookEvent
new_claim db tenant key = record {
  id = db.next_id;
  tenant_id = tenant;
  source = "hubspot";
  event_type = "lead_created";
  idempotency_key = key;
  processed_at = none;
}

abbrev pub claimed : Db → ℕ → String → Db
claimed db tenant key = record db {
  next_id = suc db.next_id;
  webhook_events = db.webhook_events ++ new_claim db tenant key ∷ [];
}

abbrev processed : ℕ → WebhookEvent → WebhookEvent
processed now w = record w { processed_at = some now }

pub finish : Db → ℕ → Db
finish db claim = record db {
  webhook_events = update_where (λ w. w.id == claim) (processed db.now) db.webhook_events;
}

abbrev pub is_queued_outcome : IntakeOutcome → Bool
is_queued_outcome (queued lead duplicate) = true
is_queued_outcome _ = false

abbrev pub result_of : SubscriptionEvent → IntakeStatus → SubscriptionResult
result_of event status = record {
  event_id = id_text event;
  contact_id = contact_text event;
  queued = false;
  campaign_id = none;
  status = status;
}

abbrev ingested_result : SubscriptionEvent → CampaignRoute → IntakeOutcome → SubscriptionResult
ingested_result event r outcome = record {
  event_id = id_text event;
  contact_id = contact_text event;
  queued = is_queued_outcome outcome;
  campaign_id = some r.campaign_id;
  status = ingested outcome;
}

abbrev intake_event : ℕ → SubscriptionEvent → CampaignRoute → MappedLead → IntakeEvent
intake_event tenant event r lead = record {
  tenant_id = tenant;
  campaign_id = some r.campaign_id;
  source = "hubspot";
  record_id = some (get_or lead.record_id (contact_text event));
  contact = lead.contact;
  consent = lead.consent;
  correlation_id = some (id_text event);
}

module _ (cipher : Cipher) (parse : PhoneParser) (lower : String → String)
    (cast : String → Option ℕ) (nonce : ℕ → ℕ → String) (wall : ℕ) (get_contact : ContactSource)
    (tenant : ℕ) where
  -- A contact with a campaign is taken in.
  pub ingest_routed :
      Db → ℕ → SubscriptionEvent → Properties → RoutingOutcome → Outcome (Db × SubscriptionResult)
  ingest_routed db claim event properties (unrouted reason) =
      ok (finish db claim, result_of event (not_routed reason))
  ingest_routed db claim event properties (routed r) = do
    mapped ← event_from_contact (id_text event) (contact_text event) properties
    taken ←
        ingest_lead cipher parse lower cast (nonce claim) db
          (intake_event tenant event r (map_hubspot_event wall mapped))
    ok (finish taken.0 claim, ingested_result event r taken.1)

  pub ingest_contact :
      Db → ℕ → SubscriptionEvent → Option Properties → Outcome (Db × SubscriptionResult)
  ingest_contact db claim event none = ok (finish db claim, result_of event contact_gone)
  ingest_contact db claim event (some properties) =
      ingest_routed db claim event properties
        (resolve_campaign_for_contact lower db tenant properties)

  -- insert … on conflict (tenant_id, idempotency_key) do nothing
  pub ingest_event : List String → Db → SubscriptionEvent → Outcome (Db × SubscriptionResult)
  ingest_event wanted db event =
      if any (claims tenant (idempotency_key event)) db.webhook_events
      then ok (db, result_of event replay)
      else do
        found ← get_contact (contact_text event) wanted
        ingest_contact (claimed db tenant (idempotency_key event)) db.next_id event found

  pub ingest_events :
      List String → Db → List SubscriptionEvent → Outcome (Db × List SubscriptionResult)
  ingest_events wanted db [] = ok (db, [])
  ingest_events wanted db (event ∷ events) = do
    first ← ingest_event wanted db event
    rest ← ingest_events wanted first.0 events
    ok (rest.0, first.1 ∷ rest.1)

  unfoldable pub ingest_subscription_events :
      Db → List SubscriptionEvent → Outcome (Db × List SubscriptionResult)
  unfolding ingest_events ingest_event ingest_contact ingest_routed finish
  ingest_subscription_events db events =
      ingest_events (contact_properties_to_fetch (routing_properties db tenant)) db events
