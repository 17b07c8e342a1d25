-- ===== src/HubspotEvent.antt =====
-- lib/leads/hubspot-event.ts: HubSpot's payloads, mapped to what the intake takes. A payload is
-- taken as parsed from its JSON; `wall` is Date.now().
mod Parsing
pub mod Laws
mod Tests
unfoldable pub use Parsing.{
  as_text, as_status, as_id, contact_properties_to_fetch, parse_properties,
}
pub use Parsing.{ContactProperties, known_properties}
use voice_call.Base.{
  ℕ, String, Bool, true, false, not, ◌&&◌, ◌||◌, Option, none, some, List, [], ◌∷◌, ◌++◌, str_eq,
  if◌then◌else◌, get_or, or_else, is_some, holds, map, select_where, Outcome, ok, err, ◌>>=◌,
  ◌+text◌, decimal, join, trim, is_empty, invalid_properties,
}
use voice_call.Schema.{ConsentBasis}
use voice_call.Pii.{truthy}
use voice_call.CampaignRouting.{
  Property, null, text, number, flag, Properties, property_at, distinct_texts,
}
use voice_call.Intake.{Contact, EventConsent}

pub record HubspotEvent : Type 0 where
  pub event_id : Option Property
  pub object_id : Option Property
  pub subscription_type : Option String
  pub properties : ContactProperties

pub data HubspotWebhook : Type 0 where
  one : HubspotEvent → HubspotWebhook
  many : HubspotEvent → List HubspotEvent → HubspotWebhook

pub record MappedLead : Type 0 where
  pub event_id : String
  pub record_id : Option String
  pub contact : Contact
  pub consent : Option EventConsent

-- The first value with more than blanks in it, trimmed.
unfoldable pub first : List (Option String) → Option String
first [] = none
first (none ∷ values) = first values
first (some v ∷ values) =
    let rest = first values in elim (truthy (some (trim v))) [ none ↦ rest | some t ↦ some t ]

-- String(value), for a value that is not null
abbrev pub text_of : Property → Option String
text_of null = none
text_of (text s) = some s
text_of (number n) = some (decimal n)
text_of (flag b) = some (if b then "true" else "false")

pub str : Option Property → Option String
str none = none
str (some value) = text_of value

abbrev is_marketable : Option Property → Bool
is_marketable (some (flag b)) = b
is_marketable (some (text s)) = str_eq s "true"
is_marketable _ = false

-- A declared basis that the platform does not know is kept as `other`.
pub declared_basis : String → ConsentBasis
declared_basis declared =
    if str_eq declared "opt_in_form"
    then ConsentBasis.opt_in_form
    else if str_eq declared "existing_customer"
    then ConsentBasis.existing_customer
    else if str_eq declared "service_call"
    then ConsentBasis.service_call
    else if str_eq declared "ivr_confirmation"
    then ConsentBasis.ivr_confirmation
    else ConsentBasis.other

abbrev paid_social : Option String → Option String
paid_social source =
    if holds (λ s. str_eq s "PAID_SOCIAL") source then some "meta_lead_form" else none

consent_with : ContactProperties → ConsentBasis → EventConsent
consent_with props basis = record {
  basis = basis;
  source =
      get_or
        (first (
          props.consent_source
          ∷ props.hs_analytics_source
          ∷ paid_social props.hs_latest_source
          ∷ []))
        "hubspot";
  evidence_ref = first (props.consent_evidence_ref ∷ str props.hs_object_id ∷ []);
  captured_at = first (props.consent_captured_at ∷ props.createdate ∷ []);
}

unfoldable pub consent_basis : ContactProperties → Option EventConsent
unfolding consent_with declared_basis str
consent_basis props = elim (first (props.consent_basis ∷ [])) [
  | some declared ↦ some (consent_with props (declared_basis declared))
  | none ↦
      if is_some (first (props.hs_legal_basis ∷ [])) || is_marketable props.hs_marketable_status
      then some (consent_with props ConsentBasis.opt_in_form)
      else none
]

-- [firstname, lastname].filter(Boolean).join(" ")
present : List (Option String) → List String
present [] = []
present (value ∷ values) = elim (truthy value) [
  | none ↦ present values
  | some v ↦ v ∷ present values
]

unfoldable pub map_hubspot_event : ℕ → HubspotEvent → MappedLead
unfolding present str
map_hubspot_event wall event =
    let props = event.properties in
    let record_id = first (str event.object_id ∷ str props.hs_object_id ∷ []) in
    record {
      event_id =
          get_or (first (str event.event_id ∷ record_id ∷ [])) ("hubspot:" +text decimal wall);
      record_id = record_id;
      contact = record {
        name = first (some (join " " (present (props.firstname ∷ props.lastname ∷ []))) ∷ []);
        phone = first (props.phone ∷ props.mobilephone ∷ []);
        email = first (props.email ∷ []);
        requirement = first (
            props.requirement ∷ props.product_interest ∷ props.what_are_you_looking_for
            ∷ props.message ∷ []);
      };
      consent = consent_basis props;
    }

pub events_from : HubspotWebhook → List HubspotEvent
events_from (one event) = event ∷ []
events_from (many event events) = event ∷ events

-- A delivery to a private app; the ids are texts or numbers.
pub record SubscriptionEvent : Type 0 where
  pub event_id : Property
  pub portal_id : Property
  pub object_id : Property
  pub subscription_type : Option String
  pub event_type : Option String

pub event_type_of : SubscriptionEvent → String
event_type_of event = trim (get_or (or_else event.subscription_type event.event_type) "")

unfoldable pub event_from_contact : String → String → Properties → Outcome HubspotEvent
event_from_contact event_id contact_id properties = do
  props ← parse_properties properties
  ok (record {
    event_id = some (text event_id);
    object_id = some (text contact_id);
    subscription_type = some "contact.creation";
    properties = props;
  })
