-- ===== src/Fixtures.antt =====
-- The data that the tests of several components share: a cipher that hides nothing, a clock that
-- stands at a Monday morning, and a tenant with a campaign and one lead.
use voice_call.Base.{
  ℕ, refl, String, true, false, Option, none, some, List, [], ◌∷◌, Outcome, ok, err,
}
use voice_call.Schema.{
  Db, Tenant, TenantStatus, Campaign, CallingConfig, Lead, LeadStatus, Envelope, CallAttempt,
  CallStatus,
}
use voice_call.Schema.Qualification.{QualificationResult, Intent, Timeline}
use voice_call.Pii.{Cipher}
use voice_call.Windows.{RawParts}
use voice_call.Phone.{PhoneParser, parsed}
use voice_call.Intake.{IntakeEvent}

abbrev pub plain_cipher : Cipher
plain_cipher = record {
  seal = λ iv text. ("tag", text);
  unseal = λ iv tag text. some text;
  hmac = λ text. text;
  unseal-seal = λ iv text. refl;
}

-- Every instant is Monday 2024-01-01, 10:00.
abbrev pub monday_morning : ℕ → String → RawParts
monday_morning instant timezone = record {
  year = 2024;
  month = 1;
  day = 1;
  hour = 10;
  minute = 0;
  weekday = "Mon";
}

abbrev pub plain_config : CallingConfig
plain_config = record {
  window_start = none;
  window_end = none;
  timezone = none;
  days = none;
  max_attempts = none;
  retry_minutes = none;
  busy_retry_minutes = none;
  country = none;
}

abbrev pub an_envelope : String → Envelope
an_envelope text = record { version = 1; iv = "iv"; auth_tag = "tag"; ciphertext = text }

abbrev pub a_tenant : Tenant
a_tenant = record { id = 1; name = "Acme"; status = TenantStatus.active; concurrency_limit = 5 }

abbrev pub a_campaign : Campaign
a_campaign = record {
  id = 2;
  tenant_id = 1;
  name = "Homes";
  domain = none;
  business_context = none;
  script = some "Hello";
  timezone = "Asia/Kolkata";
  active = true;
  config_version = 1;
  calling_config = plain_config;
  routing_config = record { hot_threshold = none; interested_threshold = none };
  scoring_rubric = record {
    current_need_confirmed = none;
    short_timeline = none;
    budget_known = none;
    specific_product = none;
    accepts_human_followup = none;
    vague_curiosity = none;
    long_term_no_plan = none;
    explicit_rejection = none;
  };
  service_call_campaign = false;
  voice_provider = "mock";
  concurrency_limit = 3;
  dial_allowlist = [];
  analysis_model = "model";
  analysis_effort = "low";
  prompt_version = "v1";
  review_confidence_threshold = 700;
  review_boundary_band = 5;
  consent_basis = none;
  consent_source = none;
  consent_evidence_ref = none;
  consent_origin = none;
  intake_property = none;
  intake_values = [];
  intake_default = false;
  google_sheet_id = none;
  google_sheet_tab = none;
  hubspot_integration_id = none;
  updated_by = none;
}

abbrev pub a_lead : ℕ → LeadStatus → Lead
a_lead id status = record {
  id = id;
  campaign_id = some 2;
  hubspot_record_id = none;
  source = "crm";
  created_at = 500;
  name_enc = none;
  phone_enc = some (an_envelope "+911234567890");
  email_enc = none;
  enquiry_enc = none;
  phone_bidx = none;
  email_bidx = none;
  phone_last4 = none;
  phone_country = none;
  status = status;
  status_reason = none;
  dnc = false;
  call_attempt_count = 0;
  next_call_at = none;
  last_call_at = none;
  queued_at = some 1000;
  locked_by = none;
  locked_at = none;
  lock_expires_at = none;
  correlation_id = none;
}

abbrev pub an_attempt : ℕ → ℕ → CallStatus → CallAttempt
an_attempt id lead status = record {
  id = id;
  tenant_id = 1;
  lead_id = lead;
  campaign_id = some 2;
  attempt_no = 1;
  provider = "mock";
  provider_call_id = some "call-1";
  status = status;
  started_at = some 5000;
  ended_at = none;
  duration_sec = none;
  queue_latency_sec = none;
  failure_reason = none;
  recording_ref = none;
  consent_id = none;
  consent_basis = none;
  campaign_config_version = 1;
  workflow_version = "W02.v1";
  correlation_id = none;
}

-- The tenant and the campaign, with the given leads and calls, at 10 seconds.
abbrev pub a_db : List Lead → List CallAttempt → Db
a_db leads calls = record {
  now = 10000;
  next_id = 100;
  tenants = a_tenant ∷ [];
  campaigns = a_campaign ∷ [];
  questions = [];
  leads = leads;
  consents = [];
  dnc_entries = [];
  call_attempts = calls;
  call_transcripts = [];
  call_analyses = [];
  callbacks = [];
  routing_events = [];
  sync_outbox = [];
  audit_events = [];
  webhook_events = [];
  integrations = [];
  campaign_versions = [];
}

-- A lead that wants to buy, but names no product.
abbrev pub keen_result : QualificationResult
keen_result = record {
  intent = Intent.hot;
  confidence = 950;
  reason = "Wants to visit";
  summary = "Looking for a flat";
  still_interested = some true;
  timeline = Timeline.within_3_months;
  budget = some "50 lakh";
  location = none;
  product_interest = some "  ";
  callback_requested = false;
  callback_time_iso = none;
  human_followup = true;
  do_not_call = false;
  wrong_number = false;
}

-- The result of a call that returns.
abbrev pub result_or {ℓ} : {A : Type ℓ} → A → Outcome A → A
result_or d (ok a) = a
result_or d (err e) = d

-- A library that takes every text for a mobile number in India.
abbrev pub plain_parser : PhoneParser
plain_parser text country =
    parsed (record { number = text; country = some "IN"; is_valid = true; type = some "MOBILE" })

abbrev pub plain_lower : String → String
plain_lower text = text

abbrev pub no_times : String → Option ℕ
no_times text = none

abbrev pub plain_nonce : ℕ → String
plain_nonce n = "iv"

-- A form that was filled in, for the given record and number.
abbrev pub an_event : Option String → Option String → IntakeEvent
an_event record_id phone = record {
  tenant_id = 1;
  campaign_id = some 2;
  source = "hubspot";
  record_id = record_id;
  contact = record { name = some "Asha"; phone = phone; email = none; requirement = none };
  consent = none;
  correlation_id = none;
}
