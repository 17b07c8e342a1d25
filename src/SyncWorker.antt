-- ===== src/SyncWorker.antt =====
-- lib/integrations/sync-worker.ts: what is sent for a call, and the rows that it is made of. The
-- clients of HubSpot, Google Sheets and Slack are parameters, and so is Date.prototype.toISOString.
-- `wall` is the process's clock.
pub mod Dispatch
pub mod Drain
use Prim.Native.String
use voice_call.Base.{
  ℕ, zero, suc, ◌+◌, String, Bool, true, false, not, ◌&&◌, ◌||◌, Option, none, some, List, [], ◌∷◌,
  ◌==◌, if◌then◌else◌, get_or, holds, opt_is, first_where, select_where, get_elem?, Outcome, ok,
  err, ◌>>=◌, ◌+text◌, decimal,
}
use voice_call.Base.Int.{ℤ}
use voice_call.Schema.{
  Db, CallAttempt, Lead, Tenant, Campaign, CallAnalysis, SealedSecret, Integration, IntegrationType,
  IntegrationStatus, SyncTarget, SyncItem, ReviewStatus, Meta, is_active_integration, same_type,
  find_attempt, find_lead, find_tenant, find_campaign, Envelope,
}
use voice_call.Pii.{Cipher, truthy, decrypt_pii_or_null, mask_phone}
use voice_call.Scoring.{integer_text}
use voice_call.Review.{may_auto_sync, intent_text, timeline_text}
use voice_call.Results.Delivery.{status_text}
use voice_call.Outbox.{clip}

-- An error that a sync throws: an IntegrationError, or any other.
pub data SyncError : Type 0 where
  integration : (message : String) → (retryable : Bool) → (status : Option ℕ) → SyncError
  other : (message : String) → SyncError

-- What a call of a client does: it returns, or throws.
pub data Reply : Type 0 where
  accepted : Reply
  thrown : SyncError → Reply

pub record SheetRow : Type 0 where
  pub call_id : String
  pub client_id : String
  pub campaign : String
  pub lead_id : String
  pub hubspot_record_id : String
  pub source : String
  pub name : String
  pub phone : String
  pub email : String
  pub enquiry : String
  pub lead_created : String
  pub call_date : String
  pub duration_sec : String
  pub call_status : String
  pub intent : String
  pub score : String
  pub qualification : String
  pub timeline : String
  pub budget : String
  pub location : String
  pub callback_requested : String
  pub human_followup : String
  pub dnc : String
  pub summary : String
  pub recording_ref : String
  pub sync_status : String

pub record ContactUpdate : Type 0 where
  pub last_call_status : String
  pub last_call_at : String
  pub intent : String
  pub score : ℤ
  pub qualification : String
  pub summary : String
  pub callback_requested : Bool
  pub next_call_at : Option String
  pub human_followup : Bool
  pub dnc : Bool

pub record Notification : Type 0 where
  pub tenant_name : String
  pub campaign_name : String
  pub lead_name : Option String
  pub masked_phone : Option String
  pub intent : String
  pub score : ℤ
  pub summary : String
  pub call_id : ℕ
  pub duration_sec : Option ℕ

-- A request that leaves the platform.
pub data Request : Type 0 where
  append_row : (spreadsheet range : String) → SheetRow → Request
  update_contact : (record_id : String) → ContactUpdate → Request
  create_task : (contact_id subject body : String) → (due_at : ℕ) → Request
  send : Notification → Request

-- The request, and the call that it is about.
pub record Outgoing : Type 0 where
  pub call_id : ℕ
  pub request : Request

-- The world outside: the client that a credential makes, or why none can be made, and what it does.
pub record Outside : Type 0 where
  pub build : IntegrationType → SealedSecret → Option String
  pub reply : SealedSecret → Request → Reply
  pub iso : ℕ → String

-- The row that the five tables join to for a call.
pub record SyncContext : Type 0 where
  pub attempt : CallAttempt
  pub lead : Lead
  pub tenant : Tenant
  pub campaign : Option Campaign
  pub analysis : CallAnalysis

abbrev pub campaign_of : Db → CallAttempt → Option Campaign
campaign_of db c = elim c.campaign_id [ none ↦ none | some id ↦ find_campaign db id ]

pub load_context : Db → ℕ → Option SyncContext
load_context db call = elim (find_attempt db call) [
  | none ↦ none
  | some c ↦ elim (find_lead db c.lead_id) [
    | none ↦ none
    | some l ↦ elim (find_tenant db c.tenant_id) [
      | none ↦ none
      | some t ↦ elim (first_where (λ a. a.call_id == c.id) db.call_analyses) [
        | none ↦ none
        | some a ↦ some (record {
          attempt = c;
          lead = l;
          tenant = t;
          campaign = campaign_of db c;
          analysis = a;
        })
      ]
    ]
  ]
]

pub committed : SyncContext → Bool
committed ctx = may_auto_sync ctx.analysis.review_status

abbrev pub integration_of : SyncTarget → IntegrationType
integration_of SyncTarget.hubspot = IntegrationType.hubspot
integration_of SyncTarget.google_sheets = IntegrationType.google_sheets
integration_of SyncTarget.notification = IntegrationType.notification

abbrev is_hubspot : IntegrationType → Bool
is_hubspot IntegrationType.hubspot = true
is_hubspot _ = false

-- The clause on the campaign: HubSpot is the campaign's own integration.
abbrev serves : Db → Option ℕ → Integration → Bool
serves db none i = true
serves db (some campaign) i =
    holds (λ c. opt_is c.hubspot_integration_id i.id) (find_campaign db campaign)
    || not (is_hubspot i.type)

abbrev secret_of : Option Integration → Option SealedSecret
secret_of none = none
secret_of (some i) = i.credential

abbrev has_secret : Integration → Bool
has_secret i = elim i.credential [ none ↦ false | some s ↦ true ]

pub load_credential_or_null : Db → IntegrationType → Option SealedSecret
load_credential_or_null db type = secret_of (
    first_where (λ i. has_secret i && same_type i.type type && is_active_integration i.status)
      db.integrations)

pub load_credential : Db → Option ℕ → IntegrationType → Option SealedSecret
load_credential db campaign type = secret_of (
    first_where
      (λ i.
        has_secret i
        && same_type i.type type
        && is_active_integration i.status
        && serves db campaign i)
      db.integrations)

abbrev pub type_text : IntegrationType → String
type_text IntegrationType.hubspot = "hubspot"
type_text IntegrationType.google_sheets = "google_sheets"
type_text IntegrationType.voice_provider = "voice_provider"
type_text IntegrationType.notification = "notification"

abbrev flag_text : Bool → String
flag_text true = "true"
flag_text false = "false"

abbrev campaign_name : SyncContext → String
campaign_name ctx = elim ctx.campaign [ none ↦ "" | some c ↦ c.name ]

module _ (cipher : Cipher) (outside : Outside) (wall : ℕ) where
  -- date.toISOString().slice(0, 10)
  abbrev day : ℕ → String
  day time = clip 10 (outside.iso time)

  pub sheet_row : SyncContext → Outcome SheetRow
  sheet_row ctx = do
    name ← decrypt_pii_or_null cipher ctx.lead.name_enc
    phone ← decrypt_pii_or_null cipher ctx.lead.phone_enc
    email ← decrypt_pii_or_null cipher ctx.lead.email_enc
    enquiry ← decrypt_pii_or_null cipher ctx.lead.enquiry_enc
    ok (record {
      call_id = decimal ctx.attempt.id;
      client_id = ctx.tenant.name;
      campaign = campaign_name ctx;
      lead_id = decimal ctx.lead.id;
      hubspot_record_id = get_or ctx.lead.hubspot_record_id "";
      source = ctx.lead.source;
      name = get_or name "";
      phone = get_or phone "";
      email = get_or email "";
      enquiry = get_or enquiry "";
      lead_created = day ctx.lead.created_at;
      call_date = day (get_or ctx.attempt.ended_at wall);
      duration_sec = decimal (get_or ctx.attempt.duration_sec 0);
      call_status = status_text ctx.attempt.status;
      intent = intent_text ctx.analysis.intent;
      score = integer_text ctx.analysis.score;
      qualification = ctx.analysis.qualification;
      timeline = timeline_text ctx.analysis.result.timeline;
      budget = get_or ctx.analysis.result.budget "";
      location = get_or ctx.analysis.result.location "";
      callback_requested = flag_text ctx.analysis.result.callback_requested;
      human_followup = flag_text ctx.analysis.result.human_followup;
      dnc = flag_text ctx.analysis.result.do_not_call;
      summary = ctx.analysis.result.summary;
      recording_ref = get_or ctx.attempt.recording_ref "";
      sync_status = "success";
    })

  pub contact_update : SyncContext → ContactUpdate
  contact_update ctx = record {
    last_call_status = status_text ctx.attempt.status;
    last_call_at = outside.iso (get_or ctx.attempt.ended_at wall);
    intent = intent_text ctx.analysis.intent;
    score = ctx.analysis.score;
    qualification = ctx.analysis.qualification;
    summary = ctx.analysis.result.summary;
    callback_requested = ctx.analysis.result.callback_requested;
    next_call_at = elim ctx.lead.next_call_at [ none ↦ none | some t ↦ some (outside.iso t) ];
    human_followup = ctx.analysis.result.human_followup;
    dnc = ctx.analysis.result.do_not_call;
  }

  -- The task for the person who picks the lead up; an hour from now without a next call.
  pub follow_up_task : SyncContext → String → Request
  follow_up_task ctx contact =
      create_task contact
        ("AI call: "
          +text intent_text ctx.analysis.intent
          +text " (score "
          +text integer_text ctx.analysis.score
          +text ")")
        ctx.analysis.result.summary (get_or ctx.lead.next_call_at (wall + 3600000))

  masked : Option String → Option String
  masked phone = elim (truthy phone) [ none ↦ none | some p ↦ some (mask_phone p) ]

  pub notification : SyncContext → Outcome Notification
  notification ctx = do
    name ← decrypt_pii_or_null cipher ctx.lead.name_enc
    phone ← decrypt_pii_or_null cipher ctx.lead.phone_enc
    ok (record {
      tenant_name = ctx.tenant.name;
      campaign_name = campaign_name ctx;
      lead_name = name;
      masked_phone = masked phone;
      intent = intent_text ctx.analysis.intent;
      score = ctx.analysis.score;
      summary = ctx.analysis.result.summary;
      call_id = ctx.attempt.id;
      duration_sec = ctx.attempt.duration_sec;
    })
