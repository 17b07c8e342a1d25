-- ===== src/Schema/Tables.antt =====
-- The rows of each table and the database. Ids are drawn from a counter in place of
-- gen_random_uuid(); a time is a count of milliseconds, and `now` is the transaction's now().
use voice_call.Base.{ℕ, String, Bool, Option, List, [], ◌∷◌, ◌++◌}
use voice_call.Base.Int.{ℤ}
use voice_call.Schema.Status.{
  TenantStatus, LeadStatus, ConsentBasis, ConsentStatus, CallStatus, ReviewStatus, CallbackStatus,
  DncScope, SyncTarget, SyncStatus, IntegrationStatus, IntegrationType, ActorType,
}
use voice_call.Schema.Config.{CallingConfig, RoutingConfig, RubricConfig, Question, CampaignConfig}
use voice_call.Schema.Qualification.{QualificationResult, RedactedResult, Intent}

pub record Tenant : Type 0 where
  pub id : ℕ
  pub name : String
  pub status : TenantStatus
  pub concurrency_limit : ℕ

pub record Campaign : Type 0 where
  pub id : ℕ
  pub tenant_id : ℕ
  pub name : String
  pub domain : Option String
  pub business_context : Option String
  pub script : Option String
  pub timezone : String
  pub active : Bool
  pub config_version : ℕ
  pub calling_config : CallingConfig
  pub routing_config : RoutingConfig
  pub scoring_rubric : RubricConfig
  pub service_call_campaign : Bool
  pub voice_provider : String
  pub concurrency_limit : ℕ
  pub dial_allowlist : List String
  pub analysis_model : String
  pub analysis_effort : String
  pub prompt_version : String
  pub review_confidence_threshold : ℕ  -- thousandths
  pub review_boundary_band : ℕ
  pub consent_basis : Option ConsentBasis
  pub consent_source : Option String
  pub consent_evidence_ref : Option String
  pub consent_origin : Option String
  pub intake_property : Option String
  pub intake_values : List String
  pub intake_default : Bool
  pub google_sheet_id : Option String
  pub google_sheet_tab : Option String
  pub hubspot_integration_id : Option ℕ
  pub updated_by : Option ℕ

-- The bytes of an encrypted column: version, nonce, tag and ciphertext.
pub record Envelope : Type 0 where
  pub version : ℕ
  pub iv : String
  pub auth_tag : String
  pub ciphertext : String

pub record Lead : Type 0 where
  pub id : ℕ
  pub campaign_id : Option ℕ
  pub hubspot_record_id : Option String
  pub source : String
  pub created_at : ℕ
  pub name_enc : Option Envelope
  pub phone_enc : Option Envelope
  pub email_enc : Option Envelope
  pub enquiry_enc : Option Envelope
  pub phone_bidx : Option String
  pub email_bidx : Option String
  pub phone_last4 : Option String
  pub phone_country : Option String
  pub status : LeadStatus
  pub status_reason : Option String
  pub dnc : Bool
  pub call_attempt_count : ℕ
  pub next_call_at : Option ℕ
  pub last_call_at : Option ℕ
  pub queued_at : Option ℕ
  pub locked_by : Option String
  pub locked_at : Option ℕ
  pub lock_expires_at : Option ℕ
  pub correlation_id : Option String

pub record Consent : Type 0 where
  pub id : ℕ
  pub lead_id : ℕ
  pub basis : ConsentBasis
  pub source : String
  pub evidence_ref : Option String
  pub captured_at : ℕ
  pub captured_by : String
  pub status : ConsentStatus

pub record DncEntry : Type 0 where
  pub tenant_id : ℕ
  pub scope : DncScope
  pub campaign_id : Option ℕ
  pub phone_bidx : String
  pub reason : Option String
  pub source : String
  pub created_by : Option ℕ

pub record CallAttempt : Type 0 where
  pub id : ℕ
  pub tenant_id : ℕ
  pub lead_id : ℕ
  pub campaign_id : Option ℕ
  pub attempt_no : ℕ
  pub provider : String
  pub provider_call_id : Option String
  pub status : CallStatus
  pub started_at : Option ℕ
  pub ended_at : Option ℕ
  pub duration_sec : Option ℕ
  pub queue_latency_sec : Option ℕ
  pub failure_reason : Option String
  pub recording_ref : Option String
  pub consent_id : Option ℕ
  pub consent_basis : Option ConsentBasis
  pub campaign_config_version : ℕ
  pub workflow_version : String
  pub correlation_id : Option String

pub record CallTranscript : Type 0 where
  pub call_id : ℕ
  pub transcript_enc : Option Envelope
  pub language : Option String

pub record CallAnalysis : Type 0 where
  pub id : ℕ
  pub call_id : ℕ
  pub intent : Intent
  pub score : ℤ
  pub qualification : String
  pub result : QualificationResult
  pub signals : List (String × ℤ)
  pub routing_action : String
  pub confidence : ℕ
  pub model : String
  pub prompt_version : String
  pub review_status : ReviewStatus
  pub review_reason : Option String
  pub reviewed_by : Option ℕ
  pub reviewed_at : Option ℕ

pub record Callback : Type 0 where
  pub id : ℕ
  pub tenant_id : ℕ
  pub lead_id : ℕ
  pub call_id : Option ℕ
  pub scheduled_for : ℕ
  pub status : CallbackStatus
  pub resolved_at : Option ℕ
  pub resolved_by : Option ℕ
  pub fulfilled_call_id : Option ℕ
  pub note : Option String

pub record RoutingEvent : Type 0 where
  pub lead_id : ℕ
  pub call_id : ℕ
  pub action : String
  pub status : String

-- A value of an audit entry's metadata or of a sync's payload.
pub data Meta : Type 0 where
  null : Meta
  text : String → Meta
  number : ℕ → Meta
  flag : Bool → Meta
  numbers : List ℕ → Meta
  integer : ℤ → Meta
  texts : List String → Meta
  redacted : RedactedResult → Meta

pub record SyncItem : Type 0 where
  pub id : ℕ
  pub tenant_id : ℕ
  pub target : SyncTarget
  pub dedupe_key : String
  pub payload : List (String × Meta)
  pub status : SyncStatus
  pub attempts : ℕ
  pub next_attempt_at : ℕ
  pub completed_at : Option ℕ
  pub last_error : Option String

-- The one inbound delivery of an event; `result` is left out.
pub record WebhookEvent : Type 0 where
  pub id : ℕ
  pub tenant_id : ℕ
  pub source : String
  pub event_type : String
  pub idempotency_key : String
  pub processed_at : Option ℕ

pub record SealedSecret : Type 0 where
  pub key_id : String
  pub wrapped_dek : String
  pub iv : String
  pub ciphertext : String
  pub auth_tag : String

-- An integration with the secret that its credential_ref names, in order of created_at.
pub record Integration : Type 0 where
  pub id : ℕ
  pub type : IntegrationType
  pub status : IntegrationStatus
  pub last_error : Option String
  pub credential : Option SealedSecret

pub record CampaignVersion : Type 0 where
  pub tenant_id : ℕ
  pub campaign_id : ℕ
  pub version : ℕ
  pub snapshot : CampaignConfig
  pub changed_by : ℕ
  pub change_note : Option String

pub record AuditEntry : Type 0 where
  pub tenant_id : ℕ
  pub actor_type : ActorType
  pub actor_id : Option ℕ
  pub actor_label : Option String
  pub action : String
  pub entity_type : String
  pub entity_id : Meta
  pub metadata : List (String × Meta)

pub record Db : Type 0 where
  pub now : ℕ
  pub next_id : ℕ
  pub tenants : List Tenant
  pub campaigns : List Campaign
  pub questions : List Question
  pub leads : List Lead
  pub consents : List Consent
  pub dnc_entries : List DncEntry
  pub call_attempts : List CallAttempt
  pub call_transcripts : List CallTranscript
  pub call_analyses : List CallAnalysis
  pub callbacks : List Callback
  pub routing_events : List RoutingEvent
  pub sync_outbox : List SyncItem
  pub audit_events : List AuditEntry
  pub webhook_events : List WebhookEvent
  pub integrations : List Integration
  pub campaign_versions : List CampaignVersion

-- audit.ts, `auditInTx`: the entry joins the transaction.
unfoldable pub audit_in_tx : Db → AuditEntry → Db
audit_in_tx db entry = record db { audit_events = db.audit_events ++ entry ∷ [] }
