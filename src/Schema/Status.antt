-- ===== src/Schema/Status.antt =====
-- The enums of db/schema.ts, and the tests that the SQL and TypeScript make of them.
use mathlib.Core.Path.{◌≡◌}
use mathlib.Core.Logic.{◌↔◌}
use mathlib.Core.Bool.{Bool, true, false}
use native.Mathlib.Omega.{arith}

pub data TenantStatus : Type 0 where
  active inactive suspended : TenantStatus

pub data LeadStatus : Type 0 where
  new quarantined suppressed queued calling : LeadStatus
  awaiting_analysis pending_review qualified closed failed : LeadStatus

pub data ConsentBasis : Type 0 where
  opt_in_form existing_customer service_call ivr_confirmation other : ConsentBasis

pub data ConsentStatus : Type 0 where
  active withdrawn expired : ConsentStatus

pub data CallStatus : Type 0 where
  initiated ringing answered completed no_answer busy failed canceled : CallStatus

pub data ReviewStatus : Type 0 where
  auto_approved pending_review confirmed corrected rejected : ReviewStatus

pub data CallbackStatus : Type 0 where
  scheduled completed missed canceled : CallbackStatus

pub data DncScope : Type 0 where
  tenant campaign : DncScope

pub data SyncTarget : Type 0 where
  hubspot google_sheets notification : SyncTarget

pub data SyncStatus : Type 0 where
  pending in_flight succeeded failed dead_letter : SyncStatus

pub data IntegrationStatus : Type 0 where
  active disabled error : IntegrationStatus

pub data IntegrationType : Type 0 where
  hubspot google_sheets voice_provider notification : IntegrationType

pub data ActorType : Type 0 where
  user service system : ActorType

abbrev pub is_active : TenantStatus → Bool
is_active TenantStatus.active = true
is_active _ = false

abbrev pub is_queued : LeadStatus → Bool
is_queued LeadStatus.queued = true
is_queued _ = false

abbrev pub is_calling : LeadStatus → Bool
is_calling LeadStatus.calling = true
is_calling _ = false

pub is_queued_iff : (s : LeadStatus) → (is_queued s ≡ true) ↔ (s ≡ LeadStatus.queued)
is_queued_iff s = ground arith

pub is_calling_iff : (s : LeadStatus) → (is_calling s ≡ true) ↔ (s ≡ LeadStatus.calling)
is_calling_iff s = ground arith

abbrev pub is_active_consent : ConsentStatus → Bool
is_active_consent ConsentStatus.active = true
is_active_consent _ = false

-- status in ('withdrawn', 'expired')
abbrev pub is_revoked : ConsentStatus → Bool
is_revoked ConsentStatus.active = false
is_revoked _ = true

-- status in ('initiated', 'ringing', 'answered')
abbrev pub is_in_flight : CallStatus → Bool
is_in_flight CallStatus.initiated = true
is_in_flight CallStatus.ringing = true
is_in_flight CallStatus.answered = true
is_in_flight _ = false

abbrev pub is_completed : CallStatus → Bool
is_completed CallStatus.completed = true
is_completed _ = false

abbrev pub is_scheduled : CallbackStatus → Bool
is_scheduled CallbackStatus.scheduled = true
is_scheduled _ = false

-- status in ('scheduled', 'missed')
abbrev pub is_unkept : CallbackStatus → Bool
is_unkept CallbackStatus.scheduled = true
is_unkept CallbackStatus.missed = true
is_unkept _ = false

abbrev pub is_tenant_scope : DncScope → Bool
is_tenant_scope DncScope.tenant = true
is_tenant_scope DncScope.campaign = false

abbrev pub same_target : SyncTarget → SyncTarget → Bool
same_target SyncTarget.hubspot SyncTarget.hubspot = true
same_target SyncTarget.google_sheets SyncTarget.google_sheets = true
same_target SyncTarget.notification SyncTarget.notification = true
same_target _ _ = false

pub same_target_iff : (s t : SyncTarget) → (same_target s t ≡ true) ↔ (s ≡ t)
same_target_iff s t = ground arith

abbrev pub is_active_integration : IntegrationStatus → Bool
is_active_integration IntegrationStatus.active = true
is_active_integration _ = false

abbrev pub same_type : IntegrationType → IntegrationType → Bool
same_type IntegrationType.hubspot IntegrationType.hubspot = true
same_type IntegrationType.google_sheets IntegrationType.google_sheets = true
same_type IntegrationType.voice_provider IntegrationType.voice_provider = true
same_type IntegrationType.notification IntegrationType.notification = true
same_type _ _ = false
