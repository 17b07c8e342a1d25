-- ===== src/Access.antt =====
-- lib/auth/rbac.ts: the roles and what each may do.
pub mod Laws
mod Tests
use voice_call.Base.{
  String, Bool, true, false, List, [], ◌∷◌, str_eq, if◌then◌else◌, any, Outcome, ok, err,
  not_authorized,
}

pub data Role : Type 0 where
  agency_admin campaign_manager operations_manager analyst service : Role

pub data Permission : Type 0 where
  tenant_read tenant_write user_read user_write elevation_grant campaign_read : Permission
  campaign_write integration_read integration_write secret_write lead_read : Permission
  lead_write call_read review_read review_resolve callback_write dnc_write : Permission
  pii_reveal transcript_read recording_read analytics_read audit_read : Permission
  compliance_approve : Permission

abbrev permission_text : Permission → String
permission_text Permission.tenant_read = "tenant:read"
permission_text Permission.tenant_write = "tenant:write"
permission_text Permission.user_read = "user:read"
permission_text Permission.user_write = "user:write"
permission_text Permission.elevation_grant = "elevation:grant"
permission_text Permission.campaign_read = "campaign:read"
permission_text Permission.campaign_write = "campaign:write"
permission_text Permission.integration_read = "integration:read"
permission_text Permission.integration_write = "integration:write"
permission_text Permission.secret_write = "secret:write"
permission_text Permission.lead_read = "lead:read"
permission_text Permission.lead_write = "lead:write"
permission_text Permission.call_read = "call:read"
permission_text Permission.review_read = "review:read"
permission_text Permission.review_resolve = "review:resolve"
permission_text Permission.callback_write = "callback:write"
permission_text Permission.dnc_write = "dnc:write"
permission_text Permission.pii_reveal = "pii:reveal"
permission_text Permission.transcript_read = "transcript:read"
permission_text Permission.recording_read = "recording:read"
permission_text Permission.analytics_read = "analytics:read"
permission_text Permission.audit_read = "audit:read"
permission_text Permission.compliance_approve = "compliance:approve"

abbrev permissions : List Permission
permissions =
    Permission.tenant_read ∷ Permission.tenant_write ∷ Permission.user_read ∷ Permission.user_write
    ∷ Permission.elevation_grant ∷ Permission.campaign_read ∷ Permission.campaign_write
    ∷ Permission.integration_read ∷ Permission.integration_write ∷ Permission.secret_write
    ∷ Permission.lead_read ∷ Permission.lead_write ∷ Permission.call_read ∷ Permission.review_read
    ∷ Permission.review_resolve ∷ Permission.callback_write ∷ Permission.dnc_write
    ∷ Permission.pii_reveal ∷ Permission.transcript_read ∷ Permission.recording_read
    ∷ Permission.analytics_read ∷ Permission.audit_read ∷ Permission.compliance_approve ∷ []

abbrev role_permissions : Role → List Permission
role_permissions Role.agency_admin = permissions
role_permissions Role.campaign_manager =
    Permission.tenant_read ∷ Permission.campaign_read ∷ Permission.campaign_write
    ∷ Permission.integration_read ∷ Permission.integration_write ∷ Permission.secret_write
    ∷ Permission.lead_read ∷ Permission.call_read ∷ Permission.review_read ∷ Permission.pii_reveal
    ∷ Permission.transcript_read ∷ Permission.analytics_read ∷ []
role_permissions Role.operations_manager =
    Permission.tenant_read ∷ Permission.campaign_read ∷ Permission.lead_read ∷ Permission.lead_write
    ∷ Permission.call_read ∷ Permission.review_read ∷ Permission.review_resolve
    ∷ Permission.callback_write ∷ Permission.dnc_write ∷ Permission.pii_reveal
    ∷ Permission.transcript_read ∷ Permission.recording_read ∷ Permission.analytics_read ∷ []
role_permissions Role.analyst =
    Permission.tenant_read ∷ Permission.campaign_read ∷ Permission.lead_read ∷ Permission.call_read
    ∷ Permission.analytics_read ∷ []
role_permissions Role.service =
    Permission.lead_read ∷ Permission.lead_write ∷ Permission.call_read ∷ Permission.callback_write
    ∷ Permission.dnc_write ∷ []

abbrev pub has_global_scope : Role → Bool
has_global_scope Role.agency_admin = true
has_global_scope _ = false

-- ROLE_PERMISSIONS[role].includes(permission)
unfoldable pub can : Role → Permission → Bool
can role permission =
    any (λ p. str_eq (permission_text p) (permission_text permission)) (role_permissions role)

pub permissions_for : Role → List Permission
permissions_for role = role_permissions role

-- The error for a role that may not: `AuthorizationError`.
unfoldable pub require_ : Role → Permission → Outcome {0} Unit
require_ role permission = if can role permission then ok tt else err not_authorized
