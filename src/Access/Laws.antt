-- ===== src/Access/Laws.antt =====
-- What the permission table grants, and to whom.
use voice_call.Base.{
  ◌≡◌, refl, ◌↔◌, true, false, ◌&&◌, List, [], ◌∷◌, any, All, err, not_authorized,
}
use voice_call.Access.{Role, Permission, has_global_scope, can, require_}

-- Permissions over the agency itself.
abbrev pub administrative : List Permission
administrative =
    Permission.tenant_write ∷ Permission.user_read ∷ Permission.user_write
    ∷ Permission.elevation_grant ∷ Permission.audit_read ∷ Permission.compliance_approve ∷ []

-- Permissions that change how a campaign is set up.
abbrev pub configuration : List Permission
configuration =
    Permission.campaign_write ∷ Permission.integration_write ∷ Permission.secret_write ∷ []

-- Permissions that change leads, reviews, promises and the do-not-call list.
abbrev pub operations : List Permission
operations =
    Permission.lead_write ∷ Permission.review_resolve ∷ Permission.callback_write
    ∷ Permission.dnc_write ∷ []

admin-can : (p : Permission) → can Role.agency_admin p ≡ true
unfolding can any
admin-can Permission.tenant_read = refl
admin-can Permission.tenant_write = refl
admin-can Permission.user_read = refl
admin-can Permission.user_write = refl
admin-can Permission.elevation_grant = refl
admin-can Permission.campaign_read = refl
admin-can Permission.campaign_write = refl
admin-can Permission.integration_read = refl
admin-can Permission.integration_write = refl
admin-can Permission.secret_write = refl
admin-can Permission.lead_read = refl
admin-can Permission.lead_write = refl
admin-can Permission.call_read = refl
admin-can Permission.review_read = refl
admin-can Permission.review_resolve = refl
admin-can Permission.callback_write = refl
admin-can Permission.dnc_write = refl
admin-can Permission.pii_reveal = refl
admin-can Permission.transcript_read = refl
admin-can Permission.recording_read = refl
admin-can Permission.analytics_read = refl
admin-can Permission.audit_read = refl
admin-can Permission.compliance_approve = refl

-- The one role with global scope is the one that holds every permission.
pub has_global_scope-can_iff :
    (r : Role) → (has_global_scope r ≡ true) ↔ ((p : Permission) → can r p ≡ true)
unfolding can any
has_global_scope-can_iff Role.agency_admin = (λ e. admin-can, λ h. refl)
has_global_scope-can_iff Role.campaign_manager = (λ e. absurd (cc), λ h. h Permission.user_write)
has_global_scope-can_iff Role.operations_manager = (λ e. absurd (cc), λ h. h Permission.user_write)
has_global_scope-can_iff Role.analyst = (λ e. absurd (cc), λ h. h Permission.user_write)
has_global_scope-can_iff Role.service = (λ e. absurd (cc), λ h. h Permission.user_write)

-- A role without global scope is refused every permission over the agency: to write tenants, to
-- read or write users, to grant an elevation, to read the audit trail, to approve compliance.
pub require_-administrative :
    (r : Role)
    → has_global_scope r ≡ false
    → All (λ p. require_ r p ≡ err not_authorized) administrative
unfolding require_ can any
require_-administrative Role.agency_admin e = absurd (cc)
require_-administrative Role.campaign_manager e = (refl, (refl, (refl, (refl, (refl, (refl, tt))))))
require_-administrative Role.operations_manager e =
    (refl, (refl, (refl, (refl, (refl, (refl, tt))))))
require_-administrative Role.analyst e = (refl, (refl, (refl, (refl, (refl, (refl, tt))))))
require_-administrative Role.service e = (refl, (refl, (refl, (refl, (refl, (refl, tt))))))

-- Duties are separate: whoever may change a campaign's set-up and may also change leads, reviews,
-- promises or the do-not-call list has global scope, and whoever has global scope may do both.
pub can-separate :
    (r : Role)
    → All (λ p. All (λ q. (can r p && can r q) ≡ has_global_scope r) operations) configuration
unfolding can any
can-separate Role.agency_admin = (
  (refl, (refl, (refl, (refl, tt)))),
  ((refl, (refl, (refl, (refl, tt)))), ((refl, (refl, (refl, (refl, tt)))), tt)),
)
can-separate Role.campaign_manager = (
  (refl, (refl, (refl, (refl, tt)))),
  ((refl, (refl, (refl, (refl, tt)))), ((refl, (refl, (refl, (refl, tt)))), tt)),
)
can-separate Role.operations_manager = (
  (refl, (refl, (refl, (refl, tt)))),
  ((refl, (refl, (refl, (refl, tt)))), ((refl, (refl, (refl, (refl, tt)))), tt)),
)
can-separate Role.analyst = (
  (refl, (refl, (refl, (refl, tt)))),
  ((refl, (refl, (refl, (refl, tt)))), ((refl, (refl, (refl, (refl, tt)))), tt)),
)
can-separate Role.service = (
  (refl, (refl, (refl, (refl, tt)))),
  ((refl, (refl, (refl, (refl, tt)))), ((refl, (refl, (refl, (refl, tt)))), tt)),
)
