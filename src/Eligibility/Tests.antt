-- ===== src/Eligibility/Tests.antt =====
-- The gate for a lead that may be called, and the same lead after it was suppressed.
use voice_call.Base.{◌≡◌, refl, ◌↔◌, ◌⊎◌, String, false, none, some, [], ◌∷◌, any, first_where}
use voice_call.Fixtures.{plain_cipher, a_lead, a_db}
use voice_call.Schema.{Db, LeadStatus, find_tenant, find_campaign}
use voice_call.Pii.{truthy}
use voice_call.Eligibility.{
  EligibilityInput, eligible, ineligible, tenant_inactive, lead_dnc_flag, dnc_tenant,
  check_eligibility, Suppression, suppress_lead,
}
use voice_call.Eligibility.Gate.{IsCallable, check_eligibility-eligible_iff}
use voice_call.Eligibility.Dnc.{check_eligibility-suppress_lead}

abbrev the_phone : String
the_phone = "+911234567890"

abbrev the_input : EligibilityInput
the_input = record {
  tenant_id = 1;
  lead_id = 7;
  campaign_id = some 2;
  phone_e164 = some the_phone;
  lead_dnc = false;
  call_attempt_count = 2;
}

abbrev one_lead : Db
one_lead = a_db (a_lead 7 LeadStatus.queued ∷ []) []

may_call : check_eligibility plain_cipher one_lead the_input ≡ eligible
unfolding check_eligibility find_tenant find_campaign first_where any truthy
may_call = refl

check_eligibility-eligible_iff_example :
    (check_eligibility plain_cipher one_lead the_input ≡ eligible)
    ↔ IsCallable plain_cipher one_lead the_input
check_eligibility-eligible_iff_example =
    check_eligibility-eligible_iff plain_cipher one_lead the_input

abbrev stop_request : Suppression
stop_request = record {
  tenant_id = 1;
  lead_id = 7;
  phone_e164 = some the_phone;
  reason = "do_not_call";
  source = "voice_detected";
  created_by = none;
}

-- Another lead of the same tenant with the same number.
abbrev same_number : EligibilityInput
same_number = record the_input { lead_id = 8; call_attempt_count = 0 }

check_eligibility-suppress_lead_example :
    (check_eligibility plain_cipher (suppress_lead plain_cipher one_lead stop_request) same_number
      ≡ ineligible tenant_inactive "Tenant is not active")
    ⊎ (check_eligibility plain_cipher (suppress_lead plain_cipher one_lead stop_request) same_number
        ≡ ineligible lead_dnc_flag "Lead is marked do-not-call")
    ⊎ (check_eligibility plain_cipher (suppress_lead plain_cipher one_lead stop_request) same_number
        ≡ ineligible dnc_tenant "Number is on the tenant DNC list")
unfolding truthy
check_eligibility-suppress_lead_example =
    check_eligibility-suppress_lead plain_cipher one_lead stop_request
      (suppress_lead plain_cipher one_lead stop_request) same_number the_phone refl refl refl refl
