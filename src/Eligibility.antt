-- ===== src/Eligibility.antt =====
-- lib/leads/eligibility.ts: the gate before every call, and permanent suppression. The tables are
-- those that row-level security shows to the tenant's transaction.
pub mod Gate
pub mod Dnc
mod Tests
use voice_call.Base.{
  ℕ, suc, ◌+◌, ◌-◌, ◌≡◌, String, Bool, true, false, not, ◌&&◌, ◌||◌, Option, none, some, List, [],
  ◌∷◌, ◌++◌, str_eq, ltb, leb, ◌==◌, if◌then◌else◌, get_or, get_elem?, holds, is_some, opt_is, any,
  select_where, sort_by, length, decimal, ◌+text◌,
}
use voice_call.Schema.{
  Campaign, Consent, DncEntry, Lead, Db, TenantStatus, DncScope, is_active, is_active_consent,
  is_revoked, is_tenant_scope, LeadStatus, find_tenant, find_campaign, update_lead,
}
use voice_call.Pii.{Cipher, blind_index, truthy}

pub data SuppressionReason : Type 0 where
  dnc_tenant dnc_campaign lead_dnc_flag consent_withdrawn campaign_inactive : SuppressionReason
  not_on_dial_allowlist tenant_inactive max_attempts_reached : SuppressionReason

abbrev pub reason_text : SuppressionReason → String
reason_text dnc_tenant = "dnc_tenant"
reason_text dnc_campaign = "dnc_campaign"
reason_text lead_dnc_flag = "lead_dnc_flag"
reason_text consent_withdrawn = "consent_withdrawn"
reason_text campaign_inactive = "campaign_inactive"
reason_text not_on_dial_allowlist = "not_on_dial_allowlist"
reason_text tenant_inactive = "tenant_inactive"
reason_text max_attempts_reached = "max_attempts_reached"

pub record EligibilityInput : Type 0 where
  pub tenant_id : ℕ
  pub lead_id : ℕ
  pub campaign_id : Option ℕ
  pub phone_e164 : Option String
  pub lead_dnc : Bool
  pub call_attempt_count : ℕ

pub data EligibilityResult : Type 0 where
  eligible : EligibilityResult
  ineligible : SuppressionReason → String → EligibilityResult

tenant_is_active : Db → ℕ → Bool
tenant_is_active db id = holds (λ t. is_active t.status) (find_tenant db id)

-- A tenant-wide entry for the index, and one for the campaign alone.
abbrev blocks_tenant : String → DncEntry → Bool
blocks_tenant index e = is_tenant_scope e.scope && str_eq e.phone_bidx index

abbrev blocks_campaign : ℕ → String → DncEntry → Bool
blocks_campaign campaign index e =
    not (is_tenant_scope e.scope) && opt_is e.campaign_id campaign && str_eq e.phone_bidx index

-- An active consent captured after `c`.
abbrev is_renewed : List Consent → Consent → Bool
is_renewed consents c =
    any
      (λ a. a.lead_id == c.lead_id && is_active_consent a.status && ltb c.captured_at a.captured_at)
      consents

consent_is_withdrawn : Db → ℕ → Bool
consent_is_withdrawn db lead =
    any (λ c. c.lead_id == lead && is_revoked c.status && not (is_renewed db.consents c))
      db.consents

-- dial_allowlist.length > 0 and the phone is not in it
off_allowlist : List String → Option String → Bool
off_allowlist [] phone = false
off_allowlist (x ∷ xs) phone = not (holds (λ p. any (λ listed. str_eq listed p) (x ∷ xs)) phone)

check_rules : Db → EligibilityInput → Campaign → EligibilityResult
check_rules db input c =
    let max_attempts = get_or c.calling_config.max_attempts 3 in
    if not c.active
    then ineligible campaign_inactive "Campaign is not active"
    else if off_allowlist c.dial_allowlist (truthy input.phone_e164)
    then ineligible not_on_dial_allowlist (
        "This campaign is restricted to "
        +text decimal (length c.dial_allowlist)
        +text " verified number(s)")
    else if leb max_attempts input.call_attempt_count
    then ineligible max_attempts_reached ("Reached " +text decimal max_attempts +text " attempts")
    else if not c.service_call_campaign && consent_is_withdrawn db input.lead_id
    then ineligible consent_withdrawn "Consent for this lead was withdrawn"
    else eligible

check_campaign : Db → EligibilityInput → Option ℕ → EligibilityResult
check_campaign db input none = ineligible campaign_inactive "Lead has no campaign"
check_campaign db input (some id) = elim (find_campaign db id) [
  | none ↦ ineligible campaign_inactive "Campaign is not active"
  | some c ↦ check_rules db input c
]

module _ (cipher : Cipher) where
  on_tenant_dnc : Db → EligibilityInput → Bool
  on_tenant_dnc db input =
      holds (λ phone. any (blocks_tenant (blind_index cipher input.tenant_id phone)) db.dnc_entries)
        (truthy input.phone_e164)

  on_campaign_dnc : Db → EligibilityInput → Bool
  on_campaign_dnc db input =
      holds
        (λ phone.
          holds
            (λ id.
              any (blocks_campaign id (blind_index cipher input.tenant_id phone)) db.dnc_entries)
            input.campaign_id)
        (truthy input.phone_e164)

  unfoldable pub check_eligibility : Db → EligibilityInput → EligibilityResult
  unfolding tenant_is_active on_tenant_dnc on_campaign_dnc check_campaign check_rules off_allowlist
      consent_is_withdrawn
  check_eligibility db input =
      if not (tenant_is_active db input.tenant_id)
      then ineligible tenant_inactive "Tenant is not active"
      else if input.lead_dnc
      then ineligible lead_dnc_flag "Lead is marked do-not-call"
      else if on_tenant_dnc db input
      then ineligible dnc_tenant "Number is on the tenant DNC list"
      else if on_campaign_dnc db input
      then ineligible dnc_campaign "Number is suppressed for this campaign"
      else check_campaign db input input.campaign_id

-- order by captured_at desc limit 1
unfoldable pub active_consent_for : Db → ℕ → Option Consent
active_consent_for db lead =
    get_elem?
      (sort_by (λ a b. leb b.captured_at a.captured_at)
        (select_where (λ c. c.lead_id == lead && is_active_consent c.status) db.consents))
      0

-- insert … on conflict (tenant_id, phone_bidx) where scope = 'tenant' do nothing
add_tenant_dnc : DncEntry → List DncEntry → List DncEntry
add_tenant_dnc e entries =
    if any (λ d. d.tenant_id == e.tenant_id && blocks_tenant e.phone_bidx d) entries
    then entries
    else entries ++ e ∷ []

pub record Suppression : Type 0 where
  pub tenant_id : ℕ
  pub lead_id : ℕ
  pub phone_e164 : Option String
  pub reason : String
  pub source : String
  pub created_by : Option ℕ

abbrev pub suppressed_lead : String → Lead → Lead
suppressed_lead reason l = record l {
  dnc = true;
  status = LeadStatus.suppressed;
  status_reason = some reason;
  next_call_at = none;
  locked_by = none;
  lock_expires_at = none;
}

module _ (cipher : Cipher) where
  dnc_entry : Suppression → String → DncEntry
  dnc_entry args phone = record {
    tenant_id = args.tenant_id;
    scope = DncScope.tenant;
    campaign_id = none;
    phone_bidx = blind_index cipher args.tenant_id phone;
    reason = some args.reason;
    source = args.source;
    created_by = args.created_by;
  }

  record_dnc : Db → Suppression → Db
  record_dnc db args = elim (truthy args.phone_e164) [
    | none ↦ db
    | some phone ↦ record db { dnc_entries = add_tenant_dnc (dnc_entry args phone) db.dnc_entries }
  ]

  pub suppress_lead : Db → Suppression → Db
  suppress_lead db args =
      update_lead (record_dnc db args) args.lead_id (suppressed_lead args.reason)
