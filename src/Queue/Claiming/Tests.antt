-- ===== src/Queue/Claiming/Tests.antt =====
-- A claim of one lead, and the results about it.
use voice_call.Base.{
  ℕ, ◌+◌, ◌≤◌, ◌≡◌, ◌≢◌, refl, ◌⊎◌, Bool, true, false, none, some, [], ◌∷◌, arith, length, map, All,
  ok, any, first_where, select_where, count_where, update_where, sort_by,
}
use voice_call.Fixtures.{result_or, plain_cipher, monday_morning, a_lead, a_db}
use voice_call.Schema.{
  Db, Campaign, LeadStatus, find_tenant, find_campaign, update_lead, audit_in_tx,
}
use voice_call.Pii.{decrypt_pii, decrypt_pii_or_null, truthy}
use voice_call.Eligibility.{check_eligibility, active_consent_for}
use voice_call.Windows.{WindowDecision, is_within_window, window_from_config}
use voice_call.Queue.{
  ClaimArgs, ClaimResult, tenant_limit, claim_limit, tenant_in_flight, campaign_in_flight,
  claim_headroom, tenant_headroom, campaign_headroom, candidates, reclaim, audit_claims,
  claimed_lead,
}
use voice_call.Queue.Claiming.{
  claim_leads, claim_running, claim_decided, claim_open, claim_candidates, claim_rows, claim_one,
  claim_with_phone, add,
}
use voice_call.Queue.Claiming.Limits.{claim_leads_caps}
use voice_call.Queue.Claiming.Safety.{IsSafeClaim, claim_leads_safe}
use voice_call.Queue.Claiming.Locks.{claim_leads_disjoint}

abbrev nothing_held : ℕ → Bool
nothing_held id = false

abbrev the_args : ClaimArgs
the_args = record { tenant_id = 1; campaign_id = 2; worker_id = "w1"; limit = none; now = 10000 }

abbrev one_queued : Db
one_queued = a_db (a_lead 7 LeadStatus.queued ∷ []) []

abbrev no_claim : Db × ClaimResult
no_claim = (one_queued, record { claimed = []; skipped = [] })

abbrev first_claim : Db × ClaimResult
first_claim =
    result_or no_claim (claim_leads plain_cipher monday_morning nothing_held the_args one_queued)

claims_one : map (λ c. c.lead_id) first_claim.1.claimed ≡ 7 ∷ []
unfolding claim_leads claim_running claim_decided claim_open claim_candidates claim_rows claim_one
    claim_with_phone add tenant_limit claim_limit tenant_in_flight campaign_in_flight claim_headroom
    tenant_headroom campaign_headroom candidates reclaim audit_claims claimed_lead is_within_window
    window_from_config find_tenant find_campaign update_lead audit_in_tx decrypt_pii
    decrypt_pii_or_null truthy check_eligibility active_consent_for any first_where select_where
    count_where update_where sort_by
claims_one = refl

first_claim-ok :
    claim_leads plain_cipher monday_morning nothing_held the_args one_queued ≡ ok first_claim
unfolding claim_leads claim_running claim_decided claim_open claim_candidates claim_rows claim_one
    claim_with_phone add tenant_limit claim_limit tenant_in_flight campaign_in_flight claim_headroom
    tenant_headroom campaign_headroom candidates reclaim audit_claims claimed_lead is_within_window
    window_from_config find_tenant find_campaign update_lead audit_in_tx decrypt_pii
    decrypt_pii_or_null truthy check_eligibility active_consent_for any first_where select_where
    count_where update_where sort_by
first_claim-ok = refl

claim_leads_safe_example :
    All (IsSafeClaim plain_cipher nothing_held the_args one_queued) first_claim.1.claimed
claim_leads_safe_example =
    claim_leads_safe plain_cipher monday_morning nothing_held the_args one_queued first_claim
      first_claim-ok

claim_leads_caps_example :
    (first_claim.1.claimed ≡ [])
    ⊎ ((c : Campaign) × (d : WindowDecision) × (find_campaign one_queued 2 ≡ some c)
        × (c.active ≡ true)
        × (is_within_window monday_morning 10000 (window_from_config c.calling_config c.timezone)
            ≡ ok d)
        × (d.allowed ≡ true)
        × (length first_claim.1.claimed + tenant_in_flight one_queued 1 ≤ tenant_limit one_queued 1)
        × (length first_claim.1.claimed + campaign_in_flight one_queued 2 ≤ c.concurrency_limit)
        × (length first_claim.1.claimed ≤ claim_limit the_args)
        × (claim_limit the_args ≤ 100))
claim_leads_caps_example =
    claim_leads_caps plain_cipher monday_morning nothing_held the_args one_queued first_claim
      first_claim-ok

-- Another worker, a minute later.
abbrev other_args : ClaimArgs
other_args = record the_args { worker_id = "w2"; now = 70000 }

abbrev a_minute_later : Db
a_minute_later = record first_claim.0 { now = 70000 }

abbrev second_claim : Db × ClaimResult
second_claim =
    result_or no_claim
      (claim_leads plain_cipher monday_morning nothing_held other_args a_minute_later)

second_claim-ok :
    claim_leads plain_cipher monday_morning nothing_held other_args a_minute_later ≡ ok second_claim
unfolding claim_leads claim_running claim_decided claim_open claim_candidates claim_rows claim_one
    claim_with_phone add tenant_limit claim_limit tenant_in_flight campaign_in_flight claim_headroom
    tenant_headroom campaign_headroom candidates reclaim audit_claims claimed_lead is_within_window
    window_from_config find_tenant find_campaign update_lead audit_in_tx decrypt_pii
    decrypt_pii_or_null truthy check_eligibility active_consent_for any first_where select_where
    count_where update_where sort_by
second_claim-ok = refl

claim_leads_disjoint_example :
    All (λ c. All (λ c'. c'.lead_id ≢ c.lead_id) second_claim.1.claimed) first_claim.1.claimed
claim_leads_disjoint_example =
    claim_leads_disjoint plain_cipher monday_morning monday_morning nothing_held nothing_held
      the_args other_args one_queued a_minute_later first_claim second_claim (tt, tt) first_claim-ok
      refl (omega arith) second_claim-ok
