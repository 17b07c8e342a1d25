-- ===== src/Queue.antt =====
-- lib/calling/queue.ts: claiming the leads that a worker may dial now, and releasing them. `held`
-- says which rows another transaction has locked: `skip locked` passes those over.
pub mod Claiming
use voice_call.Base.{
  ℕ, suc, ◌+◌, ◌-◌, ◌≡◌, min, max, String, Bool, true, false, not, ◌&&◌, ◌||◌, Option, none, some,
  List, [], ◌∷◌, ltb, leb, ◌==◌, if◌then◌else◌, get_or, holds, is_some, opt_is, take, length, map,
  select_where, count_where, update_where, sort_by, Outcome, ok, ◌>>=◌, or_throw,
  campaign_not_found, ◌+text◌,
}
use voice_call.Schema.{
  Campaign, Lead, ConsentBasis, CallAttempt, Db, LeadStatus, is_queued, is_calling, is_in_flight,
  ActorType, Meta, audit_in_tx, find_tenant, find_campaign, update_lead,
}
use voice_call.Pii.{Cipher, truthy, decrypt_pii_or_null}
use voice_call.Eligibility.{
  SuppressionReason, EligibilityInput, EligibilityResult, eligible, ineligible, reason_text,
  check_eligibility, active_consent_for,
}
use voice_call.Windows.{RawParts, is_within_window, window_from_config}

pub record ClaimedLead : Type 0 where
  pub lead_id : ℕ
  pub tenant_id : ℕ
  pub campaign_id : ℕ
  pub phone_e164 : String
  pub attempt_no : ℕ
  pub consent_id : Option ℕ
  pub consent_basis : Option ConsentBasis
  pub campaign_config_version : ℕ
  pub provider : String
  pub correlation_id : Option String

pub data ClaimSkipReason : Type 0 where
  outside_calling_window tenant_concurrency_reached : ClaimSkipReason
  campaign_concurrency_reached became_ineligible no_phone : ClaimSkipReason

-- The optional `detail`: a time or a reason.
pub data SkipDetail : Type 0 where
  absent : SkipDetail
  opens_at : ℕ → SkipDetail
  because : SuppressionReason → SkipDetail

-- `lead_id` is none for "*", all of the campaign's leads.
pub record Skip : Type 0 where
  pub lead_id : Option ℕ
  pub reason : ClaimSkipReason
  pub detail : SkipDetail

pub record ClaimResult : Type 0 where
  pub claimed : List ClaimedLead
  pub skipped : List Skip

pub record ClaimArgs : Type 0 where
  pub tenant_id : ℕ
  pub campaign_id : ℕ
  pub worker_id : String
  pub limit : Option ℕ
  pub now : ℕ

abbrev pub lock_ttl_ms : ℕ
lock_ttl_ms = 300000

abbrev nothing_claimed : ClaimResult
nothing_claimed = record { claimed = []; skipped = [] }

abbrev skip_all : ClaimSkipReason → SkipDetail → ClaimResult
skip_all reason detail = record {
  claimed = [];
  skipped = record { lead_id = none; reason = reason; detail = detail } ∷ [];
}

-- Outside the window the queue waits for the next opening.
defer_queue : Db → ℕ → ℕ → Db
defer_queue db campaign next_open_at = record db {
  leads =
      update_where (λ l. opt_is l.campaign_id campaign && is_queued l.status)
        (λ l. record l { next_call_at = some (max (get_or l.next_call_at db.now) next_open_at) })
        db.leads;
}

abbrev unlocked : Lead → Lead
unlocked l = record l {
  status = LeadStatus.queued;
  locked_by = none;
  locked_at = none;
  lock_expires_at = none;
}

-- Leads whose worker died mid-call go back on the queue.
abbrev is_stranded : ℕ → ℕ → Lead → Bool
is_stranded campaign now l =
    opt_is l.campaign_id campaign && is_calling l.status && holds (λ t. ltb t now) l.lock_expires_at

pub reclaim : Db → ℕ → List Lead
reclaim db campaign = update_where (is_stranded campaign db.now) unlocked db.leads

abbrev pub is_candidate : (ℕ → Bool) → ClaimArgs → Lead → Bool
is_candidate held args l =
    opt_is l.campaign_id args.campaign_id
    && is_queued l.status
    && (not (is_some l.next_call_at) || holds (λ t. leb t args.now) l.next_call_at)
    && not (held l.id)

-- nulls first
abbrev null_or_le : Option ℕ → Option ℕ → Bool
null_or_le none b = true
null_or_le (some a) b = holds (leb a) b

-- nulls last
abbrev le_or_null : Option ℕ → Option ℕ → Bool
le_or_null a none = true
le_or_null a (some b) = holds (λ x. leb x b) a

-- order by next_call_at nulls first, queued_at
abbrev dial_order : Lead → Lead → Bool
dial_order a b =
    if null_or_le a.next_call_at b.next_call_at
    then (not (null_or_le b.next_call_at a.next_call_at) || le_or_null a.queued_at b.queued_at)
    else false

candidates : (ℕ → Bool) → ClaimArgs → ℕ → List Lead → List Lead
candidates held args headroom leads =
    take headroom (sort_by dial_order (select_where (is_candidate held args) leads))

unfoldable pub tenant_in_flight : Db → ℕ → ℕ
tenant_in_flight db tenant =
    count_where (λ a. a.tenant_id == tenant && is_in_flight a.status) db.call_attempts

unfoldable pub campaign_in_flight : Db → ℕ → ℕ
campaign_in_flight db campaign =
    count_where (λ a. opt_is a.campaign_id campaign && is_in_flight a.status) db.call_attempts

-- `rows[0]?.concurrency_limit ?? 25`
pub tenant_limit : Db → ℕ → ℕ
tenant_limit db tenant = elim (find_tenant db tenant) [ none ↦ 25 | some t ↦ t.concurrency_limit ]

-- Math.max(1, Math.min(args.limit ?? 10, 100))
pub claim_limit : ClaimArgs → ℕ
claim_limit args = max 1 (min (get_or args.limit 10) 100)

-- The differences may be negative in the source, which only ever asks whether they are above 0.
tenant_headroom : Db → ClaimArgs → ℕ
tenant_headroom db args = tenant_limit db args.tenant_id - tenant_in_flight db args.tenant_id

campaign_headroom : Campaign → Db → ClaimArgs → ℕ
campaign_headroom c db args = c.concurrency_limit - campaign_in_flight db args.campaign_id

pub claim_headroom : Campaign → Db → ClaimArgs → ℕ
claim_headroom c db args =
    min (min (tenant_headroom db args) (campaign_headroom c db args)) (claim_limit args)

-- The audit entry, written when something was claimed.
audit_claims : ClaimArgs → ClaimResult → Db → Db
audit_claims args r db = elim r.claimed [
  | [] ↦ db
  | c ∷ cs ↦ audit_in_tx db (record {
    tenant_id = args.tenant_id;
    actor_type = ActorType.service;
    actor_id = none;
    actor_label = some args.worker_id;
    action = "queue.claimed";
    entity_type = "campaign";
    entity_id = Meta.number args.campaign_id;
    metadata =
        ("count", Meta.number (length r.claimed))
        ∷ ("lead_ids", Meta.numbers (map (λ l. l.lead_id) r.claimed))
        ∷ [];
  })
]

abbrev pub input_of : ClaimArgs → Lead → String → EligibilityInput
input_of args row phone = record {
  tenant_id = args.tenant_id;
  lead_id = row.id;
  campaign_id = some args.campaign_id;
  phone_e164 = some phone;
  lead_dnc = row.dnc;
  call_attempt_count = row.call_attempt_count;
}

abbrev quarantined_lead : Lead → Lead
quarantined_lead l = record l {
  status = LeadStatus.quarantined;
  status_reason = some "no_phone_at_claim";
}

abbrev refused_lead : SuppressionReason → String → Lead → Lead
refused_lead reason detail l = record l {
  status = LeadStatus.suppressed;
  status_reason = some (reason_text reason +text ": " +text detail);
  next_call_at = none;
  locked_by = none;
  lock_expires_at = none;
}

abbrev pub locked_lead : String → ℕ → Lead → Lead
locked_lead worker now l = record l {
  status = LeadStatus.calling;
  locked_by = some worker;
  locked_at = some now;
  lock_expires_at = some (now + lock_ttl_ms);
}

pub claimed_lead : Campaign → ClaimArgs → Db → Lead → String → ClaimedLead
claimed_lead c args db row phone =
    let consent = active_consent_for db row.id in
    record {
      lead_id = row.id;
      tenant_id = args.tenant_id;
      campaign_id = args.campaign_id;
      phone_e164 = phone;
      attempt_no = row.call_attempt_count + 1;
      consent_id = elim consent [ none ↦ none | some k ↦ some k.id ];
      consent_basis = elim consent [ none ↦ none | some k ↦ some k.basis ];
      campaign_config_version = c.config_version;
      provider = c.voice_provider;
      correlation_id = row.correlation_id;
    }

abbrev pub released_lead : Option ℕ → Lead → Lead
released_lead requeue_at l = record l {
  status = if is_some requeue_at then LeadStatus.queued else LeadStatus.failed;
  next_call_at = requeue_at;
  locked_by = none;
  locked_at = none;
  lock_expires_at = none;
}

unfoldable pub release_claim : Db → ℕ → Option ℕ → Db
release_claim db lead requeue_at = update_lead db lead (released_lead requeue_at)
