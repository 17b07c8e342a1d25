-- ===== src/Worker.antt =====
-- lib/calling/worker.ts: the calling worker. A voice provider's answer to a request is a parameter,
-- and so are the clock and the random draw of each lead's call.
pub mod Answers
mod Replies
pub mod Dialling
pub mod Ticks
mod Tests
use Prim.Native.String.{compare}
use text.Mathlib.Text.{is_lt, is_eq}
use voice_call.Base.{
  ℕ, suc, ◌+◌, ◌-◌, ◌/◌, String, Bool, true, false, not, ◌&&◌, ◌||◌, Option, none, some, List, [],
  ◌∷◌, ◌++◌, ltb, leb, ◌==◌, str_eq, if◌then◌else◌, get_or, holds, map, any, select_where, sort_by,
  Outcome, ok, err, ◌>>=◌, or_throw, campaign_not_found, insert_failed, unique_violation, ◌+text◌,
  decimal,
}
use voice_call.Schema.{
  Db, Campaign, Tenant, Question, Lead, CallAttempt, CallStatus, ConsentBasis, ActorType, Meta,
  AuditEntry, audit_in_tx, find_campaign, find_tenant, find_lead, update_lead, update_attempt,
}
use voice_call.Pii.{Cipher}
use voice_call.Windows.{RawParts}
use voice_call.Retry.{backoff_delay_ms, default_base_ms, default_max_ms}
use voice_call.Callbacks.{fulfil_callbacks_for_lead}
use voice_call.Queue.{ClaimedLead, ClaimArgs, Skip, release_claim}
use voice_call.Queue.Claiming.{claim_leads}
use voice_call.Results.Delivery.{is_call}

pub record ScriptQuestion : Type 0 where
  pub field_name : String
  pub question : String
  pub required : Bool

pub record CampaignScript : Type 0 where
  pub client_name : String
  pub campaign_name : String
  pub business_context : String
  pub opening : String
  pub questions : List ScriptQuestion
  pub workflow_version : String

-- order by position, field_name
abbrev pub question_order : Question → Question → Bool
question_order a b =
    if a.position == b.position
    then is_lt (compare a.field_name b.field_name) || str_eq a.field_name b.field_name
    else ltb a.position b.position

abbrev pub script_question : Question → ScriptQuestion
script_question q = record {
  field_name = q.field_name;
  question = q.question;
  required = q.required;
}

script_of : Db → Campaign → Tenant → CampaignScript
script_of db c t = record {
  client_name = t.name;
  campaign_name = c.name;
  business_context = get_or c.business_context "";
  opening = get_or c.script "";
  questions =
      map script_question
        (sort_by question_order (select_where (λ q. q.campaign_id == c.id) db.questions));
  workflow_version = "W02.v" +text decimal c.config_version;
}

pub load_script : Db → ℕ → Outcome CampaignScript
load_script db campaign = do
  c ← or_throw (find_campaign db campaign) campaign_not_found
  t ← or_throw (find_tenant db c.tenant_id) campaign_not_found
  ok (script_of db c t)

pub record CallScript : Type 0 where
  pub opening : String
  pub questions : List ScriptQuestion
  pub business_context : String
  pub client_name : String

-- What the provider is asked to dial.
pub record CreateCallRequest : Type 0 where
  pub to : String
  pub call_id : ℕ
  pub tenant_id : ℕ
  pub campaign_id : ℕ
  pub script : CallScript
  pub webhook_url : String
  pub correlation_id : Option String

-- The call is placed, or the provider could not be resolved or threw: `err.retryable`, which is
-- true of every error but a ProviderError that says otherwise, and the message.
pub data ProviderReply : Type 0 where
  placed : (provider_call_id : String) → CallStatus → ProviderReply
  refused : (retryable : Bool) → (detail : String) → ProviderReply

-- What one tick is given, `wall` and `draw` by the lead dialled.
pub record Dialler : Type 0 where
  pub worker_id : String
  pub webhook_base_url : String
  pub create_call : String → CreateCallRequest → ProviderReply
  pub wall : ℕ → ℕ
  pub draw : ℕ → ℕ

pub data DialStatus : Type 0 where
  initiated provider_failed skipped : DialStatus

pub record DialResult : Type 0 where
  pub lead_id : ℕ
  pub call_id : Option ℕ
  pub provider_call_id : Option String
  pub status : DialStatus
  pub detail : Option String

-- greatest(0, extract(epoch from now() - queued_at))::int: seconds, rounded; greatest passes a null.
abbrev pub queue_latency : ℕ → Option ℕ → ℕ
queue_latency now none = 0
queue_latency now (some queued_at) = (now - queued_at + 500) / 1000

pub new_attempt : Db → ClaimedLead → CampaignScript → Lead → CallAttempt
new_attempt db lead script row = record {
  id = db.next_id;
  tenant_id = lead.tenant_id;
  lead_id = lead.lead_id;
  campaign_id = some lead.campaign_id;
  attempt_no = lead.attempt_no;
  provider = lead.provider;
  provider_call_id = none;
  status = CallStatus.initiated;
  started_at = some db.now;
  ended_at = none;
  duration_sec = none;
  queue_latency_sec = some (queue_latency db.now row.queued_at);
  failure_reason = none;
  recording_ref = none;
  consent_id = lead.consent_id;
  consent_basis = lead.consent_basis;
  campaign_config_version = lead.campaign_config_version;
  workflow_version = script.workflow_version;
  correlation_id = lead.correlation_id;
}

-- The unique index on (lead_id, attempt_no).
abbrev pub is_attempt : ℕ → ℕ → CallAttempt → Bool
is_attempt lead attempt a = a.lead_id == lead && a.attempt_no == attempt

insert_for : Db → ClaimedLead → CampaignScript → Lead → Outcome Db
insert_for db lead script row =
    if any (is_attempt lead.lead_id lead.attempt_no) db.call_attempts
    then err unique_violation
    else ok (record db {
      next_id = suc db.next_id;
      call_attempts = db.call_attempts ++ new_attempt db lead script row ∷ [];
    })

-- The durable record comes first.
pub insert_attempt : Db → ClaimedLead → CampaignScript → Outcome Db
insert_attempt db lead script = do
  row ← or_throw (find_lead db lead.lead_id) insert_failed
  insert_for db lead script row

abbrev pub counted_lead : ℕ → ℕ → Lead → Lead
counted_lead attempt_no now l = record l {
  call_attempt_count = attempt_no;
  last_call_at = some now;
}

pub request_of : Dialler → ClaimedLead → CampaignScript → ℕ → CreateCallRequest
request_of d lead script call = record {
  to = lead.phone_e164;
  call_id = call;
  tenant_id = lead.tenant_id;
  campaign_id = lead.campaign_id;
  script = record {
    opening = script.opening;
    questions = script.questions;
    business_context = script.business_context;
    client_name = script.client_name;
  };
  webhook_url = d.webhook_base_url +text "/api/webhooks/voice/" +text lead.provider;
  correlation_id = lead.correlation_id;
}

abbrev basis_text : ConsentBasis → String
basis_text ConsentBasis.opt_in_form = "opt_in_form"
basis_text ConsentBasis.existing_customer = "existing_customer"
basis_text ConsentBasis.service_call = "service_call"
basis_text ConsentBasis.ivr_confirmation = "ivr_confirmation"
basis_text ConsentBasis.other = "other"

abbrev basis_meta : Option ConsentBasis → Meta
basis_meta none = Meta.null
basis_meta (some basis) = Meta.text (basis_text basis)

call_entry : Dialler → ClaimedLead → String → ℕ → List (String × Meta) → AuditEntry
call_entry d lead action call metadata = record {
  tenant_id = lead.tenant_id;
  actor_type = ActorType.service;
  actor_id = none;
  actor_label = some d.worker_id;
  action = action;
  entity_type = "call";
  entity_id = Meta.number call;
  metadata = metadata;
}

abbrev pub placed_attempt : String → CallStatus → CallAttempt → CallAttempt
placed_attempt provider_call_id status a = record a {
  provider_call_id = some provider_call_id;
  status = status;
}

abbrev pub failed_attempt : ℕ → String → CallAttempt → CallAttempt
failed_attempt now detail a = record a {
  status = CallStatus.failed;
  failure_reason = some detail;
  ended_at = some now;
}

pub record_placed : Dialler → Db → ClaimedLead → ℕ → String → CallStatus → Db × DialResult
record_placed d db lead call provider_call_id status = (
  audit_in_tx (update_attempt db call (placed_attempt provider_call_id status)) (
      call_entry d lead "call.initiated" call (
        ("lead_id", Meta.number lead.lead_id)
        ∷ ("attempt_no", Meta.number lead.attempt_no)
        ∷ ("provider", Meta.text lead.provider)
        ∷ ("consent_basis", basis_meta lead.consent_basis)
        ∷ [])),
  record {
    lead_id = lead.lead_id;
    call_id = some call;
    provider_call_id = some provider_call_id;
    status = DialStatus.initiated;
    detail = none;
  },
)

-- `retryable ? new Date(Date.now() + backoffDelayMs(lead.attemptNo)) : null`
pub requeue_at : Dialler → ClaimedLead → Bool → Option ℕ
requeue_at d lead retryable =
    if retryable
    then some (
        d.wall lead.lead_id
        + backoff_delay_ms lead.attempt_no default_base_ms default_max_ms (d.draw lead.lead_id))
    else none

pub record_refused : Dialler → Db → ClaimedLead → ℕ → Bool → String → Db × DialResult
record_refused d db lead call retryable detail = (
  audit_in_tx
      (release_claim (update_attempt db call (failed_attempt db.now detail)) lead.lead_id
        (requeue_at d lead retryable))
      (call_entry d lead "call.provider_failed" call (
        ("lead_id", Meta.number lead.lead_id)
        ∷ ("retryable", Meta.flag retryable)
        ∷ ("detail", Meta.text detail)
        ∷ [])),
  record {
    lead_id = lead.lead_id;
    call_id = some call;
    provider_call_id = none;
    status = DialStatus.provider_failed;
    detail = some detail;
  },
)

-- The index on (provider, provider_call_id) is unique.
pub record_reply : Dialler → Db → ClaimedLead → ℕ → ProviderReply → Outcome (Db × DialResult)
record_reply d db lead call (placed provider_call_id status) =
    if any (is_call lead.provider provider_call_id) db.call_attempts
    then err unique_violation
    else ok (record_placed d db lead call provider_call_id status)
record_reply d db lead call (refused retryable detail) =
    ok (record_refused d db lead call retryable detail)

-- The attempt counts, and the lead's callbacks are kept, before the provider is asked.
pub before_dial : Dialler → Db → ClaimedLead → ℕ → Db
before_dial d db lead call =
    (fulfil_callbacks_for_lead (update_lead db lead.lead_id (counted_lead lead.attempt_no db.now))
      lead.tenant_id lead.lead_id call (d.wall lead.lead_id)).0

pub dial_one : Dialler → Db → ClaimedLead → CampaignScript → Outcome (Db × DialResult)
dial_one d db lead script =
    let call = db.next_id in
    do
      inserted ← insert_attempt db lead script
      record_reply d (before_dial d inserted lead call) lead call
          (d.create_call lead.provider (request_of d lead script call))

unfoldable pub dial_all :
    Dialler → Db → List ClaimedLead → CampaignScript → Outcome (Db × List DialResult)
dial_all d db [] script = ok (db, [])
dial_all d db (lead ∷ leads) script = do
  first ← dial_one d db lead script
  rest ← dial_all d first.0 leads script
  ok (rest.0, first.1 ∷ rest.1)

pub record CallingTickResult : Type 0 where
  pub dialled : List DialResult
  pub skipped : List Skip

unfoldable pub run_calling_tick :
    Cipher
    → (ℕ → String → RawParts)
    → (ℕ → Bool)
    → Dialler
    → ClaimArgs
    → Db
    → Outcome (Db × CallingTickResult)
run_calling_tick cipher intl held d args db = do
  claim ← claim_leads cipher intl held args db
  script ← load_script claim.0 args.campaign_id
  done ← dial_all d claim.0 claim.1.claimed script
  ok (done.0, record { dialled = done.1; skipped = claim.1.skipped })
