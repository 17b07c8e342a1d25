-- ===== src/Worker/Tests.antt =====
-- A tick that places one call, and one that the provider refuses.
use voice_call.Base.{
  ℕ, ◌≡◌, refl, Bool, true, false, none, [], ◌∷◌, arith, ok, any, first_where, select_where,
  count_where, update_where, sort_by, decimal,
}
use voice_call.Fixtures.{result_or, plain_cipher, monday_morning, a_lead, a_db, an_attempt}
use voice_call.Schema.{
  Db, LeadStatus, CallStatus, find_tenant, find_campaign, find_lead, update_lead, update_attempt,
  audit_in_tx,
}
use voice_call.Queue.{ClaimArgs, ClaimedLead, release_claim, tenant_in_flight, campaign_in_flight}
use voice_call.Queue.Claiming.{claim_leads}
use voice_call.Pii.{decrypt_pii, decrypt_pii_or_null, truthy}
use voice_call.Eligibility.{check_eligibility, active_consent_for}
use voice_call.Windows.{is_within_window, window_from_config}
use voice_call.Callbacks.{fulfil_callbacks_for_lead}
use voice_call.Worker.{
  CampaignScript, ProviderReply, placed, refused, Dialler, DialResult, DialStatus, insert_attempt,
  insert_for, record_reply, before_dial, new_attempt, record_refused, record_placed, load_script,
  script_of, dial_all, CallingTickResult, dial_one, run_calling_tick,
}
use voice_call.Worker.Dialling.{IsDialled, dial_one_records}
use voice_call.Worker.Ticks.{TickKeeps, run_calling_tick_caps}

abbrev a_dialler : ProviderReply → Dialler
a_dialler reply = record {
  worker_id = "w1";
  webhook_base_url = "https://app";
  create_call = λ provider request. reply;
  wall = λ lead. 10500;
  draw = λ lead. 0;
}

abbrev busy_line : Dialler
busy_line = a_dialler (refused true "timeout")

abbrev good_line : Dialler
good_line = a_dialler (placed "call-9" CallStatus.ringing)

abbrev a_script : CampaignScript
a_script = record {
  client_name = "Acme";
  campaign_name = "Homes";
  business_context = "";
  opening = "Hello";
  questions = [];
  workflow_version = "W02.v1";
}

abbrev a_claim : ClaimedLead
a_claim = record {
  lead_id = 7;
  tenant_id = 1;
  campaign_id = 2;
  phone_e164 = "+911234567890";
  attempt_no = 2;
  consent_id = none;
  consent_basis = none;
  campaign_config_version = 1;
  provider = "mock";
  correlation_id = none;
}

abbrev called_once : Db
called_once = a_db (a_lead 7 LeadStatus.calling ∷ []) (an_attempt 4 7 CallStatus.no_answer ∷ [])

abbrev no_dial : Db × DialResult
no_dial = (
  called_once,
  record {
    lead_id = 0;
    call_id = none;
    provider_call_id = none;
    status = DialStatus.provider_failed;
    detail = none;
  },
)

abbrev refused_dial : Db × DialResult
refused_dial = result_or no_dial (dial_one busy_line called_once a_claim a_script)

refused_dial-ok : dial_one busy_line called_once a_claim a_script ≡ ok refused_dial
unfolding dial_one insert_attempt insert_for record_reply before_dial new_attempt record_refused
    fulfil_callbacks_for_lead first_where any update_where find_lead update_lead update_attempt
    audit_in_tx release_claim select_where
refused_dial-ok = refl

dial_one_records_example : IsDialled busy_line called_once a_claim a_script refused_dial
dial_one_records_example =
    dial_one_records busy_line called_once a_claim a_script refused_dial (omega arith, tt)
      refused_dial-ok

abbrev the_args : ClaimArgs
the_args = record { tenant_id = 1; campaign_id = 2; worker_id = "w1"; limit = none; now = 10000 }

abbrev one_queued : Db
one_queued = a_db (a_lead 7 LeadStatus.queued ∷ []) []

abbrev no_tick : Db × CallingTickResult
no_tick = (one_queued, record { dialled = []; skipped = [] })

abbrev nothing_held : ℕ → Bool
nothing_held id = false

abbrev the_tick : Db × CallingTickResult
the_tick =
    result_or no_tick
      (run_calling_tick plain_cipher monday_morning nothing_held good_line the_args one_queued)

the_tick-ok :
    run_calling_tick plain_cipher monday_morning nothing_held good_line the_args one_queued
    ≡ ok the_tick
unfolding run_calling_tick load_script script_of dial_all dial_one insert_attempt insert_for
    record_reply before_dial new_attempt record_placed fulfil_callbacks_for_lead first_where any
    update_where find_lead update_lead update_attempt audit_in_tx select_where count_where sort_by
    claim_leads tenant_in_flight campaign_in_flight is_within_window window_from_config find_tenant
    find_campaign decrypt_pii decrypt_pii_or_null truthy check_eligibility active_consent_for
    decimal
the_tick-ok = refl

run_calling_tick_caps_example : TickKeeps the_args one_queued the_tick
run_calling_tick_caps_example =
    run_calling_tick_caps plain_cipher monday_morning nothing_held good_line the_args one_queued
      the_tick tt the_tick-ok
