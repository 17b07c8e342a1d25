-- ===== src/Results/Delivery/Tests.antt =====
-- A call that nobody answered, reported twice.
use voice_call.Base.{◌≡◌, refl, none, [], ◌∷◌, ok, first_where, update_where, any}
use voice_call.Fixtures.{plain_cipher, result_or, a_db, a_lead, an_attempt}
use voice_call.Schema.{
  Db, LeadStatus, CallStatus, find_campaign, update_lead, update_attempt, audit_in_tx,
}
use voice_call.Retry.{decide_retry, retry_policy_from_config}
use voice_call.Results.{
  NormalizedWebhook, ResultOutcome, duplicate, unknown_call, apply_retry_decision, retry_decision,
  decided, calling_config_of,
}
use voice_call.Results.Delivery.{
  record_call_result, record_known, record_terminal, route_result, is_connected, close_attempt,
  add_transcript,
}
use voice_call.Results.Delivery.Laws.{record_call_result_once}

abbrev no_reply : NormalizedWebhook
no_reply = record {
  provider_call_id = "call-1";
  status = CallStatus.no_answer;
  duration_sec = none;
  failure_reason = none;
  transcript = none;
  suppress = none;
}

abbrev in_call : Db
in_call = a_db (a_lead 7 LeadStatus.calling ∷ []) (an_attempt 4 7 CallStatus.ringing ∷ [])

abbrev nothing_done : Db × ResultOutcome
nothing_done = (in_call, unknown_call)

abbrev delivered : Db × ResultOutcome
delivered =
    result_or nothing_done (record_call_result plain_cipher 1 "mock" "iv" 10500 in_call no_reply)

delivered-ok : record_call_result plain_cipher 1 "mock" "iv" 10500 in_call no_reply ≡ ok delivered
unfolding record_call_result record_known record_terminal route_result is_connected close_attempt
    add_transcript first_where update_where any apply_retry_decision retry_decision decided
    calling_config_of decide_retry retry_policy_from_config find_campaign update_lead update_attempt
    audit_in_tx
delivered-ok = refl

-- The carrier reports the call as completed after all.
record_call_result_once_example :
    record_call_result plain_cipher 1 "mock" "iv" 20000 delivered.0
      (record no_reply { status = CallStatus.completed })
    ≡ ok (delivered.0, duplicate 4)
unfolding first_where
record_call_result_once_example =
    record_call_result_once plain_cipher 1 "mock" "iv" "iv" 10500 20000 in_call delivered.0 no_reply
      (record no_reply { status = CallStatus.completed }) delivered
      (an_attempt 4 7 CallStatus.ringing) refl refl delivered-ok refl refl
