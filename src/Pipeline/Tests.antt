-- ===== src/Pipeline/Tests.antt =====
-- Commits of a refusal and of a callback without a time.
use voice_call.Base.{ℕ, ◌≡◌, refl, String, true, Option, none, some, [], ◌∷◌, ok, first_where}
use voice_call.Base.Int.{pos}
use voice_call.Fixtures.{plain_cipher, result_or, a_db, a_lead, keen_result}
use voice_call.Schema.{Db, CallbackStatus, LeadStatus, find_lead}
use voice_call.Schema.Qualification.{QualificationResult}
use voice_call.Pii.{decrypt_pii, decrypt_pii_or_null, truthy}
use voice_call.Scoring.{RoutingAction}
use voice_call.Pipeline.{CommitArgs, commit_analysis, valid_time}
use voice_call.Pipeline.Commit.{commit_analysis-do_not_call, commit_analysis-callback_closed}

abbrev unreadable : String → Option ℕ
unreadable text = none

abbrev calling_db : Db
calling_db = a_db (a_lead 7 LeadStatus.awaiting_analysis ∷ []) []

abbrev commit_of : QualificationResult → CommitArgs
commit_of result = record {
  tenant_id = 1;
  analysis_id = 50;
  call_id = 4;
  lead_id = 7;
  campaign_id = some 2;
  attempt_no = 1;
  result = result;
  score = pos 80;
  routing_action = RoutingAction.schedule_callback;
}

abbrev refusal : CommitArgs
refusal = commit_of (record keen_result { do_not_call = true })

abbrev some_time : CommitArgs
some_time = commit_of (record keen_result { callback_requested = true })

abbrev after : CommitArgs → Db
after args = result_or calling_db (commit_analysis plain_cipher unreadable 10500 calling_db args)

some_time-ok :
    commit_analysis plain_cipher unreadable 10500 calling_db some_time ≡ ok (after some_time)
unfolding commit_analysis decrypt_pii decrypt_pii_or_null find_lead first_where
some_time-ok = refl

refusal-ok : commit_analysis plain_cipher unreadable 10500 calling_db refusal ≡ ok (after refusal)
unfolding commit_analysis decrypt_pii decrypt_pii_or_null find_lead first_where
refusal-ok = refl

commit_analysis-do_not_call_example :
    (find_lead (after refusal) 7
      ≡ some (record (a_lead 7 LeadStatus.awaiting_analysis) {
        dnc = true;
        status = LeadStatus.suppressed;
        status_reason = some "voice_detected_dnc";
        next_call_at = none;
        locked_by = none;
        lock_expires_at = none;
      }))
    × ((after refusal).callbacks ≡ [])
unfolding find_lead first_where
commit_analysis-do_not_call_example =
    commit_analysis-do_not_call plain_cipher unreadable 10500 calling_db refusal (after refusal)
      (a_lead 7 LeadStatus.awaiting_analysis) refl refl refusal-ok

commit_analysis-callback_closed_example :
    (find_lead (after some_time) 7
      ≡ some (record (a_lead 7 LeadStatus.awaiting_analysis) {
        status = LeadStatus.closed;
        status_reason = some "completed";
        next_call_at = none;
        locked_by = none;
        locked_at = none;
        lock_expires_at = none;
      }))
    × ((after some_time).callbacks
        ≡ record {
          id = calling_db.next_id;
          tenant_id = 1;
          lead_id = 7;
          call_id = some 4;
          scheduled_for = 86410500;
          status = CallbackStatus.scheduled;
          resolved_at = none;
          resolved_by = none;
          fulfilled_call_id = none;
          note = none;
        }
          ∷ [])
unfolding find_lead first_where valid_time truthy
commit_analysis-callback_closed_example =
    commit_analysis-callback_closed plain_cipher unreadable 10500 calling_db some_time
      (after some_time) (a_lead 7 LeadStatus.awaiting_analysis) refl refl refl refl some_time-ok
