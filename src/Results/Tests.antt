-- ===== src/Results/Tests.antt =====
-- A retry decided for a lead that did not answer.
use voice_call.Base.{◌≡◌, refl, some, none, [], ◌∷◌, first_where}
use voice_call.Fixtures.{a_db, a_lead}
use voice_call.Schema.{Db, Lead, LeadStatus, find_lead}
use voice_call.Retry.{CallOutcome}
use voice_call.Results.{RetryArgs, apply_retry_decision}
use voice_call.Results.Retrying.{IsSettled, find_lead-apply_retry_decision}

abbrev unanswered : RetryArgs
unanswered = record {
  tenant_id = 1;
  lead_id = 7;
  campaign_id = some 2;
  outcome = CallOutcome.no_answer;
  attempts_made = 1;
  callback_at = none;
}

abbrev one_calling : Db
one_calling = a_db (a_lead 7 LeadStatus.calling ∷ []) []

find_lead-apply_retry_decision_example :
    (l : Lead) × (find_lead (apply_retry_decision one_calling unanswered 10500) 7 ≡ some l)
    × IsSettled 10500 l
unfolding find_lead first_where
find_lead-apply_retry_decision_example =
    find_lead-apply_retry_decision one_calling unanswered 10500 (a_lead 7 LeadStatus.calling) refl
